-- ===== src/Gorm/Memory.antt =====
-- A database in memory that meets the hypotheses of Gorm/Laws.antt, so that the theorems can be
-- applied and the operations run. Each statement takes the head of a schedule of faults: `true`
-- makes it fail. It is no model of gorm or PostgreSQL.
pub mod Laws
use go_user_and_service_mgmt.Prelude.{
  ℕ, suc, ℤ, Bool, true, false, not, List, [], ◌∷◌, ◌++◌, ◌≡◌, ◌&&◌, ◌==◌, number_comparable, leb,
  ltb, ◌^◌, count_if, filter, length, if◌then◌else◌,
}
use go_user_and_service_mgmt.Errors.{GoError}
use go_user_and_service_mgmt.Models.{User, UserRole, Service, ServiceVersion}
use go_user_and_service_mgmt.Gorm.{Action, Result, ok, err, Table, Tables, Database}
use go_user_and_service_mgmt.Gorm.Laws.{
  Schema, limited, skipped, update_where, user_schema, user_role_schema, service_schema,
  version_schema,
}

pub record Memory : Type 0 where
  pub store : Tables
  pub schedule : List Bool

abbrev pub run {ℓ} :
    {A : Type ℓ} → (Tables → Result A × Tables) → Tables → List Bool → Result A × Memory
run f t schedule = let (r, t') = f t in (r, record { store = t'; schedule = schedule })

abbrev pub run_at :
    {A : Type 0} → (Tables → Result A × Tables) → Tables → List Bool → Result A × Memory
run_at f t [] = run f t []
run_at f t (true ∷ rest) = (err GoError.driver_failure, record { store = t; schedule = rest })
run_at f t (false ∷ rest) = run f t rest

-- One statement, which may be scheduled to fail.
abbrev pub statement : {A : Type 0} → (Tables → Result A × Tables) → Action Memory A
statement f m = run_at f m.store m.schedule

-- No two entries have the same key.
abbrev pub distinct {ℓ} : {R : Type ℓ} → (R → R → Bool) → List R → Bool
distinct same [] = true
distinct same (r ∷ rows) = let rest = distinct same rows in count_if (same r) rows == 0 && rest

abbrev pub first_of {ℓ} : {R : Type ℓ} → (R → Bool) → List R → Result R
first_of p [] = err GoError.record_not_found
first_of p (r ∷ rows) = let rest = first_of p rows in if p r then ok r else rest

module _ {R : Type 0} (rows : Tables → List R) where
  abbrev pub count_rows : (R → Bool) → Tables → Result ℕ × Tables
  count_rows p t =
      if ltb (count_if p (rows t)) (2 ^ 63)
      then (ok (count_if p (rows t)), t)
      else (err GoError.driver_failure, t)

  abbrev pub first_row : (R → Bool) → Tables → Result R × Tables
  first_row p t = (first_of p (rows t), t)

  abbrev pub find_rows : (R → Bool) → ℤ → ℤ → Tables → Result (List R) × Tables
  find_rows p limit offset t = (ok (limited limit (skipped offset (filter p (rows t)))), t)

-- The table can take one more row and still be counted.
abbrev pub has_room {ℓ} : {R : Type ℓ} → List R → Bool
has_room rows = ltb (suc (length rows)) (2 ^ 63)

module _ {R : Type 0} (s : Schema R) where
  -- `fill` gives a new row its key, and `allowed` is the foreign key.
  abbrev pub create_row : (List R → R → R) → (Tables → R → Bool) → R → Tables → Result R × Tables
  create_row fill allowed given t =
      let r = fill (s.rows t) given in
      if count_if (s.conflicts given) (s.rows t) == 0
      then (if allowed t given && count_if (s.same_id r) (s.rows t) == 0 && has_room (s.rows t)
          then (ok r, s.put (s.rows t ++ r ∷ []) t)
          else (err GoError.driver_failure, t))
      else (err GoError.unique_key_violation, t)

  abbrev pub write_rows : List R → Tables → Result (Unit {0}) × Tables
  write_rows rows t = (ok tt, s.put rows t)

  abbrev pub write_unique_rows : List R → Tables → Result (Unit {0}) × Tables
  write_unique_rows rows t =
      if distinct s.same_key rows
      then (ok tt, s.put rows t)
      else (err GoError.unique_key_violation, t)

  abbrev pub memory_table : (List R → R → R) → (Tables → R → Bool) → Table Memory R
  memory_table fill allowed = record {
    count = λ p. statement (count_rows s.rows p);
    first = λ p. statement (first_row s.rows p);
    create = λ given. statement (create_row fill allowed given);
    updates =
        λ p new. statement (λ t. write_unique_rows (update_where p (s.updated new) (s.rows t)) t);
    set_columns = λ p f. statement (λ t. write_rows (update_where p f (s.rows t)) t);
    delete = λ p. statement (λ t. write_rows (filter (λ r. not (p r)) (s.rows t)) t);
    find = λ p limit offset. statement (find_rows s.rows p limit offset);
  }

abbrev pub largest : List ℕ → ℕ
largest [] = 0
largest (n ∷ ns) = let m = largest ns in if leb n m then m else n

abbrev pub user_ids : List User → List ℕ
user_ids [] = []
user_ids (u ∷ l) = u.id ∷ user_ids l

abbrev pub service_ids : List Service → List ℕ
service_ids [] = []
service_ids (s ∷ l) = s.id ∷ service_ids l

abbrev pub fill_user : List User → User → User
fill_user rows u = record u { id = suc (largest (user_ids rows)) }

abbrev pub fill_service : List Service → Service → Service
fill_service rows s = record s { id = suc (largest (service_ids rows)) }

abbrev pub finish_transaction : Tables → Result (Unit {0}) × Memory → Result (Unit {0}) × Memory
finish_transaction before (ok _, m) = (ok tt, m)
finish_transaction before (err e, m) = (err e, record m { store = before })

abbrev pub memory : Database Memory
memory = record {
  tables = λ m. m.store;
  users = memory_table user_schema fill_user (λ _ _. true);
  user_roles = memory_table user_role_schema (λ _ r. r) (λ _ _. true);
  services = memory_table service_schema fill_service (λ _ _. true);
  versions =
      memory_table version_schema (λ _ v. v)
        (λ t v. not (count_if (λ (x : Service). x.id == v.service_id) t.service == 0));
  name_sorted_services =
      memory_table
        (record service_schema {
          rows = λ t. t.name_sorted_service;
          put = λ l t. record t { name_sorted_service = l };
        })
        fill_service (λ _ _. true);
  refresh_view = statement (λ t. (ok tt, record t { name_sorted_service = t.service }));
  transaction = λ body m. finish_transaction m.store (body m);
}
