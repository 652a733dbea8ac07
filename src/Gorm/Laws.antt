-- ===== src/Gorm/Laws.antt =====
-- What the program relies on in gorm and PostgreSQL, as named hypotheses on a `Database`.
-- A call that returns an error leaves the tables as they were.
use go_user_and_service_mgmt.Prelude.{
  ℕ, ℤ, pos, negsuc, String, Bool, true, false, not, List, ◌∷◌, map, ◌≡◌, ◌≤◌, ◌<◌, ◌^◌, take, drop,
  filter, count_if, SameRows, IsRow, ◌==◌, ◌&&◌, ◌||◌, if◌then◌else◌, number_comparable,
  text_comparable,
}
use go_user_and_service_mgmt.Errors.{is_record_not_found, is_unique_key_violation}
use go_user_and_service_mgmt.Models.{User, UserRole, Service, ServiceVersion}
use go_user_and_service_mgmt.Gorm.{Action, Result, ok, err, Table, Tables, Database}

-- gorm's window: a negative limit is no limit, a negative offset is no offset.
abbrev pub limited {ℓ} : {A : Type ℓ} → ℤ → List A → List A
limited (pos n) rows = take n rows
limited (negsuc _) rows = rows

abbrev pub skipped {ℓ} : {A : Type ℓ} → ℤ → List A → List A
skipped (pos n) rows = drop n rows
skipped (negsuc _) rows = rows

abbrev is_zero : ℤ → Bool
is_zero (pos n) = n == 0
is_zero (negsuc _) = false

-- What `Updates` with a struct does to a row: it sets the fields that are not zero values.
abbrev pub non_empty : String → String → String
non_empty new old = if new == "" then old else new

abbrev pub non_zero : ℕ → ℕ → ℕ
non_zero new old = if new == 0 then old else new

abbrev pub updated_user : User → User → User
updated_user new old = record {
  id = non_zero new.id old.id;
  name = non_empty new.name old.name;
  email = non_empty new.email old.email;
  role = non_empty new.role old.role;
  password_hash = non_empty new.password_hash old.password_hash;
  is_temporary_password = new.is_temporary_password || old.is_temporary_password;
}

abbrev pub updated_user_role : UserRole → UserRole → UserRole
updated_user_role new old = record {
  name = non_empty new.name old.name;
  description = non_empty new.description old.description;
}

abbrev pub updated_service : Service → Service → Service
updated_service new old = record {
  id = non_zero new.id old.id;
  name = non_empty new.name old.name;
  description = non_empty new.description old.description;
  version_count = if is_zero new.version_count then old.version_count else new.version_count;
}

abbrev pub updated_version : ServiceVersion → ServiceVersion → ServiceVersion
updated_version new old = record {
  service_id = non_zero new.service_id old.service_id;
  tag = non_empty new.tag old.tag;
  info = non_empty new.info old.info;
}

-- The rows that meet the condition, changed by `f`.
abbrev pub update_where {ℓ} : {R : Type ℓ} → (R → Bool) → (R → R) → List R → List R
update_where p f = map (λ r. if p r then f r else r)

-- One table: where its rows stand, which columns identify a row, which are unique, with which
-- stored rows a new one is refused, what the database fills in on `Create`, and what `Updates`
-- with a struct does to a row.
pub record Schema (R : Type 0) : Type 0 where
  pub rows : Tables → List R
  pub put : List R → Tables → Tables
  pub same_id : R → R → Bool
  pub same_key : R → R → Bool
  pub conflicts : R → R → Bool
  pub filled : R → R → R
  pub updated : R → R → R

abbrev pub user_schema : Schema User
user_schema = record {
  rows = λ t. t.user;
  put = λ l t. record t { user = l };
  same_id = λ r x. x.id == r.id;
  same_key = λ r x. x.email == r.email;
  conflicts = λ r x. x.email == r.email;
  filled = λ given stored. record given { id = stored.id };
  updated = updated_user;
}

abbrev pub user_role_schema : Schema UserRole
user_role_schema = record {
  rows = λ t. t.user_role;
  put = λ l t. record t { user_role = l };
  same_id = λ r x. x.name == r.name;
  same_key = λ r x. x.name == r.name;
  conflicts = λ r x. x.name == r.name || x.description == r.description;
  filled = λ given stored. given;
  updated = updated_user_role;
}

abbrev pub service_schema : Schema Service
service_schema = record {
  rows = λ t. t.service;
  put = λ l t. record t { service = l };
  same_id = λ r x. x.id == r.id;
  same_key = λ r x. x.name == r.name;
  conflicts = λ r x. x.name == r.name;
  filled = λ given stored. record given { id = stored.id };
  updated = updated_service;
}

abbrev pub version_schema : Schema ServiceVersion
version_schema = record {
  rows = λ t. t.version;
  put = λ l t. record t { version = l };
  same_id = λ r x. x.tag == r.tag && x.service_id == r.service_id;
  same_key = λ r x. x.tag == r.tag && x.service_id == r.service_id;
  conflicts = λ r x. x.tag == r.tag && x.service_id == r.service_id;
  filled = λ given stored. given;
  updated = updated_version;
}

-- What a call does, by how it ended; `before` is what the tables held.
module _ {World : Type 0} (tables : World → Tables) (before : Tables) where
  -- A reading call returns what it should, or an error.
  abbrev pub Reads : {A : Type 0} → A → Result A × World → Type 0
  Reads expected (ok a, w') = (tables w' ≡ before) × (a ≡ expected)
  Reads expected (err _, w') = tables w' ≡ before

  -- `Find` returns the rows that meet the condition, cut by the window, in an order that the
  -- database chooses at each call: no query of the program has an `ORDER BY`.
  abbrev pub Finds : {R : Type 0} → (R → Bool) → ℤ → ℤ → List R → Result (List R) × World → Type 0
  Finds {R} p limit offset rows (ok found, w') =
      (tables w' ≡ before)
      × ((order : List R) × SameRows order (filter p rows)
          × (found ≡ limited limit (skipped offset order)))
  Finds p limit offset rows (err _, w') = tables w' ≡ before

  -- `First` returns a row that meets the condition, and says "not found" only if there is none.
  abbrev pub ReadsFirst : {R : Type 0} → (R → Bool) → List R → Result R × World → Type 0
  ReadsFirst p rows (ok r, w') = (tables w' ≡ before) × (p r ≡ true) × IsRow r rows
  ReadsFirst p rows (err e, w') =
      (tables w' ≡ before) × (is_record_not_found e ≡ true → count_if p rows ≡ 0)

  module _ {R : Type 0} (s : Schema R) where
    -- `Create` adds a row under a fresh key, or is refused; the unique indexes refuse a row that
    -- conflicts with a stored one, and nothing else is reported as a violation of them.
    abbrev pub Creates : R → Result R × World → Type 0
    Creates given (ok r, w') =
        (tables w' ≡ s.put (s.rows (tables w')) before)
        × (r ≡ s.filled given r)
        × SameRows (s.rows (tables w')) (r ∷ s.rows before)
        × (count_if (s.same_id r) (s.rows before) ≡ 0)
        × (count_if (s.conflicts given) (s.rows before) ≡ 0)
    Creates given (err e, w') =
        (tables w' ≡ before)
        × (is_unique_key_violation e ≡ true → 0 < count_if (s.conflicts given) (s.rows before))

    -- A write that leaves the given rows, in some order, or fails. It never says "not found": gorm
    -- keeps `ErrRecordNotFound` for `First`, `Last` and `Take`.
    abbrev pub Writes : List R → Result (Unit {0}) × World → Type 0
    Writes rows (ok _, w') =
        (tables w' ≡ s.put (s.rows (tables w')) before) × SameRows (s.rows (tables w')) rows
    Writes rows (err e, w') = (tables w' ≡ before) × (is_record_not_found e ≡ false)

    -- Such a write, after which the unique index holds.
    abbrev pub WritesUnique : List R → Result (Unit {0}) × World → Type 0
    WritesUnique rows (ok _, w') =
        (tables w' ≡ s.put (s.rows (tables w')) before)
        × SameRows (s.rows (tables w')) rows
        × ((r : R) → count_if (s.same_key r) (s.rows (tables w')) ≤ 1)
    WritesUnique rows (err e, w') = (tables w' ≡ before) × (is_record_not_found e ≡ false)

  -- A transaction runs its body on the tables as they are and keeps what it did if the body and
  -- the commit succeed; otherwise nothing has happened.
  abbrev pub Transacts : Action World (Unit {0}) → Result (Unit {0}) × World → Type 0
  Transacts body (ok _, w') =
      (w₀ : World) × (tables w₀ ≡ before) × ((body w₀).0 ≡ ok tt) × (tables w' ≡ tables (body w₀).1)
  Transacts body (err _, w') = tables w' ≡ before

  -- The view holds the services as they are now.
  abbrev pub Refreshes : Result (Unit {0}) × World → Type 0
  Refreshes (ok _, w') =
      (tables w' ≡ record before { name_sorted_service = (tables w').name_sorted_service })
      × SameRows (tables w').name_sorted_service before.service
  Refreshes (err _, w') = tables w' ≡ before

-- A version is created only if its service exists (`foreignKey:ServiceID;references:ID`).
abbrev pub Refers :
    {World : Type 0} → Tables → ServiceVersion → Result ServiceVersion × World → Type 0
Refers before v (ok _, _) = 0 < count_if (λ x. x.id == v.service_id) before.service
Refers before v (err _, _) = Unit

-- The calls that only read.
pub record IsReadable {World R : Type 0} (tables : World → Tables) (rows : Tables → List R)
    (t : Table World R) : Type 0 where
  pub count_lem :
      (p : R → Bool) (w : World)
      → Reads tables (tables w) (count_if p (rows (tables w))) (t.count p w)
  -- `count(*)` is a `bigint`.
  pub count_range : (p : R → Bool) (w : World) (n : ℕ) → (t.count p w).0 ≡ ok n → n < 2 ^ 63
  pub first_lem :
      (p : R → Bool) (w : World) → ReadsFirst tables (tables w) p (rows (tables w)) (t.first p w)
  pub find_lem :
      (p : R → Bool) (limit offset : ℤ) (w : World)
      → Finds tables (tables w) p limit offset (rows (tables w)) (t.find p limit offset w)

pub record IsTable {World R : Type 0} (tables : World → Tables) (s : Schema R) (t : Table World R)
    : Type 0 where
  pub readable : IsReadable tables s.rows t
  pub create_lem : (given : R) (w : World) → Creates tables (tables w) s given (t.create given w)
  pub updates_lem :
      (p : R → Bool) (new : R) (w : World)
      → WritesUnique tables
          (tables w)
          s
          (update_where p (s.updated new) (s.rows (tables w)))
          (t.updates p new w)
  pub set_columns_lem :
      (p : R → Bool) (f : R → R) (w : World)
      → Writes tables (tables w) s (update_where p f (s.rows (tables w))) (t.set_columns p f w)
  pub delete_lem :
      (p : R → Bool) (w : World)
      → Writes tables (tables w) s (filter (λ r. not (p r)) (s.rows (tables w))) (t.delete p w)

-- The hypotheses on the whole database.
pub record IsRelational {World : Type 0} (db : Database World) : Type 0 where
  pub users_lem : IsTable db.tables user_schema db.users
  pub user_roles_lem : IsTable db.tables user_role_schema db.user_roles
  pub services_lem : IsTable db.tables service_schema db.services
  pub versions_lem : IsTable db.tables version_schema db.versions
  pub view_lem : IsReadable db.tables (λ t. t.name_sorted_service) db.name_sorted_services
  pub foreign_key :
      (v : ServiceVersion) (w : World) → Refers (db.tables w) v (db.versions.create v w)
  pub refresh_lem : (w : World) → Refreshes db.tables (db.tables w) (db.refresh_view w)
  pub transaction_lem :
      (body : Action World (Unit {0})) (w : World)
      → Transacts db.tables (db.tables w) body (db.transaction body w)

-- A call that succeeds, and leaves a calm world.
abbrev pub Succeeds : {World A : Type 0} → (World → Type 0) → Result A × World → Type 0
Succeeds Calm (ok _, w') = Calm w'
Succeeds Calm (err _, _) = ⊥
