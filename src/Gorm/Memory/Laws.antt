-- ===== src/Gorm/Memory/Laws.antt =====
-- The database in memory meets the hypotheses.
use go_user_and_service_mgmt.Prelude.{
  ℕ, ltb, ◌<◌, ◌^◌, Bool, true, false, not, List, [], ◌∷◌, ◌≡◌, refl, ◌≤◌, arith, ◌&&◌, ◌==◌,
  number_comparable, text_comparable, eq_iff, count_if, filter, count_if-append, count_if-le,
  Bool-cases, inl, inr,
}
use go_user_and_service_mgmt.Errors.{GoError}
use go_user_and_service_mgmt.Models.{User, UserRole, Service, ServiceVersion}
use go_user_and_service_mgmt.Gorm.{Action, Result, ok, err, Tables}
use go_user_and_service_mgmt.Gorm.Laws.{
  Schema, Reads, Finds, ReadsFirst, Creates, Writes, WritesUnique, Transacts, Refreshes, Refers,
  IsReadable, IsTable, IsRelational, update_where, user_schema, user_role_schema, service_schema,
  version_schema,
}
use go_user_and_service_mgmt.Gorm.Memory.{
  Memory, memory, memory_table, run_at, distinct, first_of, count_rows, first_row, find_rows,
  create_row, write_rows, write_unique_rows, has_room, fill_user, fill_service, finish_transaction,
}

abbrev store_of : Memory → Tables
store_of m = m.store

-- A statement does what its function does, or fails and changes nothing.
run_at-cases :
    {A : Type 0} (P : Result A × Memory → Type 0) (f : Tables → Result A × Tables) (t : Tables)
    (schedule : List Bool)
    → ((rest : List Bool) → P ((f t).0, record { store = (f t).1; schedule = rest }))
    → ((rest : List Bool) → P (err GoError.driver_failure, record { store = t; schedule = rest }))
    → P (run_at f t schedule)
run_at-cases P f t [] good bad = good []
run_at-cases P f t (true ∷ rest) good bad = bad rest
run_at-cases P f t (false ∷ rest) good bad = good rest

pub distinct-once :
    {R : Type 0} (same : R → R → Bool)
    → ((r x y : R) → same r x ≡ true → same r y ≡ true → same x y ≡ true)
    → (rows : List R) → distinct same rows ≡ true
    → (r : R) → count_if (same r) rows ≤ 1
distinct-once same euclid [] d r = omega arith
distinct-once same euclid (x ∷ rows) d r = elim (Bool-cases (same r x)) [
  | inl h ↦ ground (arith, count_if-le (same r) (same x) rows (λ y k. euclid r x y h k))
  | inr h ↦ ground (arith, distinct-once same euclid rows (ground arith) r)
]

-- A row that fails the condition in front changes nothing.
ReadsFirst-cons :
    {R : Type 0} (p : R → Bool) (r : R) (rows : List R) (t : Tables) (x : Result R × Memory)
    → p r ≡ false
    → ReadsFirst store_of t p rows x
    → ReadsFirst store_of t p (r ∷ rows) x
ReadsFirst-cons p r rows t (ok a, m) h (same, passes, row) =
    (same, passes, λ q k. ground (arith, row q k))
ReadsFirst-cons p r rows t (err e, m) h (same, missing) = (same, λ k. ground (arith, missing k))

first_of-ReadsFirst :
    {R : Type 0} (p : R → Bool) (rows : List R) (t : Tables) (rest : List Bool)
    → ReadsFirst store_of t p rows (first_of p rows, record { store = t; schedule = rest })
first_of-ReadsFirst p [] t rest = (refl, λ h. refl)
first_of-ReadsFirst p (r ∷ rows) t rest = elim (Bool-cases (p r)) [
  | inl h ↦ rw h (refl, h, λ q k. ground arith)
  | inr h ↦ rw h (ReadsFirst-cons p r rows t _ h (first_of-ReadsFirst p rows t rest))
]

IsReadable-memory :
    {R : Type 0} (s : Schema R) (fill : List R → R → R) (allowed : Tables → R → Bool)
    → IsReadable store_of s.rows (memory_table s fill allowed)
IsReadable-memory s fill allowed = record {
  count_lem = λ p m.
      run_at-cases (Reads store_of m.store (count_if p (s.rows m.store))) (count_rows s.rows p)
        m.store m.schedule
        (λ rest. elim (Bool-cases (ltb (count_if p (s.rows m.store)) (2 ^ 63))) [
          | inl small ↦ rw small (refl, refl)
          | inr big ↦ rw big refl
        ])
        (λ rest. refl);
  count_range = λ p m.
      run_at-cases (λ x. (n : ℕ) → x.0 ≡ ok n → n < 2 ^ 63) (count_rows s.rows p) m.store m.schedule
        (λ rest. elim (Bool-cases (ltb (count_if p (s.rows m.store)) (2 ^ 63))) [
          | inl small ↦ rw small (λ n h. ground arith)
          | inr big ↦ rw big (λ n h. ground arith)
        ])
        (λ rest n h. ground arith);
  first_lem = λ p m.
      run_at-cases (ReadsFirst store_of m.store p (s.rows m.store)) (first_row s.rows p) m.store
        m.schedule (first_of-ReadsFirst p (s.rows m.store) m.store) (λ rest. (refl, λ h. cc));
  find_lem = λ p limit offset m.
      run_at-cases (Finds store_of m.store p limit offset (s.rows m.store))
        (find_rows s.rows p limit offset) m.store m.schedule
        (λ rest. (refl, (filter p (s.rows m.store), λ q. refl, refl))) (λ rest. refl);
}

module _ {R : Type 0} (s : Schema R) (fill : List R → R → R) (allowed : Tables → R → Bool)
    (rows-put : (l : List R) (t : Tables) → s.rows (s.put l t) ≡ l)
    (filled : (l : List R) (r : R) → fill l r ≡ s.filled r (fill l r))
    (euclid : (r x y : R)
      → s.same_key r x ≡ true
      → s.same_key r y ≡ true
      → s.same_key x y ≡ true) where
  written :
      (rows : List R) (t : Tables) (rest : List Bool)
      → Writes store_of t s rows (ok tt, record { store = s.put rows t; schedule = rest })
  written rows t rest = (rw rows-put, λ p. rw rows-put)

  written_unique :
      (rows : List R) (t : Tables) (rest : List Bool)
      → let x = write_unique_rows s rows t in
        WritesUnique store_of t s rows (x.0, record { store = x.1; schedule = rest })
  written_unique rows t rest = elim (Bool-cases (distinct s.same_key rows)) [
    | inl d ↦
        rw d (
          rw rows-put,
          λ p. rw rows-put,
          λ r. rw rows-put (distinct-once s.same_key euclid rows d r),
        )
    | inr d ↦ rw d (refl, refl)
  ]

  created :
      (given : R) (t : Tables) (rest : List Bool)
      → let x = create_row s fill allowed given t in
        Creates store_of t s given (x.0, record { store = x.1; schedule = rest })
  created given t rest = elim (Bool-cases (count_if (s.conflicts given) (s.rows t) == 0)) [
    | inr taken ↦ rw taken (refl, λ h. ground arith)
    | inl free ↦
        elim (Bool-cases (
          allowed t given
          && count_if (s.same_id (fill (s.rows t) given)) (s.rows t) == 0
          && has_room (s.rows t))) [
            | inr refused ↦ rw (free, refused) (refl, λ h. cc)
            | inl fresh ↦
                rw (free, fresh)
                  (
                    rw rows-put,
                    filled (s.rows t) given,
                    λ p.
                        rw rows-put (
                          omega (arith, count_if-append p (s.rows t) (fill (s.rows t) given ∷ []))),
                    ground arith,
                    ground arith,
                  )
          ]
  ]

  IsTable-memory : IsTable store_of s (memory_table s fill allowed)
  IsTable-memory = record {
    readable = IsReadable-memory s fill allowed;
    create_lem = λ given m.
        run_at-cases (Creates store_of m.store s given) (create_row s fill allowed given) m.store
          m.schedule (created given m.store) (λ rest. (refl, λ h. cc));
    updates_lem = λ p new m.
        run_at-cases
          (WritesUnique store_of m.store s (update_where p (s.updated new) (s.rows m.store)))
          (λ t. write_unique_rows s (update_where p (s.updated new) (s.rows t)) t) m.store
          m.schedule (written_unique (update_where p (s.updated new) (s.rows m.store)) m.store)
          (λ rest. (refl, refl));
    set_columns_lem = λ p f m.
        run_at-cases (Writes store_of m.store s (update_where p f (s.rows m.store)))
          (λ t. write_rows s (update_where p f (s.rows t)) t) m.store m.schedule
          (written (update_where p f (s.rows m.store)) m.store) (λ rest. (refl, refl));
    delete_lem = λ p m.
        run_at-cases (Writes store_of m.store s (filter (λ r. not (p r)) (s.rows m.store)))
          (λ t. write_rows s (filter (λ r. not (p r)) (s.rows t)) t) m.store m.schedule
          (written (filter (λ r. not (p r)) (s.rows m.store)) m.store) (λ rest. (refl, refl));
  }

-- The foreign key of the versions.
Refers-memory : (v : ServiceVersion) (m : Memory) → Refers m.store v (memory.versions.create v m)
Refers-memory v m =
    run_at-cases (Refers m.store v)
      (create_row version_schema (λ _ x. x)
        (λ t x. not (count_if (λ (y : Service). y.id == x.service_id) t.service == 0)) v)
      m.store m.schedule
      (λ rest. elim (Bool-cases (count_if (version_schema.conflicts v) m.store.version == 0)) [
        | inr taken ↦ rw taken tt
        | inl free ↦
            elim (Bool-cases
              (not (count_if (λ (y : Service). y.id == v.service_id) m.store.service == 0))) [
                | inr refused ↦ rw (free, refused) tt
                | inl fresh ↦ rw (free, fresh) (ground arith)
              ]
      ])
      (λ rest. tt)

finish_transaction-Transacts :
    (body : Action Memory (Unit {0})) (m : Memory) (x : Result (Unit {0}) × Memory)
    → body m ≡ x
    → Transacts store_of m.store body (finish_transaction m.store x)
finish_transaction-Transacts body m (ok _, m') e = (m, refl, rw e, rw e)
finish_transaction-Transacts body m (err _, m') e = refl

-- Two rows with the key of a third have the same key.
pub user_same_key :
    (r x y : User)
    → user_schema.same_key r x ≡ true
    → user_schema.same_key r y ≡ true
    → user_schema.same_key x y ≡ true
user_same_key r x y h k =
    ground (arith, eq_iff x.email r.email, eq_iff y.email r.email, eq_iff y.email x.email)

pub user_role_same_key :
    (r x y : UserRole)
    → user_role_schema.same_key r x ≡ true
    → user_role_schema.same_key r y ≡ true
    → user_role_schema.same_key x y ≡ true
user_role_same_key r x y h k =
    ground (arith, eq_iff x.name r.name, eq_iff y.name r.name, eq_iff y.name x.name)

pub service_same_key :
    (r x y : Service)
    → service_schema.same_key r x ≡ true
    → service_schema.same_key r y ≡ true
    → service_schema.same_key x y ≡ true
service_same_key r x y h k =
    ground (arith, eq_iff x.name r.name, eq_iff y.name r.name, eq_iff y.name x.name)

pub version_same_key :
    (r x y : ServiceVersion)
    → version_schema.same_key r x ≡ true
    → version_schema.same_key r y ≡ true
    → version_schema.same_key x y ≡ true
version_same_key r x y h k =
    ground (arith, eq_iff x.tag r.tag, eq_iff y.tag r.tag, eq_iff y.tag x.tag)

pub memory-IsRelational : IsRelational memory
memory-IsRelational = record {
  users_lem =
      IsTable-memory user_schema fill_user (λ _ _. true) (λ l t. refl) (λ l r. refl) user_same_key;
  user_roles_lem =
      IsTable-memory user_role_schema (λ _ r. r) (λ _ _. true) (λ l t. refl) (λ l r. refl)
        user_role_same_key;
  services_lem =
      IsTable-memory service_schema fill_service (λ _ _. true) (λ l t. refl) (λ l r. refl)
        service_same_key;
  versions_lem =
      IsTable-memory version_schema (λ _ r. r)
        (λ t v. not (count_if (λ (x : Service). x.id == v.service_id) t.service == 0)) (λ l t. refl)
        (λ l r. refl) version_same_key;
  view_lem =
      IsReadable-memory
        (record service_schema {
          rows = λ t. t.name_sorted_service;
          put = λ l t. record t { name_sorted_service = l };
        })
        fill_service (λ _ _. true);
  foreign_key = Refers-memory;
  refresh_lem = λ m.
      run_at-cases (Refreshes store_of m.store)
        (λ t. (ok tt, record t { name_sorted_service = t.service })) m.store m.schedule
        (λ rest. (refl, λ p. refl)) (λ rest. refl);
  transaction_lem = λ body m. finish_transaction-Transacts body m (body m) refl;
}
