-- ===== src/Gorm/Rules.antt =====
-- How to prove a postcondition of a `do` block, statement by statement: a rule for each kind of
-- statement. `Q` is the postcondition, on the result and the state after it; `before` is what
-- the tables hold when the statement begins. The arguments `g` and `f` are the block's own.
use go_user_and_service_mgmt.Prelude.{
  ℕ, ℤ, Bool, true, false, not, List, ◌≡◌, refl, count_if, filter, SameRows,
}
use go_user_and_service_mgmt.Errors.{GoError, is_record_not_found}
use go_user_and_service_mgmt.Gorm.{
  Action, Result, ok, err, Table, Tables, Database, or_error, rewrite_error, fail_if, continue,
  ◌>>=◌,
}
use go_user_and_service_mgmt.Gorm.Laws.{
  Reads, Finds, ReadsFirst, Schema, Creates, Writes, WritesUnique, Transacts, IsReadable, IsTable,
  IsRelational, limited, skipped, update_where,
}

module _ {ℓ κ μ} {S A B : Type ℓ} (Q : Result B × S → Type κ) (P : Result A × S → Type μ)
    (g : GoError → GoError) (f : A → Action S B) where
  on-result :
      (x : Result A × S)
      → P x
      → ((a : A) (s : S) → P (ok a, s) → Q (f a s))
      → ((e : GoError) (s : S) → P (err e, s) → Q (err (g e), s))
      → Q (continue (rewrite_error g x.0) f x.1)
  on-result (ok a, s) h good bad = good a s h
  on-result (err e, s) h good bad = bad e s h

  -- A call whose effect is known as `P`.
  pub on-call :
      (m : Action S A) (s : S)
      → P (m s)
      → ((a : A) (s' : S) → P (ok a, s') → Q (f a s'))
      → ((e : GoError) (s' : S) → P (err e, s') → Q (err (g e), s'))
      → Q ((or_error m g >>= f) s)
  unfolding or_error ◌>>=◌
  on-call m s = on-result (m s)

module _ {ℓ κ} {S B : Type ℓ} (Q : Result B × S → Type κ) where
  -- `if b { return e }`
  pub on-test :
      (b : Bool) (e : GoError) (f : Unit {ℓ} → Action S B) (s : S)
      → (b ≡ true → Q (err e, s))
      → (b ≡ false → Q (f tt s))
      → Q ((fail_if b e >>= f) s)
  unfolding fail_if ◌>>=◌
  on-test true e f s bad good = bad refl
  on-test false e f s bad good = good refl

module _ {κ} {World B R : Type 0} (Q : Result B × World → Type κ) (tables : World → Tables)
    {before : Tables} {w : World} where
  -- `Count`
  pub on-count :
      {rows : Tables → List R} {t : Table World R} (laws : IsReadable tables rows t) (p : R → Bool)
      (g : GoError → GoError) (f : ℕ → Action World B)
      → tables w ≡ before
      → ((w' : World) → tables w' ≡ before → Q (f (count_if p (rows before)) w'))
      → ((e : GoError) (w' : World) → tables w' ≡ before → Q (err (g e), w'))
      → Q ((or_error (t.count p) g >>= f) w)
  on-count {rows} laws p g f same good bad =
      on-call Q (Reads tables before (count_if p (rows before))) g f _ w
        (rw same at (laws.count_lem p w)) (λ a w' h. rw h.1 (good w' h.0)) bad

  -- `Find`
  pub on-find :
      {rows : Tables → List R} {t : Table World R} (laws : IsReadable tables rows t) (p : R → Bool)
      (limit offset : ℤ) (g : GoError → GoError) (f : List R → Action World B)
      → tables w ≡ before
      → ((w' : World)
          → tables w' ≡ before
          → (order : List R) → SameRows order (filter p (rows before))
          → Q (f (limited limit (skipped offset order)) w'))
      → ((e : GoError) (w' : World) → tables w' ≡ before → Q (err (g e), w'))
      → Q ((or_error (t.find p limit offset) g >>= f) w)
  on-find {rows} laws p limit offset g f same good bad =
      on-call Q (Finds tables before p limit offset (rows before)) g f _ w
        (rw same at (laws.find_lem p limit offset w))
        (λ a w' (same', (order, rows', found)). rw found (good w' same' order rows')) bad

  -- `First`
  pub on-first :
      {rows : Tables → List R} {t : Table World R} (laws : IsReadable tables rows t) (p : R → Bool)
      (g : GoError → GoError) (f : R → Action World B)
      → tables w ≡ before
      → ((r : R) (w' : World) → ReadsFirst tables before p (rows before) (ok r, w') → Q (f r w'))
      → ((e : GoError) (w' : World)
          → ReadsFirst tables before p (rows before) (err e, w')
          → Q (err (g e), w'))
      → Q ((or_error (t.first p) g >>= f) w)
  on-first {rows} laws p g f same good bad =
      on-call Q (ReadsFirst tables before p (rows before)) g f _ w (rw same at (laws.first_lem p w))
        good bad

  module _ {s : Schema R} {t : Table World R} (laws : IsTable tables s t) where
    -- `Create`
    pub on-create :
        (given : R) (g : GoError → GoError) (f : R → Action World B)
        → tables w ≡ before
        → ((r : R) (w' : World) → Creates tables before s given (ok r, w') → Q (f r w'))
        → ((e : GoError) (w' : World)
            → Creates tables before s given (err e, w')
            → Q (err (g e), w'))
        → Q ((or_error (t.create given) g >>= f) w)
    on-create given g f same good bad =
        on-call Q (Creates tables before s given) g f _ w (rw same at (laws.create_lem given w))
          good bad

    -- `Updates` with a struct
    pub on-updates :
        (p : R → Bool) (new : R) (g : GoError → GoError) (f : Unit {0} → Action World B)
        → tables w ≡ before
        → ((w' : World)
            → WritesUnique tables before s
                (update_where p (s.updated new) (s.rows before))
                (ok tt, w')
            → Q (f tt w'))
        → ((e : GoError) (w' : World)
            → tables w' ≡ before
            → is_record_not_found e ≡ false
            → Q (err (g e), w'))
        → Q ((or_error (t.updates p new) g >>= f) w)
    on-updates p new g f same good bad =
        on-call Q (WritesUnique tables before s (update_where p (s.updated new) (s.rows before))) g
          f _ w (rw same at (laws.updates_lem p new w)) (λ _. good) (λ e w' h. bad e w' h.0 h.1)

    -- `Updates` with a map, `UpdateColumn`
    pub on-set_columns :
        (p : R → Bool) (h : R → R) (g : GoError → GoError) (f : Unit {0} → Action World B)
        → tables w ≡ before
        → ((w' : World)
            → Writes tables before s (update_where p h (s.rows before)) (ok tt, w')
            → Q (f tt w'))
        → ((e : GoError) (w' : World)
            → tables w' ≡ before
            → is_record_not_found e ≡ false
            → Q (err (g e), w'))
        → Q ((or_error (t.set_columns p h) g >>= f) w)
    on-set_columns p h g f same good bad =
        on-call Q (Writes tables before s (update_where p h (s.rows before))) g f _ w
          (rw same at (laws.set_columns_lem p h w)) (λ _. good) (λ e w' h. bad e w' h.0 h.1)

    -- `Delete`
    pub on-delete :
        (p : R → Bool) (g : GoError → GoError) (f : Unit {0} → Action World B)
        → tables w ≡ before
        → ((w' : World)
            → Writes tables before s (filter (λ r. not (p r)) (s.rows before)) (ok tt, w')
            → Q (f tt w'))
        → ((e : GoError) (w' : World)
            → tables w' ≡ before
            → is_record_not_found e ≡ false
            → Q (err (g e), w'))
        → Q ((or_error (t.delete p) g >>= f) w)
    on-delete p g f same good bad =
        on-call Q (Writes tables before s (filter (λ r. not (p r)) (s.rows before))) g f _ w
          (rw same at (laws.delete_lem p w)) (λ _. good) (λ e w' h. bad e w' h.0 h.1)

-- The state that a successful action leaves.
pub finished {ℓ κ} :
    {S A : Type ℓ} {a : A} (P : Result A × S → Type κ) (x : Result A × S)
    → P x
    → x.0 ≡ ok a
    → P (ok a, x.1)
finished P (r, s) h e = rw e at h

module _ {κ} {World B : Type 0} (Q : Result B × World → Type κ) {db : Database World}
    (laws : IsRelational db) {before : Tables} {w : World} where
  -- `Transaction`, with a body that leads from `before` to `P`.
  pub on-transaction :
      (P : Result (Unit {0}) × World → Type 0) (body : Action World (Unit {0}))
      (g : GoError → GoError) (f : Unit {0} → Action World B)
      → ((w₀ : World) → db.tables w₀ ≡ before → P (body w₀))
      → db.tables w ≡ before
      → ((w' w₁ : World) → db.tables w' ≡ db.tables w₁ → P (ok tt, w₁) → Q (f tt w'))
      → ((e : GoError) (w' : World) → db.tables w' ≡ before → Q (err (g e), w'))
      → Q ((or_error (db.transaction body) g >>= f) w)
  on-transaction P body g f leads same good bad =
      on-call Q (Transacts db.tables before body) g f _ w (rw same at (laws.transaction_lem body w))
        (λ _ w' (w₀, start, done, result).
          good w' (body w₀).1 result (finished P (body w₀) (leads w₀ start) done))
        bad
