-- ===== src/Gorm/Kept.antt =====
-- A property of the state that an action keeps, however it ends; a rule for each way to build one.
use go_user_and_service_mgmt.Prelude.{ℤ, Bool, List, sym, subst, count_if}
use go_user_and_service_mgmt.Errors.{GoError}
use go_user_and_service_mgmt.Gorm.{
  Action, Result, ok, err, Table, Tables, pure, or_error, fail_if, continue, ◌>>=◌,
}
use go_user_and_service_mgmt.Gorm.Laws.{Reads, Finds, ReadsFirst, IsReadable}

pub record Kept {S A : Type 0} (I : S → Type 0) (m : Action S A) : Type 0 where
  pub keeps : (s : S) → I s → I (m s).1

stopped : {S : Type 0} (I : S → Type 0) (b : Bool) (e : GoError) (s : S) → I s → I (fail_if b e s).1
unfolding fail_if
stopped I b e s h = h

renamed :
    {S A : Type 0} (I : S → Type 0) (m : Action S A) (g : GoError → GoError) (s : S)
    → I (m s).1
    → I (or_error m g s).1
unfolding or_error
renamed I m g s h = h

module _ {S : Type 0} {I : S → Type 0} where
  pub Kept-pure : {A : Type 0} {a : A} → Kept I (pure a)
  Kept-pure = record { keeps = λ s h. h }

  pub Kept-fail_if : (b : Bool) (e : GoError) → Kept I (fail_if b e)
  Kept-fail_if b e = record { keeps = stopped I b e }

  pub Kept-or_error :
      {A : Type 0} {m : Action S A} (g : GoError → GoError) → Kept I m → Kept I (or_error m g)
  Kept-or_error {m = m} g k = record { keeps = λ s h. renamed I m g s (k.keeps s h) }

  continue-kept :
      {A B : Type 0} (r : Result A) (f : A → Action S B) (s : S)
      → ((a : A) → Kept I (f a))
      → I s
      → I (continue r f s).1
  continue-kept (ok a) f s k h = (k a).keeps s h
  continue-kept (err e) f s k h = h

  pub Kept-bind :
      {A B : Type 0} {m : Action S A} {f : A → Action S B}
      → Kept I m
      → ((a : A) → Kept I (f a))
      → Kept I (m >>= f)
  unfolding ◌>>=◌
  Kept-bind {m = m} {f = f} k l = record {
    keeps = λ s h. continue-kept (m s).0 f (m s).1 l (k.keeps s h);
  }

module _ {World R : Type 0} {tables : World → Tables} (J : Tables → Type 0) {rows : Tables → List R}
    {t : Table World R} (laws : IsReadable tables rows t) where
  Reads-stays :
      {A : Type 0} (a : A) (w : World) (x : Result A × World)
      → Reads tables (tables w) a x
      → J (tables w)
      → J (tables x.1)
  Reads-stays a w (ok b, w') (same, _) h = subst J (sym same) h
  Reads-stays a w (err e, w') same h = subst J (sym same) h

  Finds-stays :
      (p : R → Bool) (limit offset : ℤ) (w : World) (x : Result (List R) × World)
      → Finds tables (tables w) p limit offset (rows (tables w)) x
      → J (tables w)
      → J (tables x.1)
  Finds-stays p limit offset w (ok l, w') (same, _) h = subst J (sym same) h
  Finds-stays p limit offset w (err e, w') same h = subst J (sym same) h

  ReadsFirst-stays :
      (p : R → Bool) (w : World) (x : Result R × World)
      → ReadsFirst tables (tables w) p (rows (tables w)) x
      → J (tables w)
      → J (tables x.1)
  ReadsFirst-stays p w (ok r, w') (same, _, _) h = subst J (sym same) h
  ReadsFirst-stays p w (err e, w') (same, _) h = subst J (sym same) h

  pub Kept-count : {p : R → Bool} → Kept (λ w. J (tables w)) (t.count p)
  Kept-count {p = p} = record {
    keeps = λ w. Reads-stays (count_if p (rows (tables w))) w (t.count p w) (laws.count_lem p w);
  }

  pub Kept-find :
      {p : R → Bool} {limit offset : ℤ} → Kept (λ w. J (tables w)) (t.find p limit offset)
  Kept-find {p = p} {limit = limit} {offset = offset} = record {
    keeps = λ w.
        Finds-stays p limit offset w (t.find p limit offset w) (laws.find_lem p limit offset w);
  }

  pub Kept-first : {p : R → Bool} → Kept (λ w. J (tables w)) (t.first p)
  Kept-first {p = p} = record {
    keeps = λ w. ReadsFirst-stays p w (t.first p w) (laws.first_lem p w);
  }

pub ruleset kept_steps =
    (Kept-bind, Kept-pure, Kept-fail_if, Kept-or_error, Kept-count, Kept-find, Kept-first)
