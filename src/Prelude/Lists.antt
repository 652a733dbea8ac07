-- ===== src/Prelude/Lists.antt =====
-- Lists measured by native numbers, and lists as bags: what can be counted in them.
use Prim.Native.Nat.{ℕ, zero, suc, ◌+◌, ◌≤◌, ◌<◌}
use mathlib.Core.Path.{◌≡◌, refl}
use mathlib.Core.Bool.{Bool, true, false}
use mathlib.Core.List.{List, [], ◌∷◌, ◌++◌, map}
use native.Mathlib.Omega.{arith}
use go_user_and_service_mgmt.Prelude.Tests.{if◌then◌else◌}

module _ {ℓ} {A : Type ℓ} where
  abbrev pub length : List A → ℕ
  length [] = 0
  length (_ ∷ xs) = suc (length xs)

  abbrev pub take : ℕ → List A → List A
  take zero xs = []
  take (suc n) [] = []
  take (suc n) (x ∷ xs) = x ∷ take n xs

  abbrev pub drop : ℕ → List A → List A
  drop zero xs = xs
  drop (suc n) [] = []
  drop (suc n) (x ∷ xs) = drop n xs

  -- The library's `filter` takes a decision; the program's conditions are tests.
  abbrev pub filter : (A → Bool) → List A → List A
  filter p [] = []
  filter p (x ∷ xs) = let rest = filter p xs in if p x then x ∷ rest else rest

  -- How many entries pass a test: `SELECT count(*) ... WHERE p`.
  abbrev pub count_if : (A → Bool) → List A → ℕ
  count_if p [] = 0
  count_if p (x ∷ xs) = (if p x then 1 else 0) + count_if p xs

  -- Two lists hold the same entries, as often, in any order: no test tells them apart.
  abbrev pub SameRows : List A → List A → Type ℓ
  SameRows xs ys = (p : A → Bool) → count_if p xs ≡ count_if p ys

  -- An entry of the list: a test that it passes is passed in the list.
  abbrev pub IsRow : A → List A → Type ℓ
  IsRow x xs = (p : A → Bool) → p x ≡ true → 0 < count_if p xs

  pub length-append : (xs ys : List A) → length (xs ++ ys) ≡ length xs + length ys
  length-append [] ys = omega arith
  length-append (x ∷ xs) ys = omega (arith, length-append xs ys)

  pub count_if-append :
      (p : A → Bool) (xs ys : List A) → count_if p (xs ++ ys) ≡ count_if p xs + count_if p ys
  count_if-append p [] ys = omega arith
  count_if-append p (x ∷ xs) ys = omega (arith, count_if-append p xs ys)

  pub length-all : (xs : List A) → count_if (λ _. true) xs ≡ length xs
  length-all [] = refl
  length-all (x ∷ xs) = omega (arith, length-all xs)

  pub length-SameRows : (xs ys : List A) → SameRows xs ys → length xs ≡ length ys
  length-SameRows xs ys same = omega (arith, same (λ _. true), length-all xs, length-all ys)

  pub length-filter : (p : A → Bool) (xs : List A) → length (filter p xs) ≡ count_if p xs
  length-filter p [] = refl
  length-filter p (x ∷ xs) = ground (arith, length-filter p xs)

module _ {ℓ} {A : Type ℓ} where
  -- Counting agrees for tests that agree on every entry.
  pub count_if-ext :
      (p q : A → Bool) (xs : List A) → ((x : A) → p x ≡ q x) → count_if p xs ≡ count_if q xs
  count_if-ext p q [] h = refl
  count_if-ext p q (x ∷ xs) h = rw (h x, count_if-ext p q xs h)

  pub count_if-filter :
      (p q : A → Bool) (xs : List A)
      → count_if p (filter q xs) ≡ count_if (λ x. if q x then p x else false) xs
  count_if-filter p q [] = refl
  count_if-filter p q (x ∷ xs) = ground (arith, count_if-filter p q xs)

  -- A test that fails everywhere counts nothing.
  pub count_if-false : (p : A → Bool) (xs : List A) → ((x : A) → p x ≡ false) → count_if p xs ≡ 0
  count_if-false p [] h = refl
  count_if-false p (x ∷ xs) h = rw (h x, count_if-false p xs h) (omega arith)

  pub count_if-le :
      (p q : A → Bool) (xs : List A)
      → ((x : A) → p x ≡ true → q x ≡ true)
      → count_if p xs ≤ count_if q xs
  count_if-le p q [] h = omega arith
  count_if-le p q (x ∷ xs) h = ground (arith, h x, count_if-le p q xs h)

module _ {ℓ κ} {A : Type ℓ} {B : Type κ} where
  pub count_if-map :
      (p : B → Bool) (f : A → B) (xs : List A) → count_if p (map f xs) ≡ count_if (λ x. p (f x)) xs
  count_if-map p f [] = refl
  count_if-map p f (x ∷ xs) = rw (count_if-map p f xs)
