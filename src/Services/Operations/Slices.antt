-- ===== src/Services/Operations/Slices.antt =====
-- `reverseServiceSlice` and `reverseServiceVersionSlice` of
-- internal/components/service/operations.go: a slice is reversed in place, from both ends.
pub mod Laws
use go_user_and_service_mgmt.Prelude.{
  ℕ, zero, suc, ◌+◌, ◌-◌, true, false, List, [], ◌∷◌, Option, none, some, ltb, if◌then◌else◌,
  length,
}

module _ {ℓ} {A : Type ℓ} where
  abbrev pub get_elem? : List A → ℕ → Option A
  get_elem? [] i = none
  get_elem? (x ∷ xs) zero = some x
  get_elem? (x ∷ xs) (suc i) = get_elem? xs i

  abbrev pub set : List A → ℕ → A → List A
  set [] i v = []
  set (x ∷ xs) zero v = v ∷ xs
  set (x ∷ xs) (suc i) v = x ∷ set xs i v

  -- `slice[i], slice[j] = slice[j], slice[i]`; `none` is the panic of an index out of range.
  abbrev pub swap : ℕ → ℕ → List A → Option (List A)
  swap i j l = elim (get_elem? l i) [
    | none ↦ none
    | some x ↦ elim (get_elem? l j) [ none ↦ none | some y ↦ some (set (set l i y) j x) ]
  ]

  abbrev pub unless_panic : Option (List A) → (List A → Option (List A)) → Option (List A)
  unless_panic none f = none
  unless_panic (some l) f = f l

  -- `for i, j := …; i < j; i, j = i+1, j-1`, with at most `fuel` rounds.
  unfoldable pub swap_loop : ℕ → ℕ → ℕ → List A → Option (List A)
  swap_loop zero i j l = some l
  swap_loop (suc fuel) i j l =
      let rest = unless_panic (swap i j l) (λ l'. swap_loop fuel (i + 1) (j - 1) l') in
      if ltb i j then rest else some l

  -- As many rounds as there are entries are enough.
  unfoldable pub reverse_slice : List A → Option (List A)
  unfolding swap_loop
  reverse_slice l = swap_loop (length l) 0 (length l - 1) l
