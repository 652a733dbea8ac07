-- ===== src/Services/Operations/Slices/Laws.antt =====
-- The loop from both ends reverses the slice.
use go_user_and_service_mgmt.Prelude.{
  ℕ, zero, suc, ◌+◌, ◌-◌, ◌*◌, ◌<◌, ◌≤◌, ◌&&◌, List, [], ◌∷◌, ◌++◌, none, some, ◌≡◌, refl, ap, ◌∙◌,
  sym, reverse, arith, ltb, leb, nat_eq, if◌then◌else◌, length, length-append, Bool-cases, inl, inr,
}
use mathlib.Core.List.{reverse-cons}
use go_user_and_service_mgmt.Services.Operations.Slices.{
  get_elem?, set, swap, swap_loop, reverse_slice,
}

module _ {A : Type 0} where
  get_elem?_of_lt : (l : List A) (i : ℕ) → i < length l → (x : A) × (get_elem? l i ≡ some x)
  get_elem?_of_lt [] i h = absurd (omega arith)
  get_elem?_of_lt (x ∷ l) zero h = (x, refl)
  get_elem?_of_lt (x ∷ l) (suc i) h = get_elem?_of_lt l i (omega arith)

  length-set : (l : List A) (i : ℕ) (v : A) → length (set l i v) ≡ length l
  length-set [] i v = refl
  length-set (x ∷ l) zero v = refl
  length-set (x ∷ l) (suc i) v = ap suc (length-set l i v)

  get_elem?-set :
      (l : List A) (i : ℕ) (v : A) (k : ℕ)
      → i < length l
      → get_elem? (set l i v) k ≡ (if nat_eq k i then some v else get_elem? l k)
  get_elem?-set [] i v k h = absurd (omega arith)
  get_elem?-set (x ∷ l) zero v zero h = refl
  get_elem?-set (x ∷ l) zero v (suc k) h = ground arith
  get_elem?-set (x ∷ l) (suc i) v zero h = ground arith
  get_elem?-set (x ∷ l) (suc i) v (suc k) h = get_elem?-set l i v k (omega arith) ∙ ground arith

  swap_of_some :
      (l : List A) (i j : ℕ) (x y : A)
      → get_elem? l i ≡ some x
      → get_elem? l j ≡ some y
      → swap i j l ≡ some (set (set l i y) j x)
  swap_of_some l i j x y ex ey = ground arith

  -- An exchange of two entries moves those two.
  swap_lem :
      (l : List A) (i j : ℕ)
      → i < length l
      → j < length l
      → (l' : List A) × (swap i j l ≡ some l')
        × (length l' ≡ length l)
        × ((k : ℕ)
            → get_elem? l' k ≡ get_elem? l (if nat_eq k j then i else if nat_eq k i then j else k))
  swap_lem l i j hi hj =
      let (x, ex) = get_elem?_of_lt l i hi in
      let (y, ey) = get_elem?_of_lt l j hj in
      (
        set (set l i y) j x,
        swap_of_some l i j x y ex ey,
        length-set (set l i y) j x ∙ length-set l i y,
        λ k.
            ground
              (arith, get_elem?-set (set l i y) j x k, get_elem?-set l i y k, length-set l i y),
      )

  -- The loop does not panic, and turns the part of the slice between its two ends.
  swap_loop_lem :
      (fuel i j : ℕ) (l : List A)
      → j < length l
      → j ≤ i + 2 * fuel
      → (r : List A) × (swap_loop fuel i j l ≡ some r)
        × ((k : ℕ) → get_elem? r k ≡ get_elem? l (if leb i k && leb k j then i + j - k else k))
  unfolding swap_loop
  swap_loop_lem zero i j l h enough = (l, refl, λ k. ap (get_elem? l) (ground arith))
  swap_loop_lem (suc fuel) i j l h enough = elim (Bool-cases (ltb i j)) [
    | inl more ↦
        let (l', swapped, len, moved) = swap_lem l i j (ground arith) h in
        let (r, done, turned) =
          swap_loop_lem fuel (i + 1) (j - 1) l' (ground arith) (ground arith) in
        (
          r,
          rw (more, swapped) done,
          λ k.
              turned k
              ∙ moved (if leb (i + 1) k && leb k (j - 1) then i + 1 + (j - 1) - k else k)
              ∙ ap (get_elem? l) (ground arith),
        )
    | inr done ↦ (l, rw done refl, λ k. ap (get_elem? l) (ground arith))
  ]

  -- Lists with the same entries are equal.
  list_ext : (a b : List A) → ((k : ℕ) → get_elem? a k ≡ get_elem? b k) → a ≡ b
  list_ext [] [] h = refl
  list_ext [] (y ∷ b) h = cc (h 0)
  list_ext (x ∷ a) [] h = cc (h 0)
  list_ext (x ∷ a) (y ∷ b) h =
      let heads : x ≡ y = cc (h 0) in let tails : a ≡ b = list_ext a b (λ k. h (suc k)) in cc

  get_elem?-concat :
      (l : List A) (x : A) (k : ℕ)
      → get_elem? (l ++ x ∷ []) k
        ≡ (if ltb k (length l) then get_elem? l k else if nat_eq k (length l) then some x else none)
  get_elem?-concat [] x zero = refl
  get_elem?-concat [] x (suc k) = ground arith
  get_elem?-concat (y ∷ l) x zero = ground arith
  get_elem?-concat (y ∷ l) x (suc k) = get_elem?-concat l x k ∙ ground arith

  length-reverse : (l : List A) → length (reverse l) ≡ length l
  length-reverse [] = refl
  length-reverse (x ∷ l) =
      rw (reverse-cons x l) (omega (arith, length-append (reverse l) (x ∷ []), length-reverse l))

  get_elem?_of_le : (l : List A) (k : ℕ) → length l ≤ k → get_elem? l k ≡ none
  get_elem?_of_le [] k h = refl
  get_elem?_of_le (x ∷ l) zero h = absurd (omega arith)
  get_elem?_of_le (x ∷ l) (suc k) h = get_elem?_of_le l k (omega arith)

  get_elem?-cons :
      (x : A) (l : List A) (n : ℕ)
      → get_elem? (x ∷ l) n ≡ (if nat_eq n 0 then some x else get_elem? l (n - 1))
  get_elem?-cons x l zero = refl
  get_elem?-cons x l (suc n) = ground arith

  get_elem?-reverse :
      (l : List A) (k : ℕ)
      → get_elem? (reverse l) k
        ≡ (if ltb k (length l) then get_elem? l (length l - 1 - k) else none)
  get_elem?-reverse [] k = ground arith
  get_elem?-reverse (x ∷ l) k =
      ap (λ t. get_elem? t k) (reverse-cons x l)
      ∙ get_elem?-concat (reverse l) x k
      ∙ ground (arith, length-reverse l, get_elem?-reverse l k, get_elem?-cons x l (length l - k))

  -- The entry that the loop has put at `k`.
  mirror :
      (l : List A) (k : ℕ)
      → 0 < length l
      → get_elem? l (if leb 0 k && leb k (length l - 1) then 0 + (length l - 1) - k else k)
        ≡ (if ltb k (length l) then get_elem? l (length l - 1 - k) else none)
  mirror l k h = elim (Bool-cases (ltb k (length l))) [
    | inl inside ↦ rw inside (ap (get_elem? l) (ground arith))
    | inr outside ↦
        rw outside (ap (get_elem? l) (ground arith) ∙ get_elem?_of_le l k (ground arith))
  ]

  -- Reversing in place, from both ends, is reversing, and no index is out of range.
  pub reverse_slice-eq-reverse : (l : List A) → reverse_slice l ≡ some (reverse l)
  unfolding reverse_slice
  reverse_slice-eq-reverse [] = refl
  reverse_slice-eq-reverse (x ∷ l) =
      let n = length (x ∷ l) in
      let (r, done, turned) = swap_loop_lem n 0 (n - 1) (x ∷ l) (omega arith) (omega arith) in
      done
      ∙ ap some (
          list_ext r (reverse (x ∷ l))
            λ k. turned k ∙ mirror (x ∷ l) k (omega arith) ∙ sym (get_elem?-reverse (x ∷ l) k))
