-- ===== src/Prelude/Segments.antt =====
-- Segments of a list, and of its reverse.
use Prim.Native.Nat.{ℕ, zero, suc, ◌+◌, ◌-◌, ◌≤◌}
use mathlib.Core.Path.{◌≡◌, refl, sym, ap, ◌∙◌}
use mathlib.Core.List.{List, [], ◌∷◌, ◌++◌, append-nil, reverse, reverse-cons, reverse-append}
use native.Mathlib.Omega.{arith}
use go_user_and_service_mgmt.Prelude.Lists.{length, take, drop, length-append}

module _ {A : Type 0} where
  pub length-reverse : (xs : List A) → length (reverse xs) ≡ length xs
  length-reverse [] = refl
  length-reverse (x ∷ xs) =
      rw (reverse-cons x xs) (omega (arith, length-append (reverse xs) (x ∷ []), length-reverse xs))

  take-append-drop : (n : ℕ) (xs : List A) → take n xs ++ drop n xs ≡ xs
  take-append-drop zero xs = refl
  take-append-drop (suc n) [] = refl
  take-append-drop (suc n) (x ∷ xs) = ap (◌∷◌ x) (take-append-drop n xs)

  length-drop : (n : ℕ) (xs : List A) → length (drop n xs) ≡ length xs - n
  length-drop zero xs = omega arith
  length-drop (suc n) [] = omega arith
  length-drop (suc n) (x ∷ xs) = omega (arith, length-drop n xs)

  length-take : (n : ℕ) (xs : List A) → n ≤ length xs → length (take n xs) ≡ n
  length-take zero xs h = refl
  length-take (suc n) [] h = absurd (omega arith)
  length-take (suc n) (x ∷ xs) h = ap suc (length-take n xs (omega arith))

  drop-append : (xs ys : List A) → drop (length xs) (xs ++ ys) ≡ ys
  drop-append [] ys = refl
  drop-append (x ∷ xs) ys = drop-append xs ys

  take-append : (xs ys : List A) → take (length xs) (xs ++ ys) ≡ xs
  take-append [] ys = refl
  take-append (x ∷ xs) ys = ap (◌∷◌ x) (take-append xs ys)

  drop_of_length-le : (n : ℕ) (xs : List A) → length xs ≤ n → drop n xs ≡ []
  drop_of_length-le zero [] h = refl
  drop_of_length-le zero (x ∷ xs) h = absurd (omega arith)
  drop_of_length-le (suc n) [] h = refl
  drop_of_length-le (suc n) (x ∷ xs) h = drop_of_length-le n xs (omega arith)

  -- Taking at least as many as there are takes all: nothing is dropped.
  take_of_length-le : (n : ℕ) (xs : List A) → length xs ≤ n → take n xs ≡ xs
  take_of_length-le n xs h =
      sym (append-nil (take n xs))
      ∙ ap (◌++◌ (take n xs)) (sym (drop_of_length-le n xs h))
      ∙ take-append-drop n xs

  take-nil : (n : ℕ) → take {A = A} n [] ≡ []
  take-nil zero = refl
  take-nil (suc n) = refl

  drop-take : (a b : ℕ) (xs : List A) → drop a (take (a + b) xs) ≡ take b (drop a xs)
  drop-take zero b xs = ap (λ n. take n xs) (omega arith)
  drop-take (suc a) b [] =
      let e : suc a + b ≡ suc (a + b) = omega arith in
      ap (λ n. drop (suc a) (take n [])) e ∙ sym (take-nil b)
  drop-take (suc a) b (x ∷ xs) =
      let e : suc a + b ≡ suc (a + b) = omega arith in
      ap (λ n. drop (suc a) (take n (x ∷ xs))) e ∙ drop-take a b xs

  -- What is left of the reverse after `s` entries is the reverse of what stands before them.
  drop-reverse :
      (s n : ℕ) (xs : List A) → s + n ≡ length xs → drop s (reverse xs) ≡ reverse (take n xs)
  drop-reverse s n xs h =
      let split : reverse xs ≡ reverse (drop n xs) ++ reverse (take n xs) =
        ap reverse (sym (take-append-drop n xs)) ∙ reverse-append (take n xs) (drop n xs) in
      let len : s ≡ length (reverse (drop n xs)) =
        omega (arith, length-reverse (drop n xs), length-drop n xs) in
      ap (drop s) split
      ∙ ap (λ k. drop k (reverse (drop n xs) ++ reverse (take n xs))) len
      ∙ drop-append (reverse (drop n xs)) (reverse (take n xs))

  take-reverse :
      (s n : ℕ) (xs : List A) → s + n ≡ length xs → take s (reverse xs) ≡ reverse (drop n xs)
  take-reverse s n xs h =
      let split : reverse xs ≡ reverse (drop n xs) ++ reverse (take n xs) =
        ap reverse (sym (take-append-drop n xs)) ∙ reverse-append (take n xs) (drop n xs) in
      let len : s ≡ length (reverse (drop n xs)) =
        omega (arith, length-reverse (drop n xs), length-drop n xs) in
      ap (take s) split
      ∙ ap (λ k. take k (reverse (drop n xs) ++ reverse (take n xs))) len
      ∙ take-append (reverse (drop n xs)) (reverse (take n xs))

  -- The window of `size` entries that `s` entries of the reverse precede, found from the front.
  pub reverse_window :
      (s size offset : ℕ) (xs : List A)
      → s + size + offset ≡ length xs
      → reverse (take size (drop offset xs)) ≡ take size (drop s (reverse xs))
  reverse_window s size offset xs h =
      ap reverse (sym (drop-take offset size xs))
      ∙ sym (
          take-reverse size offset (take (offset + size) xs)
            (omega (arith, length-take (offset + size) xs)))
      ∙ ap (take size) (sym (drop-reverse s (offset + size) xs (omega arith)))

  -- So for the last window, which may be shorter.
  pub reverse_last_window :
      (s size n : ℕ) (xs : List A)
      → s + n ≡ length xs
      → n ≤ size
      → reverse (take n xs) ≡ take size (drop s (reverse xs))
  reverse_last_window s size n xs h k =
      sym (drop-reverse s n xs h)
      ∙ sym (
          take_of_length-le size (drop s (reverse xs))
            (omega (arith, length-drop s (reverse xs), length-reverse xs)))

  -- A window past the end is empty.
  pub window_beyond :
      (s size : ℕ) (xs : List A) → length xs ≤ s → take size (drop s (reverse xs)) ≡ []
  window_beyond s size xs h =
      ap (take size) (drop_of_length-le s (reverse xs) (omega (arith, length-reverse xs)))
      ∙ take-nil size
