-- ===== src/Auth/Passwords/Laws.antt =====
-- The characters of a generated password, and that one is always generated unless the source of
-- randomness fails.
use go_user_and_service_mgmt.Prelude.{
  ℕ, zero, suc, Bool, true, false, List, [], ◌∷◌, ◌++◌, some, ◌≡◌, refl, ◌≤◌, ◌<◌, ◌+◌, ◌-◌, arith,
  leb, length, count_if, count_if-append, ◌==◌, ◌&&◌, ◌||◌, number_comparable, if◌then◌else◌,
}
use go_user_and_service_mgmt.Gorm.{Action, Result, ok, err}
use go_user_and_service_mgmt.Auth.Passwords.{
  write_runes, rune_range, charset, Outcome, password, failed, panic, byte_at, with_byte, pick,
  fill, temp_pass_length, generate_password,
}

abbrev within : ℕ → ℕ → ℕ → Bool
within first last b = leb first b && leb b last

abbrev pub is_alphanumeric : ℕ → Bool
is_alphanumeric b = within 97 122 b || within 65 90 b || within 48 57 b

-- Letters, digits and the five symbols.
abbrev pub is_allowed : ℕ → Bool
is_allowed b = 35 == b || (36 == b || (33 == b || (45 == b || (95 == b || is_alphanumeric b))))

-- Enough fuel: every number from the first to the last, once.
write_runes-once :
    (fuel ch last b : ℕ)
    → suc last ≤ ch + fuel
    → count_if (λ x. x == b) (write_runes fuel ch last) ≡ (if within ch last b then 1 else 0)
unfolding write_runes
write_runes-once zero ch last b enough = ground arith
write_runes-once (suc fuel) ch last b enough =
    ground (arith, write_runes-once fuel (suc ch) last b (omega arith))

abbrev one_if : Bool → ℕ
one_if b = if b then 1 else 0

-- Two tests that do not pass together.
one_if-or :
    (a b : Bool) (n : ℕ) → (a ≡ true → b ≡ false) → n ≡ one_if b → one_if a + n ≡ one_if (a || b)
one_if-or a b n apart h = ground arith

ranges_once :
    (b : ℕ)
    → count_if (λ x. x == b) (rune_range 97 122 ++ (rune_range 65 90 ++ rune_range 48 57))
      ≡ one_if (within 97 122 b) + (one_if (within 65 90 b) + one_if (within 48 57 b))
ranges_once b = omega (
  arith,
  count_if-append (λ x. x == b) (rune_range 97 122) (rune_range 65 90 ++ rune_range 48 57),
  count_if-append (λ x. x == b) (rune_range 65 90) (rune_range 48 57),
  write_runes-once (suc 122 - 97) 97 122 b (omega arith),
  write_runes-once (suc 90 - 65) 65 90 b (omega arith),
  write_runes-once (suc 57 - 48) 48 57 b (omega arith),
)

ranges_lem :
    (b : ℕ)
    → count_if (λ x. x == b) (rune_range 97 122 ++ (rune_range 65 90 ++ rune_range 48 57))
      ≡ one_if (is_alphanumeric b)
ranges_lem b = ground (arith, ranges_once b)

-- Every allowed character is in the set once, and no other: a uniform draw is uniform in them.
pub charset_lem : (b : ℕ) → count_if (λ x. x == b) charset ≡ (if is_allowed b then 1 else 0)
unfolding charset
charset_lem b =
    let t₁ = 95 == b || is_alphanumeric b in
    let t₂ = 45 == b || t₁ in
    let t₃ = 33 == b || t₂ in
    one_if-or (35 == b) (36 == b || t₃) _ (λ h. ground arith)
      (one_if-or (36 == b) t₃ _ (λ h. ground arith)
        (one_if-or (33 == b) t₂ _ (λ h. ground arith)
          (one_if-or (45 == b) t₁ _ (λ h. ground arith)
            (one_if-or (95 == b) (is_alphanumeric b) _ (λ h. ground arith) (ranges_lem b)))))

-- `charset[i]` for an index in range.
byte_at-in_range :
    (bytes : List ℕ) (i : ℕ)
    → i < length bytes
    → (b : ℕ) × (byte_at bytes i ≡ some b) × (0 < count_if (λ x. x == b) bytes)
unfolding byte_at
byte_at-in_range [] i small = ground arith
byte_at-in_range (b ∷ rest) zero small = (b, refl, ground arith)
byte_at-in_range (x ∷ rest) (suc i) small =
    let (b, found, there) = byte_at-in_range rest i (ground arith) in (b, found, ground arith)

abbrev pub AllAllowed : List ℕ → Type 0
AllAllowed [] = Unit
AllAllowed (b ∷ bytes) = (is_allowed b ≡ true) × AllAllowed bytes

-- A password of the given length, of allowed characters only; or the error of a draw. No panic.
abbrev pub IsPassword : {World : Type 0} → (ℕ → Action World ℕ) → ℕ → Outcome → Type 0
IsPassword random_below n (password bytes) = (length bytes ≡ n) × AllAllowed bytes
IsPassword {World} random_below n (failed e) =
    (w : World) × ((random_below (length charset) w).0 ≡ err e)
IsPassword random_below n panic = ⊥

module _ {World : Type 0} (random_below : ℕ → Action World ℕ)
    (below : (n : ℕ) (w : World) (i : ℕ) → (random_below n w).0 ≡ ok i → i < n) where
  with_byte-IsPassword :
      (b n : ℕ) (o : Outcome)
      → is_allowed b ≡ true
      → IsPassword random_below n o
      → IsPassword random_below (suc n) (with_byte b o)
  with_byte-IsPassword b n (password bytes) allowed (size, rest) =
      (omega (arith, size), (allowed, rest))
  with_byte-IsPassword b n (failed e) allowed h = h
  with_byte-IsPassword b n panic allowed h = h

  pick-IsPassword :
      (n : ℕ) (w : World) (r : Result ℕ) (rest : World → Outcome × World) (w' : World)
      → (random_below (length charset) w).0 ≡ r
      → ((w : World) → IsPassword random_below n (rest w).0)
      → IsPassword random_below (suc n) (pick r rest w').0
  pick-IsPassword n w (ok i) rest w' drawn h =
      let (b, found, there) = byte_at-in_range charset i (below (length charset) w i drawn) in
      rw found (with_byte-IsPassword b n (rest w').0 (ground (arith, charset_lem b)) (h w'))
  pick-IsPassword n w (err e) rest w' drawn h = (w, drawn)

  fill-IsPassword : (n : ℕ) (w : World) → IsPassword random_below n (fill random_below n w).0
  unfolding fill
  fill-IsPassword zero w = (refl, tt)
  fill-IsPassword (suc n) w =
      pick-IsPassword n w (random_below (length charset) w).0 (fill random_below n)
        (random_below (length charset) w).1 refl (fill-IsPassword n)

  -- If a draw below a bound gives a number below it, `GeneratePassword` gives a password of twelve
  -- letters, digits and symbols of `#$!-_`, or the error of a draw; it never indexes out of range.
  pub generate_password-IsPassword :
      (w : World) → IsPassword random_below temp_pass_length (generate_password random_below w).0
  unfolding generate_password
  generate_password-IsPassword = fill-IsPassword temp_pass_length
