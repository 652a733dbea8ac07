-- ===== src/Configs/Laws.antt =====
-- What a numeric setting is read as.
use Prim.Native.Char.{Char, code}
use Prim.Native.String.{[], ◌∷◌}
use native.Mathlib.Numerals.{unary_clauses}
use go_user_and_service_mgmt.Prelude.{
  ℕ, ℤ, pos, negsuc, zero, suc, String, Bool, true, false, Option, none, some, ◌≡◌, refl, ap, ◌∙◌,
  ◌<◌, ◌≤◌, ◌+◌, ◌-◌, ◌*◌, ◌^◌, arith, ◌&&◌, ltb, nat_eq, if◌then◌else◌,
}
use go_user_and_service_mgmt.Handlers.{is_digit, digits_from, atoi, unsigned, positive, negated}
use go_user_and_service_mgmt.Configs.{Variables, get_env_as_int, number_or}

abbrev pub all_digits : String → Bool
all_digits [] = true
all_digits (c ∷ s) = let rest = all_digits s in is_digit c && rest

abbrev pub width : String → ℕ
width [] = 0
width (c ∷ s) = suc (width s)

-- The number that a text of digits writes, by the weights of its places.
abbrev pub numeral_value : String → ℕ
numeral_value [] = 0
numeral_value (c ∷ s) = (code c - 48) * 10 ^ width s + numeral_value s

abbrev is_empty : String → Bool
is_empty [] = true
is_empty (c ∷ s) = false

if_same : (b : Bool) → (if b then true else true) ≡ true
if_same true = refl
if_same false = refl

-- A digit more.
shifted : (n d p v : ℕ) → (10 * n + d) * p + v ≡ n * (p * 10) + (d * p + v)
shifted n d p v = omega arith

digits_from-all_digits :
    (n : ℕ) (seen : Bool) (s : String)
    → all_digits s ≡ true
    → digits_from n seen s
      ≡ (n * 10 ^ width s + numeral_value s, if is_empty s then seen else true, true)
unfolding digits_from
digits_from-all_digits n seen [] h = ap (λ m. (m, seen, true)) (omega arith)
digits_from-all_digits n seen (c ∷ s) h =
    let digit : is_digit c ≡ true = ground arith in
    let rest : all_digits s ≡ true = ground arith in
    rw (digit, digits_from-all_digits (10 * n + (code c - 48)) true s rest, if_same (is_empty s))
      (ap (λ m. (m, true, true))
        (simp unary_clauses (shifted n (code c - 48) (10 ^ width s) (numeral_value s))))

first_digit : (d p v : ℕ) → (0 + d) * p + v ≡ d * p + v
first_digit d p v = omega arith

-- What the digits of a text are read as, up to a bound.
unsigned-digits :
    (c : Char) (s : String) (bound : ℕ)
    → all_digits (c ∷ s) ≡ true
    → unsigned (digits_from 0 false (c ∷ s)) bound
      ≡ (if ltb (numeral_value (c ∷ s)) bound then some (numeral_value (c ∷ s)) else none)
unfolding unsigned
unsigned-digits c s bound digits = rw (digits_from-all_digits 0 false (c ∷ s) digits) (ground arith)

not_sign :
    (c : Char) → is_digit c ≡ true → (nat_eq (code c) 45 ≡ false) × (nat_eq (code c) 43 ≡ false)
not_sign c h = (ground arith, ground arith)

atoi-digits :
    (c : Char) (s : String)
    → all_digits (c ∷ s) ≡ true
    → atoi (c ∷ s) ≡ positive (unsigned (digits_from 0 false (c ∷ s)) (2 ^ 63))
unfolding atoi
atoi-digits c s digits = let (minus, plus) = not_sign c (ground arith) in rw (minus, plus) refl

atoi-minus :
    (c : Char) (s : String)
    → atoi ("-" ∷ c ∷ s) ≡ negated (unsigned (digits_from 0 false (c ∷ s)) (2 ^ 63 + 1))
unfolding atoi
atoi-minus c s = refl

-- The integer `- n`.
abbrev pub negative : ℕ → ℤ
negative zero = pos 0
negative (suc n) = negsuc n

positive_or :
    (b : Bool) (n : ℕ) (default : ℤ)
    → number_or (positive (if b then some n else none)) default ≡ (if b then pos n else default)
unfolding positive
positive_or true n default = refl
positive_or false n default = refl

negative_or :
    (b : Bool) (n : ℕ) (default : ℤ)
    → number_or (negated (if b then some n else none)) default ≡ (if b then negative n else default)
unfolding negated
negative_or true zero default = refl
negative_or true (suc n) default = refl
negative_or false n default = refl

module _ (variables : Variables) (key : String) (default : ℤ) (c : Char) (s : String)
    (digits : all_digits (c ∷ s) ≡ true) where
  number_read :
      variables key ≡ some (c ∷ s)
      → get_env_as_int variables key default
        ≡ (if ltb (numeral_value (c ∷ s)) (2 ^ 63) then pos (numeral_value (c ∷ s)) else default)
  unfolding get_env_as_int
  number_read set =
      rw (set, atoi-digits c s digits, unsigned-digits c s (2 ^ 63) digits)
        (positive_or (ltb (numeral_value (c ∷ s)) (2 ^ 63)) (numeral_value (c ∷ s)) default)

  negative_read :
      variables key ≡ some ("-" ∷ c ∷ s)
      → get_env_as_int variables key default ≡ (
          if ltb (numeral_value (c ∷ s)) (2 ^ 63 + 1)
          then negative (numeral_value (c ∷ s))
          else default)
  unfolding get_env_as_int
  negative_read set =
      rw (set, atoi-minus c s, unsigned-digits c s (2 ^ 63 + 1) digits)
        (negative_or (ltb (numeral_value (c ∷ s)) (2 ^ 63 + 1)) (numeral_value (c ∷ s)) default)

-- What a setting that is such a numeral, or is not set, is read as.
pub data IsSetting (default : ℤ) : Option String → ℤ → Type 0 where
  unset : IsSetting default none default
  number :
      (c : Char) (s : String)
      → all_digits (c ∷ s) ≡ true
      → numeral_value (c ∷ s) < 2 ^ 63
      → IsSetting default (some (c ∷ s)) (pos (numeral_value (c ∷ s)))
  below_zero :
      (c : Char) (s : String)
      → all_digits (c ∷ s) ≡ true
      → numeral_value (c ∷ s) ≤ 2 ^ 63
      → IsSetting default (some ("-" ∷ c ∷ s)) (negative (numeral_value (c ∷ s)))
  overflow :
      (c : Char) (s : String)
      → all_digits (c ∷ s) ≡ true
      → 2 ^ 63 ≤ numeral_value (c ∷ s)
      → IsSetting default (some (c ∷ s)) default
  underflow :
      (c : Char) (s : String)
      → all_digits (c ∷ s) ≡ true
      → 2 ^ 63 < numeral_value (c ∷ s)
      → IsSetting default (some ("-" ∷ c ∷ s)) default

read :
    (variables : Variables) (key : String) (default n : ℤ) (o : Option String)
    → variables key ≡ o
    → IsSetting default o n
    → get_env_as_int variables key default ≡ n
unfolding get_env_as_int
read variables key default n none set unset = rw set refl
read variables key default n (some t) set (number c s digits small) =
    number_read variables key default c s digits set ∙ ground arith
read variables key default n (some t) set (below_zero c s digits small) =
    negative_read variables key default c s digits set ∙ ground arith
read variables key default n (some t) set (overflow c s digits large) =
    number_read variables key default c s digits set ∙ ground arith
read variables key default n (some t) set (underflow c s digits large) =
    negative_read variables key default c s digits set ∙ ground arith

-- A setting that is written in decimal digits, with or without a minus sign, is read as that
-- number if a signed integer of 64 bits can hold it, and as the default if not; a setting that is
-- missing is read as the default.
pub get_env_as_int-IsSetting :
    (variables : Variables) (key : String) (default n : ℤ)
    → IsSetting default (variables key) n
    → get_env_as_int variables key default ≡ n
get_env_as_int-IsSetting variables key default n = read variables key default n (variables key) refl
