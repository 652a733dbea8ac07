-- ===== src/Auth/Passwords.antt =====
-- `GeneratePassword` of internal/auth/password.go. A byte is its number, a text the list of its
-- bytes; `rand.Int` is a parameter.
pub mod Laws
use go_user_and_service_mgmt.Prelude.{
  ℕ, zero, suc, List, [], ◌∷◌, ◌++◌, Option, none, some, ◌-◌, leb, length, if◌then◌else◌,
}
use go_user_and_service_mgmt.Errors.{GoError}
use go_user_and_service_mgmt.Gorm.{Action, Result, ok, err}

abbrev pub temp_pass_length : ℕ
temp_pass_length = 12

-- `for ch := first; ch <= last; ch++ { charsetBuilder.WriteRune(ch) }`, on fuel
unfoldable pub write_runes : ℕ → ℕ → ℕ → List ℕ
write_runes zero ch last = []
write_runes (suc fuel) ch last =
    let rest = write_runes fuel (suc ch) last in if leb ch last then ch ∷ rest else []

abbrev pub rune_range : ℕ → ℕ → List ℕ
rune_range first last = write_runes (suc last - first) first last

-- `#$!-_`, the small letters, the capital letters, the digits
unfoldable pub charset : List ℕ
charset = 35 ∷ 36 ∷ 33 ∷ 45 ∷ 95 ∷ (rune_range 97 122 ++ (rune_range 65 90 ++ rune_range 48 57))

-- How the function ends: with a password, with the error of the source of randomness, or by an
-- index out of range.
pub data Outcome : Type 0 where
  password : List ℕ → Outcome
  failed : GoError → Outcome
  panic : Outcome

-- `charset[i]`
unfoldable pub byte_at : List ℕ → ℕ → Option ℕ
byte_at [] i = none
byte_at (b ∷ rest) zero = some b
byte_at (b ∷ rest) (suc i) = byte_at rest i

abbrev pub with_byte : ℕ → Outcome → Outcome
with_byte b (password bytes) = password (b ∷ bytes)
with_byte b (failed e) = failed e
with_byte b panic = panic

module _ {World : Type 0} where
  abbrev pub then_rest : Option ℕ → (World → Outcome × World) → World → Outcome × World
  then_rest none rest w = (panic, w)
  then_rest (some b) rest w = let (o, w') = rest w in (with_byte b o, w')

  abbrev pub pick : Result ℕ → (World → Outcome × World) → World → Outcome × World
  pick (ok i) rest w = then_rest (byte_at charset i) rest w
  pick (err e) rest w = (failed e, w)

  -- The loop over the bytes that are left; `random_below n` is `rand.Int(rand.Reader, n)`.
  unfoldable pub fill : (ℕ → Action World ℕ) → ℕ → World → Outcome × World
  fill random_below zero w = (password [], w)
  fill random_below (suc n) w =
      let (r, w') = random_below (length charset) w in pick r (fill random_below n) w'

  unfoldable pub generate_password : (ℕ → Action World ℕ) → World → Outcome × World
  generate_password random_below = fill random_below temp_pass_length
