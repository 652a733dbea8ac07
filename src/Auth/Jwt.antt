-- ===== src/Auth/Jwt.antt =====
-- `CreateJWT` of internal/auth/jwt.go. The JWT library is a `JwtLibrary`: how it signs claims and
-- how it parses a token at a moment. A moment is a number of nanoseconds since 1970.
pub mod Laws
use go_user_and_service_mgmt.Prelude.{
  ℕ, ℤ, pos, negsuc, String, Bool, true, false, List, [], ◌∷◌, Option, none, some, Value, string,
  number, lookup, ◌≡◌, ◌/◌, ◌+ℤ◌, int_mul, ltb_ℤ,
}
use go_user_and_service_mgmt.Errors.{GoError}
use go_user_and_service_mgmt.Gorm.{Action, Result, ok, err}
use go_user_and_service_mgmt.Middleware.{Token, claim_email, claim_role}
use go_user_and_service_mgmt.Middleware.Bearer.{has_space}

-- A value in the claims that the program makes.
pub data Claim : Type 0 where
  text : String → Claim
  unix : ℤ → Claim

pub record JwtLibrary : Type 0 where
  -- `NewWithClaims(SigningMethodHS256, claims).SignedString(secret)`
  pub sign : String → List (String × Claim) → Option String
  -- `Parse(token, ...)` with the secret, at a moment
  pub parse_at : ℕ → String → String → Option Token

abbrev pub claim_expires_at : String
claim_expires_at = "exp"

abbrev pub nanoseconds : ℕ
nanoseconds = 1000000000

-- The seconds since 1970, rounded down: `Time.Unix`.
abbrev pub to_unix : ℤ → ℤ
to_unix (pos n) = pos (n / nanoseconds)
to_unix (negsuc n) = negsuc (n / nanoseconds)

-- `time.Now().Add(time.Second * time.Duration(expirationInSec)).Unix()`; a `Duration` is an int64.
unfoldable pub expiry : ℕ → ℤ → ℤ
expiry now expiration_in_sec = to_unix (pos now +ℤ int_mul (pos nanoseconds) expiration_in_sec)

abbrev pub claims_of : String → String → ℤ → List (String × Claim)
claims_of email user_role expires_at =
    (claim_email, text email)
    ∷ (claim_role, text user_role)
    ∷ (claim_expires_at, unix expires_at)
    ∷ []

unfoldable pub create_jwt : JwtLibrary → String → ℤ → ℕ → String → String → Option String
create_jwt jwt secret expiration_in_sec now email user_role =
    jwt.sign secret (claims_of email user_role (expiry now expiration_in_sec))

-- The call in `login`, which reads the clock; the error of the library is not told apart.
abbrev pub signed {ℓ} : {World : Type ℓ} → Option String → World → Result String × World
signed none w = (err GoError.driver_failure, w)
signed (some t) w = (ok t, w)

unfoldable pub issue_jwt :
    {World : Type 0} → JwtLibrary → (World → ℕ) → String → ℤ → String → String → Action World String
issue_jwt jwt clock secret expiration_in_sec email user_role w =
    signed (create_jwt jwt secret expiration_in_sec (clock w) email user_role) w

-- What the claims are after the trip through JSON.
abbrev pub decoded : Claim → Value
decoded (text s) = string s
decoded (unix _) = number

abbrev pub decoded_claims : List (String × Claim) → List (String × Value)
decoded_claims [] = []
decoded_claims ((key, c) ∷ rest) = (key, decoded c) ∷ decoded_claims rest

-- The moment is before the claimed expiry.
abbrev pub InTime : ℕ → List (String × Claim) → Type 0
InTime now claims = elim (lookup claim_expires_at claims) [
  | some (unix expires_at) ↦ ltb_ℤ (pos (now / nanoseconds)) expires_at ≡ true
  | _ ↦ ⊥
]

-- What the program relies on in the library: a signed token has no space in it, and parses under
-- the secret that signed it, until it expires, as a valid token with the claims.
pub record IsJwt (jwt : JwtLibrary) : Type 0 where
  pub no_space :
      (secret : String) (claims : List (String × Claim)) (t : String)
      → jwt.sign secret claims ≡ some t
      → has_space t ≡ false
  pub parses :
      (now : ℕ) (secret : String) (claims : List (String × Claim)) (t : String)
      → jwt.sign secret claims ≡ some t
      → InTime now claims
      → jwt.parse_at now secret t
        ≡ some (record { valid = true; claims = some (decoded_claims claims) })
