-- ===== src/Auth/Tests.antt =====
-- A JWT library that signs one set of claims, and the round trip through it.
use go_user_and_service_mgmt.Prelude.{
  ℕ, pos, String, Bool, true, false, List, [], ◌∷◌, none, some, ◌≡◌, refl, arith, ◌==◌, ◌&&◌, ltb,
  ◌<◌, number_comparable, text_comparable, if◌then◌else◌, int_eq, int_eq_iff, eq_iff, ◌*◌, ap, ◌+ℤ◌,
  ◌*ℤ◌, wrap64,
}
use go_user_and_service_mgmt.Middleware.{Context, next, authenticate}
use go_user_and_service_mgmt.Middleware.Laws.{with_claims}
use go_user_and_service_mgmt.Auth.Jwt.{
  JwtLibrary, IsJwt, Claim, nanoseconds, create_jwt, claims_of, decoded_claims, expiry,
}
use go_user_and_service_mgmt.Errors.{GoError}
use go_user_and_service_mgmt.Gorm.{Action, ok, err}
use go_user_and_service_mgmt.Auth.Passwords.{
  password, charset, write_runes, byte_at, fill, temp_pass_length, generate_password,
}
use go_user_and_service_mgmt.Auth.Passwords.Laws.{IsPassword, generate_password-IsPassword}
use go_user_and_service_mgmt.Auth.Jwt.Laws.{create_jwt-authenticate}

abbrev same_claim : Claim → Claim → Bool
same_claim (Claim.text a) (Claim.text b) = a == b
same_claim (Claim.unix a) (Claim.unix b) = int_eq a b
same_claim _ _ = false

abbrev same_claims : List (String × Claim) → List (String × Claim) → Bool
same_claims [] [] = true
same_claims ((k, c) ∷ l) ((k', c') ∷ l') =
    let rest = same_claims l l' in k == k' && (same_claim c c' && rest)
same_claims _ _ = false

same_claim-eq : (c c' : Claim) → same_claim c c' ≡ true → c ≡ c'
same_claim-eq (Claim.text a) (Claim.text b) h = ap Claim.text ((eq_iff a b).0 h)
same_claim-eq (Claim.unix a) (Claim.unix b) h = ap Claim.unix ((int_eq_iff a b).0 h)
same_claim-eq (Claim.text a) (Claim.unix b) h = ground arith
same_claim-eq (Claim.unix a) (Claim.text b) h = ground arith

both : (a b : Bool) → a && b ≡ true → (a ≡ true) × (b ≡ true)
both true true h = (refl, refl)
both true false h = ground arith
both false b h = ground arith

same_claims-eq : (l l' : List (String × Claim)) → same_claims l l' ≡ true → l ≡ l'
same_claims-eq [] [] h = refl
same_claims-eq [] (x ∷ l') h = ground arith
same_claims-eq (x ∷ l) [] h = ground arith
same_claims-eq ((k, c) ∷ l) ((k', c') ∷ l') h =
    let (key, rest) = both (k == k') (same_claim c c' && same_claims l l') h in
    let (claim, tail) = both (same_claim c c') (same_claims l l') rest in
    rw ((eq_iff k k').0 key, same_claim-eq c c' claim, same_claims-eq l l' tail) refl

-- What Ada's token claims, issued in the first second for fifteen minutes.
abbrev sample : List (String × Claim)
sample = claims_of "ada@mgmtportal.com" "admin" (pos 900)

abbrev pub one_token : JwtLibrary
one_token = record {
  sign =
      λ secret claims. if secret == "secret" && same_claims claims sample then some "abc" else none;
  parse_at = λ now secret t.
      if secret == "secret" && t == "abc"
      then some (record { valid = true; claims = some (decoded_claims sample) })
      else none;
}

signed_sample :
    (secret t : String) (claims : List (String × Claim)) (b : Bool)
    → (b ≡ true → (secret == "secret" ≡ true) × (same_claims claims sample ≡ true))
    → (if b then some "abc" else none) ≡ some t
    → (secret ≡ "secret") × (claims ≡ sample) × (t ≡ "abc")
signed_sample secret t claims true h e =
    let (key, same) = h refl in
    ((eq_iff secret "secret").0 key, same_claims-eq claims sample same, ground arith)
signed_sample secret t claims false h e = ground arith

one_token-signed :
    (secret : String) (claims : List (String × Claim)) (t : String)
    → one_token.sign secret claims ≡ some t
    → (secret ≡ "secret") × (claims ≡ sample) × (t ≡ "abc")
one_token-signed secret claims t =
    signed_sample secret t claims (secret == "secret" && same_claims claims sample)
      (both (secret == "secret") (same_claims claims sample))

pub one_token-IsJwt : IsJwt one_token
one_token-IsJwt = record {
  no_space =
      λ secret claims t h. let (_, _, token) = one_token-signed secret claims t h in rw token refl;
  parses = λ now secret claims t h early.
      let (key, made, token) = one_token-signed secret claims t h in rw (key, made, token) refl;
}

abbrev by_ada : Context
by_ada = record { path = some "/api/v1/users"; authorization = "Bearer abc"; keys = [] }

create_jwt-authenticate_example :
    authenticate (one_token.parse_at (899 * nanoseconds)) "/api/v1/login" "secret" by_ada
    ≡ next (with_claims "admin" "ada@mgmtportal.com" by_ada)
unfolding create_jwt expiry ◌+ℤ◌ ◌*ℤ◌ wrap64
create_jwt-authenticate_example =
    create_jwt-authenticate one_token one_token-IsJwt "secret" "abc" "ada@mgmtportal.com" "admin" 0
      (899 * nanoseconds) 900 (omega arith) refl (omega arith) "/api/v1/login" by_ada refl refl

-- A source that yields the numbers that it holds, below the bound, and fails when it is empty.
abbrev draw : ℕ → Action (List ℕ) ℕ
draw n [] = (err GoError.driver_failure, [])
draw n (i ∷ rest) = (if ltb i n then ok i else err GoError.driver_failure, rest)

draw_below : (n : ℕ) (w : List ℕ) (i : ℕ) → (draw n w).0 ≡ ok i → i < n
draw_below n [] i h = ground arith
draw_below n (x ∷ rest) i h = ground (arith, h)

abbrev draws : List ℕ
draws = 0 ∷ 4 ∷ 5 ∷ 30 ∷ 31 ∷ 56 ∷ 57 ∷ 66 ∷ 1 ∷ 2 ∷ 3 ∷ 6 ∷ []

-- `#_azAZ09$!-b`
generated :
    generate_password draw draws
    ≡ (password (35 ∷ 95 ∷ 97 ∷ 122 ∷ 65 ∷ 90 ∷ 48 ∷ 57 ∷ 36 ∷ 33 ∷ 45 ∷ 98 ∷ []), [])
unfolding generate_password fill charset write_runes byte_at
generated = refl

generate_password-IsPassword_example :
    IsPassword draw temp_pass_length (generate_password draw draws).0
generate_password-IsPassword_example = generate_password-IsPassword draw draw_below draws
