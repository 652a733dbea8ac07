-- ===== src/Auth/Jwt/Laws.antt =====
-- A token that the program issues is accepted by its own middleware.
use Prim.Native.String.{◌++◌}
use go_user_and_service_mgmt.Prelude.{
  ℕ, pos, String, true, false, List, some, ◌≡◌, refl, ◌<◌, ◌+◌, ◌*◌, ◌/◌, ◌^◌, arith, ◌+ℤ◌,
}
use go_user_and_service_mgmt.Prelude.Int.{wrap64-pos, pos-*ℤ-pos}
use go_user_and_service_mgmt.Middleware.{Context, Token, next, is_login, authenticate}
use go_user_and_service_mgmt.Middleware.Laws.{with_claims, Carries-next}
use go_user_and_service_mgmt.Auth.Jwt.{
  JwtLibrary, IsJwt, Claim, InTime, nanoseconds, expiry, claims_of, create_jwt, decoded_claims,
}

-- An expiration below 2 ^ 63 nanoseconds is added to the second of the issue.
pub expiry_lem :
    (now sec : ℕ)
    → nanoseconds * sec < 2 ^ 63
    → expiry now (pos sec) ≡ pos (now / nanoseconds + sec)
unfolding expiry ◌+ℤ◌
expiry_lem now sec small = rw (pos-*ℤ-pos, wrap64-pos (nanoseconds * sec) small) (ground arith)

module _ (jwt : JwtLibrary) (honest : IsJwt jwt) (secret t email role : String) (now later sec : ℕ)
    (small : nanoseconds * sec < 2 ^ 63) where
  abbrev made : List (String × Claim)
  made = claims_of email role (expiry now (pos sec))

  made-InTime : later / nanoseconds < now / nanoseconds + sec → InTime later made
  made-InTime early = rw (expiry_lem now sec small) (ground arith)

  -- A token that `CreateJWT` makes for a user passes the middleware of the same secret in every
  -- second before its expiry, as that user's: for any path but the login path, the handlers find
  -- the user's role and email in the context.
  pub create_jwt-authenticate :
      create_jwt jwt secret (pos sec) now email role ≡ some t
      → later / nanoseconds < now / nanoseconds + sec
      → (login_path : String) (c : Context) → is_login c.path login_path ≡ false
      → c.authorization ≡ "Bearer" ++ (" " ++ t)
      → authenticate (jwt.parse_at later) login_path secret c ≡ next (with_claims role email c)
  unfolding create_jwt
  create_jwt-authenticate made_of early login_path c other header =
      let token : Token = record { valid = true; claims = some (decoded_claims made) } in
      Carries-next (jwt.parse_at later) login_path secret c role email other (
        t,
        token,
        header,
        honest.no_space secret made t made_of,
        honest.parses later secret made t made_of (made-InTime early),
        (refl, (decoded_claims made, refl, refl, refl)),
      )
