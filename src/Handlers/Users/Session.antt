-- ===== src/Handlers/Users/Session.antt =====
-- From `login` to the middleware: the token of one request opens the next.
use Prim.Native.String.{◌++◌}
use go_user_and_service_mgmt.Prelude.{
  ℕ, pos, String, Bool, false, List, Option, none, some, Value, ◌≡◌, ◌⊎◌, inl, inr, subst, ap,
  IsRow, arith, ◌<◌, ◌≤◌, ◌+◌, ◌*◌, ◌/◌, ◌^◌, leb, Bool-cases,
}
use go_user_and_service_mgmt.Models.{User}
use go_user_and_service_mgmt.Gorm.{Database, ok}
use go_user_and_service_mgmt.Gorm.Laws.{IsRelational}
use go_user_and_service_mgmt.Users.Operations.{get_user_by_email}
use go_user_and_service_mgmt.Middleware.{Context, next, is_login, authenticate}
use go_user_and_service_mgmt.Middleware.Laws.{with_claims}
use go_user_and_service_mgmt.Auth.Jwt.{
  JwtLibrary, IsJwt, nanoseconds, create_jwt, signed, issue_jwt,
}
use go_user_and_service_mgmt.Auth.Jwt.Laws.{create_jwt-authenticate}
use go_user_and_service_mgmt.Handlers.{respond, Body}
use go_user_and_service_mgmt.Handlers.Users.{Environment, login}
use go_user_and_service_mgmt.Handlers.Users.Login.{GivesToken, login-GivesToken}

signed-ok :
    {World : Type 0} (o : Option String) (w : World) (t : String)
    → (signed o w).0 ≡ ok t
    → o ≡ some t
signed-ok none w t h = ground arith
signed-ok (some s) w t h = ground arith

module _ {World : Type 0} (db : Database World) (laws : IsRelational db) (env : Environment World)
    (jwt : JwtLibrary) (honest : IsJwt jwt) (clock : World → ℕ) (secret : String) (sec : ℕ)
    (small : nanoseconds * sec < 2 ^ 63) where
  -- The environment in which `login` signs by the library.
  abbrev pub signing : Environment World
  signing = record env { create_jwt = issue_jwt jwt clock secret (pos sec) }

  -- The token of an answer of `login` was issued to a stored user: the call looked the user up by
  -- email, which led to a world `w₁`, and signed the token for the user there, by the clock of
  -- `w₁`, as its last step; at a later request with the token, for any path but the login path,
  -- either the token has expired by the time of `w₁` or the request passes, with that user's role
  -- and email.
  pub login-authenticate :
      (body : Option (List (String × Value))) (w : World) (status : ℕ) (t : String) (flag : Bool)
      → (login db signing body w).0 ≡ respond (record { status = status; body = Body.token t flag })
      → (later : ℕ) (login_path : String) (c : Context) → is_login c.path login_path ≡ false
      → c.authorization ≡ "Bearer" ++ (" " ++ t)
      → (u : User) × (email : String) × (w₁ : World) × IsRow u (db.tables w).user
        × (get_user_by_email db email w ≡ (ok u, w₁))
        × (signing.create_jwt u.email u.role w₁ ≡ (ok t, (login db signing body w).1))
        × ((clock w₁ / nanoseconds + sec ≤ later / nanoseconds)
            ⊎ (authenticate (jwt.parse_at later) login_path secret c
                ≡ next (with_claims u.role u.email c)))
  unfolding issue_jwt
  login-authenticate body w status t flag answered later login_path c other header =
      let (_, email, _, u, w₁, _, _, _, row, _, _, _, found, issued) =
        subst (λ f. GivesToken db laws signing w body (f, (login db signing body w).1)) answered
          (login-GivesToken db laws signing body w) in
      let made =
        signed-ok (create_jwt jwt secret (pos sec) (clock w₁) u.email u.role) w₁ t
          (ap (λ x. x.0) issued) in
      (
        u,
        email,
        w₁,
        row,
        found,
        issued,
        elim (Bool-cases (leb (clock w₁ / nanoseconds + sec) (later / nanoseconds))) [
          | inl expired ↦ inl (ground arith)
          | inr valid ↦ inr (
              create_jwt-authenticate jwt honest secret t u.email u.role (clock w₁) later sec small
                made (ground arith) login_path c other header)
        ],
      )
