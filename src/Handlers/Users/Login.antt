-- ===== src/Handlers/Users/Login.antt =====
-- Who gets a token from `login`.
use go_user_and_service_mgmt.Prelude.{
  String, Bool, true, List, Option, some, Value, string, lookup, ◌≡◌, refl, IsRow,
}
use go_user_and_service_mgmt.Errors.{GoError}
use go_user_and_service_mgmt.Models.{User}
use go_user_and_service_mgmt.Gorm.{Database, Result, ok, err, Tables, or_error, rewrite_error}
use go_user_and_service_mgmt.Gorm.Laws.{IsRelational, ReadsFirst}
use go_user_and_service_mgmt.Users.Operations.{get_user_by_email, has_email}
use go_user_and_service_mgmt.Utils.{login_payload_template}
use go_user_and_service_mgmt.Handlers.{Flow, respond, Body, error}
use go_user_and_service_mgmt.Handlers.Rules.{on-answer_if, on-or_answer, on-assert_string, on-run}
use go_user_and_service_mgmt.Handlers.Users.{Environment, login, internal_or}
use go_user_and_service_mgmt.Handlers.Users.Laws.{checked-IsText, unnegated}

-- A user that a lookup by email returns.
abbrev Finds : String → List User → Result User → Type 0
Finds email rows (ok u) = (has_email email u ≡ true) × IsRow u rows
Finds email rows (err _) = Unit

module _ {World : Type 0} (db : Database World) (laws : IsRelational db)
    (env : Environment World) where
  first-Finds :
      (before : Tables) (email : String) (g : GoError → GoError) (r : Result User) (w' : World)
      → ReadsFirst db.tables before (has_email email) before.user (r, w')
      → Finds email before.user (rewrite_error g r)
  first-Finds before email g (ok u) w' h = (h.1, h.2)
  first-Finds before email g (err e) w' h = tt

  get_user_by_email-Finds :
      (email : String) (w : World) → Finds email (db.tables w).user (get_user_by_email db email w).0
  unfolding get_user_by_email or_error
  get_user_by_email-Finds email w =
      first-Finds (db.tables w) email _ (db.users.first (has_email email) w).0
        (db.users.first (has_email email) w).1
        (laws.users_lem.readable.first_lem (has_email email) w)

  -- The payload names a stored user and carries that user's password; from `start`, the user is
  -- looked up, then the token is signed for the user, which leads to `end`; the flag of the answer
  -- is the user's.
  abbrev pub IsLogin : World → World → Option (List (String × Value)) → String → Bool → Type 0
  IsLogin start end body token flag =
      (payload : List (String × Value)) × (email : String) × (password : String) × (u : User)
      × (w : World) × (body ≡ some payload)
      × (lookup "email" payload ≡ some (string email))
      × (lookup "password" payload ≡ some (string password))
      × IsRow u (db.tables start).user
      × (has_email email u ≡ true)
      × (env.compare_hash_and_password u.password_hash password ≡ true)
      × (flag ≡ u.is_temporary_password)
      × (get_user_by_email db email start ≡ (ok u, w))
      × (env.create_jwt u.email u.role w ≡ (ok token, end))

  abbrev TokenOnlyIf : World → World → Option (List (String × Value)) → Body → Type 0
  TokenOnlyIf start end body (Body.token t flag) = IsLogin start end body t flag
  TokenOnlyIf start end body _ = Unit

  internal_or-TokenOnlyIf :
      (start end : World) (body : Option (List (String × Value))) (e : GoError)
      → TokenOnlyIf start end body (internal_or 401 (error "invalid email or password") e).1
  internal_or-TokenOnlyIf start end body e =
      elim e
        as (λ e.
          TokenOnlyIf start end body (internal_or 401 (error "invalid email or password") e).1) [
            | GoError.internal ↦ tt
            | _ ↦ tt
          ]

  abbrev pub GivesToken : World → Option (List (String × Value)) → Flow (Unit {0}) × World → Type 0
  GivesToken start body (respond r, end) = TokenOnlyIf start end body r.body
  GivesToken start body _ = Unit

  -- `login` answers with a token only if the payload names a stored user by its email and carries
  -- a password that matches the stored hash; the token is signed for that user's email and role,
  -- in the world in which the lookup of the user ended, and the flag of the answer is whether the
  -- password is temporary.
  pub login-GivesToken :
      (body : Option (List (String × Value))) (w : World) → GivesToken w body (login db env body w)
  unfolding login
  login-GivesToken body w =
      let Q = GivesToken w body in
      on-or_answer Q body _ _ _ w tt λ payload given. on-answer_if Q _ _ _ _ w tt λ checked.
        let (email, has_address) =
          checked-IsText payload login_payload_template "email" checked refl in
        let (password, has_password) =
          checked-IsText payload login_payload_template "password" checked refl in
        on-answer_if Q _ _ _ _ w tt λ _. on-assert_string Q "email" payload _ w email has_address (
          on-run Q (get_user_by_email db email) _ _ w
            (λ u w₁ found. on-assert_string Q "password" payload _ w₁ password has_password (
              on-answer_if Q _ _ _ _ w₁ tt λ matches.
                on-run Q (env.create_jwt u.email u.role) _ _ w₁
                  (λ token w₂ issued.
                    let (same, row) : Finds email (db.tables w).user (ok u) =
                      rw found at (get_user_by_email-Finds email w) in
                    (
                      payload,
                      email,
                      password,
                      u,
                      w₁,
                      given,
                      has_address,
                      has_password,
                      row,
                      same,
                      unnegated _ matches,
                      refl,
                      found,
                      issued,
                    ))
                  (λ e w₂. tt)))
            (λ e w₁. internal_or-TokenOnlyIf w w₁ body e))
