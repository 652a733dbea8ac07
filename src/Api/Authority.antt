-- ===== src/Api/Authority.antt =====
-- Who changes the users, and with Api/Writers.antt, who changes anything.
use go_user_and_service_mgmt.Prelude.{
  ℕ, arith, lookup, ap, some, none, false, ◌∙◌, ◌⊎◌, inl, inr, String, List, [], ◌∷◌, ◌≡◌, refl,
  sym, subst,
}
use go_user_and_service_mgmt.Models.{User, role_admin}
use go_user_and_service_mgmt.Gorm.{Database, Tables}
use go_user_and_service_mgmt.Gorm.Kept.{Kept}
use go_user_and_service_mgmt.Users.Operations.{change_password}
use go_user_and_service_mgmt.Users.Frames.{SameButFor, change_password-SameButFor}
use go_user_and_service_mgmt.Gorm.Laws.{IsRelational}
use go_user_and_service_mgmt.Services.Operations.{Server}
use go_user_and_service_mgmt.Services.Frames.{service_operations-users}
use go_user_and_service_mgmt.Middleware.{Context, claim_email, Step, next, abort}
use go_user_and_service_mgmt.Middleware.Laws.{Carries, with_claims}
use go_user_and_service_mgmt.Middleware.Access.{admin_only, before_handler-open}
use go_user_and_service_mgmt.Middleware.Routes.{Endpoint, allowed_roles, before_handler}
use go_user_and_service_mgmt.Api.{Request, Setting, serve}
use go_user_and_service_mgmt.Api.Writers.{WritesServices, serve-WritesServices}
use go_user_and_service_mgmt.Api.Requests.{
  IsSilent, ServicesKeep, UsersKeep, after_middleware-keeps,
}

abort≢next : (status : ℕ) (text : String) (c : Context) → ¬ (abort status text ≡ next c)
abort≢next status text c h = ground arith

module _ {World : Type 0} (db : Database World) (laws : IsRelational db) (env : Setting World)
    (silent : IsSilent db.tables env.environment) (P : List User → Type 0) where
  abbrev OfUsers : Tables → Type 0
  OfUsers t = P t.user

  kept_users : ServicesKeep db OfUsers
  kept_users =
      let users = service_operations-users db laws in
      record {
        creates = λ n d. record { keeps = λ s. subst P (sym (users s 0 n d "" "").0) };
        updates = λ i n d. record { keeps = λ s. subst P (sym (users s i n d "" "").1) };
        deletes = λ i. record { keeps = λ s. subst P (sym (users s i "" "" "" "").2) };
        creates_version = λ i t f. record { keeps = λ s. subst P (sym (users s i "" "" t f).3) };
        updates_version = λ i t f. record {
          keeps = λ w.
              subst P (sym (users (record { world = w; to_refresh_views = false }) i "" "" t f).4);
        };
        deletes_version = λ i t. record { keeps = λ s. subst P (sym (users s i "" "" t "").5) };
      }

  -- A request keeps what the operation behind its endpoint keeps.
  served :
      (r : Request) (s : Server World)
      → ((c : Context)
          → before_handler (env.parse s.world) env.login_path env.secret r.endpoint r.context
            ≡ next c
          → UsersKeep db OfUsers c r.endpoint)
      → P (db.tables s.world).user
      → P (db.tables (serve db env r s).1.world).user
  unfolding serve
  served r s users h =
      after_middleware-keeps db laws env silent OfUsers r (λ _. kept_users)
        (before_handler (env.parse s.world) env.login_path env.secret r.endpoint r.context) s users
        h

module _ {World : Type 0} (db : Database World) (laws : IsRelational db) (env : Setting World)
    (silent : IsSilent db.tables env.environment) (r : Request) (s : Server World) where
  abbrev rows : List User
  rows = (db.tables s.world).user

  abbrev rows_after : List User
  rows_after = (db.tables (serve db env r s).1.world).user

  -- What stands in front of the handler.
  abbrev gate : Step
  gate = before_handler (env.parse s.world) env.login_path env.secret r.endpoint r.context

  abbrev Brings : String → String → Type 0
  Brings role email =
      Carries (env.parse s.world) env.login_path env.secret role email r.context.authorization

  -- The users are as they were, or the password of the caller's own email was changed, or an
  -- administrator changed them.
  abbrev pub Authorized : Type 0
  Authorized =
      (rows_after ≡ rows)
      ⊎ ((r.endpoint ≡ Endpoint.change_user_password)
          × ((role : String) × (email : String) × Brings role email
              × SameButFor email rows rows_after))
      ⊎ ((email : String) × Brings role_admin email)

  spared :
      ((c : Context) → gate ≡ next c → UsersKeep db (λ t. t.user ≡ rows) c r.endpoint)
      → rows_after ≡ rows
  spared users = served db laws env silent (λ us. us ≡ rows) r s users refl

  -- An endpoint for administrators.
  by_admin :
      r.context.keys ≡ []
      → allowed_roles r.endpoint ≡ some (role_admin ∷ [])
      → (step : Step) → gate ≡ step
      → Authorized
  by_admin fresh limited (next c) passed = inr (
      inr (
        admin_only (env.parse s.world) env.login_path env.secret r.endpoint r.context c limited
          fresh passed))
  by_admin fresh limited (abort status text) refused =
      inl (spared (λ c passed. absurd (abort≢next status text c (sym refused ∙ passed))))

  -- The caller of a change of a password is the one whom the middleware put into the context.
  own_password :
      r.context.keys ≡ []
      → r.endpoint ≡ Endpoint.change_user_password
      → (role email : String) (c : Context) → gate ≡ next c
      → c ≡ with_claims role email r.context
      → SameButFor email rows rows_after
  own_password fresh is role email c passed made =
      served db laws env silent (SameButFor email rows) r s
        (λ c' passed'.
          subst (UsersKeep db (λ t. SameButFor email rows t.user) c') (sym is) (λ m hash named.
            let same : next c ≡ next c' = sym passed ∙ passed' in
            let caller : lookup claim_email c.keys ≡ some email = rw (made, fresh) refl in
            let mine : email ≡ m = ground (arith, same, caller, named) in
            subst
              (λ e.
                Kept (λ w. SameButFor email rows (db.tables w).user) (change_password db e hash))
              mine (change_password-SameButFor db laws email hash rows)))
        (λ p. refl)

  by_password :
      r.context.keys ≡ []
      → r.endpoint ≡ Endpoint.change_user_password
      → (step : Step) → gate ≡ step
      → Authorized
  unfolding allowed_roles
  by_password fresh is (abort status text) refused =
      inl (spared (λ c passed. absurd (abort≢next status text c (sym refused ∙ passed))))
  by_password fresh is (next c) passed =
      elim ((before_handler-open (env.parse s.world) env.login_path env.secret r.endpoint r.context
          c (ap allowed_roles is)).0
        passed) [
          | inl (login, same) ↦ inl (
              spared (λ c' passed'.
                subst (UsersKeep db (λ t. t.user ≡ rows) c') (sym is) (λ m hash named.
                  let again : next c ≡ next c' = sym passed ∙ passed' in
                  let nobody : lookup claim_email c.keys ≡ none = rw (same, fresh) refl in
                  absurd (ground (arith, again, nobody, named)))))
          | inr (other, (role, email, carried, made)) ↦
              inr (inl (is, (role, email, carried, own_password fresh is role email c passed made)))
        ]

  by_endpoint : r.context.keys ≡ [] → (e : Endpoint) → r.endpoint ≡ e → Authorized
  unfolding allowed_roles
  by_endpoint fresh Endpoint.add_user is = by_admin fresh (ap allowed_roles is) gate refl
  by_endpoint fresh Endpoint.update_user is = by_admin fresh (ap allowed_roles is) gate refl
  by_endpoint fresh Endpoint.delete_user is = by_admin fresh (ap allowed_roles is) gate refl
  by_endpoint fresh Endpoint.change_user_password is = by_password fresh is gate refl
  by_endpoint fresh _ is =
      inl (spared (λ c _. subst (UsersKeep db (λ t. t.user ≡ rows) c) (sym is) tt))

  -- A request changes the users only if it carries a valid token with the role admin, or changes a
  -- password with a valid token, and then the users whose email is not that of the token are as
  -- they were; and it changes the services and versions only if it carries a valid token with the
  -- role of an advanced user or an administrator; whatever else it holds and whether it succeeds or
  -- fails, where its context is fresh, and making passwords, hashes and tokens leaves the tables
  -- alone.
  pub serve-Authorized : r.context.keys ≡ [] → Authorized × WritesServices db laws env silent r s
  serve-Authorized fresh =
      (by_endpoint fresh r.endpoint refl, serve-WritesServices db laws env silent r s fresh)
