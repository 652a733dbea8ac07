-- ===== src/Api/Writers.antt =====
-- Who changes the services and versions.
use go_user_and_service_mgmt.Prelude.{
  false, true≢false, String, [], ◌∷◌, some, ap, ◌∙◌, ◌⊎◌, inl, inr, ◌≡◌, refl, sym,
}
use go_user_and_service_mgmt.Models.{role_admin, role_advanced}
use go_user_and_service_mgmt.Gorm.{Database, Tables}
use go_user_and_service_mgmt.Gorm.Laws.{IsRelational}
use go_user_and_service_mgmt.Services.Operations.{Server}
use go_user_and_service_mgmt.Users.Frames.{SameServices, user_operations-services}
use go_user_and_service_mgmt.Middleware.{Context, Step, next, abort}
use go_user_and_service_mgmt.Middleware.Laws.{Carries}
use go_user_and_service_mgmt.Middleware.Access.{IsOneOf, before_handler-restricted}
use go_user_and_service_mgmt.Middleware.Routes.{Endpoint, allowed_roles, before_handler}
use go_user_and_service_mgmt.Api.{Request, Setting, after_middleware, serve}
use go_user_and_service_mgmt.Api.Requests.{
  IsSilent, UsersKeep, writes_services, after_middleware-keeps,
}

module _ {World : Type 0} (db : Database World) (laws : IsRelational db) (env : Setting World)
    (silent : IsSilent db.tables env.environment) (r : Request) (s : Server World) where
  abbrev AreServices : Tables → Type 0
  AreServices t =
      (t.service ≡ (db.tables s.world).service) × (t.version ≡ (db.tables s.world).version)

  abbrev gate : Step
  gate = before_handler (env.parse s.world) env.login_path env.secret r.endpoint r.context

  -- The services and versions are as they were, or an advanced user or an administrator changed
  -- them.
  abbrev pub WritesServices : Type 0
  WritesServices =
      SameServices db (db.tables s.world) (serve db env r s).1.world
      ⊎ ((role : String) × (email : String) × Carries (env.parse s.world) env.login_path env.secret
            role email r.context.authorization
          × IsOneOf role (role_advanced ∷ role_admin ∷ []))

  users-AreServices : (c : Context) (e : Endpoint) → UsersKeep db AreServices c e
  users-AreServices c e =
      let same = user_operations-services db laws in
      elim e as (λ k. UsersKeep db AreServices c k) [
        | Endpoint.add_user ↦ λ n m u p. record {
          keeps = λ w h. ((same w 0 n m u p).0.0 ∙ h.0, (same w 0 n m u p).0.1 ∙ h.1);
        }
        | Endpoint.update_user ↦ λ i n m u. record {
          keeps = λ w h. ((same w i n m u "").1.0 ∙ h.0, (same w i n m u "").1.1 ∙ h.1);
        }
        | Endpoint.delete_user ↦ λ i. record {
          keeps = λ w h. ((same w i "" "" "" "").2.0 ∙ h.0, (same w i "" "" "" "").2.1 ∙ h.1);
        }
        | Endpoint.change_user_password ↦ λ m p _. record {
          keeps = λ w h. ((same w 0 "" m "" p).3.0 ∙ h.0, (same w 0 "" m "" p).3.1 ∙ h.1);
        }
        | _ ↦ tt
      ]

  -- An endpoint that does not write services.
  unwritten :
      writes_services r.endpoint ≡ false
      → SameServices db (db.tables s.world) (serve db env r s).1.world
  unfolding serve
  unwritten other =
      after_middleware-keeps db laws env silent AreServices r
        (λ writes. absurd (true≢false (sym writes ∙ other))) gate s
        (λ c _. users-AreServices c r.endpoint) (refl, refl)

  -- An endpoint for advanced users and administrators.
  by_writer :
      r.context.keys ≡ []
      → allowed_roles r.endpoint ≡ some (role_advanced ∷ role_admin ∷ [])
      → (step : Step) → gate ≡ step
      → WritesServices
  unfolding serve
  by_writer fresh limited (next c) passed =
      let (_, (role, email, carried, one, _)) =
        (before_handler-restricted (env.parse s.world) env.login_path env.secret r.endpoint
            (role_advanced ∷ role_admin ∷ []) r.context c limited fresh).0
          passed in
      inr (role, email, carried, one)
  by_writer fresh limited (abort status text) refused =
      let same = ap (λ step. db.tables (after_middleware db env step r s).1.world) refused in
      inl (ap (λ (t : Tables). t.service) same, ap (λ (t : Tables). t.version) same)

  by_endpoint : r.context.keys ≡ [] → (e : Endpoint) → r.endpoint ≡ e → WritesServices
  unfolding allowed_roles
  by_endpoint fresh Endpoint.add_service is = by_writer fresh (ap allowed_roles is) gate refl
  by_endpoint fresh Endpoint.update_service is = by_writer fresh (ap allowed_roles is) gate refl
  by_endpoint fresh Endpoint.delete_service is = by_writer fresh (ap allowed_roles is) gate refl
  by_endpoint fresh Endpoint.add_service_version is =
      by_writer fresh (ap allowed_roles is) gate refl
  by_endpoint fresh Endpoint.update_service_version is =
      by_writer fresh (ap allowed_roles is) gate refl
  by_endpoint fresh Endpoint.delete_service_version is =
      by_writer fresh (ap allowed_roles is) gate refl
  by_endpoint fresh _ is = inl (unwritten (ap writes_services is))

  -- A request changes the services and versions only if it carries a valid token with the role of
  -- an advanced user or an administrator, where its context is fresh, and making passwords, hashes
  -- and tokens leaves the tables alone.
  pub serve-WritesServices : r.context.keys ≡ [] → WritesServices
  serve-WritesServices fresh = by_endpoint fresh r.endpoint refl
