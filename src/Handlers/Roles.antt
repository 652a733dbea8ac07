-- ===== src/Handlers/Roles.antt =====
-- internal/components/role/handlers.go
use go_user_and_service_mgmt.Prelude.{List, SameRows, ◌≡◌, refl, ◌⊎◌, inl, inr}
use go_user_and_service_mgmt.Models.{UserRole}
use go_user_and_service_mgmt.Gorm.{Database, Tables, Result, ok, err}
use go_user_and_service_mgmt.Gorm.Laws.{IsRelational}
use go_user_and_service_mgmt.Roles.{fetch_roles}
use go_user_and_service_mgmt.Roles.Laws.{ListsRoles, fetch_roles-ListsRoles}
use go_user_and_service_mgmt.Handlers.{
  Flow, respond, Handler, Body, answer, call, flow_of, proceed, ◌>>=◌,
}
use go_user_and_service_mgmt.Gorm.Kept.{Kept-bind, Kept-or_error, Kept-find, Kept-pure}
use go_user_and_service_mgmt.Handlers.Kept.{Safe, Safe-bind, Safe-call, Safe-answer}
use go_user_and_service_mgmt.Handlers.Users.{always_failure, failure}

unfoldable pub fetch_user_roles : {World : Type 0} → Database World → Handler World (Unit {0})
fetch_user_roles db = do roles ← call (fetch_roles db) always_failure; answer 200 (Body.roles roles)

pub fetch_user_roles-Safe :
    {World : Type 0} (db : Database World) (laws : IsRelational db) (J : Tables → Type 0)
    → Safe (λ w. J (db.tables w)) (fetch_user_roles db)
unfolding fetch_user_roles fetch_roles
fetch_user_roles-Safe db laws J =
    Safe-bind
      (Safe-call _ (
        Kept-bind (Kept-or_error _ (Kept-find J laws.user_roles_lem.readable))
          (λ roles. Kept-pure)))
      (λ roles. Safe-answer)

module _ {World : Type 0} (db : Database World) where
  -- All the stored roles, or a failure.
  abbrev pub ShowsRoles : Tables → Flow (Unit {0}) × World → Type 0
  ShowsRoles before (flow, w') =
      (db.tables w' ≡ before)
      × (((roles : List UserRole) × SameRows roles before.user_role
            × (flow ≡ respond (record { status = 200; body = Body.roles roles })))
          ⊎ (flow ≡ respond (record { status = 500; body = failure })))

  shown :
      (w : World) (x : Result (List UserRole) × World)
      → ListsRoles db w x
      → ShowsRoles
          (db.tables w)
          (proceed (flow_of always_failure x.0) (λ roles. answer 200 (Body.roles roles)) x.1)
  shown w (ok roles, w') (same, stored) = (same, inl (roles, stored, refl))
  shown w (err e, w') (same, _) = (same, inr refl)

  -- The endpoint of the roles answers with all the stored roles, or with a failure, and changes no
  -- table.
  pub fetch_user_roles-ShowsRoles :
      IsRelational db → (w : World) → ShowsRoles (db.tables w) (fetch_user_roles db w)
  unfolding fetch_user_roles call ◌>>=◌
  fetch_user_roles-ShowsRoles laws w = shown w (fetch_roles db w) (fetch_roles-ListsRoles db laws w)
