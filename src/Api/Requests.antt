-- ===== src/Api/Requests.antt =====
-- What a request keeps: any property of the tables that the operation behind its endpoint keeps.
use go_user_and_service_mgmt.Prelude.{
  ℕ, String, Bool, true, false, some, lookup, ◌≡◌, refl, sym, subst,
}
use go_user_and_service_mgmt.Gorm.{Action, Database, Tables}
use go_user_and_service_mgmt.Gorm.Laws.{IsRelational}
use go_user_and_service_mgmt.Gorm.Kept.{Kept}
use go_user_and_service_mgmt.Users.Operations.{
  create_user, update_user, delete_user, change_password,
}
use go_user_and_service_mgmt.Services.Operations.{
  Server, create_service, update_service, delete_service, create_service_version,
  update_service_version, delete_service_version,
}
use go_user_and_service_mgmt.Middleware.{Context, claim_email, Step, next, abort}
use go_user_and_service_mgmt.Middleware.Routes.{Endpoint}
use go_user_and_service_mgmt.Handlers.{Handler}
use go_user_and_service_mgmt.Handlers.Kept.{Safe}
use go_user_and_service_mgmt.Handlers.Users.{Environment}
use go_user_and_service_mgmt.Handlers.Users.Kept.{
  login-Safe, get_user_by_id-Safe, add_user-Safe, change_user-Safe, remove_user-Safe,
  list_users-Safe, change_user_password-Safe,
}
use go_user_and_service_mgmt.Handlers.Services.Kept.{
  get_service_by_id-Safe, add_service-Safe, change_service_by_id-Safe, remove_service_by_id-Safe,
  list_services-Safe, get_version-Safe, add_version-Safe, change_version-Safe,
  remove_version_by_tag-Safe, list_versions-Safe,
}
use go_user_and_service_mgmt.Handlers.Roles.{fetch_user_roles-Safe}
use go_user_and_service_mgmt.Api.{Request, Setting, on_server, handle, after_middleware}

-- Passwords, hashes and tokens are made without touching the tables.
pub record IsSilent {World : Type 0} (tables : World → Tables) (env : Environment World)
    : Type 0 where
  pub draws : (w : World) → tables (env.generate_password w).1 ≡ tables w
  pub hashes :
      (password : String) (w : World) → tables (env.generate_password_hash password w).1 ≡ tables w
  pub signs : (email role : String) (w : World) → tables (env.create_jwt email role w).1 ≡ tables w

-- The endpoints that write services or versions.
abbrev pub writes_services : Endpoint → Bool
writes_services Endpoint.add_service = true
writes_services Endpoint.update_service = true
writes_services Endpoint.delete_service = true
writes_services Endpoint.add_service_version = true
writes_services Endpoint.update_service_version = true
writes_services Endpoint.delete_service_version = true
writes_services _ = false

module _ {World : Type 0} (db : Database World) (J : Tables → Type 0) where
  -- The operations on services and versions keep a property of the tables.
  pub record ServicesKeep : Type 0 where
    pub creates :
        (name description : String)
        → Kept (λ s. J (db.tables s.world)) (create_service db name description)
    pub updates :
        (id : ℕ) (name description : String)
        → Kept (λ s. J (db.tables s.world)) (update_service db id name description)
    pub deletes : (id : ℕ) → Kept (λ s. J (db.tables s.world)) (delete_service db id)
    pub creates_version :
        (id : ℕ) (tag info : String)
        → Kept (λ s. J (db.tables s.world)) (create_service_version db id tag info)
    pub updates_version :
        (id : ℕ) (tag info : String)
        → Kept (λ w. J (db.tables w)) (update_service_version db id tag info)
    pub deletes_version :
        (id : ℕ) (tag : String)
        → Kept (λ s. J (db.tables s.world)) (delete_service_version db id tag)

  -- What the operation behind an endpoint that writes users has to keep; a password is changed for
  -- the email that the middleware has put into the context.
  abbrev pub UsersKeep : Context → Endpoint → Type 0
  UsersKeep c Endpoint.add_user =
      (name email role hash : String)
      → Kept (λ w. J (db.tables w)) (create_user db name email role hash)
  UsersKeep c Endpoint.update_user =
      (id : ℕ) (name email role : String)
      → Kept (λ w. J (db.tables w)) (update_user db id name email role)
  UsersKeep c Endpoint.delete_user = (id : ℕ) → Kept (λ w. J (db.tables w)) (delete_user db id)
  UsersKeep c Endpoint.change_user_password =
      (email hash : String)
      → lookup claim_email c.keys ≡ some email
      → Kept (λ w. J (db.tables w)) (change_password db email hash)
  UsersKeep c _ = Unit

module _ {World : Type 0} (db : Database World) (laws : IsRelational db) (env : Setting World)
    (silent : IsSilent db.tables env.environment) (J : Tables → Type 0) where
  abbrev Held : World → Type 0
  Held w = J (db.tables w)

  abbrev HeldServer : Server World → Type 0
  HeldServer s = J (db.tables s.world)

  quiet :
      {A : Type 0} (m : Action World A)
      → ((w : World) → db.tables (m w).1 ≡ db.tables w)
      → Kept Held m
  quiet m same = record { keeps = λ w h. subst J (sym (same w)) h }

  moved :
      {A : Type 0} (m : Handler World A) (s : Server World)
      → Held (m s.world).1
      → HeldServer (on_server m s).1
  unfolding on_server
  moved m s h = h

  Safe-on_server : {A : Type 0} (m : Handler World A) → Safe Held m → Safe HeldServer (on_server m)
  Safe-on_server m k = record { safe = λ s h. moved m s (k.safe s.world h) }

  handle-Safe :
      (e : Endpoint)
      → (writes_services e ≡ true → ServicesKeep db J)
      → (r : Request) (c : Context) → UsersKeep db J c e
      → Safe HeldServer (handle db env e r c)
  unfolding handle
  handle-Safe Endpoint.login k r c u = Safe-on_server _ (
      login-Safe db laws env.environment J (λ email role. quiet _ (silent.signs email role)) r.body)
  handle-Safe Endpoint.change_user_password k r c u = Safe-on_server _ (
      change_user_password-Safe db laws env.environment J (λ p. quiet _ (silent.hashes p)) c u
        r.body)
  handle-Safe Endpoint.get_user_by_id k r c u =
      Safe-on_server _ (get_user_by_id-Safe db laws env.environment J r.id)
  handle-Safe Endpoint.fetch_users k r c u =
      Safe-on_server _ (list_users-Safe db laws env.environment J r.page r.size)
  handle-Safe Endpoint.add_user k r c u = Safe-on_server _ (
      add_user-Safe db laws env.environment J (quiet _ silent.draws)
        (λ p. quiet _ (silent.hashes p)) u r.body)
  handle-Safe Endpoint.update_user k r c u =
      Safe-on_server _ (change_user-Safe db laws env.environment J u r.id r.body)
  handle-Safe Endpoint.delete_user k r c u =
      Safe-on_server _ (remove_user-Safe db laws env.environment J u r.id)
  handle-Safe Endpoint.get_service_by_id k r c u = get_service_by_id-Safe db laws J r.id
  handle-Safe Endpoint.fetch_services k r c u =
      list_services-Safe db laws J env.like r.page r.size r.name r.sort_by r.inverted
  handle-Safe Endpoint.get_service_version k r c u = get_version-Safe db laws J r.id r.tag
  handle-Safe Endpoint.fetch_service_versions k r c u =
      list_versions-Safe db laws J r.id r.page r.size
  handle-Safe Endpoint.add_service k r c u = add_service-Safe db laws J (k refl).creates r.body
  handle-Safe Endpoint.update_service k r c u =
      change_service_by_id-Safe db laws J (k refl).updates r.id r.body
  handle-Safe Endpoint.delete_service k r c u =
      remove_service_by_id-Safe db laws J (k refl).deletes r.id
  handle-Safe Endpoint.add_service_version k r c u =
      add_version-Safe db laws J (k refl).creates_version r.id r.body
  handle-Safe Endpoint.update_service_version k r c u =
      change_version-Safe db laws J (k refl).updates_version r.id r.tag r.body
  handle-Safe Endpoint.delete_service_version k r c u =
      remove_version_by_tag-Safe db laws J (k refl).deletes_version r.id r.tag
  handle-Safe Endpoint.fetch_user_roles k r c u = Safe-on_server _ (fetch_user_roles-Safe db laws J)

  pub after_middleware-keeps :
      (r : Request)
      → (writes_services r.endpoint ≡ true → ServicesKeep db J)
      → (step : Step) (s : Server World)
      → ((c : Context) → step ≡ next c → UsersKeep db J c r.endpoint)
      → HeldServer s
      → HeldServer (after_middleware db env step r s).1
  after_middleware-keeps r k (next c) s users h =
      (handle-Safe r.endpoint k r c (users c refl)).safe s h
  after_middleware-keeps r k (abort status text) s users h = h
