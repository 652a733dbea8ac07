-- ===== src/Api/Answers.antt =====
-- Every request is answered.
use go_user_and_service_mgmt.Prelude.{String, Bool, Option}
use go_user_and_service_mgmt.Gorm.{Database}
use go_user_and_service_mgmt.Gorm.Laws.{IsRelational}
use go_user_and_service_mgmt.Services.Operations.{Server}
use go_user_and_service_mgmt.Services.Panics.{
  fetch_services-NoPanic, fetch_service_versions_inverted-NoPanic,
}
use go_user_and_service_mgmt.Middleware.{Context, Step, next, abort}
use go_user_and_service_mgmt.Middleware.Routes.{Endpoint, before_handler}
use go_user_and_service_mgmt.Handlers.{Flow, go, respond, panic, Handler}
use go_user_and_service_mgmt.Handlers.Roles.{fetch_user_roles}
use go_user_and_service_mgmt.Handlers.Users.{Environment, get_user_by_id, remove_user, list_users}
use go_user_and_service_mgmt.Handlers.Users.Laws.{
  HasAnswered, after_answer_if, after_or_answer, after_call, after_operation,
  user_handlers-HasAnswered,
}
use go_user_and_service_mgmt.Handlers.Services.{
  get_service_by_id, remove_service_by_id, list_services, get_version, remove_version_by_tag,
  list_versions,
}
use go_user_and_service_mgmt.Handlers.Services.Laws.{after_require, service_handlers-HasAnswered}
use go_user_and_service_mgmt.Api.{Request, Setting, on_server, handle, after_middleware, serve}

module _ {World : Type 0} (db : Database World) (env : Environment World) (w : World) where
  get_user_by_id-HasAnswered : (id : String) → HasAnswered (get_user_by_id db env id w)
  unfolding get_user_by_id
  get_user_by_id-HasAnswered id = after_or_answer _ _ _ _ w λ _. after_call _ _ _ w λ _ _. tt

  remove_user-HasAnswered : (id : String) → HasAnswered (remove_user db env id w)
  unfolding remove_user
  remove_user-HasAnswered id = after_or_answer _ _ _ _ w λ _. after_call _ _ _ w λ _ _. tt

  list_users-HasAnswered : (page size : Option String) → HasAnswered (list_users db env page size w)
  unfolding list_users
  list_users-HasAnswered page size = after_or_answer _ _ _ _ w λ _. after_answer_if _ _ _ _ w λ _.
      after_or_answer _ _ _ _ w λ _. after_answer_if _ _ _ _ w λ _. after_call _ _ _ w λ _ _. tt

  fetch_user_roles-HasAnswered : HasAnswered (fetch_user_roles db w)
  unfolding fetch_user_roles
  fetch_user_roles-HasAnswered = after_call _ _ _ w λ _ _. tt

module _ {World : Type 0} (db : Database World) (laws : IsRelational db) (s : Server World) where
  get_service_by_id-HasAnswered : (id : String) → HasAnswered (get_service_by_id db id s)
  unfolding get_service_by_id
  get_service_by_id-HasAnswered id = after_or_answer _ _ _ _ s λ _. after_call _ _ _ s λ _ _. tt

  remove_service_by_id-HasAnswered : (id : String) → HasAnswered (remove_service_by_id db id s)
  unfolding remove_service_by_id
  remove_service_by_id-HasAnswered id = after_or_answer _ _ _ _ s λ _. after_call _ _ _ s λ _ _. tt

  list_services-HasAnswered :
      (like : String → String → Bool) (page size name sort_by inverted : Option String)
      → HasAnswered (list_services db like page size name sort_by inverted s)
  unfolding list_services
  list_services-HasAnswered like page size name sort_by inverted = after_or_answer _ _ _ _ s λ _.
      after_answer_if _ _ _ _ s λ _. after_or_answer _ _ _ _ s λ size.
        after_answer_if _ _ _ _ s λ fits. after_answer_if _ _ _ _ s λ _.
          after_answer_if _ _ _ _ s λ _.
            after_operation _ _ _ s (fetch_services-NoPanic db laws like _ size _ _ _ s fits)
              λ _ _. tt

  get_version-HasAnswered : (id tag : String) → HasAnswered (get_version db id tag s)
  unfolding get_version
  get_version-HasAnswered id tag = after_or_answer _ _ _ _ s λ service_id.
      after_answer_if _ _ _ _ s
        λ _. after_require db service_id _ s λ s₁. after_call _ _ _ s₁ λ _ _. tt

  remove_version_by_tag-HasAnswered :
      (id tag : String) → HasAnswered (remove_version_by_tag db id tag s)
  unfolding remove_version_by_tag
  remove_version_by_tag-HasAnswered id tag = after_or_answer _ _ _ _ s λ service_id.
      after_answer_if _ _ _ _ s
        λ _. after_require db service_id _ s λ s₁. after_call _ _ _ s₁ λ _ _. tt

  list_versions-HasAnswered :
      (id : String) (page size : Option String) → HasAnswered (list_versions db id page size s)
  unfolding list_versions
  list_versions-HasAnswered id page size = after_or_answer _ _ _ _ s λ service_id.
      after_or_answer _ _ _ _ s λ _. after_answer_if _ _ _ _ s λ _.
        after_or_answer _ _ _ _ s λ size. after_answer_if _ _ _ _ s λ fits.
          after_require db service_id _ s λ s₁.
            after_operation _ _ _ s₁
              (fetch_service_versions_inverted-NoPanic db laws service_id _ size s₁ fits) λ _ _. tt

HasAnswered-elsewhere :
    {World World' A : Type 0} (flow : Flow A) (w : World) (w' : World')
    → HasAnswered (flow, w)
    → HasAnswered (flow, w')
HasAnswered-elsewhere (go a) w w' h = absurd h
HasAnswered-elsewhere (respond r) w w' h = tt
HasAnswered-elsewhere panic w w' h = absurd h

module _ {World : Type 0} (db : Database World) (laws : IsRelational db) (env : Setting World) where
  on_server-HasAnswered :
      (m : Handler World (Unit {0})) (s : Server World)
      → HasAnswered (m s.world)
      → HasAnswered (on_server m s)
  unfolding on_server
  on_server-HasAnswered m s h = HasAnswered-elsewhere (m s.world).0 (m s.world).1 _ h

  handle-HasAnswered :
      (e : Endpoint) (r : Request) (c : Context) (s : Server World)
      → HasAnswered (handle db env e r c s)
  unfolding handle
  handle-HasAnswered e r c s =
      let by_users = user_handlers-HasAnswered db env.environment c r.id r.body s.world in
      let by_services = service_handlers-HasAnswered db r.id r.tag r.body s in
      elim e as (λ e. HasAnswered (handle db env e r c s)) [
        | Endpoint.login ↦ on_server-HasAnswered _ s by_users.0
        | Endpoint.add_user ↦ on_server-HasAnswered _ s by_users.1
        | Endpoint.update_user ↦ on_server-HasAnswered _ s by_users.2
        | Endpoint.change_user_password ↦ on_server-HasAnswered _ s by_users.3
        | Endpoint.get_user_by_id ↦
            on_server-HasAnswered _ s (get_user_by_id-HasAnswered db env.environment s.world r.id)
        | Endpoint.fetch_users ↦
            on_server-HasAnswered _ s
              (list_users-HasAnswered db env.environment s.world r.page r.size)
        | Endpoint.delete_user ↦
            on_server-HasAnswered _ s (remove_user-HasAnswered db env.environment s.world r.id)
        | Endpoint.get_service_by_id ↦ get_service_by_id-HasAnswered db laws s r.id
        | Endpoint.fetch_services ↦
            list_services-HasAnswered db laws s env.like r.page r.size r.name r.sort_by r.inverted
        | Endpoint.get_service_version ↦ get_version-HasAnswered db laws s r.id r.tag
        | Endpoint.fetch_service_versions ↦ list_versions-HasAnswered db laws s r.id r.page r.size
        | Endpoint.add_service ↦ by_services.0
        | Endpoint.update_service ↦ by_services.1
        | Endpoint.add_service_version ↦ by_services.2
        | Endpoint.update_service_version ↦ by_services.3
        | Endpoint.delete_service ↦ remove_service_by_id-HasAnswered db laws s r.id
        | Endpoint.delete_service_version ↦ remove_version_by_tag-HasAnswered db laws s r.id r.tag
        | Endpoint.fetch_user_roles ↦
            on_server-HasAnswered _ s (fetch_user_roles-HasAnswered db env.environment s.world)
      ]

  after_middleware-HasAnswered :
      (step : Step) (r : Request) (s : Server World)
      → HasAnswered (after_middleware db env step r s)
  after_middleware-HasAnswered (next c) r s = handle-HasAnswered r.endpoint r c s
  after_middleware-HasAnswered (abort status text) r s = tt

  -- Every request to every endpoint is answered, by the middleware or by the handler, and no
  -- handler panics: a payload that passes the check has the texts that the handlers assert, a
  -- listing never divides by a page size of 0, and a reversal has no index out of range.
  pub serve-HasAnswered : (r : Request) (s : Server World) → HasAnswered (serve db env r s)
  unfolding serve
  serve-HasAnswered r s =
      after_middleware-HasAnswered
        (before_handler (env.parse s.world) env.login_path env.secret r.endpoint r.context) r s
