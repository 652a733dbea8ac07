-- ===== src/Api.antt =====
-- The server as a whole: cmd/api/api.go registers the routes of internal/components/*/routes.go;
-- a request goes through the middleware of its route to the handler of its endpoint. The matching
-- of a path with a route is done by gin: a request comes with its endpoint.
pub mod Requests
pub mod Soundness
pub mod Authority
pub mod Writers
pub mod Answers
mod Tests
use go_user_and_service_mgmt.Prelude.{String, Bool, List, [], ◌∷◌, Option, Value}
use go_user_and_service_mgmt.Gorm.{Database}
use go_user_and_service_mgmt.Services.Operations.{Server}
use go_user_and_service_mgmt.Middleware.{Context, Step, next, abort, Token}
use go_user_and_service_mgmt.Middleware.Routes.{Endpoint, before_handler}
use go_user_and_service_mgmt.Handlers.{Handler, Body, answer}
use go_user_and_service_mgmt.Handlers.Roles.{fetch_user_roles}
use go_user_and_service_mgmt.Handlers.Users.{
  Environment, login, get_user_by_id, add_user, change_user, remove_user, list_users,
  change_user_password,
}
use go_user_and_service_mgmt.Handlers.Services.{
  get_service_by_id, add_service, change_service_by_id, remove_service_by_id, list_services,
  get_version, add_version, change_version, remove_version_by_tag, list_versions,
}

-- The parameters of the path, the body, and the query of a request.
pub record Request : Type 0 where
  pub endpoint : Endpoint
  pub context : Context
  pub id : String
  pub tag : String
  pub body : Option (List (String × Value))
  pub page : Option String
  pub size : Option String
  pub name : Option String
  pub sort_by : Option String
  pub inverted : Option String

-- A handler that leaves the flag alone, on the server.
unfoldable pub on_server : {World A : Type 0} → Handler World A → Handler (Server World) A
on_server m s = let (flow, w) = m s.world in (flow, record s { world = w })

-- What main gives the handlers, and what `ValidateJWT` parses with at the moment of a request.
pub record Setting (World : Type 0) : Type 0 where
  pub environment : Environment World
  pub like : String → String → Bool
  pub parse : World → String → String → Option Token
  pub login_path : String
  pub secret : String

module _ {World : Type 0} (db : Database World) (env : Setting World) where
  -- The routes.
  unfoldable pub handle : Endpoint → Request → Context → Handler (Server World) (Unit {0})
  handle Endpoint.login r c = on_server (login db env.environment r.body)
  handle Endpoint.change_user_password r c =
      on_server (change_user_password db env.environment c r.body)
  handle Endpoint.get_user_by_id r c = on_server (get_user_by_id db env.environment r.id)
  handle Endpoint.fetch_users r c = on_server (list_users db env.environment r.page r.size)
  handle Endpoint.add_user r c = on_server (add_user db env.environment r.body)
  handle Endpoint.update_user r c = on_server (change_user db env.environment r.id r.body)
  handle Endpoint.delete_user r c = on_server (remove_user db env.environment r.id)
  handle Endpoint.get_service_by_id r c = get_service_by_id db r.id
  handle Endpoint.fetch_services r c =
      list_services db env.like r.page r.size r.name r.sort_by r.inverted
  handle Endpoint.get_service_version r c = get_version db r.id r.tag
  handle Endpoint.fetch_service_versions r c = list_versions db r.id r.page r.size
  handle Endpoint.add_service r c = add_service db r.body
  handle Endpoint.update_service r c = change_service_by_id db r.id r.body
  handle Endpoint.delete_service r c = remove_service_by_id db r.id
  handle Endpoint.add_service_version r c = add_version db r.id r.body
  handle Endpoint.update_service_version r c = change_version db r.id r.tag r.body
  handle Endpoint.delete_service_version r c = remove_version_by_tag db r.id r.tag
  handle Endpoint.fetch_user_roles r c = on_server (fetch_user_roles db)

  -- The handler after the middleware, or the response of the middleware.
  abbrev pub after_middleware : Step → Request → Handler (Server World) (Unit {0})
  after_middleware (next c) r = handle r.endpoint r c
  after_middleware (abort status text) r = answer status (Body.error text)

  unfoldable pub serve : Request → Handler (Server World) (Unit {0})
  serve r s =
      after_middleware
        (before_handler (env.parse s.world) env.login_path env.secret r.endpoint r.context) r s

  -- Requests one after the other.
  unfoldable pub serve_all : List Request → Server World → Server World
  serve_all [] s = s
  serve_all (r ∷ rest) s = serve_all rest (serve r s).1
