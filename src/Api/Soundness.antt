-- ===== src/Api/Soundness.antt =====
-- What every sequence of requests keeps.
use go_user_and_service_mgmt.Prelude.{false, List, [], ◌∷◌, ◌≡◌, sym, subst}
use go_user_and_service_mgmt.Gorm.{Database, Tables}
use go_user_and_service_mgmt.Gorm.Laws.{IsRelational}
use go_user_and_service_mgmt.Users.Invariant.{IsUnique, user_operations-IsUnique}
use go_user_and_service_mgmt.Users.Frames.{user_operations-services}
use go_user_and_service_mgmt.Services.Operations.{Server}
use go_user_and_service_mgmt.Services.Invariant.{IsConsistent}
use go_user_and_service_mgmt.Services.Preservation.{
  IsConsistentTables, service_operations-IsConsistent,
}
use go_user_and_service_mgmt.Services.Frames.{service_operations-users}
use go_user_and_service_mgmt.Middleware.Routes.{Endpoint, before_handler}
use go_user_and_service_mgmt.Middleware.{Context}
use go_user_and_service_mgmt.Api.{Request, Setting, serve, serve_all}
use go_user_and_service_mgmt.Api.Requests.{
  IsSilent, ServicesKeep, UsersKeep, after_middleware-keeps,
}

-- Users are identified by their emails and ids, and services and versions are consistent.
pub record IsSound (t : Tables) : Type 0 where
  pub unique : IsUnique t.user
  pub consistent : IsConsistentTables t

users_kept : (t t' : Tables) → IsSound t → t'.user ≡ t.user → IsConsistentTables t' → IsSound t'
users_kept t t' h same c = record { unique = subst IsUnique (sym same) h.unique; consistent = c }

services_kept :
    (t t' : Tables)
    → IsSound t
    → IsUnique t'.user
    → (t'.service ≡ t.service) × (t'.version ≡ t.version)
    → IsSound t'
services_kept t t' h u (services, versions) = record {
  unique = u;
  consistent =
      subst (λ l. IsConsistent l t'.version) (sym services)
        (subst (IsConsistent t.service) (sym versions) h.consistent);
}

module _ {World : Type 0} (db : Database World) (laws : IsRelational db) (env : Setting World)
    (silent : IsSilent db.tables env.environment) where
  services-IsSound : ServicesKeep db IsSound
  services-IsSound =
      let step = λ (s : Server World) (h : IsSound (db.tables s.world)).
        service_operations-IsConsistent db laws s h.consistent in
      let users = service_operations-users db laws in
      let sound = λ (s : Server World) (h : IsSound (db.tables s.world)) (w : World).
        users_kept (db.tables s.world) (db.tables w) h in
      record {
        creates = λ n d. record {
          keeps = λ s h. sound s h _ (users s 0 n d "" "").0 (step s h 0 n d "" "").0;
        };
        updates = λ i n d. record {
          keeps = λ s h. sound s h _ (users s i n d "" "").1 (step s h i n d "" "").1;
        };
        deletes = λ i. record {
          keeps = λ s h. sound s h _ (users s i "" "" "" "").2 (step s h i "" "" "" "").2;
        };
        creates_version = λ i t f. record {
          keeps = λ s h. sound s h _ (users s i "" "" t f).3 (step s h i "" "" t f).3;
        };
        updates_version = λ i t f. record {
          keeps = λ w h.
              let s : Server World = record { world = w; to_refresh_views = false } in
              sound s h _ (users s i "" "" t f).4 (step s h i "" "" t f).4;
        };
        deletes_version = λ i t. record {
          keeps = λ s h. sound s h _ (users s i "" "" t "").5 (step s h i "" "" t "").5;
        };
      }

  users-IsSound : (c : Context) (e : Endpoint) → UsersKeep db IsSound c e
  users-IsSound c e =
      let unique =
        λ (w : World) (h : IsSound (db.tables w)). user_operations-IsUnique db laws w h.unique in
      let sound = λ (w : World) (h : IsSound (db.tables w)) (w' : World).
        services_kept (db.tables w) (db.tables w') h in
      let same = user_operations-services db laws in
      elim e as (λ k. UsersKeep db IsSound c k) [
        | Endpoint.add_user ↦ λ n m r p. record {
          keeps = λ w h. sound w h _ (unique w h 0 n m r p).0 (same w 0 n m r p).0;
        }
        | Endpoint.update_user ↦ λ i n m r. record {
          keeps = λ w h. sound w h _ (unique w h i n m r "").1 (same w i n m r "").1;
        }
        | Endpoint.delete_user ↦ λ i. record {
          keeps = λ w h. sound w h _ (unique w h i "" "" "" "").2 (same w i "" "" "" "").2;
        }
        | Endpoint.change_user_password ↦ λ m p _. record {
          keeps = λ w h. sound w h _ (unique w h 0 "" m "" p).3 (same w 0 "" m "" p).3;
        }
        | _ ↦ tt
      ]

  pub serve-IsSound :
      (r : Request) (s : Server World)
      → IsSound (db.tables s.world)
      → IsSound (db.tables (serve db env r s).1.world)
  unfolding serve
  serve-IsSound r s =
      after_middleware-keeps db laws env silent IsSound r (λ _. services-IsSound)
        (before_handler (env.parse s.world) env.login_path env.secret r.endpoint r.context) s
        (λ c _. users-IsSound c r.endpoint)

  -- Whatever requests come, with whatever tokens and payloads, and whichever statements of the
  -- database fail: if emails and ids of users, names and ids of services and tags of versions are
  -- distinct, every version has its service and every `VersionCount` is the number of the
  -- service's versions, then all of this holds after the requests, handled one after the other,
  -- where making passwords, hashes and tokens leaves the tables alone.
  pub serve_all-IsSound :
      (requests : List Request) (s : Server World)
      → IsSound (db.tables s.world)
      → IsSound (db.tables (serve_all db env requests s).world)
  unfolding serve_all
  serve_all-IsSound [] s h = h
  serve_all-IsSound (r ∷ rest) s h =
      serve_all-IsSound rest (serve db env r s).1 (serve-IsSound r s h)
