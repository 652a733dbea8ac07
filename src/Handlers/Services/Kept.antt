-- ===== src/Handlers/Services/Kept.antt =====
-- What the handlers of services and versions keep: any property of the tables that the operation
-- they call keeps.
use go_user_and_service_mgmt.Prelude.{ℕ, ℤ, String, Bool, List, Option, none, some, Value}
use go_user_and_service_mgmt.Gorm.{Action, Database, Tables, Table}
use go_user_and_service_mgmt.Models.{Service}
use go_user_and_service_mgmt.Gorm.Laws.{IsRelational, IsReadable}
use go_user_and_service_mgmt.Gorm.Kept.{
  Kept, Kept-pure, Kept-or_error, Kept-bind, Kept-count, Kept-find, Kept-first,
}
use go_user_and_service_mgmt.Services.Operations.{
  Server, on_world, check_if_service_exist, get_service, get_service_version, fetch_services,
  fetch_service_versions_inverted, fetch_window, fetch_version_window, create_service,
  update_service, delete_service, create_service_version, update_service_version,
  delete_service_version,
}
use go_user_and_service_mgmt.Services.Pagination.{listed-IsReadable}
use go_user_and_service_mgmt.Services.Operations.Pages.{Window, beyond, fetch}
use go_user_and_service_mgmt.Handlers.Kept.{Safe, safe_steps}
use go_user_and_service_mgmt.Handlers.Services.{
  get_service_by_id, add_service, change_service_by_id, remove_service_by_id, list_services,
  require_service, get_version, add_version, change_version, remove_version_by_tag, list_versions,
}

module _ {World : Type 0} (db : Database World) (laws : IsRelational db) (J : Tables → Type 0) where
  abbrev Held : World → Type 0
  Held w = J (db.tables w)

  abbrev HeldServer : Server World → Type 0
  HeldServer s = J (db.tables s.world)

  lifted :
      {A : Type 0} (m : Action World A) (s : Server World)
      → Held (m s.world).1
      → HeldServer (on_world m s).1
  unfolding on_world
  lifted m s h = h

  pub Kept-on_world : {A : Type 0} (m : Action World A) → Kept Held m → Kept HeldServer (on_world m)
  Kept-on_world m k = record { keeps = λ s h. lifted m s (k.keeps s.world h) }

  check_if_service_exist-Kept : (id : ℕ) → Kept Held (check_if_service_exist db id)
  unfolding check_if_service_exist
  check_if_service_exist-Kept id =
      Kept-bind (Kept-or_error _ (Kept-count J laws.services_lem.readable)) (λ n. Kept-pure)

  get_service-Kept : (id : ℕ) → Kept Held (get_service db id)
  unfolding get_service
  get_service-Kept id = Kept-or_error _ (Kept-first J laws.services_lem.readable)

  get_service_version-Kept : (id : ℕ) (tag : String) → Kept Held (get_service_version db id tag)
  unfolding get_service_version
  get_service_version-Kept id tag = Kept-or_error _ (Kept-first J laws.versions_lem.readable)

  fetch_window-Kept :
      {rows : Tables → List Service} (t : Table World Service)
      (readable : IsReadable db.tables rows t) (p : Service → Bool) (inverted : Bool) (total : ℕ)
      (window : Option Window)
      → Kept Held (fetch_window db t p inverted total window)
  unfolding fetch_window
  fetch_window-Kept t readable p inverted total none = Kept-pure
  fetch_window-Kept t readable p inverted total (some beyond) = Kept-pure
  fetch_window-Kept t readable p inverted total (some (fetch limit offset)) =
      Kept-bind (Kept-or_error _ (Kept-find J readable)) (λ rows. Kept-pure)

  fetch_services-Kept :
      (like : String → String → Bool) (page size : ℤ) (text : String) (inverted name_sorted : Bool)
      → Kept Held (fetch_services db like page size text inverted name_sorted)
  unfolding fetch_services
  fetch_services-Kept like page size text inverted name_sorted =
      Kept-bind (Kept-or_error _ (Kept-count J (listed-IsReadable db laws name_sorted)))
        (λ total. fetch_window-Kept _ (listed-IsReadable db laws name_sorted) _ inverted total _)

  fetch_version_window-Kept :
      (id total : ℕ) (window : Option Window) → Kept Held (fetch_version_window db id total window)
  unfolding fetch_version_window
  fetch_version_window-Kept id total none = Kept-pure
  fetch_version_window-Kept id total (some beyond) = Kept-pure
  fetch_version_window-Kept id total (some (fetch limit offset)) =
      Kept-bind (Kept-or_error _ (Kept-find J laws.versions_lem.readable)) (λ rows. Kept-pure)

  fetch_service_versions_inverted-Kept :
      (id : ℕ) (page size : ℤ) → Kept Held (fetch_service_versions_inverted db id page size)
  unfolding fetch_service_versions_inverted
  fetch_service_versions_inverted-Kept id page size =
      Kept-bind (Kept-or_error _ (Kept-count J laws.versions_lem.readable))
        (λ total. fetch_version_window-Kept id total _)

  pub get_service_by_id-Safe : (id : String) → Safe HeldServer (get_service_by_id db id)
  unfolding get_service_by_id
  get_service_by_id-Safe id = search (safe_steps, Kept-on_world, get_service-Kept) depth 40

  pub list_services-Safe :
      (like : String → String → Bool) (page size name sort inverted : Option String)
      → Safe HeldServer (list_services db like page size name sort inverted)
  unfolding list_services
  list_services-Safe like page size name sort inverted =
      search (safe_steps, Kept-on_world, fetch_services-Kept) depth 60

  pub require_service-Safe : (id : ℕ) → Safe HeldServer (require_service db id)
  unfolding require_service
  require_service-Safe id = search (safe_steps, Kept-on_world, check_if_service_exist-Kept) depth 40

  pub get_version-Safe : (id tag : String) → Safe HeldServer (get_version db id tag)
  unfolding get_version
  get_version-Safe id tag =
      search (safe_steps, require_service-Safe, Kept-on_world, get_service_version-Kept) depth 40

  pub list_versions-Safe :
      (id : String) (page size : Option String) → Safe HeldServer (list_versions db id page size)
  unfolding list_versions
  list_versions-Safe id page size =
      search (safe_steps, require_service-Safe, Kept-on_world, fetch_service_versions_inverted-Kept)
        depth 60

  pub add_service-Safe :
      ((name description : String) → Kept HeldServer (create_service db name description))
      → (body : Option (List (String × Value))) → Safe HeldServer (add_service db body)
  unfolding add_service
  add_service-Safe creates body = search (safe_steps, creates) depth 60

  pub change_service_by_id-Safe :
      ((id : ℕ) (name description : String)
        → Kept HeldServer (update_service db id name description))
      → (id : String) (body : Option (List (String × Value)))
      → Safe HeldServer (change_service_by_id db id body)
  unfolding change_service_by_id
  change_service_by_id-Safe updates id body = search (safe_steps, updates) depth 60

  pub remove_service_by_id-Safe :
      ((id : ℕ) → Kept HeldServer (delete_service db id))
      → (id : String) → Safe HeldServer (remove_service_by_id db id)
  unfolding remove_service_by_id
  remove_service_by_id-Safe deletes id = search (safe_steps, deletes) depth 40

  pub add_version-Safe :
      ((id : ℕ) (tag info : String) → Kept HeldServer (create_service_version db id tag info))
      → (id : String) (body : Option (List (String × Value)))
      → Safe HeldServer (add_version db id body)
  unfolding add_version
  add_version-Safe creates id body = search (safe_steps, require_service-Safe, creates) depth 60

  pub change_version-Safe :
      ((id : ℕ) (tag info : String) → Kept Held (update_service_version db id tag info))
      → (id tag : String) (body : Option (List (String × Value)))
      → Safe HeldServer (change_version db id tag body)
  unfolding change_version
  change_version-Safe updates id tag body =
      search (safe_steps, require_service-Safe, Kept-on_world, updates) depth 60

  pub remove_version_by_tag-Safe :
      ((id : ℕ) (tag : String) → Kept HeldServer (delete_service_version db id tag))
      → (id tag : String) → Safe HeldServer (remove_version_by_tag db id tag)
  unfolding remove_version_by_tag
  remove_version_by_tag-Safe deletes id tag =
      search (safe_steps, require_service-Safe, deletes) depth 40
