-- ===== src/Handlers/Services.antt =====
-- internal/components/service/handlers.go: the handlers of the service and version endpoints, on
-- the server's state. `like` is PostgreSQL's `LIKE`.
pub mod Kept
pub mod Laws
mod Tests
use Prim.Native.String.{◌++◌}
use go_user_and_service_mgmt.Prelude.{
  ℕ, ℤ, pos, String, Bool, true, false, List, Option, Value, not, lookup, ltb_ℤ, ◌==◌, ◌&&◌,
  text_comparable,
}
use go_user_and_service_mgmt.Errors.{GoError}
use go_user_and_service_mgmt.Models.{format_page, default_page_size}
use go_user_and_service_mgmt.Gorm.{Database}
use go_user_and_service_mgmt.Services.Operations.{
  Server, on_world, check_if_service_exist, get_service, get_service_version, fetch_services,
  fetch_service_versions_inverted, create_service, update_service, delete_service,
  create_service_version, update_service_version, delete_service_version,
}
use go_user_and_service_mgmt.Utils.{
  ensure_fields_strictly_exists, service_payload_template, register_version_payload_template,
  update_version_payload_template,
}
use go_user_and_service_mgmt.Handlers.{
  Handler, Body, error, message, formatted, answer, answer_if, or_answer, or_panic, assert_string,
  call, scan_uint, atoi, ◌>>=◌, ◌>>◌,
}
use go_user_and_service_mgmt.Handlers.Users.{
  failure, internal_or, always_failure, or_default, first_if_zero,
}

abbrev on_create_error : GoError → ℕ × Body
on_create_error GoError.service_already_exists = (409, formatted)
on_create_error _ = (500, failure)

abbrev on_update_error : GoError → ℕ × Body
on_update_error GoError.service_does_not_exist = (404, formatted)
on_update_error GoError.service_already_exists = (409, formatted)
on_update_error _ = (500, failure)

abbrev on_delete_error : GoError → ℕ × Body
on_delete_error GoError.service_does_not_exist = (404, formatted)
on_delete_error _ = (500, failure)

abbrev on_version_error : GoError → ℕ × Body
on_version_error GoError.service_version_does_not_exist = (404, formatted)
on_version_error _ = (500, failure)

abbrev on_create_version_error : GoError → ℕ × Body
on_create_version_error GoError.service_version_already_exists = (409, formatted)
on_create_version_error _ = (500, failure)

module _ {World : Type 0} (db : Database World) where
  unfoldable pub get_service_by_id : String → Handler (Server World) (Unit {0})
  get_service_by_id id = do
    service_id ← or_answer (scan_uint id) 400 (error "Service Fetch ID should be numerical")
    service ← call (on_world (get_service db service_id)) (internal_or 404 formatted)
    answer 200 (Body.service service)

  unfoldable pub add_service : Option (List (String × Value)) → Handler (Server World) (Unit {0})
  add_service body = do
    payload ←
        or_answer body 400 (error "Service creation payload is invalid; Expected JSON payload")
    answer_if (not (ensure_fields_strictly_exists payload service_payload_template)) 400 formatted
    name ← assert_string (lookup "name" payload)
    answer_if (name == "") 400 formatted
    description ← assert_string (lookup "description" payload)
    created ← call (create_service db name description) on_create_error
    answer 201 (Body.service created)

  unfoldable pub change_service_by_id :
      String → Option (List (String × Value)) → Handler (Server World) (Unit {0})
  change_service_by_id id body = do
    service_id ← or_answer (scan_uint id) 400 (error "Service ID should be numerical")
    payload ←
        or_answer body 400
          (error "Service Metadata update payload is invalid; Expected JSON payload")
    answer_if (not (ensure_fields_strictly_exists payload service_payload_template)) 400 formatted
    name ← assert_string (lookup "name" payload)
    answer_if (name == "") 400 formatted
    description ← assert_string (lookup "description" payload)
    updated ← call (update_service db service_id name description) on_update_error
    answer 200 (Body.service updated)

  unfoldable pub remove_service_by_id : String → Handler (Server World) (Unit {0})
  remove_service_by_id id = do
    service_id ← or_answer (scan_uint id) 400 (error "Service ID should be numerical")
    call (delete_service db service_id) on_delete_error
    answer 200 (message "Service deleted from system")

  unfoldable pub list_services :
      (String → String → Bool)
      → Option String
      → Option String
      → Option String
      → Option String
      → Option String
      → Handler (Server World) (Unit {0})
  list_services like page_query size_query name_query sort_query inverted_query = do
    page ←
        or_answer (atoi (or_default "0" page_query)) 400
          (error "Request Path contains invalid page number, choose positive numerical value")
    answer_if (ltb_ℤ page (pos 0)) 400
        (error "Request Path contains invalid page number, choose positive numerical value")
    size ←
        or_answer (atoi (or_default default_page_size size_query)) 400
          (error "Request Path contains invalid page size, choose positive numerical value")
    answer_if (ltb_ℤ size (pos 0)) 400
        (error "Request Path contains invalid page size, choose positive numerical value")
    let search = "%" ++ (or_default "" name_query ++ "%")
    let sort_by = or_default "" sort_query
    answer_if (not (sort_by == "") && not (sort_by == "name") && not (sort_by == "date")) 400
        (error "Request Path contains invalid sort_by value, choose name or date")
    let inverted = or_default "" inverted_query
    answer_if (not (inverted == "") && not (inverted == "true") && not (inverted == "false")) 400
        (error "Request Path contains invalid inverted value, choose true or false")
    found ←
        call
          (on_world (
            fetch_services db like (first_if_zero page) size search (inverted == "true")
              (sort_by == "name")))
          always_failure
    page_found ← or_panic found
    let (services, total) = page_found
    answer 200 (Body.services (format_page services total (first_if_zero page) size))

  -- the check that the version handlers begin with
  unfoldable pub require_service : ℕ → Handler (Server World) (Unit {0})
  require_service service_id = do
    exists ← call (on_world (check_if_service_exist db service_id)) always_failure
    answer_if (not exists) 404 formatted

  unfoldable pub get_version : String → String → Handler (Server World) (Unit {0})
  get_version id tag = do
    service_id ← or_answer (scan_uint id) 400 (error "Service ID should be numerical")
    answer_if (tag == "") 400 (error "Expected Non-empty Version Tag as a part of URL")
    require_service service_id
    version ← call (on_world (get_service_version db service_id tag)) on_version_error
    answer 200 (Body.version version)

  unfoldable pub add_version :
      String → Option (List (String × Value)) → Handler (Server World) (Unit {0})
  add_version id body = do
    service_id ← or_answer (scan_uint id) 400 (error "Service ID should be numerical")
    payload ←
        or_answer body 400
          (error "Service Version creation payload is invalid; Expected JSON payload")
    answer_if (not (ensure_fields_strictly_exists payload register_version_payload_template)) 400
        formatted
    tag ← assert_string (lookup "tag" payload)
    answer_if (tag == "") 400 formatted
    require_service service_id
    info ← assert_string (lookup "info" payload)
    created ← call (create_service_version db service_id tag info) on_create_version_error
    answer 201 (Body.version created)

  unfoldable pub change_version :
      String → String → Option (List (String × Value)) → Handler (Server World) (Unit {0})
  change_version id tag body = do
    service_id ← or_answer (scan_uint id) 400 (error "Service ID should be numerical")
    answer_if (tag == "") 400 (error "Expected Version Tag as a part of URL")
    payload ←
        or_answer body 400
          (error "Service Version update payload is invalid; Expected JSON payload")
    answer_if (not (ensure_fields_strictly_exists payload update_version_payload_template)) 400
        formatted
    require_service service_id
    info ← assert_string (lookup "info" payload)
    updated ← call (on_world (update_service_version db service_id tag info)) on_version_error
    answer 200 (Body.version updated)

  unfoldable pub remove_version_by_tag : String → String → Handler (Server World) (Unit {0})
  remove_version_by_tag id tag = do
    service_id ← or_answer (scan_uint id) 400 (error "Service ID should be numerical")
    answer_if (tag == "") 400 (error "Expected Non-empty Version Tag as a part of URL")
    require_service service_id
    call (delete_service_version db service_id tag) on_version_error
    answer 200 (message "Service Version deleted from system")

  unfoldable pub list_versions :
      String → Option String → Option String → Handler (Server World) (Unit {0})
  list_versions id page_query size_query = do
    service_id ← or_answer (scan_uint id) 400 (error "Service ID should be numerical")
    page ←
        or_answer (atoi (or_default "0" page_query)) 400
          (error "Request Path contains invalid page number, choose positive numerical value")
    answer_if (ltb_ℤ page (pos 0)) 400
        (error "Request Path contains invalid page number, choose positive numerical value")
    size ←
        or_answer (atoi (or_default default_page_size size_query)) 400
          (error "Request Path contains invalid page size, choose positive numerical value")
    answer_if (ltb_ℤ size (pos 0)) 400
        (error "Request Path contains invalid page size, choose positive numerical value")
    require_service service_id
    found ←
        call (on_world (fetch_service_versions_inverted db service_id (first_if_zero page) size))
          always_failure
    page_found ← or_panic found
    let (versions, total) = page_found
    answer 200 (Body.versions (format_page versions total (first_if_zero page) size))
