-- ===== src/Services/Operations.antt =====
-- internal/components/service/operations.go: the service and version operations. The state of
-- the Go struct is `Server`: the world behind `db`, and the flag `toRefreshViews` by which an
-- operation asks the background worker for a refresh of the view. Each writing operation is its
-- database part, on the world, and the raising of the flag.
pub mod Pages
pub mod Slices
use go_user_and_service_mgmt.Prelude.{
  ℕ, ℤ, pos, String, Bool, true, false, List, [], not, ◌+ℤ◌, ◌-ℤ◌, ◌==◌, ◌&&◌, if◌then◌else◌,
  number_comparable, text_comparable, length, Option, none, some,
}
use go_user_and_service_mgmt.Errors.{GoError, is_record_not_found, is_unique_key_violation}
use go_user_and_service_mgmt.Models.{Service, ServiceVersion}
use go_user_and_service_mgmt.Gorm.{
  Action, Result, ok, err, Database, Table, pure, fail_if, or_error, ◌>>=◌, ◌>>◌,
}
use go_user_and_service_mgmt.Services.Operations.Slices.{reverse_slice}
use go_user_and_service_mgmt.Services.Operations.Pages.{
  Window, fetch, beyond, inverted_window, plain_window,
}

pub record Server (World : Type 0) : Type 0 where
  pub world : World
  pub to_refresh_views : Bool

abbrev pub has_service_id : ℕ → Service → Bool
has_service_id id s = s.id == id

abbrev pub has_name : String → Service → Bool
has_name name s = s.name == name

abbrev pub of_service : ℕ → ServiceVersion → Bool
of_service service_id v = v.service_id == service_id

-- `tag = ? and service_id = ?`
abbrev pub is_version : ℕ → String → ServiceVersion → Bool
is_version service_id tag v = v.tag == tag && v.service_id == service_id

abbrev to_internal : GoError → GoError
to_internal _ = GoError.internal

abbrev pub same_error : GoError → GoError
same_error e = e

abbrev on_get_service_error : GoError → GoError
on_get_service_error e =
    if is_record_not_found e then GoError.service_does_not_exist else GoError.internal

abbrev on_create_service_error : GoError → GoError
on_create_service_error e =
    if is_unique_key_violation e then GoError.service_already_exists else GoError.internal

abbrev on_update_service_error : GoError → GoError
on_update_service_error e =
    if is_unique_key_violation e
    then GoError.service_already_exists
    else if is_record_not_found e
    then GoError.service_does_not_exist
    else GoError.internal

abbrev on_create_version_error : GoError → GoError
on_create_version_error e =
    if is_unique_key_violation e then GoError.service_version_already_exists else GoError.internal

-- the errors of `GetServiceVersion`, `UpdateServiceVersion` and `DeleteServiceVersion`
abbrev on_version_error : GoError → GoError
on_version_error e =
    if is_record_not_found e then GoError.service_version_does_not_exist else GoError.internal

-- the struct that `CreateService` inserts, its key not set
abbrev pub new_service : String → String → Service
new_service name description = record {
  id = 0;
  name = name;
  description = description;
  version_count = pos 0;
}

-- the struct that `UpdateService` writes and returns
abbrev pub service_to_update : ℕ → String → String → Service
service_to_update id name description = record {
  id = id;
  name = name;
  description = description;
  version_count = pos 0;
}

abbrev pub version_of : ℕ → String → String → ServiceVersion
version_of service_id tag info = record { service_id = service_id; tag = tag; info = info }

-- `version_count + 1` and `version_count - 1`
abbrev pub one_more : Service → Service
one_more s = record s { version_count = s.version_count +ℤ pos 1 }

abbrev pub one_less : Service → Service
one_less s = record s { version_count = s.version_count -ℤ pos 1 }

-- `if err != nil { if !errors.Is(err, gorm.ErrRecordNotFound) { return ErrInternal } }`
abbrev pub pass_not_found {ℓ} : {S : Type ℓ} → Result (Unit {ℓ}) × S → Result (Unit {ℓ}) × S
pass_not_found (ok a, s) = (ok a, s)
pass_not_found (err e, s) = (if is_record_not_found e then ok tt else err GoError.internal, s)

-- A page with the number of all rows, unless the reversal has panicked.
abbrev pub with_total : {A : Type 0} → ℕ → Option (List A) → Option (List A × ℕ)
with_total total none = none
with_total total (some page) = some (page, total)

module _ {World : Type 0} where
  -- A statement on the database, as one on the server.
  unfoldable pub on_world : {A : Type 0} → Action World A → Action (Server World) A
  on_world m s = let (r, w) = m s.world in (r, record s { world = w })

  -- `ops.mux.Lock(); ops.toRefreshViews = true; ops.mux.Unlock()`
  unfoldable pub request_refresh : Action (Server World) (Unit {0})
  request_refresh s = (ok tt, record s { to_refresh_views = true })

module _ {World : Type 0} (db : Database World) where
  unfoldable pub check_if_service_exist : ℕ → Action World Bool
  check_if_service_exist id = do
    n ← or_error (db.services.count (has_service_id id)) to_internal
    pure (not (n == 0))

  unfoldable pub check_if_version_for_service_exist : ℕ → String → Action World Bool
  check_if_version_for_service_exist service_id tag = do
    n ← or_error (db.versions.count (is_version service_id tag)) to_internal
    pure (not (n == 0))

  unfoldable pub get_service : ℕ → Action World Service
  get_service id = or_error (db.services.first (has_service_id id)) on_get_service_error

  unfoldable pub get_service_version : ℕ → String → Action World ServiceVersion
  get_service_version service_id tag =
      or_error (db.versions.first (is_version service_id tag)) on_version_error

  -- the database part of `CreateService`
  unfoldable pub insert_service : String → String → Action World Service
  insert_service name description = do
    same ← or_error (db.services.count (has_name name)) to_internal
    fail_if (same == 1) GoError.service_already_exists
    created ← or_error (db.services.create (new_service name description)) on_create_service_error
    pure created

  -- the database part of `UpdateService`
  unfoldable pub change_service : ℕ → String → String → Action World Service
  change_service id name description = do
    exists ← or_error (check_if_service_exist id) same_error
    fail_if (not exists) GoError.service_does_not_exist
    same ←
        or_error (db.services.count (λ s. has_name name s && not (has_service_id id s))) to_internal
    fail_if (same == 1) GoError.service_already_exists
    or_error (db.services.updates (has_service_id id) (service_to_update id name description))
        on_update_service_error
    pure (service_to_update id name description)

  -- the function that `DeleteService` hands to `Transaction`
  unfoldable pub delete_service_rows : ℕ → Action World (Unit {0})
  delete_service_rows id = do
    or_error (λ w. pass_not_found (db.versions.delete (of_service id) w)) same_error
    or_error (db.services.delete (has_service_id id)) to_internal
    pure tt

  -- the database part of `DeleteService`
  unfoldable pub remove_service : ℕ → Action World (Unit {0})
  remove_service id = do
    exists ← or_error (check_if_service_exist id) same_error
    fail_if (not exists) GoError.service_does_not_exist
    or_error (db.transaction (delete_service_rows id)) same_error
    pure tt

  -- the function that `CreateServiceVersion` hands to `Transaction`
  unfoldable pub create_version_rows : ServiceVersion → Action World (Unit {0})
  create_version_rows v = do
    created ← or_error (db.versions.create v) on_create_version_error
    or_error (db.services.set_columns (has_service_id v.service_id) one_more) to_internal
    pure tt

  -- the database part of `CreateServiceVersion`
  unfoldable pub insert_version : ℕ → String → String → Action World ServiceVersion
  insert_version service_id tag info = do
    n ← or_error (db.versions.count (is_version service_id tag)) to_internal
    fail_if (n == 1) GoError.service_version_already_exists
    or_error (db.transaction (create_version_rows (version_of service_id tag info))) same_error
    pure (version_of service_id tag info)

  -- `UpdateServiceVersion`, which raises no flag
  unfoldable pub update_service_version : ℕ → String → String → Action World ServiceVersion
  update_service_version service_id tag info = do
    exists ← or_error (check_if_version_for_service_exist service_id tag) same_error
    fail_if (not exists) GoError.service_version_does_not_exist
    or_error (db.versions.updates (is_version service_id tag) (version_of service_id tag info))
        on_version_error
    pure (version_of service_id tag info)

  -- the function that `DeleteServiceVersion` hands to `Transaction`
  unfoldable pub delete_version_rows : ℕ → String → Action World (Unit {0})
  delete_version_rows service_id tag = do
    or_error (db.versions.delete (is_version service_id tag)) on_version_error
    or_error (db.services.set_columns (has_service_id service_id) one_less) to_internal
    pure tt

  -- the database part of `DeleteServiceVersion`
  unfoldable pub remove_version : ℕ → String → Action World (Unit {0})
  remove_version service_id tag = do
    exists ← or_error (check_if_version_for_service_exist service_id tag) same_error
    fail_if (not exists) GoError.service_version_does_not_exist
    or_error (db.transaction (delete_version_rows service_id tag)) same_error
    pure tt

  -- The tail of `FetchServices`, with the table that it reads and the search condition. A listing
  -- that panics has the result `none`.
  unfoldable pub fetch_window :
      Table World Service
      → (Service → Bool)
      → Bool
      → ℕ
      → Option Window
      → Action World (Option (List Service × ℕ))
  fetch_window t p inverted total none = pure none
  fetch_window t p inverted total (some beyond) = pure (some ([], total))
  fetch_window t p inverted total (some (fetch limit offset)) = do
    services ← or_error (t.find p limit offset) to_internal
    pure (
        with_total total (
          if not (length services == 0) && inverted then reverse_slice services else some services))

  -- `FetchServices`; `like pattern text` is PostgreSQL's `text LIKE pattern`.
  unfoldable pub fetch_services :
      (String → String → Bool)
      → ℤ
      → ℤ
      → String
      → Bool
      → Bool
      → Action World (Option (List Service × ℕ))
  unfolding fetch_window
  fetch_services like current_page page_size search inverted name_sorted = do
    let t = if name_sorted then db.name_sorted_services else db.services
    let p = λ (s : Service). like search s.name
    total ← or_error (t.count p) to_internal
    fetch_window t p inverted total (
        if inverted
        then inverted_window total current_page page_size
        else some (plain_window current_page page_size))

  unfoldable pub fetch_version_window :
      ℕ → ℕ → Option Window → Action World (Option (List ServiceVersion × ℕ))
  fetch_version_window id total none = pure none
  fetch_version_window id total (some beyond) = pure (some ([], total))
  fetch_version_window id total (some (fetch limit offset)) = do
    versions ← or_error (db.versions.find (of_service id) limit offset) to_internal
    pure (
        with_total total
          (if not (length versions == 0) then reverse_slice versions else some versions))

  unfoldable pub fetch_service_versions_inverted :
      ℕ → ℤ → ℤ → Action World (Option (List ServiceVersion × ℕ))
  unfolding fetch_version_window
  fetch_service_versions_inverted id current_page page_size = do
    total ← or_error (db.versions.count (of_service id)) to_internal
    fetch_version_window id total (inverted_window total current_page page_size)

  unfoldable pub create_service : String → String → Action (Server World) Service
  create_service name description = do
    created ← on_world (insert_service name description)
    request_refresh
    pure created

  unfoldable pub update_service : ℕ → String → String → Action (Server World) Service
  update_service id name description = do
    updated ← on_world (change_service id name description)
    request_refresh
    pure updated

  unfoldable pub delete_service : ℕ → Action (Server World) (Unit {0})
  delete_service id = do on_world (remove_service id); request_refresh; pure tt

  unfoldable pub create_service_version : ℕ → String → String → Action (Server World) ServiceVersion
  create_service_version service_id tag info = do
    created ← on_world (insert_version service_id tag info)
    request_refresh
    pure created

  unfoldable pub delete_service_version : ℕ → String → Action (Server World) (Unit {0})
  delete_service_version service_id tag = do
    on_world (remove_version service_id tag)
    request_refresh
    pure tt
