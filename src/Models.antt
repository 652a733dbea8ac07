-- ===== src/Models.antt =====
-- internal/models: the rows of the four tables, the pages that the list endpoints answer with,
-- and the payload templates. Of `DBModel` only the key is kept: the program neither reads nor
-- writes the timestamps, and deletes for good (`Unscoped`), so that no row is soft-deleted.
use go_user_and_service_mgmt.Prelude.{ℕ, ℤ, String, Bool, List}

pub record User : Type 0 where
  pub id : ℕ
  pub name : String
  pub email : String
  pub role : String
  pub password_hash : String
  pub is_temporary_password : Bool

pub record UserRole : Type 0 where
  pub name : String
  pub description : String

pub record Service : Type 0 where
  pub id : ℕ
  pub name : String
  pub description : String
  pub version_count : ℤ

pub record ServiceVersion : Type 0 where
  pub service_id : ℕ
  pub tag : String
  pub info : String

-- `PaginatedUserList`, `PaginatedServiceList` and `PaginatedVersionList`
pub record Paginated {ℓ} (A : Type ℓ) : Type ℓ where
  pub entries : List A
  pub total_items : ℕ
  pub page_size : ℤ
  pub current_page : ℤ

-- `FormatUserDetailsWithPageDetails` and its two siblings
unfoldable pub format_page {ℓ} : {A : Type ℓ} → List A → ℕ → ℤ → ℤ → Paginated A
format_page rows total current_page page_size = record {
  entries = rows;
  total_items = total;
  page_size = page_size;
  current_page = current_page;
}

abbrev pub role_admin : String
role_admin = "admin"

abbrev pub role_advanced : String
role_advanced = "advanced"

abbrev pub default_page_size : String
default_page_size = "10"
