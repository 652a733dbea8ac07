-- ===== src/Users/Listing.antt =====
-- What `FetchUsersWithPagination` of internal/components/user/operations.go returns.
use go_user_and_service_mgmt.Prelude.{
  ℕ, suc, pos, true, false, List, ◌≡◌, filter, count_if, refl, length-SameRows, ◌<◌, ◌*◌, ◌^◌,
  arith,
}
use go_user_and_service_mgmt.Prelude.Lists.{length-filter}
use go_user_and_service_mgmt.Gorm.{Database, Tables, Result, ok, err}
use go_user_and_service_mgmt.Gorm.Laws.{IsRelational}
use go_user_and_service_mgmt.Errors.{GoError}
use go_user_and_service_mgmt.Models.{User}
use go_user_and_service_mgmt.Gorm.Rules.{on-count, on-find}
use go_user_and_service_mgmt.Users.Operations.{fetch_users_with_pagination}
use go_user_and_service_mgmt.Services.Operations.Pages.{plain_window}
use go_user_and_service_mgmt.Services.Operations.Pages.Laws.{plain_page}
use go_user_and_service_mgmt.Services.Pagination.{IsPage}

module _ {World : Type 0} (db : Database World) (laws : IsRelational db) where
  -- The listing returns a page and changes no table, or fails.
  abbrev pub PagesUsers : Tables → ℕ → ℕ → Result (List User × ℕ) × World → Type 0
  PagesUsers before k size (ok page, w') =
      (db.tables w' ≡ before) × IsPage (λ _. true) false before.user k size page
  PagesUsers before k size (err e, w') = (db.tables w' ≡ before) × (e ≡ GoError.internal)

  -- For a positive page size, page `k + 1` of the users is the (k + 1)-th page of some order of the
  -- rows of the user table, which the database chooses, with their number, or an internal error, as
  -- long as the product of page and size and the number of rows are below 2 ^ 63.
  pub fetch_users_with_pagination-PagesUsers :
      (w : World) (k size : ℕ)
      → 0 < size
      → suc k * size < 2 ^ 63
      → count_if (λ _. true) (db.tables w).user < 2 ^ 63
      → PagesUsers (db.tables w) k size (fetch_users_with_pagination db (pos (suc k)) (pos size) w)
  unfolding fetch_users_with_pagination plain_window
  fetch_users_with_pagination-PagesUsers w k size pos_size small few =
      let rows = (db.tables w).user in
      let Q = PagesUsers (db.tables w) k size in
      on-count Q db.tables laws.users_lem.readable (λ _. true) _ _ refl
        (λ w₁ e₁.
          on-find Q db.tables laws.users_lem.readable (λ _. true) _ _ _ _ e₁
            (λ w₂ e₂ order shuffled.
              let page = plain_page order k size pos_size small (
                omega (
                  arith,
                  length-SameRows order (filter (λ _. true) rows) shuffled,
                  length-filter (λ _. true) rows,
                )) in
              (e₂, ((order, shuffled, page), refl)))
            (λ e w₂ e₂. (e₂, refl)))
        (λ e w₁ e₁. (e₁, refl))
