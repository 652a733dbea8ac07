-- ===== src/Services/Operations/Pages.antt =====
-- Pagination in internal/components/service/operations.go: which rows `FetchServices` and
-- `FetchServiceVersionsInverted` ask the database for, in 64-bit integers.
pub mod Laws
use go_user_and_service_mgmt.Prelude.{
  ℕ, ℤ, pos, negsuc, Bool, false, Option, none, some, nat_eq, int_sub, int_mul, int_rem, ltb_ℤ,
  leb_ℤ, if◌then◌else◌,
}

-- `LIMIT` and `OFFSET`, or the early return of an empty list.
pub data Window : Type 0 where
  fetch : ℤ → ℤ → Window
  beyond : Window

abbrev is_zero : ℤ → Bool
is_zero (pos n) = nat_eq n 0
is_zero (negsuc _) = false

-- Counted from the end: the page before the last `currentPage - 1` pages. The last page holds
-- the remainder: `int(total) % pageSize`, which panics if `pageSize` is 0; `none` is the panic.
-- `total` comes from `int(total)`, which 64 bits leave alone.
unfoldable pub inverted_window : ℕ → ℤ → ℤ → Option Window
inverted_window total current_page page_size =
    let offset = int_sub (pos total) (int_mul current_page page_size) in
    if ltb_ℤ offset (pos 0)
    then (let limit = int_rem (pos total) page_size in
        if is_zero page_size
        then none
        else some (if leb_ℤ (int_sub limit page_size) offset then fetch limit (pos 0) else beyond))
    else some (fetch page_size offset)

unfoldable pub plain_window : ℤ → ℤ → Window
plain_window current_page page_size =
    fetch page_size (int_mul (int_sub current_page (pos 1)) page_size)
