-- ===== src/Services/Pagination.antt =====
-- What `FetchServices` and `FetchServiceVersionsInverted` return: a page of the rows that meet the
-- condition, in an order that the database chooses, or in its reverse.
mod Tests
use go_user_and_service_mgmt.Prelude.{
  ℕ, suc, ℤ, pos, String, Bool, true, false, List, [], ◌≡◌, refl, sym, ap, ◌∙◌, reverse, take, drop,
  filter, length, count_if, ◌<◌, ◌*◌, ◌^◌, ◌%◌, if◌then◌else◌, inl, inr, Bool-cases, arith, not,
  ◌&&◌, nat_eq, ◌∷◌, Option, none, some, SameRows, length-SameRows,
}
use go_user_and_service_mgmt.Prelude.Lists.{length-filter}
use go_user_and_service_mgmt.Models.{Service}
use go_user_and_service_mgmt.Gorm.{Database, Tables, Result, ok, err}
use go_user_and_service_mgmt.Gorm.Laws.{IsRelational, IsReadable}
use go_user_and_service_mgmt.Errors.{GoError}
use go_user_and_service_mgmt.Services.Operations.{fetch_services}
use go_user_and_service_mgmt.Services.Operations.Pages.{Window, inverted_window, plain_window}
use go_user_and_service_mgmt.Services.Operations.Pages.Laws.{
  selected, inverted_page, inverted_window-some, plain_page, plain_window_wrapped,
}
use go_user_and_service_mgmt.Services.Operations.Slices.{reverse_slice}
use go_user_and_service_mgmt.Services.Operations.Slices.Laws.{reverse_slice-eq-reverse}

-- Page `k + 1` of a list.
abbrev pub page_of {ℓ} : {A : Type ℓ} → ℕ → ℕ → List A → List A
page_of k size rows = take size (drop (k * size) rows)

abbrev pub turned {ℓ} : {A : Type ℓ} → Bool → List A → List A
turned inverted rows = if inverted then reverse rows else rows

-- The rows that `FetchServices` reads: the view, or the table.
abbrev pub listed : Bool → Tables → List Service
listed name_sorted t = if name_sorted then t.name_sorted_service else t.service

-- A page of the rows that meet the condition, in some order of them or in its reverse, with their
-- number.
abbrev pub IsPage {ℓ} : {R : Type ℓ} → (R → Bool) → Bool → List R → ℕ → ℕ → List R × ℕ → Type ℓ
IsPage {R = R} p inverted rows k size (found, total) =
    ((order : List R) × SameRows order (filter p rows)
      × (found ≡ page_of k size (turned inverted order)))
    × (total ≡ count_if p rows)

-- The slice is turned unless it is empty, which makes no difference.
pub turned_lem :
    {A : Type 0} (inverted : Bool) (l : List A)
    → (if not (nat_eq (length l) 0) && inverted then reverse_slice l else some l)
      ≡ some (turned inverted l)
turned_lem true [] = refl
turned_lem false [] = refl
turned_lem true (x ∷ l) =
    let some_left : nat_eq (length (x ∷ l)) 0 ≡ false = ground arith in
    rw some_left (reverse_slice-eq-reverse (x ∷ l))
turned_lem false (x ∷ l) =
    let some_left : nat_eq (length (x ∷ l)) 0 ≡ false = ground arith in rw some_left refl

pub turned_versions :
    {A : Type 0} (l : List A)
    → (if not (nat_eq (length l) 0) then reverse_slice l else some l) ≡ some (turned true l)
turned_versions [] = refl
turned_versions (x ∷ l) =
    let some_left : nat_eq (length (x ∷ l)) 0 ≡ false = ground arith in
    rw some_left (reverse_slice-eq-reverse (x ∷ l))

same_window : (x y : Window) → some x ≡ some y → x ≡ y
same_window x y h = ground arith

module _ {A : Type 0} (p : A → Bool) (rows : List A) (k size : ℕ) (pos_size : 0 < size)
    (small : suc k * size < 2 ^ 63) (few : count_if p rows < 2 ^ 63) where
  -- In every order of the rows, the window selects the page.
  abbrev pub Selects : Bool → Window → Type 0
  Selects inverted x =
      (order : List A)
      → SameRows order (filter p rows)
      → turned inverted (selected x order) ≡ page_of k size (turned inverted order)

  length-order : (order : List A) → SameRows order (filter p rows) → length order ≡ count_if p rows
  length-order order same = length-SameRows order (filter p rows) same ∙ length-filter p rows

  inverted_window-Selects :
      (x : Window)
      → inverted_window (count_if p rows) (pos (suc k)) (pos size) ≡ some x
      → Selects true x
  inverted_window-Selects x is order same =
      let number = length-order order same in
      let (y, found, page) = inverted_page order k size pos_size small (omega (arith, number)) in
      let chosen : x ≡ y =
        same_window x y
          (sym is ∙ ap (λ n. inverted_window n (pos (suc k)) (pos size)) (sym number) ∙ found) in
      ap (λ z. reverse (selected z order)) chosen ∙ page

  -- The window of a listing, inverted or not.
  pub either_page :
      (inverted : Bool)
      → (x : Window) × ((if inverted
            then inverted_window (count_if p rows) (pos (suc k)) (pos size)
            else some (plain_window (pos (suc k)) (pos size)))
          ≡ some x)
        × Selects inverted x
  either_page true =
      let (x, is) = inverted_window-some (count_if p rows) size (pos (suc k)) few in
      (x, is, inverted_window-Selects x is)
  either_page false = (
    plain_window (pos (suc k)) (pos size),
    refl,
    λ order same. plain_page order k size pos_size small (omega (arith, length-order order same)),
  )

module _ {World : Type 0} (db : Database World) where
  -- A listing returns a page and changes no table, or fails; it does not panic.
  abbrev pub Pages :
      {R : Type 0}
      → Tables
      → (R → Bool)
      → Bool
      → List R
      → ℕ
      → ℕ
      → Result (Option (List R × ℕ)) × World
      → Type 0
  Pages before p inverted rows k size (ok (some page), w') =
      (db.tables w' ≡ before) × IsPage p inverted rows k size page
  Pages before p inverted rows k size (ok none, w') = ⊥
  Pages before p inverted rows k size (err e, w') = (db.tables w' ≡ before) × (e ≡ GoError.internal)

module _ {World : Type 0} (db : Database World) (laws : IsRelational db) where
  pub listed-IsReadable :
      (name_sorted : Bool)
      → IsReadable db.tables
          (listed name_sorted)
          (if name_sorted then db.name_sorted_services else db.services)
  listed-IsReadable true = laws.view_lem
  listed-IsReadable false = laws.services_lem.readable

-- Where `(page - 1) * size` is a multiple of 2 ^ 64, with a page below 2 ^ 63, the plain listing
-- does exactly what it does for its first page, on every database.
pub fetch_services_wrapped :
    {World : Type 0} (db : Database World) (w : World) (like : String → String → Bool)
    (search : String) (name_sorted : Bool) (k size : ℕ)
    → suc k < 2 ^ 63
    → k * size % 2 ^ 64 ≡ 0
    → fetch_services db like (pos (suc k)) (pos size) search false name_sorted w
      ≡ fetch_services db like (pos 1) (pos size) search false name_sorted w
unfolding fetch_services
fetch_services_wrapped db w like search name_sorted k size small wraps =
    rw (plain_window_wrapped k size small wraps) refl
