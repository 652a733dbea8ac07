-- ===== src/Services/Operations/Pages/Laws.antt =====
-- What the windows of Services/Operations/Pages.antt select, in 64-bit arithmetic.
use native.Mathlib.Nat.{
  mod-lt, div-add-mod', mul-le-mul_right, lt_of_mul-lt-mul_right, le_of_mul-le-mul_right,
  le-mul_of_pos_right,
}
use go_user_and_service_mgmt.Prelude.{
  ℕ, ℤ, suc, pos, negsuc, Bool, true, ◌*ℤ◌, ◌+◌, ◌-◌, ◌*◌, ◌/◌, ◌%◌, ◌^◌, ◌<◌, ◌≤◌, List, [], ◌≡◌,
  refl, sym, ap, ◌∙◌, reverse, take, drop, length, Bool-cases, inl, inr, arith, leb, if◌then◌else◌,
  int_rem, int_sub, Option, some, nat_eq, false, int_mul,
}
use go_user_and_service_mgmt.Prelude.Int.{
  wrap64-pos, wrap64-negsuc, wrap64_multiple, pos-*ℤ-pos, pos--ℤ-pos_le, pos--ℤ-pos_lt,
}
use go_user_and_service_mgmt.Prelude.Segments.{reverse_window, reverse_last_window, window_beyond}
use go_user_and_service_mgmt.Gorm.Laws.{limited, skipped}
use go_user_and_service_mgmt.Services.Operations.Pages.{
  Window, fetch, beyond, inverted_window, plain_window,
}

-- The rows that a window selects.
abbrev pub selected {ℓ} : {A : Type ℓ} → Window → List A → List A
selected (fetch limit offset) rows = limited limit (skipped offset rows)
selected beyond rows = []

-- Subtraction and multiplication in range.
int_mul_small : (a b : ℕ) → a * b < 2 ^ 63 → int_mul (pos a) (pos b) ≡ pos (a * b)
int_mul_small a b h = rw pos-*ℤ-pos (wrap64-pos (a * b) h)

int_sub_le : (a b : ℕ) → a < 2 ^ 63 → b ≤ a → int_sub (pos a) (pos b) ≡ pos (a - b)
int_sub_le a b h k = rw (pos--ℤ-pos_le a b k) (wrap64-pos (a - b) (omega arith))

int_sub_lt : (a b : ℕ) → b < 2 ^ 63 → a < b → int_sub (pos a) (pos b) ≡ negsuc (b - a - 1)
int_sub_lt a b h k = rw (pos--ℤ-pos_lt a b k) (wrap64-negsuc (b - a - 1) (omega arith))

-- The product of page and size is within the total: a full page, from the front.
inverted_window_within :
    (total page size : ℕ)
    → total < 2 ^ 63
    → page * size ≤ total
    → inverted_window total (pos page) (pos size)
      ≡ some (fetch (pos size) (pos (total - page * size)))
unfolding inverted_window
inverted_window_within total page size h k =
    rw (int_mul_small page size (omega arith), int_sub_le total (page * size) h k) (ground arith)

-- It is past the total: the remainder, or nothing.
inverted_window_past :
    (total page size : ℕ)
    → page * size < 2 ^ 63
    → total < page * size
    → total % size < size
    → size < 2 ^ 63
    → inverted_window total (pos page) (pos size)
      ≡ some (
          if leb (page * size + total % size) (size + total)
          then fetch (pos (total % size)) (pos 0)
          else beyond)
unfolding inverted_window int_rem
inverted_window_past total page size h k r b =
    let remainder : int_rem (pos total) (pos size) ≡ pos (total % size) =
      ap (λ n. pos (total % n)) (omega arith) in
    let divisor : nat_eq size 0 ≡ false = ground arith in
    rw
      (
        int_mul_small page size h,
        int_sub_lt total (page * size) h k,
        remainder,
        int_sub_lt (total % size) size b r,
        divisor,
      )
      (ground arith)

-- The last page, counted from the end, starts where the full pages end.
last_page :
    (total k size : ℕ)
    → 0 < size
    → total < size + k * size
    → k * size + total % size ≤ total
    → k * size + total % size ≡ total
last_page total k size pos_size late fits =
    let split = div-add-mod' total size in
    let lower : k ≤ total / size = le_of_mul-le-mul_right (omega arith) pos_size in
    let upper : total / size < suc k = lt_of_mul-lt-mul_right size (omega arith) in
    let same : k ≡ total / size = omega arith in ap (λ n. n * size + total % size) same ∙ split

-- A page that starts after the last one starts past the total.
page_beyond : (total k size : ℕ) → 0 < size → total < k * size + total % size → total ≤ k * size
page_beyond total k size pos_size late =
    let split = div-add-mod' total size in
    let rest = mod-lt total pos_size in
    let lower : total / size < k = lt_of_mul-lt-mul_right size (omega arith) in
    let room : suc (total / size) * size ≤ k * size = mul-le-mul_right size lower in omega arith

module _ {A : Type 0} (rows : List A) (k size : ℕ) (pos_size : 0 < size)
    (small : suc k * size < 2 ^ 63) (few : length rows < 2 ^ 63) where
  -- A window whose rows, read backwards, are page `k + 1` of the reverse.
  abbrev pub IsInvertedPage : Option Window → Type 0
  IsInvertedPage o =
      (x : Window) × (o ≡ some x)
      × (reverse (selected x rows) ≡ take size (drop (k * size) (reverse rows)))

  page_past :
      length rows < suc k * size
      → IsInvertedPage (inverted_window (length rows) (pos (suc k)) (pos size))
  page_past late =
      let rest = mod-lt (length rows) pos_size in
      let big : size ≤ suc k * size = omega arith in
      (
        if leb (suc k * size + length rows % size) (size + length rows)
            then fetch (pos (length rows % size)) (pos 0)
            else beyond,
        inverted_window_past (length rows) (suc k) size small late rest (omega arith),
        elim (Bool-cases (leb (suc k * size + length rows % size) (size + length rows))) [
          | inl fits ↦ rw fits (
              reverse_last_window (k * size) size (length rows % size) rows
                (last_page (length rows) k size pos_size (omega arith) (ground arith))
                (omega arith))
          | inr gone ↦ rw gone (
              sym (
                window_beyond (k * size) size rows
                  (page_beyond (length rows) k size pos_size (ground arith))))
        ],
      )

  pub plain_page :
      selected (plain_window (pos (suc k)) (pos size)) rows ≡ take size (drop (k * size) rows)
  unfolding plain_window
  plain_page =
      let before : suc k - 1 ≡ k = omega arith in
      let room : suc k ≤ suc k * size = le-mul_of_pos_right (suc k) pos_size in
      rw
        (
          int_sub_le (suc k) 1 (omega arith) (omega arith),
          before,
          int_mul_small k size (omega arith),
        )
        refl

  -- Counted from the end, page `k + 1` read backwards is page `k + 1` of the reverse.
  pub inverted_page : IsInvertedPage (inverted_window (length rows) (pos (suc k)) (pos size))
  inverted_page = elim (Bool-cases (leb (suc k * size) (length rows))) [
    | inl fits ↦
        let within : suc k * size ≤ length rows = ground arith in
        (
          fetch (pos size) (pos (length rows - suc k * size)),
          inverted_window_within (length rows) (suc k) size few within,
          reverse_window (k * size) size (length rows - suc k * size) rows (omega arith),
        )
    | inr late ↦ page_past (ground arith)
  ]

-- A product that 64 bits wrap to 0: the window of the first page.
pub plain_window_wrapped :
    (k size : ℕ)
    → suc k < 2 ^ 63
    → k * size % 2 ^ 64 ≡ 0
    → plain_window (pos (suc k)) (pos size) ≡ plain_window (pos 1) (pos size)
unfolding plain_window
plain_window_wrapped k size small wraps =
    let before : suc k - 1 ≡ k = omega arith in
    let start : 0 * size ≡ 0 = omega arith in
    rw
      (
        int_sub_le (suc k) 1 small (omega arith),
        before,
        pos-*ℤ-pos,
        wrap64_multiple (k * size) wraps,
        int_sub_le 1 1 (omega arith) (omega arith),
        int_mul_small 0 size (omega arith),
        start,
      )
      refl

times_zero : (page : ℤ) → page *ℤ pos 0 ≡ pos 0
unfolding ◌*ℤ◌
times_zero (pos n) = ground arith
times_zero (negsuc n) = ground arith

product_zero : (page : ℤ) → int_mul page (pos 0) ≡ pos 0
product_zero page = rw (times_zero page) (wrap64-pos 0 (omega arith))

either_some : (b : Bool) (x y : Window) → (z : Window) × ((if b then some x else some y) ≡ some z)
either_some true x y = (x, refl)
either_some false x y = (y, refl)

-- A page size that is not negative never makes the window panic.
pub inverted_window-some :
    (total size : ℕ) (page : ℤ)
    → total < 2 ^ 63
    → (x : Window) × (inverted_window total page (pos size) ≡ some x)
unfolding inverted_window
inverted_window-some total size page small = elim (Bool-cases (nat_eq size 0)) [
  | inl empty ↦
      let none_on_a_page : size ≡ 0 = ground arith in
      (
        fetch (pos 0) (pos total),
        rw (none_on_a_page, product_zero page, int_sub_le total 0 small (omega arith))
            (ground arith),
      )
  | inr divisor ↦ rw divisor (either_some _ _ _)
]
