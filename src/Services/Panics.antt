-- ===== src/Services/Panics.antt =====
-- The listings of internal/components/service/operations.go, which divide by the page size and
-- exchange entries of a slice by index, do not panic for a page size that is not negative.
use go_user_and_service_mgmt.Prelude.{
  ℕ, ℤ, pos, negsuc, String, Bool, true, false, Option, none, some, ◌≡◌, refl, ◌<◌, ◌^◌,
  if◌then◌else◌, arith,
}
use go_user_and_service_mgmt.Prelude.Int.{ltb_ℤ}
use go_user_and_service_mgmt.Models.{Service}
use go_user_and_service_mgmt.Gorm.{Database, Table, Result, ok, err}
use go_user_and_service_mgmt.Gorm.Laws.{IsRelational}
use go_user_and_service_mgmt.Gorm.Rules.{on-call}
use go_user_and_service_mgmt.Services.Operations.{
  Server, on_world, of_service, fetch_window, fetch_services, fetch_version_window,
  fetch_service_versions_inverted,
}
use go_user_and_service_mgmt.Services.Operations.Pages.{
  Window, fetch, beyond, inverted_window, plain_window,
}
use go_user_and_service_mgmt.Services.Operations.Pages.Laws.{inverted_window-some}
use go_user_and_service_mgmt.Services.Pagination.{turned_lem, turned_versions, listed-IsReadable}

-- The result is not that of a panic.
abbrev pub NoPanic : {A : Type 0} → Result (Option A) → Type 0
NoPanic (ok none) = ⊥
NoPanic _ = Unit

-- A call that has not panicked.
abbrev IsQuiet : {World A : Type 0} → Result (Option A) × World → Type 0
IsQuiet (ok none, _) = ⊥
IsQuiet _ = Unit

IsQuiet-NoPanic : {World A : Type 0} (x : Result (Option A) × World) → IsQuiet x → NoPanic x.0
IsQuiet-NoPanic (ok none, w) h = h
IsQuiet-NoPanic (ok (some a), w) h = tt
IsQuiet-NoPanic (err e, w) h = tt

-- A page size that is not negative gives a window.
window-some :
    (inverted : Bool) (total : ℕ) (page size : ℤ)
    → total < 2 ^ 63
    → ltb_ℤ size (pos 0) ≡ false
    → (x : Window) × ((if inverted
          then inverted_window total page size
          else some (plain_window page size))
        ≡ some x)
window-some true total page (pos n) small fits = inverted_window-some total n page small
window-some true total page (negsuc n) small fits = absurd (ground arith)
window-some false total page size small fits = (plain_window page size, refl)

module _ {World : Type 0} (db : Database World) where
  fetch_window-IsQuiet :
      (t : Table World Service) (p : Service → Bool) (inverted : Bool) (total : ℕ) (x : Window)
      (w : World)
      → IsQuiet (fetch_window db t p inverted total (some x) w)
  unfolding fetch_window
  fetch_window-IsQuiet t p inverted total beyond w = tt
  fetch_window-IsQuiet t p inverted total (fetch limit offset) w =
      on-call IsQuiet (λ _. Unit {0}) _ _ _ w tt
        (λ services w₁ _. rw (turned_lem inverted services) tt) (λ e w₁ _. tt)

  fetch_version_window-IsQuiet :
      (id total : ℕ) (x : Window) (w : World)
      → IsQuiet (fetch_version_window db id total (some x) w)
  unfolding fetch_version_window
  fetch_version_window-IsQuiet id total beyond w = tt
  fetch_version_window-IsQuiet id total (fetch limit offset) w =
      on-call IsQuiet (λ _. Unit {0}) _ _ _ w tt (λ versions w₁ _. rw (turned_versions versions) tt)
        (λ e w₁ _. tt)

module _ {World : Type 0} (db : Database World) (laws : IsRelational db) where
  fetch_services-IsQuiet :
      (like : String → String → Bool) (page size : ℤ) (text : String) (inverted name_sorted : Bool)
      (w : World)
      → ltb_ℤ size (pos 0) ≡ false
      → IsQuiet (fetch_services db like page size text inverted name_sorted w)
  unfolding fetch_services
  fetch_services-IsQuiet like page size text inverted name_sorted w fits =
      let p = λ (s : Service). like text s.name in
      on-call IsQuiet (λ x. (n : ℕ) → x.0 ≡ ok n → n < 2 ^ 63) _ _ _ w
        ((listed-IsReadable db laws name_sorted).count_range p w)
        (λ total w₁ small.
          let (x, is) = window-some inverted total page size (small total refl) fits in
          rw is (
            fetch_window-IsQuiet db (if name_sorted then db.name_sorted_services else db.services) p
              inverted total x w₁))
        (λ e w₁ _. tt)

  fetch_service_versions_inverted-IsQuiet :
      (id : ℕ) (page size : ℤ) (w : World)
      → ltb_ℤ size (pos 0) ≡ false
      → IsQuiet (fetch_service_versions_inverted db id page size w)
  unfolding fetch_service_versions_inverted
  fetch_service_versions_inverted-IsQuiet id page size w fits =
      on-call IsQuiet (λ x. (n : ℕ) → x.0 ≡ ok n → n < 2 ^ 63) _ _ _ w
        (laws.versions_lem.readable.count_range (of_service id) w)
        (λ total w₁ small.
          let (x, is) = window-some true total page size (small total refl) fits in
          rw is (fetch_version_window-IsQuiet db id total x w₁))
        (λ e w₁ _. tt)

  -- The same of the listings on the server.
  pub fetch_services-NoPanic :
      (like : String → String → Bool) (page size : ℤ) (text : String) (inverted name_sorted : Bool)
      (s : Server World)
      → ltb_ℤ size (pos 0) ≡ false
      → NoPanic (on_world (fetch_services db like page size text inverted name_sorted) s).0
  unfolding on_world
  fetch_services-NoPanic like page size text inverted name_sorted s fits =
      IsQuiet-NoPanic (fetch_services db like page size text inverted name_sorted s.world)
        (fetch_services-IsQuiet like page size text inverted name_sorted s.world fits)

  pub fetch_service_versions_inverted-NoPanic :
      (id : ℕ) (page size : ℤ) (s : Server World)
      → ltb_ℤ size (pos 0) ≡ false
      → NoPanic (on_world (fetch_service_versions_inverted db id page size) s).0
  unfolding on_world
  fetch_service_versions_inverted-NoPanic id page size s fits =
      IsQuiet-NoPanic (fetch_service_versions_inverted db id page size s.world)
        (fetch_service_versions_inverted-IsQuiet id page size s.world fits)
