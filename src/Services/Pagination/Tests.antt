-- ===== src/Services/Pagination/Tests.antt =====
-- Runs of the listings on the database in memory, and the theorems at those inputs.
use go_user_and_service_mgmt.Prelude.{
  ℕ, pos, some, String, Bool, true, false, [], ◌∷◌, ◌≡◌, ◌-ℤ◌, ◌*ℤ◌, wrap64, int_rem, refl, arith,
}
use go_user_and_service_mgmt.Models.{Service}
use go_user_and_service_mgmt.Gorm.{Tables, ok, ◌>>=◌, or_error}
use go_user_and_service_mgmt.Gorm.Memory.{Memory, memory}
use go_user_and_service_mgmt.Services.Operations.{
  version_of, fetch_window, fetch_services, fetch_version_window, fetch_service_versions_inverted,
}
use go_user_and_service_mgmt.Services.Operations.Pages.{inverted_window}
use go_user_and_service_mgmt.Services.Operations.Slices.{reverse_slice, swap_loop}
use go_user_and_service_mgmt.Services.Operations.Slices.Laws.{reverse_slice-eq-reverse}
use go_user_and_service_mgmt.Services.Pagination.{Pages, fetch_services_wrapped}

abbrev service_at : ℕ → String → Service
service_at id name = record { id = id; name = name; description = ""; version_count = pos 0 }

abbrev store : Tables
store = record {
  user = [];
  user_role = [];
  service = service_at 1 "b" ∷ service_at 2 "a" ∷ service_at 3 "c" ∷ [];
  version =
      version_of 1 "v1" ""
      ∷ version_of 1 "v2" ""
      ∷ version_of 2 "v1" ""
      ∷ version_of 1 "v3" ""
      ∷ [];
  name_sorted_service = service_at 2 "a" ∷ service_at 1 "b" ∷ service_at 3 "c" ∷ [];
}

abbrev quiet : Memory
quiet = record { store = store; schedule = [] }

-- Every name matches.
abbrev like_all : String → String → Bool
like_all _ _ = true

-- The last page, from the end, has the one version that is left.
versions_last_page :
    (fetch_service_versions_inverted memory 1 (pos 2) (pos 2) quiet).0
    ≡ ok (some (version_of 1 "v1" "" ∷ [], 3))
unfolding fetch_service_versions_inverted ◌>>=◌ or_error fetch_version_window inverted_window
    reverse_slice swap_loop ◌-ℤ◌ ◌*ℤ◌ wrap64 int_rem
versions_last_page = refl

-- The view, backwards.
services_backwards :
    (fetch_services memory like_all (pos 1) (pos 2) "" true true quiet).0
    ≡ ok (some (service_at 3 "c" ∷ service_at 1 "b" ∷ [], 3))
unfolding fetch_services ◌>>=◌ or_error fetch_window inverted_window reverse_slice swap_loop ◌-ℤ◌
    ◌*ℤ◌ wrap64 int_rem
services_backwards = refl

reverse_slice-eq-reverse_example :
    reverse_slice store.service ≡ some (service_at 3 "c" ∷ service_at 2 "a" ∷ service_at 1 "b" ∷ [])
reverse_slice-eq-reverse_example = reverse_slice-eq-reverse store.service

fetch_services_wrapped_example :
    fetch_services memory like_all (pos 1152921504606846977) (pos 16) "" false false quiet
    ≡ fetch_services memory like_all (pos 1) (pos 16) "" false false quiet
fetch_services_wrapped_example =
    fetch_services_wrapped memory quiet like_all "" false 1152921504606846976 16 (omega arith) refl
