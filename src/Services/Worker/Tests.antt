-- ===== src/Services/Worker/Tests.antt =====
-- The worker on the database in memory, and the theorems at those runs.
use go_user_and_service_mgmt.Prelude.{true, false, [], ◌∷◌, pos, ◌≡◌, ◌↔◌, refl}
use go_user_and_service_mgmt.Models.{Service}
use go_user_and_service_mgmt.Gorm.{Database, Tables, ok, ◌>>=◌, or_error, fail_if}
use go_user_and_service_mgmt.Gorm.Memory.{Memory, memory}
use go_user_and_service_mgmt.Gorm.Memory.Laws.{memory-IsRelational}
use go_user_and_service_mgmt.Gorm.Laws.{IsRelational}
use go_user_and_service_mgmt.Services.Operations.{on_world, insert_service}
use go_user_and_service_mgmt.Services.Worker.{Pc, Event, worker_step, run_worker}
use go_user_and_service_mgmt.Services.Worker.System.{
  System, Step, Reach, initial, Anywhere, IsFresh, after_work,
}
use go_user_and_service_mgmt.Services.Worker.Served.{IsServedSystem}
use go_user_and_service_mgmt.Services.Worker.Laws.{Reach-IsServed}
use go_user_and_service_mgmt.Services.Worker.Progress.{
  IsFailure, requested, three_ticks, check_round, starting-failed, run_worker-catches_up,
  run_worker-serves,
}
use go_user_and_service_mgmt.Services.Worker.Races.{at_select, lost_request}

abbrev billing : Service
billing = record { id = 1; name = "billing"; description = "bills"; version_count = pos 0 }

abbrev search : Service
search = record { id = 2; name = "search"; description = "s"; version_count = pos 0 }

-- The view has not seen the service yet.
abbrev store : Tables
store = record {
  user = [];
  user_role = [];
  service = billing ∷ [];
  version = [];
  name_sorted_service = [];
}

abbrev quiet : Memory
quiet = record { store = store; schedule = [] }

abbrev refreshed : Memory
refreshed = record { store = record store { name_sorted_service = billing ∷ [] }; schedule = [] }

abbrev stale : Memory
stale = record {
  store = record store { service = billing ∷ search ∷ []; name_sorted_service = billing ∷ [] };
  schedule = [];
}

-- The first two refreshes fail.
abbrev faulty : Memory
faulty = record { store = store; schedule = true ∷ true ∷ [] }

third_attempt :
    run_worker memory three_ticks
      (record { world = faulty; to_refresh_views = false }, Pc.starting 0)
    ≡ (record { world = refreshed; to_refresh_views = false }, Pc.waiting)
unfolding run_worker on_world
third_attempt = refl

starting-failed_example :
    ((run_worker memory
        (Event.done ∷ Event.done ∷ Event.done ∷ [])
        (record { world = faulty; to_refresh_views = false }, Pc.starting 0)).1
      ≡ Pc.failed)
    ↔ (IsFailure (memory.refresh_view faulty).0
        × IsFailure (memory.refresh_view (memory.refresh_view faulty).1).0
        × IsFailure (memory.refresh_view (memory.refresh_view (memory.refresh_view faulty).1).1).0)
starting-failed_example =
    starting-failed memory (record { world = faulty; to_refresh_views = false })

-- A database whose refreshes do not fail.
abbrev reliable : Database Memory
reliable = record memory {
  refresh_view = λ (m : Memory).
      (ok tt, record m { store = record (m.store) { name_sorted_service = m.store.service } });
}

reliable-IsRelational : IsRelational reliable
reliable-IsRelational = record {
  users_lem = memory-IsRelational.users_lem;
  user_roles_lem = memory-IsRelational.user_roles_lem;
  services_lem = memory-IsRelational.services_lem;
  versions_lem = memory-IsRelational.versions_lem;
  view_lem = memory-IsRelational.view_lem;
  foreign_key = memory-IsRelational.foreign_key;
  refresh_lem = λ w. (refl, λ p. refl);
  transaction_lem = memory-IsRelational.transaction_lem;
}

run_worker-catches_up_example :
    IsFresh
      (run_worker reliable three_ticks
        (record { world = faulty; to_refresh_views = false }, Pc.asked false)).0.world.store
run_worker-catches_up_example =
    run_worker-catches_up reliable reliable-IsRelational (λ w. refl)
      (record { world = faulty; to_refresh_views = false }) (Pc.asked false) tt

run_worker-serves_example :
    IsFresh (run_worker reliable check_round (requested faulty, Pc.waiting)).0.world.store
    × ((run_worker reliable check_round (requested faulty, Pc.waiting)).0.to_refresh_views ≡ false)
    × ((run_worker reliable check_round (requested faulty, Pc.waiting)).1 ≡ Pc.waiting)
run_worker-serves_example = run_worker-serves reliable reliable-IsRelational (λ w. refl) faulty

-- The system after the first refresh.
abbrev started : System Memory
started =
    after_work memory (initial quiet)
      (worker_step memory Event.check_tick ((initial quiet).server, Pc.starting 0))

Reach-IsServed_example : IsServedSystem memory started
Reach-IsServed_example =
    Reach-IsServed memory memory-IsRelational {w = quiet} {s = started}
      (Reach.next Reach.here (Step.work Event.check_tick))

lost_request_example :
    Reach memory Anywhere (at_select memory quiet true) (at_select memory stale false)
    × ¬ IsFresh stale.store
unfolding insert_service ◌>>=◌ or_error fail_if
lost_request_example =
    lost_request memory memory-IsRelational quiet refreshed stale "search" "s" search refl refl
