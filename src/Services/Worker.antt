-- ===== src/Services/Worker.antt =====
-- `SyncDataWithSortedViews` of internal/components/service/operations.go: the background worker
-- that refreshes the sorted view. It runs beside the operations, so it is cut where others can
-- act: at each statement on the database, at each lock, and at `select`. Sleeps are not timed.
pub mod System
pub mod Served
pub mod Laws
pub mod Progress
pub mod Races
mod Tests
use go_user_and_service_mgmt.Prelude.{ℕ, suc, Bool, true, false, List, [], ◌∷◌, ltb, if◌then◌else◌}
use go_user_and_service_mgmt.Gorm.{Action, Result, ok, err, Database}
use go_user_and_service_mgmt.Services.Operations.{Server, on_world}

-- Where the worker stands, with the local variables that are live there.
pub data Pc : Type 0 where
  -- before attempt `n` of `refreshViewsWithAttempts`, at the start or on the scheduled tick
  starting syncing : ℕ → Pc
  -- at `select`
  waiting : Pc
  -- `toRefresh` has been read
  asked : Bool → Pc
  -- the refresh has succeeded, the flag is not cleared yet
  clearing : Pc
  -- returned, and `log.Fatalf`
  stopped failed : Pc

-- What `select` finds ready.
pub data Event : Type 0 where
  done scheduled_tick check_tick : Event

-- the bound of the loop in `refreshViewsWithAttempts`
abbrev pub max_attempts : ℕ
max_attempts = 3

-- After attempt `n`: the next one, or the end of the process.
abbrev pub after_attempt {ℓ} : {A : Type ℓ} → (ℕ → Pc) → ℕ → Result A → Pc
after_attempt again n (ok _) = Pc.waiting
after_attempt again n (err _) = if ltb (suc n) max_attempts then again (suc n) else Pc.failed

abbrev pub after_refresh {ℓ} : {A : Type ℓ} → Result A → Pc
after_refresh (ok _) = Pc.clearing
after_refresh (err _) = Pc.waiting

module _ {World : Type 0} (db : Database World) where
  -- `refreshViews`, on the server
  abbrev pub refresh_views : Action (Server World) (Unit {0})
  refresh_views = on_world db.refresh_view

  abbrev pub select : Event → Server World → Server World × Pc
  select Event.done s = (s, Pc.stopped)
  select Event.scheduled_tick s = (s, Pc.syncing 0)
  select Event.check_tick s = (s, Pc.asked s.to_refresh_views)

  -- One step of the worker; the event matters at `select` only.
  unfoldable pub worker_step : Event → Server World × Pc → Server World × Pc
  worker_step e (s, Pc.starting n) =
      let (r, s') = refresh_views s in (s', after_attempt Pc.starting n r)
  worker_step e (s, Pc.syncing n) =
      let (r, s') = refresh_views s in (s', after_attempt Pc.syncing n r)
  worker_step e (s, Pc.waiting) = select e s
  worker_step e (s, Pc.asked false) = (s, Pc.waiting)
  worker_step e (s, Pc.asked true) = let (r, s') = refresh_views s in (s', after_refresh r)
  worker_step e (s, Pc.clearing) = (record s { to_refresh_views = false }, Pc.waiting)
  worker_step e (s, Pc.stopped) = (s, Pc.stopped)
  worker_step e (s, Pc.failed) = (s, Pc.failed)

  -- The worker alone, on the events that `select` meets.
  unfoldable pub run_worker : List Event → Server World × Pc → Server World × Pc
  unfolding worker_step
  run_worker [] x = x
  run_worker (e ∷ es) x = run_worker es (worker_step e x)
