-- ===== src/Services/Worker/Progress.antt =====
-- What the worker of internal/components/service/operations.go achieves by its own steps.
use go_user_and_service_mgmt.Prelude.{
  true, false, List, [], ◌∷◌, ◌≡◌, ◌↔◌, refl, subst, ◌⊎◌, inl, inr,
}
use go_user_and_service_mgmt.Errors.{GoError}
use go_user_and_service_mgmt.Gorm.{Result, ok, err, Database}
use go_user_and_service_mgmt.Gorm.Laws.{IsRelational, Refreshes}
use go_user_and_service_mgmt.Services.Operations.{Server, on_world}
use go_user_and_service_mgmt.Services.Worker.{Pc, Event, worker_step, run_worker}
use go_user_and_service_mgmt.Services.Worker.System.{IsFresh}
use go_user_and_service_mgmt.Services.Worker.Served.{IsRunning, refresh-IsFresh}

abbrev pub three_ticks : List Event
three_ticks = Event.scheduled_tick ∷ Event.scheduled_tick ∷ Event.scheduled_tick ∷ []

-- the events after a check matter to `select` only, which is not met
abbrev pub check_round : List Event
check_round = Event.check_tick ∷ Event.check_tick ∷ Event.check_tick ∷ []

abbrev pub requested : {World : Type 0} → World → Server World
requested w = record { world = w; to_refresh_views = true }

abbrev pub IsFailure : {A : Type 0} → Result A → Type 0
IsFailure (ok _) = ⊥
IsFailure (err _) = Unit

Result-cases : (r : Result (Unit {0})) → (r ≡ ok tt) ⊎ ((e : GoError) × (r ≡ err e))
Result-cases (ok tt) = inl refl
Result-cases (err e) = inr (e, refl)

module _ {World : Type 0} (db : Database World) where
  -- From its start, with the world as it leaves it, the worker ends the process within its first
  -- three steps exactly if the refresh fails three times in a row.
  pub starting-failed :
      (s : Server World)
      → ((run_worker db (Event.done ∷ Event.done ∷ Event.done ∷ []) (s, Pc.starting 0)).1
          ≡ Pc.failed)
        ↔ (IsFailure (db.refresh_view s.world).0
            × IsFailure (db.refresh_view (db.refresh_view s.world).1).0
            × IsFailure (db.refresh_view (db.refresh_view (db.refresh_view s.world).1).1).0)
  unfolding run_worker on_world
  starting-failed s =
      let w₁ = (db.refresh_view s.world).1 in
      let w₂ = (db.refresh_view w₁).1 in
      elim (Result-cases (db.refresh_view s.world).0) [
        | inl a ↦ rw a (λ h. cc, λ h. absurd h.0)
        | inr (_, a) ↦ elim (Result-cases (db.refresh_view w₁).0) [
          | inl b ↦ rw (a, b) (λ h. cc, λ h. absurd h.1)
          | inr (_, b) ↦ elim (Result-cases (db.refresh_view w₂).0) [
            | inl c ↦ rw (a, b, c) (λ h. cc, λ h. absurd h.2)
            | inr (_, c) ↦ rw (a, b, c) (λ h. (tt, tt, tt), λ h. refl)
          ]
        ]
      ]

  module _ (laws : IsRelational db) (works : (w : World) → (db.refresh_view w).0 ≡ ok tt) where
    works-IsFresh : (w : World) → IsFresh (db.tables (db.refresh_view w).1)
    works-IsFresh w = refresh-IsFresh db (db.tables w) tt (db.refresh_view w).1 (
        subst (λ r. Refreshes db.tables (db.tables w) (r, (db.refresh_view w).1)) (works w)
          (laws.refresh_lem w))

    -- A fresh view stays fresh under the worker's steps.
    worker_step-IsFresh :
        (e : Event) (s : Server World) (pc : Pc)
        → IsFresh (db.tables s.world)
        → IsFresh (db.tables (worker_step db e (s, pc)).0.world)
    unfolding worker_step on_world
    worker_step-IsFresh e s (Pc.starting n) fresh = works-IsFresh s.world
    worker_step-IsFresh e s (Pc.syncing n) fresh = works-IsFresh s.world
    worker_step-IsFresh Event.done s Pc.waiting fresh = fresh
    worker_step-IsFresh Event.scheduled_tick s Pc.waiting fresh = fresh
    worker_step-IsFresh Event.check_tick s Pc.waiting fresh = fresh
    worker_step-IsFresh e s (Pc.asked false) fresh = fresh
    worker_step-IsFresh e s (Pc.asked true) fresh = works-IsFresh s.world
    worker_step-IsFresh e s Pc.clearing fresh = fresh
    worker_step-IsFresh e s Pc.stopped fresh = fresh
    worker_step-IsFresh e s Pc.failed fresh = fresh

    run_worker-IsFresh :
        (es : List Event) (s : Server World) (pc : Pc)
        → IsFresh (db.tables s.world)
        → IsFresh (db.tables (run_worker db es (s, pc)).0.world)
    unfolding run_worker
    run_worker-IsFresh [] s pc fresh = fresh
    run_worker-IsFresh (e ∷ es) s pc fresh =
        run_worker-IsFresh es (worker_step db e (s, pc)).0 (worker_step db e (s, pc)).1
          (worker_step-IsFresh e s pc fresh)

    -- Wherever the worker stands, unless it has stopped or failed, if no refresh fails and no other
    -- step comes between, the view is fresh after three steps of the worker with a scheduled tick
    -- due, whether or not it was requested.
    pub run_worker-catches_up :
        (s : Server World) (pc : Pc)
        → IsRunning pc
        → IsFresh (db.tables (run_worker db three_ticks (s, pc)).0.world)
    unfolding run_worker on_world
    run_worker-catches_up s (Pc.starting n) running =
        run_worker-IsFresh (Event.scheduled_tick ∷ Event.scheduled_tick ∷ []) _ _
          (works-IsFresh s.world)
    run_worker-catches_up s (Pc.syncing n) running =
        run_worker-IsFresh (Event.scheduled_tick ∷ Event.scheduled_tick ∷ []) _ _
          (works-IsFresh s.world)
    run_worker-catches_up s Pc.waiting running =
        run_worker-IsFresh (Event.scheduled_tick ∷ []) _ _ (works-IsFresh s.world)
    run_worker-catches_up s (Pc.asked false) running = works-IsFresh s.world
    run_worker-catches_up s (Pc.asked true) running =
        run_worker-IsFresh (Event.scheduled_tick ∷ Event.scheduled_tick ∷ []) _ _
          (works-IsFresh s.world)
    run_worker-catches_up s Pc.clearing running = works-IsFresh s.world
    run_worker-catches_up s Pc.stopped running = absurd running
    run_worker-catches_up s Pc.failed running = absurd running

    -- A request is served: from `select`, with the flag raised, if no refresh fails and no other
    -- step comes between, the check, the refresh and the clearing of the flag leave a fresh view,
    -- no request, and the worker at `select`.
    pub run_worker-serves :
        (w : World)
        → IsFresh (db.tables (run_worker db check_round (requested w, Pc.waiting)).0.world)
          × ((run_worker db check_round (requested w, Pc.waiting)).0.to_refresh_views ≡ false)
          × ((run_worker db check_round (requested w, Pc.waiting)).1 ≡ Pc.waiting)
    unfolding run_worker on_world
    run_worker-serves w = rw (works w) (works-IsFresh w, refl, refl)
