-- ===== src/Services/Worker/Served.antt =====
-- When the sorted view is served, and that the worker's own steps keep it so.
use go_user_and_service_mgmt.Prelude.{
  ℕ, suc, Bool, true, false, ◌≡◌, ◌⊎◌, ◌<◌, refl, sym, ap, ◌∙◌, inl, inr, count_if, ltb, Bool-cases,
}
use go_user_and_service_mgmt.Gorm.{Result, ok, err, Database, Tables}
use go_user_and_service_mgmt.Gorm.Laws.{IsRelational, Refreshes}
use go_user_and_service_mgmt.Services.Operations.{Server, on_world}
use go_user_and_service_mgmt.Services.Worker.{
  Pc, Event, after_attempt, after_refresh, max_attempts, worker_step,
}
use go_user_and_service_mgmt.Services.Worker.System.{System, IsFresh, OutsideWindow}

-- A process that has not ended.
abbrev pub IsRunning : Pc → Type 0
IsRunning Pc.stopped = ⊥
IsRunning Pc.failed = ⊥
IsRunning _ = Unit

-- Unless the worker has yet to make its first refresh, the view is fresh, or a refresh is
-- requested, or about to be. The flag counts for nothing once it is about to be cleared.
abbrev pub IsServed : Bool → ℕ → Tables → Pc → Type 0
IsServed flag pending t (Pc.starting _) = Unit
IsServed flag pending t Pc.failed = Unit
IsServed flag pending t Pc.clearing = IsFresh t ⊎ (0 < pending)
IsServed flag pending t _ = IsFresh t ⊎ ((flag ≡ true) ⊎ (0 < pending))

abbrev pub IsServedSystem : {World : Type 0} → Database World → System World → Type 0
IsServedSystem db s = IsServed s.server.to_refresh_views s.pending (db.tables s.server.world) s.pc

-- What freshness depends on.
pub IsFresh-same :
    (t u : Tables)
    → u.service ≡ t.service
    → u.name_sorted_service ≡ t.name_sorted_service
    → IsFresh t
    → IsFresh u
IsFresh-same t u services view fresh = rw (services, view) fresh

pub IsServed-same :
    (flag : Bool) (pending : ℕ) (t u : Tables) (pc : Pc)
    → (IsFresh t → IsFresh u)
    → IsServed flag pending t pc
    → IsServed flag pending u pc
IsServed-same flag pending t u (Pc.starting n) keep h = tt
IsServed-same flag pending t u Pc.failed keep h = tt
IsServed-same flag pending t u Pc.clearing keep (inl fresh) = inl (keep fresh)
IsServed-same flag pending t u Pc.clearing keep (inr h) = inr h
IsServed-same flag pending t u (Pc.syncing n) keep (inl fresh) = inl (keep fresh)
IsServed-same flag pending t u (Pc.syncing n) keep (inr h) = inr h
IsServed-same flag pending t u Pc.waiting keep (inl fresh) = inl (keep fresh)
IsServed-same flag pending t u Pc.waiting keep (inr h) = inr h
IsServed-same flag pending t u (Pc.asked b) keep (inl fresh) = inl (keep fresh)
IsServed-same flag pending t u (Pc.asked b) keep (inr h) = inr h
IsServed-same flag pending t u Pc.stopped keep (inl fresh) = inl (keep fresh)
IsServed-same flag pending t u Pc.stopped keep (inr h) = inr h

-- A request that is on its way serves at every place.
pub IsServed-pending :
    (flag : Bool) (pending : ℕ) (t : Tables) (pc : Pc) → 0 < pending → IsServed flag pending t pc
IsServed-pending flag pending t (Pc.starting n) h = tt
IsServed-pending flag pending t Pc.failed h = tt
IsServed-pending flag pending t Pc.clearing h = inr h
IsServed-pending flag pending t (Pc.syncing n) h = inr (inr h)
IsServed-pending flag pending t Pc.waiting h = inr (inr h)
IsServed-pending flag pending t (Pc.asked b) h = inr (inr h)
IsServed-pending flag pending t Pc.stopped h = inr (inr h)

-- The raised flag serves outside the window.
pub IsServed-flag :
    (pending : ℕ) (t : Tables) (pc : Pc) → OutsideWindow pc → IsServed true pending t pc
IsServed-flag pending t (Pc.starting n) out = tt
IsServed-flag pending t Pc.failed out = tt
IsServed-flag pending t Pc.clearing out = absurd (out refl)
IsServed-flag pending t (Pc.syncing n) out = inr (inl refl)
IsServed-flag pending t Pc.waiting out = inr (inl refl)
IsServed-flag pending t (Pc.asked b) out = inr (inl refl)
IsServed-flag pending t Pc.stopped out = inr (inl refl)

module _ {World : Type 0} (db : Database World) where
  -- A refresh that succeeds makes the view fresh; one that fails does not make it stale.
  pub refresh-IsFresh :
      (before : Tables) (u : Unit {0}) (w : World)
      → Refreshes db.tables before (ok u, w)
      → IsFresh (db.tables w)
  refresh-IsFresh before u w (frame, rows) p =
      rows p ∙ ap (λ (t : Tables). count_if p t.service) (sym frame)

  attempt-IsServed :
      (flag : Bool) (pending n : ℕ) (before : Tables) (x : Result (Unit {0}) × World)
      → Refreshes db.tables before x
      → IsServed flag pending before (Pc.syncing n)
      → IsServed flag pending (db.tables x.1) (after_attempt Pc.syncing n x.0)
  attempt-IsServed flag pending n before (ok u, w) h served = inl (refresh-IsFresh before u w h)
  attempt-IsServed flag pending n before (err e, w) same served =
      elim (Bool-cases (ltb (suc n) max_attempts)) [
        | inl more ↦ rw (more, same) served
        | inr over ↦ rw over tt
      ]

  start-IsServed :
      (flag : Bool) (pending n : ℕ) (before : Tables) (x : Result (Unit {0}) × World)
      → Refreshes db.tables before x
      → IsServed flag pending (db.tables x.1) (after_attempt Pc.starting n x.0)
  start-IsServed flag pending n before (ok u, w) h = inl (refresh-IsFresh before u w h)
  start-IsServed flag pending n before (err e, w) same =
      elim (Bool-cases (ltb (suc n) max_attempts)) [ inl more ↦ rw more tt | inr over ↦ rw over tt ]

  refresh-IsServed :
      (flag : Bool) (pending : ℕ) (before : Tables) (x : Result (Unit {0}) × World)
      → Refreshes db.tables before x
      → IsServed flag pending before Pc.waiting
      → IsServed flag pending (db.tables x.1) (after_refresh x.0)
  refresh-IsServed flag pending before (ok u, w) h served = inl (refresh-IsFresh before u w h)
  refresh-IsServed flag pending before (err e, w) same served = rw same served

  module _ (laws : IsRelational db) where
    pub work-IsServed :
        (e : Event) (s : Server World) (pc : Pc) (pending : ℕ)
        → IsServed s.to_refresh_views pending (db.tables s.world) pc
        → IsServed
            (worker_step db e (s, pc)).0.to_refresh_views
            pending
            (db.tables (worker_step db e (s, pc)).0.world)
            (worker_step db e (s, pc)).1
    unfolding worker_step on_world
    work-IsServed e s (Pc.starting n) pending h =
        start-IsServed s.to_refresh_views pending n (db.tables s.world) (db.refresh_view s.world)
          (laws.refresh_lem s.world)
    work-IsServed e s (Pc.syncing n) pending h =
        attempt-IsServed s.to_refresh_views pending n (db.tables s.world) (db.refresh_view s.world)
          (laws.refresh_lem s.world) h
    work-IsServed Event.done s Pc.waiting pending h = h
    work-IsServed Event.scheduled_tick s Pc.waiting pending h = h
    work-IsServed Event.check_tick s Pc.waiting pending h = h
    work-IsServed e s (Pc.asked false) pending h = h
    work-IsServed e s (Pc.asked true) pending h =
        refresh-IsServed s.to_refresh_views pending (db.tables s.world) (db.refresh_view s.world)
          (laws.refresh_lem s.world) h
    work-IsServed e s Pc.clearing pending (inl fresh) = inl fresh
    work-IsServed e s Pc.clearing pending (inr h) = inr (inr h)
    work-IsServed e s Pc.stopped pending h = h
    work-IsServed e s Pc.failed pending h = tt
