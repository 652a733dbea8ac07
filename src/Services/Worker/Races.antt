-- ===== src/Services/Worker/Races.antt =====
-- What can go wrong between the worker and the requests.
use go_user_and_service_mgmt.Prelude.{
  String, Bool, true, false, ◌≡◌, refl, ap, subst, arith, count_if,
}
use go_user_and_service_mgmt.Models.{Service}
use go_user_and_service_mgmt.Gorm.{ok, Database, Tables}
use go_user_and_service_mgmt.Gorm.Laws.{IsRelational, Refreshes}
use go_user_and_service_mgmt.Services.Operations.{on_world, insert_service}
use go_user_and_service_mgmt.Services.Effects.{AddsService}
use go_user_and_service_mgmt.Services.Writes.{insert_service-AddsService}
use go_user_and_service_mgmt.Services.Worker.Served.{refresh-IsFresh}
use go_user_and_service_mgmt.Services.Worker.{Pc, Event, worker_step}
use go_user_and_service_mgmt.Services.Worker.System.{
  Write, run_write, System, Step, Reach, IsFresh, Anywhere,
}

module _ {World : Type 0} (db : Database World) where
  abbrev pub at_select : World → Bool → System World
  at_select w flag = record {
    server = record { world = w; to_refresh_views = flag };
    pc = Pc.waiting;
    pending = 0;
  }

  then_step :
      {s t u v : System World}
      → Reach db Anywhere s t
      → Step db Anywhere t u
      → u ≡ v
      → Reach db Anywhere s v
  then_step {s} r step e = subst (Reach db Anywhere s) e (Reach.next r step)

  -- A service that is added after the refresh makes the view stale.
  added-stale :
      (before : Tables) (name description : String) (created : Service) (w : World)
      → AddsService db before name description (ok created, w)
      → IsFresh before
      → ¬ IsFresh (db.tables w)
  added-stale before name description created w (_, frame, rows, _, _) old new =
      let all = λ (_ : Service). true in
      let view : count_if all (db.tables w).name_sorted_service
          ≡ count_if all before.name_sorted_service =
        ap (λ (t : Tables). count_if all t.name_sorted_service) frame in
      omega (arith, view, rows all, old all, new all)

  -- A request is lost: if the refresh that the flag asks for succeeds and a service is created
  -- before the flag is cleared, the server reaches a state in which the worker waits, no refresh
  -- is requested nor about to be, and the view is stale.
  pub lost_request :
      IsRelational db
      → (w w₁ w₂ : World) (name description : String) (created : Service)
      → db.refresh_view w ≡ (ok tt, w₁)
      → insert_service db name description w₁ ≡ (ok created, w₂)
      → Reach db Anywhere (at_select w true) (at_select w₂ false) × ¬ IsFresh (db.tables w₂)
  unfolding worker_step on_world run_write
  lost_request laws w w₁ w₂ name description created refresh insert =
      let s₁ = record (at_select w true) { pc = Pc.asked true } in
      let r₁ = then_step {v = s₁} Reach.here (Step.work Event.check_tick) refl in
      let s₂ = record (at_select w₁ true) { pc = Pc.clearing } in
      let r₂ = then_step {v = s₂} r₁ (Step.work Event.check_tick) (rw refresh refl) in
      let s₃ = record (at_select w₂ true) { pc = Pc.clearing; pending = 1 } in
      let r₃ =
        then_step {v = s₃} r₂ (Step.write (Write.create name description)) (rw insert refl) in
      let s₄ = record (at_select w₂ true) { pc = Pc.clearing } in
      let r₄ = then_step {v = s₄} r₃ (Step.raise 0 refl tt) refl in
      let fresh =
        refresh-IsFresh db (db.tables w) tt w₁
          (subst (Refreshes db.tables (db.tables w)) refresh (laws.refresh_lem w)) in
      let added =
        subst (AddsService db (db.tables w₁) name description) insert
          (insert_service-AddsService db laws w₁ name description) in
      (
        then_step r₄ (Step.work Event.check_tick) refl,
        added-stale (db.tables w₁) name description created w₂ added fresh,
      )
