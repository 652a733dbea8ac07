-- ===== src/Services/Worker/Laws.antt =====
-- What the worker achieves, and what holds while it runs among the requests.
use go_user_and_service_mgmt.Prelude.{suc, false, ◌≡◌, inl, inr, arith, Bool-cases, true≢false}
use go_user_and_service_mgmt.Gorm.{Result, ok, err, Database, Tables}
use go_user_and_service_mgmt.Gorm.Laws.{IsRelational}
use go_user_and_service_mgmt.Errors.{GoError}
use go_user_and_service_mgmt.Services.Operations.{
  insert_service, change_service, remove_service, insert_version, remove_version, service_to_update,
  version_of,
}
use go_user_and_service_mgmt.Services.Effects.{
  AddsService, ChangesService, RemovesService, AddsVersion, DropsVersion,
}
use go_user_and_service_mgmt.Services.Writes.{
  insert_service-AddsService, change_service-ChangesService, remove_service-RemovesService,
  insert_version-AddsVersion, remove_version-DropsVersion,
}
use go_user_and_service_mgmt.Services.Worker.Served.{
  IsServedSystem, IsServed-same, IsFresh-same, IsServed-pending, IsServed-flag, work-IsServed,
}
use go_user_and_service_mgmt.Services.Worker.System.{
  Write, ended, run_write, System, Step, Reach, initial, OutsideWindow,
}

module _ {World : Type 0} (db : Database World) (laws : IsRelational db) where
  ended-same :
      {A : Type 0} (P : Result A × World → Type 0) (before : Tables) (x : Result A × World)
      → P x
      → ((e : GoError) (w : World) → P (err e, w) → db.tables w ≡ before)
      → (ended x).0 ≡ false
      → db.tables (ended x).1 ≡ before
  ended-same P before (ok a, w) h same failed = absurd (true≢false failed)
  ended-same P before (err e, w) h same failed = same e w h

  -- An operation that fails leaves the tables as they were.
  run_write-same :
      (op : Write) (w : World)
      → (run_write db op w).0 ≡ false
      → db.tables (run_write db op w).1 ≡ db.tables w
  unfolding run_write
  run_write-same (Write.create name description) w =
      ended-same (AddsService db (db.tables w) name description) (db.tables w)
        (insert_service db name description w)
        (insert_service-AddsService db laws w name description) (λ e w₁ h. h.0)
  run_write-same (Write.update id name description) w =
      ended-same (ChangesService db (db.tables w) (service_to_update id name description))
        (db.tables w) (change_service db id name description w)
        (change_service-ChangesService db laws w id name description) (λ e w₁ h. h.0)
  run_write-same (Write.delete id) w =
      ended-same (RemovesService db (db.tables w) id) (db.tables w) (remove_service db id w)
        (remove_service-RemovesService db laws w id) (λ e w₁ h. h)
  run_write-same (Write.create_version id tag info) w =
      ended-same (AddsVersion db (db.tables w) (version_of id tag info)) (db.tables w)
        (insert_version db id tag info w) (insert_version-AddsVersion db laws w id tag info)
        (λ e w₁ h. h)
  run_write-same (Write.delete_version id tag) w =
      ended-same (DropsVersion db (db.tables w) id tag) (db.tables w) (remove_version db id tag w)
        (remove_version-DropsVersion db laws w id tag) (λ e w₁ h. h)

  Step-IsServed :
      {s t : System World} → Step db OutsideWindow s t → IsServedSystem db s → IsServedSystem db t
  Step-IsServed {s} (Step.work e) h = work-IsServed db laws e s.server s.pc s.pending h
  Step-IsServed {s} (Step.write op) h = elim (Bool-cases (run_write db op s.server.world).0) [
    | inl written ↦ rw written (
        IsServed-pending s.server.to_refresh_views (suc s.pending)
          (db.tables (run_write db op s.server.world).1) s.pc (omega arith))
    | inr failed ↦ rw (failed, run_write-same op s.server.world failed) h
  ]
  Step-IsServed {s} (Step.raise n one out) h = IsServed-flag n (db.tables s.server.world) s.pc out
  Step-IsServed {s} (Step.other w services view) h =
      IsServed-same s.server.to_refresh_views s.pending (db.tables s.server.world) (db.tables w)
        s.pc (IsFresh-same (db.tables s.server.world) (db.tables w) services view) h

  -- In every state that the server reaches, if no operation raises the flag between the
  -- worker's refresh and its clearing of the flag, then, once the first refresh is through, the
  -- view is fresh, or a refresh is requested, or an operation that has written is about to
  -- request one.
  pub Reach-IsServed :
      {w : World} {s : System World} → Reach db OutsideWindow (initial w) s → IsServedSystem db s
  Reach-IsServed Reach.here = tt
  Reach-IsServed (Reach.next r step) = Step-IsServed step (Reach-IsServed r)
