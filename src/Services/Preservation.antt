-- ===== src/Services/Preservation.antt =====
-- Every operation of the service component keeps the invariant, and asks for a refresh of the
-- view exactly when it has changed what the view shows.
use go_user_and_service_mgmt.Prelude.{
  ℕ, String, Bool, true, ◌≡◌, refl, ap, arith, count_if, number_comparable, text_comparable, eq_iff,
}
use go_user_and_service_mgmt.Models.{Service, ServiceVersion}
use go_user_and_service_mgmt.Gorm.{
  Action, Result, ok, err, Database, Tables, pure, continue, ◌>>=◌, ◌>>◌,
}
use go_user_and_service_mgmt.Gorm.Laws.{IsRelational, updated_service, updated_version}
use go_user_and_service_mgmt.Services.Operations.{
  Server, on_world, request_refresh, update_service_version, create_service, update_service,
  delete_service, create_service_version, delete_service_version, is_version, service_to_update,
  version_of,
}
use go_user_and_service_mgmt.Services.Effects.{
  AddsService, ChangesService, RemovesService, AddsVersion, ChangesVersion, DropsVersion,
}
use go_user_and_service_mgmt.Services.Writes.{
  insert_service-AddsService, change_service-ChangesService, remove_service-RemovesService,
  insert_version-AddsVersion, update_service_version-ChangesVersion, remove_version-DropsVersion,
}
use go_user_and_service_mgmt.Services.Invariant.{
  IsConsistent, SameRows-IsConsistent, cons-IsConsistent, update_service-IsConsistent,
  remove_service-IsConsistent, add_version-IsConsistent, drop_version-IsConsistent,
  update_version-IsConsistent,
}

abbrev pub IsConsistentTables : Tables → Type 0
IsConsistentTables t = IsConsistent t.service t.version

module _ {World : Type 0} (db : Database World) (before : Tables)
    (c : IsConsistentTables before) where
  AddsService-IsConsistent :
      (name description : String) (x : Result Service × World)
      → AddsService db before name description x
      → IsConsistentTables (db.tables x.1)
  AddsService-IsConsistent name description (ok s, w') (filled, frame, rows, id, key) =
      SameRows-IsConsistent _ _ _ _ (rw filled at rows)
        (λ p. ap (λ (t : Tables). count_if p t.version) frame)
        (cons-IsConsistent before.service before.version c s.id name description id key)
  AddsService-IsConsistent name description (err e, w') (same, _) = rw same c

  ChangesService-IsConsistent :
      (id : ℕ) (name description : String) (x : Result Service × World)
      → ChangesService db before (service_to_update id name description) x
      → IsConsistentTables (db.tables x.1)
  ChangesService-IsConsistent id name description (ok r, w') (_, frame, rows, _, names) =
      let s = service_to_update id name description in
      SameRows-IsConsistent _ _ _ _ rows (λ p. ap (λ (t : Tables). count_if p t.version) frame)
        (update_service-IsConsistent before.service before.version c id (updated_service s)
          (λ x h. ground arith) (λ x. refl) (λ n. rw (rows _) at (names (record s { name = n }))))
  ChangesService-IsConsistent id name description (err e, w') (same, _) = rw same c

  RemovesService-IsConsistent :
      (id : ℕ) (x : Result (Unit {0}) × World)
      → RemovesService db before id x
      → IsConsistentTables (db.tables x.1)
  RemovesService-IsConsistent id (ok _, w') (_, services, versions) =
      SameRows-IsConsistent _ _ _ _ services versions
        (remove_service-IsConsistent before.service before.version c id)
  RemovesService-IsConsistent id (err e, w') same = rw same c

  AddsVersion-IsConsistent :
      {A : Type 0} (v : ServiceVersion) (x : Result A × World)
      → AddsVersion db before v x
      → IsConsistentTables (db.tables x.1)
  AddsVersion-IsConsistent v (ok _, w') (_, services, versions, free, owner) =
      SameRows-IsConsistent _ _ _ _ services versions
        (add_version-IsConsistent before.service before.version c v owner free)
  AddsVersion-IsConsistent v (err e, w') same = rw same c

  ChangesVersion-IsConsistent :
      (v : ServiceVersion) (x : Result ServiceVersion × World)
      → ChangesVersion db before v x
      → IsConsistentTables (db.tables x.1)
  ChangesVersion-IsConsistent v (ok _, w') (_, frame, versions, _) =
      SameRows-IsConsistent _ _ _ _ (λ p. ap (λ (t : Tables). count_if p t.service) frame) versions
        (update_version-IsConsistent before.service before.version c (is_version v.service_id v.tag)
          (updated_version v) (λ x h. ground (arith, eq_iff x.tag v.tag)) (λ x h. ground arith))
  ChangesVersion-IsConsistent v (err e, w') (same, _) = rw same c

  DropsVersion-IsConsistent :
      (id : ℕ) (tag : String) (x : Result (Unit {0}) × World)
      → DropsVersion db before id tag x
      → IsConsistentTables (db.tables x.1)
  DropsVersion-IsConsistent id tag (ok _, w') (_, services, versions, present) =
      SameRows-IsConsistent _ _ _ _ services versions
        (drop_version-IsConsistent before.service before.version c id tag present)
  DropsVersion-IsConsistent id tag (err e, w') same = rw same c

-- What the flag is after an operation that ended so.
abbrev pub flag_after {ℓ} : {A : Type ℓ} → Result A → Bool → Bool
flag_after (ok _) _ = true
flag_after (err _) flag = flag

module _ {World A : Type 0} where
  unfoldable pub after : Result A × World → Bool → Result A × Server World
  after (r, w) flag = (r, record { world = w; to_refresh_views = flag_after r flag })

  continue-after :
      (r : Result A) (w : World) (flag : Bool)
      → continue r (λ a. request_refresh >> pure a) (record { world = w; to_refresh_views = flag })
        ≡ after (r, w) flag
  unfolding ◌>>=◌ request_refresh after
  continue-after (ok a) w flag = refl
  continue-after (err e) w flag = refl

  -- A database part with the raising of the flag behind it.
  pub marked :
      (m : Action World A) (s : Server World)
      → (on_world m >>= λ a. request_refresh >> pure a) s ≡ after (m s.world) s.to_refresh_views
  unfolding on_world ◌>>=◌
  marked m s = continue-after (m s.world).0 (m s.world).1 s.to_refresh_views

module _ {World : Type 0} (db : Database World) (laws : IsRelational db) (s : Server World) where
  -- Whether it succeeds or fails, each writing operation of the service component keeps service
  -- names and ids and version tags distinct, every version with its service, and every
  -- `VersionCount` equal to the number of the service's versions.
  pub service_operations-IsConsistent :
      IsConsistentTables (db.tables s.world)
      → (id : ℕ) (name description tag info : String)
      → IsConsistentTables (db.tables (create_service db name description s).1.world)
        × IsConsistentTables (db.tables (update_service db id name description s).1.world)
        × IsConsistentTables (db.tables (delete_service db id s).1.world)
        × IsConsistentTables (db.tables (create_service_version db id tag info s).1.world)
        × IsConsistentTables (db.tables (update_service_version db id tag info s.world).1)
        × IsConsistentTables (db.tables (delete_service_version db id tag s).1.world)
  unfolding create_service update_service delete_service create_service_version
      delete_service_version after
  service_operations-IsConsistent c id name description tag info =
      let w = s.world in
      let t = db.tables w in
      (
        rw marked (
            AddsService-IsConsistent db t c name description _
              (insert_service-AddsService db laws w name description)),
        rw marked (
            ChangesService-IsConsistent db t c id name description _
              (change_service-ChangesService db laws w id name description)),
        rw marked
            (RemovesService-IsConsistent db t c id _ (remove_service-RemovesService db laws w id)),
        rw marked (
            AddsVersion-IsConsistent db t c (version_of id tag info) _
              (insert_version-AddsVersion db laws w id tag info)),
        ChangesVersion-IsConsistent db t c (version_of id tag info) _
            (update_service_version-ChangesVersion db laws w id tag info),
        rw marked (
            DropsVersion-IsConsistent db t c id tag _
              (remove_version-DropsVersion db laws w id tag)),
      )

  -- The five operations that change services or version counts raise `toRefreshViews` if they
  -- succeed, and leave it as it was if they fail.
  pub service_operations-flag :
      (id : ℕ) (name description tag info : String)
      → ((create_service db name description s).1.to_refresh_views
          ≡ flag_after (create_service db name description s).0 s.to_refresh_views)
        × ((update_service db id name description s).1.to_refresh_views
            ≡ flag_after (update_service db id name description s).0 s.to_refresh_views)
        × ((delete_service db id s).1.to_refresh_views
            ≡ flag_after (delete_service db id s).0 s.to_refresh_views)
        × ((create_service_version db id tag info s).1.to_refresh_views
            ≡ flag_after (create_service_version db id tag info s).0 s.to_refresh_views)
        × ((delete_service_version db id tag s).1.to_refresh_views
            ≡ flag_after (delete_service_version db id tag s).0 s.to_refresh_views)
  unfolding create_service update_service delete_service create_service_version
      delete_service_version after
  service_operations-flag id name description tag info =
      (rw marked, rw marked, rw marked, rw marked, rw marked)
