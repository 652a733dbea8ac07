-- ===== src/Services/Frames.antt =====
-- The operations of services and versions leave the users alone.
use go_user_and_service_mgmt.Prelude.{ℕ, String, ◌≡◌, ap}
use go_user_and_service_mgmt.Models.{Service, ServiceVersion}
use go_user_and_service_mgmt.Gorm.{Result, ok, err, Database, Tables}
use go_user_and_service_mgmt.Gorm.Laws.{IsRelational}
use go_user_and_service_mgmt.Services.Operations.{
  Server, create_service, update_service, delete_service, create_service_version,
  update_service_version, delete_service_version, service_to_update, version_of,
}
use go_user_and_service_mgmt.Services.Effects.{
  AddsService, ChangesService, RemovesService, AddsVersion, ChangesVersion, DropsVersion,
}
use go_user_and_service_mgmt.Services.Writes.{
  insert_service-AddsService, change_service-ChangesService, remove_service-RemovesService,
  insert_version-AddsVersion, update_service_version-ChangesVersion, remove_version-DropsVersion,
}
use go_user_and_service_mgmt.Services.Preservation.{marked, after}

module _ {World : Type 0} (db : Database World) (before : Tables) where
  abbrev pub SameUsers : World → Type 0
  SameUsers w' = (db.tables w').user ≡ before.user

  AddsService-users :
      (name description : String) (x : Result Service × World)
      → AddsService db before name description x
      → SameUsers x.1
  AddsService-users name description (ok s, w') h = ap (λ (t : Tables). t.user) h.1
  AddsService-users name description (err e, w') h = ap (λ (t : Tables). t.user) h.0

  ChangesService-users :
      (s : Service) (x : Result Service × World) → ChangesService db before s x → SameUsers x.1
  ChangesService-users s (ok r, w') h = ap (λ (t : Tables). t.user) h.1
  ChangesService-users s (err e, w') h = ap (λ (t : Tables). t.user) h.0

  RemovesService-users :
      (id : ℕ) (x : Result (Unit {0}) × World) → RemovesService db before id x → SameUsers x.1
  RemovesService-users id (ok _, w') h = ap (λ (t : Tables). t.user) h.0
  RemovesService-users id (err e, w') same = ap (λ (t : Tables). t.user) same

  AddsVersion-users :
      {A : Type 0} (v : ServiceVersion) (x : Result A × World)
      → AddsVersion db before v x
      → SameUsers x.1
  AddsVersion-users v (ok _, w') h = ap (λ (t : Tables). t.user) h.0
  AddsVersion-users v (err e, w') same = ap (λ (t : Tables). t.user) same

  ChangesVersion-users :
      (v : ServiceVersion) (x : Result ServiceVersion × World)
      → ChangesVersion db before v x
      → SameUsers x.1
  ChangesVersion-users v (ok r, w') h = ap (λ (t : Tables). t.user) h.1
  ChangesVersion-users v (err e, w') h = ap (λ (t : Tables). t.user) h.0

  DropsVersion-users :
      (id : ℕ) (tag : String) (x : Result (Unit {0}) × World)
      → DropsVersion db before id tag x
      → SameUsers x.1
  DropsVersion-users id tag (ok _, w') h = ap (λ (t : Tables). t.user) h.0
  DropsVersion-users id tag (err e, w') same = ap (λ (t : Tables). t.user) same

module _ {World : Type 0} (db : Database World) (laws : IsRelational db) (s : Server World) where
  pub service_operations-users :
      (id : ℕ) (name description tag info : String)
      → SameUsers db (db.tables s.world) (create_service db name description s).1.world
        × SameUsers db (db.tables s.world) (update_service db id name description s).1.world
        × SameUsers db (db.tables s.world) (delete_service db id s).1.world
        × SameUsers db (db.tables s.world) (create_service_version db id tag info s).1.world
        × SameUsers db (db.tables s.world) (update_service_version db id tag info s.world).1
        × SameUsers db (db.tables s.world) (delete_service_version db id tag s).1.world
  unfolding create_service update_service delete_service create_service_version
      delete_service_version after
  service_operations-users id name description tag info =
      let w = s.world in
      (
        rw marked (
            AddsService-users db (db.tables w) name description _
              (insert_service-AddsService db laws w name description)),
        rw marked (
            ChangesService-users db (db.tables w) (service_to_update id name description) _
              (change_service-ChangesService db laws w id name description)),
        rw marked (
            RemovesService-users db (db.tables w) id _
              (remove_service-RemovesService db laws w id)),
        rw marked (
            AddsVersion-users db (db.tables w) (version_of id tag info) _
              (insert_version-AddsVersion db laws w id tag info)),
        ChangesVersion-users db (db.tables w) (version_of id tag info) _
            (update_service_version-ChangesVersion db laws w id tag info),
        rw marked (
            DropsVersion-users db (db.tables w) id tag _
              (remove_version-DropsVersion db laws w id tag)),
      )
