-- ===== src/Services/Bodies.antt =====
-- The checks that the operations begin with, and the bodies of their transactions.
use go_user_and_service_mgmt.Prelude.{
  count_if, ◌<◌, ℕ, String, not, List, ◌≡◌, refl, arith, filter, text_comparable, number_comparable,
}
use go_user_and_service_mgmt.Models.{ServiceVersion}
use go_user_and_service_mgmt.Gorm.{Result, ok, err, Database, Tables}
use go_user_and_service_mgmt.Gorm.Laws.{IsRelational, Refers, Creates, Writes, version_schema}
use go_user_and_service_mgmt.Gorm.Rules.{on-call, on-count, on-set_columns, on-delete}
use go_user_and_service_mgmt.Services.Operations.{
  check_if_service_exist, check_if_version_for_service_exist, delete_service_rows,
  create_version_rows, delete_version_rows, has_service_id, of_service, is_version, one_more,
  one_less, pass_not_found,
}
use go_user_and_service_mgmt.Services.Effects.{
  Checks, RemovesService, AddsVersion, DropsVersion, LowersCount, IfOk, occurs,
}

-- A write to the versions and one to the services leave the other tables alone.
two_writes :
    (t₂ t₁ before : Tables)
    → t₂ ≡ record t₁ { service = t₂.service }
    → t₁ ≡ record before { version = t₁.version }
    → (t₂ ≡ record before { service = t₂.service; version = t₂.version })
      × (t₂.version ≡ t₁.version)
      × (t₁.service ≡ before.service)
two_writes t₂ t₁ before second first = ground arith

module _ {World : Type 0} (db : Database World) (laws : IsRelational db) where
  -- `CheckIfServiceExist` reports whether a service has the id, or fails, and changes nothing.
  pub check_if_service_exist-Checks :
      (id : ℕ) (w : World)
      → Checks db
          (db.tables w)
          (occurs (has_service_id id) (db.tables w).service)
          (check_if_service_exist db id w)
  unfolding check_if_service_exist
  check_if_service_exist-Checks id w =
      on-count (Checks db (db.tables w) (occurs (has_service_id id) (db.tables w).service))
        db.tables laws.services_lem.readable (has_service_id id) _ _ refl (λ w₁ e₁. (e₁, refl))
        (λ e w₁ e₁. (e₁, refl))

  -- So does `CheckIfVersionForServiceExist` for a version.
  pub check_if_version_for_service_exist-Checks :
      (id : ℕ) (tag : String) (w : World)
      → Checks db
          (db.tables w)
          (occurs (is_version id tag) (db.tables w).version)
          (check_if_version_for_service_exist db id tag w)
  unfolding check_if_version_for_service_exist
  check_if_version_for_service_exist-Checks id tag w =
      on-count (Checks db (db.tables w) (occurs (is_version id tag) (db.tables w).version))
        db.tables laws.versions_lem.readable (is_version id tag) _ _ refl (λ w₁ e₁. (e₁, refl))
        (λ e w₁ e₁. (e₁, refl))

  -- The deletion of no row is no failure.
  pass_not_found-Writes :
      (before : Tables) (rows : List ServiceVersion) (x : Result (Unit {0}) × World)
      → Writes db.tables before version_schema rows x
      → Writes db.tables before version_schema rows (pass_not_found x)
  pass_not_found-Writes before rows (ok _, w') h = h
  pass_not_found-Writes before rows (err e, w') (same, found) = rw found (same, refl)

  module _ (before : Tables) (w : World) (start : db.tables w ≡ before) where
    pub delete_service_rows-RemovesService :
        (id : ℕ) → IfOk (RemovesService db before id) (delete_service_rows db id w)
    unfolding delete_service_rows
    delete_service_rows-RemovesService id =
        let Q = IfOk (RemovesService db before id) in
        let left = filter (λ v. not (of_service id v)) before.version in
        on-call Q (Writes db.tables before version_schema left) _ _ _ w
          (pass_not_found-Writes before left _
            (rw start at (laws.versions_lem.delete_lem (of_service id) w)))
          (λ _ w₁ (frame, versions).
            on-delete Q db.tables laws.services_lem (has_service_id id) _ _ refl
              (λ w₂ (frame₂, services).
                let (frames, kept, old) =
                  two_writes (db.tables w₂) (db.tables w₁) before frame₂ frame in
                (frames, λ p. rw (← old) (services p), λ p. rw kept (versions p)))
              (λ e w₂ e₂ found. tt))
          (λ e w₁ h. tt)

    pub create_version_rows-AddsVersion :
        (v : ServiceVersion) → IfOk (AddsVersion db before v) (create_version_rows db v w)
    unfolding create_version_rows
    create_version_rows-AddsVersion v =
        let Q = IfOk (AddsVersion db before {A = Unit {0}} v) in
        let P = λ (x : Result ServiceVersion × World).
          Creates db.tables before version_schema v x × Refers before v x in
        on-call Q P _ _ _ w
          (rw start at (laws.versions_lem.create_lem v w), rw start at (laws.foreign_key v w))
          (λ r w₁ ((frame, filled, versions, _, free), owner).
            on-set_columns Q db.tables laws.services_lem (has_service_id v.service_id) one_more _ _
              refl
              (λ w₂ (frame₂, services).
                let (frames, kept, old) =
                  two_writes (db.tables w₂) (db.tables w₁) before frame₂ frame in
                (
                  frames,
                  λ p. rw (← old) (services p),
                  λ p. rw (kept, ← filled) (versions p),
                  free,
                  owner,
                ))
              (λ e w₂ e₂ found. tt))
          (λ e w₁ h. tt)

    pub delete_version_rows-LowersCount :
        (id : ℕ) (tag : String)
        → IfOk (LowersCount db before id tag) (delete_version_rows db id tag w)
    unfolding delete_version_rows
    delete_version_rows-LowersCount id tag =
        let Q = IfOk (LowersCount db before id tag) in
        on-delete Q db.tables laws.versions_lem (is_version id tag) _ _ start
          (λ w₁ (frame, versions).
            on-set_columns Q db.tables laws.services_lem (has_service_id id) one_less _ _ refl
              (λ w₂ (frame₂, services).
                let (frames, kept, old) =
                  two_writes (db.tables w₂) (db.tables w₁) before frame₂ frame in
                (frames, λ p. rw (← old) (services p), λ p. rw kept (versions p)))
              (λ e w₂ e₂ found. tt))
          (λ e w₁ h found. tt)

    LowersCount-DropsVersion :
        (id : ℕ) (tag : String) (x : Result (Unit {0}) × World)
        → 0 < count_if (is_version id tag) before.version
        → IfOk (LowersCount db before id tag) x
        → IfOk (DropsVersion db before id tag) x
    LowersCount-DropsVersion id tag (ok _, w') present (frame, services, versions) =
        (frame, services, versions, present)
    LowersCount-DropsVersion id tag (err e, w') present h = tt

    pub delete_version_rows-DropsVersion :
        (id : ℕ) (tag : String)
        → 0 < count_if (is_version id tag) before.version
        → IfOk (DropsVersion db before id tag) (delete_version_rows db id tag w)
    delete_version_rows-DropsVersion id tag present =
        LowersCount-DropsVersion id tag (delete_version_rows db id tag w) present
          (delete_version_rows-LowersCount id tag)
