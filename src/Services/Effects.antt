-- ===== src/Services/Effects.antt =====
-- What the operations of internal/components/service/operations.go may do to the tables, as
-- predicates on how a call ended.
use go_user_and_service_mgmt.Prelude.{
  ℕ, pos, ◌+ℤ◌, ◌-ℤ◌, String, Bool, not, List, ◌∷◌, ◌≡◌, ◌⊎◌, ◌<◌, ◌≤◌, count_if, filter, SameRows,
  ◌==◌, ◌&&◌, text_comparable, number_comparable,
}
use go_user_and_service_mgmt.Errors.{GoError}
use go_user_and_service_mgmt.Models.{Service, ServiceVersion}
use go_user_and_service_mgmt.Gorm.{Result, ok, err, Database, Tables}
use go_user_and_service_mgmt.Gorm.Laws.{update_where, updated_service, updated_version}

module _ {World : Type 0} (db : Database World) (before : Tables) where
  abbrev pub OnlyServices : World → Type 0
  OnlyServices w' = db.tables w' ≡ record before { service = (db.tables w').service }

  abbrev pub OnlyVersions : World → Type 0
  OnlyVersions w' = db.tables w' ≡ record before { version = (db.tables w').version }

  -- The services and the versions may have changed, nothing else.
  abbrev pub OnlyServicesAndVersions : World → Type 0
  OnlyServicesAndVersions w' =
      db.tables w'
      ≡ record before { service = (db.tables w').service; version = (db.tables w').version }

  -- A check answers the question, or fails, and changes nothing.
  abbrev pub Checks : Bool → Result Bool × World → Type 0
  Checks answer (ok b, w') = (db.tables w' ≡ before) × (b ≡ answer)
  Checks answer (err e, w') = (db.tables w' ≡ before) × (e ≡ GoError.internal)

  -- One service is added, without versions, under a fresh key and a name that was not in use.
  abbrev pub AddsService : String → String → Result Service × World → Type 0
  AddsService name description (ok s, w') =
      (s ≡ record { id = s.id; name = name; description = description; version_count = pos 0 })
      × OnlyServices w'
      × SameRows (db.tables w').service (s ∷ before.service)
      × (count_if (λ x. x.id == s.id) before.service ≡ 0)
      × (count_if (λ x. x.name == name) before.service ≡ 0)
  AddsService name description (err e, w') =
      (db.tables w' ≡ before)
      × ((e ≡ GoError.internal)
          ⊎ ((e ≡ GoError.service_already_exists)
              × (0 < count_if (λ x. x.name == name) before.service)))

  abbrev pub ChangesService : Service → Result Service × World → Type 0
  ChangesService s (ok r, w') =
      (r ≡ s)
      × OnlyServices w'
      × SameRows (db.tables w').service
          (update_where (λ x. x.id == s.id) (updated_service s) before.service)
      × (0 < count_if (λ x. x.id == s.id) before.service)
      × ((r : Service) → count_if (λ x. x.name == r.name) (db.tables w').service ≤ 1)
  ChangesService s (err e, w') =
      (db.tables w' ≡ before)
      × ((e ≡ GoError.internal)
          ⊎ ((e ≡ GoError.service_does_not_exist)
              × (count_if (λ x. x.id == s.id) before.service ≡ 0))
          ⊎ (e ≡ GoError.service_already_exists))

  -- The service and its versions are gone, together.
  abbrev pub RemovesService : ℕ → Result (Unit {0}) × World → Type 0
  RemovesService id (ok _, w') =
      OnlyServicesAndVersions w'
      × SameRows (db.tables w').service (filter (λ s. not (s.id == id)) before.service)
      × SameRows (db.tables w').version (filter (λ v. not (v.service_id == id)) before.version)
  RemovesService id (err e, w') = db.tables w' ≡ before

  -- The version is added, and the count of its service raised, together.
  abbrev pub AddsVersion : {A : Type 0} → ServiceVersion → Result A × World → Type 0
  AddsVersion v (ok _, w') =
      OnlyServicesAndVersions w'
      × SameRows (db.tables w').service (
          update_where (λ x. x.id == v.service_id)
            (λ s. record s { version_count = s.version_count +ℤ pos 1 }) before.service)
      × SameRows (db.tables w').version (v ∷ before.version)
      × (count_if (λ x. x.tag == v.tag && x.service_id == v.service_id) before.version ≡ 0)
      × (0 < count_if (λ x. x.id == v.service_id) before.service)
  AddsVersion v (err e, w') = db.tables w' ≡ before

  abbrev pub ChangesVersion : ServiceVersion → Result ServiceVersion × World → Type 0
  ChangesVersion v (ok r, w') =
      (r ≡ v)
      × OnlyVersions w'
      × SameRows (db.tables w').version (
          update_where (λ x. x.tag == v.tag && x.service_id == v.service_id) (updated_version v)
            before.version)
      × (0 < count_if (λ x. x.tag == v.tag && x.service_id == v.service_id) before.version)
  ChangesVersion v (err e, w') =
      (db.tables w' ≡ before)
      × ((e ≡ GoError.internal)
          ⊎ ((e ≡ GoError.service_version_does_not_exist)
              × (count_if (λ x. x.tag == v.tag && x.service_id == v.service_id) before.version
                  ≡ 0)))

  -- The rows of the version are gone, if there were any, and the count of its service is lowered.
  abbrev pub LowersCount : ℕ → String → Result (Unit {0}) × World → Type 0
  LowersCount id tag (ok _, w') =
      OnlyServicesAndVersions w'
      × SameRows (db.tables w').service (
          update_where (λ x. x.id == id)
            (λ s. record s { version_count = s.version_count -ℤ pos 1 }) before.service)
      × SameRows (db.tables w').version
          (filter (λ v. not (v.tag == tag && v.service_id == id)) before.version)
  LowersCount id tag (err e, w') = db.tables w' ≡ before

  -- The rows of the version are gone, and the count of its service lowered by one, together.
  abbrev pub DropsVersion : ℕ → String → Result (Unit {0}) × World → Type 0
  DropsVersion id tag (ok _, w') =
      OnlyServicesAndVersions w'
      × SameRows (db.tables w').service (
          update_where (λ x. x.id == id)
            (λ s. record s { version_count = s.version_count -ℤ pos 1 }) before.service)
      × SameRows (db.tables w').version
          (filter (λ v. not (v.tag == tag && v.service_id == id)) before.version)
      × (0 < count_if (λ x. x.tag == tag && x.service_id == id) before.version)
  DropsVersion id tag (err e, w') = db.tables w' ≡ before

-- Of a postcondition, what it says of success.
abbrev pub IfOk {ℓ κ} : {S A : Type ℓ} → (Result A × S → Type κ) → Result A × S → Type κ
IfOk P (ok a, s) = P (ok a, s)
IfOk P (err _, _) = Unit

-- Whether some row passes a test.
abbrev pub occurs {ℓ} : {A : Type ℓ} → (A → Bool) → List A → Bool
occurs p rows = not (count_if p rows == 0)
