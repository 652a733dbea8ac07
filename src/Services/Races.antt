-- ===== src/Services/Races.antt =====
-- Two requests at once: the check of an operation and its transaction are separate steps, and
-- another request may come in between.
use go_user_and_service_mgmt.Prelude.{
  ℕ, String, Bool, true, false, List, [], ◌∷◌, ◌≡◌, subst, ◌≤◌, ◌<◌, ◌+◌, ◌-ℤ◌, arith, count_if,
  count_if-le, count_if-map, ◌==◌, number_comparable, text_comparable, Bool-cases, inl, inr,
  if◌then◌else◌, int_comparable,
}
use go_user_and_service_mgmt.Models.{Service, ServiceVersion}
use go_user_and_service_mgmt.Gorm.{ok, Database, Tables}
use go_user_and_service_mgmt.Gorm.Laws.{IsRelational, update_where, Transacts}
use go_user_and_service_mgmt.Gorm.Rows.{count_if-filter-not}
use go_user_and_service_mgmt.Gorm.Rules.{finished}
use go_user_and_service_mgmt.Services.Operations.{
  has_service_id, of_service, is_version, one_less, check_if_version_for_service_exist,
  delete_version_rows,
}
use go_user_and_service_mgmt.Services.Effects.{Checks, LowersCount, IfOk, occurs}
use go_user_and_service_mgmt.Services.Bodies.{
  check_if_version_for_service_exist-Checks, delete_version_rows-LowersCount,
}
use go_user_and_service_mgmt.Services.Invariant.{
  IsConsistent, is_miscounted, is_orphan, version_total,
}
use go_user_and_service_mgmt.Services.Preservation.{IsConsistentTables}

-- Where every row with one property has one of two others.
count_if-or :
    {A : Type 0} (p q r : A → Bool) (xs : List A)
    → ((x : A) → p x ≡ true → q x ≡ false → r x ≡ true)
    → count_if p xs ≤ count_if q xs + count_if r xs
count_if-or p q r [] h = omega arith
count_if-or p q r (x ∷ xs) h = ground (arith, h x, count_if-or p q r xs h)

lowered : ℕ → Service → Service
lowered id s = if has_service_id id s then one_less s else s

-- A count that was right, lowered twice while one version went, is wrong.
twice-is_miscounted :
    (id : ℕ) (before after : List ServiceVersion) (s : Service)
    → version_total after id + 1 ≡ version_total before id
    → has_service_id id s ≡ true
    → is_miscounted before s ≡ false
    → is_miscounted after (lowered id (lowered id s)) ≡ true
unfolding ◌-ℤ◌ lowered
twice-is_miscounted id before after s one mine right = ground arith

-- Such a service exists, so the counts are not all right.
twice-not_counted :
    (id : ℕ) (services services₁ services₂ : List Service) (before after : List ServiceVersion)
    → ((p : Service → Bool)
        → count_if p services₁ ≡ count_if p (update_where (has_service_id id) one_less services))
    → ((p : Service → Bool)
        → count_if p services₂ ≡ count_if p (update_where (has_service_id id) one_less services₁))
    → version_total after id + 1 ≡ version_total before id
    → 0 < count_if (has_service_id id) services
    → count_if (is_miscounted before) services ≡ 0
    → 0 < count_if (is_miscounted after) services₂
unfolding lowered
twice-not_counted id services services₁ services₂ before after once twice one some_service right =
    let wrong = is_miscounted after in
    omega (
      arith,
      twice wrong,
      count_if-map wrong (lowered id) services₁,
      once (λ s. wrong (lowered id s)),
      count_if-map (λ s. wrong (lowered id s)) (lowered id) services,
      count_if-or (has_service_id id) (is_miscounted before)
          (λ s. wrong (lowered id (lowered id s))) services
          (λ s. twice-is_miscounted id before after s one),
    )

-- A version that is there has a service.
owner_there :
    (services : List Service) (versions : List ServiceVersion) (id : ℕ) (tag : String)
    → IsConsistent services versions
    → 0 < count_if (is_version id tag) versions
    → 0 < count_if (has_service_id id) services
owner_there services versions id tag c present =
    elim (Bool-cases (count_if (has_service_id id) services == 0)) [
      | inl none ↦ omega (
        arith,
        present,
        c.owned,
        count_if-le (is_version id tag) (is_orphan services) versions
            (λ v h. let e : v.service_id ≡ id = ground arith in rw e none),
      )
      | inr some_service ↦ ground arith
    ]

module _ {World : Type 0} (db : Database World) (laws : IsRelational db) where
  Transacts-LowersCount :
      (before : Tables) (id : ℕ) (tag : String) (w' : World)
      → Transacts db.tables before (delete_version_rows db id tag) (ok tt, w')
      → LowersCount db before id tag (ok tt, w')
  Transacts-LowersCount before id tag w' (w₀, start, done, result) = rw result (
      finished (IfOk (LowersCount db before id tag)) (delete_version_rows db id tag w₀)
        (delete_version_rows-LowersCount db laws before w₀ start id tag) done)

  deleted :
      (w w' : World) (id : ℕ) (tag : String)
      → db.transaction (delete_version_rows db id tag) w ≡ (ok tt, w')
      → LowersCount db (db.tables w) id tag (ok tt, w')
  deleted w w' id tag done = Transacts-LowersCount (db.tables w) id tag w' (
      subst (Transacts db.tables (db.tables w) (delete_version_rows db id tag)) done
        (laws.transaction_lem (delete_version_rows db id tag) w))

  checked :
      (w w' : World) (id : ℕ) (tag : String)
      → check_if_version_for_service_exist db id tag w ≡ (ok true, w')
      → (db.tables w' ≡ db.tables w) × (true ≡ occurs (is_version id tag) (db.tables w).version)
  checked w w' id tag done =
      subst (Checks db (db.tables w) (occurs (is_version id tag) (db.tables w).version)) done
        (check_if_version_for_service_exist-Checks db laws id tag w)

  -- If two requests to delete the same version both check that it exists before either
  -- transaction runs, and both transactions succeed, then from consistent tables the version is
  -- removed once, but a service is left whose `VersionCount` is not the number of its versions.
  pub two_deletions :
      (id : ℕ) (tag : String) (w w₁ w₂ w₃ w₄ : World)
      → IsConsistentTables (db.tables w)
      → check_if_version_for_service_exist db id tag w ≡ (ok true, w₁)
      → check_if_version_for_service_exist db id tag w₁ ≡ (ok true, w₂)
      → db.transaction (delete_version_rows db id tag) w₂ ≡ (ok tt, w₃)
      → db.transaction (delete_version_rows db id tag) w₃ ≡ (ok tt, w₄)
      → (version_total (db.tables w₄).version id + 1 ≡ version_total (db.tables w).version id)
        × (0 < count_if (is_miscounted (db.tables w₄).version) (db.tables w₄).service)
  two_deletions id tag w w₁ w₂ w₃ w₄ c check check' first second =
      let (same, there) = checked w w₁ id tag check in
      let (same', _) = checked w₁ w₂ id tag check' in
      let (_, services, versions) = rw (same', same) at (deleted w₂ w₃ id tag first) in
      let (_, services', versions') = deleted w₃ w₄ id tag second in
      let present : 0 < count_if (is_version id tag) (db.tables w).version = ground arith in
      let p = is_version id tag in
      let mine = of_service id in
      let one : version_total (db.tables w₄).version id + 1
          ≡ version_total (db.tables w).version id =
        omega (
          arith,
          versions' mine,
          versions mine,
          versions p,
          c.tag_once id tag,
          present,
          count_if-filter-not mine p (db.tables w₃).version (λ v h. ground arith),
          count_if-filter-not mine p (db.tables w).version (λ v h. ground arith),
          count_if-filter-not p p (db.tables w).version (λ v h. h),
        ) in
      (
        one,
        twice-not_counted id (db.tables w).service (db.tables w₃).service (db.tables w₄).service
            (db.tables w).version (db.tables w₄).version services services' one
            (owner_there (db.tables w).service (db.tables w).version id tag c present) c.counted,
      )
