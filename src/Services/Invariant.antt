-- ===== src/Services/Invariant.antt =====
-- The invariant of services and versions: names, ids and tags are distinct, every version belongs
-- to a service, and `VersionCount` is the number of versions that a service has.
use go_user_and_service_mgmt.Prelude.{
  ℕ, pos, String, Bool, true, not, List, ◌∷◌, ◌≡◌, ◌≢◌, refl, ◌∙◌, ◌<◌, ◌≤◌, ◌+ℤ◌, ◌-ℤ◌, ◌+◌, arith,
  count_if, filter, SameRows, ◌==◌, text_comparable, number_comparable, int_comparable, eq_iff,
  count_if-le,
}
use go_user_and_service_mgmt.Models.{Service, ServiceVersion}
use go_user_and_service_mgmt.Gorm.Laws.{update_where}
use go_user_and_service_mgmt.Gorm.Rows.{
  count_if-update_where, count_if-filter-le, count_if-filter_of_implies, count_if-filter-not,
  none_left, none_after,
}
use go_user_and_service_mgmt.Services.Operations.{
  has_service_id, has_name, of_service, is_version, one_more, one_less, new_service,
}

-- The versions of a service.
abbrev pub version_total : List ServiceVersion → ℕ → ℕ
version_total versions id = count_if (of_service id) versions

-- The service's `VersionCount` is wrong.
abbrev pub is_miscounted : List ServiceVersion → Service → Bool
is_miscounted versions s = not (s.version_count == pos (version_total versions s.id))

-- The version has no service.
abbrev pub is_orphan : List Service → ServiceVersion → Bool
is_orphan services v = count_if (has_service_id v.service_id) services == 0

pub record IsConsistent (services : List Service) (versions : List ServiceVersion) : Type 0 where
  pub id_once : (id : ℕ) → count_if (has_service_id id) services ≤ 1
  pub name_once : (name : String) → count_if (has_name name) services ≤ 1
  pub tag_once : (id : ℕ) (tag : String) → count_if (is_version id tag) versions ≤ 1
  pub owned : count_if (is_orphan services) versions ≡ 0
  pub counted : count_if (is_miscounted versions) services ≡ 0

-- Raising both sides, or lowering both, leaves a wrong count wrong.
one_more-is_miscounted :
    (v : ServiceVersion) (versions : List ServiceVersion) (s : Service)
    → has_service_id v.service_id s ≡ true
    → is_miscounted (v ∷ versions) (one_more s) ≡ true
    → is_miscounted versions s ≡ true
unfolding ◌+ℤ◌
one_more-is_miscounted v versions s h m = ground arith

one_less-is_miscounted :
    (kept versions : List ServiceVersion) (s : Service)
    → version_total kept s.id + 1 ≡ version_total versions s.id
    → is_miscounted kept (one_less s) ≡ true
    → is_miscounted versions s ≡ true
unfolding ◌-ℤ◌
one_less-is_miscounted kept versions s h m = ground arith

-- If one test implies another that counts nothing, it counts nothing.
none_of_none {ℓ} :
    {A : Type ℓ} (p q : A → Bool) (xs : List A)
    → ((x : A) → p x ≡ true → q x ≡ true)
    → count_if q xs ≡ 0
    → count_if p xs ≡ 0
none_of_none p q xs h none = omega (arith, count_if-le p q xs h)

-- Rows in another order.
pub SameRows-IsConsistent :
    (services services' : List Service) (versions versions' : List ServiceVersion)
    → SameRows services' services
    → SameRows versions' versions
    → IsConsistent services versions
    → IsConsistent services' versions'
SameRows-IsConsistent services services' versions versions' s v c = record {
  id_once = λ i. rw (s (has_service_id i)) (c.id_once i);
  name_once = λ n. rw (s (has_name n)) (c.name_once n);
  tag_once = λ i t. rw (v (is_version i t)) (c.tag_once i t);
  owned = rw (v (is_orphan services')) (
      none_of_none (is_orphan services') (is_orphan services) versions
        (λ x h. ground (arith, s (has_service_id x.service_id))) c.owned);
  counted = rw (s (is_miscounted versions')) (
      none_of_none (is_miscounted versions') (is_miscounted versions) services
        (λ x h. ground (arith, v (of_service x.id))) c.counted);
}

module _ (services : List Service) (versions : List ServiceVersion)
    (c : IsConsistent services versions) where
  -- A service that is not there has no versions.
  pub no_versions :
      (id : ℕ) → count_if (has_service_id id) services ≡ 0 → version_total versions id ≡ 0
  no_versions id fresh =
      none_of_none (of_service id) (is_orphan services) versions (λ v h. ground arith) c.owned

  -- A service without versions is added under a free id and a free name.
  pub cons-IsConsistent :
      (id : ℕ) (name description : String)
      → count_if (has_service_id id) services ≡ 0
      → count_if (has_name name) services ≡ 0
      → IsConsistent (record (new_service name description) { id = id } ∷ services) versions
  cons-IsConsistent id name description free_id free_name =
      let s = record (new_service name description) { id = id } in
      record {
        id_once = λ i. ground (arith, c.id_once i);
        name_once = λ n. ground (arith, c.name_once n, eq_iff name n);
        tag_once = c.tag_once;
        owned =
            none_of_none (is_orphan (s ∷ services)) (is_orphan services) versions
              (λ v h. ground arith) c.owned;
        counted = ground (arith, no_versions id free_id, c.counted);
      }

  -- A change of a service that keeps its id and its count, and leaves the names distinct.
  pub update_service-IsConsistent :
      (id : ℕ) (f : Service → Service)
      → ((s : Service) → has_service_id id s ≡ true → (f s).id ≡ s.id)
      → ((s : Service) → (f s).version_count ≡ s.version_count)
      → ((name : String)
          → count_if (has_name name) (update_where (has_service_id id) f services) ≤ 1)
      → IsConsistent (update_where (has_service_id id) f services) versions
  update_service-IsConsistent id f keeps_id keeps_count names =
      let changed = update_where (has_service_id id) f services in
      let ids : (i : ℕ)
          → count_if (has_service_id i) changed ≡ count_if (has_service_id i) services =
        λ i.
          count_if-update_where (has_service_id i) (has_service_id id) f services
            (λ s h. rw (keeps_id s h)) in
      record {
        id_once = λ i. rw (ids i) (c.id_once i);
        name_once = names;
        tag_once = c.tag_once;
        owned =
            none_of_none (is_orphan changed) (is_orphan services) versions
              (λ v h. rw (ids v.service_id) at h) c.owned;
        counted =
            count_if-update_where (is_miscounted versions) (has_service_id id) f services
              (λ s h. rw (keeps_id s h, keeps_count s))
            ∙ c.counted;
      }

  -- The service goes, and its versions with it.
  pub remove_service-IsConsistent :
      (id : ℕ)
      → IsConsistent
          (filter (λ s. not (has_service_id id s)) services)
          (filter (λ v. not (of_service id v)) versions)
  remove_service-IsConsistent id =
      let stays = λ (s : Service). not (has_service_id id s) in
      let spared = λ (v : ServiceVersion). not (of_service id v) in
      let left = filter stays services in
      let kept = filter spared versions in
      let services_of : (i : ℕ)
          → i ≢ id
          → count_if (has_service_id i) left ≡ count_if (has_service_id i) services =
        λ i ne.
          count_if-filter_of_implies (has_service_id i) stays services (λ s h. ground arith) in
      let versions_of : (i : ℕ) → i ≢ id → version_total kept i ≡ version_total versions i =
        λ i ne. count_if-filter_of_implies (of_service i) spared versions (λ v h. ground arith) in
      record {
        id_once =
            λ i. omega (arith, c.id_once i, count_if-filter-le (has_service_id i) stays services);
        name_once =
            λ n. omega (arith, c.name_once n, count_if-filter-le (has_name n) stays services);
        tag_once = λ i t.
            omega (arith, c.tag_once i t, count_if-filter-le (is_version i t) spared versions);
        owned =
            none_left (is_orphan left) spared (is_orphan services) versions
              (λ v h o. rw (services_of v.service_id (ground arith)) at o) c.owned;
        counted =
            none_left (is_miscounted kept) stays (is_miscounted versions) services
              (λ s h m. rw (versions_of s.id (ground arith)) at m) c.counted;
      }

  -- A version is added under a free tag, and the count of its service raised.
  pub add_version-IsConsistent :
      (v : ServiceVersion)
      → 0 < count_if (has_service_id v.service_id) services
      → count_if (is_version v.service_id v.tag) versions ≡ 0
      → IsConsistent (update_where (has_service_id v.service_id) one_more services) (v ∷ versions)
  add_version-IsConsistent v owner free =
      let changed = update_where (has_service_id v.service_id) one_more services in
      let ids : (i : ℕ)
          → count_if (has_service_id i) changed ≡ count_if (has_service_id i) services =
        λ i.
          count_if-update_where (has_service_id i) (has_service_id v.service_id) one_more services
            (λ s h. refl) in
      record {
        id_once = λ i. rw (ids i) (c.id_once i);
        name_once = λ n.
            rw
              (count_if-update_where (has_name n) (has_service_id v.service_id) one_more services
                (λ s h. refl))
              (c.name_once n);
        tag_once = λ i t. ground (arith, c.tag_once i t, eq_iff v.tag t);
        owned =
            let old : count_if (is_orphan changed) versions ≡ 0 =
              none_of_none (is_orphan changed) (is_orphan services) versions
                (λ x h. rw (ids x.service_id) at h) c.owned in
            ground (arith, ids v.service_id);
        counted =
            none_after (is_miscounted (v ∷ versions)) (has_service_id v.service_id)
              (is_miscounted versions) one_more services (one_more-is_miscounted v versions)
              (λ s h m. ground arith) c.counted;
      }

  -- A version that is there goes, and the count of its service is lowered.
  pub drop_version-IsConsistent :
      (id : ℕ) (tag : String)
      → 0 < count_if (is_version id tag) versions
      → IsConsistent
          (update_where (has_service_id id) one_less services)
          (filter (λ v. not (is_version id tag v)) versions)
  drop_version-IsConsistent id tag present =
      let changed = update_where (has_service_id id) one_less services in
      let spared = λ (v : ServiceVersion). not (is_version id tag v) in
      let kept = filter spared versions in
      let ids : (i : ℕ)
          → count_if (has_service_id i) changed ≡ count_if (has_service_id i) services =
        λ i.
          count_if-update_where (has_service_id i) (has_service_id id) one_less services
            (λ s h. refl) in
      record {
        id_once = λ i. rw (ids i) (c.id_once i);
        name_once = λ n.
            rw
              (count_if-update_where (has_name n) (has_service_id id) one_less services
                (λ s h. refl))
              (c.name_once n);
        tag_once = λ i t.
            omega (arith, c.tag_once i t, count_if-filter-le (is_version i t) spared versions);
        owned =
            none_left (is_orphan changed) spared (is_orphan services) versions
              (λ v h o. rw (ids v.service_id) at o) c.owned;
        counted =
            none_after (is_miscounted kept) (has_service_id id) (is_miscounted versions) one_less
              services
              (λ s h m.
                one_less-is_miscounted kept versions s
                  (ground (
                    arith,
                    c.tag_once id tag,
                    count_if-filter-not (of_service s.id) (is_version id tag) versions
                        (λ v k. ground arith),
                  ))
                  m)
              (λ s h m.
                rw
                  (count_if-filter_of_implies (of_service s.id) spared versions
                    (λ v k. ground arith))
                  at m)
              c.counted;
      }

  -- A change of a version that keeps its tag and its service.
  pub update_version-IsConsistent :
      (p : ServiceVersion → Bool) (f : ServiceVersion → ServiceVersion)
      → ((v : ServiceVersion) → p v ≡ true → (f v).tag ≡ v.tag)
      → ((v : ServiceVersion) → p v ≡ true → (f v).service_id ≡ v.service_id)
      → IsConsistent services (update_where p f versions)
  update_version-IsConsistent p f keeps_tag keeps_service = record {
    id_once = c.id_once;
    name_once = c.name_once;
    tag_once = λ i t.
        rw
          (count_if-update_where (is_version i t) p f versions
            (λ v h. rw (keeps_tag v h, keeps_service v h)))
          (c.tag_once i t);
    owned =
        count_if-update_where (is_orphan services) p f versions (λ v h. rw (keeps_service v h))
        ∙ c.owned;
    counted =
        none_of_none (is_miscounted (update_where p f versions)) (is_miscounted versions) services
          (λ s h.
            rw
              (count_if-update_where (of_service s.id) p f versions (λ v k. rw (keeps_service v k)))
              at h)
          c.counted;
  }
