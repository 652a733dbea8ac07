-- ===== src/Utils/Exact.antt =====
-- The check of a payload is exact: its fields and their types are those of the template.
use go_user_and_service_mgmt.Prelude.{
  String, Bool, true, false, not, List, [], ◌∷◌, Option, none, some, Value, lookup, length,
  length-all, map, ◌≡◌, ◌↔◌, refl, sym, ◌∙◌, ◌≤◌, ◌<◌, ◌+◌, ◌==◌, ◌&&◌, text_comparable, eq_iff,
  true≢false, if◌then◌else◌, nat_eq, nat_eq_iff, arith, count_if, count_if-map, filter, SameRows,
  Bool-cases, inl, inr,
}
use go_user_and_service_mgmt.Gorm.Rows.{count_if-filter-le}
use go_user_and_service_mgmt.Utils.Laws.{both_true}
use go_user_and_service_mgmt.Utils.{
  GoType, type_of, same_type, has_type, fields_exist, ensure_fields_strictly_exists,
}

-- A Go map: no key twice.
abbrev pub IsMap {ℓ} : {A : Type ℓ} → List (String × A) → Type 0
IsMap m = (key : String) → count_if (λ e. e.0 == key) m ≤ 1

-- A field of a payload, with the type in place of the value.
abbrev pub entry_type : String × Value → String × GoType
entry_type e = (e.0, type_of e.1)

abbrev pub types_of : List (String × Value) → List (String × GoType)
types_of = map entry_type

abbrev without {ℓ} : {A : Type ℓ} → String → List (String × A) → List (String × A)
without field = filter (λ e. not (e.0 == field))

-- A key that is not there is not taken out.
count_if-without_absent :
    {A : Type 0} (p : String × A → Bool) (field : String) (m : List (String × A))
    → count_if (λ e. e.0 == field) m ≡ 0
    → count_if p (without field m) ≡ count_if p m
count_if-without_absent p field [] h = refl
count_if-without_absent p field (e ∷ m) h = ground (arith, count_if-without_absent p field m)

-- The entry of a key, and the rest.
count_if-without :
    {A : Type 0} (p : String × A → Bool) (field : String) (v : A) (m : List (String × A))
    → count_if (λ e. e.0 == field) m ≤ 1
    → lookup field m ≡ some v
    → count_if p m ≡ (if p (field, v) then 1 else 0) + count_if p (without field m)
count_if-without p field v [] once h = ground arith
count_if-without p field v ((k, x) ∷ m) once h = elim (Bool-cases (k == field)) [
  | inl same ↦
      let e = (eq_iff k field).0 same in
      let xv : x ≡ v = ground arith in
      rw (same, e, xv, count_if-without_absent p field m (ground arith)) refl
  | inr other ↦
      let later : lookup field m ≡ some v = ground arith in
      rw other (omega (arith, count_if-without p field v m (ground arith) later))
]

lookup-without :
    {A : Type 0} (key field : String) (m : List (String × A))
    → (key == field) ≡ false
    → lookup key (without field m) ≡ lookup key m
lookup-without key field [] h = refl
lookup-without key field ((k, x) ∷ m) h = elim (Bool-cases (k == field)) [
  | inl same ↦
      let another : (k == key) ≡ false =
        ground (arith, eq_iff k key, eq_iff k field, eq_iff key field) in
      rw (same, another, lookup-without key field m h) refl
  | inr other ↦ rw other (ground (arith, lookup-without key field m h))
]

-- The rest of the template does not ask for a field that is not in it.
fields_exist-without :
    (field : String) (input : List (String × Value)) (template : List (String × GoType))
    → count_if (λ e. e.0 == field) template ≡ 0
    → fields_exist (without field input) template ≡ fields_exist input template
unfolding fields_exist
fields_exist-without field input [] h = refl
fields_exist-without field input ((f, t) ∷ rest) h =
    rw
      (
        lookup-without f field input (ground arith),
        fields_exist-without field input rest (ground arith),
      )
      refl

same_type-eq : (a b : GoType) → same_type a b ≡ true → a ≡ b
same_type-eq a b h = ground arith

has_type-some :
    (t : GoType) (o : Option Value)
    → has_type t o ≡ true
    → (v : Value) × (o ≡ some v) × (type_of v ≡ t)
has_type-some t none h = absurd (true≢false (sym h))
has_type-some t (some v) h = (v, refl, same_type-eq (type_of v) t h)

abbrev Fits : List (String × Value) → List (String × GoType) → Type 0
Fits input template = SameRows (types_of input) template

-- A template of as many fields as the payload has, each of which is there with its type.
fits :
    (template : List (String × GoType)) (input : List (String × Value))
    → IsMap input
    → IsMap template
    → length input ≡ length template
    → fields_exist input template ≡ true
    → Fits input template
unfolding fields_exist
fits [] [] distinct once size h = λ p. refl
fits [] (e ∷ input) distinct once size h = ground arith
fits ((f, t) ∷ rest) input distinct once size h =
    let typed : has_type t (lookup f input) ≡ true = ground arith in
    let (v, found, is_type) = has_type-some t (lookup f input) typed in
    let absent : count_if (λ (e : String × GoType). e.0 == f) rest ≡ 0 =
      ground (arith, once f, eq_iff f f) in
    let others : fields_exist (without f input) rest ≡ true =
      fields_exist-without f input rest absent ∙ ground arith in
    let shorter : length (without f input) ≡ length rest = omega (
      arith,
      size,
      length-all input,
      length-all (without f input),
      count_if-without (λ _. true) f v input (distinct f) found,
    ) in
    let later =
      fits rest (without f input)
        (λ key.
          omega
            (arith, distinct key, count_if-filter-le (λ e. e.0 == key) (λ e. not (e.0 == f)) input))
        (λ key. ground (arith, once key)) shorter others in
    λ p.
      let split =
        rw is_type at (count_if-without (λ e. p (entry_type e)) f v input (distinct f) found) in
      omega (
        arith,
        split,
        later p,
        count_if-map p entry_type input,
        count_if-map p entry_type (without f input),
      )

same_type_refl : (t : GoType) → same_type t t ≡ true
same_type_refl GoType.string_type = refl
same_type_refl GoType.float64_type = refl
same_type_refl GoType.bool_type = refl
same_type_refl GoType.slice_type = refl
same_type_refl GoType.map_type = refl
same_type_refl GoType.nil_type = refl

count_if-narrower :
    {A : Type 0} (p q : A → Bool) (xs : List A) → count_if (λ x. p x && q x) xs ≤ count_if p xs
count_if-narrower p q [] = omega arith
count_if-narrower p q (x ∷ xs) = ground (arith, count_if-narrower p q xs)

-- A field of the right type among the entries is what a lookup finds.
has_type-lookup :
    (f : String) (t : GoType) (input : List (String × Value))
    → count_if (λ e. e.0 == f) input ≤ 1
    → 0 < count_if (λ e. e.0 == f && same_type (type_of e.1) t) input
    → has_type t (lookup f input) ≡ true
has_type-lookup f t [] once there = ground arith
has_type-lookup f t ((k, x) ∷ input) once there =
    let rest = count_if-narrower (λ e. e.0 == f) (λ e. same_type (type_of e.1) t) input in
    elim (Bool-cases (k == f)) [
      | inl same ↦ rw same (ground arith)
      | inr other ↦ rw other (has_type-lookup f t input (ground arith) (ground arith))
    ]

fields_exist-all :
    (input : List (String × Value)) (template : List (String × GoType))
    → ((f : String) (t : GoType)
        → 0 < count_if (λ e. e.0 == f && same_type e.1 t) template
        → has_type t (lookup f input) ≡ true)
    → fields_exist input template ≡ true
unfolding fields_exist
fields_exist-all input [] h = refl
fields_exist-all input ((f, t) ∷ rest) h =
    let typed = h f t (ground (arith, (eq_iff f f).1 refl, same_type_refl t)) in
    let later = fields_exist-all input rest (λ g u k. h g u (omega (arith, k))) in
    rw (typed, later) refl

-- The check of a payload is exact: a decoded map passes if and only if its fields, with the types
-- of their values, are those of the template, whatever their order. No field is missing, none is
-- more, none is of another type, where no key is twice in the payload or in the template.
pub ensure_fields_strictly_exists-Exact :
    (input : List (String × Value)) (template : List (String × GoType))
    → IsMap input
    → IsMap template
    → (ensure_fields_strictly_exists input template ≡ true) ↔ SameRows (types_of input) template
unfolding ensure_fields_strictly_exists
ensure_fields_strictly_exists-Exact input template distinct once = (
  λ passes.
      let (size, all) =
        both_true (nat_eq (length input) (length template)) (fields_exist input template) passes in
      fits template input distinct once ((nat_eq_iff (length input) (length template)).0 size) all,
  λ same.
      let size : length input ≡ length template = omega (
        arith,
        same (λ _. true),
        count_if-map (λ _. true) entry_type input,
        length-all input,
        length-all template,
      ) in
      let all = fields_exist-all input template (λ f t wanted.
        has_type-lookup f t input (distinct f) (
          omega (
            arith,
            wanted,
            same (λ e. e.0 == f && same_type e.1 t),
            count_if-map (λ e. e.0 == f && same_type e.1 t) entry_type input,
          ))) in
      rw ((nat_eq_iff (length input) (length template)).1 size, all) refl,
)
