-- ===== src/Utils/Laws.antt =====
-- What the check of a payload decides.
use go_user_and_service_mgmt.Prelude.{
  String, Bool, true, false, List, [], ◌∷◌, Option, none, some, Value, string, number, boolean,
  array, object, null, lookup, length, ◌≡◌, ◌⊎◌, refl, sym, ap, ◌∙◌, inl, inr, ◌==◌,
  text_comparable, eq_iff, true≢false, if◌then◌else◌, nat_eq, arith,
}
use go_user_and_service_mgmt.Utils.{GoType, has_type, fields_exist, ensure_fields_strictly_exists}

-- A field that should be a text is there and is one.
abbrev pub IsText : String → List (String × Value) → Type 0
IsText field input = (s : String) × (lookup field input ≡ some (string s))

has_type-string :
    (o : Option Value) → has_type GoType.string_type o ≡ true → (s : String) × (o ≡ some (string s))
has_type-string none h = absurd (true≢false (sym h))
has_type-string (some (string s)) h = (s, refl)
has_type-string (some number) h = absurd (true≢false (sym h))
has_type-string (some boolean) h = absurd (true≢false (sym h))
has_type-string (some array) h = absurd (true≢false (sym h))
has_type-string (some object) h = absurd (true≢false (sym h))
has_type-string (some null) h = absurd (true≢false (sym h))

pub both_true : (a b : Bool) → (if a then b else false) ≡ true → (a ≡ true) × (b ≡ true)
both_true true b h = (refl, h)
both_true false b h = absurd (true≢false (sym h))

if_some :
    {A : Type 0} (b : Bool) (a v : A) (o : Option A)
    → (if b then some a else o) ≡ some v
    → ((b ≡ true) × (a ≡ v)) ⊎ (o ≡ some v)
if_some true a v o h = inl (refl, ground arith)
if_some false a v o h = inr h

fields_exist-IsText :
    (input : List (String × Value)) (template : List (String × GoType)) (field : String)
    → fields_exist input template ≡ true
    → lookup field template ≡ some GoType.string_type
    → IsText field input
unfolding fields_exist
fields_exist-IsText input [] field h wanted = ground arith
fields_exist-IsText input ((f, t) ∷ rest) field h wanted =
    let (typed, later) = both_true (has_type t (lookup f input)) (fields_exist input rest) h in
    elim (if_some (f == field) t GoType.string_type (lookup field rest) wanted) [
      | inl (same, is_string) ↦ has_type-string (lookup field input) (
          ap (λ x. has_type x (lookup field input)) (sym is_string)
          ∙ ap (λ x. has_type t (lookup x input)) (sym ((eq_iff f field).0 same))
          ∙ typed)
      | inr after ↦ fields_exist-IsText input rest field later after
    ]

-- A payload that passes the check has a text in every field for which the template wants one.
pub ensure_fields_strictly_exists-IsText :
    (input : List (String × Value)) (template : List (String × GoType)) (field : String)
    → ensure_fields_strictly_exists input template ≡ true
    → lookup field template ≡ some GoType.string_type
    → IsText field input
unfolding ensure_fields_strictly_exists
ensure_fields_strictly_exists-IsText input template field h =
    fields_exist-IsText input template field
      (both_true (nat_eq (length input) (length template)) (fields_exist input template) h).1
