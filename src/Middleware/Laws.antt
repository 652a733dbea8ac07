-- ===== src/Middleware/Laws.antt =====
-- Who passes the middleware.
use Prim.Native.String.{◌++◌}
use go_user_and_service_mgmt.Prelude.{
  String, true, false, List, Option, none, some, Value, insert, ◌≡◌, refl, sym, ap, ◌∙◌, inl, inr,
  ◌==◌, text_comparable, if◌then◌else◌, Bool-cases, arith, eq_iff,
}
use go_user_and_service_mgmt.Middleware.Bearer.{
  split_spaces, bearer_token, has_space, bearer_token_iff,
}
use go_user_and_service_mgmt.Middleware.{
  Context, next, abort, Token, claim_email, claim_role, text_claim, is_login, validate_jwt,
  set_claims, check_claims, check_token, only_valid, check_bearer, invalid_or_expired, authenticate,
}

abbrev pub with_claims : String → String → Context → Context
with_claims role email c = record c {
  keys = insert claim_email email (insert claim_role role c.keys);
}

-- A valid token that claims the role and the email.
abbrev pub Claims : String → String → Token → Type 0
Claims role email token =
    (token.valid ≡ true)
    × ((claims : List (String × Value)) × (token.claims ≡ some claims)
        × (text_claim claim_role claims ≡ some role)
        × (text_claim claim_email claims ≡ some email))

set_claims-next :
    (c c' : Context) (r e : Option String)
    → set_claims c r e ≡ next c'
    → (role : String) × (email : String) × (r ≡ some role)
      × (e ≡ some email)
      × (c' ≡ with_claims role email c)
set_claims-next c c' (some role) (some email) h = (role, email, refl, refl, ground arith)
set_claims-next c c' (some role) none h = ground arith
set_claims-next c c' none e h = ground arith

only_valid-some :
    (o : Option Token) (token : Token)
    → only_valid o ≡ some token
    → (o ≡ some token) × (token.valid ≡ true)
only_valid-some none token h = ground arith
only_valid-some (some t) token h = elim (Bool-cases t.valid) [
  | inl valid ↦
      let same : some t ≡ some token = ap (λ b. if b then some t else none) (sym valid) ∙ h in
      (same, ap (λ o. elim o [ none ↦ true | some x ↦ x.valid ]) (sym same) ∙ valid)
  | inr refused ↦
      let clash : none ≡ some token = ap (λ b. if b then some t else none) (sym refused) ∙ h in
      ground arith
]

check_claims-next :
    (c c' : Context) (o : Option (List (String × Value)))
    → check_claims c o ≡ next c'
    → (role : String) × (email : String) × (claims : List (String × Value)) × (o ≡ some claims)
      × (text_claim claim_role claims ≡ some role)
      × (text_claim claim_email claims ≡ some email)
      × (c' ≡ with_claims role email c)
check_claims-next c c' none h = ground arith
check_claims-next c c' (some claims) h =
    let (role, email, r, e, same) =
      set_claims-next c c' (text_claim claim_role claims) (text_claim claim_email claims) h in
    (role, email, claims, refl, r, e, same)

check_token-next :
    (c c' : Context) (o : Option Token)
    → check_token c o ≡ next c'
    → (token : Token) × (role : String) × (email : String) × (o ≡ some token)
      × Claims role email token
      × (c' ≡ with_claims role email c)
check_token-next c c' none h = ground arith
check_token-next c c' (some token) h = elim (Bool-cases token.valid) [
  | inl valid ↦
      let (role, email, claims, o, r, e, same) =
        check_claims-next c c' token.claims (rw valid at h) in
      (token, role, email, refl, (valid, (claims, o, r, e)), same)
  | inr refused ↦
      let clash : invalid_or_expired ≡ next c' =
        ap (λ b. if b then check_claims c token.claims else invalid_or_expired) (sym refused) ∙ h in
      ground arith
]

module _ (parse : String → String → Option Token) (login_path secret : String) where
  -- The header is `Bearer`, a space and a token without spaces, which the library parses, under
  -- the secret, as a valid one with these claims.
  abbrev pub Carries : String → String → String → Type 0
  Carries role email header =
      (t : String) × (token : Token) × (header ≡ "Bearer" ++ (" " ++ t))
      × (has_space t ≡ false)
      × (parse secret t ≡ some token)
      × Claims role email token

  check_bearer-next :
      (c c' : Context) (o : Option String)
      → check_bearer (validate_jwt parse secret) c o ≡ next c'
      → bearer_token (split_spaces c.authorization) ≡ o
      → (role : String) × (email : String) × Carries role email c.authorization
        × (c' ≡ with_claims role email c)
  check_bearer-next c c' none h same = ground arith
  check_bearer-next c c' (some t) h same =
      let (token, role, email, found, claims, result) =
        check_token-next c c' (validate_jwt parse secret t) h in
      let (shape, free) = (bearer_token_iff c.authorization t).0 same in
      let (parsed, _) = only_valid-some (parse secret t) token found in
      (role, email, (t, token, shape, free, parsed, claims), result)

  pub authenticate-next :
      (c c' : Context)
      → is_login c.path login_path ≡ false
      → authenticate parse login_path secret c ≡ next c'
      → (role : String) × (email : String) × Carries role email c.authorization
        × (c' ≡ with_claims role email c)
  unfolding authenticate
  authenticate-next c c' other h = elim (Bool-cases (c.authorization == "")) [
    | inl empty ↦
        let clash : abort 401 "authorization header is missing" ≡ next c' =
          rw (other, empty) at h in
        ground arith
    | inr given ↦
        check_bearer-next c c' (bearer_token (split_spaces c.authorization))
          (rw (other, given) at h) refl
  ]

  -- The converse: such a header passes.
  pub Carries-next :
      (c : Context) (role email : String)
      → is_login c.path login_path ≡ false
      → Carries role email c.authorization
      → authenticate parse login_path secret c ≡ next (with_claims role email c)
  unfolding authenticate bearer_token split_spaces
  Carries-next c role email other (t, token, shape, free, parsed, (valid, (claims, o, r, e))) =
      let piece : bearer_token (split_spaces c.authorization) ≡ some t =
        (bearer_token_iff c.authorization t).1 (shape, free) in
      elim (Bool-cases (c.authorization == "")) [
        | inl empty ↦
            let clash : none ≡ some t =
              ap (λ h. bearer_token (split_spaces h)) (sym ((eq_iff c.authorization "").0 empty))
              ∙ piece in
            ground arith
        | inr given ↦ rw (other, given, piece, parsed, valid, o, r, e) refl
      ]
