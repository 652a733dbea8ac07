-- ===== src/Middleware/Access.antt =====
-- Who reaches a handler: the middleware and the routes together.
use go_user_and_service_mgmt.Prelude.{
  String, true, false, List, [], ◌∷◌, Option, none, some, lookup, ◌≡◌, refl, sym, ap, ◌∙◌, ◌↔◌, ◌⊎◌,
  inl, inr, ◌==◌, text_comparable, if◌then◌else◌, Bool-cases, arith, eq_iff, true≢false, subst,
}
use go_user_and_service_mgmt.Models.{role_admin}
use go_user_and_service_mgmt.Middleware.{
  Context, next, Token, claim_role, is_login, authenticate, is_allowed, authz_roles, check_role,
  Step, abort, not_authorized,
}
use go_user_and_service_mgmt.Middleware.Laws.{with_claims, Carries, authenticate-next, Carries-next}
use go_user_and_service_mgmt.Middleware.Routes.{
  Endpoint, allowed_roles, and_then, authz_of, before_handler,
}

-- The claimed role is what the handlers' context has, on a fresh context.
role_of_claims :
    (role email : String) (c : Context)
    → c.keys ≡ []
    → lookup claim_role (with_claims role email c).keys ≡ some role
role_of_claims role email c fresh = rw fresh refl

abbrev pub IsOneOf : String → List String → Type 0
IsOneOf role [] = ⊥
IsOneOf role (r ∷ roles) = (r ≡ role) ⊎ IsOneOf role roles

is_allowed_iff :
    (roles : List String) (role : String) → (is_allowed roles role ≡ true) ↔ IsOneOf role roles
unfolding is_allowed
is_allowed_iff [] role = (λ h. ground arith, λ h. absurd h)
is_allowed_iff (r ∷ roles) role = elim (Bool-cases (r == role)) [
  | inl same ↦ (λ h. inl ((eq_iff r role).0 same), λ h. rw same refl)
  | inr other ↦ (
    λ h. inr ((is_allowed_iff roles role).0 (rw other at h)),
    λ h. rw other (elim h [
      | inl same ↦ absurd (true≢false (sym ((eq_iff r role).1 same) ∙ other))
      | inr later ↦ (is_allowed_iff roles role).1 later
    ]),
  )
]

and_then-next :
    (s : Step) (m : Context → Step) (c' : Context)
    → and_then s m ≡ next c'
    → (c : Context) × (s ≡ next c) × (m c ≡ next c')
and_then-next (next c) m c' h = (c, refl, h)
and_then-next (abort status message) m c' h = ground arith

check_role-next :
    (roles : List String) (c c' : Context) (o : Option String)
    → check_role roles c o ≡ next c'
    → (role : String) × (o ≡ some role) × (is_allowed roles role ≡ true) × (c ≡ c')
check_role-next roles c c' none h = ground arith
check_role-next roles c c' (some role) h = elim (Bool-cases (is_allowed roles role)) [
  | inl allowed ↦
      let same : next c ≡ next c' =
        ap (λ b. if b then next c else not_authorized) (sym allowed) ∙ h in
      (role, refl, allowed, ground arith)
  | inr refused ↦
      let clash : not_authorized ≡ next c' =
        ap (λ b. if b then next c else not_authorized) (sym refused) ∙ h in
      ground arith
]

module _ (parse : String → String → Option Token) (login_path secret : String) where
  authenticate-login :
      (c : Context)
      → is_login c.path login_path ≡ true
      → authenticate parse login_path secret c ≡ next c
  unfolding authenticate
  authenticate-login c h = rw h refl

  -- The login path brings no role along, so it opens no endpoint that wants one.
  login_refused :
      (roles : List String) (c c₁ c' : Context)
      → c.keys ≡ []
      → is_login c.path login_path ≡ true
      → authenticate parse login_path secret c ≡ next c₁
      → authz_roles roles c₁ ≡ next c'
      → ⊥
  unfolding authz_roles
  login_refused roles c c₁ c' fresh login passed allowed =
      let same : next c ≡ next c₁ = sym (authenticate-login c login) ∙ passed in
      let keys : c.keys ≡ c₁.keys = ground arith in
      let none_set : lookup claim_role c₁.keys ≡ none = ap (lookup claim_role) (sym keys ∙ fresh) in
      let (role, found, _, _) = check_role-next roles c₁ c' (lookup claim_role c₁.keys) allowed in
      let clash : none ≡ some role = sym none_set ∙ found in ground arith

  -- An endpoint with roles is reached, from a fresh context, exactly by the requests that are not
  -- for the login path and carry a valid token whose role is one of them; the handler finds the
  -- claimed role and email in its context.
  pub before_handler-restricted :
      (endpoint : Endpoint) (roles : List String) (c c' : Context)
      → allowed_roles endpoint ≡ some roles
      → c.keys ≡ []
      → (before_handler parse login_path secret endpoint c ≡ next c') ↔ (
          (is_login c.path login_path ≡ false)
          × ((role : String) × (email : String) × Carries parse login_path secret role email
                c.authorization
              × IsOneOf role roles
              × (c' ≡ with_claims role email c)))
  unfolding before_handler authz_roles
  before_handler-restricted endpoint roles c c' limited fresh = (
    λ h.
        let (c₁, passed, rest) =
          and_then-next (authenticate parse login_path secret c) (authz_of (allowed_roles endpoint))
            c' h in
        let allowed : authz_roles roles c₁ ≡ next c' =
          ap (λ o. authz_of o c₁) (sym limited) ∙ rest in
        elim (Bool-cases (is_login c.path login_path)) [
          | inl login ↦ absurd (login_refused roles c c₁ c' fresh login passed allowed)
          | inr other ↦
              let (role, email, carried, same) =
                authenticate-next parse login_path secret c c₁ other passed in
              let (r, found, ok, last) =
                check_role-next roles c₁ c' (lookup claim_role c₁.keys) allowed in
              let claimed : lookup claim_role c₁.keys ≡ some role =
                ap (λ x. lookup claim_role x.keys) same ∙ role_of_claims role email c fresh in
              let both : some r ≡ some role = sym found ∙ claimed in
              let agree : r ≡ role = ground arith in
              (
                other,
                (
                  role,
                  email,
                  carried,
                  (is_allowed_iff roles role).0 (ap (is_allowed roles) (sym agree) ∙ ok),
                  sym last ∙ same,
                ),
              )
        ],
    λ (other, (role, email, carried, allowed, same)).
        let wc = with_claims role email c in
        let ok_role = (is_allowed_iff roles role).1 allowed in
        ap (λ s. and_then s (authz_of (allowed_roles endpoint)))
          (Carries-next parse login_path secret c role email other carried)
        ∙ ap (λ o. authz_of o wc) limited
        ∙ ap (check_role roles wc) (role_of_claims role email c fresh)
        ∙ rw (ok_role, same) refl,
  )

  -- An endpoint without roles is reached exactly by the requests for the login path, with their
  -- context as it was, and by those that carry a valid token with a role and an email.
  pub before_handler-open :
      (endpoint : Endpoint) (c c' : Context)
      → allowed_roles endpoint ≡ none
      → (before_handler parse login_path secret endpoint c ≡ next c') ↔ (
          ((is_login c.path login_path ≡ true) × (c' ≡ c))
          ⊎ ((is_login c.path login_path ≡ false)
              × ((role : String) × (email : String) × Carries parse login_path secret role email
                    c.authorization
                  × (c' ≡ with_claims role email c))))
  unfolding before_handler
  before_handler-open endpoint c c' unlimited = (
    λ h.
        let (c₁, passed, rest) =
          and_then-next (authenticate parse login_path secret c) (authz_of (allowed_roles endpoint))
            c' h in
        let on : next c₁ ≡ next c' = ap (λ o. authz_of o c₁) (sym unlimited) ∙ rest in
        let through : authenticate parse login_path secret c ≡ next c' = passed ∙ on in
        elim (Bool-cases (is_login c.path login_path)) [
          | inl login ↦
              let same : next c ≡ next c' = sym (authenticate-login c login) ∙ through in
              inl (login, ground arith)
          | inr other ↦ inr (other, authenticate-next parse login_path secret c c' other through)
        ],
    λ h. elim h [
      | inl (login, same) ↦
          ap (λ s. and_then s (authz_of (allowed_roles endpoint))) (authenticate-login c login)
          ∙ ap (λ o. authz_of o c) unlimited
          ∙ ap next (sym same)
      | inr (other, (role, email, carried, same)) ↦
          ap (λ s. and_then s (authz_of (allowed_roles endpoint)))
            (Carries-next parse login_path secret c role email other carried)
          ∙ ap (λ o. authz_of o (with_claims role email c)) unlimited
          ∙ ap next (sym same)
    ],
  )

  pub admin_only :
      (endpoint : Endpoint) (c c' : Context)
      → allowed_roles endpoint ≡ some (role_admin ∷ [])
      → c.keys ≡ []
      → before_handler parse login_path secret endpoint c ≡ next c'
      → (email : String) × Carries parse login_path secret role_admin email c.authorization
  admin_only endpoint c c' limited fresh h =
      let (_, (role, email, carried, one, _)) =
        (before_handler-restricted endpoint (role_admin ∷ []) c c' limited fresh).0 h in
      elim one [
        | inl admin ↦ (
          email,
          subst (λ r. Carries parse login_path secret r email c.authorization) (sym admin) carried,
        )
        | inr none_left ↦ absurd none_left
      ]

  -- The handlers that add, update and delete users run, from a fresh context, only if the request
  -- carries a valid token whose role is admin.
  user_writes-admin :
      (c c' : Context)
      → c.keys ≡ []
      → (before_handler parse login_path secret Endpoint.add_user c ≡ next c')
        ⊎ ((before_handler parse login_path secret Endpoint.update_user c ≡ next c')
            ⊎ (before_handler parse login_path secret Endpoint.delete_user c ≡ next c'))
      → (email : String) × Carries parse login_path secret role_admin email c.authorization
  unfolding allowed_roles
  user_writes-admin c c' fresh h = elim h [
    | inl h ↦ admin_only Endpoint.add_user c c' refl fresh h
    | inr (inl h) ↦ admin_only Endpoint.update_user c c' refl fresh h
    | inr (inr h) ↦ admin_only Endpoint.delete_user c c' refl fresh h
  ]
