-- ===== src/Migration/Laws.antt =====
-- What the initialization leaves in the tables.
use go_user_and_service_mgmt.Prelude.{
  ℕ, String, Bool, true, false, List, [], ◌∷◌, ◌≡◌, refl, ◌≤◌, arith, count_if, SameRows, ◌==◌,
  number_comparable, if◌then◌else◌, Bool-cases, inl, inr, ap, ◌∙◌, sym,
}
use go_user_and_service_mgmt.Errors.{GoError}
use go_user_and_service_mgmt.Models.{User, UserRole}
use go_user_and_service_mgmt.Gorm.{Action, Result, ok, err, Database, Tables}
use go_user_and_service_mgmt.Gorm.Laws.{IsRelational}
use go_user_and_service_mgmt.Gorm.Rules.{on-call, on-count, on-create}
use go_user_and_service_mgmt.Users.Operations.{has_email}
use go_user_and_service_mgmt.Roles.{has_name}
use go_user_and_service_mgmt.Migration.{
  admin_user, admin_user_email, admin_user_password, user_role, add_admin, add_role, init_roles,
  init_db_entities,
}

-- The roles that should be there afterwards: the stored ones, and the given ones whose name is
-- not in use.
abbrev pub with_roles : List (String × String) → List UserRole → List UserRole
with_roles [] rows = rows
with_roles ((name, description) ∷ rest) rows = with_roles rest (
    if count_if (has_name name) rows == 0
    then record { name = name; description = description } ∷ rows
    else rows)

-- Every row is still there.
abbrev pub Grows {ℓ} : {R : Type ℓ} → List R → List R → Type ℓ
Grows {R} old new = (p : R → Bool) → count_if p old ≤ count_if p new

pub Grows-if :
    {R : Type 0} (b : Bool) (r : R) (rows : List R) → Grows rows (if b then r ∷ rows else rows)
Grows-if true r rows p = omega arith
Grows-if false r rows p = omega arith

pub with_roles-SameRows :
    (order : List (String × String)) (xs ys : List UserRole)
    → SameRows xs ys
    → SameRows (with_roles order xs) (with_roles order ys)
with_roles-SameRows [] xs ys same = same
with_roles-SameRows ((name, description) ∷ rest) xs ys same = with_roles-SameRows rest _ _ (
    rw (same (has_name name)) (elim (Bool-cases (count_if (has_name name) ys == 0)) [
      | inl h ↦ rw h (λ p. omega (arith, same p))
      | inr h ↦ rw h same
    ]))

module _ {World : Type 0} (db : Database World) (before : Tables) where
  abbrev pub OnlyRoles : World → Type 0
  OnlyRoles w' = db.tables w' ≡ record before { user_role = (db.tables w').user_role }

  abbrev pub OnlyUsersAndRoles : World → Type 0
  OnlyUsersAndRoles w' =
      db.tables w'
      ≡ record before { user = (db.tables w').user; user_role = (db.tables w').user_role }

  -- One role is added if it should be.
  abbrev AddsRole : Bool → UserRole → Result (Unit {0}) × World → Type 0
  AddsRole b r (ok _, w') =
      OnlyRoles w'
      × SameRows (db.tables w').user_role (if b then r ∷ before.user_role else before.user_role)
  AddsRole b r (err e, w') = (db.tables w' ≡ before) × (e ≡ GoError.formatted)

  -- The roles are complete, or an error stopped the loop, and no role is lost.
  abbrev pub CompletesRoles : List (String × String) → Result (Unit {0}) × World → Type 0
  CompletesRoles order (ok _, w') =
      OnlyRoles w' × SameRows (db.tables w').user_role (with_roles order before.user_role)
  CompletesRoles order (err e, w') =
      OnlyRoles w' × Grows before.user_role (db.tables w').user_role × (e ≡ GoError.formatted)

  -- The administrator under a fresh key, unless a user has the email.
  abbrev pub HasAdmin : String → List User → Type 0
  HasAdmin hash rows =
      (id : ℕ) × SameRows rows (
        if count_if (has_email "admin@mgmtportal.com") before.user == 0
        then record {
          id = id;
          name = "admin";
          email = "admin@mgmtportal.com";
          role = "admin";
          password_hash = hash;
          is_temporary_password = true;
        }
          ∷ before.user
        else before.user)

  -- The administrator, with the hash that was computed, and the roles are there, or an error
  -- stopped the run, and no user and no role is lost.
  abbrev pub Initializes :
      Result String → List (String × String) → Result (Unit {0}) × World → Type 0
  Initializes hashed order (ok _, w') =
      (hash : String) × (hashed ≡ ok hash)
      × OnlyUsersAndRoles w'
      × HasAdmin hash (db.tables w').user
      × SameRows (db.tables w').user_role (with_roles order before.user_role)
  Initializes hashed order (err e, w') =
      OnlyUsersAndRoles w'
      × Grows before.user (db.tables w').user
      × Grows before.user_role (db.tables w').user_role
      × (e ≡ GoError.formatted)

  abbrev AddsAdmin : Bool → String → Result (Unit {0}) × World → Type 0
  AddsAdmin b hash (ok _, w') =
      (id : ℕ) × (db.tables w' ≡ record before { user = (db.tables w').user })
      × SameRows (db.tables w').user
          (if b then record (admin_user hash) { id = id } ∷ before.user else before.user)
  AddsAdmin b hash (err e, w') = (db.tables w' ≡ before) × (e ≡ GoError.formatted)

module _ {World : Type 0} (db : Database World) (laws : IsRelational db) where
  add_role-AddsRole :
      (b : Bool) (r : UserRole) (w : World) → AddsRole db (db.tables w) b r (add_role db b r w)
  unfolding add_role
  add_role-AddsRole true r w =
      on-create (AddsRole db (db.tables w) true r) db.tables laws.user_roles_lem r _ _ refl
        (λ x w₁ (frame, filled, rows, id, key). (frame, rw filled at rows))
        (λ e w₁ (same, dup). (same, refl))
  add_role-AddsRole false r w = (refl, λ p. refl)

  add_admin-AddsAdmin :
      (b : Bool) (hash : String) (w : World)
      → AddsAdmin db (db.tables w) b hash (add_admin db b hash w)
  unfolding add_admin
  add_admin-AddsAdmin true hash w =
      on-create (AddsAdmin db (db.tables w) true hash) db.tables laws.users_lem (admin_user hash) _
        _ refl (λ r w₁ (frame, filled, rows, id, key). (r.id, frame, rw filled at rows))
        (λ e w₁ (same, dup). (same, refl))
  add_admin-AddsAdmin false hash w = (0, refl, λ p. refl)

  OnlyRoles-trans :
      (before : Tables) (w₁ w' : World)
      → OnlyRoles db before w₁
      → OnlyRoles db (db.tables w₁) w'
      → OnlyRoles db before w'
  OnlyRoles-trans before w₁ w' frame frame' =
      frame' ∙ ap (λ (t : Tables). record t { user_role = (db.tables w').user_role }) frame

  OnlyRoles-same :
      (before : Tables) (w' : World)
      → db.tables w' ≡ before
      → OnlyRoles db before w' × Grows before.user_role (db.tables w').user_role
  OnlyRoles-same before w' same = rw same (refl, λ p. omega arith)

  -- What the rest of the loop completes, after the first role was added.
  CompletesRoles-step :
      (before : Tables) (w₁ : World) (name description : String) (rest : List (String × String))
      (x : Result (Unit {0}) × World)
      → AddsRole db before
          (count_if (has_name name) before.user_role == 0)
          (user_role name description)
          (ok tt, w₁)
      → CompletesRoles db (db.tables w₁) rest x
      → CompletesRoles db before ((name, description) ∷ rest) x
  CompletesRoles-step before w₁ name description rest (ok _, w') (frame, rows) (frame', rows') = (
    OnlyRoles-trans before w₁ w' frame frame',
    λ p. rows' p ∙ with_roles-SameRows rest _ _ rows p,
  )
  CompletesRoles-step before w₁ name description rest (err e, w') (frame, rows)
        (frame', grows, formatted) =
      (
        OnlyRoles-trans before w₁ w' frame frame',
        λ p. omega (
          arith,
          grows p,
          rows p,
          Grows-if (count_if (has_name name) before.user_role == 0) (user_role name description)
              before.user_role p,
        ),
        formatted,
      )

  pub init_roles-CompletesRoles :
      (order : List (String × String)) (w : World)
      → CompletesRoles db (db.tables w) order (init_roles db order w)
  unfolding init_roles
  init_roles-CompletesRoles [] w = (refl, λ p. refl)
  init_roles-CompletesRoles ((name, description) ∷ rest) w =
      let before = db.tables w in
      let Q = CompletesRoles db before ((name, description) ∷ rest) in
      let b = count_if (has_name name) before.user_role == 0 in
      let r = user_role name description in
      on-count Q db.tables laws.user_roles_lem.readable (has_name name) _ _ refl
        (λ w₁ e₁.
          on-call Q (AddsRole db before b r) _ _ (add_role db b r) w₁
            (rw e₁ at (add_role-AddsRole b r w₁))
            (λ _ w₂ added.
              CompletesRoles-step before w₂ name description rest (init_roles db rest w₂) added
                (init_roles-CompletesRoles rest w₂))
            (λ e w₂ (same, formatted).
              let (frame, grows) = OnlyRoles-same before w₂ same in (frame, grows, formatted)))
        (λ e w₁ e₁. let (frame, grows) = OnlyRoles-same before w₁ e₁ in (frame, grows, refl))

  Initializes-same :
      (before : Tables) (hashed : Result String) (order : List (String × String)) (w' : World)
      → db.tables w' ≡ before
      → Initializes db before hashed order (err GoError.formatted, w')
  Initializes-same before hashed order w' same =
      rw same (refl, λ p. omega arith, λ p. omega arith, refl)

  -- First the users, then the roles.
  frames :
      (before : Tables) (w₁ w' : World)
      → db.tables w₁ ≡ record before { user = (db.tables w₁).user }
      → OnlyRoles db (db.tables w₁) w'
      → OnlyUsersAndRoles db before w'
        × ((db.tables w').user ≡ (db.tables w₁).user)
        × ((db.tables w₁).user_role ≡ before.user_role)
  frames before w₁ w' frame frame' =
      let users = ap (λ (t : Tables). t.user) frame' in
      let roles = (db.tables w').user_role in
      (
        (frame' ∙ ap (λ (t : Tables). record t { user_role = roles }) frame)
            ∙ ap (λ l. record before { user = l; user_role = roles }) (sym users),
        users,
        ap (λ (t : Tables). t.user_role) frame,
      )

  -- What the loop over the roles completes, after the administrator was added.
  Initializes-finish :
      (before : Tables) (hash : String) (order : List (String × String)) (w₁ : World)
      (x : Result (Unit {0}) × World)
      → AddsAdmin db before
          (count_if (has_email admin_user_email) before.user == 0)
          hash
          (ok tt, w₁)
      → CompletesRoles db (db.tables w₁) order x
      → Initializes db before (ok hash) order x
  Initializes-finish before hash order w₁ (ok _, w') (id, frame, users) (frame', roles) =
      let (both, same_users, same_roles) = frames before w₁ w' frame frame' in
      (hash, refl, both, (id, rw same_users users), rw same_roles at roles)
  Initializes-finish before hash order w₁ (err e, w') (id, frame, users)
        (frame', grows, formatted) =
      let (both, same_users, same_roles) = frames before w₁ w' frame frame' in
      (
        both,
        λ p. rw same_users (
            omega (
              arith,
              users p,
              Grows-if (count_if (has_email admin_user_email) before.user == 0)
                  (record (admin_user hash) { id = id }) before.user p,
            )),
        rw same_roles at grows,
        formatted,
      )

  -- If hashing leaves the tables alone, `InitDBEntities` adds the administrator, unless a user has
  -- its email, and the given roles whose names are not in use, in whatever order the roles come,
  -- and nothing else; or it returns an error, and has changed no row that was there.
  pub init_db_entities-Initializes :
      (generate_password_hash : String → Action World String)
      → ((password : String) (w : World)
          → db.tables (generate_password_hash password w).1 ≡ db.tables w)
      → (order : List (String × String)) (w : World)
      → Initializes db
          (db.tables w)
          (generate_password_hash "admin123" w).0
          order
          (init_db_entities db generate_password_hash order w)
  unfolding init_db_entities
  init_db_entities-Initializes generate_password_hash silent order w =
      let before = db.tables w in
      let hashed = (generate_password_hash admin_user_password w).0 in
      let Q = Initializes db before hashed order in
      let b = count_if (has_email admin_user_email) before.user == 0 in
      on-call Q (λ x. (hashed ≡ x.0) × (db.tables x.1 ≡ before)) _ _
        (generate_password_hash admin_user_password) w (refl, silent admin_user_password w)
        (λ hash w₁ (is_hash, e₁).
          on-count Q db.tables laws.users_lem.readable (has_email admin_user_email) _ _ e₁
            (λ w₂ e₂.
              on-call Q (AddsAdmin db before b hash) _ _ (add_admin db b hash) w₂
                (rw e₂ at (add_admin-AddsAdmin b hash w₂))
                (λ _ w₃ added. rw is_hash (
                  Initializes-finish before hash order w₃ (init_roles db order w₃) added
                    (init_roles-CompletesRoles order w₃)))
                (λ e w₃ (same, formatted).
                  rw formatted (Initializes-same before hashed order w₃ same)))
            (λ e w₂ e₂. Initializes-same before hashed order w₂ e₂))
        (λ e w₁ (_, e₁). Initializes-same before hashed order w₁ e₁)
