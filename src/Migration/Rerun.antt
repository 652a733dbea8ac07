-- ===== src/Migration/Rerun.antt =====
-- After a successful initialization: a second run, and the start of the server.
use go_user_and_service_mgmt.Prelude.{
  zero, negsuc, String, Bool, true, false, List, [], ◌∷◌, ◌≡◌, refl, ap, ◌∙◌, subst, sym, ◌<◌,
  arith, count_if, length, length-SameRows, SameRows, ◌==◌, ◌||◌, not, number_comparable,
  text_comparable, Bool-cases, inl, inr, eq_iff,
}
use go_user_and_service_mgmt.Models.{UserRole}
use go_user_and_service_mgmt.Gorm.{Action, Result, ok, err, Database, Tables}
use go_user_and_service_mgmt.Gorm.Laws.{IsRelational, Finds}
use go_user_and_service_mgmt.Gorm.Rules.{on-call, on-count, on-test}
use go_user_and_service_mgmt.Users.Operations.{has_email}
use go_user_and_service_mgmt.Roles.{has_name, is_role, load_user_roles, record_roles}
use go_user_and_service_mgmt.Roles.Laws.{is_role-record_roles, filter-all}
use go_user_and_service_mgmt.Migration.{
  admin_user_email, admin_user_password, user_role, add_admin, add_role, init_roles,
  init_db_entities,
}
use go_user_and_service_mgmt.Migration.Completion.{
  named, FailsLacking, IsCalm, init_db_entities-FailsLacking,
}
use go_user_and_service_mgmt.Migration.Laws.{with_roles, Initializes, init_db_entities-Initializes}

-- A name is in use afterwards exactly if it was, or is given.
with_roles-has_name :
    (key : String) (order : List (String × String)) (rows : List UserRole)
    → not (count_if (has_name key) (with_roles order rows) == 0)
      ≡ (not (count_if (named key) order == 0) || not (count_if (has_name key) rows == 0))
with_roles-has_name key [] rows = refl
with_roles-has_name key ((name, d) ∷ rest) rows =
    elim (Bool-cases (count_if (has_name name) rows == 0)) [
      | inl h ↦ rw (h, with_roles-has_name key rest (user_role name d ∷ rows)) (ground arith)
      | inr h ↦
          rw (h, with_roles-has_name key rest rows)
            (elim (Bool-cases (name == key)) [
              | inl k ↦
                  let used =
                    subst (λ x. (count_if (has_name x) rows == 0) ≡ false) ((eq_iff name key).0 k)
                      h in
                  ground arith
              | inr k ↦ ground arith
            ])
    ]

no_rows : (p : UserRole → Bool) (rows : List UserRole) → length rows ≡ 0 → count_if p rows ≡ 0
no_rows p [] h = refl
no_rows p (r ∷ rows) h = omega (arith, h)

is_role-nil : (key : String) → is_role [] key ≡ false
unfolding is_role
is_role-nil key = refl

-- A name that is given makes a row.
some_row :
    (order : List (String × String)) (rows : List UserRole)
    → 0 < length order
    → ((key : String) → 0 < count_if (named key) order → 0 < count_if (has_name key) rows)
    → (length rows == 0) ≡ false
some_row [] rows h names = ground arith
some_row ((name, d) ∷ rest) rows h names =
    let itself = (eq_iff name name).1 refl in
    ground (arith, names name (ground arith), no_rows (has_name name) rows)

module _ {World : Type 0} (db : Database World) (laws : IsRelational db) where
  -- The loop changes nothing if no name is new.
  settled-init_roles :
      (before : Tables) (order : List (String × String)) (w : World)
      → ((key : String)
          → 0 < count_if (named key) order
          → 0 < count_if (has_name key) before.user_role)
      → db.tables w ≡ before
      → db.tables (init_roles db order w).1 ≡ before
  unfolding init_roles add_role
  settled-init_roles before [] w settled same = same
  settled-init_roles before ((name, d) ∷ rest) w settled same =
      let Q : Result (Unit {0}) × World → Type 0 = λ x. db.tables x.1 ≡ before in
      let itself = (eq_iff name name).1 refl in
      let new : (count_if (has_name name) before.user_role == 0) ≡ false =
        ground (arith, settled name (ground arith)) in
      on-count Q db.tables laws.user_roles_lem.readable (has_name name) _ _ same
        (λ w₁ e₁.
          on-call Q Q _ _
            (add_role db (count_if (has_name name) before.user_role == 0) (user_role name d)) w₁
            (rw new e₁)
            (λ _ w₂ e₂. settled-init_roles before rest w₂ (λ key h. settled key (ground arith)) e₂)
            (λ e w₂ e₂. e₂))
        (λ e w₁ e₁. e₁)

  settled-init_db_entities :
      (generate_password_hash : String → Action World String)
      → ((password : String) (w : World)
          → db.tables (generate_password_hash password w).1 ≡ db.tables w)
      → (order : List (String × String)) (w : World)
      → 0 < count_if (has_email admin_user_email) (db.tables w).user
      → ((key : String)
          → 0 < count_if (named key) order
          → 0 < count_if (has_name key) (db.tables w).user_role)
      → db.tables (init_db_entities db generate_password_hash order w).1 ≡ db.tables w
  unfolding init_db_entities add_admin
  settled-init_db_entities generate_password_hash silent order w admin settled =
      let before = db.tables w in
      let Q : Result (Unit {0}) × World → Type 0 = λ x. db.tables x.1 ≡ before in
      let there : (count_if (has_email admin_user_email) before.user == 0) ≡ false = ground arith in
      on-call Q (λ x. db.tables x.1 ≡ before) _ _ (generate_password_hash admin_user_password) w
        (silent admin_user_password w)
        (λ hash w₁ e₁.
          on-count Q db.tables laws.users_lem.readable (has_email admin_user_email) _ _ e₁
            (λ w₂ e₂.
              on-call Q Q _ _
                (add_admin db (count_if (has_email admin_user_email) before.user == 0) hash) w₂
                (rw there e₂) (λ _ w₃ e₃. settled-init_roles before order w₃ settled e₃)
                (λ e w₃ e₃. e₃))
            (λ e w₂ e₂. e₂))
        (λ e w₁ e₁. e₁)

  -- What a successful initialization leaves.
  abbrev HasNames : List (String × String) → List UserRole → World → Type 0
  HasNames order rows w' =
      (0 < count_if (has_email admin_user_email) (db.tables w').user)
      × ((key : String)
          → not (count_if (has_name key) (db.tables w').user_role == 0)
            ≡ (not (count_if (named key) order == 0) || not (count_if (has_name key) rows == 0)))

  Initializes-HasNames :
      (before : Tables) (hashed : Result String) (order : List (String × String))
      (x : Result (Unit {0}) × World)
      → x.0 ≡ ok tt
      → Initializes db before hashed order x
      → HasNames order before.user_role x.1
  Initializes-HasNames before hashed order (ok _, w') done (hash, _, _, (id, users), roles) = (
    ground (arith, users (has_email admin_user_email)),
    λ key. rw (roles (has_name key)) (with_roles-has_name key order before.user_role),
  )
  Initializes-HasNames before hashed order (err e, w') done _ = ground arith

  module _ (generate_password_hash : String → Action World String)
      (silent : (password : String) (w : World)
        → db.tables (generate_password_hash password w).1 ≡ db.tables w)
      (order : List (String × String)) (w w' : World)
      (done : (init_db_entities db generate_password_hash order w).0 ≡ ok tt)
      (since : db.tables w'
        ≡ db.tables (init_db_entities db generate_password_hash order w).1) where
    left : HasNames order (db.tables w).user_role w'
    left =
        subst
          (λ t.
            (0 < count_if (has_email admin_user_email) t.user)
            × ((key : String)
                → not (count_if (has_name key) t.user_role == 0) ≡ (
                    not (count_if (named key) order == 0)
                    || not (count_if (has_name key) (db.tables w).user_role == 0))))
          (sym since)
          (Initializes-HasNames (db.tables w) _ order _ done
            (init_db_entities-Initializes db laws generate_password_hash silent order w))

    unchanged :
        (order' : List (String × String))
        → SameRows order' order
        → db.tables (init_db_entities db generate_password_hash order' w').1 ≡ db.tables w'
    unchanged order' same =
        settled-init_db_entities generate_password_hash silent order' w' (left.0)
          (λ key h. ground (arith, left.1 key, same (named key)))

    nothing_lacks :
        (order' : List (String × String)) (x : Result (Unit {0}) × World)
        → SameRows order' order
        → FailsLacking db order' x
        → db.tables x.1 ≡ db.tables w'
        → x.0 ≡ ok tt
    nothing_lacks order' (ok _, w₁) same h kept = refl
    nothing_lacks order' (err e, w₁) same h kept = elim h [
      | inl no_admin ↦
          let gone =
            ap (λ (t : Tables). count_if (has_email admin_user_email) t.user) (sym kept)
            ∙ no_admin in
          absurd (omega (arith, left.0, gone))
      | inr (name, given, no_role) ↦
          let gone =
            ap (λ (t : Tables). count_if (has_name name) t.user_role) (sym kept) ∙ no_role in
          absurd (ground (arith, left.1 name, same (named name), gone))
    ]

    -- If hashing leaves the tables alone, then after a run of `InitDBEntities` that succeeded, a
    -- second run in which hashing and counting succeed succeeds as well, and changes nothing, in
    -- whatever order the roles come then, whether or not a row that is there could be added again.
    pub init_db_entities-again :
        (Calm : World → Type 0)
        → IsCalm db generate_password_hash Calm
        → Calm w'
        → (order' : List (String × String)) → SameRows order' order
        → ((init_db_entities db generate_password_hash order' w').0 ≡ ok tt)
          × (db.tables (init_db_entities db generate_password_hash order' w').1 ≡ db.tables w')
    init_db_entities-again Calm calm still order' same = (
      nothing_lacks order' (init_db_entities db generate_password_hash order' w') same
          (init_db_entities-FailsLacking db laws generate_password_hash Calm calm order' w' still)
          (unchanged order' same),
      unchanged order' same,
    )

    -- The roles are loaded at the next start: if hashing leaves the tables alone, the initialization
    -- succeeded with at least one role, the tables are as it left them and the query of the roles
    -- succeeds, then loading succeeds, and the names known are those of the given roles and those
    -- that were stored before.
    pub init_db_entities-load_user_roles :
        (rows : List UserRole)
        → 0 < length order
        → (db.user_roles.find (λ _. true) (negsuc zero) (negsuc zero) w').0 ≡ ok rows
        → (loaded : List (String × String)) × ((load_user_roles db [] w').0 ≡ ok loaded)
          × ((key : String)
              → is_role loaded key ≡ (
                  not (count_if (named key) order == 0)
                  || not (count_if (has_name key) (db.tables w).user_role == 0)))
    unfolding load_user_roles
    init_db_entities-load_user_roles rows some_role found =
        let after = db.tables w' in
        let P : Result (List UserRole) × World → Type 0 = λ x.
          (x.0 ≡ ok rows)
          × Finds db.tables after (λ _. true) (negsuc zero) (negsuc zero) after.user_role x in
        let Known : Result (List (String × String)) × World → Type 0 = λ x.
          (loaded : List (String × String)) × (x.0 ≡ ok loaded)
          × ((key : String)
              → is_role loaded key ≡ (
                  not (count_if (named key) order == 0)
                  || not (count_if (has_name key) (db.tables w).user_role == 0))) in
        on-call Known P _ _ (db.user_roles.find (λ _. true) (negsuc zero) (negsuc zero)) w'
          (found, laws.user_roles_lem.readable.find_lem (λ _. true) (negsuc zero) (negsuc zero) w')
          (λ all w₁ (_, (_, (listing, sorted, all_of))).
            let stored : SameRows listing after.user_role =
              rw (filter-all after.user_role) at sorted in
            rw all_of (
              on-test Known _ _ _ w₁
                (λ none. ground (
                  arith,
                  some_row order after.user_role some_role (λ key h. ground (arith, left.1 key)),
                  length-SameRows listing after.user_role stored,
                ))
                (λ _. (
                  record_roles listing [],
                  refl,
                  λ key.
                      is_role-record_roles listing [] key
                      ∙ ground (arith, left.1 key, is_role-nil key, stored (has_name key)),
                ))))
          (λ e w₁ (bad, _). ground arith)
