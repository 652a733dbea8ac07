-- ===== src/Migration/Completion.antt =====
-- When the initialization fails: where hashing, counting and a row's creation are sound, an error
-- means that something is still missing.
use go_user_and_service_mgmt.Prelude.{
  String, Bool, true, false, List, [], ◌∷◌, ◌≡◌, refl, ◌∙◌, ap, ◌⊎◌, inl, inr, ◌<◌, arith, count_if,
  ◌==◌, number_comparable, text_comparable, eq_iff,
}
use go_user_and_service_mgmt.Models.{UserRole}
use go_user_and_service_mgmt.Gorm.{Action, Result, ok, err, Database, Tables}
use go_user_and_service_mgmt.Gorm.Laws.{
  IsRelational, Reads, Creates, user_schema, user_role_schema, Succeeds,
}
use go_user_and_service_mgmt.Gorm.Rules.{on-call}
use go_user_and_service_mgmt.Users.Operations.{has_email}
use go_user_and_service_mgmt.Roles.{has_name}
use go_user_and_service_mgmt.Migration.{
  admin_user, admin_user_email, admin_user_password, user_role, add_admin, add_role, init_roles,
  init_db_entities,
}

abbrev pub named : String → String × String → Bool
named name entry = entry.0 == name

-- A call that leaves a calm world if it succeeds.
abbrev pub StaysCalm : {World A : Type 0} → (World → Type 0) → Result A × World → Type 0
StaysCalm Calm (ok _, w') = Calm w'
StaysCalm Calm (err _, _) = Unit

-- Worlds in which hashing and counting succeed; a row may be refused, whatever the reason.
pub record IsCalm {World : Type 0} (db : Database World)
    (generate_password_hash : String → Action World String) (Calm : World → Type 0) : Type 0 where
  pub hashes :
      (password : String) (w : World) → Calm w → Succeeds Calm (generate_password_hash password w)
  pub counts_users :
      (email : String) (w : World) → Calm w → Succeeds Calm (db.users.count (has_email email) w)
  pub counts_roles :
      (name : String) (w : World) → Calm w → Succeeds Calm (db.user_roles.count (has_name name) w)
  pub creates_user :
      (hash : String) (w : World) → Calm w → StaysCalm Calm (db.users.create (admin_user hash) w)
  pub creates_role : (r : UserRole) (w : World) → Calm w → StaysCalm Calm (db.user_roles.create r w)

-- A role to configure has a name that no row has.
abbrev pub LacksRole : List (String × String) → List UserRole → Type 0
LacksRole order rows =
    (name : String) × (0 < count_if (named name) order) × (count_if (has_name name) rows ≡ 0)

LacksRole-cons :
    (entry : String × String) (order : List (String × String)) (rows : List UserRole)
    → LacksRole order rows
    → LacksRole (entry ∷ order) rows
LacksRole-cons entry order rows (name, given, missing) = (name, omega arith, missing)

module _ {World : Type 0} (db : Database World) where
  -- An error of the loop leaves a role missing.
  abbrev FailsLackingRole : List (String × String) → Result (Unit {0}) × World → Type 0
  FailsLackingRole order (ok _, w') = Unit
  FailsLackingRole order (err _, w') = LacksRole order (db.tables w').user_role

  -- An error leaves the administrator or a role missing.
  abbrev pub FailsLacking : List (String × String) → Result (Unit {0}) × World → Type 0
  FailsLacking order (ok _, w') = Unit
  FailsLacking order (err _, w') =
      (count_if (has_email "admin@mgmtportal.com") (db.tables w').user ≡ 0)
      ⊎ LacksRole order (db.tables w').user_role

  FailsLacking-roles :
      (order : List (String × String)) (x : Result (Unit {0}) × World)
      → FailsLackingRole order x
      → FailsLacking order x
  FailsLacking-roles order (ok _, w') h = h
  FailsLacking-roles order (err _, w') h = inr h

  FailsLackingRole-cons :
      (entry : String × String) (order : List (String × String)) (x : Result (Unit {0}) × World)
      → FailsLackingRole order x
      → FailsLackingRole (entry ∷ order) x
  FailsLackingRole-cons entry order (ok _, w') h = h
  FailsLackingRole-cons entry order (err _, w') h = LacksRole-cons entry order _ h

  module _ (laws : IsRelational db) (generate_password_hash : String → Action World String)
      (Calm : World → Type 0) (calm : IsCalm db generate_password_hash Calm) where
    -- An addition fails only if it is tried, and then changes nothing.
    abbrev AddsCalmly : Bool → Tables → Result (Unit {0}) × World → Type 0
    AddsCalmly b before (ok _, w') = Calm w'
    AddsCalmly b before (err _, w') = (b ≡ true) × (db.tables w' ≡ before)

    add_role-AddsCalmly :
        (b : Bool) (r : UserRole) (w : World)
        → Calm w
        → AddsCalmly b (db.tables w) (add_role db b r w)
    unfolding add_role
    add_role-AddsCalmly true r w still =
        let P = λ (x : Result UserRole × World).
          Creates db.tables (db.tables w) user_role_schema r x × StaysCalm Calm x in
        on-call (AddsCalmly true (db.tables w)) P _ _ (db.user_roles.create r) w
          (laws.user_roles_lem.create_lem r w, calm.creates_role r w still)
          (λ _ w₁ (_, still'). still') (λ e w₁ ((same, _), _). (refl, same))
    add_role-AddsCalmly false r w still = still

    add_admin-AddsCalmly :
        (b : Bool) (hash : String) (w : World)
        → Calm w
        → AddsCalmly b (db.tables w) (add_admin db b hash w)
    unfolding add_admin
    add_admin-AddsCalmly true hash w still =
        on-call (AddsCalmly true (db.tables w))
          (λ x. Creates db.tables (db.tables w) user_schema (admin_user hash) x × StaysCalm Calm x)
          _ _ (db.users.create (admin_user hash)) w
          (laws.users_lem.create_lem (admin_user hash) w, calm.creates_user hash w still)
          (λ _ w₁ (_, still'). still') (λ e w₁ ((same, _), _). (refl, same))
    add_admin-AddsCalmly false hash w still = still

    init_roles-FailsLackingRole :
        (order : List (String × String)) (w : World)
        → Calm w
        → FailsLackingRole order (init_roles db order w)
    unfolding init_roles
    init_roles-FailsLackingRole [] w still = tt
    init_roles-FailsLackingRole ((name, description) ∷ rest) w still =
        let before = db.tables w in
        let Q = FailsLackingRole ((name, description) ∷ rest) in
        let n = count_if (has_name name) before.user_role in
        on-call Q (λ x. Reads db.tables before n x × Succeeds Calm x) _ _
          (db.user_roles.count (has_name name)) w
          (laws.user_roles_lem.readable.count_lem (has_name name) w, calm.counts_roles name w still)
          (λ m w₁ ((same, is), still₁). rw is (
            on-call Q (AddsCalmly (n == 0) (db.tables w₁)) _ _
              (add_role db (n == 0) (user_role name description)) w₁
              (add_role-AddsCalmly (n == 0) (user_role name description) w₁ still₁)
              (λ _ w₂ still₂.
                FailsLackingRole-cons (name, description) rest (init_roles db rest w₂)
                  (init_roles-FailsLackingRole rest w₂ still₂))
              (λ e w₂ (none_yet, same').
                let rows =
                  ap (λ (t : Tables). count_if (has_name name) t.user_role) (same' ∙ same) in
                (name, ground (arith, (eq_iff name name).1 refl), rows ∙ ground arith))))
          (λ e w₁ (_, bad). absurd bad)

    pub init_db_entities-FailsLacking :
        (order : List (String × String)) (w : World)
        → Calm w
        → FailsLacking order (init_db_entities db generate_password_hash order w)
    unfolding init_db_entities
    init_db_entities-FailsLacking order w still =
        let Q = FailsLacking order in
        on-call Q (Succeeds Calm) _ _ (generate_password_hash admin_user_password) w
          (calm.hashes admin_user_password w still)
          (λ hash w₁ still₁.
            let n = count_if (has_email admin_user_email) (db.tables w₁).user in
            on-call Q (λ x. Reads db.tables (db.tables w₁) n x × Succeeds Calm x) _ _
              (db.users.count (has_email admin_user_email)) w₁
              (
                laws.users_lem.readable.count_lem (has_email admin_user_email) w₁,
                calm.counts_users admin_user_email w₁ still₁,
              )
              (λ m w₂ ((same, is), still₂). rw is (
                on-call Q (AddsCalmly (n == 0) (db.tables w₂)) _ _ (add_admin db (n == 0) hash) w₂
                  (add_admin-AddsCalmly (n == 0) hash w₂ still₂)
                  (λ _ w₃ still₃.
                    FailsLacking-roles order (init_roles db order w₃)
                      (init_roles-FailsLackingRole order w₃ still₃))
                  (λ e w₃ (none_yet, same').
                    let rows =
                      ap (λ (t : Tables). count_if (has_email admin_user_email) t.user)
                        (same' ∙ same) in
                    inl (rows ∙ ground arith))))
              (λ e w₂ (_, bad). absurd bad))
          (λ e w₁ bad. absurd bad)
