-- ===== src/Main/Start.antt =====
-- From a migration run to a server.
use go_user_and_service_mgmt.Prelude.{
  zero, negsuc, String, true, false, List, [], ◌≡◌, refl, ap, sym, ◌∙◌, subst, ◌<◌, arith, count_if,
  length, ◌==◌, ◌||◌, not, number_comparable,
}
use go_user_and_service_mgmt.Models.{UserRole}
use go_user_and_service_mgmt.Gorm.{Result, ok, Database, Tables, or_error, ◌>>=◌}
use go_user_and_service_mgmt.Gorm.Laws.{IsRelational}
use go_user_and_service_mgmt.Gorm.Rules.{on-call}
use go_user_and_service_mgmt.Configs.{Variables, Config, init_config}
use go_user_and_service_mgmt.Roles.{has_name, is_role, load_user_roles}
use go_user_and_service_mgmt.Roles.Laws.{Loads, load_user_roles-Loads}
use go_user_and_service_mgmt.Migration.{migrate_db_entities, init_db_entities}
use go_user_and_service_mgmt.Migration.Completion.{named}
use go_user_and_service_mgmt.Migration.Rerun.{init_db_entities-load_user_roles}
use go_user_and_service_mgmt.Main.{
  Stage, exited, serving, Outside, IsSilent, migrate_run, serve_run, start,
}

module _ {World : Type 0} (db : Database World) (laws : IsRelational db) (out : Outside World)
    (silent : IsSilent db.tables out) (order : List (String × String)) where
  abbrev roles_of : World → List UserRole
  roles_of w = (db.tables w).user_role

  -- The roles are kept by a call.
  abbrev Keeps : {A : Type 0} → List UserRole → Result A × World → Type 0
  Keeps rows x = roles_of x.1 ≡ rows

  migrate_db_entities-Keeps :
      (w : World) → Keeps (roles_of w) (migrate_db_entities out.definitions w)
  unfolding migrate_db_entities
  migrate_db_entities-Keeps w =
      let rows = (db.tables w).user_role in
      let Q : Result (Unit {0}) × World → Type 0 = Keeps rows in
      let kept = λ (w₁ w₂ : World) (e : db.tables w₂ ≡ db.tables w₁) (k : roles_of w₁ ≡ rows).
        ap (λ (t : Tables). t.user_role) e ∙ k in
      on-call Q Q _ _ out.definitions.migrate_users w (kept w _ (silent.users_lem w) refl)
        (λ _ w₁ k₁.
          on-call Q Q _ _ out.definitions.migrate_services w₁
            (kept w₁ _ (silent.services_lem w₁) k₁)
            (λ _ w₂ k₂.
              on-call Q Q _ _ out.definitions.migrate_versions w₂
                (kept w₂ _ (silent.versions_lem w₂) k₂)
                (λ _ w₃ k₃.
                  on-call Q Q _ _ out.definitions.migrate_roles w₃
                    (kept w₃ _ (silent.roles_lem w₃) k₃)
                    (λ _ w₄ k₄.
                      on-call Q Q _ _ out.definitions.create_view w₄
                        (ap (λ (t : Tables). t.user_role) (silent.view_lem w₄) ∙ k₄) (λ _ w₅ k₅. k₅)
                        (λ _ _ k. k))
                    (λ _ _ k. k))
                (λ _ _ k. k))
            (λ _ _ k. k))
        (λ _ _ k. k)

  -- A migration run that ends well has initialized the tables at some moment, and ends there.
  abbrev Migrated : World → Result Stage × World → Type 0
  Migrated w x =
      x.0 ≡ ok exited
      → (w₁ : World) × (roles_of w₁ ≡ roles_of w)
        × (init_db_entities db out.generate_password_hash order w₁ ≡ (ok tt, x.1))

  migrate_run-Migrated :
      (w₀ w : World) → roles_of w ≡ roles_of w₀ → Migrated w₀ (migrate_run db out order w)
  unfolding migrate_run
  migrate_run-Migrated w₀ w same =
      on-call (Migrated w₀) (Keeps (roles_of w₀)) _ _ (migrate_db_entities out.definitions) w
        (migrate_db_entities-Keeps w ∙ same)
        (λ _ w₁ k.
          on-call (Migrated w₀) (λ x. init_db_entities db out.generate_password_hash order w₁ ≡ x) _
            _ (init_db_entities db out.generate_password_hash order) w₁ refl
            (λ _ w₂ run _. (w₁, k, run)) (λ e w₂ _ bad. ground arith))
        (λ e w₁ _ bad. ground arith)

  start-Migrated :
      (env_file : String) (variables : Variables) (w : World)
      → Migrated w (start db out order true env_file variables w)
  unfolding start
  start-Migrated env_file variables w =
      on-call (Migrated w) (Keeps (roles_of w)) _ _
        (λ w. ((init_config out.load env_file variables).0, w)) w refl
        (λ config w₁ k.
          on-call (Migrated w) (Keeps (roles_of w)) _ _ (out.open_db config) w₁
            (ap (λ (t : Tables). t.user_role) (silent.open_db_lem config w₁) ∙ k)
            (λ _ w₂ k₂. migrate_run-Migrated w w₂ k₂) (λ e w₂ _ bad. ground arith))
        (λ e w₁ _ bad. ground arith)

  module _ (env_file : String) (variables : Variables) (w : World) where
    -- If a migration run with at least one role to configure exits well, and the server starts on
    -- the tables that it left, and its configuration, connection and query of the roles succeed,
    -- then it goes on to serve, and the roles that it knows are the configured ones and those that
    -- were stored before; where definitions, connection and hashing leave the rows alone.
    pub start-serves :
        (start db out order true env_file variables w).0 ≡ ok exited
        → 0 < length order
        → (env_file' : String) (variables' : Variables) (w' w₁ : World) (config : Config)
          (rows : List UserRole)
        → db.tables w' ≡ db.tables (start db out order true env_file variables w).1
        → (init_config out.load env_file' variables').0 ≡ ok config
        → out.open_db config w' ≡ (ok tt, w₁)
        → (db.user_roles.find (λ _. true) (negsuc zero) (negsuc zero) w₁).0 ≡ ok rows
        → (roles : List (String × String)) × ((start db out order false env_file' variables' w').0
            ≡ ok (serving roles))
          × ((key : String)
              → is_role roles key ≡ (
                  not (count_if (named key) order == 0)
                  || not (count_if (has_name key) (db.tables w).user_role == 0)))
    unfolding start serve_run ◌>>=◌ or_error
    start-serves done some_role env_file' variables' w' w₁ config rows since configured opened
          found =
        let (w₀, kept, run) = start-Migrated env_file variables w done in
        let open_same : db.tables w₁ ≡ db.tables w' =
          subst (λ x. db.tables x.1 ≡ db.tables w') opened (silent.open_db_lem config w') in
        let (roles, loaded, known) =
          init_db_entities-load_user_roles db laws out.generate_password_hash silent.hash_lem order
            w₀ w₁ (ap (λ x. x.0) run) (open_same ∙ since ∙ ap (λ x. db.tables x.1) (sym run)) rows
            some_role found in
        (roles, rw (configured, opened, loaded) refl, λ key. rw kept at (known key))

    -- On tables without roles, no start that does not migrate goes on to serve, where the connection
    -- leaves the rows alone.
    pub start-unmigrated :
        roles_of w ≡ []
        → (roles : List (String × String))
        → ¬ ((start db out order false env_file variables w).0 ≡ ok (serving roles))
    unfolding start serve_run
    start-unmigrated none roles =
        let Q : Result Stage × World → Type 0 = λ x. ¬ (x.0 ≡ ok (serving roles)) in
        on-call Q (Keeps (roles_of w)) _ _ (λ w. ((init_config out.load env_file variables).0, w)) w
          refl
          (λ config w₁ k.
            on-call Q (Keeps (roles_of w)) _ _ (out.open_db config) w₁
              (ap (λ (t : Tables). t.user_role) (silent.open_db_lem config w₁) ∙ k)
              (λ _ w₂ k₂.
                on-call Q (Loads db laws w₂ []) _ _ (load_user_roles db []) w₂
                  (load_user_roles-Loads db laws w₂ [])
                  (λ loaded w₃ (_, some_row, _) bad.
                    let empty : roles_of w₂ ≡ [] = k₂ ∙ none in
                    let long = rw empty at some_row in omega (arith, long))
                  (λ e w₃ _ bad. ground arith))
              (λ e w₂ _ bad. ground arith))
          (λ e w₁ _ bad. ground arith)
