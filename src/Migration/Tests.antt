-- ===== src/Migration/Tests.antt =====
-- The initialization of an empty database, and the theorems at that run.
use go_user_and_service_mgmt.Prelude.{
  suc, Bool, true, String, List, [], ◌∷◌, ◌++◌, ◌≡◌, ap, refl, ◌<◌, ◌≤◌, ◌^◌, ltb, length, count_if,
  Bool-cases, inl, inr, number_comparable, arith, ◌==◌, ◌&&◌,
}
use go_user_and_service_mgmt.Errors.{GoError}
use go_user_and_service_mgmt.Models.{UserRole}
use go_user_and_service_mgmt.Gorm.{Action, Result, Tables, ok, err, or_error, ◌>>=◌, fail_if}
use go_user_and_service_mgmt.Gorm.Memory.{
  Memory, memory, statement, count_rows, create_row, fill_user, has_room,
}
use go_user_and_service_mgmt.Gorm.Laws.{Succeeds, Schema, user_schema, user_role_schema}
use go_user_and_service_mgmt.Users.Operations.{has_email}
use go_user_and_service_mgmt.Roles.{has_name}
use go_user_and_service_mgmt.Gorm.Memory.Laws.{memory-IsRelational}
use go_user_and_service_mgmt.Roles.{load_user_roles}
use go_user_and_service_mgmt.Migration.{
  admin_user, default_roles, user_role, init_db_entities, init_roles, add_admin, add_role,
}
use go_user_and_service_mgmt.Migration.Completion.{StaysCalm, IsCalm}
use go_user_and_service_mgmt.Migration.Rerun.{init_db_entities-again}

abbrev empty : Memory
empty = record {
  store = record {
    user = [];
    user_role = [];
    service = [];
    version = [];
    name_sorted_service = [];
  };
  schedule = [];
}

abbrev hash : String → Action Memory String
hash password m = (ok "h", m)

abbrev roles_of : List (String × String) → List UserRole
roles_of [] = []
roles_of ((name, description) ∷ rest) = user_role name description ∷ roles_of rest

abbrev initialized : Memory
initialized = record empty {
  store = record (empty.store) {
    user = record (admin_user "h") { id = 1 } ∷ [];
    user_role = roles_of default_roles;
  };
}

init_empty : init_db_entities memory hash default_roles empty ≡ (ok tt, initialized)
unfolding init_db_entities init_roles add_admin add_role ◌>>=◌ or_error fail_if
init_empty = refl

load_empty : (load_user_roles memory [] empty).0 ≡ err GoError.formatted
unfolding load_user_roles ◌>>=◌ or_error fail_if
load_empty = refl

-- Every statement succeeds, and no table is full.
abbrev IsQuiet : Memory → Type 0
IsQuiet m = (m.schedule ≡ []) × (length m.store.user < 2 ^ 63) × (length m.store.user_role < 2 ^ 63)

at_rest :
    {A : Type 0} (P : Result A × Memory → Type 0) (f : Tables → Result A × Tables) (m : Memory)
    → m.schedule ≡ []
    → P ((f m.store).0, record { store = (f m.store).1; schedule = [] })
    → P (statement f m)
at_rest P f m quiet h = rw quiet h

count_if-length : {A : Type 0} (p : A → Bool) (xs : List A) → count_if p xs ≤ length xs
count_if-length p [] = omega arith
count_if-length p (x ∷ xs) = ground (arith, count_if-length p xs)

length-concat : {A : Type 0} (xs : List A) (x : A) → length (xs ++ x ∷ []) ≡ suc (length xs)
length-concat [] x = refl
length-concat (y ∷ xs) x = ap suc (length-concat xs x)

counts-Succeeds :
    {R : Type 0} (rows : Tables → List R) (p : R → Bool) (m : Memory)
    → length (rows m.store) < 2 ^ 63
    → IsQuiet m
    → Succeeds IsQuiet (statement (count_rows rows p) m)
counts-Succeeds rows p m small (quiet, users, roles) =
    let fits : ltb (count_if p (rows m.store)) (2 ^ 63) ≡ true =
      ground (arith, count_if-length p (rows m.store)) in
    at_rest (Succeeds IsQuiet) (count_rows rows p) m quiet (rw fits (refl, users, roles))

creates-StaysCalm :
    {R : Type 0} (s : Schema R) (fill : List R → R → R) (r : R) (m : Memory)
    → IsQuiet m
    → (has_room (s.rows m.store) ≡ true
        → IsQuiet (record {
          store = s.put (s.rows m.store ++ fill (s.rows m.store) r ∷ []) m.store;
          schedule = [];
        }))
    → StaysCalm IsQuiet (statement (create_row s fill (λ _ _. true) r) m)
creates-StaysCalm s fill r m quiet room =
    let rows = s.rows m.store in
    at_rest (StaysCalm IsQuiet) (create_row s fill (λ _ _. true) r) m quiet.0
      (elim (Bool-cases (count_if (s.conflicts r) rows == 0)) [
        | inr taken ↦ rw taken tt
        | inl free ↦
            elim (Bool-cases (count_if (s.same_id (fill rows r)) rows == 0 && has_room rows)) [
              | inr refused ↦ rw (free, refused) tt
              | inl fresh ↦ rw (free, fresh) (room (ground arith))
            ]
      ])

hash-IsCalm : IsCalm memory hash IsQuiet
hash-IsCalm = record {
  hashes = λ password m quiet. quiet;
  counts_users = λ email m quiet. counts-Succeeds (λ t. t.user) (has_email email) m quiet.1 quiet;
  counts_roles = λ name m quiet. counts-Succeeds (λ t. t.user_role) (has_name name) m quiet.2 quiet;
  creates_user = λ h m quiet.
      creates-StaysCalm user_schema fill_user (admin_user h) m quiet (λ room. (
        refl,
        ground (arith, length-concat m.store.user (fill_user m.store.user (admin_user h))),
        quiet.2,
      ));
  creates_role = λ r m quiet.
      creates-StaysCalm user_role_schema (λ _ x. x) r m quiet
        (λ room. (refl, quiet.1, ground (arith, length-concat m.store.user_role r)));
}

-- The same roles, in another order.
abbrev turned : List (String × String)
turned =
    ("admin", "View/Modify service(s) and user(s) in systems")
    ∷ ("basic", "View service(s) and their version(s)")
    ∷ ("advanced", "View/Modify service(s) and view user(s) in systems")
    ∷ []

init_db_entities-again_example :
    ((init_db_entities memory hash turned initialized).0 ≡ ok tt)
    × ((init_db_entities memory hash turned initialized).1.store ≡ initialized.store)
unfolding init_db_entities init_roles add_admin add_role ◌>>=◌ or_error fail_if
init_db_entities-again_example =
    init_db_entities-again memory memory-IsRelational hash (λ _ _. refl) default_roles empty
      initialized refl refl IsQuiet hash-IsCalm (refl, omega arith, omega arith) turned
      (λ p. omega arith)
