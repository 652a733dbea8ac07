-- ===== src/Roles/Laws.antt =====
-- What is known in memory after the roles were loaded, and what the endpoint of the roles shows.
use go_user_and_service_mgmt.Prelude.{
  zero, negsuc, String, true, List, [], ◌∷◌, insert, ◌≡◌, refl, ◌<◌, arith, count_if, length,
  SameRows, length-SameRows, filter, ◌==◌, inl, inr, ◌||◌, not, number_comparable, text_comparable,
  eq_iff, Bool-cases,
}
use go_user_and_service_mgmt.Errors.{GoError}
use go_user_and_service_mgmt.Models.{UserRole}
use go_user_and_service_mgmt.Gorm.{Result, ok, err, Database}
use go_user_and_service_mgmt.Gorm.Laws.{IsRelational}
use go_user_and_service_mgmt.Gorm.Rules.{on-find, on-test}
use go_user_and_service_mgmt.Roles.{has_name, record_roles, is_role, fetch_roles, load_user_roles}

pub filter-all : {A : Type 0} (xs : List A) → filter (λ _. true) xs ≡ xs
filter-all [] = refl
filter-all (x ∷ xs) = rw (filter-all xs)

is_role-cons :
    (key k d : String) (rest : List (String × String))
    → is_role ((k, d) ∷ rest) key ≡ (k == key || is_role rest key)
unfolding is_role
is_role-cons key k d rest = elim (Bool-cases (k == key)) [ inl h ↦ rw h refl | inr h ↦ rw h refl ]

is_role-insert :
    (key name d : String) (roles : List (String × String))
    → is_role (insert name d roles) key ≡ (name == key || is_role roles key)
is_role-insert key name d [] = is_role-cons key name d []
is_role-insert key name d ((k, old) ∷ rest) = elim (Bool-cases (k == name)) [
  | inl h ↦
      rw (h, (eq_iff k name).0 h, is_role-cons key name d rest, is_role-cons key name old rest)
        (ground arith)
  | inr h ↦
      rw
        (
          h,
          is_role-cons key k old (insert name d rest),
          is_role-insert key name d rest,
          is_role-cons key k old rest,
        )
        (ground arith)
]

-- A name is known exactly if a stored role has it or it was known before.
pub is_role-record_roles :
    (rows : List UserRole) (roles : List (String × String)) (key : String)
    → is_role (record_roles rows roles) key
      ≡ (not (count_if (has_name key) rows == 0) || is_role roles key)
is_role-record_roles [] roles key = refl
is_role-record_roles (r ∷ rest) roles key =
    rw
      (
        is_role-record_roles rest (insert r.name r.description roles) key,
        is_role-insert key r.name r.description roles,
      )
      (ground arith)

module _ {World : Type 0} (db : Database World) (w : World) where
  -- The stored roles, in some order.
  abbrev pub ListsRoles : Result (List UserRole) × World → Type 0
  ListsRoles (ok roles, w') = (db.tables w' ≡ db.tables w) × SameRows roles (db.tables w).user_role
  ListsRoles (err e, w') = (db.tables w' ≡ db.tables w) × (e ≡ GoError.internal)

module _ {World : Type 0} (db : Database World) (laws : IsRelational db) (w : World) where
  pub fetch_roles-ListsRoles : ListsRoles db w (fetch_roles db w)
  unfolding fetch_roles
  fetch_roles-ListsRoles =
      on-find (ListsRoles db w) db.tables laws.user_roles_lem.readable (λ _. true) (negsuc zero)
        (negsuc zero) _ _ refl
        (λ w' same order rows. (same, rw (filter-all (db.tables w).user_role) at rows))
        (λ e w' same. (same, refl))

  -- The names in memory are those that were there and those of the stored roles, or an error is
  -- returned, as it is if no role is stored.
  abbrev pub Loads : List (String × String) → Result (List (String × String)) × World → Type 0
  Loads roles (ok loaded, w') =
      (db.tables w' ≡ db.tables w)
      × (0 < length (db.tables w).user_role)
      × ((key : String)
          → is_role loaded key
            ≡ (not (count_if (has_name key) (db.tables w).user_role == 0) || is_role roles key))
  Loads roles (err e, w') = (db.tables w' ≡ db.tables w) × (e ≡ GoError.formatted)

  -- Loading the roles makes exactly the names of the stored roles known, beside those that were
  -- known before, and changes no table; or it returns an error, as it does if no role is stored.
  pub load_user_roles-Loads :
      (roles : List (String × String)) → Loads roles (load_user_roles db roles w)
  unfolding load_user_roles
  load_user_roles-Loads roles =
      on-find (Loads roles) db.tables laws.user_roles_lem.readable (λ _. true) (negsuc zero)
        (negsuc zero) _ _ refl
        (λ w' same order rows.
          let stored : SameRows order (db.tables w).user_role =
            rw (filter-all (db.tables w).user_role) at rows in
          on-test (Loads roles) _ _ _ w' (λ h. (same, refl))
            (λ h. (
              same,
              ground (arith, length-SameRows order (db.tables w).user_role stored),
              λ key. rw (← stored (has_name key)) (is_role-record_roles order roles key),
            )))
        (λ e w' same. (same, refl))
