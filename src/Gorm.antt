-- ===== src/Gorm.antt =====
-- The database as the program sees it: gorm over PostgreSQL, which is not the program's code.
-- `World` is whatever the outside is, at one moment; `tables` is what the tables then hold, in
-- the order in which a scan without `ORDER BY` meets the rows. Every call returns a result and
-- the next world, and may fail. The laws that the theorems assume are in Gorm/Laws.antt.
pub mod Kept
pub mod Laws
pub mod Memory
pub mod Rules
pub mod Rows
use go_user_and_service_mgmt.Prelude.{ℕ, ℤ, Bool, List, ◌≡◌, if◌then◌else◌}
use go_user_and_service_mgmt.Errors.{GoError}
use go_user_and_service_mgmt.Models.{User, UserRole, Service, ServiceVersion}

pub data Result {ℓ} (A : Type ℓ) : Type ℓ where
  ok : A → Result A
  err : GoError → Result A

-- A function that may fail and acts on a state of type `S`.
abbrev pub Action {ℓ} : Type ℓ → Type ℓ → Type ℓ
Action S A = S → Result A × S

abbrev pub rewrite_error {ℓ} : {A : Type ℓ} → (GoError → GoError) → Result A → Result A
rewrite_error f (ok a) = ok a
rewrite_error f (err e) = err (f e)

module _ {ℓ} {S A : Type ℓ} where
  abbrev pub pure : A → Action S A
  pure a s = (ok a, s)

  abbrev pub fail : GoError → Action S A
  fail e s = (err e, s)

  -- `if err := m(); err != nil { return f(err) }`
  unfoldable pub or_error : Action S A → (GoError → GoError) → Action S A
  or_error m f s = let (r, s') = m s in (rewrite_error f r, s')

module _ {ℓ} {S A B : Type ℓ} where
  abbrev pub continue : Result A → (A → Action S B) → Action S B
  continue (ok a) f s = f a s
  continue (err e) f s = (err e, s)

  infixl 5 ◌>>=◌ ◌>>◌
  unfoldable pub ◌>>=◌ : Action S A → (A → Action S B) → Action S B
  ◌>>=◌ m f s = let (r, s') = m s in continue r f s'

  abbrev pub ◌>>◌ : Action S A → Action S B → Action S B
  m >> n = m >>= λ _. n

-- `if b { return e }`
unfoldable pub fail_if {ℓ} : {S : Type ℓ} → Bool → GoError → Action S (Unit {ℓ})
fail_if b e s = (if b then err e else ok tt, s)

-- The calls on one table, with rows of type `R`. A condition stands for a `WHERE` clause.
pub record Table (World R : Type 0) : Type 0 where
  -- `Where(p).Count(&n)`
  pub count : (R → Bool) → Action World ℕ
  -- `Where(p).First(&row)`
  pub first : (R → Bool) → Action World R
  -- `Create(&row)`; the result is the row with the columns that the database has filled in
  pub create : R → Action World R
  -- `Where(p).Updates(row)`, with a struct
  pub updates : (R → Bool) → R → Action World (Unit {0})
  -- `Where(p).Updates(columns)` with a map, or `UpdateColumn`: the function sets the columns
  pub set_columns : (R → Bool) → (R → R) → Action World (Unit {0})
  -- `Unscoped().Where(p).Delete(...)`
  pub delete : (R → Bool) → Action World (Unit {0})
  -- `Where(p).Limit(limit).Offset(offset).Find(&rows)`
  pub find : (R → Bool) → ℤ → ℤ → Action World (List R)

-- What the tables hold. `name_sorted_service` is the materialized view.
pub record Tables : Type 0 where
  pub user : List User
  pub user_role : List UserRole
  pub service : List Service
  pub version : List ServiceVersion
  pub name_sorted_service : List Service

pub record Database (World : Type 0) : Type 0 where
  pub tables : World → Tables
  pub users : Table World User
  pub user_roles : Table World UserRole
  pub services : Table World Service
  pub versions : Table World ServiceVersion
  pub name_sorted_services : Table World Service
  -- `REFRESH MATERIALIZED VIEW name_sorted_service`
  pub refresh_view : Action World (Unit {0})
  pub transaction : Action World (Unit {0}) → Action World (Unit {0})
