-- ===== src/Users/Invariant.antt =====
-- No two users share an email or an id, whatever the operations do.
use go_user_and_service_mgmt.Prelude.{
  ℕ, String, not, List, ◌∷◌, ◌≡◌, refl, ◌≤◌, arith, count_if, text_comparable, number_comparable,
  eq_iff,
}
use go_user_and_service_mgmt.Models.{User}
use go_user_and_service_mgmt.Gorm.{Result, ok, err, Database, Tables}
use go_user_and_service_mgmt.Gorm.Laws.{IsRelational, updated_user}
use go_user_and_service_mgmt.Gorm.Rows.{count_if-update_where, count_if-filter-le}
use go_user_and_service_mgmt.Users.Operations.{
  create_user, update_user, delete_user, change_password, has_email, has_id, new_user,
  user_to_update, with_password,
}
use go_user_and_service_mgmt.Users.Operations.Writes.{
  Adds, Changes, Removes, SetsPassword, create_user-Adds, update_user-Changes, delete_user-Removes,
  change_password-SetsPassword,
}

pub record IsUnique (users : List User) : Type 0 where
  pub email_once : (email : String) → count_if (has_email email) users ≤ 1
  pub id_once : (id : ℕ) → count_if (has_id id) users ≤ 1

-- An insertion under an email and an id that were free.
cons-IsUnique :
    (u : User) (users : List User)
    → count_if (has_id u.id) users ≡ 0
    → count_if (has_email u.email) users ≡ 0
    → IsUnique users
    → IsUnique (u ∷ users)
cons-IsUnique u users free_id free_email v = record {
  email_once = λ e. ground (arith, v.email_once e, eq_iff u.email e);
  id_once = λ i. ground (arith, v.id_once i);
}

module _ {World : Type 0} (db : Database World) (before : Tables) (v : IsUnique before.user) where
  Adds-IsUnique :
      (u : User) (x : Result (Unit {0}) × World)
      → Adds db before u x
      → IsUnique (db.tables x.1).user
  Adds-IsUnique u (ok _, w') (id, _, rows, free_id, free_email) =
      let c = cons-IsUnique (record u { id = id }) before.user free_id free_email v in
      record {
        email_once = λ e. rw (rows (has_email e)) (c.email_once e);
        id_once = λ i. rw (rows (has_id i)) (c.id_once i);
      }
  Adds-IsUnique u (err _, w') (same, _) = rw same v

  Changes-IsUnique :
      (u : User) (x : Result User × World) → Changes db before u x → IsUnique (db.tables x.1).user
  Changes-IsUnique u (ok _, w') (_, _, rows, _, _, unique) = record {
    email_once = λ e. unique (record u { email = e });
    id_once = λ i. rw (rows (has_id i)) (
        rw
          (count_if-update_where (has_id i) (has_id u.id) (updated_user u) before.user
            (λ r h. ground arith))
          (v.id_once i));
  }
  Changes-IsUnique u (err _, w') (same, _) = rw same v

  Removes-IsUnique :
      (id : ℕ) (x : Result (Unit {0}) × World)
      → Removes db before id x
      → IsUnique (db.tables x.1).user
  Removes-IsUnique id (ok _, w') (_, rows, _) = record {
    email_once = λ e. omega (
      arith,
      rows (has_email e),
      v.email_once e,
      count_if-filter-le (has_email e) (λ x. not (has_id id x)) before.user,
    );
    id_once = λ i. omega (
      arith,
      rows (has_id i),
      v.id_once i,
      count_if-filter-le (has_id i) (λ x. not (has_id id x)) before.user,
    );
  }
  Removes-IsUnique id (err _, w') (same, _) = rw same v

  SetsPassword-IsUnique :
      (email hash : String) (x : Result (Unit {0}) × World)
      → SetsPassword db before email hash x
      → IsUnique (db.tables x.1).user
  SetsPassword-IsUnique email hash (ok _, w') (_, rows, _) = record {
    email_once = λ e. rw (rows (has_email e)) (
        rw
          (count_if-update_where (has_email e) (has_email email) (with_password email hash)
            before.user (λ r h. ground (arith, eq_iff r.email email)))
          (v.email_once e));
    id_once = λ i. rw (rows (has_id i)) (
        rw
          (count_if-update_where (has_id i) (has_email email) (with_password email hash) before.user
            (λ r h. refl))
          (v.id_once i));
  }
  SetsPassword-IsUnique email hash (err _, w') (same, _) = rw same v

module _ {World : Type 0} (db : Database World) (laws : IsRelational db) (w : World)
    (v : IsUnique (db.tables w).user) where
  -- Whether it succeeds or fails, each of the four writing operations keeps the emails and the
  -- ids of the users distinct.
  pub user_operations-IsUnique :
      (id : ℕ) (name email role hash : String)
      → IsUnique (db.tables (create_user db name email role hash w).1).user
        × IsUnique (db.tables (update_user db id name email role w).1).user
        × IsUnique (db.tables (delete_user db id w).1).user
        × IsUnique (db.tables (change_password db email hash w).1).user
  user_operations-IsUnique id name email role hash = (
    Adds-IsUnique db (db.tables w) v (new_user name email role hash) _
        (create_user-Adds db laws w name email role hash),
    Changes-IsUnique db (db.tables w) v (user_to_update id name email role) _
        (update_user-Changes db laws w id name email role),
    Removes-IsUnique db (db.tables w) v id _ (delete_user-Removes db laws w id),
    SetsPassword-IsUnique db (db.tables w) v email hash _
        (change_password-SetsPassword db laws w email hash),
  )
