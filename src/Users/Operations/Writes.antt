-- ===== src/Users/Operations/Writes.antt =====
-- What each writing operation of the user component does to the tables, on every way to end.
use go_user_and_service_mgmt.Prelude.{
  ℕ, String, true, false, not, ◌∷◌, ◌≡◌, refl, ◌≢◌, ◌⊎◌, inl, inr, ◌<◌, ◌≤◌, arith, count_if,
  filter, SameRows, ◌&&◌, ◌==◌, text_comparable, number_comparable,
}
use go_user_and_service_mgmt.Errors.{GoError}
use go_user_and_service_mgmt.Models.{User}
use go_user_and_service_mgmt.Gorm.{Result, ok, err, Database, Tables}
use go_user_and_service_mgmt.Gorm.Laws.{IsRelational, update_where, updated_user}
use go_user_and_service_mgmt.Gorm.Rules.{
  on-test, on-count, on-create, on-updates, on-set_columns, on-delete,
}
use go_user_and_service_mgmt.Users.Operations.{
  create_user, update_user, delete_user, change_password, has_email, has_id, new_user,
  user_to_update, with_password,
}

module _ {World : Type 0} (db : Database World) (before : Tables) where
  -- Only the user table is changed.
  abbrev pub OnlyUsers : World → Type 0
  OnlyUsers w' = db.tables w' ≡ record before { user = (db.tables w').user }

  -- One row is added, the given one under a fresh key, and its email was not in use.
  abbrev pub Adds : User → Result (Unit {0}) × World → Type 0
  Adds u (ok _, w') =
      (id : ℕ) × OnlyUsers w'
      × SameRows (db.tables w').user (record u { id = id } ∷ before.user)
      × (count_if (λ x. x.id == id) before.user ≡ 0)
      × (count_if (λ x. x.email == u.email) before.user ≡ 0)
  Adds u (err e, w') =
      (db.tables w' ≡ before)
      × ((e ≡ GoError.internal)
          ⊎ ((e ≡ GoError.user_with_same_email_already_exists)
              × (0 < count_if (λ x. x.email == u.email) before.user)))

  -- The user with the id has the fields that are not empty; no other user had the email.
  abbrev pub Changes : User → Result User × World → Type 0
  Changes u (ok r, w') =
      (r ≡ u)
      × OnlyUsers w'
      × SameRows (db.tables w').user (update_where (λ x. x.id == u.id) (updated_user u) before.user)
      × (0 < count_if (λ x. x.id == u.id) before.user)
      × (count_if (λ x. x.email == u.email && not (x.id == u.id)) before.user ≢ 1)
      × ((r : User) → count_if (λ x. x.email == r.email) (db.tables w').user ≤ 1)
  Changes u (err e, w') =
      (db.tables w' ≡ before)
      × ((e ≡ GoError.internal)
          ⊎ ((e ≡ GoError.user_does_not_exist) × (count_if (λ x. x.id == u.id) before.user ≡ 0))
          ⊎ (e ≡ GoError.user_with_same_email_already_exists))

  -- The users with the id are gone, and there was one.
  abbrev pub Removes : ℕ → Result (Unit {0}) × World → Type 0
  Removes id (ok _, w') =
      OnlyUsers w'
      × SameRows (db.tables w').user (filter (λ x. not (x.id == id)) before.user)
      × (0 < count_if (λ x. x.id == id) before.user)
  Removes id (err e, w') =
      (db.tables w' ≡ before)
      × ((e ≡ GoError.internal)
          ⊎ ((e ≡ GoError.user_does_not_exist) × (count_if (λ x. x.id == id) before.user ≡ 0)))

  -- The user with the email has the new hash, and it is not a temporary password.
  abbrev pub SetsPassword : String → String → Result (Unit {0}) × World → Type 0
  SetsPassword email hash (ok _, w') =
      OnlyUsers w'
      × SameRows (db.tables w').user (
          update_where (λ x. x.email == email)
            (λ u. record u { email = email; password_hash = hash; is_temporary_password = false })
            before.user)
      × (0 < count_if (λ x. x.email == email) before.user)
  SetsPassword email hash (err e, w') =
      (db.tables w' ≡ before)
      × ((e ≡ GoError.internal)
          ⊎ ((e ≡ GoError.user_does_not_exist)
              × (count_if (λ x. x.email == email) before.user ≡ 0)))

module _ {World : Type 0} (db : Database World) (laws : IsRelational db) (w : World) where
  -- Creating a user adds exactly that user, or changes nothing; "already exists" is answered only
  -- if a row has the email.
  pub create_user-Adds :
      (name email role hash : String)
      → Adds db
          (db.tables w)
          (record {
            id = 0;
            name = name;
            email = email;
            role = role;
            password_hash = hash;
            is_temporary_password = true;
          })
          (create_user db name email role hash w)
  unfolding create_user
  create_user-Adds name email role hash =
      let u = new_user name email role hash in
      let Q = Adds db (db.tables w) u in
      on-count Q db.tables laws.users_lem.readable (has_email email) _ _ refl
        (λ w₁ e₁.
          on-test Q _ _ _ _ (λ h. (e₁, inr (refl, ground arith)))
            (λ h.
              on-create Q db.tables laws.users_lem u _ _ e₁
                (λ r w₂ (frame, filled, rows, id, key). (r.id, frame, rw filled at rows, id, key))
                (λ e w₂ (same, dup). (same, ground arith))))
        (λ e w₁ e₁. (e₁, inl refl))

  -- Updating a user overwrites the fields that are given non-empty and returns what was asked for,
  -- or changes nothing; "does not exist" is answered only if no row has the id.
  pub update_user-Changes :
      (id : ℕ) (name email role : String)
      → Changes db
          (db.tables w)
          (record {
            id = id;
            name = name;
            email = email;
            role = role;
            password_hash = "";
            is_temporary_password = false;
          })
          (update_user db id name email role w)
  unfolding update_user
  update_user-Changes id name email role =
      let u = user_to_update id name email role in
      let Q = Changes db (db.tables w) u in
      on-count Q db.tables laws.users_lem.readable (has_id id) _ _ refl
        (λ w₁ e₁.
          on-test Q _ _ _ _ (λ h. (e₁, inr (inl (refl, ground arith))))
            (λ known.
              on-count Q db.tables laws.users_lem.readable
                (λ x. has_email email x && not (has_id id x)) _ _ e₁
                (λ w₂ e₂.
                  on-test Q _ _ _ _ (λ h. (e₂, inr (inr refl)))
                    (λ free.
                      on-updates Q db.tables laws.users_lem (has_id id) u _ _ e₂
                        (λ w₃ (frame, rows, unique).
                          (refl, frame, rows, ground arith, ground arith, unique))
                        (λ e w₃ e₃ found. (e₃, ground arith))))
                (λ e w₂ e₂. (e₂, inl refl))))
        (λ e w₁ e₁. (e₁, inl refl))

  -- Deleting a user removes the rows with that id and no other, or changes nothing; "does not
  -- exist" is answered only if no row has the id.
  pub delete_user-Removes : (id : ℕ) → Removes db (db.tables w) id (delete_user db id w)
  unfolding delete_user
  delete_user-Removes id =
      let Q = Removes db (db.tables w) id in
      on-count Q db.tables laws.users_lem.readable (has_id id) _ _ refl
        (λ w₁ e₁.
          on-test Q _ _ _ _ (λ h. (e₁, inr (refl, ground arith)))
            (λ known.
              on-delete Q db.tables laws.users_lem (has_id id) _ _ e₁
                (λ w₂ (frame, rows). (frame, rows, ground arith))
                (λ e w₂ e₂ found. (e₂, inl refl))))
        (λ e w₁ e₁. (e₁, inl refl))

  -- Changing a password sets the hash and clears the temporary flag in the rows with that email
  -- and no other, or changes nothing; "does not exist" is answered only if no row has the email.
  pub change_password-SetsPassword :
      (email hash : String)
      → SetsPassword db (db.tables w) email hash (change_password db email hash w)
  unfolding change_password
  change_password-SetsPassword email hash =
      let Q = SetsPassword db (db.tables w) email hash in
      on-count Q db.tables laws.users_lem.readable (has_email email) _ _ refl
        (λ w₁ e₁.
          on-test Q _ _ _ _ (λ h. (e₁, inr (refl, ground arith)))
            (λ known.
              on-set_columns Q db.tables laws.users_lem (has_email email) (with_password email hash)
                _ _ e₁ (λ w₂ (frame, rows). (frame, rows, ground arith))
                (λ e w₂ e₂ found. (e₂, ground arith))))
        (λ e w₁ e₁. (e₁, inl refl))
