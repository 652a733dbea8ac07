-- ===== src/Handlers/Users/Kept.antt =====
-- What the user handlers keep: any property of the tables that the operation they call keeps.
use go_user_and_service_mgmt.Prelude.{ℕ, ℤ, String, List, Option, some, lookup, Value, ◌≡◌}
use go_user_and_service_mgmt.Gorm.{Database, Tables}
use go_user_and_service_mgmt.Gorm.Laws.{IsRelational}
use go_user_and_service_mgmt.Gorm.Kept.{
  Kept, Kept-pure, Kept-or_error, Kept-bind, Kept-count, Kept-find, Kept-first,
}
use go_user_and_service_mgmt.Users.Operations.{
  get_user_by_email, get_user, create_user, update_user, delete_user, change_password,
  fetch_users_with_pagination,
}
use go_user_and_service_mgmt.Middleware.{Context, claim_email}
use go_user_and_service_mgmt.Handlers.Kept.{
  Safe, safe_steps, Safe-bind, Safe-answer_if, Safe-or_answer, Safe-assert_string, Safe-call,
  Safe-bind_or_answer,
}
use go_user_and_service_mgmt.Handlers.Users.{
  Environment, login, get_user_by_id, add_user, change_user, remove_user, list_users,
  change_user_password,
}

module _ {World : Type 0} (db : Database World) (laws : IsRelational db) (env : Environment World)
    (J : Tables → Type 0) where
  abbrev Held : World → Type 0
  Held w = J (db.tables w)

  get_user_by_email-Kept : (email : String) → Kept Held (get_user_by_email db email)
  unfolding get_user_by_email
  get_user_by_email-Kept email = Kept-or_error _ (Kept-first J laws.users_lem.readable)

  get_user-Kept : (id : ℕ) → Kept Held (get_user db id)
  unfolding get_user
  get_user-Kept id = Kept-or_error _ (Kept-first J laws.users_lem.readable)

  fetch_users_with_pagination-Kept :
      (page size : ℤ) → Kept Held (fetch_users_with_pagination db page size)
  unfolding fetch_users_with_pagination
  fetch_users_with_pagination-Kept page size =
      Kept-bind (Kept-or_error _ (Kept-count J laws.users_lem.readable)) (λ total.
        Kept-bind (Kept-or_error _ (Kept-find J laws.users_lem.readable)) (λ users. Kept-pure))

  pub get_user_by_id-Safe : (id : String) → Safe Held (get_user_by_id db env id)
  unfolding get_user_by_id
  get_user_by_id-Safe id = search (safe_steps, get_user-Kept) depth 40

  pub list_users-Safe : (page size : Option String) → Safe Held (list_users db env page size)
  unfolding list_users
  list_users-Safe page size = search (safe_steps, fetch_users_with_pagination-Kept) depth 40

  pub login-Safe :
      ((email role : String) → Kept Held (env.create_jwt email role))
      → (body : Option (List (String × Value))) → Safe Held (login db env body)
  unfolding login
  login-Safe signs body = search (safe_steps, signs, get_user_by_email-Kept) depth 40

  pub add_user-Safe :
      Kept Held env.generate_password
      → ((password : String) → Kept Held (env.generate_password_hash password))
      → ((name email role hash : String) → Kept Held (create_user db name email role hash))
      → (body : Option (List (String × Value))) → Safe Held (add_user db env body)
  unfolding add_user
  add_user-Safe draws hashes creates body = Safe-bind (Safe-or_answer _ _ _) (λ payload.
      Safe-bind (Safe-answer_if _ _ _) (λ _. Safe-bind (Safe-answer_if _ _ _) (λ _.
        Safe-bind (Safe-assert_string _) (λ role. Safe-bind (Safe-answer_if _ _ _) (λ _.
          Safe-bind (Safe-call _ draws) (λ password.
            Safe-bind (Safe-call _ (hashes password)) (λ hash.
              Safe-bind (Safe-assert_string _) (λ given.
                Safe-bind (Safe-assert_string _)
                  (λ email. search (safe_steps, creates) depth 10)))))))))

  pub change_user-Safe :
      ((id : ℕ) (name email role : String) → Kept Held (update_user db id name email role))
      → (id : String) (body : Option (List (String × Value)))
      → Safe Held (change_user db env id body)
  unfolding change_user
  change_user-Safe updates id body = search (safe_steps, updates) depth 60

  pub remove_user-Safe :
      ((id : ℕ) → Kept Held (delete_user db id)) → (id : String) → Safe Held (remove_user db env id)
  unfolding remove_user
  remove_user-Safe deletes id = search (safe_steps, deletes) depth 40

  pub change_user_password-Safe :
      ((password : String) → Kept Held (env.generate_password_hash password))
      → (c : Context)
      → ((email hash : String)
          → lookup claim_email c.keys ≡ some email
          → Kept Held (change_password db email hash))
      → (body : Option (List (String × Value))) → Safe Held (change_user_password db env c body)
  unfolding change_user_password
  change_user_password-Safe hashes c changes body = Safe-bind_or_answer _ _ _ _ (λ email is.
      let change : (hash : String) → Kept Held (change_password db email hash) =
        λ hash. changes email hash is in
      search (safe_steps, hashes, change) depth 60)
