-- ===== src/Users/Refusals.antt =====
-- Which requests the user operations of internal/components/user/operations.go refuse, and with
-- which error.
use go_user_and_service_mgmt.Prelude.{
  ℕ, String, Bool, not, List, Option, none, some, ◌≡◌, refl, arith, count_if, count_if-le, ◌==◌,
  ◌&&◌, number_comparable, text_comparable, if◌then◌else◌, Bool-cases, inl, inr,
}
use go_user_and_service_mgmt.Errors.{GoError}
use go_user_and_service_mgmt.Models.{User}
use go_user_and_service_mgmt.Gorm.{Action, Result, err, Database, Tables, or_error, ◌>>=◌}
use go_user_and_service_mgmt.Gorm.Laws.{IsRelational, Reads, Succeeds}
use go_user_and_service_mgmt.Gorm.Rules.{on-call, on-test}
use go_user_and_service_mgmt.Services.Effects.{occurs}
use go_user_and_service_mgmt.Users.Invariant.{IsUnique}
use go_user_and_service_mgmt.Users.Operations.{
  create_user, update_user, delete_user, change_password, has_email, has_id,
}

-- What should be refused, on the stored users.
abbrev pub create_refusal : String → List User → Option GoError
create_refusal email rows =
    if occurs (λ u. u.email == email) rows
    then some GoError.user_with_same_email_already_exists
    else none

abbrev pub update_refusal : ℕ → String → List User → Option GoError
update_refusal id email rows =
    if not (occurs (λ u. u.id == id) rows)
    then some GoError.user_does_not_exist
    else if occurs (λ u. u.email == email && not (u.id == id)) rows
    then some GoError.user_with_same_email_already_exists
    else none

abbrev pub delete_refusal : ℕ → List User → Option GoError
delete_refusal id rows =
    if not (occurs (λ u. u.id == id) rows) then some GoError.user_does_not_exist else none

abbrev pub password_refusal : String → List User → Option GoError
password_refusal email rows =
    if not (occurs (λ u. u.email == email) rows) then some GoError.user_does_not_exist else none

module _ {World : Type 0} (db : Database World) (before : Tables) where
  -- What should be refused is refused with that error, and changes nothing.
  abbrev pub Refuses : {A : Type 0} → Option GoError → Result A × World → Type 0
  Refuses none x = Unit
  Refuses (some e) (r, w') = (r ≡ err e) × (db.tables w' ≡ before)

-- The counts of users succeed.
abbrev pub CountsUsers : {World : Type 0} → Database World → (World → Type 0) → Type 0
CountsUsers {World} db Calm =
    (p : User → Bool) (w : World) → Calm w → Succeeds Calm (db.users.count p w)

module _ {World : Type 0} (db : Database World) (laws : IsRelational db) (Calm : World → Type 0)
    (counts : CountsUsers db Calm) (before : Tables) where
  -- A count that succeeds.
  on-counted :
      {B : Type 0} (Q : Result B × World → Type 0) (p : User → Bool) (g : GoError → GoError)
      (f : ℕ → Action World B) (w : World)
      → Calm w
      → db.tables w ≡ before
      → ((w' : World) → Calm w' → db.tables w' ≡ before → Q (f (count_if p before.user) w'))
      → Q ((or_error (db.users.count p) g >>= f) w)
  on-counted Q p g f w still same rest =
      on-call Q (λ x. Reads db.tables before (count_if p before.user) x × Succeeds Calm x) g f
        (db.users.count p) w (rw same at (laws.users_lem.readable.count_lem p w), counts p w still)
        (λ n w' ((same', is), still'). rw is (rest w' still' same')) (λ e w' (_, bad). absurd bad)

module _ {World : Type 0} (db : Database World) (laws : IsRelational db) (Calm : World → Type 0)
    (counts : CountsUsers db Calm) (w : World) (still : Calm w) where
  abbrev rows : List User
  rows = (db.tables w).user

  create_user-Refuses :
      IsUnique rows
      → (name email role hash : String)
      → Refuses db (db.tables w) (create_refusal email rows) (create_user db name email role hash w)
  unfolding create_user
  create_user-Refuses unique name email role hash =
      elim (Bool-cases (occurs (has_email email) rows)) [
        | inr free ↦ rw free tt
        | inl taken ↦ rw taken (
            let once : count_if (has_email email) rows ≡ 1 =
              ground (arith, unique.email_once email) in
            let Q = Refuses db (db.tables w) (some GoError.user_with_same_email_already_exists) in
            on-counted db laws Calm counts (db.tables w) Q (has_email email) _ _ w still refl
              (λ w₁ still₁ e₁.
                on-test Q _ _ _ _ (λ h. (refl, e₁)) (λ h. absurd (ground (arith, once)))))
      ]

  delete_user-Refuses :
      (id : ℕ) → Refuses db (db.tables w) (delete_refusal id rows) (delete_user db id w)
  unfolding delete_user
  delete_user-Refuses id = elim (Bool-cases (count_if (has_id id) rows == 0)) [
    | inr known ↦ rw known tt
    | inl unknown ↦ rw unknown (
        let Q = Refuses db (db.tables w) (some GoError.user_does_not_exist) in
        on-counted db laws Calm counts (db.tables w) Q (has_id id) _ _ w still refl
          (λ w₁ still₁ e₁. on-test Q _ _ _ _ (λ h. (refl, e₁)) (λ h. absurd (ground arith))))
  ]

  change_password-Refuses :
      (email hash : String)
      → Refuses db (db.tables w) (password_refusal email rows) (change_password db email hash w)
  unfolding change_password
  change_password-Refuses email hash = elim (Bool-cases (count_if (has_email email) rows == 0)) [
    | inr known ↦ rw known tt
    | inl unknown ↦ rw unknown (
        let Q = Refuses db (db.tables w) (some GoError.user_does_not_exist) in
        on-counted db laws Calm counts (db.tables w) Q (has_email email) _ _ w still refl
          (λ w₁ still₁ e₁. on-test Q _ _ _ _ (λ h. (refl, e₁)) (λ h. absurd (ground arith))))
  ]

  update_user-Refuses :
      IsUnique rows
      → (id : ℕ) (name email role : String)
      → Refuses db
          (db.tables w)
          (update_refusal id email rows)
          (update_user db id name email role w)
  unfolding update_user
  update_user-Refuses unique id name email role =
      let other : User → Bool = λ u. has_email email u && not (has_id id u) in
      elim (Bool-cases (count_if (has_id id) rows == 0)) [
        | inl unknown ↦ rw unknown (
            let Q = Refuses db (db.tables w) (some GoError.user_does_not_exist) in
            on-counted db laws Calm counts (db.tables w) Q (has_id id) _ _ w still refl
              (λ w₁ still₁ e₁. on-test Q _ _ _ _ (λ h. (refl, e₁)) (λ h. absurd (ground arith))))
        | inr known ↦ rw known (elim (Bool-cases (count_if other rows == 0)) [
          | inl free ↦ rw free tt
          | inr taken ↦ rw taken (
              let at_most = count_if-le other (has_email email) rows (λ u h. ground arith) in
              let once : count_if other rows ≡ 1 =
                ground (arith, unique.email_once email, at_most) in
              let Q = Refuses db (db.tables w) (some GoError.user_with_same_email_already_exists) in
              on-counted db laws Calm counts (db.tables w) Q (has_id id) _ _ w still refl
                (λ w₁ still₁ e₁.
                  on-test Q _ _ _ _ (λ h. absurd (ground arith))
                    (λ _.
                      on-counted db laws Calm counts (db.tables w) Q other _ _ w₁ still₁ e₁
                        (λ w₂ still₂ e₂.
                          on-test Q _ _ _ _ (λ h. (refl, e₂))
                            (λ h. absurd (ground (arith, once)))))))
        ])
      ]

  -- Where counting succeeds and the stored emails and ids are distinct: creating a user with an
  -- email in use, updating to the email of another user, and updating or deleting a user that does
  -- not exist, or changing the password of one, are refused with the error that says so, and
  -- nothing is changed.
  pub user_operations-Refuses :
      IsUnique rows
      → (id : ℕ) (name email role hash : String)
      → Refuses db (db.tables w) (create_refusal email rows) (create_user db name email role hash w)
        × Refuses db
            (db.tables w)
            (update_refusal id email rows)
            (update_user db id name email role w)
        × Refuses db (db.tables w) (delete_refusal id rows) (delete_user db id w)
        × Refuses db (db.tables w) (password_refusal email rows) (change_password db email hash w)
  user_operations-Refuses unique id name email role hash = (
    create_user-Refuses unique name email role hash,
    update_user-Refuses unique id name email role,
    delete_user-Refuses id,
    change_password-Refuses email hash,
  )
