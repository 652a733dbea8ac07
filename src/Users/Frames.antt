-- ===== src/Users/Frames.antt =====
-- The user operations leave services and versions alone, and a change of a password leaves the
-- users with another email alone.
use go_user_and_service_mgmt.Prelude.{
  ℕ, String, Bool, false, List, not, ◌≡◌, ap, sym, refl, ◌∙◌, text_comparable, eq_iff,
  if◌then◌else◌, arith, count_if, filter, count_if-filter, SameRows,
}
use go_user_and_service_mgmt.Models.{User}
use go_user_and_service_mgmt.Gorm.{Result, ok, err, Database, Tables}
use go_user_and_service_mgmt.Gorm.Laws.{IsRelational}
use go_user_and_service_mgmt.Gorm.Kept.{Kept}
use go_user_and_service_mgmt.Gorm.Rows.{count_if-update_where}
use go_user_and_service_mgmt.Users.Operations.{
  create_user, update_user, delete_user, change_password, new_user, user_to_update, has_email,
  with_password,
}
use go_user_and_service_mgmt.Users.Operations.Writes.{
  OnlyUsers, Adds, Changes, Removes, SetsPassword, create_user-Adds, update_user-Changes,
  delete_user-Removes, change_password-SetsPassword,
}

module _ {World : Type 0} (db : Database World) (before : Tables) where
  abbrev pub SameServices : World → Type 0
  SameServices w' =
      ((db.tables w').service ≡ before.service) × ((db.tables w').version ≡ before.version)

  OnlyUsers-services : (w' : World) → OnlyUsers db before w' → SameServices w'
  OnlyUsers-services w' frame =
      (ap (λ (t : Tables). t.service) frame, ap (λ (t : Tables). t.version) frame)

  unchanged : (w' : World) → db.tables w' ≡ before → SameServices w'
  unchanged w' same = (ap (λ (t : Tables). t.service) same, ap (λ (t : Tables). t.version) same)

  Adds-services : (u : User) (x : Result (Unit {0}) × World) → Adds db before u x → SameServices x.1
  Adds-services u (ok _, w') h = OnlyUsers-services w' h.1
  Adds-services u (err e, w') h = unchanged w' h.0

  Changes-services : (u : User) (x : Result User × World) → Changes db before u x → SameServices x.1
  Changes-services u (ok _, w') h = OnlyUsers-services w' h.1
  Changes-services u (err e, w') h = unchanged w' h.0

  Removes-services :
      (id : ℕ) (x : Result (Unit {0}) × World) → Removes db before id x → SameServices x.1
  Removes-services id (ok _, w') h = OnlyUsers-services w' h.0
  Removes-services id (err e, w') h = unchanged w' h.0

  SetsPassword-services :
      (email hash : String) (x : Result (Unit {0}) × World)
      → SetsPassword db before email hash x
      → SameServices x.1
  SetsPassword-services email hash (ok _, w') h = OnlyUsers-services w' h.0
  SetsPassword-services email hash (err e, w') h = unchanged w' h.0

module _ {World : Type 0} (db : Database World) (laws : IsRelational db) (w : World) where
  pub user_operations-services :
      (id : ℕ) (name email role hash : String)
      → SameServices db (db.tables w) (create_user db name email role hash w).1
        × SameServices db (db.tables w) (update_user db id name email role w).1
        × SameServices db (db.tables w) (delete_user db id w).1
        × SameServices db (db.tables w) (change_password db email hash w).1
  user_operations-services id name email role hash = (
    Adds-services db (db.tables w) (new_user name email role hash) _
        (create_user-Adds db laws w name email role hash),
    Changes-services db (db.tables w) (user_to_update id name email role) _
        (update_user-Changes db laws w id name email role),
    Removes-services db (db.tables w) id _ (delete_user-Removes db laws w id),
    SetsPassword-services db (db.tables w) email hash _
        (change_password-SetsPassword db laws w email hash),
  )

-- The rows with another email are as they were.
abbrev pub SameButFor : String → List User → List User → Type 0
SameButFor email before after =
    SameRows (filter (λ u. not (has_email email u)) after)
      (filter (λ u. not (has_email email u)) before)

module _ {World : Type 0} (db : Database World) (laws : IsRelational db) where
  SetsPassword-SameButFor :
      (email hash : String) (rows : List User) (before : Tables) (x : Result (Unit {0}) × World)
      → SetsPassword db before email hash x
      → SameButFor email rows before.user
      → SameButFor email rows (db.tables x.1).user
  SetsPassword-SameButFor email hash rows before (ok _, w') (_, set, _) h p =
      let other : User → Bool = λ u. not (has_email email u) in
      let q : User → Bool = λ u. if other u then p u else false in
      let moved =
        count_if-update_where q (has_email email) (with_password email hash) before.user
          (λ u is. ground (arith, (eq_iff email email).1 refl)) in
      count_if-filter p other (db.tables w').user
      ∙ set q
      ∙ moved
      ∙ sym (count_if-filter p other before.user)
      ∙ h p
  SetsPassword-SameButFor email hash rows before (err e, w') (same, _) h p =
      ap (λ (t : Tables). count_if p (filter (λ u. not (has_email email u)) t.user)) same ∙ h p

  pub change_password-SameButFor :
      (email hash : String) (rows : List User)
      → Kept (λ w. SameButFor email rows (db.tables w).user) (change_password db email hash)
  change_password-SameButFor email hash rows = record {
    keeps = λ w.
        SetsPassword-SameButFor email hash rows (db.tables w) (change_password db email hash w)
          (change_password-SetsPassword db laws w email hash);
  }
