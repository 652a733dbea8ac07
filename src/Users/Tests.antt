-- ===== src/Users/Tests.antt =====
-- Runs of the user operations on the database in memory, and the theorems at those inputs.
use go_user_and_service_mgmt.Prelude.{
  true, false, [], ◌∷◌, ◌≡◌, refl, sym, subst, arith, pos, ◌^◌, ltb, count_if,
}
use go_user_and_service_mgmt.Errors.{GoError}
use go_user_and_service_mgmt.Models.{User}
use go_user_and_service_mgmt.Gorm.{Tables, ok, err, ◌>>=◌, or_error, fail_if}
use go_user_and_service_mgmt.Gorm.Memory.{Memory, memory}
use go_user_and_service_mgmt.Gorm.Memory.Laws.{memory-IsRelational, distinct-once, user_same_key}
use go_user_and_service_mgmt.Gorm.Laws.{user_schema, Succeeds}
use go_user_and_service_mgmt.Users.Operations.{
  fetch_users_with_pagination, create_user, update_user, delete_user, change_password, new_user,
  user_to_update,
}
use go_user_and_service_mgmt.Users.Operations.Writes.{
  Adds, Changes, Removes, SetsPassword, create_user-Adds, update_user-Changes, delete_user-Removes,
  change_password-SetsPassword,
}
use go_user_and_service_mgmt.Users.Listing.{PagesUsers, fetch_users_with_pagination-PagesUsers}
use go_user_and_service_mgmt.Users.Refusals.{
  CountsUsers, Refuses, delete_refusal, password_refusal, user_operations-Refuses,
}
use go_user_and_service_mgmt.Users.Invariant.{IsUnique}

abbrev ada : User
ada = record {
  id = 1;
  name = "Ada";
  email = "ada@mgmtportal.com";
  role = "admin";
  password_hash = "h1";
  is_temporary_password = true;
}

abbrev bob : User
bob = record ada { id = 2; name = "Bob"; email = "bob@mgmtportal.com"; role = "basic" }

abbrev store : Tables
store = record {
  user = ada ∷ bob ∷ [];
  user_role = [];
  service = [];
  version = [];
  name_sorted_service = [];
}

-- Every statement succeeds.
abbrev quiet : Memory
quiet = record { store = store; schedule = [] }

-- The second statement fails.
abbrev faulty : Memory
faulty = record { store = store; schedule = false ∷ true ∷ [] }

create_user_taken :
    create_user memory "A" "ada@mgmtportal.com" "basic" "h" quiet
    ≡ (err GoError.user_with_same_email_already_exists, quiet)
unfolding create_user ◌>>=◌ or_error fail_if
create_user_taken = refl

create_user_fault :
    (create_user memory "C" "cyd@mgmtportal.com" "basic" "h" faulty).0 ≡ err GoError.internal
unfolding create_user ◌>>=◌ or_error fail_if
create_user_fault = refl

-- An empty name is not written, though the answer shows it empty.
update_user_empty_name : update_user memory 2 "" "bob@mgmtportal.com" "advanced" quiet ≡ (
  ok (user_to_update 2 "" "bob@mgmtportal.com" "advanced"),
  record quiet { store = record store { user = ada ∷ record bob { role = "advanced" } ∷ [] } },
)
unfolding update_user ◌>>=◌ or_error fail_if
update_user_empty_name = refl

change_password-bob :
    (change_password memory "bob@mgmtportal.com" "h9" quiet).1.store.user
    ≡ ada ∷ record bob { password_hash = "h9"; is_temporary_password = false } ∷ []
unfolding change_password ◌>>=◌ or_error fail_if
change_password-bob = refl

store-IsUnique : IsUnique store.user
store-IsUnique = record {
  email_once = λ e.
      distinct-once user_schema.same_key user_same_key store.user refl (record ada { email = e });
  id_once = λ i. ground arith;
}

create_user-Adds_example :
    Adds memory store
      (new_user "Cyd" "cyd@mgmtportal.com" "basic" "h")
      (create_user memory "Cyd" "cyd@mgmtportal.com" "basic" "h" quiet)
create_user-Adds_example =
    create_user-Adds memory memory-IsRelational quiet "Cyd" "cyd@mgmtportal.com" "basic" "h"

update_user-Changes_example :
    Changes memory store
      (user_to_update 2 "Bo" "bo@mgmtportal.com" "advanced")
      (update_user memory 2 "Bo" "bo@mgmtportal.com" "advanced" quiet)
update_user-Changes_example =
    update_user-Changes memory memory-IsRelational quiet 2 "Bo" "bo@mgmtportal.com" "advanced"

delete_user-Removes_example : Removes memory store 2 (delete_user memory 2 quiet)
delete_user-Removes_example = delete_user-Removes memory memory-IsRelational quiet 2

change_password-SetsPassword_example :
    SetsPassword memory store "bob@mgmtportal.com" "h9"
      (change_password memory "bob@mgmtportal.com" "h9" quiet)
change_password-SetsPassword_example =
    change_password-SetsPassword memory memory-IsRelational quiet "bob@mgmtportal.com" "h9"

fetch_users_with_pagination-PagesUsers_example :
    PagesUsers memory memory-IsRelational store 1 1
      (fetch_users_with_pagination memory (pos 2) (pos 1) quiet)
fetch_users_with_pagination-PagesUsers_example =
    fetch_users_with_pagination-PagesUsers memory memory-IsRelational quiet 1 1 (omega arith)
      (omega arith) (omega arith)

-- Counting the users of the store succeeds.
counts_users : CountsUsers memory (λ m. m ≡ quiet)
counts_users p m at_quiet =
    let fits : ltb (count_if p store.user) (2 ^ 63) ≡ true = ground arith in
    subst (λ x. Succeeds (λ m'. m' ≡ quiet) (memory.users.count p x)) (sym at_quiet) (rw fits refl)

-- Ada's email is taken, for a new user and for Bob.
user_operations-Refuses_example :
    (((create_user memory "Bob" "ada@mgmtportal.com" "basic" "h" quiet).0
        ≡ err GoError.user_with_same_email_already_exists)
      × ((create_user memory "Bob" "ada@mgmtportal.com" "basic" "h" quiet).1.store ≡ store))
    × (((update_user memory 2 "Bob" "ada@mgmtportal.com" "basic" quiet).0
          ≡ err GoError.user_with_same_email_already_exists)
        × ((update_user memory 2 "Bob" "ada@mgmtportal.com" "basic" quiet).1.store ≡ store))
    × Refuses memory store (delete_refusal 2 store.user) (delete_user memory 2 quiet)
    × Refuses memory store
        (password_refusal "ada@mgmtportal.com" store.user)
        (change_password memory "ada@mgmtportal.com" "h" quiet)
user_operations-Refuses_example =
    user_operations-Refuses memory memory-IsRelational (λ m. m ≡ quiet) counts_users quiet refl
      store-IsUnique 2 "Bob" "ada@mgmtportal.com" "basic" "h"
