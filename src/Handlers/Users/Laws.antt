-- ===== src/Handlers/Users/Laws.antt =====
-- No handler of the user endpoints panics.
use go_user_and_service_mgmt.Prelude.{
  ℕ, String, Bool, true, false, not, List, Option, some, Value, lookup, ◌≡◌, refl, true≢false,
}
use go_user_and_service_mgmt.Errors.{GoError}
use go_user_and_service_mgmt.Gorm.{Action, Database}
use go_user_and_service_mgmt.Utils.{
  GoType, ensure_fields_strictly_exists, login_payload_template, user_payload_template,
  password_change_payload_template,
}
use go_user_and_service_mgmt.Utils.Laws.{IsText, ensure_fields_strictly_exists-IsText}
use go_user_and_service_mgmt.Middleware.{Context}
use go_user_and_service_mgmt.Handlers.{
  Flow, respond, Handler, Body, answer_if, or_answer, assert_string, or_panic, call, ◌>>=◌,
}
use go_user_and_service_mgmt.Handlers.Rules.{
  on-answer_if, on-or_answer, on-assert_string, on-or_panic, on-call,
}
use go_user_and_service_mgmt.Services.Panics.{NoPanic}
use go_user_and_service_mgmt.Handlers.Users.{
  Environment, login, add_user, change_user, change_user_password,
}

abbrev pub HasAnswered : {World A : Type 0} → Flow A × World → Type 0
HasAnswered (respond _, _) = Unit
HasAnswered _ = ⊥

pub unnegated : (b : Bool) → not b ≡ false → b ≡ true
unnegated true h = refl
unnegated false h = absurd (true≢false h)

module _ {World B : Type 0} where
  -- The rules at this postcondition.
  pub after_answer_if :
      (b : Bool) (status : ℕ) (body : Body) (f : Unit {0} → Handler World B) (w : World)
      → (b ≡ false → HasAnswered (f tt w))
      → HasAnswered ((answer_if b status body >>= f) w)
  after_answer_if b status body f w = on-answer_if HasAnswered b status body f w tt

  pub after_or_answer :
      {A : Type 0} (o : Option A) (status : ℕ) (body : Body) (f : A → Handler World B) (w : World)
      → ((a : A) → HasAnswered (f a w))
      → HasAnswered ((or_answer o status body >>= f) w)
  after_or_answer o status body f w rest =
      on-or_answer HasAnswered o status body f w tt (λ a _. rest a)

  pub after_assert :
      (field : String) (payload : List (String × Value)) (f : String → Handler World B) (w : World)
      → IsText field payload
      → ((s : String) → HasAnswered (f s w))
      → HasAnswered ((assert_string (lookup field payload) >>= f) w)
  after_assert field payload f w (s, found) rest =
      on-assert_string HasAnswered field payload f w s found (rest s)

  pub after_call :
      {A : Type 0} (m : Action World A) (g : GoError → ℕ × Body) (f : A → Handler World B)
      (w : World)
      → ((a : A) (w' : World) → HasAnswered (f a w'))
      → HasAnswered ((call m g >>= f) w)
  after_call m g f w rest =
      on-call HasAnswered (λ _. Unit) m g f w tt (λ a w' _. rest a w') (λ e w'. tt)

  -- A call that has not panicked.
  pub after_operation :
      {A : Type 0} (m : Action World (Option A)) (g : GoError → ℕ × Body) (f : A → Handler World B)
      (w : World)
      → NoPanic (m w).0
      → ((a : A) (w' : World) → HasAnswered (f a w'))
      → HasAnswered ((call m g >>= (λ o. or_panic o >>= f)) w)
  after_operation m g f w quiet rest =
      on-call HasAnswered NoPanic m g (λ o. or_panic o >>= f) w quiet
        (λ o w' safe. on-or_panic HasAnswered o f w' safe (λ a. rest a w')) (λ e w'. tt)

-- A payload that has passed the check.
pub checked-IsText :
    (payload : List (String × Value)) (template : List (String × GoType)) (field : String)
    → not (ensure_fields_strictly_exists payload template) ≡ false
    → lookup field template ≡ some GoType.string_type
    → IsText field payload
checked-IsText payload template field h =
    ensure_fields_strictly_exists-IsText payload template field
      (unnegated (ensure_fields_strictly_exists payload template) h)

module _ {World : Type 0} (db : Database World) (env : Environment World) where
  login-HasAnswered :
      (body : Option (List (String × Value))) (w : World) → HasAnswered (login db env body w)
  unfolding login
  login-HasAnswered body w = after_or_answer body _ _ _ w λ payload.
      after_answer_if _ _ _ _ w λ checked. after_answer_if _ _ _ _ w λ _.
        after_assert "email" payload _ w
          (checked-IsText payload login_payload_template "email" checked refl)
          λ e. after_call _ _ _ w λ user w₁.
            after_assert "password" payload _ w₁
              (checked-IsText payload login_payload_template "password" checked refl)
              λ p. after_answer_if _ _ _ _ w₁ λ _. after_call _ _ _ w₁ λ _ _. tt

  add_user-HasAnswered :
      (body : Option (List (String × Value))) (w : World) → HasAnswered (add_user db env body w)
  unfolding add_user
  add_user-HasAnswered body w = after_or_answer body _ _ _ w λ payload.
      after_answer_if _ _ _ _ w λ checked.
        let text_of =
          λ (field : String). checked-IsText payload user_payload_template field checked in
        after_answer_if _ _ _ _ w λ _. after_assert "role" payload _ w (text_of "role" refl) λ role.
          after_answer_if _ _ _ _ w λ _. after_call _ _ _ w λ password w₁.
            after_call _ _ _ w₁ λ hash w₂.
              after_assert "name" payload _ w₂ (text_of "name" refl) λ name.
                after_assert "email" payload _ w₂ (text_of "email" refl)
                  λ email. after_call _ _ _ w₂ λ _ _. tt

  change_user-HasAnswered :
      (id : String) (body : Option (List (String × Value))) (w : World)
      → HasAnswered (change_user db env id body w)
  unfolding change_user
  change_user-HasAnswered id body w = after_or_answer _ _ _ _ w λ user_id.
      after_or_answer body _ _ _ w λ payload. after_answer_if _ _ _ _ w λ checked.
        let text_of =
          λ (field : String). checked-IsText payload user_payload_template field checked in
        after_answer_if _ _ _ _ w λ _. after_assert "role" payload _ w (text_of "role" refl) λ role.
          after_answer_if _ _ _ _ w λ _.
            after_assert "name" payload _ w (text_of "name" refl) λ name.
              after_assert "email" payload _ w (text_of "email" refl)
                λ email. after_call _ _ _ w λ _ _. tt

  change_user_password-HasAnswered :
      (c : Context) (body : Option (List (String × Value))) (w : World)
      → HasAnswered (change_user_password db env c body w)
  unfolding change_user_password
  change_user_password-HasAnswered c body w = after_or_answer _ _ _ _ w λ email.
      after_or_answer body _ _ _ w λ payload. after_answer_if _ _ _ _ w λ checked.
        after_assert "password" payload _ w
          (checked-IsText payload password_change_payload_template "password" checked refl)
          λ password. after_answer_if _ _ _ _ w λ _.
            after_answer_if _ _ _ _ w
              λ _. after_call _ _ _ w λ hash w₁. after_call _ _ _ w₁ λ _ _. tt

  -- The handlers that read a payload, or a token's email, answer every request, and none panics:
  -- a payload that passes the check has the texts that they assert.
  pub user_handlers-HasAnswered :
      (c : Context) (id : String) (body : Option (List (String × Value))) (w : World)
      → HasAnswered (login db env body w)
        × HasAnswered (add_user db env body w)
        × HasAnswered (change_user db env id body w)
        × HasAnswered (change_user_password db env c body w)
  user_handlers-HasAnswered c id body w = (
    login-HasAnswered body w,
    add_user-HasAnswered body w,
    change_user-HasAnswered id body w,
    change_user_password-HasAnswered c body w,
  )
