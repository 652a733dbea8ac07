-- ===== src/Handlers/Services/Laws.antt =====
-- No handler of the service endpoints that reads a payload panics.
use go_user_and_service_mgmt.Prelude.{ℕ, String, Bool, true, false, List, Option, Value, refl}
use go_user_and_service_mgmt.Gorm.{Database}
use go_user_and_service_mgmt.Services.Operations.{Server}
use go_user_and_service_mgmt.Utils.{
  service_payload_template, register_version_payload_template, update_version_payload_template,
}
use go_user_and_service_mgmt.Handlers.{
  Flow, go, respond, panic, Handler, Body, proceed, answer_if, ◌>>=◌,
}
use go_user_and_service_mgmt.Handlers.Rules.{on-call}
use go_user_and_service_mgmt.Handlers.Services.{
  require_service, add_service, change_service_by_id, add_version, change_version,
}
use go_user_and_service_mgmt.Handlers.Users.Laws.{
  HasAnswered, after_answer_if, after_or_answer, after_assert, after_call, checked-IsText,
}

abbrev IsQuiet : {World A : Type 0} → Flow A × World → Type 0
IsQuiet (panic, _) = ⊥
IsQuiet _ = Unit

module _ {World : Type 0} where
  answer_if-IsQuiet :
      (b : Bool) (status : ℕ) (body : Body) (w : World) → IsQuiet (answer_if b status body w)
  unfolding answer_if
  answer_if-IsQuiet true status body w = tt
  answer_if-IsQuiet false status body w = tt

  proceed-HasAnswered :
      {A B : Type 0} (x : Flow A × World) (f : A → Handler World B)
      → IsQuiet x
      → ((a : A) (w : World) → HasAnswered (f a w))
      → HasAnswered (proceed x.0 f x.1)
  proceed-HasAnswered (go a, w) f quiet rest = rest a w
  proceed-HasAnswered (respond r, w) f quiet rest = tt
  proceed-HasAnswered (panic, w) f quiet rest = absurd quiet

module _ {World : Type 0} (db : Database World) where
  require_service-IsQuiet : (id : ℕ) (w : Server World) → IsQuiet (require_service db id w)
  unfolding require_service
  require_service-IsQuiet id w =
      on-call IsQuiet (λ _. Unit) _ _ _ w tt (λ exists w₁ _. answer_if-IsQuiet _ _ _ w₁)
        (λ e w₁. tt)

  pub after_require :
      (id : ℕ) (f : Unit {0} → Handler (Server World) (Unit {0})) (w : Server World)
      → ((w' : Server World) → HasAnswered (f tt w'))
      → HasAnswered ((require_service db id >>= f) w)
  unfolding ◌>>=◌
  after_require id f w rest =
      proceed-HasAnswered (require_service db id w) f (require_service-IsQuiet id w) (λ _. rest)

  add_service-HasAnswered :
      (body : Option (List (String × Value))) (w : Server World)
      → HasAnswered (add_service db body w)
  unfolding add_service
  add_service-HasAnswered body w = after_or_answer body _ _ _ w λ payload.
      after_answer_if _ _ _ _ w λ checked.
        after_assert "name" payload _ w
          (checked-IsText payload service_payload_template "name" checked refl)
          λ name. after_answer_if _ _ _ _ w λ _.
            after_assert "description" payload _ w
              (checked-IsText payload service_payload_template "description" checked refl)
              λ description. after_call _ _ _ w λ _ _. tt

  change_service_by_id-HasAnswered :
      (id : String) (body : Option (List (String × Value))) (w : Server World)
      → HasAnswered (change_service_by_id db id body w)
  unfolding change_service_by_id
  change_service_by_id-HasAnswered id body w = after_or_answer _ _ _ _ w λ service_id.
      after_or_answer body _ _ _ w λ payload. after_answer_if _ _ _ _ w λ checked.
        after_assert "name" payload _ w
          (checked-IsText payload service_payload_template "name" checked refl)
          λ name. after_answer_if _ _ _ _ w λ _.
            after_assert "description" payload _ w
              (checked-IsText payload service_payload_template "description" checked refl)
              λ description. after_call _ _ _ w λ _ _. tt

  add_version-HasAnswered :
      (id : String) (body : Option (List (String × Value))) (w : Server World)
      → HasAnswered (add_version db id body w)
  unfolding add_version
  add_version-HasAnswered id body w = after_or_answer _ _ _ _ w λ service_id.
      after_or_answer body _ _ _ w λ payload. after_answer_if _ _ _ _ w λ checked.
        after_assert "tag" payload _ w
          (checked-IsText payload register_version_payload_template "tag" checked refl)
          λ tag. after_answer_if _ _ _ _ w λ _. after_require service_id _ w λ w₁.
            after_assert "info" payload _ w₁
              (checked-IsText payload register_version_payload_template "info" checked refl)
              λ info. after_call _ _ _ w₁ λ _ _. tt

  change_version-HasAnswered :
      (id tag : String) (body : Option (List (String × Value))) (w : Server World)
      → HasAnswered (change_version db id tag body w)
  unfolding change_version
  change_version-HasAnswered id tag body w = after_or_answer _ _ _ _ w λ service_id.
      after_answer_if _ _ _ _ w λ _. after_or_answer body _ _ _ w λ payload.
        after_answer_if _ _ _ _ w λ checked. after_require service_id _ w λ w₁.
          after_assert "info" payload _ w₁
            (checked-IsText payload update_version_payload_template "info" checked refl)
            λ info. after_call _ _ _ w₁ λ _ _. tt

  -- The four handlers of services and versions that read a payload answer every request, and none
  -- panics.
  pub service_handlers-HasAnswered :
      (id tag : String) (body : Option (List (String × Value))) (w : Server World)
      → HasAnswered (add_service db body w)
        × HasAnswered (change_service_by_id db id body w)
        × HasAnswered (add_version db id body w)
        × HasAnswered (change_version db id tag body w)
  service_handlers-HasAnswered id tag body w = (
    add_service-HasAnswered body w,
    change_service_by_id-HasAnswered id body w,
    add_version-HasAnswered id body w,
    change_version-HasAnswered id tag body w,
  )
