-- ===== src/Handlers/Rules.antt =====
-- How to prove a postcondition of a handler, statement by statement; `Q` is the postcondition.
use go_user_and_service_mgmt.Prelude.{
  ℕ, String, Bool, true, false, List, Option, none, some, Value, string, lookup, ◌≡◌, refl,
}
use go_user_and_service_mgmt.Errors.{GoError}
use go_user_and_service_mgmt.Gorm.{Action, Result, ok, err}
use go_user_and_service_mgmt.Handlers.{
  Flow, respond, Handler, Body, proceed, answer_if, or_answer, or_panic, assert_string, call,
  flow_of, ◌>>=◌,
}
use go_user_and_service_mgmt.Services.Panics.{NoPanic}

module _ {World B : Type 0} (Q : Flow B × World → Type 0) where
  -- `if b { c.JSON(...); return }`
  pub on-answer_if :
      (b : Bool) (status : ℕ) (body : Body) (f : Unit {0} → Handler World B) (w : World)
      → Q (respond (record { status = status; body = body }), w)
      → (b ≡ false → Q (f tt w))
      → Q ((answer_if b status body >>= f) w)
  unfolding answer_if ◌>>=◌
  on-answer_if true status body f w stop rest = stop
  on-answer_if false status body f w stop rest = rest refl

  -- A value or a response.
  pub on-or_answer :
      {A : Type 0} (o : Option A) (status : ℕ) (body : Body) (f : A → Handler World B) (w : World)
      → Q (respond (record { status = status; body = body }), w)
      → ((a : A) → o ≡ some a → Q (f a w))
      → Q ((or_answer o status body >>= f) w)
  unfolding or_answer ◌>>=◌
  on-or_answer none status body f w stop rest = stop
  on-or_answer (some a) status body f w stop rest = rest a refl

  -- The result of an operation that has not panicked.
  pub on-or_panic :
      {A : Type 0} (o : Option A) (f : A → Handler World B) (w : World)
      → NoPanic (ok o)
      → ((a : A) → Q (f a w))
      → Q ((or_panic o >>= f) w)
  unfolding or_panic ◌>>=◌
  on-or_panic none f w quiet rest = absurd quiet
  on-or_panic (some a) f w quiet rest = rest a

  -- An assertion on a field that is known to be a text.
  pub on-assert_string :
      (field : String) (payload : List (String × Value)) (f : String → Handler World B) (w : World)
      (s : String)
      → lookup field payload ≡ some (string s)
      → Q (f s w)
      → Q ((assert_string (lookup field payload) >>= f) w)
  unfolding assert_string ◌>>=◌
  on-assert_string field payload f w s found rest = rw found rest

  on-flow :
      {A : Type 0} (P : Result A → Type 0) (g : GoError → ℕ × Body) (r : Result A)
      (f : A → Handler World B) (w : World)
      → P r
      → ((a : A) → P (ok a) → Q (f a w))
      → ((e : GoError) → Q (respond (record { status = (g e).0; body = (g e).1 }), w))
      → Q (proceed (flow_of g r) f w)
  on-flow P g (ok a) f w known good bad = good a known
  on-flow P g (err e) f w known good bad = bad e

  -- A call whose result is known to meet `P`.
  pub on-call :
      {A : Type 0} (P : Result A → Type 0) (m : Action World A) (g : GoError → ℕ × Body)
      (f : A → Handler World B) (w : World)
      → P (m w).0
      → ((a : A) (w' : World) → P (ok a) → Q (f a w'))
      → ((e : GoError) (w' : World) → Q (respond (record { status = (g e).0; body = (g e).1 }), w'))
      → Q ((call m g >>= f) w)
  unfolding call ◌>>=◌
  on-call P m g f w known good bad =
      on-flow P g (m w).0 f (m w).1 known (λ a. good a (m w).1) (λ e. bad e (m w).1)

  started :
      {A : Type 0} (m : Action World A) (g : GoError → ℕ × Body) (f : A → Handler World B)
      (w : World) (x : Result A × World)
      → m w ≡ x
      → ((a : A) (w' : World) → m w ≡ (ok a, w') → Q (f a w'))
      → ((e : GoError) (w' : World) → Q (respond (record { status = (g e).0; body = (g e).1 }), w'))
      → Q (proceed (flow_of g x.0) f x.1)
  started m g f w (ok a, w') same good bad = good a w' same
  started m g f w (err e, w') same good bad = bad e w'

  -- A call, with how it went.
  pub on-run :
      {A : Type 0} (m : Action World A) (g : GoError → ℕ × Body) (f : A → Handler World B)
      (w : World)
      → ((a : A) (w' : World) → m w ≡ (ok a, w') → Q (f a w'))
      → ((e : GoError) (w' : World) → Q (respond (record { status = (g e).0; body = (g e).1 }), w'))
      → Q ((call m g >>= f) w)
  unfolding call ◌>>=◌
  on-run m g f w = started m g f w (m w) refl
