-- ===== src/Handlers/Kept.antt =====
-- A property of the state that a handler keeps, however it ends.
use go_user_and_service_mgmt.Prelude.{
  ℕ, Bool, true, false, Option, none, some, Value, string, ◌≡◌, refl,
}
use go_user_and_service_mgmt.Errors.{GoError}
use go_user_and_service_mgmt.Gorm.{Action}
use go_user_and_service_mgmt.Gorm.Kept.{Kept}
use go_user_and_service_mgmt.Handlers.{
  Handler, Flow, go, respond, panic, Body, proceed, answer, answer_if, or_answer, or_panic,
  assert_string, call, ◌>>=◌,
}

pub record Safe {S A : Type 0} (I : S → Type 0) (m : Handler S A) : Type 0 where
  pub safe : (s : S) → I s → I (m s).1

module _ {S : Type 0} (I : S → Type 0) where
  answered : (b : Bool) (status : ℕ) (body : Body) (s : S) → I s → I (answer_if b status body s).1
  unfolding answer_if
  answered true status body s h = h
  answered false status body s h = h

  offered :
      {A : Type 0} (o : Option A) (status : ℕ) (body : Body) (s : S)
      → I s
      → I (or_answer o status body s).1
  unfolding or_answer
  offered none status body s h = h
  offered (some a) status body s h = h

  unpanicked : {A : Type 0} (o : Option A) (s : S) → I s → I (or_panic o s).1
  unfolding or_panic
  unpanicked none s h = h
  unpanicked (some a) s h = h

  asserted : (v : Option Value) (s : S) → I s → I (assert_string v s).1
  unfolding assert_string
  asserted (some (string t)) s h = h
  asserted (some Value.number) s h = h
  asserted (some Value.boolean) s h = h
  asserted (some Value.array) s h = h
  asserted (some Value.object) s h = h
  asserted (some Value.null) s h = h
  asserted none s h = h

  called :
      {A : Type 0} (m : Action S A) (g : GoError → ℕ × Body) (s : S) → I (m s).1 → I (call m g s).1
  unfolding call
  called m g s h = h

module _ {S : Type 0} {I : S → Type 0} where
  pub Safe-answer : {A : Type 0} {status : ℕ} {body : Body} → Safe I (answer {A = A} status body)
  Safe-answer = record { safe = λ s h. h }

  pub Safe-answer_if : (b : Bool) (status : ℕ) (body : Body) → Safe I (answer_if b status body)
  Safe-answer_if b status body = record { safe = answered I b status body }

  pub Safe-or_answer :
      {A : Type 0} (o : Option A) (status : ℕ) (body : Body) → Safe I (or_answer o status body)
  Safe-or_answer o status body = record { safe = offered I o status body }

  pub Safe-assert_string : (v : Option Value) → Safe I (assert_string v)
  Safe-assert_string v = record { safe = asserted I v }

  pub Safe-or_panic : {A : Type 0} (o : Option A) → Safe I (or_panic o)
  Safe-or_panic o = record { safe = unpanicked I o }

  pub Safe-call :
      {A : Type 0} {m : Action S A} (g : GoError → ℕ × Body) → Kept I m → Safe I (call m g)
  Safe-call {m = m} g k = record { safe = λ s h. called I m g s (k.keeps s h) }

  proceed-safe :
      {A B : Type 0} (flow : Flow A) (f : A → Handler S B) (s : S)
      → ((a : A) → Safe I (f a))
      → I s
      → I (proceed flow f s).1
  proceed-safe (go a) f s k h = (k a).safe s h
  proceed-safe (respond r) f s k h = h
  proceed-safe panic f s k h = h

  pub Safe-bind :
      {A B : Type 0} {m : Handler S A} {f : A → Handler S B}
      → Safe I m
      → ((a : A) → Safe I (f a))
      → Safe I (m >>= f)
  unfolding ◌>>=◌
  Safe-bind {m = m} {f = f} k l = record {
    safe = λ s h. proceed-safe (m s).0 f (m s).1 l (k.safe s h);
  }

  pub Safe-bind_or_answer :
      {A B : Type 0} (o : Option A) (status : ℕ) (body : Body) (f : A → Handler S B)
      → ((a : A) → o ≡ some a → Safe I (f a))
      → Safe I (or_answer o status body >>= f)
  unfolding ◌>>=◌ or_answer
  Safe-bind_or_answer none status body f k = record { safe = λ s h. h }
  Safe-bind_or_answer (some a) status body f k = record { safe = λ s h. (k a refl).safe s h }

pub ruleset safe_steps = (
  Safe-bind, Safe-answer, Safe-answer_if, Safe-or_answer, Safe-assert_string, Safe-or_panic,
  Safe-call,
)
