-- ===== src/Handlers.antt =====
-- What the HTTP handlers share: responses, early returns, and the parsing of parameters.
pub mod Rules
pub mod Kept
pub mod Roles
pub mod Services
pub mod Users
use Prim.Native.Char.{Char, code}
use Prim.Native.String.{String, [], ◌∷◌}
use go_user_and_service_mgmt.Prelude.{
  ℕ, ℤ, pos, negsuc, zero, suc, Bool, true, false, List, Option, none, some, Value, string, ◌+◌,
  ◌-◌, ◌*◌, ◌^◌, leb, ltb, nat_eq, ◌&&◌, ◌||◌, if◌then◌else◌,
}
use go_user_and_service_mgmt.Errors.{GoError}
use go_user_and_service_mgmt.Models.{User, UserRole, Service, ServiceVersion, Paginated}
use go_user_and_service_mgmt.Gorm.{Action, Result, ok, err}

-- The bodies of the responses. Of an error the status tells the handlers' cases apart; its text
-- is kept where it is constant, and `formatted` stands for the texts that are printed with
-- arguments.
pub data Body : Type 0 where
  error message : String → Body
  formatted : Body
  user : User → Body
  users : Paginated User → Body
  token : String → Bool → Body
  service : Service → Body
  services : Paginated Service → Body
  version : ServiceVersion → Body
  versions : Paginated ServiceVersion → Body
  roles : List UserRole → Body
  temporary_password : String → Body
  empty : Body

pub record Response : Type 0 where
  pub status : ℕ
  pub body : Body

-- How a step of a handler ends: it goes on, it has responded, or it panics.
pub data Flow (A : Type 0) : Type 0 where
  go : A → Flow A
  respond : Response → Flow A
  panic : Flow A

abbrev pub Handler : Type 0 → Type 0 → Type 0
Handler World A = World → Flow A × World

module _ {World A B : Type 0} where
  abbrev pub proceed : Flow A → (A → Handler World B) → Handler World B
  proceed (go a) f w = f a w
  proceed (respond r) f w = (respond r, w)
  proceed panic f w = (panic, w)

  infixl 10 ◌>>=◌
  unfoldable pub ◌>>=◌ : Handler World A → (A → Handler World B) → Handler World B
  ◌>>=◌ m f w = proceed (m w).0 f (m w).1

infixl 10 ◌>>◌
abbrev pub ◌>>◌ : {World A B : Type 0} → Handler World A → Handler World B → Handler World B
m >> rest = m >>= λ _. rest

-- A call that may fail, with the response to its errors.
abbrev pub flow_of : {A : Type 0} → (GoError → ℕ × Body) → Result A → Flow A
flow_of g (ok a) = go a
flow_of g (err e) = respond (record { status = (g e).0; body = (g e).1 })

module _ {World : Type 0} where
  -- `c.JSON(status, body)`
  abbrev pub answer : {A : Type 0} → ℕ → Body → Handler World A
  answer status body w = (respond (record { status = status; body = body }), w)

  -- `if b { c.JSON(status, body); return }`
  unfoldable pub answer_if : Bool → ℕ → Body → Handler World (Unit {0})
  answer_if true status body w = answer status body w
  answer_if false status body w = (go tt, w)

  -- A value, or the response for its absence.
  unfoldable pub or_answer : {A : Type 0} → Option A → ℕ → Body → Handler World A
  or_answer none status body w = answer status body w
  or_answer (some a) status body w = (go a, w)

  -- `value.(string)`, which panics on another type
  unfoldable pub assert_string : Option Value → Handler World String
  assert_string (some (string s)) w = (go s, w)
  assert_string _ w = (panic, w)

  -- A result, or the panic of the operation that should have returned it.
  unfoldable pub or_panic : {A : Type 0} → Option A → Handler World A
  or_panic (some a) w = (go a, w)
  or_panic none w = (panic, w)

  unfoldable pub call : {A : Type 0} → Action World A → (GoError → ℕ × Body) → Handler World A
  call m g w = (flow_of g (m w).0, (m w).1)

abbrev pub is_digit : Char → Bool
is_digit c = leb 48 (code c) && leb (code c) 57

-- The number that the decimal digits at the front of a text continue, and whether a digit was
-- read and nothing is left.
unfoldable pub digits_from : ℕ → Bool → String → ℕ × Bool × Bool
digits_from n seen [] = (n, seen, true)
digits_from n seen (c ∷ s) =
    let rest = digits_from (10 * n + (code c - 48)) true s in
    if is_digit c then rest else (n, seen, false)

-- The spaces that a verb of `Sscanf` skips; at a line feed, which the format has not, it fails.
abbrev pub is_space : Char → Bool
is_space c =
    let n = code c in
    nat_eq n 9
    || (leb 11 n && leb n 13)
    || nat_eq n 32
    || nat_eq n 133
    || nat_eq n 160
    || nat_eq n 5760
    || (leb 8192 n && leb n 8202)
    || nat_eq n 8232
    || nat_eq n 8233
    || nat_eq n 8239
    || nat_eq n 8287
    || nat_eq n 12288

-- `fmt.Sscanf(id, "%d", &id)` into a `uint`: spaces, then digits; what follows is not looked at.
unfoldable pub scan_uint : String → Option ℕ
unfolding digits_from
scan_uint [] = none
scan_uint (c ∷ s) =
    let skipped = scan_uint s in
    let (n, seen, _) = digits_from 0 false (c ∷ s) in
    if is_space c then skipped else if seen && ltb n (2 ^ 64) then some n else none

unfoldable pub unsigned : ℕ × Bool × Bool → ℕ → Option ℕ
unsigned (n, seen, over) bound = if seen && over && ltb n bound then some n else none

unfoldable pub negated : Option ℕ → Option ℤ
negated none = none
negated (some zero) = some (pos 0)
negated (some (suc n)) = some (negsuc n)

unfoldable pub positive : Option ℕ → Option ℤ
positive none = none
positive (some n) = some (pos n)

-- `strconv.Atoi`
unfoldable pub atoi : String → Option ℤ
unfolding digits_from unsigned negated positive
atoi [] = none
atoi (c ∷ s) =
    if nat_eq (code c) 45
    then negated (unsigned (digits_from 0 false s) (2 ^ 63 + 1))
    else if nat_eq (code c) 43
    then positive (unsigned (digits_from 0 false s) (2 ^ 63))
    else positive (unsigned (digits_from 0 false (c ∷ s)) (2 ^ 63))
