-- ===== src/Prelude/Int.antt =====
-- Go's `int` and `int64`: integers over the native numbers, and the wrap-around of 64 bits.
use Prim.Native.Nat.{ℕ, suc, ◌+◌, ◌-◌, ◌*◌, ◌%◌, ◌^◌, ◌≤◌, ◌<◌}
use mathlib.Core.Path.{◌≡◌}
use mathlib.Core.Logic.{◌↔◌}
use mathlib.Core.Bool.{Bool, true}
use native.Mathlib.Omega.{arith}
use go_user_and_service_mgmt.Prelude.Tests.{leb, ltb, nat_eq, if◌then◌else◌, Comparable}

-- `negsuc n` is -(n + 1).
pub data ℤ : Type 0 where
  pos : ℕ → ℤ
  negsuc : ℕ → ℤ

abbrev pub pos_part : ℤ → ℕ
pos_part (pos n) = n
pos_part (negsuc _) = 0

abbrev pub neg_part : ℤ → ℕ
neg_part (pos _) = 0
neg_part (negsuc n) = suc n

-- a - b, as an integer.
abbrev pub sub_ℕ : ℕ → ℕ → ℤ
sub_ℕ a b = if leb b a then pos (a - b) else negsuc (b - a - 1)

infixl 65 ◌+ℤ◌ ◌-ℤ◌
infixl 70 ◌*ℤ◌
infix 50 ◌≤ℤ◌
unfoldable pub ◌+ℤ◌ : ℤ → ℤ → ℤ
a +ℤ b = sub_ℕ (pos_part a + pos_part b) (neg_part a + neg_part b)

unfoldable pub ◌-ℤ◌ : ℤ → ℤ → ℤ
a -ℤ b = sub_ℕ (pos_part a + neg_part b) (neg_part a + pos_part b)

unfoldable pub ◌*ℤ◌ : ℤ → ℤ → ℤ
a *ℤ b =
    sub_ℕ (pos_part a * pos_part b + neg_part a * neg_part b)
      (pos_part a * neg_part b + neg_part a * pos_part b)

abbrev pub ◌≤ℤ◌ : ℤ → ℤ → Type 0
a ≤ℤ b = pos_part a + neg_part b ≤ pos_part b + neg_part a

abbrev pub ltb_ℤ : ℤ → ℤ → Bool
ltb_ℤ a b = ltb (pos_part a + neg_part b) (pos_part b + neg_part a)

abbrev pub leb_ℤ : ℤ → ℤ → Bool
leb_ℤ a b = leb (pos_part a + neg_part b) (pos_part b + neg_part a)

-- Go's `==` on integers.
abbrev pub int_eq : ℤ → ℤ → Bool
int_eq a b = nat_eq (pos_part a + neg_part b) (pos_part b + neg_part a)

pub int_eq_iff : (a b : ℤ) → (int_eq a b ≡ true) ↔ (a ≡ b)
int_eq_iff a b = ground arith

instance abbrev pub int_comparable : Comparable ℤ
int_comparable = record { equal = int_eq; equal_iff = int_eq_iff }

-- The integers from `2 ^ 63` up stand for negative ones.
abbrev signed : ℕ → ℤ
signed n = if ltb n (2 ^ 63) then pos n else negsuc (2 ^ 64 - 1 - n)

-- The value that a 64-bit signed register keeps of an integer.
unfoldable pub wrap64 : ℤ → ℤ
wrap64 (pos n) = signed (n % 2 ^ 64)
wrap64 (negsuc n) = signed (2 ^ 64 - 1 - n % 2 ^ 64)

-- Go's `+`, `-` and `*` on `int`.
abbrev pub int_sub : ℤ → ℤ → ℤ
int_sub a b = wrap64 (a -ℤ b)

abbrev pub int_mul : ℤ → ℤ → ℤ
int_mul a b = wrap64 (a *ℤ b)

-- Go's `%` on `int`, for a divisor that is not 0: the sign is that of the dividend.
unfoldable pub int_rem : ℤ → ℤ → ℤ
int_rem (pos a) b = pos (a % (pos_part b + neg_part b))
int_rem (negsuc a) b = sub_ℕ 0 (suc a % (pos_part b + neg_part b))

pub wrap64-pos : (n : ℕ) → n < 2 ^ 63 → wrap64 (pos n) ≡ pos n
unfolding wrap64
wrap64-pos n h = ground arith

pub wrap64-negsuc : (n : ℕ) → n < 2 ^ 63 → wrap64 (negsuc n) ≡ negsuc n
unfolding wrap64
wrap64-negsuc n h = ground arith

pub wrap64_multiple : (n : ℕ) → n % 2 ^ 64 ≡ 0 → wrap64 (pos n) ≡ pos 0
unfolding wrap64
wrap64_multiple n h = rw h

pub pos-*ℤ-pos : (a b : ℕ) → pos a *ℤ pos b ≡ pos (a * b)
unfolding ◌*ℤ◌
pos-*ℤ-pos a b = ground arith

pub pos--ℤ-pos_le : (a b : ℕ) → b ≤ a → pos a -ℤ pos b ≡ pos (a - b)
unfolding ◌-ℤ◌
pos--ℤ-pos_le a b h = ground arith

pub pos--ℤ-pos_lt : (a b : ℕ) → a < b → pos a -ℤ pos b ≡ negsuc (b - a - 1)
unfolding ◌-ℤ◌
pos--ℤ-pos_lt a b h = ground arith
