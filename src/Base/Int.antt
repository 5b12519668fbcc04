-- ===== src/Base/Int.antt =====
-- Signed integers over the native numbers, and Go's 64-bit words.
use Prim.Native.Nat.{ℕ, suc, ◌+◌, ◌-◌, ◌*◌, ◌%◌, ◌^◌, ◌≤◌, ◌<◌}
use mathlib.Core.Path.{◌≡◌}
use mathlib.Core.Bool.{Bool, true, false}
use native.Mathlib.Omega.{arith}
use elastic_agent_system_met.Base.Tests.{ltb, leb, nat_eq, if◌then◌else◌, Comparable}
use mathlib.Core.Logic.{◌↔◌}

-- `negsuc n` is -(n + 1).
pub data ℤ : Type 0 where
  pos : ℕ → ℤ
  negsuc : ℕ → ℤ

abbrev pub pos_part : ℤ → ℕ
pos_part (pos n) = n
pos_part (negsuc n) = 0

abbrev pub neg_part : ℤ → ℕ
neg_part (pos n) = 0
neg_part (negsuc n) = suc n

-- a - b, as an integer.
abbrev pub sub_ℕ : ℕ → ℕ → ℤ
sub_ℕ a b = if leb b a then pos (a - b) else negsuc (b - a - 1)

infixl 65 ◌+ℤ◌ ◌-ℤ◌
unfoldable pub ◌+ℤ◌ : ℤ → ℤ → ℤ
a +ℤ b = sub_ℕ (pos_part a + pos_part b) (neg_part a + neg_part b)

unfoldable pub ◌-ℤ◌ : ℤ → ℤ → ℤ
a -ℤ b = sub_ℕ (pos_part a + neg_part b) (neg_part a + pos_part b)

abbrev pub int_eq : ℤ → ℤ → Bool
int_eq (pos a) (pos b) = nat_eq a b
int_eq (negsuc a) (negsuc b) = nat_eq a b
int_eq (pos a) (negsuc b) = false
int_eq (negsuc a) (pos b) = false

pub int_eq_iff : (a b : ℤ) → (int_eq a b ≡ true) ↔ (a ≡ b)
int_eq_iff (pos a) (pos b) = ground arith
int_eq_iff (negsuc a) (negsuc b) = ground arith
int_eq_iff (pos a) (negsuc b) = ground arith
int_eq_iff (negsuc a) (pos b) = ground arith

instance abbrev pub int_comparable : Comparable ℤ
int_comparable = record { same = int_eq; same_iff = int_eq_iff }

-- uint64 arithmetic on values below 2 ^ 64.
abbrev pub u64_mod : ℕ
u64_mod = 2 ^ 64

abbrev pub add64 : ℕ → ℕ → ℕ
add64 a b = (a + b) % u64_mod

abbrev pub sub64 : ℕ → ℕ → ℕ
sub64 a b = (a + u64_mod - b) % u64_mod

abbrev pub mul64 : ℕ → ℕ → ℕ
mul64 a b = a * b % u64_mod

-- `int64(w)` of a uint64 `w`.
unfoldable pub signed64 : ℕ → ℤ
signed64 w = if ltb w (2 ^ 63) then pos w else negsuc (u64_mod - w - 1)

-- The int64 that a mathematical integer wraps to.
unfoldable pub wrap64 : ℤ → ℤ
unfolding signed64
wrap64 (pos n) = signed64 (n % u64_mod)
wrap64 (negsuc n) = signed64 (u64_mod - 1 - n % u64_mod)

-- A difference of counters that moved forward by less than 2 ^ 63 keeps its value.
pub signed64-sub64 :
    (a b : ℕ) → b ≤ a → a < u64_mod → a - b < 2 ^ 63 → signed64 (sub64 a b) ≡ pos (a - b)
unfolding signed64
signed64-sub64 a b h k l = ground arith

pub wrap64_small : (n : ℕ) → n < 2 ^ 63 → wrap64 (pos n) ≡ pos n
unfolding wrap64
wrap64_small n h = ground arith
