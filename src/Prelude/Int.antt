-- ===== src/Prelude/Int.antt =====
-- Signed integers over the native numbers, for the C `int`s that may be negative.
use gpu_virtmem.Prelude.Tests.{ltb, leb, ◌==◌, if◌then◌else◌}
use Prim.Native.Nat.{ℕ, zero, suc, ◌+◌, ◌-◌, ◌%◌, ◌^◌, ◌≤◌, ◌<◌}
use mathlib.Core.Path.{◌≡◌, refl}
use mathlib.Core.Logic.{◌⊎◌, inl, inr}
use mathlib.Core.Bool.{Bool, not, ◌&&◌}
use native.Mathlib.Omega.{arith}

-- `negsuc n` is -(n + 1).
pub data ℤ : Type 0 where
  pos : ℕ → ℤ
  negsuc : ℕ → ℤ

abbrev pub pos_part : ℤ → ℕ
pos_part (pos n) = n
pos_part (negsuc n) = 0

abbrev pub neg_part : ℤ → ℕ
neg_part (pos n) = 0
neg_part (negsuc n) = suc n

-- a - b, as an integer.
abbrev pub sub_ℕ : ℕ → ℕ → ℤ
sub_ℕ a b = if leb b a then pos (a - b) else negsuc (b - a - 1)

infixl 65 ◌+ℤ◌ ◌-ℤ◌
infix 50 ◌≤ℤ◌ ◌<ℤ◌
abbrev pub ◌+ℤ◌ : ℤ → ℤ → ℤ
a +ℤ b = sub_ℕ (pos_part a + pos_part b) (neg_part a + neg_part b)

abbrev pub ◌-ℤ◌ : ℤ → ℤ → ℤ
a -ℤ b = sub_ℕ (pos_part a + neg_part b) (neg_part a + pos_part b)

abbrev pub ◌≤ℤ◌ : ℤ → ℤ → Type 0
a ≤ℤ b = pos_part a + neg_part b ≤ pos_part b + neg_part a

abbrev pub ◌<ℤ◌ : ℤ → ℤ → Type 0
a <ℤ b = pos_part a + neg_part b < pos_part b + neg_part a

abbrev pub ltb_ℤ : ℤ → ℤ → Bool
ltb_ℤ a b = ltb (pos_part a + neg_part b) (pos_part b + neg_part a)

-- The 32-bit `int` that a bit pattern stands for.
abbrev pub to_int : ℕ → ℤ
to_int n = let w = n % 2 ^ 32 in if ltb w (2 ^ 31) then pos w else negsuc (2 ^ 32 - w - 1)

-- A 32-bit `int` by its bit pattern: whether it is above zero, and as a `size_t`.
abbrev pub above_zero : ℕ → Bool
above_zero n = not (n == 0) && ltb n (2 ^ 31)

abbrev pub as_size_t : ℕ → ℕ
as_size_t n = if ltb n (2 ^ 31) then n else n + (2 ^ 64 - 2 ^ 32)

-- A 64-bit number that is passed as an `int` and used as a size.
abbrev pub int_size : ℕ → ℕ
int_size n = as_size_t (n % 2 ^ 32)

pub int_size_small : (n : ℕ) → n < 2 ^ 31 → int_size n ≡ n
int_size_small n h = ground arith

pub +ℤ-cancel : (a b : ℤ) → a +ℤ b -ℤ b ≡ a
+ℤ-cancel a b = ground arith

-- To split on an integer: above zero, zero, or below.
pub ℤ-cases : (z : ℤ) → ((k : ℕ) × (z ≡ pos (suc k))) ⊎ ((z ≡ pos 0) ⊎ ((k : ℕ) × (z ≡ negsuc k)))
ℤ-cases (pos zero) = inr (inl refl)
ℤ-cases (pos (suc k)) = inl (k, refl)
ℤ-cases (negsuc k) = inr (inr (k, refl))
