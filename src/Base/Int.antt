-- ===== src/Base/Int.antt =====
-- Go's `int` where a value may be negative, and the conversion `int16(n)`, which wraps around.
use Prim.Native.Nat.{ℕ, zero, suc, ◌+◌, ◌-◌, ◌%◌, ◌≤◌}
use mathlib.Core.Path.{◌≡◌}
use mathlib.Core.Bool.{Bool}
use native.Mathlib.Omega.{arith}
use go_auth_refresh_template.Base.Tests.{ltb, if◌then◌else◌}

-- `negsuc n` is -(n + 1).
pub data ℤ : Type 0 where
  pos : ℕ → ℤ
  negsuc : ℕ → ℤ

abbrev pub pos_part : ℤ → ℕ
pos_part (pos n) = n
pos_part (negsuc n) = 0

abbrev pub neg_part : ℤ → ℕ
neg_part (pos n) = 0
neg_part (negsuc n) = suc n

infix 50 ◌≤ℤ◌ ◌<ℤ◌
abbrev pub ◌≤ℤ◌ : ℤ → ℤ → Type 0
a ≤ℤ b = pos_part a + neg_part b ≤ pos_part b + neg_part a

abbrev pub ◌<ℤ◌ : ℤ → ℤ → Type 0
a <ℤ b = suc (pos_part a + neg_part b) ≤ pos_part b + neg_part a

abbrev pub ltb_ℤ : ℤ → ℤ → Bool
ltb_ℤ a b = ltb (pos_part a + neg_part b) (pos_part b + neg_part a)

-- n + 1
abbrev pub suc_ℤ : ℤ → ℤ
suc_ℤ (pos n) = pos (n + 1)
suc_ℤ (negsuc zero) = pos 0
suc_ℤ (negsuc (suc n)) = negsuc n

-- The low 16 bits, read as a two's complement number.
signed16 : ℕ → ℤ
signed16 r = if ltb r 32768 then pos r else negsuc (65535 - r)

unfoldable pub int16 : ℤ → ℤ
unfolding signed16
int16 (pos n) = signed16 (n % 65536)
int16 (negsuc n) = signed16 (65535 - n % 65536)

-- A converted value lies in the range of an `int16`.
pub int16_range : (n : ℤ) → (negsuc 32767 ≤ℤ int16 n) × (int16 n ≤ℤ pos 32767)
unfolding int16
int16_range (pos n) = ground arith
int16_range (negsuc n) = ground arith

-- In that range the conversion changes nothing.
pub int16_id : (n : ℤ) → negsuc 32767 ≤ℤ n → n ≤ℤ pos 32767 → int16 n ≡ n
unfolding int16
int16_id (pos n) lo hi = ground arith
int16_id (negsuc n) lo hi = ground arith
