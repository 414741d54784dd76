-- ===== src/Prelude/Int.antt =====
-- Signed integers over the native numbers, and two's complement for the 64-bit type.
use Prim.Native.Nat.{ℕ, ◌-◌, ◌%◌, ◌^◌, ◌<◌}
use mathlib.Core.Path.{◌≡◌}
use mathlib.Core.Bool.{Bool, true, false}
use native.Mathlib.Omega.{arith}
use clip_share_server.Prelude.Tests.{ltb, leb, if◌then◌else◌}

-- `negsuc n` is -(n + 1).
pub data ℤ : Type 0 where
  pos : ℕ → ℤ
  negsuc : ℕ → ℤ

abbrev pub is_neg : ℤ → Bool
is_neg (pos n) = false
is_neg (negsuc n) = true

abbrev pub magnitude : ℤ → ℕ
magnitude (pos n) = n
magnitude (negsuc n) = 0

-- a <= 0
abbrev pub le_zero : ℤ → Bool
le_zero (pos n) = leb n 0
le_zero (negsuc n) = true

-- a > n, for an n that is not negative
abbrev pub gt_nat : ℤ → ℕ → Bool
gt_nat (pos a) n = ltb n a
gt_nat (negsuc a) n = false

abbrev pub two63 : ℕ
two63 = 2 ^ 63

abbrev pub two64 : ℕ
two64 = 2 ^ 64

-- The values of int64_t.
abbrev pub IsI64 : ℤ → Type 0
IsI64 (pos n) = n < two63
IsI64 (negsuc n) = n < two63

-- The bit pattern of an int64_t, and the value of a pattern.
abbrev pub to_word : ℤ → ℕ
to_word (pos n) = n % two64
to_word (negsuc n) = two64 - 1 - n % two64

abbrev pub signed64 : ℕ → ℤ
signed64 w = if ltb w two63 then pos w else negsuc (two64 - 1 - w)

pub signed64-to_word : (a : ℤ) → IsI64 a → signed64 (to_word a) ≡ a
signed64-to_word (pos n) h = ground arith
signed64-to_word (negsuc n) h = ground arith

pub to_word-lt : (a : ℤ) → IsI64 a → to_word a < two64
to_word-lt (pos n) h = omega arith
to_word-lt (negsuc n) h = omega arith
