-- ===== src/Common/Int.antt =====
-- Python's signed integers, as far as the settings use them.
use Prim.Native.Nat.{ℕ, suc, ◌+◌, ◌*◌, max}
use mathlib.Core.Bool.{Bool, true}
use sms_relay.Common.Tests.{ltb, leb}

-- `negsuc n` is -(n + 1).
pub data ℤ : Type 0 where
  pos : ℕ → ℤ
  negsuc : ℕ → ℤ

-- `n >= z` for a count n.
abbrev pub at_least : ℕ → ℤ → Bool
at_least n (pos m) = leb m n
at_least n (negsuc _) = true

-- `max(1, z)`
abbrev pub max_one : ℤ → ℕ
max_one (pos n) = max 1 n
max_one (negsuc _) = 1

-- `t < now - z * unit`, with `z * unit` moved to the side where it is not negative.
abbrev pub before_cutoff : (unit : ℕ) → ℤ → ℕ → ℕ → Bool
before_cutoff unit (pos z) t now = ltb (t + z * unit) now
before_cutoff unit (negsuc z) t now = ltb t (now + suc z * unit)
