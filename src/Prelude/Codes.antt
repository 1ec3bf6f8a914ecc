-- ===== src/Prelude/Codes.antt =====
-- The `int` results of the drivers, and arithmetic on `u32`.
use Prim.Native.Nat.{ℕ, zero, suc, ◌+◌, ◌-◌, ◌%◌}
use mathlib.Core.Path.{◌≡◌}
use mathlib.Core.Bool.{Bool, true, false}
use native.Mathlib.Omega.{arith}
use hddchecker.Prelude.Tests.{ltb, if◌then◌else◌}

-- The error numbers that the drivers return negated. `other n` is any other negative value, -n:
-- one that the code spells as a number, or that an external function returned.
pub data Errno : Type 0 where
  eio enomem enodev einval enxio ebusy eexist enospc : Errno
  other : ℕ → Errno

-- A C `int`: a value that is at least 0, or an error.
pub data RetCode : Type 0 where
  ret : ℕ → RetCode
  err : Errno → RetCode

-- `result == 0`
abbrev pub is_zero : RetCode → Bool
is_zero (ret zero) = true
is_zero (ret (suc n)) = false
is_zero (err e) = false

-- `result < 0`
abbrev pub is_neg : RetCode → Bool
is_neg (ret n) = false
is_neg (err e) = true

abbrev pub u32_mod : ℕ
u32_mod = 4294967296

abbrev pub add32 : ℕ → ℕ → ℕ
add32 a b = (a + b) % u32_mod

abbrev pub sub32 : ℕ → ℕ → ℕ
sub32 a b = (a + u32_mod - b) % u32_mod

-- A `u32` stored in an `int`.
abbrev pub of_u32 : ℕ → RetCode
of_u32 n = if ltb n 2147483648 then ret n else err (other (u32_mod - n))

pub is_zero_iff : (r : RetCode) → is_zero r ≡ true → r ≡ ret 0
is_zero_iff r h = ground arith
