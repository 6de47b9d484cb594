-- ===== src/Prelude/Words.antt =====
-- Machine words: 64-bit wrap-around, and checks of every byte by evaluation.
use Prim.Native.Nat.{ℕ, zero, suc, ◌+◌, ◌-◌, ◌%◌, ◌^◌, ◌<◌}
use mathlib.Core.Path.{◌≡◌}
use mathlib.Core.Bool.{Bool, true, ◌&&◌}
use native.Mathlib.Omega.{arith}

-- `u64` arithmetic.
abbrev pub u64_mod : ℕ
u64_mod = 2 ^ 64

abbrev pub add64 : ℕ → ℕ → ℕ
add64 a b = (a + b) % u64_mod

abbrev pub sub64 : ℕ → ℕ → ℕ
sub64 a b = (a + u64_mod - b) % u64_mod

-- `usz(-1)` and `usz(-2)`.
abbrev pub minus_one : ℕ
minus_one = u64_mod - 1

abbrev pub minus_two : ℕ
minus_two = u64_mod - 2

-- A test holds of every number up to a bound, the bound left out.
unfoldable pub passes_up_to : (ℕ → Bool) → ℕ → Bool
passes_up_to test zero = true
passes_up_to test (suc bound) = passes_up_to test bound && test bound

pub passes_up_to_lem :
    (test : ℕ → Bool) (bound i : ℕ) → i < bound → passes_up_to test bound ≡ true → test i ≡ true
unfolding passes_up_to
passes_up_to_lem test zero i below passed = absurd (omega arith)
passes_up_to_lem test (suc bound) i below passed = ground (arith, passes_up_to_lem test bound i)
