-- ===== src/Prelude/Machine.antt =====
-- Rust's operations on machine integers, over natural numbers.
use Prim.Native.Nat.{ℕ, ◌+◌, ◌%◌, ◌≤◌, ◌<◌}
use mathlib.Core.Path.{◌≡◌}
use native.Mathlib.Omega.{arith}
use verkkokyyla.Prelude.Tests.{ltb, leb, if◌then◌else◌}

-- `u32::MAX`, `i64::MAX`, and the number of values of a u64.
abbrev pub u32_max : ℕ
u32_max = 4294967295

abbrev pub i64_max : ℕ
i64_max = 9223372036854775807

abbrev pub u64_mod : ℕ
u64_mod = 18446744073709551616

-- `Ord::clamp` for `lo ≤ hi`; Rust panics at `lo > hi`, which the callers rule out.
unfoldable pub clamp : ℕ → ℕ → ℕ → ℕ
clamp x lo hi = if ltb x lo then lo else if ltb hi x then hi else x

-- A result that does not fit takes the largest value that does.
unfoldable pub saturate : ℕ → ℕ → ℕ
saturate limit x = if leb x limit then x else limit

-- `n += 1` on a u64.
unfoldable pub bump_u64 : ℕ → ℕ
bump_u64 n = (n + 1) % u64_mod

pub clamp_bounds : (x lo hi : ℕ) → lo ≤ hi → (lo ≤ clamp x lo hi) × (clamp x lo hi ≤ hi)
unfolding clamp
clamp_bounds x lo hi h = ground arith

pub clamp_inside : (x lo hi : ℕ) → lo ≤ x → x ≤ hi → clamp x lo hi ≡ x
unfolding clamp
clamp_inside x lo hi h k = ground arith

pub saturate_fits : (limit x : ℕ) → x ≤ limit → saturate limit x ≡ x
unfolding saturate
saturate_fits limit x h = ground arith

pub bump_u64_fits : (n : ℕ) → n + 1 < u64_mod → bump_u64 n ≡ n + 1
unfolding bump_u64
bump_u64_fits n h = omega arith
