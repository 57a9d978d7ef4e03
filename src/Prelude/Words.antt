-- ===== src/Prelude/Words.antt =====
-- 64-bit unsigned counters: `std::uint64_t` and `std::size_t` wrap modulo 2^64.
use Prim.Native.Nat.{ℕ, ◌+◌, ◌-◌, ◌%◌}
use mathlib.Core.Path.{◌≡◌}
use native.Mathlib.Omega.{arith}

abbrev pub u64_mod : ℕ
u64_mod = 18446744073709551616

-- `fetch_add(1)` and `++`.
abbrev pub add_one64 : ℕ → ℕ
add_one64 c = (c + 1) % u64_mod

-- `fetch_sub(1)`.
abbrev pub sub_one64 : ℕ → ℕ
sub_one64 c = (c + u64_mod - 1) % u64_mod

pub add_one64-mod : (t t' : ℕ) → t' ≡ t + 1 → add_one64 (t % u64_mod) ≡ t' % u64_mod
add_one64-mod t t' h = omega arith

pub sub_one64-mod : (t t' : ℕ) → t' + 1 ≡ t → sub_one64 (t % u64_mod) ≡ t' % u64_mod
sub_one64-mod t t' h = omega arith
