-- ===== src/Words.antt =====
-- Machine integers. A u32, u64 or i64 is its bit pattern, a number below the modulus; an f32 is its
-- IEEE 754 bit pattern.
use mini_cpm5_5080fast.Base.{ℕ, ◌+◌, ◌-◌, ◌%◌, ◌^◌, Bool, ◌&&◌, ◌||◌, leb, ◌==◌}

abbrev pub u32_mod : ℕ
u32_mod = 2 ^ 32

abbrev pub u64_mod : ℕ
u64_mod = 2 ^ 64

-- `fetch_add` and `fetch_sub` of the 64-bit atomics wrap around.
abbrev pub wrapping_add : ℕ → ℕ → ℕ
wrapping_add a b = (a + b) % u64_mod

abbrev pub wrapping_sub : ℕ → ℕ → ℕ
wrapping_sub a b = (a + u64_mod - b) % u64_mod

-- `a >= b` on i64: the order after the sign bit is flipped.
abbrev pub ge_i64 : ℕ → ℕ → Bool
ge_i64 a b = leb ((b + 2 ^ 63) % u64_mod) ((a + 2 ^ 63) % u64_mod)

-- `x <= 0.0` on f32: a zero, or a number with the sign bit that is no NaN.
abbrev pub f32_le_zero : ℕ → Bool
f32_le_zero x = x == 0 || (leb (2 ^ 31) x && leb x 0xFF800000)
