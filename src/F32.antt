-- ===== src/F32.antt =====
-- The `f32` of Rust: IEEE 754 binary32 with rounding to nearest, ties to even.
-- A finite value is an integer multiple of 2 ^ -149, the least positive one, and is kept as that
-- integer; so orders and sums are exact before they are rounded. The two zeros are one value: no
-- code here divides by zero or reads the sign of a zero. The modules below prove what is used.
pub mod Rounding
pub mod Monotone
pub mod Order
pub mod Arith
pub mod Exact
pub mod Idempotent
pub mod Sign
pub mod Unit
pub mod Parse
mod Tests
use fand.Prelude.{
  ℕ, zero, suc, ◌+◌, ◌*◌, ◌/◌, ◌^◌, Bool, true, false, not, ◌||◌, ltb, leb, if◌then◌else◌,
}
use fand.Prelude.Int.{ℤ, pos, negsuc, ◌+ℤ◌, ◌-ℤ◌, ◌*ℤ◌, ltb_ℤ, leb_ℤ, neg_ℕ, neg_ℤ}
use fand.F32.Rounding.{round_mag}

pub data F32 : Type 0 where
  nan pos_inf neg_inf : F32
  fin : ℤ → F32

-- 1.0, and the first magnitude that overflows, in units of 2 ^ -149.
abbrev pub one : ℕ
one = 2 ^ 149

abbrev pub overflow : ℕ
overflow = 2 ^ 277

-- A rounded magnitude with its sign, or an infinity.
abbrev pub positive : ℕ → F32
positive m = if ltb m overflow then fin (pos m) else pos_inf

abbrev pub negative : ℕ → F32
negative m = if ltb m overflow then fin (neg_ℕ m) else neg_inf

-- The integer quotient `z / d`, rounded.
unfoldable pub quot : ℤ → ℕ → F32
unfolding round_mag
quot (pos n) d = positive (round_mag n d)
quot (negsuc n) d = negative (round_mag (suc n) d)

abbrev pub is_nan : F32 → Bool
is_nan nan = true
is_nan _ = false

abbrev pub is_infinite : F32 → Bool
is_infinite pos_inf = true
is_infinite neg_inf = true
is_infinite _ = false

abbrev pub is_finite : F32 → Bool
is_finite (fin _) = true
is_finite _ = false

-- `a < b` and `a <= b`: false where either is NaN.
abbrev pub lt : F32 → F32 → Bool
lt nan _ = false
lt _ nan = false
lt neg_inf neg_inf = false
lt neg_inf _ = true
lt _ neg_inf = false
lt pos_inf _ = false
lt _ pos_inf = true
lt (fin a) (fin b) = ltb_ℤ a b

abbrev pub le : F32 → F32 → Bool
le nan _ = false
le _ nan = false
le neg_inf _ = true
le _ neg_inf = false
le _ pos_inf = true
le pos_inf _ = false
le (fin a) (fin b) = leb_ℤ a b

-- `f32::max` and `f32::min` give the other argument where one is NaN.
unfoldable pub max : F32 → F32 → F32
max a b = if is_nan a then b else if lt a b then b else a

unfoldable pub min : F32 → F32 → F32
min a b = if is_nan a then b else if lt b a then b else a

abbrev pub neg : F32 → F32
neg nan = nan
neg pos_inf = neg_inf
neg neg_inf = pos_inf
neg (fin a) = fin (neg_ℤ a)

abbrev pub abs : F32 → F32
abs nan = nan
abs pos_inf = pos_inf
abs neg_inf = pos_inf
abs (fin (pos n)) = fin (pos n)
abs (fin (negsuc n)) = fin (pos (suc n))

unfoldable pub add : F32 → F32 → F32
unfolding quot ◌+ℤ◌
add nan _ = nan
add _ nan = nan
add pos_inf neg_inf = nan
add neg_inf pos_inf = nan
add pos_inf _ = pos_inf
add _ pos_inf = pos_inf
add neg_inf _ = neg_inf
add _ neg_inf = neg_inf
add (fin a) (fin b) = quot (a +ℤ b) 1

unfoldable pub sub : F32 → F32 → F32
unfolding add
sub a b = add a (neg b)

-- An infinity times, or over, a number of the given sign.
inf_times : ℤ → F32
inf_times (pos zero) = nan
inf_times (pos (suc n)) = pos_inf
inf_times (negsuc n) = neg_inf

unfoldable pub mul : F32 → F32 → F32
unfolding quot ◌*ℤ◌ inf_times
mul nan _ = nan
mul _ nan = nan
mul pos_inf (fin b) = inf_times b
mul (fin a) pos_inf = inf_times a
mul neg_inf (fin b) = neg (inf_times b)
mul (fin a) neg_inf = neg (inf_times a)
mul pos_inf pos_inf = pos_inf
mul neg_inf neg_inf = pos_inf
mul pos_inf neg_inf = neg_inf
mul neg_inf pos_inf = neg_inf
mul (fin a) (fin b) = quot (a *ℤ b) one

-- A zero divisor is read as the positive zero.
div_fin : ℤ → ℤ → F32
div_fin a (pos zero) = inf_times a
div_fin a (pos (suc n)) = quot (a *ℤ pos one) (suc n)
div_fin a (negsuc n) = quot (neg_ℤ a *ℤ pos one) (suc n)

unfoldable pub div : F32 → F32 → F32
unfolding quot ◌*ℤ◌ inf_times div_fin
div nan _ = nan
div _ nan = nan
div (fin a) (fin b) = div_fin a b
div (fin a) _ = fin (pos 0)
div pos_inf (fin (negsuc n)) = neg_inf
div pos_inf (fin b) = pos_inf
div neg_inf (fin (negsuc n)) = pos_inf
div neg_inf (fin b) = neg_inf
div _ _ = nan

-- `n as f32` of an unsigned integer, and a decimal literal `n / d`.
unfoldable pub of_ℕ : ℕ → F32
unfolding quot
of_ℕ n = quot (pos (n * one)) 1

unfoldable pub ratio : ℕ → ℕ → F32
unfolding quot
ratio n d = quot (pos (n * one)) d

-- `f32::round`: to the nearest whole number, and away from zero at a half.
unfoldable pub round : F32 → F32
round nan = nan
round pos_inf = pos_inf
round neg_inf = neg_inf
round (fin (pos n)) = fin (pos ((2 * n + one) / (2 * one) * one))
round (fin (negsuc n)) = fin (neg_ℕ ((2 * suc n + one) / (2 * one) * one))

abbrev pub u32_max : ℕ
u32_max = 4294967295

-- `x as u32`: towards zero, saturating, with NaN taken to 0.
unfoldable pub as_u32 : F32 → ℕ
as_u32 nan = 0
as_u32 neg_inf = 0
as_u32 pos_inf = u32_max
as_u32 (fin (negsuc n)) = 0
as_u32 (fin (pos n)) = if ltb (n / one) u32_max then n / one else u32_max
