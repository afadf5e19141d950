-- ===== src/F32/Tests.antt =====
-- Values of `f32` arithmetic at concrete inputs.
use fand.Prelude.{◌*◌, ◌^◌, ◌≡◌, refl}
use fand.Prelude.Int.{pos}
use fand.F32
use fand.F32.{F32, fin, one, pos_inf, nan}

-- 0.1 is 0x3DCCCCCD, a significand of 13421773 at exponent -27.
ratio_tenth : F32.ratio 1 10 ≡ fin (pos (13421773 * 2 ^ 122))
unfolding F32.ratio
ratio_tenth = refl

-- 2^24 + 1 is a tie and goes to the even neighbour; 2^24 + 3 goes up.
of_ℕ_ties : F32.of_ℕ 16777217 ≡ F32.of_ℕ 16777216
unfolding F32.of_ℕ
of_ℕ_ties = refl

of_ℕ_up : F32.of_ℕ 16777219 ≡ fin (pos (16777220 * one))
unfolding F32.of_ℕ
of_ℕ_up = refl

add_overflows : F32.add (F32.of_ℕ (2 ^ 127)) (F32.of_ℕ (2 ^ 127)) ≡ pos_inf
unfolding F32.of_ℕ F32.add
add_overflows = refl

third : F32.as_u32 (F32.round (F32.mul (F32.div (F32.of_ℕ 1) (F32.of_ℕ 3)) (F32.of_ℕ 10))) ≡ 3
unfolding F32.of_ℕ F32.div F32.mul F32.round F32.as_u32
third = refl
