-- ===== src/Smc/Session/Commit.antt =====
-- `commit_set_fan` of src/smc/write_session.rs: the one way in which a fan is taken over.
use fand.Prelude.{ℕ, Bool, ◌==◌, Option, none, some, get_elem?, inl, inr, if◌then◌else◌}
pub mod Laws
use fand.Prelude.Text.{codes}
use fand.F32
use fand.F32.{F32, sub, mul, ratio, le}
use fand.Control.Clamp.{ClampedRpm, as_f32}
use fand.Smc.Error.{Fan, key_not_found, write_refused}
use fand.Smc.Keys.{fan_key_fourcc, fan_mode}
use fand.Smc.Action.{Action, ◌>>=◌, ◌>>◌, ok, fail, ask, ignore}
use fand.Smc.Ffi.{Device}
use fand.Smc.Ffi.Verified.{write_u8_verified}
use fand.Smc.Session.{WriteSession, on_writer, clock, read_actual_rpm, heartbeat}
use fand.Smc.Session.Unlocking.{begin_diagnostic_unlock}

-- Within 5% of the span of the fan's minimum.
unfoldable pub is_minimum_request : Fan → F32 → Bool
is_minimum_request fan target_rpm =
    let min_tolerance = mul (sub fan.max_rpm fan.min_rpm) (ratio 5 100) in
    le (F32.abs (sub target_rpm fan.min_rpm)) min_tolerance

module _ {D : Type 0} (sys : Device D) where
  -- Any other speed is refused, before the mode is written.
  unfoldable pub refuse_target : ℕ → Action (WriteSession D) Unit
  refuse_target fan_index = do
    session ← ask (λ (s : WriteSession D). s.session_id)
    now ← clock sys
    fail (
        write_refused (fan_key_fourcc b'm' b'd' fan_index) 134
          (codes "apple_silicon_m_series_only_supports_min_mode") session now)

  -- F<i>md = 1, read back, then the heartbeat.
  unfoldable pub force_minimum : ℕ → Action (WriteSession D) Unit
  force_minimum fan_index = do
    session ← ask (λ (s : WriteSession D). s.session_id)
    on_writer (write_u8_verified sys (fan_mode fan_index) 1 (codes "fan_mode_force_min") session)
    heartbeat sys

  unfoldable pub commit_request : ℕ → Bool → Action (WriteSession D) Unit
  commit_request fan_index is_minimum =
      if is_minimum then force_minimum fan_index else refuse_target fan_index

  unfoldable pub commit_found : ℕ → F32 → Option Fan → Action (WriteSession D) Unit
  commit_found fan_index target none = fail (key_not_found (fan_key_fourcc b'T' b'g' fan_index))
  commit_found fan_index target (some fan) =
      begin_diagnostic_unlock sys
      >> ignore (read_actual_rpm sys fan_index)
      >> commit_request fan_index (is_minimum_request fan target)

  unfoldable pub commit_set_fan : ℕ → ClampedRpm → Action (WriteSession D) Unit
  commit_set_fan fan_index target =
      ask (λ (s : WriteSession D). get_elem? s.fan_envelopes fan_index)
      >>= commit_found fan_index (as_f32 target)
