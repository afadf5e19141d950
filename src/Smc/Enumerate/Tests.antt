-- ===== src/Smc/Enumerate/Tests.antt =====
-- The enumeration of the concrete machine's one fan.
use fand.Prelude.{◌≡◌, refl, some, List, [], ◌∷◌, inr, get_elem?}
use fand.F32
use fand.F32.{F32, of_ℕ}
use fand.F32.Rounding.{nearest, round_from, round_mag}
use fand.Smc.Cache
use fand.Smc.Error.{Fan}
use fand.Smc.Keys.{data_type, fourcc, fan_key_fourcc}
use fand.Smc.Value.{
  decode_flt, decode_ui8, decode_ui32, f32_from_bits, from_le_bytes, from_be_bytes, magnitude,
}
use fand.Smc.Action.{continue, ◌>>=◌, ◌>>◌, ok, fail, ask, modify, fail_if, branch, on_error}
use fand.Smc.Ffi.{call_struct, call_loop, judge}
use fand.Smc.Ffi.Read.{
  is_missing, invalidate, not_found, stored, read_key_info_or, read_key_info, read_sized, read_key,
  as_f32, as_u8, read_f32, read_u8, read_u32, expect_type, decoded, decoded_flt,
}
use fand.Smc.Simulated.{machine, connection_on}
use fand.Smc.Session.{find_fan}
use fand.Smc.Enumerate.{
  read_key_count, optional, read_fan_count, probe_mode_key, probe_uppercase, read_fan, read_fans,
  enumerate_fans,
}
use fand.Smc.Enumerate.Laws.{AreNumbered, enumerate_fans-find_fan}

abbrev found : List Fan
found =
    record {
      index = 0;
      min_rpm = of_ℕ 65;
      max_rpm = of_ℕ 65;
      safe_rpm = some (of_ℕ 65);
      actual_rpm = of_ℕ 65;
      mode_key = 1177578852;
    }
    ∷ []

enumerates : (enumerate_fans machine (connection_on [])).0 ≡ inr found
unfolding enumerate_fans read_key_count optional read_fan_count probe_mode_key probe_uppercase
    read_fan read_fans read_u32 decode_ui32 read_f32 read_key read_sized read_key_info
    read_key_info_or as_f32 expect_type decoded_flt stored is_missing not_found invalidate
    call_struct call_loop judge decode_flt f32_from_bits from_le_bytes magnitude ◌>>=◌ ◌>>◌ continue
    branch on_error ok fail ask modify fail_if Cache.get Cache.put Cache.new Cache.invalidate of_ℕ
    F32.quot round_mag round_from nearest data_type fourcc fan_key_fourcc from_be_bytes read_u8
    as_u8 decoded decode_ui8
enumerates = refl

enumerate_fans-find_fan_example : AreNumbered 0 found × (find_fan 0 found ≡ get_elem? found 0)
enumerate_fans-find_fan_example =
    enumerate_fans-find_fan machine (connection_on []) found 0 enumerates
