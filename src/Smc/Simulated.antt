-- ===== src/Smc/Simulated.antt =====
-- A concrete machine with one fan, and a session on it, for the tests.
use fand.Prelude.{
  ℕ, Bool, true, false, ◌||◌, ◌==◌, none, List, [], ◌∷◌, drop, get_or, refl, if◌then◌else◌, ◌≡◌,
}
use fand.F32.{of_ℕ}
use fand.Control.Clamp.{ClampedRpm}
use fand.Smc.Error.{Fan}
use fand.Smc.Value.{from_be_bytes}
use fand.Smc.Keys.{fan_mode, ftst, fourcc, fan_key_fourcc, type_ui8, type_ui32, type_flt}
use fand.Smc.RoundTrip
use fand.Smc.Cache
use fand.Smc.Ffi.{SmcParamStruct, SmcKeyInfoData, zeroed, Device, SmcConnection}
use fand.Smc.Ffi.Laws.{Trace}
use fand.Smc.Session.{WriteSession}

-- The bytes that were written, the last one first.
abbrev pub Memory : Type 0
Memory = List (ℕ × ℕ)

abbrev pub byte_at : Memory → ℕ → ℕ
byte_at [] key = 0
byte_at ((k, b) ∷ rest) key = if k == key then b else byte_at rest key

abbrev pub mode_0 : ℕ
mode_0 = 1177578852

abbrev pub test_key : ℕ
test_key = 1182036852

-- The mode of fan 0, `Ftst` and the number of fans are bytes, the number of keys is of 32 bits, and
-- all else is a float that reads 65.0.
abbrev pub is_byte : ℕ → Bool
is_byte key = key == mode_0 || (key == test_key || key == 1179546989)

abbrev pub info_of : ℕ → SmcKeyInfoData
info_of key =
    if is_byte key
    then record { data_size = 1; data_type = type_ui8; data_attributes = 0 }
    else if key == 592135513
    then record { data_size = 4; data_type = type_ui32; data_attributes = 0 }
    else record { data_size = 4; data_type = type_flt; data_attributes = 0 }

abbrev pub bytes_of : Memory → ℕ → List ℕ
bytes_of m key =
    if key == 1179546989
    then 1 ∷ drop 1 zeroed.bytes
    else if is_byte key
    then byte_at m key ∷ drop 1 zeroed.bytes
    else if key == 592135513
    then 0 ∷ 0 ∷ 5 ∷ 0 ∷ drop 4 zeroed.bytes
    else 0 ∷ 0 ∷ 130 ∷ 66 ∷ drop 4 zeroed.bytes

abbrev pub answer : SmcParamStruct → Memory → (ℕ × SmcParamStruct) × Memory
answer input m =
    if input.data8 == 9
    then ((0, record zeroed { key_info = info_of input.key }), m)
    else if input.data8 == 5
    then ((0, record zeroed { bytes = bytes_of m input.key }), m)
    else ((0, zeroed), (input.key, get_or input.bytes 0 0) ∷ m)

abbrev pub machine : Device Memory
machine = record {
  call_struct_method = λ conn input m. answer input m;
  service_close = λ conn m. m;
  wall_clock_ns = λ m. (1000, m);
}

abbrev pub connection_on : {D : Type 0} → D → SmcConnection D
connection_on d = record { conn = 7; cache = Cache.new; connection_open = true; machine = d }

abbrev pub fan_0 : Fan
fan_0 = record {
  index = 0;
  min_rpm = of_ℕ 2317;
  max_rpm = of_ℕ 6550;
  safe_rpm = none;
  actual_rpm = of_ℕ 2400;
  mode_key = mode_0;
}

abbrev pub session_on : {D : Type 0} → SmcConnection D → WriteSession D
session_on c = record {
  conn = c;
  fans = 0 ∷ [];
  fan_envelopes = fan_0 ∷ [];
  round_trips = RoundTrip.new 1;
  unlock = none;
  tear_down_once = false;
  signal_thread = true;
  session_id = 1;
}

abbrev pub session : WriteSession Memory
session = session_on (connection_on [])

abbrev pub traced_session : WriteSession (Trace × Memory)
traced_session = session_on (connection_on ([], []))

abbrev pub minimum : ClampedRpm
minimum = record { value = 2317 }

-- "Tp0d"
abbrev pub sensor : ℕ
sensor = 1416638564

codes_of_keys : (fourcc (fan_mode 0) ≡ mode_0) × (fourcc ftst ≡ test_key)
unfolding fourcc fan_key_fourcc from_be_bytes
codes_of_keys = (refl, refl)
