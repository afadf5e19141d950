-- ===== src/Cli/Keys.antt =====
-- src/cli/keys.rs: `fand keys`, its arguments and its modes on a connection. What is printed is left
-- out, but for what a key that is read is shown as. The result of `SmcConnection::open` is an
-- argument.
pub mod Args
pub mod Payload
pub mod Laws
mod Tests
use fand.Prelude.{
  ℕ, zero, suc, ◌+◌, ◌*◌, get_or, ◌/◌, ◌%◌, min, not, ◌&&◌, ◌||◌, ◌==◌, leb, Bool, Option, none,
  some, List, [], ◌∷◌, ◌⊎◌, inl, inr, length, take, map, if◌then◌else◌,
}
use fand.Prelude.Text.{Text, codes, same_text}
use fand.F32.{F32}
use fand.Smc.Error.{SmcError, open_failed}
use fand.Smc.Value.{from_be_bytes, from_le_bytes, f32_from_bits}
use fand.Smc.Value.Float.{to_be_bytes}
use fand.Smc.Action.{Action, ◌>>=◌, ◌>>◌, ok, on_error, ignore}
use fand.Smc.Ffi.{Device, SmcConnection, close}
use fand.Smc.Ffi.Read.{
  KeyInfo, read_key_info, read_key, read_u8, read_u32, read_f32, read_key_at_index,
}
use fand.Smc.Ffi.Write.{probe_write_ftst_zero, write_raw_for_research}
use fand.Smc.Enumerate.{read_key_count, enumerate_fans}
use fand.Cli.Keys.Args.{
  Mode, default, debug_open, json, all_fan_keys, read, debug_write, ArgError, parse_args,
}
use fand.Cli.Keys.Payload.{payload_of}

-- The visible ASCII bytes, which a space is not.
unfoldable pub is_ascii_graphic : ℕ → Bool
is_ascii_graphic b = leb 33 b && leb b 126

unfoldable pub fourcc_to_string : ℕ → Text
unfolding is_ascii_graphic to_be_bytes
fourcc_to_string fourcc = map (λ b. if is_ascii_graphic b then b else b'?') (to_be_bytes fourcc)

-- The numbers that the bytes of a key without a type of its own are also shown as: two bytes as a
-- number in both orders, and four bytes as a number in both orders and as a float.
pub data Decoding : Type 0 where
  undecoded : Decoding
  u16 : (be le : ℕ) → Decoding
  u32 : (be le : ℕ) (fle : F32) → Decoding

unfoldable pub decoding_of : List ℕ → ℕ → Decoding
unfolding from_be_bytes from_le_bytes f32_from_bits
decoding_of bytes valid_len =
    if valid_len == 2
    then u16 (get_or bytes 0 0 * 256 + get_or bytes 1 0) (get_or bytes 1 0 * 256 + get_or bytes 0 0)
    else if valid_len == 4
    then u32 (from_be_bytes bytes) (from_le_bytes bytes) (f32_from_bits (from_le_bytes bytes))
    else undecoded

-- What the lines of a key that is read say of its value.
pub data Shown : Type 0 where
  ui8 ui32 : ℕ → Shown
  flt : F32 → Shown
  raw : List ℕ → Decoding → Shown
  failed : SmcError → Shown

pub record Listing : Type 0 where
  pub f_count : ℕ
  pub errors : ℕ

-- The exit code where the connection cannot be opened.
unfoldable pub open_code : SmcError → ℕ
open_code (open_failed kr) = 2
open_code e = 1

-- The lines of the default arm.
unfoldable pub shown_raw : KeyInfo → KeyInfo × List ℕ → Shown
unfolding decoding_of
shown_raw info (_, bytes) =
    let valid_len = min info.data_size (length bytes) in
    raw (take valid_len bytes) (decoding_of bytes valid_len)

module _ {D : Type 0} (sys : Device D) where
  unfoldable pub run_default : Action (SmcConnection D) ℕ
  run_default =
      ignore (probe_write_ftst_zero sys)
      >> on_error (enumerate_fans sys) (λ e. ok 1)
          (λ fans. ignore (probe_write_ftst_zero sys) >> ok 0)

  unfoldable pub run_json : Action (SmcConnection D) ℕ
  run_json = on_error (enumerate_fans sys) (λ e. ok 1) (λ fans. ok 0)

  -- The first byte of a key.
  abbrev first_byte : ℕ → ℕ
  first_byte fourcc = (fourcc / 16777216) % 256

  -- The indices from `i` on, with `n` to go. The counters stay far below the width of u32.
  unfoldable pub list_keys : ℕ → ℕ → Listing → Action (SmcConnection D) Listing
  list_keys i zero l = ok l
  list_keys i (suc n) l =
      on_error (read_key_at_index sys i)
        (λ e. list_keys (i + 1) n (record l { errors = l.errors + 1 }))
        (λ fourcc.
          if not (first_byte fourcc == b'F')
          then list_keys (i + 1) n l
          else on_error (read_key_info sys fourcc)
              (λ e. list_keys (i + 1) n (record l { f_count = l.f_count + 1 }))
              (λ info. list_keys (i + 1) n (record l { f_count = l.f_count + 1 })))

  unfoldable pub run_all_fan_keys : Action (SmcConnection D) ℕ
  run_all_fan_keys =
      on_error (read_key_count sys) (λ e. ok 1)
        (λ key_count. list_keys 0 key_count (record { f_count = 0; errors = 0 }) >> ok 0)

  -- One read, shown by what it is.
  unfoldable pub show :
      {A : Type 0} → (A → Shown) → Action (SmcConnection D) A → Action (SmcConnection D) Shown
  show shape m = on_error m (λ e. ok (failed e)) (λ a. ok (shape a))

  -- The match on the name of the type and on the size.
  unfoldable pub show_key : ℕ → KeyInfo → Action (SmcConnection D) Shown
  show_key fourcc info =
      let type_str = fourcc_to_string info.data_type in
      if same_text type_str (codes "ui8 ") && info.data_size == 1
      then show ui8 (read_u8 sys fourcc)
      else if same_text type_str (codes "ui32") && info.data_size == 4
      then show ui32 (read_u32 sys fourcc)
      else if same_text type_str (codes "flt ") && info.data_size == 4
      then show flt (read_f32 sys fourcc)
      else show (shown_raw info) (read_key sys fourcc)

  unfoldable pub run_read_key : ℕ → Action (SmcConnection D) (ℕ × Option Shown)
  run_read_key fourcc =
      on_error (read_key_info sys fourcc) (λ e. ok (1, none))
        (λ info. show_key fourcc info >>= λ shown. ok (0, some shown))

  -- The read-back is only printed.
  unfoldable pub write_payload : ℕ → List ℕ → KeyInfo → Action (SmcConnection D) ℕ
  write_payload fourcc payload info =
      if not (length payload == info.data_size)
      then ok 64
      else on_error (write_raw_for_research sys fourcc payload) (λ e. ok 1)
          (λ u. ignore (read_key sys fourcc) >> ok 0)

  unfoldable pub run_debug_write : ℕ → List ℕ → Action (SmcConnection D) ℕ
  run_debug_write fourcc payload =
      on_error (read_key_info sys fourcc) (λ e. ok 1) (write_payload fourcc payload)

  -- An action never ends in an error here, and its code is the exit code.
  abbrev code_of : SmcError ⊎ ℕ → ℕ
  code_of (inl e) = 1
  code_of (inr code) = code

  -- The exit code, and the connection, which is dropped on every way out.
  unfoldable pub on_open :
      SmcError ⊎ SmcConnection D → Action (SmcConnection D) ℕ → ℕ × Option (SmcConnection D)
  on_open (inl e) m = (open_code e, none)
  on_open (inr c) m = let r = m c in (code_of r.0, some (close sys r.1))

  unfoldable pub run_debug_open : SmcError ⊎ SmcConnection D → ℕ × Option (SmcConnection D)
  run_debug_open (inr c) = (0, some (close sys c))
  run_debug_open (inl (open_failed kr)) = (1, none)
  run_debug_open (inl e) = (2, none)

  -- The payload is parsed before the connection is opened.
  unfoldable pub with_payload :
      SmcError ⊎ SmcConnection D → ℕ → Option (List ℕ) → ℕ × Option (SmcConnection D)
  with_payload opened fourcc none = (64, none)
  with_payload opened fourcc (some payload) = on_open opened (run_debug_write fourcc payload)

  unfoldable pub run_mode : SmcError ⊎ SmcConnection D → Mode → ℕ × Option (SmcConnection D)
  run_mode opened default = on_open opened run_default
  run_mode opened debug_open = run_debug_open opened
  run_mode opened json = on_open opened run_json
  run_mode opened all_fan_keys = on_open opened run_all_fan_keys
  run_mode opened (read fourcc_str) =
      if not (length fourcc_str == 4)
      then (64, none)
      else on_open opened (run_read_key (from_be_bytes fourcc_str) >>= λ r. ok r.0)
  run_mode opened (debug_write fourcc_str value_str) =
      if not (length fourcc_str == 4)
      then (64, none)
      else with_payload opened (from_be_bytes fourcc_str) (payload_of value_str)

  unfoldable pub parsed :
      SmcError ⊎ SmcConnection D → ArgError ⊎ Mode → ℕ × Option (SmcConnection D)
  parsed opened (inl e) = (64, none)
  parsed opened (inr mode) = run_mode opened mode

  unfoldable pub execute : SmcError ⊎ SmcConnection D → List Text → ℕ × Option (SmcConnection D)
  execute opened args = parsed opened (parse_args args)
