-- ===== src/Smc/Session/Writes.antt =====
-- What a verified write of a session keeps of its connection.
use fand.Prelude.{ℕ, ◌≤◌, ◌≡◌, [], ◌∷◌, arith}
use fand.Prelude.Text.{Text}
use fand.Smc.Keys.{WritableKey, fan_mode, fan_target, ftst, fourcc}
use fand.Smc.RoundTrip.Record.{RoundTripRecord}
use fand.Smc.Action.{Action}
use fand.Smc.Action.Invariant.{
  Keeps, ok_keeps, fail_keeps, if_keeps, modify_keeps, on_error_keeps, bind_keeps, then_keeps,
}
use fand.Smc.Ffi.{SmcParamStruct, Device, SmcConnection}
use fand.Smc.Ffi.Read.{KeyInfo}
use fand.Smc.Ffi.Write.{smc_cmd_write_key, writing}
use fand.Smc.Ffi.Verified
use fand.Smc.Ffi.Verified.{
  Writer, on_connection, compare_u8, read_back, write_u8_at, write_u8_verified,
}
use fand.Smc.Ffi.Invariant.{IsKept, read_u8_keeps, write_u8_keeps}
use fand.Smc.Session.{WriteSession, on_conn, on_writer}

-- The writes of a session: `auto` and `forced minimum` to a mode, and off and on to `Ftst`.
abbrev pub IsSafe : WritableKey → ℕ → Type 0
IsSafe (fan_mode i) value = value ≤ 1
IsSafe (fan_target i) value = ⊥
IsSafe ftst value = value ≤ 1

-- Those that take a fan over: `forced minimum` and on.
abbrev pub IsForcing : WritableKey → ℕ → Type 0
IsForcing (fan_mode i) value = value ≡ 1
IsForcing (fan_target i) value = ⊥
IsForcing ftst value = value ≡ 1

pub IsForcing-IsSafe : (key : WritableKey) (value : ℕ) → IsForcing key value → IsSafe key value
IsForcing-IsSafe (fan_mode i) value h = omega (arith, h)
IsForcing-IsSafe (fan_target i) value h = h
IsForcing-IsSafe ftst value h = omega (arith, h)

-- What holds of every safe write holds of those.
pub forcing :
    (Allowed : SmcParamStruct → Type 0)
    → ((key : WritableKey) (value : ℕ) (ki : KeyInfo)
        → IsSafe key value
        → Allowed (record (writing (fourcc key) ki (value ∷ [])) { data8 = smc_cmd_write_key }))
    → (key : WritableKey) (value : ℕ) (ki : KeyInfo) → IsForcing key value
    → Allowed (record (writing (fourcc key) ki (value ∷ [])) { data8 = smc_cmd_write_key })
forcing Allowed safe key value ki h = safe key value ki (IsForcing-IsSafe key value h)

-- A predicate of the connection, of a session and of a connection with its ring.
unfoldable pub OfConn : {D : Type 0} → (SmcConnection D → Type 0) → WriteSession D → Type 0
OfConn P s = P s.conn

unfoldable pub OfWriter : {D : Type 0} → (SmcConnection D → Type 0) → Writer D → Type 0
OfWriter P w = P w.0

module _ {D : Type 0} {P : SmcConnection D → Type 0} where
  pub on_conn_keeps :
      {A : Type 0} {m : Action (SmcConnection D) A} → Keeps P m → Keeps (OfConn P) (on_conn m)
  unfolding on_conn OfConn
  on_conn_keeps f = record { kept = λ s p. f.kept s.conn p }

  pub on_connection_keeps :
      {A : Type 0} {m : Action (SmcConnection D) A}
      → Keeps P m
      → Keeps (OfWriter P) (on_connection m)
  unfolding on_connection OfWriter
  on_connection_keeps f = record { kept = λ w p. f.kept w.0 p }

module _ {D : Type 0} (P : SmcConnection D → Type 0) where
  pub on_writer_keeps :
      {A : Type 0} {m : Action (Writer D) A} → Keeps (OfWriter P) m → Keeps (OfConn P) (on_writer m)
  unfolding on_writer OfConn OfWriter
  on_writer_keeps f = record { kept = λ s p. f.kept (s.conn, s.round_trips) p }

  verified_record_keeps : (trip : RoundTripRecord) → Keeps (OfWriter P) (Verified.record_trip trip)
  unfolding Verified.record_trip OfWriter
  verified_record_keeps trip = modify_keeps _ (λ w p. p)

module _ {D : Type 0} {sys : Device D} {Allowed : SmcParamStruct → Type 0}
    {P : SmcConnection D → Type 0} (k : IsKept sys Allowed P) {Ok : WritableKey → ℕ → Type 0}
    (safe : (key : WritableKey) (value : ℕ) (ki : KeyInfo)
      → Ok key value
      → Allowed (record (writing (fourcc key) ki (value ∷ [])) { data8 = smc_cmd_write_key })) where
  compare_u8_keeps :
      (key value session ts readback : ℕ)
      → Keeps (OfWriter P) (compare_u8 key value session ts readback)
  unfolding compare_u8
  compare_u8_keeps key value session ts readback =
      if_keeps _ (then_keeps (verified_record_keeps P _) (fail_keeps _))
        (then_keeps (verified_record_keeps P _) (ok_keeps _))

  read_back_keeps :
      (key : WritableKey) (value session ts : ℕ)
      → Keeps (OfWriter P) (read_back sys key value session ts)
  unfolding read_back
  read_back_keeps key value session ts =
      on_error_keeps (on_connection_keeps (read_u8_keeps k (fourcc key)))
        (λ e. then_keeps (verified_record_keeps P _) (fail_keeps _))
        (compare_u8_keeps (fourcc key) value session ts)

  write_u8_at_keeps :
      (key : WritableKey) (value : ℕ) (context : Text) (session ts : ℕ)
      → Ok key value
      → Keeps (OfWriter P) (write_u8_at sys key value context session ts)
  unfolding write_u8_at
  write_u8_at_keeps key value context session ts h =
      on_error_keeps (on_connection_keeps (write_u8_keeps k key value (λ ki. safe key value ki h)))
        (λ e. then_keeps (verified_record_keeps P _) (fail_keeps _))
        (λ _. read_back_keeps key value session ts)

  pub write_u8_verified_keeps :
      (key : WritableKey) (value : ℕ) (context : Text) (session : ℕ)
      → Ok key value
      → Keeps (OfWriter P) (write_u8_verified sys key value context session)
  unfolding write_u8_verified
  write_u8_verified_keeps key value context session h =
      bind_keeps (on_connection_keeps k.clock)
        (λ ts. write_u8_at_keeps key value context session ts h)
