-- ===== src/Smc/Ffi/Verified/Laws.antt =====
-- What a write that is read back promises: the value on success, and one record either way.
use fand.Prelude.{
  ℕ, ◌≡◌, ◌≢◌, ◌↔◌, refl, ap, ap₂, sym, ◌∙◌, ◌==◌, [], ◌∷◌, ◌⊎◌, inl, inr, Bool-cases, arith,
}
use fand.Prelude.Text.{Text}
use fand.Smc.Error.{SmcError}
use fand.Smc.Keys.{WritableKey, fourcc}
use fand.Smc.RoundTrip.{RoundTripRing, push}
use fand.Smc.RoundTrip.Record
use fand.Smc.RoundTrip.Record.{
  RoundTripRecord, RoundTripOutcome, write_failed, readback_failed, mismatch, new_match,
}
use fand.Smc.Action.{continue, ◌>>=◌, ◌>>◌, ok, fail, modify}
use fand.Smc.Action.Cases.{on_error_cases}
use fand.Smc.Ffi.{Device, wall_clock_ns}
use fand.Smc.Ffi.Read.{read_u8}
use fand.Smc.Ffi.Write.{write_u8}
use fand.Smc.Ffi.Verified.{
  Writer, refused, on_connection, record_trip, compare_u8, read_back, write_u8_at,
  write_u8_verified,
}

-- The ring has one record more, of a write of `value` to `key`, which is a match just if the write
-- ended well.
abbrev pub Recorded :
    {D : Type 0} → RoundTripRing ℕ → ℕ → ℕ → (SmcError ⊎ Unit {0}) × Writer D → Type 0
Recorded ring key value r =
    (trip : RoundTripRecord) × (r.1.1 ≡ push ring trip)
    × (trip.fourcc ≡ key)
    × (trip.written_bytes ≡ value ∷ 0 ∷ 0 ∷ 0 ∷ [])
    × ((r.0 ≡ inr tt) ↔ (trip.outcome ≡ Record.match))

module _ {D : Type 0} (sys : Device D) where
  compare_u8-Recorded :
      (key value session ts readback : ℕ) (w : Writer D)
      → Recorded w.1 key value (compare_u8 key value session ts readback w)
  unfolding compare_u8 record_trip ◌>>◌ ◌>>=◌ continue modify fail ok Record.new Record.new_match
  compare_u8-Recorded key value session ts readback w = elim (Bool-cases (readback == value)) [
    | inl e ↦
        rw e
          (new_match ts key (value ∷ []) (readback ∷ []), refl, refl, refl, (λ h. refl, λ h. refl))
    | inr e ↦ rw e (
      Record.new ts key (value ∷ []) (readback ∷ []) mismatch,
      refl,
      refl,
      refl,
      (λ h. cc, λ h. cc),
    )
  ]

  failed_Recorded :
      (key value ts : ℕ) (outcome : RoundTripOutcome) (e : SmcError) (w : Writer D)
      → outcome ≢ Record.match
      → Recorded w.1 key value
          ((record_trip (Record.new ts key (value ∷ []) [] outcome) >> fail e) w)
  unfolding record_trip ◌>>◌ ◌>>=◌ continue modify fail Record.new
  failed_Recorded key value ts outcome e w wrong = (
    Record.new ts key (value ∷ []) [] outcome,
    refl,
    refl,
    refl,
    (λ h. cc, λ h. absurd (wrong h)),
  )

  read_back-Recorded :
      (key : WritableKey) (value session ts : ℕ) (w : Writer D)
      → Recorded w.1 (fourcc key) value (read_back sys key value session ts w)
  unfolding read_back record_trip ◌>>◌ ◌>>=◌ continue modify fail on_connection
  read_back-Recorded key value session ts w =
      elim (on_error_cases {B = Unit {0}} (on_connection (read_u8 sys (fourcc key)))
        (λ e. record_trip (Record.new ts (fourcc key) (value ∷ []) [] readback_failed) >> fail e)
        (compare_u8 (fourcc key) value session ts) w) [
          | inl (e, failed, whole) ↦ rw whole (
              failed_Recorded (fourcc key) value ts readback_failed e
                (on_connection (read_u8 sys (fourcc key)) w).1 (λ h. cc))
          | inr (readback, read, whole) ↦ rw whole (
              compare_u8-Recorded (fourcc key) value session ts readback
                (on_connection (read_u8 sys (fourcc key)) w).1)
        ]

  write_u8_at-Recorded :
      (key : WritableKey) (value : ℕ) (context : Text) (session ts : ℕ) (w : Writer D)
      → Recorded w.1 (fourcc key) value (write_u8_at sys key value context session ts w)
  unfolding write_u8_at on_connection
  write_u8_at-Recorded key value context session ts w =
      elim (on_error_cases {B = Unit {0}} (on_connection (write_u8 sys key value))
        (λ e.
          record_trip (Record.new ts (fourcc key) (value ∷ []) [] write_failed)
          >> fail (refused (fourcc key) context session ts e))
        (λ _. read_back sys key value session ts) w) [
          | inl (e, failed, whole) ↦ rw whole (
              failed_Recorded (fourcc key) value ts write_failed
                (refused (fourcc key) context session ts e)
                (on_connection (write_u8 sys key value) w).1 (λ h. cc))
          | inr (done, written, whole) ↦
              rw whole (
                read_back-Recorded key value session ts
                  (on_connection (write_u8 sys key value) w).1)
        ]

  -- A verified write of a byte puts one record in the ring, however it ends: of the key, with the
  -- byte among the bytes written, and with the outcome of a match just if the write ended well.
  pub write_u8_verified-Recorded :
      (key : WritableKey) (value : ℕ) (context : Text) (session : ℕ) (w : Writer D)
      → Recorded w.1 (fourcc key) value (write_u8_verified sys key value context session w)
  unfolding write_u8_verified on_connection wall_clock_ns ◌>>=◌ continue
  write_u8_verified-Recorded key value context session w =
      let clock = sys.wall_clock_ns w.0.machine in
      write_u8_at-Recorded key value context session clock.0 (record w.0 { machine = clock.1 }, w.1)

  compare_u8-inr :
      (key value session ts readback : ℕ) (w : Writer D)
      → (compare_u8 key value session ts readback w).0 ≡ inr tt
      → (readback ≡ value)
        × (compare_u8 key value session ts readback w
            ≡ (inr tt, (w.0, push w.1 (new_match ts key (value ∷ []) (value ∷ [])))))
  unfolding compare_u8 record_trip ◌>>◌ ◌>>=◌ continue modify fail ok
  compare_u8-inr key value session ts readback w h = ground arith

  read_back-inr :
      (key : WritableKey) (value session ts : ℕ) (w : Writer D)
      → (read_back sys key value session ts w).0 ≡ inr tt
      → read_u8 sys (fourcc key) w.0 ≡ (inr value, (read_back sys key value session ts w).1.0)
  unfolding read_back on_connection record_trip ◌>>◌ ◌>>=◌ continue modify fail
  read_back-inr key value session ts w h =
      elim (on_error_cases {B = Unit {0}} (on_connection (read_u8 sys (fourcc key)))
        (λ e. record_trip (Record.new ts (fourcc key) (value ∷ []) [] readback_failed) >> fail e)
        (compare_u8 (fourcc key) value session ts) w) [
          | inl (e, failed, whole) ↦ cc
          | inr (readback, read, whole) ↦
              let after = (on_connection (read_u8 sys (fourcc key)) w).1 in
              let (same, kept) =
                compare_u8-inr (fourcc key) value session ts readback after
                  (sym (ap (λ r. r.0) whole) ∙ h) in
              ap₂ (λ r c. (r, c)) (read ∙ ap inr same) (sym (ap (λ r. r.1.0) (whole ∙ kept)))
        ]

  write_u8_at-inr :
      (key : WritableKey) (value : ℕ) (context : Text) (session ts : ℕ) (w : Writer D)
      → (write_u8_at sys key value context session ts w).0 ≡ inr tt
      → ((write_u8 sys key value w.0).0 ≡ inr tt)
        × (read_u8 sys (fourcc key) (write_u8 sys key value w.0).1
            ≡ (inr value, (write_u8_at sys key value context session ts w).1.0))
  unfolding write_u8_at on_connection record_trip ◌>>◌ ◌>>=◌ continue modify fail
  write_u8_at-inr key value context session ts w h =
      elim (on_error_cases {B = Unit {0}} (on_connection (write_u8 sys key value))
        (λ e.
          record_trip (Record.new ts (fourcc key) (value ∷ []) [] write_failed)
          >> fail (refused (fourcc key) context session ts e))
        (λ _. read_back sys key value session ts) w) [
          | inl (e, failed, whole) ↦ cc
          | inr (done, written, whole) ↦
              let after = (on_connection (write_u8 sys key value) w).1 in
              (
                written,
                read_back-inr key value session ts after (sym (ap (λ r. r.0) whole) ∙ h)
                    ∙ ap (λ (r : (SmcError ⊎ Unit {0}) × Writer D). (inr value, r.1.0)) (sym whole),
              )
        ]

  -- A verified write of a byte that ends well has written, and the byte that it then read from the
  -- key, on the connection as the write left it, is the one that it wrote.
  pub write_u8_verified-inr :
      (key : WritableKey) (value : ℕ) (context : Text) (session : ℕ) (w : Writer D)
      → (write_u8_verified sys key value context session w).0 ≡ inr tt
      → let (written, c) = write_u8 sys key value (wall_clock_ns sys w.0).1 in
        (written ≡ inr tt)
        × (read_u8 sys (fourcc key) c
            ≡ (inr value, (write_u8_verified sys key value context session w).1.0))
  unfolding write_u8_verified on_connection wall_clock_ns ◌>>=◌ continue
  write_u8_verified-inr key value context session w h =
      let clock = sys.wall_clock_ns w.0.machine in
      write_u8_at-inr key value context session clock.0 (record w.0 { machine = clock.1 }, w.1) h
