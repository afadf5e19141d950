-- ===== src/Smc/Error/Code.antt =====
-- src/smc/ffi.rs: the stable codes of the errors.
use fand.Prelude.{ℕ, ◌≡◌, ◌∙◌, sym, ap, refl, ◌+◌, List, [], ◌∷◌, if◌then◌else◌}
use fand.Prelude.Text.{Text, codes, same_text}
use fand.Smc.Error.{
  SmcError, service_not_found, open_failed, open_timeout, call_failed, smc_result, key_not_found,
  type_mismatch, data_size_clamped, invalid_float, empty_response, already_closed, busy, timeout,
  attribute_denied, write_denied, size_mismatch, endianness_unplausible, unlock_mismatch,
  unlock_rejected, write_refused, write_readback_mismatch, watchdog_fired, conflict_detected,
  edr_denied, tcc_denied, lockdown_mode_suspected,
}

unfoldable pub error_code : SmcError → Text
error_code service_not_found = codes "SERVICE_NOT_FOUND"
error_code (open_failed _) = codes "OPEN_FAILED"
error_code open_timeout = codes "OPEN_TIMEOUT"
error_code (call_failed _ _ _) = codes "CALL_FAILED"
error_code (smc_result _ _) = codes "SMC_RESULT"
error_code (key_not_found _) = codes "KEY_NOT_FOUND"
error_code (type_mismatch _ _ _) = codes "TYPE_MISMATCH"
error_code (data_size_clamped _ _) = codes "DATA_SIZE_CLAMPED"
error_code (invalid_float _) = codes "INVALID_FLOAT"
error_code (empty_response _) = codes "EMPTY_RESPONSE"
error_code already_closed = codes "ALREADY_CLOSED"
error_code (busy _) = codes "BUSY"
error_code (timeout _) = codes "TIMEOUT"
error_code (attribute_denied _) = codes "ATTRIBUTE_DENIED"
error_code (write_denied _) = codes "WRITE_DENIED"
error_code (size_mismatch _ _ _) = codes "SIZE_MISMATCH"
error_code (endianness_unplausible _ _) = codes "ENDIANNESS_UNPLAUSIBLE"
error_code (unlock_mismatch _ _ _ _) = codes "UNLOCK_MISMATCH"
error_code (unlock_rejected _ _) = codes "UNLOCK_REJECTED"
error_code (write_refused _ _ _ _ _) = codes "WRITE_REFUSED"
error_code (write_readback_mismatch _ _ _ _ _ _ _ _) = codes "WRITE_READBACK_MISMATCH"
error_code (watchdog_fired _ _) = codes "WATCHDOG_FIRED"
error_code (conflict_detected _ _) = codes "CONFLICT_DETECTED"
error_code (edr_denied _) = codes "EDR_DENIED"
error_code tcc_denied = codes "TCC_DENIED"
error_code lockdown_mode_suspected = codes "LOCKDOWN_MODE_SUSPECTED"

-- The constructors, numbered.
unfoldable pub variant : SmcError → ℕ
variant service_not_found = 0
variant (open_failed _) = 1
variant open_timeout = 2
variant (call_failed _ _ _) = 3
variant (smc_result _ _) = 4
variant (key_not_found _) = 5
variant (type_mismatch _ _ _) = 6
variant (data_size_clamped _ _) = 7
variant (invalid_float _) = 8
variant (empty_response _) = 9
variant already_closed = 10
variant (busy _) = 11
variant (timeout _) = 12
variant (attribute_denied _) = 13
variant (write_denied _) = 14
variant (size_mismatch _ _ _) = 15
variant (endianness_unplausible _ _) = 16
variant (unlock_mismatch _ _ _ _) = 17
variant (unlock_rejected _ _) = 18
variant (write_refused _ _ _ _ _) = 19
variant (write_readback_mismatch _ _ _ _ _ _ _ _) = 20
variant (watchdog_fired _ _) = 21
variant (conflict_detected _ _) = 22
variant (edr_denied _) = 23
variant tcc_denied = 24
variant lockdown_mode_suspected = 25

abbrev all_codes : List Text
all_codes =
    codes "SERVICE_NOT_FOUND"
    ∷ codes "OPEN_FAILED"
    ∷ codes "OPEN_TIMEOUT"
    ∷ codes "CALL_FAILED"
    ∷ codes "SMC_RESULT"
    ∷ codes "KEY_NOT_FOUND"
    ∷ codes "TYPE_MISMATCH"
    ∷ codes "DATA_SIZE_CLAMPED"
    ∷ codes "INVALID_FLOAT"
    ∷ codes "EMPTY_RESPONSE"
    ∷ codes "ALREADY_CLOSED"
    ∷ codes "BUSY"
    ∷ codes "TIMEOUT"
    ∷ codes "ATTRIBUTE_DENIED"
    ∷ codes "WRITE_DENIED"
    ∷ codes "SIZE_MISMATCH"
    ∷ codes "ENDIANNESS_UNPLAUSIBLE"
    ∷ codes "UNLOCK_MISMATCH"
    ∷ codes "UNLOCK_REJECTED"
    ∷ codes "WRITE_REFUSED"
    ∷ codes "WRITE_READBACK_MISMATCH"
    ∷ codes "WATCHDOG_FIRED"
    ∷ codes "CONFLICT_DETECTED"
    ∷ codes "EDR_DENIED"
    ∷ codes "TCC_DENIED"
    ∷ codes "LOCKDOWN_MODE_SUSPECTED"
    ∷ []

-- The place of a code in a list.
unfoldable place : List Text → Text → ℕ
place [] code = 0
place (c ∷ rest) code = let later = place rest code in if same_text c code then 0 else 1 + later

place-error_code : (e : SmcError) → place all_codes (error_code e) ≡ variant e
unfolding place error_code variant same_text
place-error_code service_not_found = refl
place-error_code (open_failed _) = refl
place-error_code open_timeout = refl
place-error_code (call_failed _ _ _) = refl
place-error_code (smc_result _ _) = refl
place-error_code (key_not_found _) = refl
place-error_code (type_mismatch _ _ _) = refl
place-error_code (data_size_clamped _ _) = refl
place-error_code (invalid_float _) = refl
place-error_code (empty_response _) = refl
place-error_code already_closed = refl
place-error_code (busy _) = refl
place-error_code (timeout _) = refl
place-error_code (attribute_denied _) = refl
place-error_code (write_denied _) = refl
place-error_code (size_mismatch _ _ _) = refl
place-error_code (endianness_unplausible _ _) = refl
place-error_code (unlock_mismatch _ _ _ _) = refl
place-error_code (unlock_rejected _ _) = refl
place-error_code (write_refused _ _ _ _ _) = refl
place-error_code (write_readback_mismatch _ _ _ _ _ _ _ _) = refl
place-error_code (watchdog_fired _ _) = refl
place-error_code (conflict_detected _ _) = refl
place-error_code (edr_denied _) = refl
place-error_code tcc_denied = refl
place-error_code lockdown_mode_suspected = refl

-- Two errors with the same code are of the same constructor.
pub error_code_injective : (e f : SmcError) → error_code e ≡ error_code f → variant e ≡ variant f
error_code_injective e f h =
    sym (place-error_code e) ∙ (ap (place all_codes) h ∙ place-error_code f)
