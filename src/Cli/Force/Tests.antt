-- ===== src/Cli/Force/Tests.antt =====
-- `fand force-rpm 4000` on the concrete machine, and what is sent for it.
use fand.Prelude.{◌*◌, ◌≡◌, inr, arith, true}
use fand.Prelude.Int.{pos}
use fand.F32.{F32, fin, one, of_ℕ, lt}
use fand.Smc.Value.{decode_flt}
use fand.Cli.Research.{payload}
use fand.Cli.Research.Laws.{decode_flt-payload}

decode_flt-payload_example :
    (w : F32) × (decode_flt (payload (fin (pos (4000 * one)))) 4 ≡ inr w) × (lt w (of_ℕ 1) ≡ true)
decode_flt-payload_example = decode_flt-payload 4000 (omega arith)
