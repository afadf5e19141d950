-- ===== src/Correlation.antt =====
-- src/correlation.rs: the identifier of a session, from the clock and from ten random bytes. Both
-- are arguments; u64 wraps at 2 ^ 64.
pub mod Laws
mod Tests
use fand.Prelude.{
  ℕ, zero, suc, ◌+◌, ◌*◌, ◌-◌, ◌/◌, ◌%◌, ◌^◌, ◌&&◌, leb, ltb, Bool, List, [], ◌∷◌, ◌++◌, length,
  get_or, if◌then◌else◌,
}
use fand.Prelude.Text.{Text, codes}

abbrev pub crockford : List ℕ
crockford = codes "0123456789ABCDEFGHJKMNPQRSTVWXYZ"

-- `CROCKFORD[i]`, whose index is below 32.
unfoldable pub symbol : ℕ → ℕ
symbol i = get_or crockford i 0

-- The symbols of the time from the last one on, in front of those that are there.
unfoldable pub time_symbols : ℕ → ℕ → List ℕ → List ℕ
time_symbols zero time out = out
time_symbols (suc n) time out = time_symbols n (time / 32) (symbol (time % 32) ∷ out)

-- `out` holds the symbols that are there, and `out_i` is their number.
pub record Packing : Type 0 where
  pub bit_buf : ℕ
  pub bits_in : ℕ
  pub out : List ℕ

-- One turn of the inner loop.
unfoldable pub take_group : Packing → Packing
take_group p =
    let bits_in = p.bits_in - 5 in
    let group = (p.bit_buf / 2 ^ bits_in) % 32 in
    record p { bits_in = bits_in; out = p.out ++ (symbol group ∷ []) }

-- The inner loop: each turn takes five of the bits, so their number is fuel enough.
unfoldable pub take_groups : ℕ → Packing → Packing
take_groups zero p = p
take_groups (suc n) p =
    let rest = take_groups n (take_group p) in
    if leb 5 p.bits_in && ltb (length p.out) 26 then rest else p

unfoldable pub push_byte : ℕ → Packing → Packing
unfolding take_groups
push_byte byte p =
    let bits_in = p.bits_in + 8 in
    take_groups bits_in
      (record p { bit_buf = (p.bit_buf * 256) % 2 ^ 64 + byte; bits_in = bits_in })

unfoldable pub push_bytes : List ℕ → Packing → Packing
push_bytes [] p = p
push_bytes (byte ∷ bytes) p = push_bytes bytes (push_byte byte p)

-- The bits that are left, with `n` symbols to go.
unfoldable pub flush : ℕ → Packing → List ℕ
flush zero p = p.out
flush (suc n) p =
    let group = (p.bit_buf * 2 ^ (5 - p.bits_in)) % 32 in
    flush n (record p { bits_in = 0; out = p.out ++ (symbol group ∷ []) })

-- `SessionId::new` at a number of milliseconds, with what `getentropy` gives.
unfoldable pub new : ℕ → List ℕ → Text
unfolding push_bytes flush time_symbols
new ms entropy =
    let out = time_symbols 10 ms [] in
    let packed = push_bytes entropy (record { bit_buf = 0; bits_in = 0; out = out }) in
    flush (26 - length packed.out) packed
