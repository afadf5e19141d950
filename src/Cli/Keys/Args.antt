-- ===== src/Cli/Keys/Args.antt =====
-- The arguments of `fand keys`, src/cli/keys.rs.
pub mod Laws
use fand.Prelude.{
  ℕ, Bool, true, false, not, ◌==◌, List, [], ◌∷◌, ◌⊎◌, inl, inr, length, if◌then◌else◌,
}
use fand.Prelude.Text.{Text, codes, same_text}

pub data Mode : Type 0 where
  default debug_open json all_fan_keys : Mode
  read : (fourcc : Text) → Mode
  debug_write : (fourcc value : Text) → Mode

-- The texts of the errors.
pub data ArgError : Type 0 where
  exclusive : (flag : Text) → ArgError
  read_requires_fourcc write_requires_fourcc write_requires_value : ArgError
  read_length write_length : ℕ → ArgError
  unknown_flag : Text → ArgError

-- The arguments that a flag still waits for.
pub data Pending : Type 0 where
  nothing read_fourcc write_fourcc : Pending
  write_value : (fourcc : Text) → Pending

abbrev pub is_default : Mode → Bool
is_default default = true
is_default mode = false

-- What an argument makes of the mode.
unfoldable pub flag : Mode → Text → ArgError ⊎ (Mode × Pending)
flag mode a =
    if same_text a (codes "--all")
    then if is_default mode then inr (all_fan_keys, nothing) else inl (exclusive a)
    else if same_text a (codes "--read")
    then if is_default mode then inr (mode, read_fourcc) else inl (exclusive a)
    else if same_text a (codes "--write")
    then if is_default mode then inr (mode, write_fourcc) else inl (exclusive a)
    else if same_text a (codes "--debug-open")
    then if is_default mode then inr (debug_open, nothing) else inl (exclusive a)
    else if same_text a (codes "--json")
    then if is_default mode then inr (json, nothing) else inl (exclusive a)
    else inl (unknown_flag a)

unfoldable pub argument : Mode → Pending → Text → ArgError ⊎ (Mode × Pending)
unfolding flag
argument mode nothing a = flag mode a
argument mode read_fourcc v =
    if not (length v == 4) then inl (read_length (length v)) else inr (read v, nothing)
argument mode write_fourcc v =
    if not (length v == 4) then inl (write_length (length v)) else inr (mode, write_value v)
argument mode (write_value fourcc) v = inr (debug_write fourcc v, nothing)

-- At the end of the arguments.
unfoldable pub complete : Mode → Pending → ArgError ⊎ Mode
complete mode nothing = inr mode
complete mode read_fourcc = inl read_requires_fourcc
complete mode write_fourcc = inl write_requires_fourcc
complete mode (write_value fourcc) = inl write_requires_value

unfoldable pub read_args : ArgError ⊎ (Mode × Pending) → List Text → ArgError ⊎ Mode
unfolding argument complete
read_args (inl e) args = inl e
read_args (inr (mode, pending)) [] = complete mode pending
read_args (inr (mode, pending)) (a ∷ args) = read_args (argument mode pending a) args

unfoldable pub parse_args : List Text → ArgError ⊎ Mode
unfolding read_args
parse_args args = read_args (inr (default, nothing)) args
