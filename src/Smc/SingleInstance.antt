-- ===== src/Smc/SingleInstance.antt =====
-- src/smc/single_instance.rs: the lock of the one instance. The calls of the file system and of the
-- functions on paths are a parameter.
pub mod Pid
pub mod Laws
mod Tests
use fand.Prelude.{
  ℕ, zero, suc, Bool, true, false, not, ◌||◌, ◌==◌, Option, none, some, List, [], ◌∷◌, ◌⊎◌, inl,
  inr, if◌then◌else◌,
}
use fand.Prelude.Text.{Text, codes, same_text}
use fand.Prelude.Int.{ℤ}
use fand.Smc.SingleInstance.Pid.{trim, parse_pid}

-- What an error of the system is told apart by, `ErrorKind` and `raw_os_error`.
pub data IoError : Type 0 where
  permission_denied symlink_loop invalid_input : IoError
  other : ℕ → IoError

pub data FlockError : Type 0 where
  unreliable_filesystem : (type_name : List ℕ) → FlockError
  create_failed canonicalization_failed write_failed : IoError → FlockError
  already_held : (holder_pid : Option ℤ) → FlockError
  symlink_rejected : FlockError

-- `file` is the descriptor of the open file.
pub record FlockGuard : Type 0 where
  pub file : ℕ
  pub canonical_path : Text
  pub holder_pid : ℕ

-- `canonicalize`, the name of the type that `statfs` gives for a path, `open` with its flags,
-- `try_lock`, `set_len(0)`, the write of a number with a newline, `flush`, the close of a file
-- that is dropped, and `read_to_string`, which opens and reads a path on its own.
pub record System (F : Type 0) : Type 0 where
  pub parent : Text → Option Text
  pub file_name : Text → Option Text
  pub join : Text → Text → Text
  pub has_nul : Text → Bool
  pub pid : ℕ
  pub canonicalize : Text → F → (IoError ⊎ Text) × F
  pub statfs : Text → F → Option (List ℕ) × F
  pub open_nofollow : Text → F → (IoError ⊎ ℕ) × F
  pub try_lock : ℕ → F → Bool × F
  pub truncate : ℕ → F → (IoError ⊎ Unit {0}) × F
  pub flush : ℕ → F → (IoError ⊎ Unit {0}) × F
  pub write_pid : ℕ → ℕ → F → (IoError ⊎ Unit {0}) × F
  pub close : ℕ → F → F
  pub read_to_string : Text → F → Option Text × F

abbrev pub flock_unreliable_fs : List Text
flock_unreliable_fs =
    codes "nfs" ∷ codes "smbfs" ∷ codes "msdos" ∷ codes "exfat" ∷ codes "cd9660" ∷ []

unfoldable pub any_same : List Text → Text → Bool
any_same [] name = false
any_same (deny ∷ rest) name = same_text deny name || any_same rest name

-- The bytes before the first zero.
unfoldable pub until_nul : List ℕ → List ℕ
until_nul [] = []
until_nul (b ∷ rest) = let front = until_nul rest in if b == 0 then [] else b ∷ front

module _ {F : Type 0} (sys : System F) where
  abbrev pub Steps : Type 0 → Type 0
  Steps A = F → (FlockError ⊎ A) × F

  unfoldable pub refuse_type : Option (List ℕ) → FlockError ⊎ Unit {0}
  refuse_type none = inr tt
  refuse_type (some f_fstypename) =
      let fstype_bytes = until_nul f_fstypename in
      if any_same flock_unreliable_fs fstype_bytes
      then inl (unreliable_filesystem fstype_bytes)
      else inr tt

  -- As it is on macOS. A path with a NUL in it is let through, and so is a failed `statfs`.
  unfoldable pub check_filesystem : Text → Steps Unit
  check_filesystem path f =
      let r = sys.statfs path f in if sys.has_nul path then (inr tt, f) else (refuse_type r.0, r.1)

  -- `return Err(WriteFailed(e))`, by which the file is dropped, or the rest.
  abbrev pub or_write_failed :
      {A : Type 0} → ℕ → (IoError ⊎ Unit {0}) × F → Steps A → (FlockError ⊎ A) × F
  or_write_failed fd (inl e, f) rest = (inl (write_failed e), sys.close fd f)
  or_write_failed fd (inr u, f) rest = rest f

  -- Step 6, and the guard.
  unfoldable pub stamp : Text → ℕ → Steps FlockGuard
  stamp canonical_path fd f = or_write_failed fd (sys.truncate fd f) (λ f1.
      or_write_failed fd (sys.write_pid fd sys.pid f1) (λ f2.
        or_write_failed fd (sys.flush fd f2) (λ f3.
          (inr (record { file = fd; canonical_path = canonical_path; holder_pid = sys.pid }), f3))))

  abbrev pub parsed_pid : Option Text → Option ℤ
  parsed_pid none = none
  parsed_pid (some contents) = parse_pid (trim contents)

  unfoldable pub read_holder_pid_from_path : Text → F → Option ℤ × F
  read_holder_pid_from_path path f = let r = sys.read_to_string path f in (parsed_pid r.0, r.1)

  -- The conflict: the holder is read, and the file dropped.
  abbrev pub conflict : Text → ℕ → Steps FlockGuard
  conflict canonical_path fd f =
      let r = read_holder_pid_from_path canonical_path f in
      (inl (already_held r.0), sys.close fd r.1)

  -- Steps 5 and 6.
  unfoldable pub lock : Text → ℕ → Steps FlockGuard
  unfolding stamp read_holder_pid_from_path
  lock canonical_path fd f =
      let locked = sys.try_lock fd f in
      if not locked.0 then conflict canonical_path fd locked.1 else stamp canonical_path fd locked.1

  -- The errors of step 4.
  abbrev pub open_error : IoError → FlockError
  open_error symlink_loop = symlink_rejected
  open_error e = create_failed e

  -- On what `open` gives.
  abbrev pub opened : Text → (IoError ⊎ ℕ) × F → (FlockError ⊎ FlockGuard) × F
  opened canonical_path (inl e, f) = (inl (open_error e), f)
  opened canonical_path (inr fd, f) = lock canonical_path fd f

  -- Step 4.
  unfoldable pub open_at : Text → Steps FlockGuard
  unfolding lock
  open_at canonical_path f =
      let r = sys.open_nofollow canonical_path f in
      if sys.has_nul canonical_path
      then (inl (create_failed invalid_input), f)
      else opened canonical_path r

  -- Step 3.
  abbrev pub named : Text → Option Text → Steps FlockGuard
  named canonical_parent none f = (inl (create_failed invalid_input), f)
  named canonical_parent (some basename) f = open_at (sys.join canonical_parent basename) f

  abbrev pub checked :
      Text → Option Text → (FlockError ⊎ Unit {0}) × F → (FlockError ⊎ FlockGuard) × F
  checked canonical_parent basename (inl e, f) = (inl e, f)
  checked canonical_parent basename (inr u, f) = named canonical_parent basename f

  abbrev pub canonical : Option Text → (IoError ⊎ Text) × F → (FlockError ⊎ FlockGuard) × F
  canonical basename (inl e, f) = (inl (canonicalization_failed e), f)
  canonical basename (inr canonical_parent, f) =
      checked canonical_parent basename (check_filesystem canonical_parent f)

  abbrev pub parent_or_root : Option Text → Text
  parent_or_root none = codes "/"
  parent_or_root (some p) = p

  unfoldable pub try_acquire_at : Text → Steps FlockGuard
  unfolding open_at check_filesystem
  try_acquire_at path f =
      canonical (sys.file_name path) (sys.canonicalize (parent_or_root (sys.parent path)) f)

  unfoldable pub try_acquire : Steps FlockGuard
  unfolding try_acquire_at
  try_acquire f = try_acquire_at (codes "/var/run/fand-smc.lock") f
