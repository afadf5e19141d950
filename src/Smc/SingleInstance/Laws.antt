-- ===== src/Smc/SingleInstance/Laws.antt =====
-- What becomes of the lock file, as an automaton that reads the calls.
use fand.Prelude.{
  ℕ, ◌≡◌, refl, Bool, true, false, not, ◌==◌, ==_iff, Option, none, some, List, [], ◌∷◌, ◌⊎◌, inl,
  inr, if◌then◌else◌, if_both,
}
use fand.Prelude.Text.{Text}
use fand.Smc.SingleInstance.{
  IoError, permission_denied, symlink_loop, invalid_input, other, FlockError, unreliable_filesystem,
  create_failed, canonicalization_failed, write_failed, already_held, symlink_rejected, FlockGuard,
  System, refuse_type, check_filesystem, stamp, lock, open_at, try_acquire_at, or_write_failed,
  conflict, read_holder_pid_from_path, opened, named, checked, canonical, any_same,
  flock_unreliable_fs, until_nul, parent_or_root,
}

-- The calls on a file: an open that gave it, a lock that was or was not given, a change, its close;
-- and a read by its path, which opens it a second time.
pub data Event : Type 0 where
  opens locks is_refused changes closes : (fd : ℕ) → Event
  rereads : (path : Text) → Event

pub data FileState : Type 0 where
  absent closed : FileState
  open_file refused_file reread_file locked_file : (fd : ℕ) → FileState

-- What may follow what: a file is locked once it is open, is changed only under its lock, is read by
-- its path once after a lock that was refused, and is closed once.
unfoldable pub next : Event → FileState → Option FileState
next (opens fd) absent = some (open_file fd)
next (locks fd) (open_file own) = if fd == own then some (locked_file own) else none
next (is_refused fd) (open_file own) = if fd == own then some (refused_file own) else none
next (rereads path) (refused_file own) = some (reread_file own)
next (changes fd) (locked_file own) = if fd == own then some (locked_file own) else none
next (closes fd) (reread_file own) = if fd == own then some closed else none
next (closes fd) (locked_file own) = if fd == own then some closed else none
next _ _ = none

abbrev next_of : Event → Option FileState → Option FileState
next_of e none = none
next_of e (some s) = next e s

-- The state after the calls, of which the last one stands first, if each was allowed.
abbrev pub replay : List Event → Option FileState
replay [] = some absent
replay (e ∷ earlier) = next_of e (replay earlier)

-- How an error leaves the file.
abbrev pub left_by : FlockError → FileState
left_by (unreliable_filesystem type_name) = absent
left_by (create_failed e) = absent
left_by (canonicalization_failed e) = absent
left_by symlink_rejected = absent
left_by (write_failed e) = closed
left_by (already_held holder_pid) = closed

abbrev left_by_end : FlockError ⊎ FlockGuard → FileState
left_by_end (inl e) = left_by e
left_by_end (inr guard) = locked_file guard.file

module _ {F : Type 0} (sys : System F) where
  abbrev log_open : (IoError ⊎ ℕ) × F → List Event → (IoError ⊎ ℕ) × (List Event × F)
  log_open (inl e, f) t = (inl e, (t, f))
  log_open (inr fd, f) t = (inr fd, (opens fd ∷ t, f))

  -- The system with a record of its calls on files.
  abbrev pub traced : System (List Event × F)
  traced = record {
    parent = sys.parent;
    file_name = sys.file_name;
    join = sys.join;
    has_nul = sys.has_nul;
    pid = sys.pid;
    canonicalize = λ path s. let r = sys.canonicalize path s.1 in (r.0, (s.0, r.1));
    statfs = λ path s. let r = sys.statfs path s.1 in (r.0, (s.0, r.1));
    open_nofollow = λ path s. log_open (sys.open_nofollow path s.1) s.0;
    try_lock = λ fd s.
        let r = sys.try_lock fd s.1 in
        (r.0, ((if r.0 then locks fd else is_refused fd) ∷ s.0, r.1));
    truncate = λ fd s. let r = sys.truncate fd s.1 in (r.0, (changes fd ∷ s.0, r.1));
    flush = λ fd s. let r = sys.flush fd s.1 in (r.0, (changes fd ∷ s.0, r.1));
    write_pid = λ fd n s. let r = sys.write_pid fd n s.1 in (r.0, (changes fd ∷ s.0, r.1));
    close = λ fd s. (closes fd ∷ s.0, sys.close fd s.1);
    read_to_string =
        λ path s. let r = sys.read_to_string path s.1 in (r.0, (rereads path ∷ s.0, r.1));
  }

  -- The calls were allowed, and the file is left as the end says.
  abbrev pub Accounts : (FlockError ⊎ FlockGuard) × (List Event × F) → Type 0
  Accounts r = replay r.1.0 ≡ some (left_by_end r.0)

  same_fd : (fd : ℕ) → (fd == fd) ≡ true
  same_fd fd = (==_iff fd fd).1 refl

  changed :
      (fd : ℕ) (t : List Event)
      → replay t ≡ some (locked_file fd)
      → replay (changes fd ∷ t) ≡ some (locked_file fd)
  unfolding next
  changed fd t h = rw h (rw (same_fd fd) refl)

  closed_locked :
      (fd : ℕ) (t : List Event)
      → replay t ≡ some (locked_file fd)
      → replay (closes fd ∷ t) ≡ some closed
  unfolding next
  closed_locked fd t h = rw h (rw (same_fd fd) refl)

  -- A write that failed, and one that did not.
  or_write_failed-Accounts :
      (fd : ℕ) (r : IoError ⊎ Unit {0}) (t : List Event) (f : F)
      (rest : List Event × F → (FlockError ⊎ FlockGuard) × (List Event × F))
      → replay t ≡ some (locked_file fd)
      → ((t : List Event) (f : F) → replay t ≡ some (locked_file fd) → Accounts (rest (t, f)))
      → Accounts (or_write_failed traced fd (r, (changes fd ∷ t, f)) rest)
  or_write_failed-Accounts fd (inl e) t f rest h k =
      closed_locked fd (changes fd ∷ t) (changed fd t h)
  or_write_failed-Accounts fd (inr u) t f rest h k = k (changes fd ∷ t) f (changed fd t h)

  stamp-Accounts :
      (canonical_path : Text) (fd : ℕ) (t : List Event) (f : F)
      → replay t ≡ some (locked_file fd)
      → Accounts (stamp traced canonical_path fd (t, f))
  unfolding stamp
  stamp-Accounts canonical_path fd t f h =
      or_write_failed-Accounts fd (sys.truncate fd f).0 t _ _ h (λ t1 f1 h1.
        or_write_failed-Accounts fd (sys.write_pid fd sys.pid f1).0 t1 _ _ h1
          (λ t2 f2 h2. or_write_failed-Accounts fd (sys.flush fd f2).0 t2 _ _ h2 (λ t3 f3 h3. h3)))

  -- On what `try_lock` says.
  locked-Accounts :
      (canonical_path : Text) (fd : ℕ) (t : List Event) (got : Bool) (f : F)
      → replay t ≡ some (open_file fd)
      → Accounts (
          if not got
          then conflict traced canonical_path fd ((if got then locks fd else is_refused fd) ∷ t, f)
          else stamp traced canonical_path fd ((if got then locks fd else is_refused fd) ∷ t, f))
  unfolding next read_holder_pid_from_path
  locked-Accounts canonical_path fd t true f h =
      stamp-Accounts canonical_path fd (locks fd ∷ t) f (rw h (rw (same_fd fd) refl))
  locked-Accounts canonical_path fd t false f h = rw h (rw (same_fd fd) (rw (same_fd fd) refl))

  lock-Accounts :
      (canonical_path : Text) (fd : ℕ) (t : List Event) (f : F)
      → replay t ≡ some (open_file fd)
      → Accounts (lock traced canonical_path fd (t, f))
  unfolding lock
  lock-Accounts canonical_path fd t f h =
      locked-Accounts canonical_path fd t (sys.try_lock fd f).0 (sys.try_lock fd f).1 h

  opened-Accounts :
      (canonical_path : Text) (r : (IoError ⊎ ℕ) × F)
      → Accounts (opened traced canonical_path (log_open r []))
  unfolding next
  opened-Accounts canonical_path (inl permission_denied, f) = refl
  opened-Accounts canonical_path (inl symlink_loop, f) = refl
  opened-Accounts canonical_path (inl invalid_input, f) = refl
  opened-Accounts canonical_path (inl (other n), f) = refl
  opened-Accounts canonical_path (inr fd, f) =
      lock-Accounts canonical_path fd (opens fd ∷ []) f refl

  named-Accounts :
      (parent : Text) (basename : Option Text) (f : F)
      → Accounts (named traced parent basename ([], f))
  unfolding open_at
  named-Accounts parent none f = refl
  named-Accounts parent (some basename) f =
      if_both Accounts (sys.has_nul (sys.join parent basename)) refl (
        opened-Accounts (sys.join parent basename) (sys.open_nofollow (sys.join parent basename) f))

  checked-Accounts :
      (parent : Text) (basename : Option Text) (kind : Option (List ℕ)) (f : F)
      → Accounts (checked traced parent basename (refuse_type traced kind, ([], f)))
  unfolding refuse_type
  checked-Accounts parent basename none f = named-Accounts parent basename f
  checked-Accounts parent basename (some name) f =
      if_both
        (λ (r : FlockError ⊎ Unit {0}). Accounts (checked traced parent basename (r, ([], f))))
        (any_same flock_unreliable_fs (until_nul name)) refl (named-Accounts parent basename f)

  canonical-Accounts :
      (basename : Option Text) (r : (IoError ⊎ Text) × F)
      → Accounts (canonical traced basename (r.0, ([], r.1)))
  unfolding check_filesystem
  canonical-Accounts basename (inl e, f) = refl
  canonical-Accounts basename (inr parent, f) =
      if_both
        (λ (r : (FlockError ⊎ Unit {0}) × (List Event × F)).
          Accounts (checked traced parent basename r))
        (sys.has_nul parent) (named-Accounts parent basename f)
        (checked-Accounts parent basename (sys.statfs parent f).0 (sys.statfs parent f).1)

  -- Whatever the system answers, the lock file is opened for writing once at most, is truncated and
  -- written only under the lock, and is closed once at most. On a success it is the guard's file, open
  -- and locked. After a conflict, for which alone the path is opened again, once, to be read, and after
  -- a failed write it is closed, and after any other error no file was opened.
  pub try_acquire_at-Accounts :
      (path : Text) (f : F) → Accounts (try_acquire_at traced path ([], f))
  unfolding try_acquire_at
  try_acquire_at-Accounts path f =
      canonical-Accounts (sys.file_name path)
        (sys.canonicalize (parent_or_root traced (sys.parent path)) f)
