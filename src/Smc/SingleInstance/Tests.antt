-- ===== src/Smc/SingleInstance/Tests.antt =====
-- The lock on a system that keeps who holds it.
use fand.Prelude.{Bool, true, false, not, none, some, [], ◌∷◌, ◌≡◌, refl, inr}
use fand.Prelude.Text.{codes}
use fand.Prelude.Int.{negsuc}
use fand.Smc.SingleInstance.Pid.{trim, parse_pid}
use fand.Smc.SingleInstance.{System, try_acquire_at}
use fand.Smc.SingleInstance.Laws.{Accounts, traced, try_acquire_at-Accounts}

-- The state is whether the lock is held.
abbrev one_file : System Bool
one_file = record {
  parent = λ path. some (codes "/var/run");
  file_name = λ path. some (codes "fand-smc.lock");
  join = λ front name. front;
  has_nul = λ path. false;
  pid = 77;
  canonicalize = λ path f. (inr path, f);
  statfs = λ path f. (some (codes "apfs"), f);
  open_nofollow = λ path f. (inr 3, f);
  try_lock = λ fd f. (not f, true);
  truncate = λ fd f. (inr tt, f);
  flush = λ fd f. (inr tt, f);
  write_pid = λ fd n f. (inr tt, f);
  close = λ fd f. f;
  read_to_string = λ path f. (some (codes "12"), f);
}

try_acquire_at-Accounts_example :
    Accounts one_file
      (try_acquire_at (traced one_file) (codes "/var/run/fand-smc.lock") ([], false))
try_acquire_at-Accounts_example =
    try_acquire_at-Accounts one_file (codes "/var/run/fand-smc.lock") false

-- The file holds a number with white space around it, an ideographic space behind it.
pid_read : parse_pid (trim (32 ∷ 45 ∷ 49 ∷ 50 ∷ 10 ∷ 227 ∷ 128 ∷ 128 ∷ [])) ≡ some (negsuc 11)
unfolding trim parse_pid fand.F32.Parse.number_from
pid_read = refl

no_pid : parse_pid (codes "2147483648") ≡ none
unfolding parse_pid fand.F32.Parse.number_from
no_pid = refl
