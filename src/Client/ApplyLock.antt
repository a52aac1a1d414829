-- ===== src/Client/ApplyLock.antt =====
-- clients/devbox/src/apply-lock.ts: runWithApplyLocks, up to the process that it starts.
pub mod Nesting
pub mod Inventory
use mathlib.Core.List.{reverse}
use remote_devbox.Base.{String, Bool, true, false, List, [], ◌∷◌}

-- The options of the process are passed on as they are.
pub record LockedCommand : Type 0 where
  pub command : String
  pub args : List String

-- On darwin lockf is run, and else flock.
unfoldable pub under_lock : Bool → String → LockedCommand → LockedCommand
under_lock true lock_file locked = record {
  command = "/usr/bin/lockf";
  args = "-k" ∷ "-t" ∷ "0" ∷ lock_file ∷ locked.command ∷ locked.args;
}
under_lock false lock_file locked = record {
  command = "/usr/bin/flock";
  args = "-n" ∷ "-E" ∷ "75" ∷ lock_file ∷ locked.command ∷ locked.args;
}

-- The loop over the lock files, the last one first.
unfoldable pub under_locks_from : Bool → List String → LockedCommand → LockedCommand
unfolding under_lock
under_locks_from darwin [] locked = locked
under_locks_from darwin (lock_file ∷ rest) locked =
    under_locks_from darwin rest (under_lock darwin lock_file locked)

unfoldable pub command_under_locks : Bool → List String → LockedCommand → LockedCommand
unfolding under_locks_from
command_under_locks darwin lock_files locked = under_locks_from darwin (reverse lock_files) locked
