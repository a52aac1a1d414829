-- ===== src/Client/ApplyLock/Nesting.antt =====
-- The order in which the locks are taken.
use mathlib.Core.Path.{subst}
use mathlib.Core.List.{reverse, reverse-cons, reverse-reverse, append_assoc, append-nil}
use remote_devbox.Base.{
  String, Bool, true, false, Option, none, some, List, [], ◌∷◌, ◌++◌, ◌≡◌, refl, ap, ◌∙◌, sym, ◌==◌,
  ◌&&◌, if◌then◌else◌,
}
use remote_devbox.Client.ApplyLock.{
  LockedCommand, under_lock, under_locks_from, command_under_locks,
}

-- What lockf and flock are given: options, of which the one with a waiting time of zero or the one
-- that does not wait, the file to lock, and the command that is run while it is locked.
abbrev pub is_call : Bool → String → (a b c : String) → Bool
is_call true command a b c = command == "/usr/bin/lockf" && a == "-k" && b == "-t" && c == "0"
is_call false command a b c = command == "/usr/bin/flock" && a == "-n" && b == "-E" && c == "75"

abbrev inside : Bool → String → List String → Option (String × LockedCommand)
inside darwin program (a ∷ b ∷ c ∷ lock_file ∷ command ∷ args) =
    if is_call darwin program a b c
    then some (lock_file, record { command = command; args = args })
    else none
inside darwin program _ = none

-- A command that locks the files one inside the other, the first one outermost, and then runs the
-- last command.
abbrev pub AreTaken : Bool → List String → LockedCommand → LockedCommand → Type 0
AreTaken darwin [] outer last = outer ≡ last
AreTaken darwin (lock_file ∷ lock_files) outer last =
    (inner : LockedCommand) × (inside darwin outer.command outer.args ≡ some (lock_file, inner))
    × AreTaken darwin lock_files inner last

inside-under_lock :
    (darwin : Bool) (lock_file : String) (locked : LockedCommand)
    → inside darwin
        (under_lock darwin lock_file locked).command
        (under_lock darwin lock_file locked).args
      ≡ some (lock_file, locked)
unfolding under_lock
inside-under_lock true lock_file locked = refl
inside-under_lock false lock_file locked = refl

under_locks_from-AreTaken :
    (darwin : Bool) (rest taken : List String) (locked last : LockedCommand)
    → AreTaken darwin taken locked last
    → AreTaken darwin (reverse rest ++ taken) (under_locks_from darwin rest locked) last
unfolding under_locks_from
under_locks_from-AreTaken darwin [] taken locked last h = h
under_locks_from-AreTaken darwin (lock_file ∷ rest) taken locked last h =
    let next = under_lock darwin lock_file locked in
    subst (λ fs. AreTaken darwin fs (under_locks_from darwin rest next) last)
      (sym (
        ap (λ fs. fs ++ taken) (reverse-cons lock_file rest)
        ∙ append_assoc (reverse rest) (lock_file ∷ []) taken))
      (under_locks_from-AreTaken darwin rest (lock_file ∷ taken) next last
        (locked, inside-under_lock darwin lock_file locked, h))

-- The command that is started locks the files in their order, each while the next ones are locked
-- and the given command runs inside them all, without waiting for any of them.
pub command_under_locks-AreTaken :
    (darwin : Bool) (lock_files : List String) (locked : LockedCommand)
    → AreTaken darwin lock_files (command_under_locks darwin lock_files locked) locked
unfolding command_under_locks
command_under_locks-AreTaken darwin lock_files locked =
    subst (λ fs. AreTaken darwin fs (command_under_locks darwin lock_files locked) locked)
      (append-nil (reverse (reverse lock_files)) ∙ reverse-reverse lock_files)
      (under_locks_from-AreTaken darwin (reverse lock_files) [] locked locked refl)
