-- ===== src/Client/MountLock.antt =====
-- clients/devbox/src/mount-lock.ts: the lock of the mount lifecycle, taken and released by several
-- processes at once. A process is a number; each of its moves is one call on the file system or
-- one lookup, and the moves of all processes come in any order. Making the lock's directory and
-- errors of the file system other than EEXIST and ENOENT are left out.
pub mod Exclusion
pub mod Settling
use remote_devbox.Base.{
  ℕ, zero, suc, String, Bool, true, false, Option, none, some, List, [], ◌∷◌, ◌==◌, eqb,
  if◌then◌else◌,
}
use remote_devbox.Client.Bridge.{Sighting, gone, unclear, seen}

pub record LockOwner : Type 0 where
  pub pid : ℕ
  pub identity : String
  pub token : String

-- What the file holds: nothing that `isLockOwner` accepts, as before it is written, or an owner.
pub data Content : Type 0 where
  unowned : Content
  owned : LockOwner → Content

-- What a process does next. The number is that of the attempt.
pub data Phase : Type 0 where
  entering : Phase
  creating : ℕ → Phase
  seeing : ℕ → Phase
  judging : ℕ → LockOwner → Phase
  removing : ℕ → Phase
  writing : Phase
  holding : Phase
  releasing : Phase
  unlinking : Phase
  finished : Phase
  refused : String → Phase

-- The file at the path with the process that created it, what each process does next, and the
-- identity that each has found of itself.
pub record World : Type 0 where
  pub file : Option (ℕ × Content)
  pub phases : ℕ → Phase
  pub identities : ℕ → String

abbrev pub put {ℓ} : {A : Type ℓ} → ℕ → A → (ℕ → A) → ℕ → A
put i a f j = if eqb i j then a else f j

abbrev pub goes : ℕ → Phase → World → World
goes i phase w = record w { phases = put i phase w.phases }

abbrev pub unknown_owner : String
unknown_owner = "mount lifecycle lock ownership is unknown"

-- `lookup(process.pid)`; an identity that is missing or empty is none.
unfoldable pub enter : ℕ → Sighting → World → World
enter i (seen identity) w =
    if identity == ""
    then goes i (refused "current mount lifecycle ownership is unknown") w
    else goes i (creating 0) (record w { identities = put i identity w.identities })
enter i _ w = goes i (refused "current mount lifecycle ownership is unknown") w

-- `openSync(path, "wx")`: the file is new and empty, or there is one.
unfoldable pub create : ℕ → ℕ → Option (ℕ × Content) → World → World
create i attempt none w = record w { file = some (i, unowned); phases = put i writing w.phases }
create i attempt (some _) w = goes i (seeing attempt) w

unfoldable pub read_owner : ℕ → ℕ → Option (ℕ × Content) → World → World
read_owner i attempt (some (j, owned o)) w = goes i (judging attempt o) w
read_owner i attempt _ w = goes i (refused unknown_owner) w

unfoldable pub judge : ℕ → ℕ → LockOwner → Sighting → World → World
judge i attempt o unclear w = goes i (refused unknown_owner) w
judge i attempt o gone w = goes i (removing attempt) w
judge i attempt o (seen identity) w =
    if identity == o.identity
    then goes i (refused "mount lifecycle already running") w
    else goes i (refused "mount lifecycle lock ownership changed") w

-- The write goes to the file that was opened, which may no longer be the one at the path.
unfoldable pub write : LockOwner → ℕ → Option (ℕ × Content) → Option (ℕ × Content)
write o i none = none
write o i (some (j, content)) = if eqb i j then some (j, owned o) else some (j, content)

-- The read of a release: the file is removed next if it has the process's own token.
unfoldable pub reread : String → ℕ → Option (ℕ × Content) → World → World
reread token i (some (j, owned o)) w =
    if o.token == token then goes i unlinking w else goes i finished w
reread token i _ w = goes i finished w

module _ (pids : ℕ → ℕ) (tokens : ℕ → String) where
  unfoldable pub next : ℕ → Sighting → Phase → World → World
  unfolding enter create read_owner judge write reread
  next i s entering w = enter i s w
  next i s (creating zero) w = create i 0 w.file w
  next i s (creating (suc zero)) w = create i 1 w.file w
  next i s (creating (suc (suc _))) w = goes i (refused "could not acquire mount lifecycle lock") w
  next i s (seeing attempt) w = read_owner i attempt w.file w
  next i s (judging attempt o) w = judge i attempt o s w
  next i s (removing attempt) w = record w {
    file = none;
    phases = put i (creating (suc attempt)) w.phases;
  }
  next i s writing w =
      let o : LockOwner = record { pid = pids i; identity = w.identities i; token = tokens i } in
      record w { file = write o i w.file; phases = put i holding w.phases }
  next i s holding w = goes i releasing w
  next i s releasing w = reread (tokens i) i w.file w
  next i s unlinking w = record w { file = none; phases = put i finished w.phases }
  next i s finished w = w
  next i s (refused message) w = w

  -- The next move of a process; where it is a lookup, with what is seen.
  unfoldable pub move : ℕ × Sighting → World → World
  unfolding next
  move (i, s) w = next i s (w.phases i) w

  unfoldable pub run : List (ℕ × Sighting) → World → World
  unfolding move
  run [] w = w
  run (m ∷ ms) w = run ms (move m w)

-- No file, and every process about to begin.
abbrev pub start : World
start = record { file = none; phases = λ i. entering; identities = λ i. "" }
