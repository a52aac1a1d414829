-- ===== src/Doctor/Parsers/Worktrees.antt =====
-- worktrees.ts of box/doctor/src/parse: the worktrees of `git worktree list --porcelain`.
pub mod Printed
use Prim.Native.String
use Prim.Native.Char.{code}
use remote_devbox.Base.{
  strip, ℕ, String, Bool, true, false, Option, none, some, List, [], ◌∷◌, ◌++◌, ◌==◌, ◌≡◌, refl,
  eqb, or_default, is_some, is_alnum, split, trim, concat, if◌then◌else◌,
}
use remote_devbox.Doctor.Types.{Worktree}

-- `[A-Za-z0-9]+`, as far as it goes.
alnum_prefix : String → String
alnum_prefix String.[] = ""
alnum_prefix (String.◌∷◌ c s) =
    let rest = alnum_prefix s in if is_alnum (code c) then String.◌∷◌ c rest else ""

abbrev cse_named : Option String → Option String
cse_named none = none
cse_named (some rest) = if rest == "" then none else some (concat ("cse_" ∷ rest ∷ []))

abbrev after_prefix : Option String → Option String
after_prefix none = none
after_prefix (some rest) = some (alnum_prefix rest)

-- The first match of `<before>(cse_[A-Za-z0-9]+)`, its group.
unfoldable pub cse_of : String → String → Option String
unfolding strip alnum_prefix
cse_of before String.[] = none
cse_of before (String.◌∷◌ c s) =
    let later = cse_of before s in
    elim (cse_named (after_prefix (strip (concat (before ∷ "cse_" ∷ [])) (String.◌∷◌ c s)))) [
      | some cse ↦ some cse
      | none ↦ later
    ]

-- `Partial<Worktree>`, which always has a path and a lock.
pub record Current : Type 0 where
  pub path : String
  pub branch : Option String
  pub locked : Bool

unfoldable pub flush : Option Current → List Worktree
unfolding cse_of
flush none = []
flush (some cur) =
    if cur.path == ""
    then []
    else record {
      path = cur.path;
      branch = or_default cur.branch "";
      locked = cur.locked;
      cse = cse_of "bridge-" cur.path;
    }
      ∷ []

-- The last two tests of the loop, for a worktree that has begun.
unfoldable pub detail : Option String → String → Current → Current
unfolding strip
detail (some branch) line cur = record cur { branch = some (trim branch) }
detail none line cur =
    if is_some (strip "locked" (trim line)) then record cur { locked = true } else cur

unfoldable pub with_detail : String → Option Current → Option Current
unfolding detail
with_detail line none = none
with_detail line (some cur) = some (detail (strip "branch " line) line cur)

-- The loop over the lines, with the worktree being read, and the last flush.
unfoldable pub worktrees_from : Option Current → List String → List Worktree
unfolding flush with_detail
worktrees_from cur [] = flush cur
worktrees_from cur (line ∷ lines) = elim (strip "worktree " line) [
  | some path ↦
      flush cur
      ++ worktrees_from (some (record { path = trim path; branch = none; locked = false })) lines
  | none ↦ worktrees_from (with_detail line cur) lines
]

unfoldable pub parse_worktrees : String → List Worktree
unfolding worktrees_from
parse_worktrees porcelain = worktrees_from none (split b'\n' porcelain)

worktrees_test :
    parse_worktrees "worktree /w/bridge-cse_x1/y\nHEAD 12\nbranch refs/heads/b\nlocked held\n\n"
    ≡ record {
      path = "/w/bridge-cse_x1/y";
      branch = "refs/heads/b";
      locked = true;
      cse = some "cse_x1";
    }
      ∷ []
unfolding parse_worktrees split trim
worktrees_test = refl
