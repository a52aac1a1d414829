-- ===== src/Doctor/Conditions.antt =====
-- box/doctor/src/conditions.ts: what the evidence says is wrong.
pub mod Orphans
use remote_devbox.Base.{
  push_some, String, Option, none, some, List, [], ◌∷◌, ◌++◌, ◌==◌, concat, if◌then◌else◌,
}
use remote_devbox.Doctor.Types.{RcUnit, Worktree, ProcRef, Condition, high, low}
use remote_devbox.Doctor.Classify.{is_worktree_protected}

pub record ConditionInput : Type 0 where
  pub units : List RcUnit
  pub worktrees : List Worktree
  pub procs : List ProcRef

unfoldable pub failed_condition : RcUnit → Condition
failed_condition u = record {
  id = concat ("rc-" ∷ u.unit ∷ "-failed" ∷ []);
  severity = high;
  facts = ("unit", u.unit) ∷ ("active", u.active) ∷ ("sub", u.sub) ∷ [];
  candidate_action = "restart-failed-rc";
  guard = "pass";
}

unfoldable pub orphan_condition : String → String → Condition
orphan_condition path cse = record {
  id = concat ("worktree-" ∷ cse ∷ "-orphan" ∷ []);
  severity = low;
  facts = ("path", path) ∷ ("cse", cse) ∷ [];
  candidate_action = "prune-orphan-worktree";
  guard = "pass";
}

-- One round of the loop over the units.
unfoldable pub unit_condition : RcUnit → Option Condition
unit_condition u = if u.active == "failed" then some (failed_condition u) else none

unit_conditions : List RcUnit → List Condition
unit_conditions [] = []
unit_conditions (u ∷ us) = push_some (unit_condition u) (unit_conditions us)

-- One round of the loop over the worktrees: the main checkout and what is in use are skipped.
unfoldable pub worktree_condition : Worktree → List ProcRef → Option Condition
worktree_condition w procs = elim w.cse [
  | none ↦ none
  | some cse ↦
      if is_worktree_protected w.path procs then none else some (orphan_condition w.path cse)
]

worktree_conditions : List Worktree → List ProcRef → List Condition
worktree_conditions [] procs = []
worktree_conditions (w ∷ ws) procs =
    push_some (worktree_condition w procs) (worktree_conditions ws procs)

unfoldable pub detect_conditions : ConditionInput → List Condition
unfolding unit_conditions worktree_conditions
detect_conditions input =
    unit_conditions input.units ++ worktree_conditions input.worktrees input.procs
