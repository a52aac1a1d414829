-- ===== src/Doctor/Conditions/Orphans.antt =====
-- What the conditions propose to remove.
use remote_devbox.Base.{
  All, append_mem, push_some_mem, ap, arith, refl, sym, ◌∙◌, inl, inr, ◌↔◌, ◌⊎◌, [], ◌∷◌, eq_iff,
  String, false, some, List, ◌≡◌, Memᴰ,
}
use remote_devbox.Base.Within.{IsWithin}
use remote_devbox.Doctor.Types.{RcUnit, Worktree, ProcRef, Condition}
use remote_devbox.Doctor.Classify.{is_worktree_protected, strip_slashes}
use remote_devbox.Doctor.Classify.References.{
  IsStem, strip_slashes-IsStem, is_worktree_protected-unused_iff,
}
use remote_devbox.Doctor.Conditions.{
  failed_condition, unit_conditions, unit_condition, detect_conditions, ConditionInput,
  orphan_condition, worktree_condition, worktree_conditions,
}

-- A worktree of the input that carries a session id and whose path, up to the slashes at its end, is
-- in no process's command line.
pub record IsOrphan (worktrees : List Worktree) (procs : List ProcRef) (c : Condition)
    : Type 0 where
  pub worktree : Worktree
  pub cse : String
  pub listed : Memᴰ worktree worktrees
  pub owned : worktree.cse ≡ some cse
  pub stem : String
  pub named : IsStem worktree.path stem
  pub unused : All (λ (p : ProcRef). ¬ IsWithin stem p.cmd) procs
  pub condition : c ≡ orphan_condition worktree.path cse

worktree_condition-some :
    (w : Worktree) (procs : List ProcRef) (c : Condition)
    → worktree_condition w procs ≡ some c
    → (cse : String) × (w.cse ≡ some cse)
      × (is_worktree_protected w.path procs ≡ false)
      × (c ≡ orphan_condition w.path cse)
unfolding worktree_condition
worktree_condition-some w procs c h = ground arith

worktree_conditions_sound :
    (ws : List Worktree) (procs : List ProcRef) (c : Condition)
    → Memᴰ c (worktree_conditions ws procs)
    → IsOrphan ws procs c
unfolding worktree_conditions
worktree_conditions_sound [] procs c m = elim m [ ]
worktree_conditions_sound (w ∷ ws) procs c m =
    elim ((push_some_mem (worktree_condition w procs) _ c).0 m) [
      | inl e ↦
          let (cse, owned, unused, condition) = worktree_condition-some w procs c e in
          record {
            worktree = w;
            cse = cse;
            listed = Memᴰ.head refl;
            owned = owned;
            stem = strip_slashes w.path;
            named = strip_slashes-IsStem w.path;
            unused =
                (is_worktree_protected-unused_iff w.path (strip_slashes w.path) procs
                    (strip_slashes-IsStem w.path)).0
                  unused;
            condition = condition;
          }
      | inr k ↦
          let o = worktree_conditions_sound ws procs c k in
          record {
            worktree = o.worktree;
            cse = o.cse;
            listed = Memᴰ.tail o.listed;
            owned = o.owned;
            stem = o.stem;
            named = o.named;
            unused = o.unused;
            condition = o.condition;
          }
    ]

worktree_conditions_complete :
    (ws : List Worktree) (procs : List ProcRef) (c : Condition) (w : Worktree)
    → Memᴰ w ws
    → worktree_condition w procs ≡ some c
    → Memᴰ c (worktree_conditions ws procs)
unfolding worktree_conditions
worktree_conditions_complete [] procs c w m e = elim m [ ]
worktree_conditions_complete (v ∷ ws) procs c w (Memᴰ.head same) e =
    (push_some_mem _ _ c).1 (inl (rw same at e))
worktree_conditions_complete (v ∷ ws) procs c w (Memᴰ.tail m) e =
    (push_some_mem _ _ c).1 (inr (worktree_conditions_complete ws procs c w m e))

worktree_condition_of_IsOrphan :
    {ws : List Worktree} {procs : List ProcRef} {c : Condition} (o : IsOrphan ws procs c)
    → worktree_condition o.worktree procs ≡ some c
unfolding worktree_condition
worktree_condition_of_IsOrphan {procs} o =
    let free = (is_worktree_protected-unused_iff o.worktree.path o.stem procs o.named).1 o.unused in
    ground (arith, o.owned, free, o.condition)

-- A failed unit of the input, and its condition.
abbrev pub IsFailedUnit : List RcUnit → Condition → Type 0
IsFailedUnit us c = (u : RcUnit) × Memᴰ u us × (u.active ≡ "failed") × (c ≡ failed_condition u)

unit_condition-some :
    (u : RcUnit) (c : Condition)
    → unit_condition u ≡ some c
    → (u.active ≡ "failed") × (c ≡ failed_condition u)
unfolding unit_condition
unit_condition-some u c h = ground (arith, eq_iff u.active "failed")

unit_conditions_sound :
    (us : List RcUnit) (c : Condition) → Memᴰ c (unit_conditions us) → IsFailedUnit us c
unfolding unit_conditions
unit_conditions_sound [] c m = elim m [ ]
unit_conditions_sound (u ∷ us) c m =
    elim ((push_some_mem (unit_condition u) (unit_conditions us) c).0 m) [
      | inl e ↦ let (bad, same) = unit_condition-some u c e in (u, Memᴰ.head refl, bad, same)
      | inr k ↦
          let (v, listed, bad, same) = unit_conditions_sound us c k in
          (v, Memᴰ.tail listed, bad, same)
    ]

unit_conditions_complete :
    (us : List RcUnit) (c : Condition) (u : RcUnit)
    → Memᴰ u us
    → unit_condition u ≡ some c
    → Memᴰ c (unit_conditions us)
unfolding unit_conditions
unit_conditions_complete [] c u m e = elim m [ ]
unit_conditions_complete (v ∷ us) c u (Memᴰ.head same) e =
    (push_some_mem _ _ c).1 (inl (rw same at e))
unit_conditions_complete (v ∷ us) c u (Memᴰ.tail m) e =
    (push_some_mem _ _ c).1 (inr (unit_conditions_complete us c u m e))

unit_condition_of_failed :
    (u : RcUnit) → u.active ≡ "failed" → unit_condition u ≡ some (failed_condition u)
unfolding unit_condition
unit_condition_of_failed u h = ground (arith, eq_iff u.active "failed")

-- The conditions are exactly those of the failed units and of the orphans: a worktree is proposed
-- for pruning only if it belongs to a session and its path, up to the slashes at its end, is in no
-- command line of the input's processes, and every such worktree is.
pub detect_conditions_iff :
    (input : ConditionInput) (c : Condition)
    → Memᴰ c (detect_conditions input)
      ↔ (IsFailedUnit input.units c ⊎ IsOrphan input.worktrees input.procs c)
unfolding detect_conditions
detect_conditions_iff input c = (
  λ m. elim ((append_mem _ _ c).0 m) [
    | inl k ↦ inl (unit_conditions_sound input.units c k)
    | inr k ↦ inr (worktree_conditions_sound input.worktrees input.procs c k)
  ],
  λ h. elim h [
    | inl (u, listed, bad, same) ↦ (append_mem _ _ c).1 (
        inl (
          unit_conditions_complete input.units c u listed
            (unit_condition_of_failed u bad ∙ ap some (sym same))))
    | inr o ↦ (append_mem _ _ c).1 (
        inr (
          worktree_conditions_complete input.worktrees input.procs c o.worktree o.listed
            (worktree_condition_of_IsOrphan o)))
  ],
)
