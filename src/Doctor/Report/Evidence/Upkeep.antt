-- ===== src/Doctor/Report/Evidence/Upkeep.antt =====
-- When the document of the raw evidence is healthy.
use text.Mathlib.Text.{starts_with}
use remote_devbox.Base.{
  All-append_iff, String, Bool, true, false, List, [], ◌∷◌, ◌++◌, map, ◌≡◌, ◌↔◌, inl, inr, refl,
  All, arith, eq_iff, Bool-cases,
}
use remote_devbox.Doctor.Types.{healthy, HealthResult, RcUnit, Condition}
use remote_devbox.Doctor.Report.Aggregation.{create_health_document-healthy_iff}
use remote_devbox.Doctor.Report.Evidence.{
  unit_component, worktree_component, worktree_components, health_document_from_evidence,
}

abbrev IsHealthy : HealthResult → Type 0
IsHealthy c = c.status ≡ healthy

-- The unit is loaded and active.
abbrev pub IsUp : RcUnit → Type 0
IsUp u = (u.loaded ≡ true) × (u.active ≡ "active")

unit_component-IsHealthy_iff : (u : RcUnit) → IsHealthy (unit_component u) ↔ IsUp u
unfolding unit_component
unit_component-IsHealthy_iff u = ground (arith, eq_iff u.active "active")

units-IsHealthy_iff : (us : List RcUnit) → All IsHealthy (map unit_component us) ↔ All IsUp us
units-IsHealthy_iff [] = (λ h. tt, λ h. tt)
units-IsHealthy_iff (u ∷ us) =
    let one = unit_component-IsHealthy_iff u in
    let rest = units-IsHealthy_iff us in
    (λ (h, k). (one.0 h, rest.0 k), λ (h, k). (one.1 h, rest.1 k))

worktree_component_unhealthy : (c : Condition) → IsHealthy (worktree_component c) → ⊥
unfolding worktree_component
worktree_component_unhealthy c h = ground arith

-- The condition is about no worktree.
abbrev pub IsElsewhere : Condition → Type 0
IsElsewhere c = starts_with c.id "worktree-" ≡ false

worktrees-IsHealthy_iff :
    (cs : List Condition) → All IsHealthy (worktree_components cs) ↔ All IsElsewhere cs
unfolding worktree_components
worktrees-IsHealthy_iff [] = (λ h. tt, λ h. tt)
worktrees-IsHealthy_iff (c ∷ cs) =
    let (to, from) = worktrees-IsHealthy_iff cs in
    elim (Bool-cases (starts_with c.id "worktree-")) [
      | inl e ↦ rw e (λ (h, k). absurd (worktree_component_unhealthy c h), λ (h, k). absurd (cc))
      | inr e ↦ rw e (λ h. (refl, to h), λ (h, k). from k)
    ]

-- The document of the evidence is healthy exactly if every unit is loaded and active and no
-- condition is about a worktree.
pub health_document_from_evidence-healthy_iff :
    (before : String → String → Bool) (at : String) (us : List RcUnit) (cs : List Condition)
    → ((health_document_from_evidence before at us cs).status ≡ healthy)
      ↔ (All IsUp us × All IsElsewhere cs)
unfolding health_document_from_evidence
health_document_from_evidence-healthy_iff before at us cs =
    let found = map unit_component us ++ worktree_components cs in
    let whole = create_health_document-healthy_iff before at found in
    let parts = All-append_iff IsHealthy (map unit_component us) (worktree_components cs) in
    let units = units-IsHealthy_iff us in
    let worktrees = worktrees-IsHealthy_iff cs in
    (
      λ h. (units.0 (parts.0 (whole.0 h)).0, worktrees.0 (parts.0 (whole.0 h)).1),
      λ (h, k). whole.1 (parts.1 (units.1 h, worktrees.1 k)),
    )
