-- ===== src/Doctor/Report/Evidence.antt =====
-- The adapter of box/doctor/src/report.ts from raw evidence to a health document, and its texts.
pub mod Upkeep
use text.Mathlib.Text.{starts_with}
use remote_devbox.Base.{
  String, Bool, ◌&&◌, Option, none, some, List, [], ◌∷◌, ◌++◌, map, ◌==◌, concat, join, or_default,
  if◌then◌else◌, is_empty,
}
use remote_devbox.Doctor.Types.{
  HealthStatus, healthy, degraded, recovering, blocked, failed, unknown, HealthResult,
  HealthDocument, RcUnit, Condition, RecoveryPolicy, automatic, manual, confirmation_required,
}
use remote_devbox.Doctor.Report.{create_health_document}

abbrev unit_healthy : RcUnit → Bool
unit_healthy u = u.loaded && u.active == "active"

unfoldable pub unit_component : RcUnit → HealthResult
unit_component u = record {
  id = concat ("remote-control." ∷ u.unit ∷ []);
  profile = none;
  status = if unit_healthy u then healthy else if u.active == "failed" then failed else degraded;
  expected = concat (u.unit ∷ " active" ∷ []) ∷ [];
  observed = concat (u.active ∷ "/" ∷ u.sub ∷ []) ∷ [];
  reason =
      if unit_healthy u
      then none
      else some (if u.active == "failed" then "unit_failed" else "unit_inactive");
  recovery = if unit_healthy u then confirmation_required else automatic;
}

-- The text after a prefix that it starts with, `text.slice(prefix.length)`.
abbrev pub after : String → String → String
after String.[] s = s
after (String.◌∷◌ _ p) String.[] = ""
after (String.◌∷◌ _ p) (String.◌∷◌ _ s) = after p s

fact : String → List (String × String) → Option String
fact key [] = none
fact key ((k, v) ∷ fs) = if k == key then some v else fact key fs

unfoldable pub worktree_component : Condition → HealthResult
unfolding fact
worktree_component c = record {
  id = concat ("worktree." ∷ after "worktree-" c.id ∷ []);
  profile = none;
  status = if c.guard == "pass" then degraded else blocked;
  expected = "worktree referenced by a live session or explicitly retained" ∷ [];
  observed = or_default (fact "path" c.facts) c.id ∷ [];
  reason = some "orphan_worktree";
  recovery = confirmation_required;
}

worktree_components : List Condition → List HealthResult
worktree_components [] = []
worktree_components (c ∷ cs) =
    let rest = worktree_components cs in
    if starts_with c.id "worktree-" then worktree_component c ∷ rest else rest

-- The fields of `Health` that the document is made of; `observed_at` is its `now` as an ISO date.
pub health_document_from_evidence :
    (String → String → Bool) → String → List RcUnit → List Condition → HealthDocument
unfolding worktree_components
health_document_from_evidence locale_before observed_at units conditions =
    create_health_document locale_before observed_at
      (map unit_component units ++ worktree_components conditions)

abbrev pub status_text : HealthStatus → String
status_text healthy = "healthy"
status_text degraded = "degraded"
status_text recovering = "recovering"
status_text blocked = "blocked"
status_text failed = "failed"
status_text unknown = "unknown"

abbrev pub policy_text : RecoveryPolicy → String
policy_text automatic = "automatic"
policy_text manual = "manual"
policy_text confirmation_required = "confirmation-required"
policy_text RecoveryPolicy.none = "none"

-- `parts.join("; ") || "-"`.
listed : List String → String
listed parts = let text = join "; " parts in if text == "" then "-" else text

reason_line : Option String → List String
reason_line none = []
reason_line (some r) = if r == "" then [] else concat ("  reason: " ∷ r ∷ []) ∷ []

component_lines : HealthResult → List String
component_lines c =
    ""
    ∷ concat (c.id ∷ "  " ∷ status_text c.status ∷ [])
    ∷ concat ("  expected: " ∷ listed c.expected ∷ [])
    ∷ concat ("  observed: " ∷ listed c.observed ∷ [])
    ∷ (reason_line c.reason ++ concat ("  recovery: " ∷ policy_text c.recovery ∷ []) ∷ [])

all_lines : List HealthResult → List String
all_lines [] = []
all_lines (c ∷ cs) = component_lines c ++ all_lines cs

unfoldable pub format_human : HealthDocument → String
unfolding listed reason_line component_lines all_lines
format_human document = join "\n" (
    concat ("health " ∷ status_text document.status ∷ "  observed " ∷ document.observed_at ∷ [])
    ∷ ((if is_empty document.components then "  (no configured components)" ∷ [] else [])
        ++ all_lines document.components))
