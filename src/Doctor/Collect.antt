-- ===== src/Doctor/Collect.antt =====
-- box/doctor/src/collect.ts: the health of the components of a host. A pass over the host is the
-- parameter `probe`, what each command answers in it; `none` stands for a launch that throws.
mod Properties
pub mod Units
pub mod Upkeep
use remote_devbox.Base.{
  ℕ, String, Bool, true, false, ◌&&◌, ◌||◌, not, Option, none, some, List, [], ◌∷◌, ◌++◌, map, ◌==◌,
  concat, decimal, if◌then◌else◌, any, is_empty, or_default, ltb, eqb, includes, split, find,
  is_some,
}
use text.Mathlib.Text.{starts_with}
use remote_devbox.Doctor.Types.{
  HealthResult, HealthDocument, HealthStatus, healthy, degraded, recovering, blocked, failed,
  unknown, HealthFacts, HealthComponentFact, Listener, tcp, unix, ProcessMatch, exact, prefix,
  UnitScope, system, user,
}
use remote_devbox.Doctor.Report.{status_priority, create_health_document}
use Properties.{systemd_properties, property, quoted_names}

pub record CommandResult : Type 0 where
  pub stdout : String
  pub stderr : String
  pub exit_code : Option ℕ
  pub timed_out : Bool

unfoldable pub worsen : HealthStatus → HealthStatus → HealthStatus
worsen current next = if ltb (status_priority current) (status_priority next) then next else current

unfoldable pub location : Listener → String
location (tcp address port process match) = concat (address ∷ ":" ∷ decimal port ∷ [])
location (unix path process match) = path

unfoldable pub process_of : Listener → String
process_of (tcp address port process match) = process
process_of (unix path process match) = process

unfoldable pub match_of : Listener → Option ProcessMatch
match_of (tcp address port process match) = match
match_of (unix path process match) = match

abbrev pub protocol_of : Listener → String
protocol_of (tcp _ _ _ _) = "tcp"
protocol_of (unix _ _ _) = "unix"

expected_listener : Listener → String
unfolding location process_of
expected_listener l = concat (location l ∷ " owned by " ∷ process_of l ∷ [])

-- `evidence.split("\n").find((line) => line.includes(location))`.
unfoldable pub listener_line : Listener → String → Option String
listener_line l evidence = find (λ line. includes line (location l)) (split 10 evidence)

unfoldable pub listener_owner_matches : Listener → String → Bool
listener_owner_matches l line = elim (match_of l) [
  | some prefix ↦ any (λ name. starts_with name (process_of l)) (quoted_names line)
  | _ ↦ any (λ name. name == process_of l) (quoted_names line)
]

-- An absent text, or an empty one, is falsy.
abbrev pub truthy : Option String → Option String
truthy none = none
truthy (some s) = if s == "" then none else some s

-- What a component is found to be, as the loop goes: status, reason and observations.
pub record Verdict : Type 0 where
  pub status : HealthStatus
  pub reason : Option String
  pub observed : List String

abbrev pub start : Verdict
start = record { status = healthy; reason = none; observed = [] }

-- Worsen the status, give a reason and note an observation.
abbrev pub note : Verdict → HealthStatus → Option String → String → Verdict
note v status reason seen = record {
  status = worsen v.status status;
  reason = reason;
  observed = v.observed ++ seen ∷ [];
}

abbrev is_unknown : HealthStatus → Bool
is_unknown unknown = true
is_unknown _ = false

-- `if (status === "unknown") reason = …`, after the status has been worsened by `unknown`.
abbrev pub note_unknown : Verdict → String → String → Verdict
note_unknown v reason seen =
    note v unknown (if is_unknown (worsen v.status unknown) then some reason else v.reason) seen

-- What the load state and the active state of a unit make of the verdict.
unfoldable pub by_state : Verdict → String → String → Verdict
by_state v load active =
    if not (load == "loaded")
    then record v { status = worsen v.status failed; reason = some "unit_not_loaded" }
    else if active == "activating"
    then record v { status = worsen v.status recovering; reason = some "unit_activating" }
    else if not (active == "active")
    then record v {
      status = worsen v.status failed;
      reason = some (if active == "failed" then "unit_failed" else "unit_inactive");
    }
    else v

-- The state of a unit that `systemctl show` printed.
unfoldable pub unit_state_verdict : Verdict → String → Verdict
unit_state_verdict v stdout =
    let state = systemd_properties stdout in
    let active = or_default (property "ActiveState" state) "unknown" in
    let sub = or_default (property "SubState" state) "unknown" in
    let pid = or_default (property "MainPID" state) "0" in
    by_state
      (record v { observed = v.observed ++ concat (active ∷ "/" ∷ sub ∷ " pid " ∷ pid ∷ []) ∷ [] })
      (or_default (property "LoadState" state) "") active

unfoldable pub exited_zero : Option ℕ → Bool
exited_zero none = false
exited_zero (some n) = eqb n 0

unfoldable pub unit_verdict : Verdict → CommandResult → Verdict
unit_verdict v r =
    if r.timed_out
    then note v unknown (some "probe_timeout") "systemd probe timed out"
    else if not (exited_zero r.exit_code)
    then note v unknown
        (some (if is_some r.exit_code then "systemd_unavailable" else "probe_unavailable"))
        "systemd state unavailable"
    else unit_state_verdict v r.stdout

-- The line of a listener in the evidence, or that there is none.
owner_verdict : Verdict → Listener → Option String → Verdict
owner_verdict v l none =
    note v failed (some "listener_missing") (concat (protocol_of l ∷ " listener missing" ∷ []))
owner_verdict v l (some line) =
    if line == ""
    then note v failed (some "listener_missing") (concat (protocol_of l ∷ " listener missing" ∷ []))
    else if not (listener_owner_matches l line)
    then note v failed (some "listener_owner_mismatch")
        (concat (protocol_of l ∷ " listener has a different owner" ∷ []))
    else record v {
      observed = v.observed ++ concat (process_of l ∷ " owns " ∷ location l ∷ []) ∷ [];
    }

-- One round of the loop over the listeners; `none` is the evidence that was not needed.
unfoldable pub listener_verdict : Verdict → Listener → Option CommandResult → Verdict
unfolding owner_verdict
listener_verdict v l none =
    note_unknown v "probe_timeout" (concat (protocol_of l ∷ " listener evidence timed out" ∷ []))
listener_verdict v l (some probe) =
    if probe.timed_out
    then note_unknown v "probe_timeout"
        (concat (protocol_of l ∷ " listener evidence timed out" ∷ []))
    else if not (exited_zero probe.exit_code)
    then note_unknown v
        (if is_some probe.exit_code then "permission_denied" else "probe_unavailable")
        (concat (protocol_of l ∷ " listener evidence unavailable" ∷ []))
    else owner_verdict v l (listener_line l probe.stdout)

-- The evidence that a listener is looked for in.
abbrev pub evidence_of :
    Listener → Option CommandResult → Option CommandResult → Option CommandResult
evidence_of (tcp _ _ _ _) tcp_evidence unix_evidence = tcp_evidence
evidence_of (unix _ _ _) tcp_evidence unix_evidence = unix_evidence

unfoldable pub listeners_verdict :
    Verdict → List Listener → Option CommandResult → Option CommandResult → Verdict
listeners_verdict v [] tcp_evidence unix_evidence = v
listeners_verdict v (l ∷ ls) tcp_evidence unix_evidence =
    listeners_verdict (listener_verdict v l (evidence_of l tcp_evidence unix_evidence)) ls
      tcp_evidence unix_evidence

abbrev pub listeners_of : HealthComponentFact → List Listener
listeners_of fact = or_default fact.listeners []

abbrev is_user : Option UnitScope → Bool
is_user (some user) = true
is_user _ = false

-- `--user --machine=<profile>@` for a user unit; an absent profile prints as `undefined`.
unfoldable pub scope_args : HealthComponentFact → List String
scope_args fact =
    if is_user fact.unit_scope
    then "--user" ∷ concat ("--machine=" ∷ or_default fact.profile "undefined" ∷ "@" ∷ []) ∷ []
    else []

unfoldable pub show_argv : HealthComponentFact → String → List String
show_argv fact unit =
    "systemctl"
    ∷ (scope_args fact
        ++ ("show" ∷ "--no-pager" ∷ "--property=LoadState" ∷ "--property=ActiveState"
            ∷ "--property=SubState" ∷ "--property=MainPID" ∷ unit ∷ []))

-- `safeRun`.
unfoldable pub safe_run : (List String → Option CommandResult) → List String → CommandResult
safe_run probe argv =
    or_default (probe argv)
      (record { stdout = ""; stderr = ""; exit_code = none; timed_out = false })

start_verdict : (List String → Option CommandResult) → HealthComponentFact → Option String → Verdict
start_verdict probe fact none = start
start_verdict probe fact (some unit) = unit_verdict start (safe_run probe (show_argv fact unit))

unit_expected : Option String → List String
unit_expected none = []
unit_expected (some unit) = concat (unit ∷ " active" ∷ []) ∷ []

unfoldable pub component_verdict :
    (List String → Option CommandResult)
    → HealthComponentFact
    → Option CommandResult
    → Option CommandResult
    → Verdict
unfolding start_verdict
component_verdict probe fact tcp_evidence unix_evidence =
    listeners_verdict (start_verdict probe fact (truthy fact.unit)) (listeners_of fact) tcp_evidence
      unix_evidence

unfoldable pub collect_component :
    (List String → Option CommandResult)
    → HealthComponentFact
    → Option CommandResult
    → Option CommandResult
    → HealthResult
unfolding unit_expected expected_listener
collect_component probe fact tcp_evidence unix_evidence =
    let v = component_verdict probe fact tcp_evidence unix_evidence in
    record {
      id = fact.id;
      profile = truthy fact.profile;
      status = v.status;
      expected = unit_expected (truthy fact.unit) ++ map expected_listener (listeners_of fact);
      observed = v.observed;
      reason = v.reason;
      recovery = fact.recovery;
    }

abbrev is_tcp : Listener → Bool
is_tcp (tcp _ _ _ _) = true
is_tcp (unix _ _ _) = false

unfoldable pub collect_host_document :
    (String → String → Bool)
    → (List String → Option CommandResult)
    → HealthFacts
    → String
    → HealthDocument
collect_host_document locale_before probe facts now =
    let needs_tcp =
      any (λ (c : HealthComponentFact). any is_tcp (listeners_of c)) facts.components in
    let needs_unix =
      any (λ (c : HealthComponentFact). any (λ l. not (is_tcp l)) (listeners_of c))
        facts.components in
    let tcp_evidence = if needs_tcp then some (safe_run probe ("ss" ∷ "-Hlnpt" ∷ [])) else none in
    let unix_evidence = if needs_unix then some (safe_run probe ("ss" ∷ "-Hxlpn" ∷ [])) else none in
    create_health_document locale_before now
      (map (λ fact. collect_component probe fact tcp_evidence unix_evidence) facts.components)
