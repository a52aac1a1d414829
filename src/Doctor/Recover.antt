-- ===== src/Doctor/Recover.antt =====
-- box/doctor/src/recover.ts: the guarded recovery of one component of a host. The host is a
-- parameter: what it answers to a command, how a fresh health document is collected on it, and the
-- optional test for an active turn. `none` stands for a call that throws.
pub mod Commands
pub mod Guards
pub mod Actions
pub mod Verdicts
use Prim.Native.String
use remote_devbox.Base.{
  ℕ, String, Bool, true, false, ◌&&◌, ◌||◌, not, Option, none, some, List, [], ◌∷◌, ◌++◌, ◌==◌,
  concat, if◌then◌else◌, or_default, eqb, leb, length, codes, find, opt_is,
}
use mathlib.Core.Option.{map as map_option}
use mathlib.Core.Logic.{◌⊎◌, inl, inr}
use text.Mathlib.Text.{starts_with}
use remote_devbox.Doctor.Types.{
  HealthResult, HealthDocument, HealthStatus, healthy, failed, degraded, recovering, blocked,
  unknown, HealthFacts, HealthComponentFact, RecoveryPolicy, automatic, manual,
  confirmation_required,
}
use remote_devbox.Doctor.Parsing.{is_component_id}
use remote_devbox.Doctor.Collect.{CommandResult, truthy, scope_args, exited_zero}

pub data RecoveryStatus : Type 0 where
  recovered skipped refused broken : RecoveryStatus

pub record BoxRecoveryResult : Type 0 where
  pub status : RecoveryStatus
  pub reason : String

abbrev pub refuse : String → BoxRecoveryResult
refuse reason = record { status = refused; reason = reason }

-- The guards before any evidence is collected: a refusal, or the component and its unit.
by_policy :
    RecoveryPolicy
    → HealthComponentFact
    → String
    → BoxRecoveryResult ⊎ (HealthComponentFact × String)
by_policy automatic fact unit = inr (fact, unit)
by_policy manual fact unit = inr (fact, unit)
by_policy confirmation_required fact unit = inl (refuse "confirmation_required")
by_policy _ fact unit = inl (refuse "recovery_not_supported")

by_unit : Option String → HealthComponentFact → BoxRecoveryResult ⊎ (HealthComponentFact × String)
by_unit none fact = inl (refuse "component_not_allowlisted")
by_unit (some unit) fact = by_policy fact.recovery fact unit

by_fact : Option HealthComponentFact → BoxRecoveryResult ⊎ (HealthComponentFact × String)
by_fact none = inl (refuse "component_not_allowlisted")
by_fact (some fact) = by_unit (truthy fact.unit) fact

is_root : Option ℕ → Bool
is_root none = false
is_root (some n) = eqb n 0

unfoldable pub admit :
    String → Option ℕ → HealthFacts → BoxRecoveryResult ⊎ (HealthComponentFact × String)
unfolding is_root by_fact by_unit by_policy
admit id uid facts =
    if not (is_root uid)
    then inl (refuse "root_required")
    else if not (is_component_id id)
    then inl (refuse "component_not_allowlisted")
    else by_fact (find (λ (c : HealthComponentFact). c.id == id) facts.components)

-- What the fresh document says of the component: an answer, or to go on.
by_status : HealthStatus → Option BoxRecoveryResult
by_status healthy = some (record { status = skipped; reason = "already_healthy" })
by_status failed = none
by_status _ = some (refuse "component_not_failed")

unfoldable pub judge : Option HealthResult → Option BoxRecoveryResult
unfolding by_status
judge none = some (refuse "evidence_missing")
judge (some before) = by_status before.status

after_status : HealthStatus → BoxRecoveryResult
after_status healthy = record { status = recovered; reason = "component_healthy" }
after_status _ = record { status = broken; reason = "post_recovery_unhealthy" }

-- The answer from the document collected after the actions.
unfoldable pub conclude : Option HealthResult → BoxRecoveryResult
unfolding after_status
conclude none = record { status = broken; reason = "post_recovery_unhealthy" }
conclude (some after) = after_status after.status

unfoldable pub component : String → HealthDocument → Option HealthResult
component id doc = find (λ (c : HealthResult). c.id == id) doc.components

-- `value.slice(0, -n)`.
unfoldable pub drop_end : ℕ → String → String
drop_end n String.[] = ""
drop_end n (String.◌∷◌ c s) =
    let rest = drop_end n s in
    if leb (length (codes (String.◌∷◌ c s))) n then "" else String.◌∷◌ c rest

unfoldable pub systemctl_args : HealthComponentFact → String → String → List String
systemctl_args fact unit action = "systemctl" ∷ (scope_args fact ++ (action ∷ unit ∷ []))

pub tmux_args : String → String → List String
tmux_args profile unit =
    "runuser" ∷ "-u" ∷ profile ∷ "--" ∷ "tmux" ∷ "-L" ∷ drop_end 8 unit ∷ "has-session" ∷ []

unfoldable pub command_failed : Option CommandResult → Bool
command_failed none = true
command_failed (some r) = r.timed_out || not (exited_zero r.exit_code)

-- An answer that is late, missing or zero counts as a session.
unfoldable pub session_there : CommandResult → Bool
session_there r = r.timed_out || elim r.exit_code [ none ↦ true | some n ↦ eqb n 0 ]

abbrev pub actions : List String
actions = "reset-failed" ∷ "start" ∷ []

-- The host, and the systemctl actions that were sent to it so far.
pub record World (Host : Type 0) : Type 0 where
  pub host : Host
  pub issued : List (List String)

module _ {Host : Type 0} (run : List String → Host → Option CommandResult × Host)
    (collect_fresh : Host → Option HealthDocument × Host)
    (has_active_turn : Option (HealthComponentFact → Host → Option Bool × Host)) where
  probe_turn : Option String → Option String → Host → Option Bool × Host
  probe_turn (some unit) (some profile) h =
      let step = run (tmux_args profile unit) h in (map_option session_there step.0, step.1)
  probe_turn _ _ h = (some true, h)

  unfoldable pub default_active_turn : HealthComponentFact → Host → Option Bool × Host
  unfolding probe_turn
  default_active_turn fact h =
      if not (starts_with fact.id "remote-control.")
      then (some true, h)
      else probe_turn (truthy fact.unit) (truthy fact.profile) h

  -- The turn is looked for only at a remote-control component.
  unfoldable pub active_turn : HealthComponentFact → Host → Option Bool × Host
  active_turn fact h =
      if starts_with fact.id "remote-control."
      then or_default has_active_turn default_active_turn fact h
      else (some false, h)

  -- The loop over the actions: whether all of them succeeded.
  unfoldable pub act : HealthComponentFact → String → List String → World Host → Bool × World Host
  act fact unit [] w = (true, w)
  act fact unit (action ∷ rest) w =
      let argv = systemctl_args fact unit action in
      let step = run argv w.host in
      let sent : World Host = record { host = step.1; issued = w.issued ++ argv ∷ [] } in
      let others = act fact unit rest sent in
      if command_failed step.0 then (false, sent) else others

  unfoldable pub finish : String → World Host → Option BoxRecoveryResult × World Host
  finish id w =
      let fresh = collect_fresh w.host in
      (map_option (λ doc. conclude (component id doc)) fresh.0, record w { host = fresh.1 })

  unfoldable pub attempt :
      String → HealthComponentFact → String → World Host → Option BoxRecoveryResult × World Host
  attempt id fact unit w =
      let done = act fact unit actions w in
      let finished = finish id done.1 in
      if done.0
      then finished
      else (some (record { status = broken; reason = "systemd_action_failed" }), done.1)

  unfoldable pub by_turn :
      String
      → HealthComponentFact
      → String
      → Option Bool
      → World Host
      → Option BoxRecoveryResult × World Host
  by_turn id fact unit none w = (none, w)
  by_turn id fact unit (some true) w = (some (refuse "active_session"), w)
  by_turn id fact unit (some false) w = attempt id fact unit w

  unfoldable pub by_judgement :
      String
      → HealthComponentFact
      → String
      → Option BoxRecoveryResult
      → World Host
      → Option BoxRecoveryResult × World Host
  by_judgement id fact unit (some answer) w = (some answer, w)
  by_judgement id fact unit none w =
      let turn = active_turn fact w.host in by_turn id fact unit turn.0 (record w { host = turn.1 })

  unfoldable pub by_fresh :
      String
      → HealthComponentFact
      → String
      → Option HealthDocument
      → World Host
      → Option BoxRecoveryResult × World Host
  by_fresh id fact unit none w = (none, w)
  by_fresh id fact unit (some doc) w = by_judgement id fact unit (judge (component id doc)) w

  unfoldable pub by_admission :
      String
      → BoxRecoveryResult ⊎ (HealthComponentFact × String)
      → World Host
      → Option BoxRecoveryResult × World Host
  by_admission id (inl answer) w = (some answer, w)
  by_admission id (inr (fact, unit)) w =
      let fresh = collect_fresh w.host in
      by_fresh id fact unit fresh.0 (record w { host = fresh.1 })

  unfoldable pub recover_box_component :
      String → Option ℕ → HealthFacts → World Host → Option BoxRecoveryResult × World Host
  recover_box_component id uid facts w = by_admission id (admit id uid facts) w
