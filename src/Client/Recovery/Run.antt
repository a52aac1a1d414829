-- ===== src/Client/Recovery/Run.antt =====
-- `runRecoverySelection` of clients/devbox/src/recovery.ts. The host, what a collection and an
-- action do to it, and the wait are parameters; `none` stands for a call that throws.
pub mod Selection
pub mod Eligibility
use remote_devbox.Client.Recovery.{RecoveryDecision, run, skip, refuse, decide_recovery}
use remote_devbox.Doctor.Recover.{component}
use remote_devbox.Base.{
  [], ◌∷◌, ◌++◌, concat, filter, is_empty, zero, suc, ℕ, String, Bool, Option, none, some, List,
  ◌==◌, if◌then◌else◌,
}
use remote_devbox.Doctor.Types.{HealthResult, HealthDocument, HealthStatus, healthy}
use remote_devbox.Client.Recovery.Registry.{
  RecoveryRegistration, Ownership, box_systemd, unowned, recovery_registration_for,
}

pub data ActionStatus : Type 0 where
  acted action_blocked action_failed : ActionStatus

pub record RecoveryActionResult : Type 0 where
  pub status : ActionStatus
  pub reason : String

pub record RecoverySelectionResult : Type 0 where
  pub exit_code : ℕ
  pub lines : List String

-- What the loop over the selected components keeps; `asked` lists the components that the action
-- was called for.
pub record Progress (Host : Type 0) : Type 0 where
  pub host : Host
  pub lines : List String
  pub broken : Bool
  pub asked : List String

module _ {Host : Type 0} where
  -- `lines.push(…)`.
  abbrev pub say : Progress Host → List String → Progress Host
  say p words = record p { lines = p.lines ++ concat words ∷ [] }

  -- `failed = true; lines.push(…)`.
  abbrev pub complain : Progress Host → List String → Progress Host
  complain p words = record p { lines = p.lines ++ concat words ∷ []; broken = Bool.true }

abbrev is_healthy : HealthStatus → Bool
is_healthy healthy = Bool.true
is_healthy _ = Bool.false

-- `post?.status === "healthy"`.
abbrev pub found_healthy : Option HealthResult → Bool
found_healthy none = Bool.false
found_healthy (some post) = is_healthy post.status

abbrev pub look_up : String → Option HealthDocument → Option HealthResult
look_up id none = none
look_up id (some doc) = component id doc

abbrev pub action_word : ActionStatus → String
action_word acted = "acted"
action_word action_blocked = "blocked"
action_word action_failed = "failed"

module _ {Host : Type 0} (collect : Host → Option HealthDocument × Host)
    (act : HealthResult → RecoveryRegistration → Host → Option RecoveryActionResult × Host)
    (wait : ℕ → Host → Host) where
  -- The loop of probes: a collection that throws, or what the last one found. The loop ends at the
  -- first probe that finds the component healthy.
  after_probe :
      Option HealthDocument
      → Option HealthResult
      → Host
      → Option (Option HealthResult) × Host
      → Option (Option HealthResult) × Host
  after_probe none post h rest = (none, h)
  after_probe (some doc) post h rest = if found_healthy post then (some post, h) else rest

  unfoldable pub probe_from :
      ℕ → Bool → String → Option HealthResult → Host → Option (Option HealthResult) × Host
  unfolding after_probe
  probe_from zero later id post h = (some post, h)
  probe_from (suc attempts) later id post h =
      let step = collect (if later then wait 1000 h else h) in
      let seen = look_up id step.0 in
      after_probe step.0 seen step.1 (probe_from attempts Bool.true id seen step.1)

  by_post :
      HealthResult → String → Option (Option HealthResult) → Progress Host → Bool × Progress Host
  by_post c reason none p = (Bool.false, p)
  by_post c reason (some post) p =
      if found_healthy post
      then (Bool.true, say p (c.id ∷ " recovered: healthy after " ∷ reason ∷ []))
      else (Bool.true, complain p (c.id ∷ " failed: post_probe_failed" ∷ []))

  by_action_status :
      ActionStatus
      → String
      → HealthResult
      → RecoveryRegistration
      → Progress Host
      → Bool × Progress Host
  by_action_status acted reason c registered p =
      let probed = probe_from registered.max_attempts Bool.false c.id none p.host in
      by_post c reason probed.0 (record p { host = probed.1 })
  by_action_status status reason c registered p =
      (Bool.true, complain p (c.id ∷ " " ∷ action_word status ∷ ": " ∷ reason ∷ []))

  by_action :
      HealthResult
      → RecoveryRegistration
      → Option RecoveryActionResult
      → Progress Host
      → Bool × Progress Host
  by_action c registered none p = (Bool.false, p)
  by_action c registered (some action) p =
      by_action_status action.status action.reason c registered p

  perform : HealthResult → RecoveryRegistration → Progress Host → Bool × Progress Host
  perform c registered p =
      let step = act c registered p.host in
      by_action c registered step.0 (record p { host = step.1; asked = p.asked ++ c.id ∷ [] })

  by_ownership :
      Ownership → HealthResult → RecoveryRegistration → Progress Host → Bool × Progress Host
  by_ownership box_systemd c registered p = (
    Bool.true,
    complain p (
        c.id ∷ " operator-required: sudo /usr/local/libexec/remote-devbox-doctor recover " ∷ c.id
        ∷ []),
  )
  by_ownership unowned c registered p =
      (Bool.true, complain p (c.id ∷ " refused: recovery_not_supported" ∷ []))
  by_ownership _ c registered p = perform c registered p

  by_decision :
      RecoveryDecision → HealthResult → RecoveryRegistration → Progress Host → Bool × Progress Host
  by_decision (skip reason) c registered p = (Bool.true, say p (c.id ∷ " skipped: " ∷ reason ∷ []))
  by_decision (refuse reason) c registered p =
      (Bool.true, complain p (c.id ∷ " refused: " ∷ reason ∷ []))
  by_decision (run _) c registered p = by_ownership registered.ownership c registered p

  by_registration :
      Option RecoveryRegistration → HealthResult → Progress Host → Bool × Progress Host
  by_registration none c p =
      (Bool.true, complain p (c.id ∷ " refused: component_not_registered" ∷ []))
  by_registration (some registered) c p = by_decision (decide_recovery c registered) c registered p

  -- One round of the loop: whether it ended without a throw.
  unfoldable pub recover_one : HealthResult → Progress Host → Bool × Progress Host
  unfolding by_registration by_decision by_ownership perform by_action by_action_status by_post
  recover_one c p = by_registration (recovery_registration_for c.id) c p

  unfoldable pub recover_each : List HealthResult → Progress Host → Bool × Progress Host
  recover_each [] p = (Bool.true, p)
  recover_each (c ∷ cs) p =
      let one = recover_one c p in let rest = recover_each cs one.1 in if one.0 then rest else one

  unfoldable pub selected : String → HealthDocument → List HealthResult
  selected target before =
      if target == "all"
      then before.components
      else filter (λ (c : HealthResult). c.id == target) before.components

  ended : Bool × Progress Host → Option RecoverySelectionResult × Progress Host
  ended done = (
    if done.0
        then some (record { exit_code = if done.1.broken then 1 else 0; lines = done.1.lines })
        else none,
    done.1,
  )

  by_before :
      String
      → Option HealthDocument
      → Progress Host
      → Option RecoverySelectionResult × Progress Host
  by_before target none p = (none, p)
  by_before target (some before) p =
      let chosen = selected target before in
      if is_empty chosen
      then (
        some (record {
          exit_code = 1;
          lines = concat (target ∷ " refused: component_not_found" ∷ []) ∷ [];
        }),
        p,
      )
      else ended (recover_each chosen p)

  unfoldable pub run_recovery_selection :
      String → Host → Option RecoverySelectionResult × Progress Host
  unfolding by_before ended
  run_recovery_selection target h =
      let before = collect h in
      by_before target before.0
        (record { host = before.1; lines = []; broken = Bool.false; asked = [] })
