-- ===== src/Client/Recovery.antt =====
-- clients/devbox/src/recovery.ts: what `devbox recover` may do to an unhealthy component. The
-- document and result types of health.ts have the fields of the box's and are used for both.
pub mod Registry
pub mod Decisions
pub mod Run
use remote_devbox.Doctor.Recover.{component}
use remote_devbox.Base.{
  [], ◌∷◌, ◌++◌, concat, filter, is_empty, zero, suc, ℕ, String, Bool, Option, none, some, List,
  ◌==◌, any, if◌then◌else◌, not,
}
use remote_devbox.Doctor.Types.{
  HealthResult, HealthDocument, HealthStatus, healthy, degraded, recovering, blocked, failed,
  unknown, RecoveryPolicy, automatic, manual, confirmation_required,
}
use remote_devbox.Doctor.Collect.{truthy}
use Registry.{RecoveryRegistration, Ownership, box_systemd, unowned, recovery_registration_for}

pub data RecoveryDecision : Type 0 where
  run : RecoveryRegistration → RecoveryDecision
  skip refuse : String → RecoveryDecision

abbrev pub same_policy : RecoveryPolicy → RecoveryPolicy → Bool
same_policy automatic automatic = Bool.true
same_policy manual manual = Bool.true
same_policy confirmation_required confirmation_required = Bool.true
same_policy RecoveryPolicy.none RecoveryPolicy.none = Bool.true
same_policy _ _ = Bool.false

by_reason : Option String → RecoveryRegistration → RecoveryDecision
by_reason none registered = refuse "reason_not_allowlisted"
by_reason (some reason) registered =
    if any (λ r. r == reason) registered.recoverable_reasons
    then run registered
    else refuse "reason_not_allowlisted"

by_policy : RecoveryPolicy → Option String → RecoveryRegistration → RecoveryDecision
by_policy RecoveryPolicy.none reason registered = refuse "recovery_not_supported"
by_policy confirmation_required reason registered = refuse "confirmation_required"
by_policy _ reason registered = by_reason reason registered

by_recovery : RecoveryPolicy → Option String → RecoveryRegistration → RecoveryDecision
by_recovery recovery reason registered =
    if not (same_policy recovery registered.policy)
    then refuse "policy_mismatch"
    else by_policy registered.policy reason registered

by_status : HealthStatus → RecoveryPolicy → Option String → RecoveryRegistration → RecoveryDecision
by_status healthy recovery reason registered = skip "already_healthy"
by_status recovering recovery reason registered = skip "recovery_in_progress"
by_status unknown recovery reason registered = refuse "evidence_unknown"
by_status blocked recovery reason registered = refuse "component_blocked"
by_status _ recovery reason registered = by_recovery recovery reason registered

unfoldable pub decide_recovery : HealthResult → RecoveryRegistration → RecoveryDecision
unfolding by_status by_recovery by_policy by_reason
decide_recovery result registered =
    by_status result.status result.recovery (truthy result.reason) registered
