-- ===== src/Client/Recovery/Decisions.antt =====
-- When a component is recovered.
use remote_devbox.Base.{String, true, Option, none, some, ◌≡◌, ◌↔◌, ◌≢◌, refl, arith, any, ◌==◌}
use mathlib.Core.Logic.{◌⊎◌, inl, inr}
use remote_devbox.Doctor.Types.{
  HealthResult, HealthStatus, healthy, degraded, recovering, blocked, failed, unknown,
  RecoveryPolicy, automatic, manual, confirmation_required,
}
use remote_devbox.Doctor.Collect.{truthy}
use remote_devbox.Client.Recovery.Registry.{RecoveryRegistration}
use remote_devbox.Client.Recovery.{
  run, skip, same_policy, by_reason, by_policy, by_recovery, by_status, decide_recovery,
}

-- A reason that the registration lists.
abbrev pub IsListed : Option String → RecoveryRegistration → Type 0
IsListed none registered = ⊥
IsListed (some reason) registered = any (λ r. r == reason) registered.recoverable_reasons ≡ true

abbrev pub IsUnattended : RecoveryPolicy → Type 0
IsUnattended p = (p ≡ automatic) ⊎ (p ≡ manual)

same_policy_iff : (p q : RecoveryPolicy) → (same_policy p q ≡ true) ↔ (p ≡ q)
same_policy_iff automatic q = ground arith
same_policy_iff manual q = ground arith
same_policy_iff confirmation_required q = ground arith
same_policy_iff RecoveryPolicy.none q = ground arith

by_reason-run_iff :
    (o : Option String) (registered : RecoveryRegistration)
    → (by_reason o registered ≡ run registered) ↔ IsListed o registered
unfolding by_reason
by_reason-run_iff none registered = (λ h. absurd (cc), λ h. elim h [ ])
by_reason-run_iff (some r) registered = ground arith

by_policy-run_iff :
    (p : RecoveryPolicy) (o : Option String) (registered : RecoveryRegistration)
    → (by_policy p o registered ≡ run registered) ↔ (IsUnattended p × IsListed o registered)
unfolding by_policy
by_policy-run_iff automatic o registered =
    let iff = by_reason-run_iff o registered in (λ h. (inl refl, iff.0 h), λ h. iff.1 h.1)
by_policy-run_iff manual o registered =
    let iff = by_reason-run_iff o registered in (λ h. (inr refl, iff.0 h), λ h. iff.1 h.1)
by_policy-run_iff confirmation_required o registered =
    (λ h. absurd (cc), λ h. elim h.0 [ inl e ↦ absurd (cc) | inr e ↦ absurd (cc) ])
by_policy-run_iff RecoveryPolicy.none o registered =
    (λ h. absurd (cc), λ h. elim h.0 [ inl e ↦ absurd (cc) | inr e ↦ absurd (cc) ])

by_recovery-run_iff :
    (p : RecoveryPolicy) (o : Option String) (registered : RecoveryRegistration)
    → (by_recovery p o registered ≡ run registered)
      ↔ ((p ≡ registered.policy) × IsUnattended registered.policy × IsListed o registered)
unfolding by_recovery
by_recovery-run_iff p o registered =
    ground
      (arith, same_policy_iff p registered.policy, by_policy-run_iff registered.policy o registered)

abbrev IsBroken : HealthStatus → Type 0
IsBroken s = (s ≡ degraded) ⊎ (s ≡ failed)

no_repair : (s : HealthStatus) → IsBroken s → s ≢ degraded → s ≢ failed → ⊥
no_repair s (inl e) d f = d e
no_repair s (inr e) d f = f e

by_status-run_iff :
    (s : HealthStatus) (p : RecoveryPolicy) (o : Option String) (r : RecoveryRegistration)
    → (by_status s p o r ≡ run r)
      ↔ (((s ≡ degraded) ⊎ (s ≡ failed)) × (p ≡ r.policy) × IsUnattended r.policy × IsListed o r)
unfolding by_status
by_status-run_iff degraded p o r =
    let iff = by_recovery-run_iff p o r in
    (λ h. (inl refl, (iff.0 h).0, (iff.0 h).1, (iff.0 h).2), λ h. iff.1 (h.1, h.2, h.3))
by_status-run_iff failed p o r =
    let iff = by_recovery-run_iff p o r in
    (λ h. (inr refl, (iff.0 h).0, (iff.0 h).1, (iff.0 h).2), λ h. iff.1 (h.1, h.2, h.3))
by_status-run_iff healthy p o r =
    (λ h. absurd (cc), λ h. absurd (no_repair healthy h.0 (λ e. cc) (λ e. cc)))
by_status-run_iff recovering p o r =
    (λ h. absurd (cc), λ h. absurd (no_repair recovering h.0 (λ e. cc) (λ e. cc)))
by_status-run_iff unknown p o r =
    (λ h. absurd (cc), λ h. absurd (no_repair unknown h.0 (λ e. cc) (λ e. cc)))
by_status-run_iff blocked p o r =
    (λ h. absurd (cc), λ h. absurd (no_repair blocked h.0 (λ e. cc) (λ e. cc)))

by_status-same :
    (s : HealthStatus) (p : RecoveryPolicy) (o : Option String) (r q : RecoveryRegistration)
    → by_status s p o r ≡ run q
    → r ≡ q
unfolding by_status by_recovery by_policy by_reason
by_status-same s p none r q h = ground arith
by_status-same s p (some reason) r q h = ground arith

-- The registration that a decision to run carries is the one that was given.
pub decide_recovery-same :
    (result : HealthResult) (registered found : RecoveryRegistration)
    → decide_recovery result registered ≡ run found
    → registered ≡ found
unfolding decide_recovery
decide_recovery-same result registered found h =
    by_status-same result.status result.recovery (truthy result.reason) registered found h

by_status-skip :
    (s : HealthStatus) (p : RecoveryPolicy) (o : Option String) (r : RecoveryRegistration)
    (reason : String)
    → by_status s p o r ≡ skip reason
    → (s ≡ healthy) ⊎ (s ≡ recovering)
unfolding by_status by_recovery by_policy by_reason
by_status-skip s p none r reason h = ground arith
by_status-skip s p (some q) r reason h = ground arith

pub decide_recovery-skip :
    (result : HealthResult) (registered : RecoveryRegistration) (reason : String)
    → decide_recovery result registered ≡ skip reason
    → (result.status ≡ healthy) ⊎ (result.status ≡ recovering)
unfolding decide_recovery
decide_recovery-skip result registered reason h =
    by_status-skip result.status result.recovery (truthy result.reason) registered reason h

-- A component is recovered exactly when it is degraded or failed, its policy is the registered one
-- and needs no confirmation, and it has a reason that the registration lists.
pub decide_recovery-run_iff :
    (result : HealthResult) (registered : RecoveryRegistration)
    → (decide_recovery result registered ≡ run registered) ↔ (
        ((result.status ≡ degraded) ⊎ (result.status ≡ failed))
        × (result.recovery ≡ registered.policy)
        × IsUnattended registered.policy
        × IsListed (truthy result.reason) registered)
unfolding decide_recovery
decide_recovery-run_iff result registered =
    by_status-run_iff result.status result.recovery (truthy result.reason) registered
