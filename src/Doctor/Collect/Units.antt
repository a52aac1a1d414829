-- ===== src/Doctor/Collect/Units.antt =====
-- What the state of a unit makes of a component.
use remote_devbox.Base.{
  String, true, false, Option, none, some, [], ◌∷◌, concat, ◌++◌, ◌==◌, ◌≡◌, Bool-cases, refl, ◌↔◌,
  ◌≢◌, arith, eq_iff, or_default, inl, inr,
}
use remote_devbox.Doctor.Types.{
  HealthStatus, healthy, degraded, blocked, unknown, failed, recovering,
}
use remote_devbox.Doctor.Report.{status_priority}
use remote_devbox.Doctor.Collect.Properties.{systemd_properties, property}
use remote_devbox.Doctor.Collect.{
  by_state, CommandResult, worsen, Verdict, unit_state_verdict, exited_zero, unit_verdict,
}

-- `systemctl show` answered, and the unit is loaded and active.
abbrev pub IsActive : CommandResult → Type 0
IsActive r =
    (r.timed_out ≡ false)
    × (exited_zero r.exit_code ≡ true)
    × (property "LoadState" (systemd_properties r.stdout) ≡ some "loaded")
    × (property "ActiveState" (systemd_properties r.stdout) ≡ some "active")

-- A verdict with a reason exactly where it is not healthy.
abbrev pub IsExplained : Verdict → Type 0
IsExplained v = (v.status ≡ healthy) ↔ (v.reason ≡ none)

default-is :
    (o : Option String) (d s : String)
    → (d == s) ≡ false
    → ((or_default o d == s) ≡ true) ↔ (o ≡ some s)
default-is none d s h = (λ e. cc, λ e. cc)
default-is (some t) d s h = ground (arith, eq_iff t s)

priority_zero_iff : (s : HealthStatus) → (status_priority s ≡ 0) ↔ (s ≡ healthy)
priority_zero_iff healthy = ground arith
priority_zero_iff degraded = ground arith
priority_zero_iff recovering = ground arith
priority_zero_iff blocked = ground arith
priority_zero_iff failed = ground arith
priority_zero_iff unknown = ground arith

worsen-healthy_iff : (a b : HealthStatus) → (worsen a b ≡ healthy) ↔ ((a ≡ healthy) × (b ≡ healthy))
unfolding worsen
worsen-healthy_iff a b = ground (arith, priority_zero_iff a, priority_zero_iff b)

pub worsen_never : (a b : HealthStatus) → b ≢ healthy → worsen a b ≢ healthy
worsen_never a b h e = h ((worsen-healthy_iff a b).0 e).1

by_state-healthy_iff :
    (v : Verdict) (load active : String)
    → ((by_state v load active).status ≡ healthy)
      ↔ ((v.status ≡ healthy) × ((load == "loaded") ≡ true) × ((active == "active") ≡ true))
unfolding by_state
by_state-healthy_iff v load active = elim (Bool-cases (load == "loaded")) [
  | inl e ↦ elim (Bool-cases (active == "active")) [
    | inl k ↦ rw (e, (eq_iff active "active").0 k) (λ h. (h, refl, refl), λ h. h.0)
    | inr k ↦ elim (Bool-cases (active == "activating")) [
      | inl n ↦
          rw (e, k, n)
            (λ h. absurd (worsen_never v.status recovering (λ q. cc) h), λ (h, l, a). absurd (cc))
      | inr n ↦
          rw (e, k, n)
            (λ h. absurd (worsen_never v.status failed (λ q. cc) h), λ (h, l, a). absurd (cc))
    ]
  ]
  | inr e ↦ rw e (λ h. absurd (worsen_never v.status failed (λ q. cc) h), λ (h, l, a). absurd (cc))
]

by_state-IsExplained :
    (v : Verdict) (load active : String) → IsExplained v → IsExplained (by_state v load active)
unfolding by_state
by_state-IsExplained v load active h =
    ground (arith, worsen-healthy_iff v.status failed, worsen-healthy_iff v.status recovering)

unit_state_verdict-healthy_iff :
    (v : Verdict) (out : String)
    → ((unit_state_verdict v out).status ≡ healthy) ↔ (
        (v.status ≡ healthy)
        × (property "LoadState" (systemd_properties out) ≡ some "loaded")
        × (property "ActiveState" (systemd_properties out) ≡ some "active"))
unfolding unit_state_verdict
unit_state_verdict-healthy_iff v out =
    let state = systemd_properties out in
    let active = or_default (property "ActiveState" state) "unknown" in
    let sub = or_default (property "SubState" state) "unknown" in
    let pid = or_default (property "MainPID" state) "0" in
    let load_iff = default-is (property "LoadState" state) "" "loaded" refl in
    let active_iff = default-is (property "ActiveState" state) "unknown" "active" refl in
    let iff =
      by_state-healthy_iff
        (record v {
          observed = v.observed ++ concat (active ∷ "/" ∷ sub ∷ " pid " ∷ pid ∷ []) ∷ [];
        })
        (or_default (property "LoadState" state) "") active in
    (
      λ h. ((iff.0 h).0, load_iff.0 (iff.0 h).1, active_iff.0 (iff.0 h).2),
      λ (h, l, a). iff.1 (h, load_iff.1 l, active_iff.1 a),
    )

unit_state_verdict-IsExplained :
    (v : Verdict) (out : String) → IsExplained v → IsExplained (unit_state_verdict v out)
unfolding unit_state_verdict
unit_state_verdict-IsExplained v out h = by_state-IsExplained (record v { observed = _ }) _ _ h

pub unit_verdict-healthy_iff :
    (v : Verdict) (r : CommandResult)
    → ((unit_verdict v r).status ≡ healthy) ↔ ((v.status ≡ healthy) × IsActive r)
unfolding unit_verdict worsen
unit_verdict-healthy_iff v r = ground (arith, unit_state_verdict-healthy_iff v r.stdout)

pub unit_verdict-IsExplained :
    (v : Verdict) (r : CommandResult) → IsExplained v → IsExplained (unit_verdict v r)
unfolding unit_verdict worsen
unit_verdict-IsExplained v r h = ground (arith, unit_state_verdict-IsExplained v r.stdout)
