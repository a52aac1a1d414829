-- ===== src/Client/Health/Downstream.antt =====
-- When the combined document is healthy.
use remote_devbox.Base.{
  All-append_iff, String, Bool, Option, none, some, List, [], ◌∷◌, ◌++◌, ◌≡◌, ◌↔◌, refl, All,
}
use remote_devbox.Doctor.Types.{
  HealthResult, HealthDocument, HealthStatus, healthy, degraded, recovering, blocked, failed,
  unknown,
}
use remote_devbox.Doctor.Collect.{truthy}
use remote_devbox.Doctor.Report.Aggregation.{create_health_document-healthy_iff}
use remote_devbox.Client.Health.{
  LocalHealthResult, remote_of, by_remote_status, by_remote, by_local_status, downstream_result,
  by_dependency, combined, combine_health,
}

abbrev IsHealthy : HealthResult → Type 0
IsHealthy c = c.status ≡ healthy

-- The box has the component, and it is healthy.
abbrev pub IsPresentHealthy : Option HealthResult → Type 0
IsPresentHealthy none = ⊥
IsPresentHealthy (some remote) = remote.status ≡ healthy

-- The component of the box that is depended on, if any, is there and healthy.
abbrev pub IsSupported : Option String → List HealthResult → Type 0
IsSupported none box = Unit
IsSupported (some id) box = IsPresentHealthy (remote_of id box)

by_remote_status-healthy_iff :
    (s : HealthStatus) (base remote : HealthResult)
    → base.status ≡ healthy
    → IsHealthy (by_remote_status s base remote) ↔ (s ≡ healthy)
unfolding by_remote_status
by_remote_status-healthy_iff healthy base remote e = (λ h. refl, λ h. e)
by_remote_status-healthy_iff degraded base remote e = (λ h. h, λ h. h)
by_remote_status-healthy_iff recovering base remote e = (λ h. h, λ h. h)
by_remote_status-healthy_iff blocked base remote e = (λ h. h, λ h. h)
by_remote_status-healthy_iff failed base remote e = (λ h. h, λ h. h)
by_remote_status-healthy_iff unknown base remote e = (λ h. h, λ h. h)

by_remote-healthy_iff :
    (base : HealthResult) (remote : Option HealthResult)
    → base.status ≡ healthy
    → IsHealthy (by_remote base remote) ↔ IsPresentHealthy remote
unfolding by_remote
by_remote-healthy_iff base none e = (λ h. absurd (cc), λ h. elim h [ ])
by_remote-healthy_iff base (some remote) e =
    by_remote_status-healthy_iff remote.status base remote e

by_local_status-healthy_iff :
    (s : HealthStatus) (base : HealthResult) (remote : Option HealthResult)
    → base.status ≡ s
    → IsHealthy (by_local_status s base remote) ↔ ((s ≡ healthy) × IsPresentHealthy remote)
unfolding by_local_status
by_local_status-healthy_iff healthy base remote e =
    let iff = by_remote-healthy_iff base remote e in (λ h. (refl, iff.0 h), λ h. iff.1 h.1)
by_local_status-healthy_iff degraded base remote e =
    (λ h. absurd (cc), λ h. absurd (let r = h.0 in cc))
by_local_status-healthy_iff recovering base remote e =
    (λ h. absurd (cc), λ h. absurd (let r = h.0 in cc))
by_local_status-healthy_iff blocked base remote e =
    (λ h. absurd (cc), λ h. absurd (let r = h.0 in cc))
by_local_status-healthy_iff failed base remote e =
    (λ h. absurd (cc), λ h. absurd (let r = h.0 in cc))
by_local_status-healthy_iff unknown base remote e =
    (λ h. absurd (cc), λ h. absurd (let r = h.0 in cc))

by_dependency-IsHealthy_iff :
    (o : Option String) (base : HealthResult) (box : List HealthResult)
    → IsHealthy (by_dependency o base box) ↔ (IsHealthy base × IsSupported o box)
unfolding by_dependency downstream_result
by_dependency-IsHealthy_iff none base box = (λ h. (h, tt), λ h. h.0)
by_dependency-IsHealthy_iff (some id) base box =
    by_local_status-healthy_iff base.status base (remote_of id box) refl

-- A local component is healthy by itself, and so is what it depends on.
abbrev pub IsSound : List HealthResult → LocalHealthResult → Type 0
IsSound box l = IsHealthy l.result × IsSupported (truthy l.remote_component) box

combined-IsHealthy_iff :
    (box : List HealthResult) (ls : List LocalHealthResult)
    → All IsHealthy (combined box ls) ↔ All (IsSound box) ls
unfolding combined
combined-IsHealthy_iff box [] = (λ h. tt, λ h. tt)
combined-IsHealthy_iff box (l ∷ ls) =
    let one = by_dependency-IsHealthy_iff (truthy l.remote_component) l.result box in
    let rest = combined-IsHealthy_iff box ls in
    (λ (h, k). (one.0 h, rest.0 k), λ (h, k). (one.1 h, rest.1 k))

-- The combined document is healthy exactly if every component of the box is, and every component of
-- the client is healthy by itself and depends on no component of the box, or on one that is there
-- and healthy.
pub combine_health-healthy_iff :
    (before : String → String → Bool) (box : HealthDocument) (ls : List LocalHealthResult)
    (now : String)
    → ((combine_health before box ls now).status ≡ healthy) ↔ (
        All (λ (c : HealthResult). c.status ≡ healthy) box.components
        × All (IsSound box.components) ls)
unfolding combine_health
combine_health-healthy_iff before box ls now =
    let mine = combined box.components ls in
    let whole = create_health_document-healthy_iff before now (box.components ++ mine) in
    let parts = All-append_iff IsHealthy box.components mine in
    let locals = combined-IsHealthy_iff box.components ls in
    (
      λ h. ((parts.0 (whole.0 h)).0, locals.0 (parts.0 (whole.0 h)).1),
      λ (h, k). whole.1 (parts.1 (h, locals.1 k)),
    )
