-- ===== src/Client/Health.antt =====
-- `combineHealth` of clients/devbox/src/health.ts: the box's document with the client's own
-- components, each held back by the box's component that it depends on. Aggregation and the making
-- of a document are those of the box, which health.ts has once more.
pub mod Downstream
use remote_devbox.Base.{
  String, Bool, true, false, not, Option, none, some, List, [], ◌∷◌, ◌++◌, ◌==◌, map, concat,
  if◌then◌else◌,
}
use remote_devbox.Doctor.Types.{
  HealthResult, HealthDocument, HealthStatus, healthy, degraded, recovering, blocked, failed,
  unknown,
}
use remote_devbox.Doctor.Report.{create_health_document}
use remote_devbox.Doctor.Report.Evidence.{status_text}
use remote_devbox.Doctor.Collect.{truthy}

-- The fields of the result, and the box's component that it depends on.
pub record LocalHealthResult : Type 0 where
  pub result : HealthResult
  pub remote_component : Option String

-- The entry of the map: of two components with an id the later one counts.
unfoldable pub remote_of : String → List HealthResult → Option HealthResult
remote_of id [] = none
remote_of id (c ∷ cs) =
    let later = remote_of id cs in
    elim later [ some r ↦ some r | none ↦ if c.id == id then some c else none ]

abbrev held_back : HealthResult → HealthStatus → String → String → HealthResult
held_back base status seen reason = record base {
  status = status;
  observed = base.observed ++ seen ∷ [];
  reason = some reason;
}

abbrev unavailable : HealthResult → HealthResult
unavailable base =
    held_back base unknown "downstream health evidence unavailable" "downstream_unknown"

abbrev seen_as : HealthResult → String
seen_as remote = concat (remote.id ∷ " " ∷ status_text remote.status ∷ [])

by_remote_status : HealthStatus → HealthResult → HealthResult → HealthResult
by_remote_status healthy base remote = base
by_remote_status unknown base remote = unavailable base
by_remote_status failed base remote =
    held_back base failed (seen_as remote) "downstream_unit_failed"
by_remote_status blocked base remote = held_back base blocked (seen_as remote) "downstream_blocked"
by_remote_status status base remote = held_back base status (seen_as remote) "downstream_unhealthy"

by_remote : HealthResult → Option HealthResult → HealthResult
by_remote base none = unavailable base
by_remote base (some remote) = by_remote_status remote.status base remote

by_local_status : HealthStatus → HealthResult → Option HealthResult → HealthResult
by_local_status healthy base remote = by_remote base remote
by_local_status _ base remote = base

unfoldable pub downstream_result : HealthResult → Option HealthResult → HealthResult
unfolding by_local_status by_remote by_remote_status
downstream_result base remote = by_local_status base.status base remote

by_dependency : Option String → HealthResult → List HealthResult → HealthResult
by_dependency none result box = result
by_dependency (some id) result box = downstream_result result (remote_of id box)

unfoldable pub combined : List HealthResult → List LocalHealthResult → List HealthResult
unfolding by_dependency
combined box [] = []
combined box (l ∷ ls) = by_dependency (truthy l.remote_component) l.result box ∷ combined box ls

unfoldable pub combine_health :
    (String → String → Bool) → HealthDocument → List LocalHealthResult → String → HealthDocument
combine_health locale_before box locals now =
    create_health_document locale_before now (box.components ++ combined box.components locals)
