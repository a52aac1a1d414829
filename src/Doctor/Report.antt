-- ===== src/Doctor/Report.antt =====
-- box/doctor/src/report.ts: status priority, aggregation and the health document.
-- `a.id.localeCompare(b.id) < 0` is the parameter `locale_before`, since the collation is not the
-- program's; `toISOString` of the observation time is a text argument.
pub mod Aggregation
pub mod Evidence
use remote_devbox.Base.{ℕ, String, Bool, List, [], ◌∷◌, map, ltb, if◌then◌else◌}
use remote_devbox.Base.Sorting.{sort}
use remote_devbox.Doctor.Types.{
  HealthStatus, healthy, degraded, recovering, blocked, failed, unknown, HealthResult,
  HealthDocument,
}

abbrev pub status_priority : HealthStatus → ℕ
status_priority healthy = 0
status_priority recovering = 1
status_priority degraded = 2
status_priority unknown = 3
status_priority blocked = 4
status_priority failed = 5

-- The step of the `reduce`.
unfoldable pub worse : HealthStatus → HealthStatus → HealthStatus
worse worst status = if ltb (status_priority worst) (status_priority status) then status else worst

aggregate_from : HealthStatus → List HealthStatus → HealthStatus
aggregate_from worst [] = worst
aggregate_from worst (s ∷ ss) = aggregate_from (worse worst s) ss

unfoldable pub aggregate_status : List HealthStatus → HealthStatus
unfolding aggregate_from
aggregate_status statuses = aggregate_from healthy statuses

abbrev pub status_of : HealthResult → HealthStatus
status_of c = c.status

module _ (locale_before : String → String → Bool) where
  abbrev pub id_before : HealthResult → HealthResult → Bool
  id_before a b = locale_before a.id b.id

  unfoldable pub create_health_document : String → List HealthResult → HealthDocument
  create_health_document observed_at components =
      let sorted = sort id_before components in
      record {
        schema_version = 1;
        status = aggregate_status (map status_of sorted);
        observed_at = observed_at;
        components = sorted;
      }
