-- ===== src/Examples/Reporting.antt =====
-- Reports on a host.
use remote_devbox.Base.{
  arith, ℕ, ◌+◌, ◌<◌, ◌≤◌, String, Bool, true, false, Option, none, some, List, [], ◌∷◌, ◌≡◌, ◌↔◌,
  refl, All, Memᴰ,
}
use mathlib.Core.Logic.{◌⊎◌}
use remote_devbox.Base.Sorting.{sort}
use remote_devbox.Json.{Json, nat, number, string, array, object, nil, cons, end, field, get}
use remote_devbox.Doctor.Types.{
  RcUnit, HealthResult, HealthDocument, healthy, degraded, failed, HealthFacts, HealthComponentFact,
  tcp, idle,
}
use remote_devbox.Doctor.Classify.{ClassifyOpts, classify_session}
use remote_devbox.Doctor.Classify.Cleanup.{classify_session-idle_iff}
use remote_devbox.Doctor.Conditions.{ConditionInput, orphan_condition, detect_conditions}
use remote_devbox.Doctor.Conditions.Orphans.{IsFailedUnit, IsOrphan, detect_conditions_iff}
use remote_devbox.Doctor.Report.{status_priority, worse, aggregate_status, create_health_document}
use remote_devbox.Doctor.Report.Aggregation.{aggregate_status-IsWorst}
use remote_devbox.Doctor.Report.Evidence.{health_document_from_evidence}
use remote_devbox.Doctor.Report.Evidence.Upkeep.{
  IsUp, IsElsewhere, health_document_from_evidence-healthy_iff,
}
use remote_devbox.Client.Health.{LocalHealthResult, combine_health}
use remote_devbox.Client.Health.Downstream.{IsSound, combine_health-healthy_iff}
use remote_devbox.Doctor.Collect.{CommandResult}
use remote_devbox.Doctor.Parsing.{
  ok, record_of, list_of, is_one, text_where, optional_where, choice_of, choice, is_component_id,
  is_profile_name, optional_choice,
}
use remote_devbox.Doctor.Facts.{
  parse_health_facts, parse_facts_from, parse_fact, is_service_unit, optional_listeners,
}
use remote_devbox.Doctor.Facts.Validity.{IsValidFact, Distinct, parse_health_facts-IsValid}
use remote_devbox.Doctor.Document.{
  parsed, parse_health_document, parse_components, parse_component, check_ids, strings, is_reason,
  read_health_snapshot,
}
use remote_devbox.Doctor.Document.Validity.{IsValidDocument, parse_health_document-IsValid}
use remote_devbox.Doctor.Document.Freshness.{
  IsFor, IsFreshHealthy, read_health_snapshot-shown_iff, read_health_snapshot-healthy_iff,
}
use remote_devbox.Examples.Hosts.{found, proxy_fact, show_output}

abbrev window : ClassifyOpts
window = record { now = 1000; activity_window_sec = 10; idle_after_sec = 600 }

classify_session-idle_iff_example : (classify_session (some 7) (some 100) window ≡ idle) ↔ (
    (p t : ℕ) × (some 7 ≡ some p)
    × (some 100 ≡ some t)
    × (t + window.activity_window_sec < window.now)
    × (t + window.idle_after_sec ≤ window.now))
classify_session-idle_iff_example = classify_session-idle_iff (some 7) (some 100) window

aggregate_status-IsWorst_example :
    All
      (λ s. status_priority s ≤ status_priority (aggregate_status (degraded ∷ failed ∷ [])))
      (degraded ∷ failed ∷ [])
    × ((aggregate_status (degraded ∷ failed ∷ []) ≡ healthy)
        ⊎ Memᴰ (aggregate_status (degraded ∷ failed ∷ [])) (degraded ∷ failed ∷ []))
aggregate_status-IsWorst_example = aggregate_status-IsWorst (degraded ∷ failed ∷ [])

abbrev never_before : String → String → Bool
never_before a b = false

abbrev one_date : String → Option ℕ
one_date s = some 100

abbrev components : List HealthResult
components =
    found "browser.proxy" failed (some "unit_failed") ∷ found "box.snapshot" healthy none ∷ []

abbrev input : ConditionInput
input = record {
  units = record { unit = "a.service"; loaded = true; active = "failed"; sub = "failed" } ∷ [];
  worktrees = record { path = "/w/one/"; branch = "b"; locked = false; cse = some "cse_1" } ∷ [];
  procs = record { pid = 4; cmd = "claude /w/two" } ∷ [];
}

abbrev failed_unit : RcUnit
failed_unit = record { unit = "a.service"; loaded = true; active = "failed"; sub = "failed" }

detect_conditions_iff_example :
    Memᴰ (orphan_condition "/w/one/" "cse_1") (detect_conditions input) ↔ (
      IsFailedUnit input.units (orphan_condition "/w/one/" "cse_1")
      ⊎ IsOrphan input.worktrees input.procs (orphan_condition "/w/one/" "cse_1"))
detect_conditions_iff_example = detect_conditions_iff input (orphan_condition "/w/one/" "cse_1")

health_document_from_evidence-healthy_iff_example :
    ((health_document_from_evidence never_before "now" (failed_unit ∷ []) []).status ≡ healthy)
    ↔ (All IsUp (failed_unit ∷ []) × All IsElsewhere [])
health_document_from_evidence-healthy_iff_example =
    health_document_from_evidence-healthy_iff never_before "now" (failed_unit ∷ []) []

abbrev proxy : HealthComponentFact
proxy = record proxy_fact { listeners = some (tcp "127.0.0.1" 9222 "haproxy" none ∷ []) }

abbrev probe : List String → Option CommandResult
probe argv = some show_output

abbrev facts_file : Json
facts_file = object (
    field "schemaVersion" (number (nat 1)) (
      field "components"
        (array (
          cons
            (object (
              field "id" (string "browser.proxy") (
                field "unit" (string "haproxy.service")
                  (field "recovery" (string "automatic") end))))
            nil))
        end))

abbrev read_facts : HealthFacts
read_facts = record { schema_version = 1; components = proxy_fact ∷ [] }

facts_read : parse_health_facts facts_file ≡ ok read_facts
unfolding parse_health_facts parse_facts_from parse_fact is_service_unit optional_choice
    optional_listeners record_of list_of is_one get text_where optional_where choice_of choice
    is_component_id is_profile_name
facts_read = refl

parse_health_facts-IsValid_example :
    All IsValidFact read_facts.components × Distinct read_facts.components
parse_health_facts-IsValid_example = parse_health_facts-IsValid facts_file read_facts facts_read

abbrev snapshot : Json
snapshot = object (
    field "schemaVersion" (number (nat 1)) (
      field "observedAt" (string "2026-01-01T00:00:00Z") (
        field "components"
          (array (
            cons
              (object (
                field "id" (string "browser.proxy") (
                  field "status" (string "healthy") (
                    field "recovery" (string "automatic")
                      (field "expected" (array nil) (field "observed" (array nil) end))))))
              nil))
          end)))

abbrev snapshot_document : HealthDocument
snapshot_document = record {
  schema_version = 1;
  status = healthy;
  observed_at = "2026-01-01T00:00:00Z";
  components = found "browser.proxy" healthy none ∷ [];
}

snapshot_read : parse_health_document never_before one_date snapshot ≡ ok snapshot_document
unfolding parse_health_document parse_components parse_component check_ids strings is_reason
    create_health_document aggregate_status worse sort record_of list_of is_one get text_where
    optional_where choice_of choice is_component_id is_profile_name
snapshot_read = refl

parse_health_document-IsValid_example : IsValidDocument snapshot_document
parse_health_document-IsValid_example =
    parse_health_document-IsValid never_before one_date snapshot snapshot_document snapshot_read

read_health_snapshot-shown_iff_example :
    let c = found "browser.proxy" healthy none in
    Memᴰ c
      (read_health_snapshot never_before one_date (parsed snapshot) "ada" 160 "now" 60).components
    ↔ (Memᴰ c snapshot_document.components × IsFor "ada" c)
read_health_snapshot-shown_iff_example =
    read_health_snapshot-shown_iff never_before one_date snapshot snapshot_document 100 "ada" 160
      "now" 60 (found "browser.proxy" healthy none) snapshot_read refl (omega arith) (omega arith)

read_health_snapshot-healthy_iff_example :
    ((read_health_snapshot never_before one_date (parsed snapshot) "ada" 160 "now" 60).status
      ≡ healthy)
    ↔ IsFreshHealthy never_before one_date (parsed snapshot) "ada" 160 60
read_health_snapshot-healthy_iff_example =
    read_health_snapshot-healthy_iff never_before one_date (parsed snapshot) "ada" 160 "now" 60

abbrev tunnel : LocalHealthResult
tunnel = record {
  result = found "client.rdp-tunnel.ada" healthy none;
  remote_component = some "browser.proxy";
}

combine_health-healthy_iff_example :
    ((combine_health never_before snapshot_document (tunnel ∷ []) "now").status ≡ healthy) ↔ (
      All (λ (c : HealthResult). c.status ≡ healthy) snapshot_document.components
      × All (IsSound snapshot_document.components) (tunnel ∷ []))
combine_health-healthy_iff_example =
    combine_health-healthy_iff never_before snapshot_document (tunnel ∷ []) "now"
