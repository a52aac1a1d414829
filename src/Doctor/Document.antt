-- ===== src/Doctor/Document.antt =====
-- box/doctor/src/document.ts: a health document read back from JSON, and the snapshot of a profile.
-- Times are milliseconds counted from the earliest instant that a JavaScript `Date` holds, so they
-- are naturals and their differences are those of `getTime`. `Date.parse` is the parameter
-- `date_parse`, `none` where it answers NaN; `locale_before` orders ids as `localeCompare` does.
pub mod Validity
pub mod Freshness
use remote_devbox.Base.{
  ℕ, suc, ◌+◌, String, Bool, true, false, ◌&&◌, ◌||◌, not, Option, none, some, List, [], ◌∷◌, ◌==◌,
  concat, decimal, codes, word, one_of, is_lower, is_digit, if◌then◌else◌, any, is_some, filter,
  ltb, opt_is,
}
use remote_devbox.Json.{Json, string, array, items, Fields, get}
use remote_devbox.Doctor.Types.{HealthResult, HealthDocument, HealthStatus, unknown, RecoveryPolicy}
use remote_devbox.Doctor.Report.{create_health_document}
use remote_devbox.Doctor.Parsing.{
  Result, ok, err, ◌>>=◌, ◌>>◌, guard, record_of, list_of, Failure, invalid, unsupported_schema,
  message, is_one, is_component_id, is_profile_name, text_where, optional_where, choice_of,
  policies, statuses,
}

abbrev reason_char : ℕ → Bool
reason_char c = is_lower c || is_digit c || one_of (codes "_") c

-- `/^[a-z0-9_]+$/`.
unfoldable pub is_reason : String → Bool
is_reason s = word reason_char reason_char (codes s)

all_texts : List Json → Failure → Result (List String)
all_texts [] e = ok []
all_texts (string s ∷ vs) e = do ss ← all_texts vs e; ok (s ∷ ss)
all_texts (_ ∷ vs) e = err e

-- `strings(value, label)`.
unfoldable pub strings : Option Json → String → Result (List String)
unfolding all_texts
strings value label = do
  vs ← list_of value (message label " must be a string list" "")
  all_texts vs (message label " must be a string list" "")

unfoldable pub parse_component : ℕ → Json → Result HealthResult
parse_component index value = do
  raw ← record_of (some value) (concat ("health component " ∷ decimal index ∷ []))
  id ←
      text_where is_component_id (get "id" raw)
        (message "invalid health component id at index " (decimal index) "")
  profile ←
      optional_where is_profile_name (get "profile" raw) (message "invalid profile for '" id "'")
  status ← choice_of statuses (get "status" raw) (message "invalid status for '" id "'")
  recovery ← choice_of policies (get "recovery" raw) (message "invalid recovery for '" id "'")
  reason ← optional_where is_reason (get "reason" raw) (message "invalid reason for '" id "'")
  expected ← strings (get "expected" raw) (concat ("expected for '" ∷ id ∷ "'" ∷ []))
  observed ← strings (get "observed" raw) (concat ("observed for '" ∷ id ∷ "'" ∷ []))
  ok (record {
    id = id;
    profile = profile;
    status = status;
    expected = expected;
    observed = observed;
    reason = reason;
    recovery = recovery;
  })

-- `components.map(parseComponent)` from an index on.
unfoldable pub parse_components : ℕ → List Json → Result (List HealthResult)
parse_components index [] = ok []
parse_components index (v ∷ vs) = do
  c ← parse_component index v
  cs ← parse_components (suc index) vs
  ok (c ∷ cs)

-- The loop that throws at the second component with an id.
unfoldable pub check_ids : List String → List HealthResult → Result (Unit {0})
check_ids seen [] = ok tt
check_ids seen (c ∷ cs) =
    guard (not (any (λ s. s == c.id) seen)) (message "duplicate component '" c.id "'")
    >> check_ids (c.id ∷ seen) cs

-- What `readFileSync` and `JSON.parse` give at the path of a snapshot.
pub data SnapshotFile : Type 0 where
  missing unreadable : SnapshotFile
  parsed : Json → SnapshotFile

-- `component.profile === undefined || component.profile === options.profile`.
abbrev pub visible : String → HealthResult → Bool
visible profile c = not (is_some c.profile) || opt_is c.profile profile

module _ (locale_before : String → String → Bool) (date_parse : String → Option ℕ) where
  finite_date : String → Bool
  finite_date s = is_some (date_parse s)

  unfoldable pub parse_health_document : Json → Result HealthDocument
  unfolding finite_date
  parse_health_document value = do
    raw ← record_of (some value) "health document"
    guard (is_one (get "schemaVersion" raw)) unsupported_schema
    observed_at ← text_where finite_date (get "observedAt" raw) (invalid "invalid observedAt")
    vs ← list_of (get "components" raw) (invalid "health components must be a list")
    components ← parse_components 0 vs
    check_ids [] components
    ok (create_health_document locale_before observed_at components)

  -- `now` is the instant and `now_text` its `toISOString`.
  unfoldable pub unavailable : String → String → HealthDocument
  unavailable reason now_text = create_health_document locale_before now_text (
      record {
        id = "box.snapshot";
        profile = none;
        status = unknown;
        expected = "fresh schema version 1 host health snapshot" ∷ [];
        observed = reason ∷ [];
        reason = some reason;
        recovery = RecoveryPolicy.none;
      }
      ∷ [])

  -- The document, if it is of an instant within the bounds; `age < -5000` is `now + 5000 < at`.
  unfoldable pub fresh_part : String → ℕ → String → ℕ → HealthDocument → Option ℕ → HealthDocument
  fresh_part profile now now_text max_age document none =
      create_health_document locale_before document.observed_at
        (filter (visible profile) document.components)
  fresh_part profile now now_text max_age document (some at) =
      if ltb (now + 5000) at
      then unavailable "snapshot_clock_skew" now_text
      else if ltb (at + max_age) now
      then unavailable "snapshot_stale" now_text
      else create_health_document locale_before document.observed_at
          (filter (visible profile) document.components)

  -- After the `try`: what is thrown is reported, a document goes on.
  unfoldable pub parsed_part : Result HealthDocument → String → ℕ → String → ℕ → HealthDocument
  parsed_part (err unsupported_schema) profile now now_text max_age =
      unavailable "unsupported_schema" now_text
  parsed_part (err (invalid _)) profile now now_text max_age =
      unavailable "snapshot_invalid" now_text
  parsed_part (ok document) profile now now_text max_age =
      fresh_part profile now now_text max_age document (date_parse document.observed_at)

  -- `max_age` is `options.maxAgeMs ?? 45_000`.
  unfoldable pub read_health_snapshot : SnapshotFile → String → ℕ → String → ℕ → HealthDocument
  read_health_snapshot missing profile now now_text max_age =
      unavailable "snapshot_missing" now_text
  read_health_snapshot unreadable profile now now_text max_age =
      unavailable "snapshot_invalid" now_text
  read_health_snapshot (parsed value) profile now now_text max_age =
      parsed_part (parse_health_document value) profile now now_text max_age
