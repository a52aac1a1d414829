-- ===== src/Doctor/Document/Freshness.antt =====
-- What a profile is shown of the snapshot.
use remote_devbox.Base.{
  ◌↔◌, ℕ, ◌+◌, ◌≤◌, String, Bool, true, Option, none, some, [], ◌≡◌, ◌⊎◌, refl, All, arith, filter,
  filter_mem, Memᴰ, not, is_some, opt_is, ◌||◌, eq_iff, ap, ltb, Bool-cases, inl, inr,
}
use remote_devbox.Base.Options.{some_inj}
use remote_devbox.Base.Sorting.{sort, sort_mem}
use remote_devbox.Json.{Json}
use remote_devbox.Doctor.Types.{HealthResult, HealthDocument, healthy, unknown}
use remote_devbox.Doctor.Parsing.{
  Result, err, invalid, unsupported_schema, Ensures, >>=-Ensures, guard-Ensures, ok-Ensures,
  text_where-ok, record_of, is_one, text_where, list_of, ok,
}
use remote_devbox.Doctor.Report.{worse, create_health_document, id_before, aggregate_status}
use remote_devbox.Doctor.Report.Aggregation.{create_health_document-healthy_iff}
use remote_devbox.Doctor.Document.{
  parsed_part, finite_date, parse_components, check_ids, SnapshotFile, missing, unreadable, parsed,
  parse_health_document, unavailable, visible, fresh_part, read_health_snapshot,
}

-- A component of the whole host, or of the profile's own account.
abbrev pub IsFor : String → HealthResult → Type 0
IsFor profile c = (c.profile ≡ none) ⊎ (c.profile ≡ some profile)

visible_iff : (profile : String) (c : HealthResult) → (visible profile c ≡ true) ↔ IsFor profile c
visible_iff profile c = by_profile c.profile
  where
    by_profile :
        (o : Option String)
        → ((not (is_some o) || opt_is o profile) ≡ true) ↔ ((o ≡ none) ⊎ (o ≡ some profile))
    by_profile none = (λ h. inl refl, λ h. refl)
    by_profile (some t) = (
      λ h. inr (ap some ((eq_iff t profile).0 h)),
      λ h. elim h [ inl e ↦ absurd (cc) | inr e ↦ (eq_iff t profile).1 (some_inj e) ],
    )

module _ (before : String → String → Bool) (date_parse : String → Option ℕ) where
  unavailable-status :
      (reason now_text : String) → (unavailable before date_parse reason now_text).status ≡ unknown
  unfolding unavailable create_health_document sort aggregate_status worse
  unavailable-status reason now_text = refl

  -- A document whose instant is within the bounds, all of whose visible components are healthy.
  pub record IsFreshHealthy (file : SnapshotFile) (profile : String) (now max_age : ℕ)
      : Type 0 where
    pub value : Json
    pub document : HealthDocument
    pub at : ℕ
    pub read : file ≡ parsed value
    pub valid : parse_health_document before date_parse value ≡ ok document
    pub dated : date_parse document.observed_at ≡ some at
    pub not_ahead : at ≤ now + 5000
    pub not_stale : now ≤ at + max_age
    pub well :
        All
          (λ (c : HealthResult). c.status ≡ healthy)
          (filter (visible profile) document.components)

  abbrev IsDated : HealthDocument → Type 0
  IsDated document = (at : ℕ) × (date_parse document.observed_at ≡ some at)

  finite_date-some :
      (s : String) → finite_date before date_parse s ≡ true → (at : ℕ) × (date_parse s ≡ some at)
  unfolding finite_date
  finite_date-some s h = ground arith

  parse_health_document-IsDated :
      (value : Json) → Ensures IsDated (parse_health_document before date_parse value)
  unfolding parse_health_document create_health_document
  parse_health_document-IsDated value = >>=-Ensures IsDated (record_of (some value) _) _ λ raw _.
      guard-Ensures IsDated (is_one _) _ _ λ _.
        >>=-Ensures IsDated (text_where (finite_date before date_parse) _ _) _ λ observed_at e.
          >>=-Ensures IsDated (list_of _ _) _ λ vs _.
            >>=-Ensures IsDated (parse_components 0 vs) _ λ cs _.
              >>=-Ensures IsDated (check_ids [] cs) _ λ _ _.
                ok-Ensures IsDated (create_health_document before observed_at cs) (
                  finite_date-some observed_at
                    (text_where-ok (finite_date before date_parse) _ _ e))

  fresh_part-healthy :
      (profile : String) (now : ℕ) (now_text : String) (max_age : ℕ) (document : HealthDocument)
      (at : ℕ)
      → (fresh_part before date_parse profile now now_text max_age document (some at)).status
        ≡ healthy
      → (at ≤ now + 5000)
        × (now ≤ at + max_age)
        × All
            (λ (c : HealthResult). c.status ≡ healthy)
            (filter (visible profile) document.components)
  unfolding fresh_part
  fresh_part-healthy profile now now_text max_age document at h =
      elim (Bool-cases (ltb (now + 5000) at)) [
        | inl e ↦ absurd (cc (unavailable-status "snapshot_clock_skew" now_text, (rw e at h)))
        | inr e ↦ elim (Bool-cases (ltb (at + max_age) now)) [
          | inl f ↦ absurd (cc (unavailable-status "snapshot_stale" now_text, (rw (e, f) at h)))
          | inr f ↦ (
            ground arith,
            ground arith,
            (create_health_document-healthy_iff before document.observed_at _).0 (rw (e, f) at h),
          )
        ]
      ]

  parsed_part-healthy :
      (value : Json) (r : Result HealthDocument)
      → parse_health_document before date_parse value ≡ r
      → (profile : String) (now : ℕ) (now_text : String) (max_age : ℕ)
      → (parsed_part before date_parse r profile now now_text max_age).status ≡ healthy
      → IsFreshHealthy (parsed value) profile now max_age
  unfolding parsed_part
  parsed_part-healthy value (err unsupported_schema) e profile now now_text max_age h =
      absurd (cc (unavailable-status "unsupported_schema" now_text))
  parsed_part-healthy value (err (invalid m)) e profile now now_text max_age h =
      absurd (cc (unavailable-status "snapshot_invalid" now_text))
  parsed_part-healthy value (ok document) e profile now now_text max_age h =
      let (at, dated) = parse_health_document-IsDated value document e in
      let (not_ahead, not_stale, well) =
        fresh_part-healthy profile now now_text max_age document at (rw dated at h) in
      record {
        value = value;
        document = document;
        at = at;
        read = refl;
        valid = e;
        dated = dated;
        not_ahead = not_ahead;
        not_stale = not_stale;
        well = well;
      }

  read_health_snapshot-IsFreshHealthy :
      (file : SnapshotFile) (profile : String) (now : ℕ) (now_text : String) (max_age : ℕ)
      → (read_health_snapshot before date_parse file profile now now_text max_age).status ≡ healthy
      → IsFreshHealthy file profile now max_age
  unfolding read_health_snapshot
  read_health_snapshot-IsFreshHealthy missing profile now now_text max_age h =
      absurd (cc (unavailable-status "snapshot_missing" now_text))
  read_health_snapshot-IsFreshHealthy unreadable profile now now_text max_age h =
      absurd (cc (unavailable-status "snapshot_invalid" now_text))
  read_health_snapshot-IsFreshHealthy (parsed value) profile now now_text max_age h =
      parsed_part-healthy value (parse_health_document before date_parse value) refl profile now
        now_text max_age h

  fresh_part-within :
      (profile : String) (now : ℕ) (now_text : String) (max_age : ℕ) (document : HealthDocument)
      (at : ℕ)
      → at ≤ now + 5000
      → now ≤ at + max_age
      → fresh_part before date_parse profile now now_text max_age document (some at)
        ≡ create_health_document before document.observed_at
            (filter (visible profile) document.components)
  unfolding fresh_part
  fresh_part-within profile now now_text max_age document at h k = ground arith

  -- Of a snapshot that parses and is of an instant at most five seconds ahead and at most the given
  -- age old, a profile is shown exactly the components of the whole host and its own.
  pub read_health_snapshot-shown_iff :
      (value : Json) (document : HealthDocument) (at : ℕ) (profile : String) (now : ℕ)
      (now_text : String) (max_age : ℕ) (c : HealthResult)
      → parse_health_document before date_parse value ≡ ok document
      → date_parse document.observed_at ≡ some at
      → at ≤ now + 5000
      → now ≤ at + max_age
      → Memᴰ c
          (read_health_snapshot before date_parse
            (parsed value)
            profile
            now
            now_text
            max_age).components
        ↔ (Memᴰ c document.components × IsFor profile c)
  unfolding read_health_snapshot parsed_part create_health_document
  read_health_snapshot-shown_iff value document at profile now now_text max_age c valid dated ahead
        stale =
      let sorted = sort_mem (id_before before) (filter (visible profile) document.components) c in
      let kept = filter_mem (visible profile) document.components c in
      let own = visible_iff profile c in
      rw
        (
          read_health_snapshot,
          valid,
          parsed_part,
          dated,
          fresh_part-within profile now now_text max_age document at ahead stale,
        )
        (
          λ m. let (k, e) = kept.0 (sorted.0 m) in (k, own.0 e),
          λ (k, e). sorted.1 (kept.1 (k, own.1 e)),
        )

  healthy_of_IsFreshHealthy :
      (file : SnapshotFile) (profile : String) (now : ℕ) (now_text : String) (max_age : ℕ)
      → IsFreshHealthy file profile now max_age
      → (read_health_snapshot before date_parse file profile now now_text max_age).status ≡ healthy
  unfolding read_health_snapshot parsed_part
  healthy_of_IsFreshHealthy file profile now now_text max_age s =
      rw
        (
          s.read,
          read_health_snapshot,
          s.valid,
          parsed_part,
          s.dated,
          fresh_part-within profile now now_text max_age s.document s.at s.not_ahead s.not_stale,
        )
        ((create_health_document-healthy_iff before s.document.observed_at _).1 s.well)

  -- A reading is healthy exactly if the snapshot parses, is of an instant at most five seconds ahead
  -- and at most the given age old, and its components that the profile is shown are all healthy.
  pub read_health_snapshot-healthy_iff :
      (file : SnapshotFile) (profile : String) (now : ℕ) (now_text : String) (max_age : ℕ)
      → ((read_health_snapshot before date_parse file profile now now_text max_age).status
          ≡ healthy)
        ↔ IsFreshHealthy file profile now max_age
  read_health_snapshot-healthy_iff file profile now now_text max_age = (
    read_health_snapshot-IsFreshHealthy file profile now now_text max_age,
    healthy_of_IsFreshHealthy file profile now now_text max_age,
  )
