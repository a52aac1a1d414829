-- ===== src/Doctor/Document/Validity.antt =====
-- What a health document that parses promises.
use mathlib.Core.List.{Nodup, Nodup-cons, Nodup-nil}
use mathlib.Core.List.Perm
use mathlib.Core.Logic.{∥∥₁_elim}
use mathlib.Core.HLevel.{⊥_prop}
use remote_devbox.Base.{
  ℕ, suc, String, Bool, true, false, Option, some, List, [], ◌∷◌, ◌≡◌, refl, ◌≢◌, Memᴰ, All, arith,
  any, not, ◌==◌, eq_iff, map,
}
use remote_devbox.Base.Sorting.{All-sort, sort-perm}
use remote_devbox.Json.{Json}
use remote_devbox.Doctor.Types.{HealthResult, HealthDocument}
use remote_devbox.Doctor.Parsing.{
  ok, Ensures, >>=-Ensures, guard-Ensures, ok-Ensures, text_where-ok, record_of, is_one, text_where,
  list_of, optional_where, choice_of, policies, statuses, is_component_id, is_profile_name, Passes,
  optional_where-Passes,
}
use remote_devbox.Doctor.Report.{create_health_document, id_before, aggregate_status, status_of}
use remote_devbox.Doctor.Document.{
  is_reason, strings, parse_component, parse_components, check_ids, finite_date,
  parse_health_document,
}

pub record IsValidComponent (c : HealthResult) : Type 0 where
  pub id : is_component_id c.id ≡ true
  pub profile : Passes is_profile_name c.profile
  pub reason : Passes is_reason c.reason

parse_component-IsValid :
    (index : ℕ) (v : Json) → Ensures IsValidComponent (parse_component index v)
unfolding parse_component
parse_component-IsValid index v = >>=-Ensures IsValidComponent (record_of (some v) _) _ λ raw _.
    >>=-Ensures IsValidComponent (text_where is_component_id _ _) _ λ id e-id.
      >>=-Ensures IsValidComponent (optional_where is_profile_name _ _) _ λ profile e-profile.
        >>=-Ensures IsValidComponent (choice_of statuses _ _) _ λ status _.
          >>=-Ensures IsValidComponent (choice_of policies _ _) _ λ recovery _.
            >>=-Ensures IsValidComponent (optional_where is_reason _ _) _ λ reason e-reason.
              >>=-Ensures IsValidComponent (strings _ _) _ λ expected _.
                >>=-Ensures IsValidComponent (strings _ _) _ λ observed _.
                  ok-Ensures IsValidComponent
                    (record {
                      id = id;
                      profile = profile;
                      status = status;
                      expected = expected;
                      observed = observed;
                      reason = reason;
                      recovery = recovery;
                    })
                    (record {
                      id = text_where-ok is_component_id _ _ e-id;
                      profile = optional_where-Passes is_profile_name _ _ profile e-profile;
                      reason = optional_where-Passes is_reason _ _ reason e-reason;
                    })

parse_components-IsValid :
    (index : ℕ) (vs : List Json) → Ensures (All IsValidComponent) (parse_components index vs)
unfolding parse_components
parse_components-IsValid index [] = ok-Ensures (All IsValidComponent) [] tt
parse_components-IsValid index (v ∷ vs) =
    >>=-Ensures (All IsValidComponent) (parse_component index v) _ λ c e.
      >>=-Ensures (All IsValidComponent) (parse_components (suc index) vs) _ λ cs es.
        ok-Ensures (All IsValidComponent) (c ∷ cs)
          (parse_component-IsValid index v c e, parse_components-IsValid (suc index) vs cs es)

abbrev pub id_of : HealthResult → String
id_of c = c.id

-- No id of the components is among `seen`, and none stands twice.
abbrev AreNew : List String → List HealthResult → Type 0
AreNew seen cs =
    All (λ (c : HealthResult). any (λ s. s == c.id) seen ≡ false) cs × Nodup (map id_of cs)

any-cons_false :
    (s t : String) (seen : List String)
    → any (λ r. r == t) (s ∷ seen) ≡ false
    → (s ≢ t) × (any (λ r. r == t) seen ≡ false)
any-cons_false s t seen h = ground (arith, eq_iff s t)

AreNew-cons :
    (s : String) (seen : List String) (cs : List HealthResult)
    → All (λ (c : HealthResult). any (λ t. t == c.id) (s ∷ seen) ≡ false) cs
    → All (λ (c : HealthResult). any (λ t. t == c.id) seen ≡ false) cs × (Memᴰ s (map id_of cs) → ⊥)
AreNew-cons s seen [] h = (tt, λ m. elim m [ ])
AreNew-cons s seen (c ∷ cs) (new, h) =
    let (rest, out) = AreNew-cons s seen cs h in
    let (other, new') = any-cons_false s c.id seen new in ((new', rest), not_mem other out)
  where
    not_mem : s ≢ c.id → (Memᴰ s (map id_of cs) → ⊥) → Memᴰ s (map id_of (c ∷ cs)) → ⊥
    not_mem other out (Memᴰ.head e) = other e
    not_mem other out (Memᴰ.tail m) = out m

not-true : (b : Bool) → not b ≡ true → b ≡ false
not-true b h = ground arith

check_ids-AreNew :
    (seen : List String) (cs : List HealthResult) → check_ids seen cs ≡ ok tt → AreNew seen cs
unfolding check_ids
check_ids-AreNew seen [] h = (tt, Nodup-nil)
check_ids-AreNew seen (c ∷ cs) h =
    guard-Ensures (λ _. AreNew seen (c ∷ cs)) (not (any (λ s. s == c.id) seen)) _
      (check_ids (c.id ∷ seen) cs)
      (λ new _ h'.
        let (fresh, distinct) = check_ids-AreNew (c.id ∷ seen) cs h' in
        let (rest, out) = AreNew-cons c.id seen cs fresh in
        ((not-true _ new, rest), Nodup-cons.1 (λ m. ∥∥₁_elim m ⊥_prop out, distinct)))
      tt h

-- Valid components with distinct ids.
abbrev pub IsValidDocument : HealthDocument → Type 0
IsValidDocument document =
    All IsValidComponent document.components
    × Nodup (map id_of document.components)
    × (document.status ≡ aggregate_status (map status_of document.components))

create_health_document-IsValid :
    (before : String → String → Bool) (at : String) (cs : List HealthResult)
    → All IsValidComponent cs
    → Nodup (map id_of cs)
    → IsValidDocument (create_health_document before at cs)
unfolding create_health_document
create_health_document-IsValid before at cs valid distinct = (
  All-sort (id_before before) IsValidComponent cs valid,
  Perm.nodup (Perm.map id_of (Perm.symm (sort-perm (id_before before) cs))) distinct,
  refl,
)

-- Of a health document that parses, every id, profile and reason has the allowed form, no two
-- components share an id, and the status is the worst of the components', whatever the file said.
pub parse_health_document-IsValid :
    (before : String → String → Bool) (date_parse : String → Option ℕ) (v : Json)
    (document : HealthDocument)
    → parse_health_document before date_parse v ≡ ok document
    → IsValidDocument document
unfolding parse_health_document
parse_health_document-IsValid before date_parse v =
    >>=-Ensures IsValidDocument (record_of (some v) _) _ λ raw _.
      guard-Ensures IsValidDocument (is_one _) _ _ λ _.
        >>=-Ensures IsValidDocument (text_where (finite_date before date_parse) _ _) _
          λ observed_at e. >>=-Ensures IsValidDocument (list_of _ _) _ λ vs _.
            >>=-Ensures IsValidDocument (parse_components 0 vs) _ λ cs es.
              >>=-Ensures IsValidDocument (check_ids [] cs) _ λ done ids.
                ok-Ensures IsValidDocument (create_health_document before observed_at cs) (
                  create_health_document-IsValid before observed_at cs
                    (parse_components-IsValid 0 vs cs es) (check_ids-AreNew [] cs ids).1)
