-- ===== src/Doctor/Facts/Validity.antt =====
-- What a facts file that parses promises.
use remote_devbox.Base.{
  suc, All, ℕ, String, true, false, ◌||◌, not, Option, some, List, [], ◌∷◌, ◌==◌, ◌≡◌, ◌≢◌, arith,
  any, is_some, eq_iff,
}
use remote_devbox.Json.{Json}
use remote_devbox.Doctor.Types.{HealthFacts, HealthComponentFact, UnitScope, user}
use remote_devbox.Doctor.Parsing.{
  is_one, list_of, record_of, policies, >>=-Ensures, ok-Ensures, guard-Ensures, Ensures,
  text_where-ok, Passes, optional_where-Passes, ok, text_where, optional_where, choice_of,
  optional_choice, is_component_id, is_profile_name,
}
use remote_devbox.Doctor.Facts.{
  scopes, ListenersValid, optional_listeners-Valid, optional_listeners, parse_fact,
  parse_facts_from, parse_health_facts, is_service_unit, is_user,
}

pub record IsValidFact (f : HealthComponentFact) : Type 0 where
  pub id : is_component_id f.id ≡ true
  pub profile : Passes is_profile_name f.profile
  pub unit : Passes is_service_unit f.unit
  pub user_profile : f.unit_scope ≡ some user → (p : String) × (f.profile ≡ some p)
  pub listeners : ListenersValid f.listeners

-- No id twice.
abbrev pub Distinct : List HealthComponentFact → Type 0
Distinct [] = Unit
Distinct (f ∷ fs) = All (λ (g : HealthComponentFact). f.id ≢ g.id) fs × Distinct fs

abbrev pub IsNew : List String → HealthComponentFact → Type 0
IsNew seen f = any (λ s. s == f.id) seen ≡ false

user_profile :
    (scope : Option UnitScope) (profile : Option String)
    → (not (is_user scope) || is_some profile) ≡ true
    → scope ≡ some user
    → (p : String) × (profile ≡ some p)
user_profile scope profile h e = ground arith

abbrev IsFresh : List String → HealthComponentFact → Type 0
IsFresh seen f = IsValidFact f × IsNew seen f

parse_fact-IsFresh :
    (seen : List String) (index : ℕ) (v : Json) → Ensures (IsFresh seen) (parse_fact seen index v)
unfolding parse_fact
parse_fact-IsFresh seen index v = >>=-Ensures (IsFresh seen) (record_of (some v) _) _ λ component _.
    >>=-Ensures (IsFresh seen) (text_where is_component_id _ _) _ λ id e-id.
      guard-Ensures (IsFresh seen) (not (any (λ s. s == id) seen)) _ _ λ new.
        >>=-Ensures (IsFresh seen) (optional_where is_profile_name _ _) _ λ profile e-profile.
          >>=-Ensures (IsFresh seen) (choice_of policies _ _) _ λ recovery _.
            >>=-Ensures (IsFresh seen) (optional_where is_service_unit _ _) _ λ unit e-unit.
              >>=-Ensures (IsFresh seen) (optional_choice scopes _ _) _ λ scope _.
                guard-Ensures (IsFresh seen) (not (is_user scope) || is_some profile) _ _ λ owned.
                  >>=-Ensures (IsFresh seen) (optional_listeners _ _) _ λ listeners e-listeners.
                    ok-Ensures (IsFresh seen)
                      (record {
                        id = id;
                        profile = profile;
                        unit = unit;
                        unit_scope = scope;
                        listeners = listeners;
                        recovery = recovery;
                      })
                      (
                        record {
                          id = text_where-ok is_component_id _ _ e-id;
                          profile = optional_where-Passes is_profile_name _ _ profile e-profile;
                          unit = optional_where-Passes is_service_unit _ _ unit e-unit;
                          user_profile = user_profile scope profile owned;
                          listeners = optional_listeners-Valid _ _ listeners e-listeners;
                        },
                        ground arith,
                      )

-- Valid facts, none with an id of `seen`, and no two with one id.
abbrev IsValidList : List String → List HealthComponentFact → Type 0
IsValidList seen fs = All (IsFresh seen) fs × Distinct fs

IsNew-cons :
    (s : String) (seen : List String) (f : HealthComponentFact)
    → IsNew (s ∷ seen) f
    → (s ≢ f.id) × IsNew seen f
IsNew-cons s seen f h = ground (arith, eq_iff s f.id)

All-IsFresh-cons :
    (s : String) (seen : List String) (fs : List HealthComponentFact)
    → All (IsFresh (s ∷ seen)) fs
    → All (λ (g : HealthComponentFact). s ≢ g.id) fs × All (IsFresh seen) fs
All-IsFresh-cons s seen [] h = (tt, tt)
All-IsFresh-cons s seen (f ∷ fs) ((valid, new), h) =
    let (other, new') = IsNew-cons s seen f new in
    let (others, rest) = All-IsFresh-cons s seen fs h in ((other, others), ((valid, new'), rest))

parse_facts_from-IsValidList :
    (seen : List String) (index : ℕ) (vs : List Json)
    → Ensures (IsValidList seen) (parse_facts_from seen index vs)
unfolding parse_facts_from
parse_facts_from-IsValidList seen index [] = ok-Ensures (IsValidList seen) [] (tt, tt)
parse_facts_from-IsValidList seen index (v ∷ vs) =
    >>=-Ensures (IsValidList seen) (parse_fact seen index v) _ λ f e.
      >>=-Ensures (IsValidList seen) (parse_facts_from (f.id ∷ seen) (suc index) vs) _ λ fs es.
        let (fresh, distinct) = parse_facts_from-IsValidList (f.id ∷ seen) (suc index) vs fs es in
        let (others, rest) = All-IsFresh-cons f.id seen fs fresh in
        ok-Ensures (IsValidList seen) (f ∷ fs)
          ((parse_fact-IsFresh seen index v f e, rest), (others, distinct))

All-IsValidFact : (fs : List HealthComponentFact) → All (IsFresh []) fs → All IsValidFact fs
All-IsValidFact [] h = tt
All-IsValidFact (f ∷ fs) ((valid, _), h) = (valid, All-IsValidFact fs h)

abbrev IsValidFacts : HealthFacts → Type 0
IsValidFacts facts = All IsValidFact facts.components × Distinct facts.components

-- Of a facts file that parses, every component is valid and no two share an id: its id and its
-- profile have the allowed form, its unit is a service name, a user unit names a profile, and every
-- TCP port is one.
pub parse_health_facts-IsValid :
    (v : Json) (facts : HealthFacts)
    → parse_health_facts v ≡ ok facts
    → All IsValidFact facts.components × Distinct facts.components
unfolding parse_health_facts
parse_health_facts-IsValid v = >>=-Ensures IsValidFacts (record_of (some v) _) _ λ raw _.
    guard-Ensures IsValidFacts (is_one _) _ _ λ _. >>=-Ensures IsValidFacts (list_of _ _) _ λ vs _.
      >>=-Ensures IsValidFacts (parse_facts_from [] 0 vs) _ λ fs es.
        let (fresh, distinct) = parse_facts_from-IsValidList [] 0 vs fs es in
        ok-Ensures IsValidFacts (record { schema_version = 1; components = fs })
          (All-IsValidFact fs fresh, distinct)
