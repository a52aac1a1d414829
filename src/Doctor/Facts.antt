-- ===== src/Doctor/Facts.antt =====
-- box/doctor/src/facts.ts: the facts file, checked field by field. A thrown error is `err` with its
-- message.
mod Listeners
pub mod Validity
use remote_devbox.Base.{
  ℕ, suc, String, Bool, true, false, ◌&&◌, ◌||◌, not, Option, none, some, List, [], ◌∷◌, ◌==◌,
  concat, decimal, codes, one_of, is_alnum, if◌then◌else◌, any, eqb, is_some,
}
use remote_devbox.Json.{Json, array, items, Fields, get}
use remote_devbox.Doctor.Types.{HealthFacts, HealthComponentFact, UnitScope, system, user, Listener}
use remote_devbox.Doctor.Parsing.{
  Result, ok, err, ◌>>=◌, ◌>>◌, guard, record_of, list_of, Failure, invalid, message, is_one,
  is_component_id, is_profile_name, text_where, optional_where, choice_of, policies,
  optional_choice,
}
use Listeners.{optional_listeners}
pub use Listeners.{IsValidPort, ListenersValid, optional_listeners-Valid}
unfoldable pub use Listeners.{
  optional_listeners, parse_listener, is_process_name, is_address, is_socket_path, port_of,
}

abbrev unit_char : ℕ → Bool
unit_char c = is_alnum c || one_of (codes "_.@-") c

abbrev same_codes : List ℕ → List ℕ → Bool
same_codes [] [] = true
same_codes (c ∷ cs) (d ∷ ds) = eqb c d && same_codes cs ds
same_codes _ _ = false

-- `[A-Za-z0-9_.@-]+[.]service$` from here: one character of the class, and then either the suffix
-- alone or one more character.
unit_from : List ℕ → Bool
unit_from [] = false
unit_from (c ∷ cs) = unit_char c && (same_codes cs (codes ".service") || unit_from cs)

-- `/^[A-Za-z0-9_.@-]+[.]service$/`.
unfoldable pub is_service_unit : String → Bool
unfolding unit_from
is_service_unit s = unit_from (codes s)

abbrev scopes : List (String × UnitScope)
scopes = ("system", system) ∷ ("user", user) ∷ []

abbrev is_user : Option UnitScope → Bool
is_user (some user) = true
is_user _ = false

-- One round of the `map`; `seen` are the ids of the rounds before.
unfoldable pub parse_fact : List String → ℕ → Json → Result HealthComponentFact
parse_fact seen index value = do
  component ← record_of (some value) (concat ("health component " ∷ decimal index ∷ []))
  id ←
      text_where is_component_id (get "id" component)
        (message "invalid component id at index " (decimal index) "")
  guard (not (any (λ s. s == id) seen)) (message "duplicate component id '" id "'")
  profile ←
      optional_where is_profile_name (get "profile" component)
        (message "invalid profile for '" id "'")
  recovery ←
      choice_of policies (get "recovery" component) (message "invalid recovery policy for '" id "'")
  unit ← optional_where is_service_unit (get "unit" component) (message "invalid unit for '" id "'")
  unit_scope ←
      optional_choice scopes (get "unitScope" component) (message "invalid unit scope for '" id "'")
  guard (not (is_user unit_scope) || is_some profile)
      (message "user unit '" id "' requires a profile")
  listeners ←
      optional_listeners (get "listeners" component)
        (message "listeners for '" id "' must be a list")
  ok (record {
    id = id;
    profile = profile;
    unit = unit;
    unit_scope = unit_scope;
    listeners = listeners;
    recovery = recovery;
  })

unfoldable pub parse_facts_from : List String → ℕ → List Json → Result (List HealthComponentFact)
parse_facts_from seen index [] = ok []
parse_facts_from seen index (v ∷ vs) = do
  fact ← parse_fact seen index v
  facts ← parse_facts_from (fact.id ∷ seen) (suc index) vs
  ok (fact ∷ facts)

unfoldable pub parse_health_facts : Json → Result HealthFacts
parse_health_facts value = do
  raw ← record_of (some value) "health facts"
  guard (is_one (get "schemaVersion" raw)) (invalid "unsupported health facts schema")
  components ← list_of (get "components" raw) (invalid "health facts components must be a list")
  facts ← parse_facts_from [] 0 components
  ok (record { schema_version = 1; components = facts })
