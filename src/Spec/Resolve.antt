-- ===== src/Spec/Resolve.antt =====
-- clients/devbox/src/spec/resolve.ts: which of the declared names a project uses. An optional text
-- that is absent or empty is falsy.
pub mod Spaces
pub mod Choices
use remote_devbox.Base.{
  ℕ, String, Bool, true, false, Option, none, some, List, [], ◌∷◌, ◌==◌, any, concat, join, decimal,
  length, if◌then◌else◌,
}
use remote_devbox.Doctor.Collect.{truthy}
use remote_devbox.Spec.Issues.{Issue, err}

pub record Choice : Type 0 where
  pub value : Option String
  pub issue : Option Issue

abbrev pub chosen : Option String → Choice
chosen value = record { value = value; issue = none }

-- The sole candidate, nothing declared, or an ambiguity.
by_available : List String → String → String → Choice
by_available [] path what = chosen none
by_available (one ∷ []) path what = chosen (some one)
by_available available path what = record {
  value = none;
  issue = some (
      err path (
        concat (
          decimal (length available)
          ∷ " "
          ∷ what
          ∷ "s are declared ("
          ∷ join ", " available
          ∷ ") but neither a default nor a per-project choice — pick one"
          ∷ [])));
}

by_fallback : Option String → List String → String → String → Choice
by_fallback (some fallback) available path what = chosen (some fallback)
by_fallback none available path what = by_available available path what

by_override : Option String → Option String → List String → String → String → Choice
by_override (some override) fallback available path what = chosen (some override)
by_override none fallback available path what = by_fallback fallback available path what

unfoldable pub choose_named : Option String → Option String → List String → String → String → Choice
unfolding by_override by_fallback by_available
choose_named override fallback available path what =
    by_override (truthy override) (truthy fallback) available path what

-- The fields of a developer's memory section and agent profiles that are read here.
pub record Memory : Type 0 where
  pub enabled : Option Bool
  pub default_space : Option String
  pub spaces : List String

pub record SpaceDeveloper : Type 0 where
  pub memory : Option Memory
  pub agent_profiles : List (String × Option String)

-- `dev.agent_profiles?.[agentProfile]?.memory_space`.
unfoldable pub profile_space : String → List (String × Option String) → Option String
profile_space name [] = none
profile_space name ((key, space) ∷ rest) = if key == name then space else profile_space name rest

from_agent : Option String → List (String × Option String) → Option String
from_agent none profiles = none
from_agent (some name) profiles = profile_space name profiles

-- `none` as a literal is null.
abbrev pub literal : String → Option String
literal space = if space == "none" then none else some space

by_agent : Option String → Memory → String → Choice
by_agent (some space) memory path = chosen (literal space)
by_agent none memory path = choose_named none memory.default_space memory.spaces path "memory space"

by_project : Option String → Option String → Memory → String → Choice
by_project (some space) agent memory path = chosen (literal space)
by_project none agent memory path = by_agent agent memory path

is_on : Option Bool → Bool
is_on (some true) = true
is_on _ = false

by_memory : Option Memory → Option String → Option String → String → Choice
by_memory none project agent path = chosen none
by_memory (some memory) project agent path =
    if is_on memory.enabled then by_project project agent memory path else chosen none

unfoldable pub resolve_memory_space :
    SpaceDeveloper → Option String → Option String → String → Choice
unfolding by_memory by_project by_agent from_agent is_on
resolve_memory_space dev project_space agent_profile path =
    by_memory dev.memory (truthy project_space)
      (truthy (from_agent (truthy agent_profile) dev.agent_profiles)) path
