-- ===== src/Spec/Sections.antt =====
-- The parts of a spec that validateReferences of clients/devbox/src/spec/references.ts reads, and
-- its checks of one section each; resolve.ts reads the same records. The records have the fields of the spec that are read here; a mapping
-- of which only the keys are read is the list of its keys, empty where it is absent.
use remote_devbox.Base.{
  ℕ, String, Bool, true, false, not, ◌&&◌, ◌||◌, Option, none, some, List, [], ◌∷◌, ◌++◌, ◌==◌, map,
  any, concat, join, decimal, is_empty, is_some, length, if◌then◌else◌,
}
use remote_devbox.Doctor.Collect.{truthy}
use remote_devbox.Json.{Json}
use remote_devbox.Spec.Issues.{Issue, err, warn}
use remote_devbox.Spec.McpPorts.{BrowserSpec}

-- The fields of `remote_control` that a project and the box may both state; the resources and the
-- build environment are mappings.
pub record RcFields : Type 0 where
  pub enabled : Option Bool
  pub spawn : Option String
  pub capacity : Option ℕ
  pub resources : List (String × Json)
  pub build_env : List (String × Json)

-- `remote_control: false`, or a mapping with a name; an absent one is a mapping without fields.
pub data ProjectRemoteControl : Type 0 where
  off : ProjectRemoteControl
  stated : (name : Option String) → RcFields → ProjectRemoteControl

pub record ProjectSpec : Type 0 where
  pub name : String
  pub repo : String
  pub branch : Option String
  pub install : Option Bool
  pub update : Option Bool
  pub remote_control : ProjectRemoteControl
  pub git_identity : Option String
  pub agent_profile : Option String
  pub memory_space : Option String
  pub container_engine : Option String
  pub ports : List ℕ

-- Each space with its instance.
pub record MemorySpec : Type 0 where
  pub enabled : Option Bool
  pub default_space : Option String
  pub instances : List String
  pub spaces : List (String × String)

pub record DesktopSpec : Type 0 where
  pub enabled : Bool
  pub access : List String

pub record AgentProfileSpec : Type 0 where
  pub provider : Option String
  pub memory_space : Option String

pub record DeveloperSpec : Type 0 where
  pub user : String
  pub git_identities : List String
  pub default_git_identity : Option String
  pub agent_profiles : List (String × AgentProfileSpec)
  pub default_agent_profile : Option String
  pub memory : Option MemorySpec
  pub desktop : Option DesktopSpec
  pub container_engine : Option String
  pub browser : Option Bool
  pub projects : List ProjectSpec

-- Each agent profile with its memory space.
abbrev pub profile_spaces : List (String × AgentProfileSpec) → List (String × Option String)
profile_spaces profiles = map (λ (p : String × AgentProfileSpec). (p.0, p.1.memory_space)) profiles

pub record RuntimeLimit : Type 0 where
  pub user : String
  pub engine : String

pub record DevboxSpec : Type 0 where
  pub operator_user : String
  pub tailscale_enabled : Bool
  pub install_engines : List String
  pub default_engine : Option String
  pub remote_control : RcFields
  pub runtime_limits : List RuntimeLimit
  pub browser : BrowserSpec
  pub chrome_user : Option String
  pub developers : List DeveloperSpec

abbrev pub is_declared : String → List String → Bool
is_declared value names = any (λ n. n == value) names

abbrev pub is_space_ref : String → List String → Bool
is_space_ref value spaces = value == "none" || is_declared value spaces

abbrev pub is_engine_installed : List String → String → Bool
is_engine_installed engines engine = engine == "none" || is_declared engine engines

unfoldable pub unknown_ref : String → String → String → List String → Issue
unknown_ref path value what available = err path (
    concat (
      "unknown "
      ∷ what
      ∷ " '"
      ∷ value
      ∷ "'"
      ∷ (if is_empty available
          then " (none declared)"
          else concat (" (declared: " ∷ join ", " available ∷ ")" ∷ []))
      ∷ []))

unfoldable pub uninstalled_engine : String → String → List String → Issue
uninstalled_engine path engine engines = err path (
    concat (
      "container engine '"
      ∷ engine
      ∷ "' is not in container.install_engines ("
      ∷ join ", " engines
      ∷ ")"
      ∷ []))

-- `if (value && !test(value)) issues.push(issue)`.
unfoldable pub check_ref : (String → Bool) → (String → Issue) → Option String → List Issue
check_ref test issue none = []
check_ref test issue (some value) = if test value then [] else issue value ∷ []

unfoldable pub named_ref : String → String → List String → Option String → List Issue
unfolding check_ref unknown_ref
named_ref path what names value =
    check_ref (λ v. is_declared v names) (λ v. unknown_ref path v what names) (truthy value)

unfoldable pub space_ref : String → List String → Option String → List Issue
unfolding check_ref unknown_ref
space_ref path spaces value =
    check_ref (λ v. is_space_ref v spaces) (λ v. unknown_ref path v "memory space" spaces)
      (truthy value)

unfoldable pub engine_ref : String → List String → Option String → List Issue
unfolding check_ref uninstalled_engine
engine_ref path engines value =
    check_ref (is_engine_installed engines) (λ v. uninstalled_engine path v engines) (truthy value)

abbrev pub at : String → String → String
at base rest = concat (base ∷ rest ∷ [])

abbrev pub indexed : String → ℕ → String
indexed base i = concat (base ∷ "[" ∷ decimal i ∷ "]" ∷ [])

-- `seen.get(name)`.
unfoldable pub first_index : String → List (String × ℕ) → Option ℕ
first_index name [] = none
first_index name ((n, i) ∷ rest) = if n == name then some i else first_index name rest

-- A name is entered with its first index only.
unfoldable pub enter : String → ℕ → List (String × ℕ) → List (String × ℕ)
unfolding first_index
enter name i seen = if is_some (first_index name seen) then seen else (name, i) ∷ seen

unfoldable pub duplicate_user : String → String → Option ℕ → List Issue
duplicate_user base user none = []
duplicate_user base user (some first) =
    err (at base ".user") (
      concat (
        "duplicate developer '"
        ∷ user
        ∷ "' (already declared at developers["
        ∷ decimal first
        ∷ "])"
        ∷ []))
    ∷ []

abbrev pub operator_warning : String → String → String → List Issue
operator_warning base user operator =
    if user == operator
    then warn (at base ".user")
        "this developer IS the operator account; operator privileges stay, so developer hardening cannot fully apply"
      ∷ []
    else []

unfoldable pub instance_issues : String → List String → List (String × String) → List Issue
unfolding unknown_ref
instance_issues base instances [] = []
instance_issues base instances ((key, owner) ∷ rest) =
    (if is_declared owner instances
      then []
      else unknown_ref (concat (base ∷ ".memory.spaces." ∷ key ∷ ".instance" ∷ [])) owner
          "memory instance" instances
        ∷ [])
    ++ instance_issues base instances rest

abbrev pub is_disabled : Option Bool → Bool
is_disabled (some false) = true
is_disabled _ = false

abbrev pub disabled_warning : String → MemorySpec → List Issue
disabled_warning base memory =
    if is_disabled memory.enabled && not (is_empty memory.spaces)
    then warn (at base ".memory") (
        concat (
          "memory is disabled but "
          ∷ decimal (length memory.spaces)
          ∷ " space(s) are declared — they will be ignored"
          ∷ []))
      ∷ []
    else []

-- `Object.keys(dev.memory?.spaces ?? {})`.
abbrev pub space_names : Option MemorySpec → List String
space_names none = []
space_names (some memory) = map (λ p. p.0) memory.spaces

unfoldable pub memory_issues : String → Option MemorySpec → List Issue
unfolding space_ref instance_issues
memory_issues base none = []
memory_issues base (some memory) =
    space_ref (at base ".memory.default_space") (space_names (some memory)) memory.default_space
    ++ instance_issues base memory.instances memory.spaces
    ++ disabled_warning base memory

unfoldable pub profile_issues : String → List String → List (String × Option String) → List Issue
unfolding space_ref
profile_issues base spaces [] = []
profile_issues base spaces ((key, space) ∷ rest) =
    space_ref (concat (base ∷ ".agent_profiles." ∷ key ∷ ".memory_space" ∷ [])) spaces space
    ++ profile_issues base spaces rest

unfoldable pub desktop_issues : String → Bool → Option DesktopSpec → List Issue
desktop_issues base tailscale none = []
desktop_issues base tailscale (some desktop) =
    (if desktop.enabled && is_declared "tailnet" desktop.access && not tailscale
      then err (at base ".desktop.access")
          "'tailnet' needs network.tailscale.enabled: true — there is no private network to listen on"
        ∷ []
      else [])
    ++ (if desktop.enabled && is_declared "unsafe-public" desktop.access
        then warn (at base ".desktop.access")
            "the desktop will be reachable from the internet, and RDP authenticates with a password — every other door on this box is key-only"
          ∷ []
        else [])
