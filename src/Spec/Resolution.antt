-- ===== src/Spec/Resolution.antt =====
-- clients/devbox/src/spec/resolve.ts: a spec with every default and choice applied to its projects,
-- with a Remote Control unit where one applies.
pub mod Wired
use remote_devbox.Base.{
  ℕ, suc, String, Bool, true, false, Option, none, some, List, [], ◌∷◌, ◌++◌, ◌==◌, map, concat,
  or_default, is_some, if◌then◌else◌,
}
use remote_devbox.Json.{Json, number, nat, string}
use remote_devbox.Doctor.Collect.{truthy}
use remote_devbox.Spec.Issues.{Issue, has_errors}
use remote_devbox.Spec.Resolve.{Choice, choose_named, Memory, SpaceDeveloper, resolve_memory_space}
use remote_devbox.Spec.Sections.{
  ProjectSpec, MemorySpec, DeveloperSpec, DevboxSpec, AgentProfileSpec, RcFields,
  ProjectRemoteControl, off, stated, space_names, profile_spaces, at, indexed, is_disabled,
}

abbrev pub default_desktop_access : Bool → List String
default_desktop_access tailscale = if tailscale then "tunnel" ∷ "tailnet" ∷ [] else "tunnel" ∷ []

abbrev pub default_ssh_access : Bool → List String
default_ssh_access tailscale = if tailscale then "public" ∷ "tailnet" ∷ [] else "public" ∷ []

unfoldable pub resolve_engine : DevboxSpec → DeveloperSpec → ProjectSpec → String
resolve_engine spec dev project =
    or_default project.container_engine
      (or_default dev.container_engine (or_default spec.default_engine "none"))

unfoldable pub resolve_git_identity : DeveloperSpec → ProjectSpec → String → Choice
resolve_git_identity dev project path =
    choose_named project.git_identity dev.default_git_identity dev.git_identities path
      "git identity"

unfoldable pub resolve_agent_profile : DeveloperSpec → ProjectSpec → String → Choice
resolve_agent_profile dev project path =
    choose_named project.agent_profile dev.default_agent_profile (map (λ p. p.0) dev.agent_profiles)
      path "agent profile"

abbrev pub default_spawn : String
default_spawn = "worktree"

abbrev pub default_capacity : ℕ
default_capacity = 4

abbrev pub default_resources : List (String × Json)
default_resources =
    ("cpu_weight", number (nat 80))
    ∷ ("io_weight", number (nat 80))
    ∷ ("nice", number (nat 5))
    ∷ ("oom_score_adjust", number (nat 300))
    ∷ ("oom_policy", string "continue")
    ∷ []

-- AGENT_CONFIG_ENV.
unfoldable pub config_env : String → Option String
config_env provider =
    if provider == "claude"
    then some "CLAUDE_CONFIG_DIR"
    else if provider == "codex"
    then some "CODEX_HOME"
    else if provider == "omp"
    then some "PI_CODING_AGENT_DIR"
    else none

pub record ResolvedRcUnit : Type 0 where
  pub agent : String
  pub agent_profile : String
  pub config_env : Option String
  pub config_dir : String
  pub name : String
  pub spawn : String
  pub capacity : ℕ
  pub resources : List (String × Json)
  pub build_env : List (String × Json)

-- `{ ...base, key: value }`.
unfoldable pub put : String → Json → List (String × Json) → List (String × Json)
put key value [] = (key, value) ∷ []
put key value ((k, v) ∷ rest) = if k == key then (k, value) ∷ rest else (k, v) ∷ put key value rest

-- `{ ...base, ...over }`.
unfoldable pub merge : List (String × Json) → List (String × Json) → List (String × Json)
unfolding put
merge base [] = base
merge base ((key, value) ∷ rest) = merge (put key value base) rest

-- `dev.agent_profiles?.[agentProfile]?.provider`.
unfoldable pub provider_of : String → List (String × AgentProfileSpec) → Option String
provider_of name [] = none
provider_of name ((key, profile) ∷ rest) =
    if key == name then profile.provider else provider_of name rest

abbrev pub or_field : {A : Type 0} → Option A → Option A → A → A
or_field (some a) box d = a
or_field none box d = or_default box d

unfoldable pub rc_unit :
    RcFields
    → DeveloperSpec
    → ProjectSpec
    → Option String
    → RcFields
    → String
    → String
    → ResolvedRcUnit
unfolding config_env merge
rc_unit box dev project name override profile provider = record {
  agent = provider;
  agent_profile = profile;
  config_env = config_env provider;
  config_dir = concat ("/home/" ∷ dev.user ∷ "/.agent-profiles/" ∷ profile ∷ []);
  name = or_default name (concat (dev.user ∷ " · " ∷ project.name ∷ []));
  spawn = or_field override.spawn box.spawn default_spawn;
  capacity = or_field override.capacity box.capacity default_capacity;
  resources = merge (merge default_resources box.resources) override.resources;
  build_env = merge (merge [] box.build_env) override.build_env;
}

-- The unit of a resolved profile that names its provider.
unfoldable pub profile_unit :
    RcFields
    → DeveloperSpec
    → ProjectSpec
    → Option String
    → RcFields
    → Option String
    → Option ResolvedRcUnit
unfolding provider_of rc_unit
profile_unit box dev project name override none = none
profile_unit box dev project name override (some profile) =
    elim (truthy (provider_of profile dev.agent_profiles)) [
      | none ↦ none
      | some provider ↦ some (rc_unit box dev project name override profile provider)
    ]

unfoldable pub stated_unit :
    RcFields
    → DeveloperSpec
    → ProjectSpec
    → ProjectRemoteControl
    → Option String
    → Option ResolvedRcUnit
unfolding profile_unit
stated_unit box dev project off profile = none
stated_unit box dev project (stated name override) profile =
    if is_disabled override.enabled
    then none
    else profile_unit box dev project name override (truthy profile)

unfoldable pub resolve_remote_control :
    DevboxSpec → DeveloperSpec → ProjectSpec → Option String → Option ResolvedRcUnit
unfolding stated_unit
resolve_remote_control spec dev project profile =
    if is_disabled spec.remote_control.enabled
    then none
    else stated_unit spec.remote_control dev project project.remote_control profile

pub record ResolvedProject : Type 0 where
  pub name : String
  pub repo : String
  pub branch : String
  pub git_identity : Option String
  pub agent_profile : Option String
  pub container_engine : String
  pub memory_space : Option String
  pub ports : List ℕ
  pub install : Bool
  pub update : Bool
  pub remote_control : Option ResolvedRcUnit

abbrev pub memory_of : Option MemorySpec → Option Memory
memory_of none = none
memory_of (some memory) = some (record {
  enabled = memory.enabled;
  default_space = memory.default_space;
  spaces = space_names (some memory);
})

abbrev pub space_developer : DeveloperSpec → SpaceDeveloper
space_developer dev = record {
  memory = memory_of dev.memory;
  agent_profiles = profile_spaces dev.agent_profiles;
}

-- `if (choice.issue) issues.push(choice.issue)`.
abbrev pub issue_of : Choice → List Issue
issue_of choice = elim choice.issue [ none ↦ [] | some issue ↦ issue ∷ [] ]

unfoldable pub resolve_project :
    DevboxSpec → DeveloperSpec → String → ProjectSpec → ResolvedProject × List Issue
unfolding resolve_engine resolve_git_identity resolve_agent_profile resolve_remote_control
resolve_project spec dev path project =
    let git = resolve_git_identity dev project (at path ".git_identity") in
    let agent = resolve_agent_profile dev project (at path ".agent_profile") in
    let memory =
      resolve_memory_space (space_developer dev) project.memory_space agent.value
        (at path ".memory_space") in
    (
      record {
        name = project.name;
        repo = project.repo;
        branch = or_default project.branch "main";
        git_identity = git.value;
        agent_profile = agent.value;
        container_engine = resolve_engine spec dev project;
        memory_space = memory.value;
        ports = project.ports;
        install = or_default project.install true;
        update = or_default project.update false;
        remote_control = resolve_remote_control spec dev project agent.value;
      },
      issue_of git ++ issue_of agent ++ issue_of memory,
    )

unfoldable pub resolve_projects :
    DevboxSpec → DeveloperSpec → String → ℕ → List ProjectSpec → List ResolvedProject × List Issue
unfolding resolve_project
resolve_projects spec dev base j [] = ([], [])
resolve_projects spec dev base j (project ∷ rest) =
    let first = resolve_project spec dev (indexed (at base ".projects") j) project in
    let others = resolve_projects spec dev base (suc j) rest in
    (first.0 ∷ others.0, first.1 ++ others.1)

-- The other fields are those of the spec's developer.
pub record ResolvedDeveloper : Type 0 where
  pub declared : DeveloperSpec
  pub projects : List ResolvedProject

unfoldable pub resolve_developers :
    DevboxSpec → ℕ → List DeveloperSpec → List ResolvedDeveloper × List Issue
unfolding resolve_projects
resolve_developers spec i [] = ([], [])
resolve_developers spec i (dev ∷ rest) =
    let first = resolve_projects spec dev (indexed "developers" i) 0 dev.projects in
    let others = resolve_developers spec (suc i) rest in
    (record { declared = dev; projects = first.0 } ∷ others.0, first.1 ++ others.1)

-- The developers of the resolved spec, whose other fields are those of the spec, and the issues.
pub record Resolution : Type 0 where
  pub resolved : Option (List ResolvedDeveloper)
  pub issues : List Issue

unfoldable pub resolve_spec : DevboxSpec → Resolution
unfolding resolve_developers
resolve_spec spec =
    let all = resolve_developers spec 0 spec.developers in
    record { resolved = if has_errors all.1 then none else some all.0; issues = all.1 }
