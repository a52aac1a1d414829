-- ===== src/Spec/References.antt =====
-- validateReferences of clients/devbox/src/spec/references.ts: whether the names that a spec points
-- at are declared, once each.
pub mod Wiring
use remote_devbox.Base.{
  ℕ, suc, ◌+◌, String, Bool, true, false, not, ◌&&◌, ◌||◌, Option, none, some, List, [], ◌∷◌, ◌++◌,
  ◌==◌, map, any, concat, join, decimal, is_empty, is_some, length, if◌then◌else◌,
}
use remote_devbox.Doctor.Collect.{truthy}
use remote_devbox.Spec.Issues.{Issue, err, warn}
use remote_devbox.Spec.PortClaims.{Claim, port_issues}
use remote_devbox.Spec.McpPorts.{BrowserSpec, BrowserDeveloper, mcp_port_issues}
use remote_devbox.Spec.Sections.{
  profile_spaces, is_declared, is_space_ref, is_engine_installed, unknown_ref, uninstalled_engine,
  check_ref, named_ref, space_ref, engine_ref, at, indexed, first_index, enter, duplicate_user,
  operator_warning, instance_issues, is_disabled, disabled_warning, space_names, memory_issues,
  profile_issues, desktop_issues, ProjectSpec, MemorySpec, DesktopSpec, DeveloperSpec, RuntimeLimit,
  DevboxSpec,
}

unfoldable pub duplicate_project : String → String → String → Option ℕ → List Issue
duplicate_project path name user none = []
duplicate_project path name user (some first) =
    err (at path ".name")
      (concat ("duplicate project '" ∷ name ∷ "' for developer '" ∷ user ∷ "'" ∷ []))
    ∷ []

unfoldable pub project_issues :
    DevboxSpec → DeveloperSpec → String → List (String × ℕ) → ProjectSpec → List Issue
unfolding duplicate_project first_index named_ref space_ref engine_ref
project_issues spec dev path seen project =
    duplicate_project path project.name dev.user (first_index project.name seen)
    ++ named_ref (at path ".git_identity") "git identity" dev.git_identities project.git_identity
    ++ named_ref (at path ".agent_profile") "agent profile" (map (λ p. p.0) dev.agent_profiles)
        project.agent_profile
    ++ space_ref (at path ".memory_space") (space_names dev.memory) project.memory_space
    ++ engine_ref (at path ".container_engine") spec.install_engines project.container_engine

unfoldable pub projects_issues :
    DevboxSpec → DeveloperSpec → String → ℕ → List (String × ℕ) → List ProjectSpec → List Issue
unfolding project_issues enter
projects_issues spec dev base j seen [] = []
projects_issues spec dev base j seen (project ∷ rest) =
    project_issues spec dev (indexed (at base ".projects") j) seen project
    ++ projects_issues spec dev base (suc j) (enter project.name j seen) rest

unfoldable pub developer_issues : DevboxSpec → ℕ → List (String × ℕ) → DeveloperSpec → List Issue
unfolding duplicate_user first_index named_ref memory_issues profile_issues desktop_issues
    engine_ref projects_issues
developer_issues spec i seen dev =
    let base = indexed "developers" i in
    duplicate_user base dev.user (first_index dev.user seen)
    ++ operator_warning base dev.user spec.operator_user
    ++ named_ref (at base ".default_git_identity") "git identity" dev.git_identities
        dev.default_git_identity
    ++ named_ref (at base ".default_agent_profile") "agent profile"
        (map (λ p. p.0) dev.agent_profiles) dev.default_agent_profile
    ++ memory_issues base dev.memory
    ++ profile_issues base (space_names dev.memory) (profile_spaces dev.agent_profiles)
    ++ desktop_issues base spec.tailscale_enabled dev.desktop
    ++ engine_ref (at base ".container_engine") spec.install_engines dev.container_engine
    ++ projects_issues spec dev base 0 [] dev.projects

unfoldable pub developers_issues :
    DevboxSpec → ℕ → List (String × ℕ) → List DeveloperSpec → List Issue
unfolding developer_issues enter
developers_issues spec i seen [] = []
developers_issues spec i seen (dev ∷ rest) =
    developer_issues spec i seen dev ++ developers_issues spec (suc i) (enter dev.user i seen) rest

-- The map of users after the loop over the developers.
unfoldable pub seen_users : ℕ → List (String × ℕ) → List DeveloperSpec → List (String × ℕ)
unfolding enter
seen_users i seen [] = seen
seen_users i seen (dev ∷ rest) = seen_users (suc i) (enter dev.user i seen) rest

unfoldable pub limit_issues : List String → List (String × ℕ) → ℕ → RuntimeLimit → List Issue
unfolding first_index uninstalled_engine
limit_issues engines seen index limit =
    let base = indexed "container.runtime_limits" index in
    (if is_some (first_index limit.user seen)
      then []
      else err (at base ".user") (
          concat (
            "no developer named '" ∷ limit.user
            ∷ "' — rootless container limits need an owning account" ∷ []))
        ∷ [])
    ++ (if is_declared limit.engine engines
        then []
        else uninstalled_engine (at base ".engine") limit.engine engines ∷ [])

unfoldable pub limits_issues : List String → List (String × ℕ) → ℕ → List RuntimeLimit → List Issue
unfolding limit_issues
limits_issues engines seen index [] = []
limits_issues engines seen index (limit ∷ rest) =
    limit_issues engines seen index limit ++ limits_issues engines seen (suc index) rest

-- The claims of a project's ports, numbered on from a place.
unfoldable pub port_claims : ℕ → String → String → List ℕ → List Claim
port_claims place path label [] = []
port_claims place path label (port ∷ ports) =
    record { place = place; port = port; path = path; label = label }
    ∷ port_claims (suc place) path label ports

unfoldable pub project_claims : ℕ → ℕ → String → String → List ProjectSpec → List Claim
unfolding port_claims
project_claims place j base user [] = []
project_claims place j base user (project ∷ rest) =
    port_claims place (at (indexed (at base ".projects") j) ".ports")
      (concat (user ∷ "/" ∷ project.name ∷ [])) project.ports
    ++ project_claims (place + length project.ports) (suc j) base user rest

abbrev pub claimed : List ProjectSpec → ℕ
claimed [] = 0
claimed (project ∷ rest) = length project.ports + claimed rest

unfoldable pub developer_claims : ℕ → ℕ → List DeveloperSpec → List Claim
unfolding project_claims
developer_claims place i [] = []
developer_claims place i (dev ∷ rest) =
    project_claims place 0 (indexed "developers" i) dev.user dev.projects
    ++ developer_claims (place + claimed dev.projects) (suc i) rest

unfoldable pub chrome_issues : List (String × ℕ) → Option String → List Issue
unfolding first_index check_ref
chrome_issues seen chrome_user =
    check_ref (λ user. is_some (first_index user seen))
      (λ user. err "browser.failover.chrome_user" (
        concat (
          "no developer named '" ∷ user ∷ "' — the fallback Chrome needs an account to run as"
          ∷ [])))
      (truthy chrome_user)

abbrev pub browser_developer : DeveloperSpec → BrowserDeveloper
browser_developer dev = record { user = dev.user; browser = dev.browser }

unfoldable pub validate_references : DevboxSpec → List Issue
unfolding developers_issues seen_users limits_issues developer_claims chrome_issues
validate_references spec =
    let seen = seen_users 0 [] spec.developers in
    developers_issues spec 0 [] spec.developers
    ++ limits_issues spec.install_engines seen 0 spec.runtime_limits
    ++ port_issues (developer_claims 0 0 spec.developers)
    ++ chrome_issues seen spec.chrome_user
    ++ mcp_port_issues spec.browser (map browser_developer spec.developers)
