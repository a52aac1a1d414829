-- ===== src/Spec/References/Wiring/Developers.antt =====
-- What the entry of a developer has in a spec without errors.
use remote_devbox.Base.{ℕ, suc, String, false, none, List, [], ◌∷◌, ◌≡◌, map, All}
use remote_devbox.Doctor.Collect.{truthy}
use remote_devbox.Spec.Issues.{has_errors}
use remote_devbox.Spec.Resolve.Spaces.{IsRef, AreRefs}
use remote_devbox.Spec.Sections.{
  profile_spaces, ProjectSpec, DeveloperSpec, DevboxSpec, is_declared, is_space_ref,
  is_engine_installed, named_ref, space_ref, engine_ref, at, indexed, first_index, enter,
  duplicate_user, space_names, memory_issues, profile_issues, desktop_issues,
}
use remote_devbox.Spec.References.{
  duplicate_project, project_issues, projects_issues, developer_issues,
}
use remote_devbox.Spec.References.Wiring.{
  quiet, named_ref-IsRef, space_ref-IsRef, engine_ref-IsRef, memory_issues-IsWiredMemory,
  profile_issues-AreRefs, desktop_issues-IsReachable, IsUnseen-cons, duplicate_project-none,
  duplicate_user-none, IsUnseen, IsUnique, IsReachable, IsWiredMemory,
}

abbrev pub profile_names : DeveloperSpec → List String
profile_names dev = map (λ p. p.0) dev.agent_profiles

-- What a project points at is declared by its developer, its engine installed.
abbrev pub IsWiredProject : DevboxSpec → DeveloperSpec → ProjectSpec → Type 0
IsWiredProject spec dev project =
    IsRef (λ v. is_declared v dev.git_identities) (truthy project.git_identity)
    × IsRef (λ v. is_declared v (profile_names dev)) (truthy project.agent_profile)
    × IsRef (λ v. is_space_ref v (space_names dev.memory)) (truthy project.memory_space)
    × IsRef (is_engine_installed spec.install_engines) (truthy project.container_engine)

project_issues-IsWiredProject :
    (spec : DevboxSpec) (dev : DeveloperSpec) (path : String) (seen : List (String × ℕ))
    (project : ProjectSpec)
    → has_errors (project_issues spec dev path seen project) ≡ false
    → (first_index project.name seen ≡ none) × IsWiredProject spec dev project
unfolding project_issues
project_issues-IsWiredProject spec dev path seen project h =
    let (h4, e) =
      quiet _
        (engine_ref (at path ".container_engine") spec.install_engines project.container_engine)
        h in
    let (h3, d) =
      quiet _ (space_ref (at path ".memory_space") (space_names dev.memory) project.memory_space)
        h4 in
    let (h2, c) =
      quiet _
        (named_ref (at path ".agent_profile") "agent profile" (profile_names dev)
          project.agent_profile)
        h3 in
    let (a, b) =
      quiet (duplicate_project path project.name dev.user (first_index project.name seen)) _ h2 in
    (
      duplicate_project-none path project.name dev.user (first_index project.name seen) a,
      (
        named_ref-IsRef _ _ dev.git_identities project.git_identity b,
        named_ref-IsRef _ _ (profile_names dev) project.agent_profile c,
        space_ref-IsRef _ (space_names dev.memory) project.memory_space d,
        engine_ref-IsRef _ spec.install_engines project.container_engine e,
      ),
    )

projects_issues-IsWiredProject :
    (spec : DevboxSpec) (dev : DeveloperSpec) (base : String) (j : ℕ) (seen : List (String × ℕ))
    (projects : List ProjectSpec)
    → has_errors (projects_issues spec dev base j seen projects) ≡ false
    → IsUnseen seen (map (λ (p : ProjectSpec). p.name) projects)
      × All (IsWiredProject spec dev) projects
unfolding projects_issues
projects_issues-IsWiredProject spec dev base j seen [] h = ((tt, tt), tt)
projects_issues-IsWiredProject spec dev base j seen (project ∷ rest) h =
    let (a, b) = quiet (project_issues spec dev _ seen project) _ h in
    let (fresh, wired) = project_issues-IsWiredProject spec dev _ seen project a in
    let (unseen, others) =
      projects_issues-IsWiredProject spec dev base (suc j) (enter project.name j seen) rest b in
    (IsUnseen-cons project.name j seen _ fresh unseen, (wired, others))

-- What a developer's entry points at is declared in it, its engines installed, and its projects'
-- names are apart.
abbrev pub IsWiredDeveloper : DevboxSpec → DeveloperSpec → Type 0
IsWiredDeveloper spec dev =
    IsRef (λ v. is_declared v dev.git_identities) (truthy dev.default_git_identity)
    × IsRef (λ v. is_declared v (profile_names dev)) (truthy dev.default_agent_profile)
    × IsWiredMemory dev.memory
    × AreRefs (λ v. is_space_ref v (space_names dev.memory)) (profile_spaces dev.agent_profiles)
    × IsReachable spec.tailscale_enabled dev.desktop
    × IsRef (is_engine_installed spec.install_engines) (truthy dev.container_engine)
    × IsUnique (map (λ (p : ProjectSpec). p.name) dev.projects)
    × All (IsWiredProject spec dev) dev.projects

pub developer_issues-IsWiredDeveloper :
    (spec : DevboxSpec) (i : ℕ) (seen : List (String × ℕ)) (dev : DeveloperSpec)
    → has_errors (developer_issues spec i seen dev) ≡ false
    → (first_index dev.user seen ≡ none) × IsWiredDeveloper spec dev
unfolding developer_issues
developer_issues-IsWiredDeveloper spec i seen dev h =
    let base = indexed "developers" i in
    let (h8, projects) = quiet _ (projects_issues spec dev base 0 [] dev.projects) h in
    let (h7, engine) =
      quiet _ (engine_ref (at base ".container_engine") spec.install_engines dev.container_engine)
        h8 in
    let (h6, desktop) = quiet _ (desktop_issues base spec.tailscale_enabled dev.desktop) h7 in
    let (h5, profiles) =
      quiet _ (profile_issues base (space_names dev.memory) (profile_spaces dev.agent_profiles))
        h6 in
    let (h4, memory) = quiet _ (memory_issues base dev.memory) h5 in
    let (h3, agent) =
      quiet _
        (named_ref (at base ".default_agent_profile") "agent profile" (profile_names dev)
          dev.default_agent_profile)
        h4 in
    let (h2, git) =
      quiet _
        (named_ref (at base ".default_git_identity") "git identity" dev.git_identities
          dev.default_git_identity)
        h3 in
    let (h1, _) = quiet (duplicate_user base dev.user (first_index dev.user seen)) _ h2 in
    let (unseen, wired) = projects_issues-IsWiredProject spec dev base 0 [] dev.projects projects in
    (
      duplicate_user-none base dev.user (first_index dev.user seen) h1,
      (
        named_ref-IsRef _ _ dev.git_identities dev.default_git_identity git,
        named_ref-IsRef _ _ (profile_names dev) dev.default_agent_profile agent,
        memory_issues-IsWiredMemory base dev.memory memory,
        profile_issues-AreRefs base (space_names dev.memory) (profile_spaces dev.agent_profiles)
            profiles,
        desktop_issues-IsReachable base spec.tailscale_enabled dev.desktop desktop,
        engine_ref-IsRef _ spec.install_engines dev.container_engine engine,
        unseen.1,
        wired,
      ),
    )
