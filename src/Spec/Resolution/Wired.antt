-- ===== src/Spec/Resolution/Wired.antt =====
-- What a spec that was checked resolves to: choices among what is declared.
use remote_devbox.Base.Options.{some_inj}
use remote_devbox.Base.{
  ℕ, suc, String, false, Option, none, some, List, [], ◌∷◌, ◌==◌, ◌≡◌, refl, ap, map, All,
  Bool-cases, Option-cases, inl, inr,
}
use remote_devbox.Doctor.Collect.{truthy}
use remote_devbox.Spec.Issues.{has_errors}
use remote_devbox.Spec.Resolve.Choices.{choose_named-IsRef}
use remote_devbox.Spec.Resolve.Spaces.{IsRef}
use remote_devbox.Spec.Sections.{
  ProjectSpec, DeveloperSpec, DevboxSpec, RcFields, ProjectRemoteControl, off, stated, is_declared,
  is_disabled,
}
use remote_devbox.Spec.References.{validate_references}
use remote_devbox.Spec.References.Wiring.Developers.{
  profile_names, IsWiredProject, IsWiredDeveloper,
}
use remote_devbox.Spec.References.Wiring.Whole.{validate_references-IsWired}
use remote_devbox.Spec.Resolution.{
  ResolvedRcUnit, ResolvedProject, ResolvedDeveloper, provider_of, profile_unit, stated_unit,
  rc_unit, resolve_remote_control, resolve_git_identity, resolve_agent_profile, resolve_project,
  resolve_projects, resolve_developers, resolve_spec,
}

-- A unit runs the provider of the project's own profile, under that profile's directory.
abbrev pub IsUnitOf : DeveloperSpec → Option String → Option ResolvedRcUnit → Type 0
IsUnitOf dev profile none = Unit
IsUnitOf dev profile (some unit) =
    (profile ≡ some unit.agent_profile)
    × (provider_of unit.agent_profile dev.agent_profiles ≡ some unit.agent)

truthy-some : (o : Option String) (s : String) → truthy o ≡ some s → o ≡ some s
truthy-some none s h = absurd (cc)
truthy-some (some t) s h = elim (Bool-cases (t == "")) [
  | inl e ↦ absurd (let k = rw e at h in cc)
  | inr e ↦ rw e at h
]

profile_unit-IsUnitOf :
    (box : RcFields) (dev : DeveloperSpec) (project : ProjectSpec) (name : Option String)
    (override : RcFields) (profile o : Option String)
    → truthy profile ≡ o
    → IsUnitOf dev profile (profile_unit box dev project name override o)
unfolding profile_unit rc_unit
profile_unit-IsUnitOf box dev project name override profile none e = tt
profile_unit-IsUnitOf box dev project name override profile (some p) e =
    elim (Option-cases (truthy (provider_of p dev.agent_profiles))) [
      | inl n ↦ rw (IsUnitOf, n) tt
      | inr (provider, found) ↦
          rw (IsUnitOf, found)
            (truthy-some profile p e, truthy-some (provider_of p dev.agent_profiles) provider found)
    ]

resolve_remote_control-IsUnitOf :
    (spec : DevboxSpec) (dev : DeveloperSpec) (project : ProjectSpec) (profile : Option String)
    → IsUnitOf dev profile (resolve_remote_control spec dev project profile)
unfolding resolve_remote_control
resolve_remote_control-IsUnitOf spec dev project profile =
    elim (Bool-cases (is_disabled spec.remote_control.enabled)) [
      | inl e ↦ rw e tt
      | inr e ↦ rw e (by_project project.remote_control)
    ]
  where
    by_project :
        (r : ProjectRemoteControl)
        → IsUnitOf dev profile (stated_unit spec.remote_control dev project r profile)
    by_project off = tt
    by_project (stated name override) = elim (Bool-cases (is_disabled override.enabled)) [
      | inl e ↦ rw (IsUnitOf, e) tt
      | inr e ↦ rw e (
          profile_unit-IsUnitOf spec.remote_control dev project name override profile
            (truthy profile) refl)
    ]

-- The identity and the profile of a project are declared by its developer, and so its unit's.
abbrev pub IsResolvedProject : DeveloperSpec → ResolvedProject → Type 0
IsResolvedProject dev project =
    IsRef (λ v. is_declared v dev.git_identities) project.git_identity
    × IsRef (λ v. is_declared v (profile_names dev)) project.agent_profile
    × IsUnitOf dev project.agent_profile project.remote_control

resolve_project-IsResolvedProject :
    (spec : DevboxSpec) (dev : DeveloperSpec) (path : String) (project : ProjectSpec)
    → IsWiredDeveloper spec dev
    → IsWiredProject spec dev project
    → IsResolvedProject dev (resolve_project spec dev path project).0
unfolding resolve_project resolve_git_identity resolve_agent_profile
resolve_project-IsResolvedProject spec dev path project wired own = (
  choose_named-IsRef project.git_identity dev.default_git_identity dev.git_identities _
      "git identity" own.0 wired.0,
  choose_named-IsRef project.agent_profile dev.default_agent_profile (profile_names dev) _
      "agent profile" own.1 wired.1,
  resolve_remote_control-IsUnitOf spec dev project _,
)

-- A resolved developer has the projects of the spec's, by name and in their order, all resolved.
abbrev pub IsResolvedDeveloper : ResolvedDeveloper → Type 0
IsResolvedDeveloper dev =
    (map (λ (p : ResolvedProject). p.name) dev.projects
      ≡ map (λ (p : ProjectSpec). p.name) dev.declared.projects)
    × All (IsResolvedProject dev.declared) dev.projects

resolve_projects-IsResolvedProject :
    (spec : DevboxSpec) (dev : DeveloperSpec) (base : String) (j : ℕ) (projects : List ProjectSpec)
    → IsWiredDeveloper spec dev
    → All (IsWiredProject spec dev) projects
    → (map (λ (p : ResolvedProject). p.name) (resolve_projects spec dev base j projects).0
        ≡ map (λ (p : ProjectSpec). p.name) projects)
      × All (IsResolvedProject dev) (resolve_projects spec dev base j projects).0
unfolding resolve_projects resolve_project
resolve_projects-IsResolvedProject spec dev base j [] wired h = (refl, tt)
resolve_projects-IsResolvedProject spec dev base j (project ∷ rest) wired (own, h) =
    let (names, fine) = resolve_projects-IsResolvedProject spec dev base (suc j) rest wired h in
    (
      ap (λ ns. project.name ∷ ns) names,
      (resolve_project-IsResolvedProject spec dev _ project wired own, fine),
    )

resolve_developers-IsResolvedDeveloper :
    (spec : DevboxSpec) (i : ℕ) (developers : List DeveloperSpec)
    → All (IsWiredDeveloper spec) developers
    → (map (λ (d : ResolvedDeveloper). d.declared) (resolve_developers spec i developers).0
        ≡ developers)
      × All IsResolvedDeveloper (resolve_developers spec i developers).0
unfolding resolve_developers
resolve_developers-IsResolvedDeveloper spec i [] h = (refl, tt)
resolve_developers-IsResolvedDeveloper spec i (dev ∷ rest) (wired, h) =
    let (same, fine) = resolve_developers-IsResolvedDeveloper spec (suc i) rest h in
    (
      ap (λ ds. dev ∷ ds) same,
      (resolve_projects-IsResolvedProject spec dev _ 0 dev.projects wired wired.7, fine),
    )

-- A spec whose references have no error, and that resolves: its developers are those of the spec in
-- their order with all their projects, and the git identity and the agent profile of a project are
-- ones that its developer declares; a Remote Control unit is for the project's own profile and runs
-- the provider that this profile names.
pub resolve_spec-IsResolvedDeveloper :
    (spec : DevboxSpec) (developers : List ResolvedDeveloper)
    → has_errors (validate_references spec) ≡ false
    → (resolve_spec spec).resolved ≡ some developers
    → (map (λ (d : ResolvedDeveloper). d.declared) developers ≡ spec.developers)
      × All IsResolvedDeveloper developers
unfolding resolve_spec
resolve_spec-IsResolvedDeveloper spec developers checked h =
    let all = resolve_developers spec 0 spec.developers in
    let fine =
      resolve_developers-IsResolvedDeveloper spec 0 spec.developers
        (validate_references-IsWired spec checked).developers in
    elim (Bool-cases (has_errors all.1)) [
      | inl e ↦ absurd (let k = rw e at h in cc)
      | inr e ↦ rw⁻¹ (some_inj (rw e at h)) fine
    ]
