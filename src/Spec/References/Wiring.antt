-- ===== src/Spec/References/Wiring.antt =====
-- What each section of a spec without errors has: the names that it points at are declared.
pub mod Developers
pub mod Ports
pub mod Whole
use remote_devbox.Base.{
  ℕ, suc, String, Bool, true, false, not, ◌&&◌, ◌||◌, Option, none, some, List, [], ◌∷◌, ◌++◌, ◌==◌,
  ◌≡◌, refl, sym, map, any, All, Bool-cases, inl, inr, eq_iff, is_some, arith, if◌then◌else◌,
}
use remote_devbox.Doctor.Collect.{truthy}
use remote_devbox.Spec.Issues.{Issue, err, is_error, has_errors}
use remote_devbox.Spec.PortClaims.{port_issues}
use remote_devbox.Spec.McpPorts.{mcp_port_issues}
use remote_devbox.Spec.Resolve.Spaces.{IsRef, AreRefs}
use remote_devbox.Spec.Sections.{
  ProjectSpec, MemorySpec, DesktopSpec, DeveloperSpec, RuntimeLimit, DevboxSpec, is_declared,
  is_space_ref, is_engine_installed, unknown_ref, uninstalled_engine, check_ref, named_ref,
  space_ref, engine_ref, at, indexed, first_index, enter, duplicate_user, operator_warning,
  instance_issues, disabled_warning, space_names, memory_issues, profile_issues, desktop_issues,
}
use remote_devbox.Spec.References.{
  duplicate_project, project_issues, projects_issues, developer_issues, developers_issues,
  seen_users, limit_issues, limits_issues, developer_claims, chrome_issues, browser_developer,
  validate_references,
}

-- No error in two lists of issues is none in each.
pub quiet :
    (xs ys : List Issue)
    → has_errors (xs ++ ys) ≡ false
    → (has_errors xs ≡ false) × (has_errors ys ≡ false)
unfolding has_errors
quiet [] ys h = (refl, h)
quiet (x ∷ xs) ys h = elim (Bool-cases (is_error x)) [
  | inl e ↦ absurd (let k = rw e at h in cc)
  | inr e ↦ let (a, b) = quiet xs ys (rw e at h) in (rw e a, b)
]

pub check_ref-IsRef :
    (test : String → Bool) (issue : String → Issue) (o : Option String)
    → ((v : String) → is_error (issue v) ≡ true)
    → has_errors (check_ref test issue o) ≡ false
    → IsRef test o
unfolding check_ref has_errors
check_ref-IsRef test issue none bad h = tt
check_ref-IsRef test issue (some v) bad h = elim (Bool-cases (test v)) [
  | inl e ↦ e
  | inr e ↦ absurd (let k = rw (e, bad v) at h in cc)
]

pub named_ref-IsRef :
    (path what : String) (names : List String) (o : Option String)
    → has_errors (named_ref path what names o) ≡ false
    → IsRef (λ v. is_declared v names) (truthy o)
unfolding named_ref unknown_ref
named_ref-IsRef path what names o h =
    check_ref-IsRef (λ v. is_declared v names) _ (truthy o) (λ v. refl) h

pub space_ref-IsRef :
    (path : String) (spaces : List String) (o : Option String)
    → has_errors (space_ref path spaces o) ≡ false
    → IsRef (λ v. is_space_ref v spaces) (truthy o)
unfolding space_ref unknown_ref
space_ref-IsRef path spaces o h =
    check_ref-IsRef (λ v. is_space_ref v spaces) _ (truthy o) (λ v. refl) h

pub engine_ref-IsRef :
    (path : String) (engines : List String) (o : Option String)
    → has_errors (engine_ref path engines o) ≡ false
    → IsRef (is_engine_installed engines) (truthy o)
unfolding engine_ref uninstalled_engine
engine_ref-IsRef path engines o h =
    check_ref-IsRef (is_engine_installed engines) _ (truthy o) (λ v. refl) h

-- Every space names a declared instance.
abbrev pub HasInstance : List String → String × String → Type 0
HasInstance instances space = is_declared space.1 instances ≡ true

instance_issues-HasInstance :
    (base : String) (instances : List String) (spaces : List (String × String))
    → has_errors (instance_issues base instances spaces) ≡ false
    → All (HasInstance instances) spaces
unfolding instance_issues unknown_ref has_errors
instance_issues-HasInstance base instances [] h = tt
instance_issues-HasInstance base instances ((key, owner) ∷ rest) h =
    elim (Bool-cases (is_declared owner instances)) [
      | inl e ↦ (e, instance_issues-HasInstance base instances rest (rw e at h))
      | inr e ↦ absurd (let k = rw e at h in cc)
    ]

-- The default space and the instances of a memory section are declared.
abbrev pub IsWiredMemory : Option MemorySpec → Type 0
IsWiredMemory none = Unit
IsWiredMemory (some memory) =
    IsRef (λ v. is_space_ref v (space_names (some memory))) (truthy memory.default_space)
    × All (HasInstance memory.instances) memory.spaces

pub memory_issues-IsWiredMemory :
    (base : String) (o : Option MemorySpec)
    → has_errors (memory_issues base o) ≡ false
    → IsWiredMemory o
unfolding memory_issues
memory_issues-IsWiredMemory base none h = tt
memory_issues-IsWiredMemory base (some memory) h =
    let spaces = space_names (some memory) in
    let first = space_ref (at base ".memory.default_space") spaces memory.default_space in
    let second = instance_issues base memory.instances memory.spaces in
    let (h12, _) = quiet (first ++ second) (disabled_warning base memory) h in
    let (h1, h2) = quiet first second h12 in
    (
      space_ref-IsRef (at base ".memory.default_space") spaces memory.default_space h1,
      instance_issues-HasInstance base memory.instances memory.spaces h2,
    )

pub profile_issues-AreRefs :
    (base : String) (spaces : List String) (profiles : List (String × Option String))
    → has_errors (profile_issues base spaces profiles) ≡ false
    → AreRefs (λ v. is_space_ref v spaces) profiles
unfolding profile_issues
profile_issues-AreRefs base spaces [] h = tt
profile_issues-AreRefs base spaces ((key, space) ∷ rest) h =
    let (a, b) = quiet (space_ref _ spaces space) (profile_issues base spaces rest) h in
    (space_ref-IsRef _ spaces space a, profile_issues-AreRefs base spaces rest b)

-- An enabled desktop asks for the private network only where there is one.
abbrev pub IsReachable : Bool → Option DesktopSpec → Type 0
IsReachable tailscale none = Unit
IsReachable tailscale (some desktop) =
    (desktop.enabled && is_declared "tailnet" desktop.access && not tailscale) ≡ false

pub desktop_issues-IsReachable :
    (base : String) (tailscale : Bool) (o : Option DesktopSpec)
    → has_errors (desktop_issues base tailscale o) ≡ false
    → IsReachable tailscale o
unfolding desktop_issues has_errors
desktop_issues-IsReachable base tailscale none h = tt
desktop_issues-IsReachable base tailscale (some desktop) h =
    elim (Bool-cases (desktop.enabled && is_declared "tailnet" desktop.access && not tailscale)) [
      | inl e ↦ absurd (let k = rw e at h in cc)
      | inr e ↦ e
    ]

-- None of the names is among the seen ones, and none stands twice.
abbrev pub IsUnique : List String → Type 0
IsUnique [] = Unit
IsUnique (n ∷ ns) = (is_declared n ns ≡ false) × IsUnique ns

abbrev pub IsUnseen : List (String × ℕ) → List String → Type 0
IsUnseen seen ns = All (λ n. first_index n seen ≡ none) ns × IsUnique ns

unseen_tail :
    (name : String) (i : ℕ) (seen : List (String × ℕ)) (ns : List String)
    → first_index name seen ≡ none
    → All (λ n. first_index n (enter name i seen) ≡ none) ns
    → (is_declared name ns ≡ false) × All (λ n. first_index n seen ≡ none) ns
unfolding enter first_index
unseen_tail name i seen [] e h = (refl, tt)
unseen_tail name i seen (n ∷ ns) e (p, h) =
    let (a, b) = unseen_tail name i seen ns e h in
    elim (Bool-cases (name == n)) [
      | inl same ↦ absurd (let k = rw (e, same) at p in cc)
      | inr apart ↦
          let other : n == name ≡ false = ground (arith, eq_iff name n, eq_iff n name) in
          (rw other a, (rw (e, apart) at p, b))
    ]

pub IsUnseen-cons :
    (name : String) (i : ℕ) (seen : List (String × ℕ)) (ns : List String)
    → first_index name seen ≡ none
    → IsUnseen (enter name i seen) ns
    → IsUnseen seen (name ∷ ns)
IsUnseen-cons name i seen ns e (h, u) =
    let (a, b) = unseen_tail name i seen ns e h in ((e, b), (a, u))

pub duplicate_project-none :
    (path name user : String) (o : Option ℕ)
    → has_errors (duplicate_project path name user o) ≡ false
    → o ≡ none
unfolding duplicate_project has_errors
duplicate_project-none path name user none h = refl
duplicate_project-none path name user (some i) h = absurd (cc)

pub duplicate_user-none :
    (base user : String) (o : Option ℕ) → has_errors (duplicate_user base user o) ≡ false → o ≡ none
unfolding duplicate_user has_errors
duplicate_user-none base user none h = refl
duplicate_user-none base user (some i) h = absurd (cc)
