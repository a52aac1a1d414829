-- ===== src/Spec/References/Wiring/Whole.antt =====
-- What a spec without errors has: every name that it points at is declared.
use remote_devbox.Base.{
  ℕ, suc, String, true, false, ◌||◌, ◌⊎◌, length, or_default, Option, none, some, List, [], ◌∷◌,
  ◌==◌, ◌≡◌, refl, map, All, Bool-cases, inl, inr, is_some, arith,
}
use remote_devbox.Doctor.Collect.{truthy}
use remote_devbox.Spec.Issues.{has_errors}
use remote_devbox.Spec.PortClaims.{port_issues}
use remote_devbox.Spec.McpPorts.{mcp_port_issues, browser_users, default_mcp_port}
use remote_devbox.Spec.McpPorts.Range.{
  IsFreeRange, mcp_port_issues-empty_iff, mcp_port_issues-IsError,
}
use remote_devbox.Spec.Resolve.Spaces.{IsRef}
use remote_devbox.Spec.Sections.{
  DeveloperSpec, RuntimeLimit, DevboxSpec, is_declared, uninstalled_engine, first_index, enter,
}
use remote_devbox.Spec.References.{
  developer_issues, developers_issues, seen_users, limit_issues, limits_issues, developer_claims,
  chrome_issues, browser_developer, validate_references,
}
use remote_devbox.Spec.References.Wiring.{quiet, check_ref-IsRef, IsUnseen-cons, IsUnseen, IsUnique}
use remote_devbox.Spec.References.Wiring.Ports.{
  none_left, developer_ports, AreApart, IsUnreserved, port_issues-AreApart,
}
use remote_devbox.Spec.References.Wiring.Developers.{
  IsWiredDeveloper, developer_issues-IsWiredDeveloper,
}

abbrev pub user_names : List DeveloperSpec → List String
user_names developers = map (λ (d : DeveloperSpec). d.user) developers

developers_issues-IsWiredDeveloper :
    (spec : DevboxSpec) (i : ℕ) (seen : List (String × ℕ)) (developers : List DeveloperSpec)
    → has_errors (developers_issues spec i seen developers) ≡ false
    → IsUnseen seen (user_names developers) × All (IsWiredDeveloper spec) developers
unfolding developers_issues
developers_issues-IsWiredDeveloper spec i seen [] h = ((tt, tt), tt)
developers_issues-IsWiredDeveloper spec i seen (dev ∷ rest) h =
    let (a, b) = quiet (developer_issues spec i seen dev) _ h in
    let (fresh, wired) = developer_issues-IsWiredDeveloper spec i seen dev a in
    let (unseen, others) =
      developers_issues-IsWiredDeveloper spec (suc i) (enter dev.user i seen) rest b in
    (IsUnseen-cons dev.user i seen _ fresh unseen, (wired, others))

first_index-enter :
    (name user : String) (i : ℕ) (seen : List (String × ℕ))
    → is_some (first_index name (enter user i seen)) ≡ true
    → (is_some (first_index name seen) || user == name) ≡ true
unfolding enter first_index
first_index-enter name user i seen h = elim (Bool-cases (is_some (first_index user seen))) [
  | inl e ↦ let k = rw e at h in rw k refl
  | inr e ↦
      let k = rw e at h in
      elim (Bool-cases (user == name)) [
        | inl same ↦ ground (arith, same)
        | inr apart ↦ let l = rw apart at k in rw l refl
      ]
]

-- Only a developer's user gets into the map of users.
seen_users-declared :
    (name : String) (i : ℕ) (seen : List (String × ℕ)) (developers : List DeveloperSpec)
    → is_some (first_index name (seen_users i seen developers)) ≡ true
    → (is_some (first_index name seen) || is_declared name (user_names developers)) ≡ true
unfolding seen_users
seen_users-declared name i seen [] h = rw h refl
seen_users-declared name i seen (dev ∷ rest) h =
    let k = seen_users-declared name (suc i) (enter dev.user i seen) rest h in
    elim (Bool-cases (is_some (first_index name (enter dev.user i seen)))) [
      | inl e ↦ let l = first_index-enter name dev.user i seen e in ground arith
      | inr e ↦ let l = rw e at k in ground arith
    ]

-- A limit is for a developer's container, on an engine that is installed.
abbrev pub IsOwnedLimit : DevboxSpec → RuntimeLimit → Type 0
IsOwnedLimit spec limit =
    (is_declared limit.user (user_names spec.developers) ≡ true)
    × (is_declared limit.engine spec.install_engines ≡ true)

limits_issues-IsOwnedLimit :
    (spec : DevboxSpec) (index : ℕ) (limits : List RuntimeLimit)
    → has_errors (limits_issues spec.install_engines (seen_users 0 [] spec.developers) index limits)
      ≡ false
    → All (IsOwnedLimit spec) limits
unfolding limits_issues limit_issues has_errors uninstalled_engine
limits_issues-IsOwnedLimit spec index [] h = tt
limits_issues-IsOwnedLimit spec index (limit ∷ rest) h =
    let seen = seen_users 0 [] spec.developers in
    let (a, b) = quiet (limit_issues spec.install_engines seen index limit) _ h in
    elim (Bool-cases (is_some (first_index limit.user seen))) [
      | inr e ↦ absurd (let k = rw e at a in cc)
      | inl e ↦ elim (Bool-cases (is_declared limit.engine spec.install_engines)) [
        | inr f ↦ absurd (let k = rw (e, f) at a in cc)
        | inl f ↦ (
          (seen_users-declared limit.user 0 [] spec.developers e, f),
          limits_issues-IsOwnedLimit spec (suc index) rest b,
        )
      ]
    ]

-- The parts of the spec that the errors tell of.
pub record IsWired (spec : DevboxSpec) : Type 0 where
  pub developers : All (IsWiredDeveloper spec) spec.developers
  pub users : IsUnique (user_names spec.developers)
  pub limits : All (IsOwnedLimit spec) spec.runtime_limits
  pub chrome :
      IsRef (λ user. is_declared user (user_names spec.developers)) (truthy spec.chrome_user)
  pub ports : AreApart (developer_ports spec.developers)
  pub unreserved : All IsUnreserved (developer_ports spec.developers)
  pub servers :
      (spec.browser.enabled ≡ some false)
      ⊎ (browser_users (map browser_developer spec.developers) ≡ [])
      ⊎ IsFreeRange
          (or_default spec.browser.mcp_port default_mcp_port)
          (length (browser_users (map browser_developer spec.developers)))
          spec.browser.failover

chrome_issues-IsRef :
    (developers : List DeveloperSpec) (chrome_user : Option String)
    → has_errors (chrome_issues (seen_users 0 [] developers) chrome_user) ≡ false
    → IsRef (λ user. is_declared user (user_names developers)) (truthy chrome_user)
unfolding chrome_issues
chrome_issues-IsRef developers chrome_user h = declared (truthy chrome_user) (
    check_ref-IsRef (λ user. is_some (first_index user (seen_users 0 [] developers))) _
      (truthy chrome_user) (λ v. refl) h)
  where
    declared :
        (o : Option String)
        → IsRef (λ user. is_some (first_index user (seen_users 0 [] developers))) o
        → IsRef (λ user. is_declared user (user_names developers)) o
    declared none k = tt
    declared (some user) k = seen_users-declared user 0 [] developers k

-- In a spec without errors: the users are apart, and so are each developer's project names; every
-- git identity, agent profile, memory space and memory instance that a developer or a project
-- points at is declared by that developer, a space perhaps as `none`; every engine is installed, and
-- an enabled desktop asks for the private network only where there is one; each container limit and
-- the fallback browser belong to a developer; no port is stated twice by the projects of all
-- developers, and none is sshd's, Eternal Terminal's or xRDP's; and the browser is turned off, no
-- developer has one, or the ports of its servers are valid and apart from those of its failover.
pub validate_references-IsWired :
    (spec : DevboxSpec) → has_errors (validate_references spec) ≡ false → IsWired spec
unfolding validate_references
validate_references-IsWired spec h =
    let (h4, servers) =
      quiet _ (mcp_port_issues spec.browser (map browser_developer spec.developers)) h in
    let (h3, chrome) =
      quiet _ (chrome_issues (seen_users 0 [] spec.developers) spec.chrome_user) h4 in
    let (h2, ports) = quiet _ (port_issues (developer_claims 0 0 spec.developers)) h3 in
    let (developers, limits) = quiet (developers_issues spec 0 [] spec.developers) _ h2 in
    let (apart, free) = port_issues-AreApart spec.developers ports in
    let users = map browser_developer spec.developers in
    let (unseen, wired) = developers_issues-IsWiredDeveloper spec 0 [] spec.developers developers in
    record {
      developers = wired;
      users = unseen.1;
      limits = limits_issues-IsOwnedLimit spec 0 spec.runtime_limits limits;
      chrome = chrome_issues-IsRef spec.developers spec.chrome_user chrome;
      ports = apart;
      unreserved = free;
      servers =
          (mcp_port_issues-empty_iff spec.browser users).0
            (none_left _ (mcp_port_issues-IsError spec.browser users) servers);
    }
