-- ===== src/Spec/McpPorts/Range.antt =====
-- The servers take a range of ports, and no issue means that the range is free.
use remote_devbox.Base.{
  append-empty_iff, ◌∙◌, ℕ, suc, ◌+◌, ◌≤◌, ◌<◌, String, Bool, true, false, Option, none, some, List,
  [], ◌∷◌, ◌≡◌, ◌↔◌, refl, arith, ap, find, length, eqb, ltb, or_default, Bool-cases, All,
  All-append,
}
use mathlib.Core.Logic.{◌⊎◌, inl, inr}
use remote_devbox.Spec.Issues.{is_error}
use remote_devbox.Spec.McpPorts.{
  McpServer, servers_from, assign_mcp_ports, BrowserDeveloper, browser_users, Failover, BrowserSpec,
  PortClaim, claimed_ports, last_port, hit_issue, claim_issues, by_servers, by_users, is_off,
  mcp_port_issues, max_port, default_mcp_port,
}

-- A port outside the range of `n` ports from `base`.
abbrev pub IsOutside : ℕ → ℕ → ℕ → Type 0
IsOutside base n port = (port < base) ⊎ (base + n ≤ port)

last_port-servers :
    (base index before : ℕ) (user : String) (users : List String)
    → last_port before (servers_from base index (user ∷ users)) ≡ base + index + length users
unfolding servers_from
last_port-servers base index before user [] = omega arith
last_port-servers base index before user (u ∷ us) =
    omega (arith, last_port-servers base (suc index) (base + index) u us)

find-servers_iff :
    (base index port : ℕ) (users : List String)
    → (find (λ (s : McpServer). eqb s.port port) (servers_from base index users) ≡ none)
      ↔ IsOutside (base + index) (length users) port
unfolding servers_from
find-servers_iff base index port [] = ground arith
find-servers_iff base index port (u ∷ us) =
    ground (arith, find-servers_iff base (suc index) port us)

add_zero : (n : ℕ) → n + 0 ≡ n
add_zero n = omega arith

find-first_iff :
    (base port : ℕ) (users : List String)
    → (find (λ (s : McpServer). eqb s.port port) (servers_from base 0 users) ≡ none)
      ↔ IsOutside base (length users) port
find-first_iff base port users = rw (add_zero base) at (find-servers_iff base 0 port users)

hit_issue-empty_iff :
    (needed : String) (claim : PortClaim) (o : Option McpServer)
    → (hit_issue needed claim o ≡ []) ↔ (o ≡ none)
unfolding hit_issue
hit_issue-empty_iff needed claim none = (λ h. refl, λ h. refl)
hit_issue-empty_iff needed claim (some hit) = (λ h. absurd (cc), λ h. absurd (cc))

claim_issues-empty_iff :
    (needed : String) (base : ℕ) (users : List String) (claims : List PortClaim)
    → (claim_issues needed (servers_from base 0 users) claims ≡ [])
      ↔ All (λ (c : PortClaim). IsOutside base (length users) c.port) claims
unfolding claim_issues
claim_issues-empty_iff needed base users [] = (λ h. tt, λ h. refl)
claim_issues-empty_iff needed base users (c ∷ cs) =
    let found = find (λ (s : McpServer). eqb s.port c.port) (servers_from base 0 users) in
    let both =
      append-empty_iff (hit_issue needed c found)
        (claim_issues needed (servers_from base 0 users) cs) in
    let hit = hit_issue-empty_iff needed c found in
    let there = find-first_iff base c.port users in
    let rest = claim_issues-empty_iff needed base users cs in
    (
      λ h. (there.0 (hit.0 (both.0 h).0), rest.0 (both.0 h).1),
      λ (h, k). both.1 (hit.1 (there.1 h), rest.1 k),
    )

-- The range ends at a valid port, and none of the browser's own ports is in it.
abbrev pub IsFreeRange : ℕ → ℕ → Failover → Type 0
IsFreeRange base n failover =
    (base + n ≤ suc max_port)
    × All (λ (c : PortClaim). IsOutside base n c.port) (claimed_ports failover)

by_servers-empty_iff :
    (needed : String) (base : ℕ) (user : String) (users : List String) (last : ℕ)
    (failover : Failover)
    → last ≡ base + length users
    → (by_servers needed (servers_from base 0 (user ∷ users)) last failover ≡ [])
      ↔ IsFreeRange base (suc (length users)) failover
unfolding by_servers
by_servers-empty_iff needed base user users last failover e =
    let rest = claim_issues-empty_iff needed base (user ∷ users) (claimed_ports failover) in
    elim (Bool-cases (ltb max_port last)) [
      | inl k ↦ rw k (λ h. absurd (cc), λ h. absurd (let low = h.0 in ground arith))
      | inr k ↦ rw k (λ h. (ground arith, rest.0 h), λ h. rest.1 h.1)
    ]

by_users-empty_iff :
    (users : List String) (base : ℕ) (failover : Failover)
    → (by_users users base failover ≡ [])
      ↔ ((users ≡ []) ⊎ IsFreeRange base (length users) failover)
unfolding by_users assign_mcp_ports
by_users-empty_iff [] base failover = (λ h. inl refl, λ h. refl)
by_users-empty_iff (user ∷ users) base failover =
    let servers = assign_mcp_ports (user ∷ users) base in
    let last = last_port base servers in
    let iff =
      by_servers-empty_iff _ base user users last failover
        (last_port-servers base 0 base user users ∙ ap (λ n. n + length users) (add_zero base)) in
    (λ h. inr (iff.0 h), λ h. elim h [ inl e ↦ absurd (cc) | inr k ↦ iff.1 k ])

off : (o : Option Bool) → is_off o ≡ true → o ≡ some false
off none h = absurd (cc)
off (some true) h = absurd (cc)
off (some false) h = refl

-- There is no issue exactly if the browser is turned off, no developer has one, or the ports of all
-- servers, one for each such developer from the base up, are valid and apart from the ports of the
-- browser's failover.
pub mcp_port_issues-empty_iff :
    (spec : BrowserSpec) (developers : List BrowserDeveloper)
    → (mcp_port_issues spec developers ≡ []) ↔ (
        (spec.enabled ≡ some false)
        ⊎ (browser_users developers ≡ [])
        ⊎ IsFreeRange
            (or_default spec.mcp_port default_mcp_port)
            (length (browser_users developers))
            spec.failover)
unfolding mcp_port_issues
mcp_port_issues-empty_iff spec developers =
    let iff =
      by_users-empty_iff (browser_users developers) (or_default spec.mcp_port default_mcp_port)
        spec.failover in
    elim (Bool-cases (is_off spec.enabled)) [
      | inl e ↦ rw e (λ h. inl (off spec.enabled e), λ h. refl)
      | inr e ↦ rw e (
        λ h. inr (iff.0 h),
        λ h. elim h [ inl k ↦ absurd (let r = rw k at e in cc) | inr k ↦ iff.1 k ],
      )
    ]

hit_issue-IsError :
    (needed : String) (claim : PortClaim) (o : Option McpServer)
    → All (λ i. is_error i ≡ true) (hit_issue needed claim o)
unfolding hit_issue
hit_issue-IsError needed claim none = tt
hit_issue-IsError needed claim (some hit) = (refl, tt)

claim_issues-IsError :
    (needed : String) (servers : List McpServer) (claims : List PortClaim)
    → All (λ i. is_error i ≡ true) (claim_issues needed servers claims)
unfolding claim_issues
claim_issues-IsError needed servers [] = tt
claim_issues-IsError needed servers (c ∷ cs) =
    All-append (λ i. is_error i ≡ true) (hit_issue needed c _) (claim_issues needed servers cs)
      (hit_issue-IsError needed c _) (claim_issues-IsError needed servers cs)

by_users-IsError :
    (users : List String) (base : ℕ) (failover : Failover)
    → All (λ i. is_error i ≡ true) (by_users users base failover)
unfolding by_users by_servers
by_users-IsError [] base failover = tt
by_users-IsError (user ∷ users) base failover =
    let servers = assign_mcp_ports (user ∷ users) base in
    elim (Bool-cases (ltb max_port (last_port base servers))) [
      | inl e ↦ rw e (refl, tt)
      | inr e ↦ rw e (claim_issues-IsError _ servers (claimed_ports failover))
    ]

-- A range that does not fit is an error.
pub mcp_port_issues-IsError :
    (spec : BrowserSpec) (developers : List BrowserDeveloper)
    → All (λ i. is_error i ≡ true) (mcp_port_issues spec developers)
unfolding mcp_port_issues
mcp_port_issues-IsError spec developers = elim (Bool-cases (is_off spec.enabled)) [
  | inl e ↦ rw e tt
  | inr e ↦ rw e (by_users-IsError (browser_users developers) _ spec.failover)
]
