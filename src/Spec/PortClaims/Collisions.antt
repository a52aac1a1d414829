-- ===== src/Spec/PortClaims/Collisions.antt =====
-- Every claimant of a port that is reserved or claimed twice is reported, and no other.
use remote_devbox.Base.{
  append-empty_iff, Memᴰ, append_mem, All-mem, ℕ, true, false, not, List, [], ◌∷◌, ◌++◌, ◌≡◌, ◌≢◌,
  ◌↔◌, refl, sym, ap, ◌∙◌, arith, filter, is_empty, eqb, eqb_iff, one_of, or_default, Bool-cases,
  All, All-append,
}
use mathlib.Core.Logic.{◌⊎◌, inl, inr}
use mathlib.Core.List.{append_assoc, append-nil}
use remote_devbox.Spec.Issues.{Issue, err, is_error}
use remote_devbox.Spec.PortClaims.{
  Claim, ByPort, reserved_ports, claims_on, add_claim, group_from, others_of, claim_issue,
  issues_from, port_issues,
}

abbrev on_port : ℕ → List Claim → List Claim
on_port port cs = filter (λ (c : Claim). eqb c.port port) cs

abbrev held : ℕ → ByPort → List Claim
held port groups = or_default (claims_on port groups) []

held-add_claim :
    (port : ℕ) (c : Claim) (groups : ByPort)
    → held port (add_claim c groups) ≡ held port groups ++ on_port port (c ∷ [])
unfolding claims_on add_claim
held-add_claim port c [] = elim (Bool-cases (eqb c.port port)) [
  | inl e ↦ rw e refl
  | inr e ↦ rw e refl
]
held-add_claim port c ((p, cs) ∷ rest) = elim (Bool-cases (eqb p c.port)) [
  | inl e ↦ elim (Bool-cases (eqb p port)) [
    | inl k ↦
        let same : eqb c.port port ≡ true = rw ((eqb_iff p c.port).0 e) at k in rw (e, k, same) refl
    | inr k ↦
        let apart : eqb c.port port ≡ false = rw ((eqb_iff p c.port).0 e) at k in
        rw (e, k, apart) (sym (append-nil (held port rest)))
  ]
  | inr e ↦ elim (Bool-cases (eqb p port)) [
    | inl k ↦
        let apart : eqb c.port port ≡ false = ground arith in rw (e, k, apart) (sym (append-nil cs))
    | inr k ↦ rw (e, k) (held-add_claim port c rest)
  ]
]

on_port-cons :
    (port : ℕ) (c : Claim) (cs : List Claim)
    → on_port port (c ∷ []) ++ on_port port cs ≡ on_port port (c ∷ cs)
on_port-cons port c cs = elim (Bool-cases (eqb c.port port)) [
  | inl e ↦ rw e refl
  | inr e ↦ rw e refl
]

held-group_from :
    (port : ℕ) (groups : ByPort) (cs : List Claim)
    → held port (group_from groups cs) ≡ held port groups ++ on_port port cs
unfolding group_from
held-group_from port groups [] = sym (append-nil (held port groups))
held-group_from port groups (c ∷ cs) =
    held-group_from port (add_claim c groups) cs
    ∙ ap (λ l. l ++ on_port port cs) (held-add_claim port c groups)
    ∙ append_assoc (held port groups) (on_port port (c ∷ [])) (on_port port cs)
    ∙ ap (λ l. held port groups ++ l) (on_port-cons port c cs)

-- No other claim of the list is on the port.
abbrev pub IsAlone : List Claim → Claim → Type 0
IsAlone cs claim = All (λ (c : Claim). c.port ≡ claim.port → c.place ≡ claim.place) cs

others-empty_iff :
    (claim : Claim) (cs : List Claim)
    → (is_empty (filter (λ (c : Claim). not (eqb c.place claim.place)) (on_port claim.port cs))
        ≡ true)
      ↔ IsAlone cs claim
others-empty_iff claim [] = (λ h. tt, λ h. refl)
others-empty_iff claim (c ∷ cs) =
    let (to, from) = others-empty_iff claim cs in
    elim (Bool-cases (eqb c.port claim.port)) [
      | inl e ↦ elim (Bool-cases (eqb c.place claim.place)) [
        | inl k ↦
            rw (e, k) (λ h. (λ q. (eqb_iff c.place claim.place).0 k, to h), λ (h, hs). from hs)
        | inr k ↦
            rw (e, k)
              (
                λ h. absurd (cc),
                λ (h, hs). absurd (let r = h ((eqb_iff c.port claim.port).0 e) in ground arith),
              )
      ]
      | inr e ↦ rw e (λ h. (λ q. absurd (ground arith), to h), λ (h, hs). from hs)
    ]

-- The port is not one of the box's own, and no other claim is on it.
abbrev pub IsFree : List Claim → Claim → Type 0
IsFree cs claim = (one_of reserved_ports claim.port ≡ false) × IsAlone cs claim

held-all : (port : ℕ) (cs : List Claim) → held port (group_from [] cs) ≡ on_port port cs
unfolding claims_on
held-all port cs = held-group_from port [] cs

others_of-empty_iff :
    (cs : List Claim) (claim : Claim)
    → (is_empty (others_of (group_from [] cs) claim) ≡ true) ↔ IsAlone cs claim
unfolding others_of
others_of-empty_iff cs claim = rw (held-all claim.port cs) (others-empty_iff claim cs)

claim_issue-empty_iff :
    (cs : List Claim) (claim : Claim)
    → (claim_issue (group_from [] cs) claim ≡ []) ↔ IsFree cs claim
unfolding claim_issue
claim_issue-empty_iff cs claim =
    let groups = group_from [] cs in
    let (to, from) = others_of-empty_iff cs claim in
    elim (Bool-cases (one_of reserved_ports claim.port)) [
      | inl e ↦ rw e (λ h. absurd (cc), λ (h, k). absurd (cc))
      | inr e ↦ elim (Bool-cases (is_empty (others_of groups claim))) [
        | inl k ↦ rw (e, k) (λ h. (refl, to k), λ h. refl)
        | inr k ↦ rw (e, k) (λ h. absurd (cc), λ (h, a). absurd (let r = from a in cc))
      ]
    ]

issues_from-empty_iff :
    (all rest : List Claim) → (issues_from (group_from [] all) rest ≡ []) ↔ All (IsFree all) rest
unfolding issues_from
issues_from-empty_iff all [] = (λ h. tt, λ h. refl)
issues_from-empty_iff all (c ∷ cs) =
    let groups = group_from [] all in
    let both = append-empty_iff (claim_issue groups c) (issues_from groups cs) in
    let one = claim_issue-empty_iff all c in
    let rest = issues_from-empty_iff all cs in
    (λ h. (one.0 (both.0 h).0, rest.0 (both.0 h).1), λ (h, k). both.1 (one.1 h, rest.1 k))

-- There is no issue exactly if no claim is on a port of the box's own, and claims at different
-- places are on different ports.
pub port_issues-empty_iff : (cs : List Claim) → (port_issues cs ≡ []) ↔ All (IsFree cs) cs
unfolding port_issues
port_issues-empty_iff cs = issues_from-empty_iff cs cs

claim_issue-IsError :
    (groups : ByPort) (claim : Claim) → All (λ i. is_error i ≡ true) (claim_issue groups claim)
unfolding claim_issue
claim_issue-IsError groups claim = elim (Bool-cases (one_of reserved_ports claim.port)) [
  | inl e ↦ rw e (refl, tt)
  | inr e ↦ elim (Bool-cases (is_empty (others_of groups claim))) [
    | inl k ↦ rw (e, k) tt
    | inr k ↦ rw (e, k) (refl, tt)
  ]
]

issues_from-IsError :
    (groups : ByPort) (cs : List Claim) → All (λ i. is_error i ≡ true) (issues_from groups cs)
unfolding issues_from
issues_from-IsError groups [] = tt
issues_from-IsError groups (c ∷ cs) =
    All-append (λ i. is_error i ≡ true) (claim_issue groups c) (issues_from groups cs)
      (claim_issue-IsError groups c) (issues_from-IsError groups cs)

-- A clash of ports is an error.
pub port_issues-IsError : (cs : List Claim) → All (λ i. is_error i ≡ true) (port_issues cs)
unfolding port_issues
port_issues-IsError cs = issues_from-IsError (group_from [] cs) cs

issue_mem :
    (groups : ByPort) (cs : List Claim) (claim : Claim) (issue : Issue)
    → Memᴰ claim cs
    → Memᴰ issue (claim_issue groups claim)
    → Memᴰ issue (issues_from groups cs)
unfolding issues_from
issue_mem groups [] claim issue m i = elim m [ ]
issue_mem groups (c ∷ cs) claim issue (Memᴰ.head e) i =
    (append_mem (claim_issue groups c) (issues_from groups cs) issue).1 (inl (rw⁻¹ e i))
issue_mem groups (c ∷ cs) claim issue (Memᴰ.tail m) i =
    (append_mem (claim_issue groups c) (issues_from groups cs) issue).1
      (inr (issue_mem groups cs claim issue m i))

claim_issue-path :
    (groups : ByPort) (claim : Claim)
    → (claim_issue groups claim ≡ [])
      ⊎ ((issue : Issue) × Memᴰ issue (claim_issue groups claim) × (issue.path ≡ claim.path))
unfolding claim_issue
claim_issue-path groups claim = elim (Bool-cases (one_of reserved_ports claim.port)) [
  | inl e ↦ rw e (inr (err claim.path _, Memᴰ.head refl, refl))
  | inr e ↦ elim (Bool-cases (is_empty (others_of groups claim))) [
    | inl k ↦ rw (e, k) (inl refl)
    | inr k ↦ rw (e, k) (inr (err claim.path _, Memᴰ.head refl, refl))
  ]
]

-- Each of two claims on one port is reported under its own path, whichever comes first.
pub port_issues-reported :
    (cs : List Claim) (claim other : Claim)
    → Memᴰ claim cs
    → Memᴰ other cs
    → other.port ≡ claim.port
    → other.place ≢ claim.place
    → (issue : Issue) × Memᴰ issue (port_issues cs) × (issue.path ≡ claim.path)
unfolding port_issues
port_issues-reported cs claim other here there same apart =
    elim (claim_issue-path (group_from [] cs) claim) [
      | inl e ↦
          let free = (claim_issue-empty_iff cs claim).0 e in
          absurd (apart (All-mem _ cs other free.1 there same))
      | inr (issue, m, p) ↦ (issue, issue_mem (group_from [] cs) cs claim issue here m, p)
    ]
