-- ===== src/Spec/PortClaims.antt =====
-- `portIssues` of clients/devbox/src/spec/references.ts. A claim is numbered by its place, which
-- stands for the identity of its object: `c !== claim` compares places.
pub mod Collisions
use remote_devbox.Base.{
  ℕ, suc, String, Bool, true, false, not, Option, none, some, List, [], ◌∷◌, ◌++◌, map, filter,
  is_empty, concat, join, decimal, eqb, one_of, or_default, if◌then◌else◌,
}
use remote_devbox.Spec.Issues.{Issue, err}

-- sshd, Eternal Terminal and xRDP.
abbrev pub reserved_ports : List ℕ
reserved_ports = 22 ∷ 2022 ∷ 3389 ∷ []

pub record Claim : Type 0 where
  pub place : ℕ
  pub port : ℕ
  pub path : String
  pub label : String

-- The map from a port to the claims on it.
abbrev pub ByPort : Type 0
ByPort = List (ℕ × List Claim)

unfoldable pub claims_on : ℕ → ByPort → Option (List Claim)
claims_on port [] = none
claims_on port ((p, cs) ∷ rest) = if eqb p port then some cs else claims_on port rest

-- One round of the first pass: `list.push(claim)`, or a new list.
unfoldable pub add_claim : Claim → ByPort → ByPort
add_claim c [] = (c.port, c ∷ []) ∷ []
add_claim c ((p, cs) ∷ rest) =
    if eqb p c.port then (p, cs ++ c ∷ []) ∷ rest else (p, cs) ∷ add_claim c rest

unfoldable pub group_from : ByPort → List Claim → ByPort
group_from groups [] = groups
group_from groups (c ∷ cs) = group_from (add_claim c groups) cs

unfoldable pub others_of : ByPort → Claim → List Claim
others_of groups claim =
    filter (λ (c : Claim). not (eqb c.place claim.place))
      (or_default (claims_on claim.port groups) [])

-- One round of the second pass.
unfoldable pub claim_issue : ByPort → Claim → List Issue
claim_issue groups claim =
    if one_of reserved_ports claim.port
    then err claim.path (
        concat (
          "port "
          ∷ decimal claim.port
          ∷ " is reserved by the box (sshd / Eternal Terminal / xRDP)"
          ∷ []))
      ∷ []
    else if is_empty (others_of groups claim)
    then []
    else err claim.path (
        concat (
          "port "
          ∷ decimal claim.port
          ∷ " is also claimed by "
          ∷ join ", " (map (λ (c : Claim). c.label) (others_of groups claim))
          ∷ []))
      ∷ []

unfoldable pub issues_from : ByPort → List Claim → List Issue
issues_from groups [] = []
issues_from groups (c ∷ cs) = claim_issue groups c ++ issues_from groups cs

unfoldable pub port_issues : List Claim → List Issue
port_issues claims = issues_from (group_from [] claims) claims
