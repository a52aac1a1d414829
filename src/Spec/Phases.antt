-- ===== src/Spec/Phases.antt =====
-- clients/devbox/src/spec/phases.ts: the phases that `devbox apply` can be given.
use remote_devbox.Base.{
  String, Option, none, some, List, [], ◌∷◌, ◌==◌, ◌||◌, find, map, join, if◌then◌else◌, ◌≡◌, refl,
}
use remote_devbox.Base.Attempts.{Attempt, done, throws}

pub record Phase : Type 0 where
  pub name : String
  pub tags : List String
  pub summary : String

abbrev phase : String → List String → String → Phase
phase name tags summary = record { name = name; tags = tags; summary = summary }

abbrev only : String → String → Phase
only name summary = phase name (name ∷ []) summary

unfoldable pub phases : List Phase
phases =
    only "preflight" "read-only host, capacity and adoption checks"
    ∷ phase "base" ("base" ∷ "operator" ∷ []) "packages, swap, zram, operator account"
    ∷ only "security" "sshd hardening, firewall, fail2ban"
    ∷ phase "network" ("tailscale" ∷ "mosh" ∷ "et" ∷ []) "tailnet and roaming terminals"
    ∷ only "runtime" "shared toolchain via mise"
    ∷ only "developers" "accounts, isolation, resource slices, git identities"
    ∷ only "agents" "agent profiles and launchers"
    ∷ only "projects" "clones, per-repo identity, dependencies"
    ∷ only "rc" "always-on Remote Control servers, one per project"
    ∷ only "orca" "optional Orca runtimes and mobile Relay, one per developer"
    ∷ only "browser" "headless Chrome and the browser MCP servers"
    ∷ only "containers" "rootless engines and the engine map"
    ∷ only "memory" "memory daemons, banks and agent wiring"
    ∷ only "desktop" "XFCE/xRDP for developers that asked for one"
    ∷ only "bridge" "the client-box file bridge and app configs"
    ∷ only "prune" "remove what devbox.yml no longer declares (asks first)"
    ∷ []

unfoldable pub phase_by_name : String → Option Phase
unfolding phases
phase_by_name name = find (λ (p : Phase). p.name == name) phases

unknown_phase : String → Attempt (Option (List String))
unfolding phases
unknown_phase name = throws (
    "unknown phase '"
    ∷ name
    ∷ "' (have: "
    ∷ join ", " (map (λ (p : Phase). p.name) phases)
    ∷ ", all)"
    ∷ [])

tags_of : String → Option Phase → Attempt (Option (List String))
unfolding unknown_phase
tags_of name none = unknown_phase name
tags_of name (some p) = done (some p.tags)

-- `none` in the result stands for `null`, the whole playbook.
unfoldable pub tags_for : Option String → Attempt (Option (List String))
unfolding tags_of phase_by_name
tags_for none = done none
tags_for (some name) =
    if name == "" || name == "all" then done none else tags_of name (phase_by_name name)

network_test : tags_for (some "network") ≡ done (some ("tailscale" ∷ "mosh" ∷ "et" ∷ []))
unfolding tags_for
network_test = refl

all_test : tags_for (some "all") ≡ done none
unfolding tags_for
all_test = refl
