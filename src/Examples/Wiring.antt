-- ===== src/Examples/Wiring.antt =====
-- A small spec that is checked and resolved, and one with a project that points at nothing.
use remote_devbox.Base.{String, true, false, Option, none, some, List, [], ◌∷◌, ◌≡◌, refl, map, All}
use remote_devbox.Spec.Issues.{has_errors}
use remote_devbox.Spec.PortClaims.{
  port_issues, issues_from, claim_issue, others_of, claims_on, group_from, add_claim,
}
use remote_devbox.Spec.McpPorts.{mcp_port_issues, browser_users, assign_mcp_ports}
use remote_devbox.Spec.Sections.{ProjectSpec, DeveloperSpec, DevboxSpec, RcFields, stated}
use remote_devbox.Spec.References.{validate_references}
use remote_devbox.Spec.References.Wiring.Whole.{IsWired, validate_references-IsWired}
use remote_devbox.Spec.Resolve.{choose_named, resolve_memory_space}
use remote_devbox.Spec.Resolution.{ResolvedDeveloper, default_resources, resolve_spec}
use remote_devbox.Spec.Resolution.Wired.{IsResolvedDeveloper, resolve_spec-IsResolvedDeveloper}

abbrev no_fields : RcFields
no_fields = record { enabled = none; spawn = none; capacity = none; resources = []; build_env = [] }

abbrev project : String → Option String → ProjectSpec
project name identity = record {
  name = name;
  repo = "git@example:app";
  branch = none;
  install = none;
  update = none;
  remote_control = stated none no_fields;
  git_identity = identity;
  agent_profile = none;
  memory_space = none;
  container_engine = some "none";
  ports = 3000 ∷ [];
}

abbrev developer : List ProjectSpec → DeveloperSpec
developer projects = record {
  user = "dev";
  git_identities = "home" ∷ "job" ∷ [];
  default_git_identity = some "home";
  agent_profiles = ("main", record { provider = some "claude"; memory_space = none }) ∷ [];
  default_agent_profile = none;
  memory = none;
  desktop = some (record { enabled = true; access = "tunnel" ∷ [] });
  container_engine = none;
  browser = some true;
  projects = projects;
}

abbrev spec_of : List ProjectSpec → DevboxSpec
spec_of projects = record {
  operator_user = "ops";
  tailscale_enabled = false;
  install_engines = "podman-rootless" ∷ [];
  default_engine = some "podman-rootless";
  remote_control = no_fields;
  runtime_limits = [];
  browser = record {
    enabled = none;
    mcp_port = none;
    failover = record { cdp_port = none; client_tunnel_port = none; fallback_chrome_port = none };
  };
  chrome_user = some "dev";
  developers = developer projects ∷ [];
}

abbrev spec : DevboxSpec
spec = spec_of (project "app" (some "job") ∷ [])

checked : has_errors (validate_references spec) ≡ false
unfolding has_errors validate_references port_issues mcp_port_issues issues_from claim_issue
    others_of claims_on group_from add_claim browser_users assign_mcp_ports
checked = refl

dangling : has_errors (validate_references (spec_of (project "app" (some "other") ∷ []))) ≡ true
unfolding has_errors validate_references port_issues mcp_port_issues issues_from claim_issue
    others_of claims_on group_from add_claim browser_users assign_mcp_ports
dangling = refl

validate_references-IsWired_example : IsWired spec
validate_references-IsWired_example = validate_references-IsWired spec checked

abbrev resolved : List ResolvedDeveloper
resolved =
    record {
      declared = developer (project "app" (some "job") ∷ []);
      projects =
          record {
            name = "app";
            repo = "git@example:app";
            branch = "main";
            git_identity = some "job";
            agent_profile = some "main";
            container_engine = "none";
            memory_space = none;
            ports = 3000 ∷ [];
            install = true;
            update = false;
            remote_control = some (record {
              agent = "claude";
              agent_profile = "main";
              config_env = some "CLAUDE_CONFIG_DIR";
              config_dir = "/home/dev/.agent-profiles/main";
              name = "dev · app";
              spawn = "worktree";
              capacity = 4;
              resources = default_resources;
              build_env = [];
            });
          }
          ∷ [];
    }
    ∷ []

resolves : (resolve_spec spec).resolved ≡ some resolved
unfolding resolve_spec has_errors choose_named resolve_memory_space
resolves = refl

resolve_spec-IsResolvedDeveloper_example :
    (map (λ (d : ResolvedDeveloper). d.declared) resolved ≡ spec.developers)
    × All IsResolvedDeveloper resolved
resolve_spec-IsResolvedDeveloper_example =
    resolve_spec-IsResolvedDeveloper spec resolved checked resolves
