-- ===== src/Examples/Ports.antt =====
-- Ports of desktops, of browser servers and of projects.
use remote_devbox.Base.{
  ◌↔◌, All, Memᴰ, or_default, length, arith, ℕ, String, Bool, true, false, Option, none, some, List,
  [], ◌∷◌, ◌≡◌, refl,
}
use mathlib.Core.Logic.{◌⊎◌}
use remote_devbox.Spec.Issues.{Issue}
use remote_devbox.Spec.McpPorts.{
  Failover, BrowserSpec, BrowserDeveloper, browser_users, default_mcp_port, mcp_port_issues,
}
use remote_devbox.Spec.McpPorts.Range.{IsFreeRange, mcp_port_issues-empty_iff}
use remote_devbox.Spec.PortClaims.{Claim, port_issues}
use remote_devbox.Spec.PortClaims.Collisions.{IsFree, port_issues-empty_iff, port_issues-reported}
use remote_devbox.Spec.ClientPorts.{
  ClientPortInput, desktops_of, explicit_ports, assign_client_ports, next_free, set_port,
  assign_from,
}
use remote_devbox.Spec.ClientPorts.Assignment.{
  IsAssigned, DistinctUsers, assign_client_ports-IsAssigned,
}
use remote_devbox.Spec.ClientPorts.Distinctness.{IsUnique, ports_of, assign_client_ports-IsUnique}

developer : String → Bool → Option ℕ → ClientPortInput
developer user desktop port = record { user = user; desktop_enabled = desktop; client_port = port }

abbrev developers : List ClientPortInput
developers =
    record { user = "ada"; desktop_enabled = true; client_port = none }
    ∷ record { user = "bob"; desktop_enabled = false; client_port = some 3389 }
    ∷ record { user = "cyd"; desktop_enabled = true; client_port = some 3389 }
    ∷ record { user = "dan"; desktop_enabled = true; client_port = none }
    ∷ []

handed : assign_client_ports developers ≡ ("ada", 3390) ∷ ("cyd", 3389) ∷ ("dan", 3391) ∷ []
unfolding assign_client_ports assign_from next_free set_port desktops_of
handed = refl

users_differ : DistinctUsers (desktops_of developers)
unfolding desktops_of
users_differ = ((refl, (refl, tt)), ((refl, tt), (tt, tt)))

ports_differ : IsUnique (explicit_ports (desktops_of developers))
unfolding desktops_of
ports_differ = (refl, tt)

assign_client_ports-IsAssigned_example :
    IsAssigned
      (explicit_ports (desktops_of developers))
      (desktops_of developers)
      (assign_client_ports developers)
assign_client_ports-IsAssigned_example = assign_client_ports-IsAssigned developers users_differ

assign_client_ports-IsUnique_example : IsUnique (ports_of (assign_client_ports developers))
assign_client_ports-IsUnique_example =
    assign_client_ports-IsUnique developers users_differ ports_differ

abbrev failover : Failover
failover = record { cdp_port = none; client_tunnel_port = none; fallback_chrome_port = some 9523 }

abbrev browser : BrowserSpec
browser = record { enabled = some true; mcp_port = none; failover = failover }

abbrev browser_developers : List BrowserDeveloper
browser_developers =
    record { user = "ada"; browser = some true }
    ∷ record { user = "bob"; browser = none }
    ∷ record { user = "cyd"; browser = some true }
    ∷ []

mcp_port_issues-empty_iff_example : (mcp_port_issues browser browser_developers ≡ []) ↔ (
    (browser.enabled ≡ some false)
    ⊎ (browser_users browser_developers ≡ [])
    ⊎ IsFreeRange
        (or_default browser.mcp_port default_mcp_port)
        (length (browser_users browser_developers))
        browser.failover)
mcp_port_issues-empty_iff_example = mcp_port_issues-empty_iff browser browser_developers

abbrev web : Claim
web = record { place = 0; port = 3000; path = "developers[0].projects[0].ports"; label = "ada/web" }

abbrev api : Claim
api = record { place = 1; port = 3000; path = "developers[1].projects[0].ports"; label = "bob/api" }

port_issues-empty_iff_example :
    (port_issues (web ∷ api ∷ []) ≡ []) ↔ All (IsFree (web ∷ api ∷ [])) (web ∷ api ∷ [])
port_issues-empty_iff_example = port_issues-empty_iff (web ∷ api ∷ [])

port_issues-reported_example :
    (issue : Issue) × Memᴰ issue (port_issues (web ∷ api ∷ [])) × (issue.path ≡ web.path)
port_issues-reported_example =
    port_issues-reported (web ∷ api ∷ []) web api (Memᴰ.head refl) (Memᴰ.tail (Memᴰ.head refl)) refl
      (λ e. ground arith)
