-- ===== src/Spec/McpPorts.antt =====
-- clients/devbox/src/spec/browser-ports.ts, and `mcpPortIssues` of references.ts: the ports of the
-- browser servers, one for each developer that has a browser, and what they may not run into.
pub mod Range
use remote_devbox.Base.{
  ℕ, suc, ◌+◌, String, Bool, true, false, Option, none, some, List, [], ◌∷◌, ◌++◌, map, filter,
  find, length, concat, decimal, eqb, ltb, or_default, if◌then◌else◌,
}
use remote_devbox.Spec.Issues.{Issue, err}

abbrev pub default_mcp_port : ℕ
default_mcp_port = 9522

abbrev pub default_cdp_port : ℕ
default_cdp_port = 9222

abbrev pub default_client_tunnel_port : ℕ
default_client_tunnel_port = 9322

abbrev pub default_fallback_chrome_port : ℕ
default_fallback_chrome_port = 9422

abbrev pub max_port : ℕ
max_port = 65535

pub record McpServer : Type 0 where
  pub user : String
  pub port : ℕ

servers_from : ℕ → ℕ → List String → List McpServer
servers_from base index [] = []
servers_from base index (user ∷ users) =
    record { user = user; port = base + index } ∷ servers_from base (suc index) users

unfoldable pub assign_mcp_ports : List String → ℕ → List McpServer
unfolding servers_from
assign_mcp_ports users base = servers_from base 0 users

pub record BrowserDeveloper : Type 0 where
  pub user : String
  pub browser : Option Bool

unfoldable pub browser_users : List BrowserDeveloper → List String
browser_users developers =
    map (λ (d : BrowserDeveloper). d.user)
      (filter (λ (d : BrowserDeveloper). or_default d.browser false) developers)

pub record Failover : Type 0 where
  pub cdp_port : Option ℕ
  pub client_tunnel_port : Option ℕ
  pub fallback_chrome_port : Option ℕ

-- `spec.browser`; an absent section is one with no field.
pub record BrowserSpec : Type 0 where
  pub enabled : Option Bool
  pub mcp_port : Option ℕ
  pub failover : Failover

pub record PortClaim : Type 0 where
  pub port : ℕ
  pub path : String

abbrev pub claimed_ports : Failover → List PortClaim
claimed_ports failover =
    record {
      port = or_default failover.cdp_port default_cdp_port;
      path = "browser.failover.cdp_port";
    }
    ∷ record {
      port = or_default failover.client_tunnel_port default_client_tunnel_port;
      path = "browser.failover.client_tunnel_port";
    }
    ∷ record {
      port = or_default failover.fallback_chrome_port default_fallback_chrome_port;
      path = "browser.failover.fallback_chrome_port";
    }
    ∷ []

-- `servers[servers.length - 1]!.port`.
abbrev pub last_port : ℕ → List McpServer → ℕ
last_port before [] = before
last_port before (s ∷ ss) = last_port s.port ss

need : ℕ → ℕ → ℕ → String
need n base last = concat (
    decimal n
    ∷ " browser-enabled developer"
    ∷ (if eqb n 1 then "" else "s")
    ∷ " need"
    ∷ (if eqb n 1 then "s" else "")
    ∷ " one MCP server each, on ports "
    ∷ decimal base
    ∷ ".."
    ∷ decimal last
    ∷ [])

hit_issue : String → PortClaim → Option McpServer → List Issue
hit_issue needed claim none = []
hit_issue needed claim (some hit) =
    err "browser.mcp_port" (
      concat (
        needed
        ∷ ", but "
        ∷ hit.user
        ∷ "'s "
        ∷ decimal hit.port
        ∷ " is already "
        ∷ claim.path
        ∷ " — move browser.mcp_port"
        ∷ []))
    ∷ []

claim_issues : String → List McpServer → List PortClaim → List Issue
claim_issues needed servers [] = []
claim_issues needed servers (claim ∷ claims) =
    hit_issue needed claim (find (λ (s : McpServer). eqb s.port claim.port) servers)
    ++ claim_issues needed servers claims

by_servers : String → List McpServer → ℕ → Failover → List Issue
by_servers needed servers last failover =
    if ltb max_port last
    then err "browser.mcp_port" (
        concat (
          needed
          ∷ ", which runs past the last valid port ("
          ∷ decimal max_port
          ∷ ") — lower browser.mcp_port"
          ∷ []))
      ∷ []
    else claim_issues needed servers (claimed_ports failover)

by_users : List String → ℕ → Failover → List Issue
by_users [] base failover = []
by_users (user ∷ users) base failover =
    let servers = assign_mcp_ports (user ∷ users) base in
    let last = last_port base servers in
    by_servers (need (length (user ∷ users)) base last) servers last failover

abbrev is_off : Option Bool → Bool
is_off (some false) = true
is_off _ = false

unfoldable pub mcp_port_issues : BrowserSpec → List BrowserDeveloper → List Issue
unfolding by_users by_servers claim_issues hit_issue need
mcp_port_issues spec developers =
    if is_off spec.enabled
    then []
    else by_users (browser_users developers) (or_default spec.mcp_port default_mcp_port)
        spec.failover
