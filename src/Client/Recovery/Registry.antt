-- ===== src/Client/Recovery/Registry.antt =====
-- The registry of clients/devbox/src/recovery.ts: which components can be recovered, and how.
use Prim.Native.Char.{code}
use remote_devbox.Base.{
  ℕ, String, Bool, false, ◌&&◌, ◌||◌, Option, none, some, List, [], ◌∷◌, ◌++◌, ◌==◌, codes, word,
  is_lower, is_digit, one_of, between, cut, eqb, find, if◌then◌else◌,
}
use remote_devbox.Doctor.Types.{RecoveryPolicy, automatic, manual, confirmation_required}
use remote_devbox.Doctor.Parsing.{is_profile_name}
use remote_devbox.Doctor.Recover.{drop_end}

pub data Ownership : Type 0 where
  client_agent client_mount client_sync box_systemd unowned : Ownership

pub record RecoveryRegistration : Type 0 where
  pub component : String
  pub policy : RecoveryPolicy
  pub ownership : Ownership
  pub recoverable_reasons : List String
  pub max_attempts : ℕ

pub record RegisteredPattern : Type 0 where
  pub matches : String → Bool
  pub registration : RecoveryRegistration

registration :
    String → (String → Bool) → RecoveryPolicy → Ownership → List String → RegisteredPattern
registration component matches policy ownership reasons = record {
  matches = matches;
  registration = record {
    component = component;
    policy = policy;
    ownership = ownership;
    recoverable_reasons = reasons;
    max_attempts = 3;
  };
}

-- What follows the prefix, where the text has it.
strip_prefix : String → String → Option String
strip_prefix String.[] s = some s
strip_prefix (String.◌∷◌ c p) String.[] = none
strip_prefix (String.◌∷◌ c p) (String.◌∷◌ d s) =
    let rest = strip_prefix p s in if eqb (code c) (code d) then rest else none

-- A text that is the prefix and then passes the test.
after_prefix : String → (String → Bool) → String → Bool
after_prefix p test s = elim (strip_prefix p s) [ none ↦ false | some rest ↦ test rest ]

-- A profile name, a full stop, and what passes the test: a profile name has no full stop.
profile_dot : (String → Bool) → String → Bool
profile_dot test s = elim (cut b'.' s) [
  | none ↦ false
  | some parts ↦ is_profile_name parts.0 && test parts.1
]

-- `[1-9][0-9]*`.
is_positive_decimal : String → Bool
is_positive_decimal s = word (between b'1' b'9') is_digit (codes s)

name_char : ℕ → Bool
name_char c = is_lower c || is_digit c || one_of (codes "_-") c

-- `[a-z0-9][a-z0-9_-]*`.
is_bank_name : String → Bool
is_bank_name s = word (λ c. is_lower c || is_digit c) name_char (codes s)

unit_char : ℕ → Bool
unit_char c = is_lower c || is_digit c || one_of (codes "_.@-") c

ends_in_service : String → Bool
ends_in_service String.[] = false
ends_in_service (String.◌∷◌ c s) = (String.◌∷◌ c s) == ".service" || ends_in_service s

-- `[a-z0-9_.@-]+\.service`.
is_service_name : String → Bool
is_service_name s = ends_in_service s && word unit_char unit_char (codes (drop_end 8 s))

label_char : ℕ → Bool
label_char c = is_lower c || is_digit c || one_of (codes "._-") c

abbrev unit_failures : List String
unit_failures =
    "unit_failed" ∷ "unit_inactive" ∷ "listener_missing" ∷ "listener_owner_mismatch" ∷ []

abbrev agent_failures : List String
agent_failures =
    "agent_not_loaded" ∷ "agent_not_running" ∷ "agent_not_ready" ∷ "listener_owner_mismatch" ∷ []

abbrev is_agent : String → (String → Bool) → String → Bool
is_agent p test = after_prefix "client.agent.com.devbox." (profile_dot (after_prefix p test))

unfoldable pub registry : List RegisteredPattern
unfolding registration after_prefix strip_prefix profile_dot is_positive_decimal is_bank_name
    is_service_name ends_in_service unit_char name_char label_char
registry =
    registration "desktop.xrdp" (λ s. s == "desktop.xrdp") automatic box_systemd
      (unit_failures ++ "tailnet_not_ready" ∷ [])
    ∷ registration "desktop.xrdp-sesman" (λ s. s == "desktop.xrdp-sesman") confirmation_required
        box_systemd unit_failures
    ∷ registration "browser.proxy" (λ s. s == "browser.proxy") automatic box_systemd unit_failures
    ∷ registration "browser.fallback" (λ s. s == "browser.fallback") automatic box_systemd
        unit_failures
    ∷ registration "browser.mcp.*" (after_prefix "browser.mcp." is_profile_name) automatic
        box_systemd unit_failures
    ∷ registration "memory.*" (after_prefix "memory." (profile_dot is_bank_name)) manual box_systemd
        (unit_failures ++ "process_missing" ∷ [])
    ∷ registration "remote-control.*" (after_prefix "remote-control.agent-rc-" is_service_name)
        automatic box_systemd (unit_failures ++ "process_missing" ∷ [])
    ∷ registration "client.rdp-tunnel.*" (after_prefix "client.rdp-tunnel." is_profile_name)
        automatic client_agent agent_failures
    ∷ registration "client.browser.*" (after_prefix "client.browser." is_profile_name) automatic
        client_agent agent_failures
    ∷ registration "client.agent.*.browser-port-*" (is_agent "browser-port-" is_positive_decimal)
        automatic client_agent agent_failures
    ∷ registration "client.agent.*.browser-autobind-port-*"
        (is_agent "browser-autobind-port-" is_positive_decimal) automatic client_agent
        agent_failures
    ∷ registration "client.agent.*.mount" (is_agent "mount" (λ s. s == "")) automatic client_agent
        agent_failures
    ∷ registration "client.mount.*"
        (after_prefix "client.mount." (λ s. word label_char label_char (codes s))) automatic
        client_mount ("mount_absent" ∷ "mount_disconnected_clean" ∷ [])
    ∷ registration "client.sync.*" (after_prefix "client.sync." is_profile_name) automatic
        client_sync ("sync_disconnected" ∷ "sync_paused" ∷ "sync_autostart_unregistered" ∷ [])
    ∷ registration "box.transport" (λ s. s == "box.transport") RecoveryPolicy.none unowned []
    ∷ registration "box.snapshot" (λ s. s == "box.snapshot") RecoveryPolicy.none unowned []
    ∷ registration "profile.*.isolation"
        (after_prefix "profile." (profile_dot (λ s. s == "isolation"))) RecoveryPolicy.none unowned
        []
    ∷ registration "profile.*.resources"
        (after_prefix "profile." (profile_dot (λ s. s == "resources"))) RecoveryPolicy.none unowned
        []
    ∷ []

unfoldable pub recovery_registration_for : String → Option RecoveryRegistration
recovery_registration_for component =
    elim (find (λ (p : RegisteredPattern). p.matches component) registry) [
      | none ↦ none
      | some p ↦ some p.registration
    ]
