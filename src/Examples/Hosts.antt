-- ===== src/Examples/Hosts.antt =====
-- A host with one component, and a client with one, that a first command repairs. The state is the
-- number of commands that were run.
use remote_devbox.Base.{ℕ, zero, suc, String, false, Option, none, some, List, [], ◌∷◌}
use remote_devbox.Doctor.Types.{
  HealthResult, HealthDocument, HealthStatus, healthy, failed, automatic, HealthFacts,
  HealthComponentFact,
}
use remote_devbox.Doctor.Collect.{CommandResult}
use remote_devbox.Doctor.Recover.{World}
use remote_devbox.Client.Recovery.Registry.{RecoveryRegistration}
use remote_devbox.Client.Recovery.Run.{RecoveryActionResult, acted}

abbrev pub proxy_fact : HealthComponentFact
proxy_fact = record {
  id = "browser.proxy";
  profile = none;
  unit = some "haproxy.service";
  unit_scope = none;
  listeners = none;
  recovery = automatic;
}

abbrev pub facts : HealthFacts
facts = record { schema_version = 1; components = proxy_fact ∷ [] }

abbrev pub found : String → HealthStatus → Option String → HealthResult
found id status reason = record {
  id = id;
  profile = none;
  status = status;
  expected = [];
  observed = [];
  reason = reason;
  recovery = automatic;
}

abbrev pub document : HealthResult → HealthDocument
document c = record {
  schema_version = 1;
  status = c.status;
  observed_at = "2026-01-01T00:00:00Z";
  components = c ∷ [];
}

abbrev pub show_output : CommandResult
show_output = record {
  stdout = "LoadState=loaded\nActiveState=active\nSubState=running\nMainPID=7\n";
  stderr = "";
  exit_code = some 0;
  timed_out = false;
}

abbrev pub listener_output : CommandResult
listener_output = record {
  stdout = "LISTEN 0 1 127.0.0.1:9222 0.0.0.0:* users:((\"haproxy\",pid=7,fd=3))\n";
  stderr = "";
  exit_code = some 0;
  timed_out = false;
}

abbrev pub host_run : List String → ℕ → Option CommandResult × ℕ
host_run argv n = (some show_output, suc n)

abbrev pub host_document : ℕ → HealthDocument
host_document zero = document (found "browser.proxy" failed (some "unit_failed"))
host_document (suc n) = document (found "browser.proxy" healthy none)

abbrev pub host_collect : ℕ → Option HealthDocument × ℕ
host_collect n = (some (host_document n), n)

abbrev pub untouched : World ℕ
untouched = record { host = 0; issued = [] }

abbrev pub client_document : ℕ → HealthDocument
client_document zero = document (found "client.sync.ada" failed (some "sync_paused"))
client_document (suc n) = document (found "client.sync.ada" healthy none)

abbrev pub client_collect : ℕ → Option HealthDocument × ℕ
client_collect n = (some (client_document n), n)

abbrev pub client_act : HealthResult → RecoveryRegistration → ℕ → Option RecoveryActionResult × ℕ
client_act c r n = (some (record { status = acted; reason = "sync_resumed" }), suc n)

abbrev pub client_wait : ℕ → ℕ → ℕ
client_wait ms n = n
