-- ===== src/Examples/Recovering.antt =====
-- Runs of the two recoveries.
use remote_devbox.Base.{
  String, true, false, none, some, [], ◌∷◌, ◌++◌, ◌≡◌, ◌↔◌, refl, All, is_empty,
}
use mathlib.Core.Logic.{◌⊎◌, inr}
use remote_devbox.Doctor.Types.{automatic, HealthDocument, HealthComponentFact, degraded, failed}
use remote_devbox.Doctor.Collect.{truthy, exited_zero}
use remote_devbox.Doctor.Parsing.{is_component_id, is_profile_name}
use remote_devbox.Doctor.Recover.{
  BoxRecoveryResult, recovered, admit, recover_box_component, act, active_turn, component, judge,
  conclude, by_admission, by_fresh, by_judgement, by_turn, attempt, finish, command_failed,
}
use remote_devbox.Doctor.Recover.Verdicts.{quiet, refuses}
use remote_devbox.Doctor.Recover.Actions.{
  IsAuthorised, ready_host, IsSent, IsConfirmed, reset_and_start,
  recover_box_component-IsAuthorised, recover_box_component-IsConfirmed,
}
use remote_devbox.Client.Recovery.{run, decide_recovery}
use remote_devbox.Client.Recovery.Registry.{
  RecoveryRegistration, client_sync, recovery_registration_for, registry,
}
use remote_devbox.Client.Recovery.Decisions.{IsListed, IsUnattended, decide_recovery-run_iff}
use remote_devbox.Client.Recovery.Run.{
  RecoverySelectionResult, run_recovery_selection, selected, recover_each, recover_one, probe_from,
}
use remote_devbox.Client.Recovery.Run.Selection.{AreSettled, run_recovery_selection-AreSettled}
use remote_devbox.Client.Recovery.Run.Eligibility.{
  IsEligibleIn, run_recovery_selection-IsEligibleIn,
}
use remote_devbox.Examples.Hosts.{
  proxy_fact, facts, host_run, host_collect, untouched, found, client_collect, client_act,
  client_wait,
}

admitted : admit "browser.proxy" (some 0) facts ≡ inr (proxy_fact, "haproxy.service")
unfolding admit is_component_id
admitted = refl

recover_box_component-IsAuthorised_example :
    let out =
      recover_box_component host_run host_collect none "browser.proxy" (some 0) facts untouched in
    ((out.1.issued ≡ untouched.issued) × (quiet out.0 ≡ true))
    ⊎ ((fact : HealthComponentFact) × (unit : String) × IsAuthorised host_run host_collect none
          "browser.proxy"
          (some 0)
          facts
          untouched.host
          fact
          unit
        × IsSent host_run host_collect none fact unit
            (ready_host host_run host_collect none fact untouched.host)
            untouched.issued
            out
        × (refuses out.0 ≡ false))
recover_box_component-IsAuthorised_example =
    recover_box_component-IsAuthorised host_run host_collect none "browser.proxy" (some 0) facts
      untouched

abbrev answer : BoxRecoveryResult
answer = record { status = recovered; reason = "component_healthy" }

answered :
    (recover_box_component host_run host_collect none "browser.proxy" (some 0) facts untouched).0
    ≡ some answer
unfolding recover_box_component by_admission admit by_fresh by_judgement judge component active_turn
    by_turn attempt act finish conclude command_failed exited_zero is_component_id
answered = refl

recover_box_component-IsConfirmed_example :
    (fact : HealthComponentFact) × (unit : String) × IsAuthorised host_run host_collect none
      "browser.proxy"
      (some 0)
      facts
      untouched.host
      fact
      unit
    × ((recover_box_component host_run host_collect none "browser.proxy"
          (some 0)
          facts
          untouched).1.issued
        ≡ untouched.issued ++ reset_and_start host_run host_collect none fact unit)
    × IsConfirmed host_run host_collect none "browser.proxy"
        (recover_box_component host_run host_collect none "browser.proxy"
          (some 0)
          facts
          untouched).1
recover_box_component-IsConfirmed_example =
    recover_box_component-IsConfirmed host_run host_collect none "browser.proxy" (some 0) facts
      untouched answer answered refl

abbrev out : RecoverySelectionResult
out = record { exit_code = 0; lines = "client.sync.ada recovered: healthy after sync_resumed" ∷ [] }

ended_well : (run_recovery_selection client_collect client_act client_wait "all" 0).0 ≡ some out
unfolding run_recovery_selection recover_each recover_one selected probe_from decide_recovery
    component recovery_registration_for registry is_profile_name
ended_well = refl

run_recovery_selection-AreSettled_example :
    (before : HealthDocument) × ((client_collect 0).0 ≡ some before)
    × (is_empty (selected client_collect client_act client_wait "all" before) ≡ false)
    × AreSettled client_collect client_act client_wait
        (selected client_collect client_act client_wait "all" before)
        (client_collect 0).1
        (run_recovery_selection client_collect client_act client_wait "all" 0).1.host
run_recovery_selection-AreSettled_example =
    run_recovery_selection-AreSettled client_collect client_act client_wait "all" 0 out ended_well
      refl

run_recovery_selection-IsEligibleIn_example :
    let asked = (run_recovery_selection client_collect client_act client_wait "all" 0).1.asked in
    (asked ≡ [])
    ⊎ ((before : HealthDocument) × ((client_collect 0).0 ≡ some before)
        × All (IsEligibleIn (selected client_collect client_act client_wait "all" before)) asked)
run_recovery_selection-IsEligibleIn_example =
    run_recovery_selection-IsEligibleIn client_collect client_act client_wait "all" 0

abbrev sync_registration : RecoveryRegistration
sync_registration = record {
  component = "client.sync.*";
  policy = automatic;
  ownership = client_sync;
  recoverable_reasons = "sync_paused" ∷ [];
  max_attempts = 3;
}

decide_recovery-run_iff_example :
    let result = found "client.sync.ada" failed (some "sync_paused") in
    (decide_recovery result sync_registration ≡ run sync_registration) ↔ (
      ((result.status ≡ degraded) ⊎ (result.status ≡ failed))
      × (result.recovery ≡ sync_registration.policy)
      × IsUnattended sync_registration.policy
      × IsListed (truthy result.reason) sync_registration)
decide_recovery-run_iff_example =
    decide_recovery-run_iff (found "client.sync.ada" failed (some "sync_paused")) sync_registration
