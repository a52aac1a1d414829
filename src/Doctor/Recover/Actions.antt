-- ===== src/Doctor/Recover/Actions.antt =====
-- Which systemctl actions a recovery sends, and what its answer then means.
use remote_devbox.Base.{
  ℕ, String, Bool, true, false, Option, none, some, List, [], ◌∷◌, ◌++◌, ◌≡◌, refl, arith,
  Option-cases,
}
use mathlib.Core.Option.{map as map_option}
use mathlib.Core.Logic.{◌⊎◌, inl, inr}
use mathlib.Core.List.{append_assoc}
use remote_devbox.Doctor.Types.{
  HealthResult, HealthDocument, healthy, failed, HealthFacts, HealthComponentFact,
}
use remote_devbox.Doctor.Collect.{CommandResult}
use remote_devbox.Doctor.Recover.Commands.{HasSucceeded, command-cases}
use remote_devbox.Doctor.Recover.Guards.{admit-refused, IsAdmitted, admit-IsAdmitted}
use remote_devbox.Doctor.Recover.{
  recovered, broken, BoxRecoveryResult, admit, judge, conclude, component, systemctl_args, World,
  active_turn, act, finish, attempt, by_turn, by_judgement, by_fresh, by_admission,
  recover_box_component,
}
use remote_devbox.Doctor.Recover.Verdicts.{
  quiet, refuses, judge_go, judge-refuses, conclude-healthy, conclude-speaks, quiet-recovered,
}

abbrev pub stopped : BoxRecoveryResult
stopped = record { status = broken; reason = "systemd_action_failed" }

module _ {Host : Type 0} (run : List String → Host → Option CommandResult × Host)
    (collect_fresh : Host → Option HealthDocument × Host)
    (has_active_turn : Option (HealthComponentFact → Host → Option Bool × Host)) where
  -- The host after the first document and the test for an active turn.
  abbrev pub ready_host : HealthComponentFact → Host → Host
  ready_host fact h = (active_turn run collect_fresh has_active_turn fact (collect_fresh h).1).1

  -- What has to hold of the request and of the host before an action is sent.
  abbrev pub IsAuthorised :
      String → Option ℕ → HealthFacts → Host → HealthComponentFact → String → Type 0
  IsAuthorised id uid facts h fact unit =
      (admit id uid facts ≡ inr (fact, unit))
      × IsAdmitted id uid facts fact unit
      × ((doc : HealthDocument) × (before : HealthResult) × ((collect_fresh h).0 ≡ some doc)
          × (component id doc ≡ some before)
          × (before.status ≡ failed))
      × ((active_turn run collect_fresh has_active_turn fact (collect_fresh h).1).0 ≡ some false)

  abbrev pub reset_and_start : HealthComponentFact → String → List (List String)
  reset_and_start fact unit =
      systemctl_args fact unit "reset-failed" ∷ systemctl_args fact unit "start" ∷ []

  -- The unit of a component is reset on a host; and only where that succeeded it is started. If one
  -- of the two does not succeed, nothing more is done, and the answer says so.
  abbrev pub IsSent :
      HealthComponentFact
      → String
      → Host
      → List (List String)
      → Option BoxRecoveryResult × World Host
      → Type 0
  IsSent fact unit h issued out =
      let reset = systemctl_args fact unit "reset-failed" in
      let start = systemctl_args fact unit "start" in
      let after_reset = run reset h in
      let after_start = run start after_reset.1 in
      (¬ HasSucceeded after_reset.0
        × (out.1.issued ≡ issued ++ reset ∷ [])
        × (out.1.host ≡ after_reset.1)
        × (out.0 ≡ some stopped))
      ⊎ (HasSucceeded after_reset.0
          × (out.1.issued ≡ issued ++ reset_and_start fact unit)
          × ((¬ HasSucceeded after_start.0 × (out.1.host ≡ after_start.1) × (out.0 ≡ some stopped))
              ⊎ (HasSucceeded after_start.0 × (out.1.host ≡ (collect_fresh after_start.1).1))))

  -- A fresh document, the last thing that is asked of the host, has the component healthy.
  abbrev pub IsConfirmed : String → World Host → Type 0
  IsConfirmed id after =
      (h : Host) × (doc : HealthDocument) × (result : HealthResult) × ((collect_fresh h).0
        ≡ some doc)
      × (component id doc ≡ some result)
      × (result.status ≡ healthy)
      × (after.host ≡ (collect_fresh h).1)

  -- What the actions leave: they were sent, the answer does not deny it, and `recovered` means it.
  IsAttempt :
      String
      → HealthComponentFact
      → String
      → Host
      → List (List String)
      → Option BoxRecoveryResult × World Host
      → Type 0
  IsAttempt id fact unit h issued out =
      IsSent fact unit h issued out
      × (refuses out.0 ≡ false)
      × ((r : BoxRecoveryResult)
          → out.0 ≡ some r
          → r.status ≡ recovered
          → (out.1.issued ≡ issued ++ reset_and_start fact unit) × IsConfirmed id out.1)

  finish-refuses :
      (id : String) (o : Option HealthDocument)
      → refuses (map_option (λ doc. conclude (component id doc)) o) ≡ false
  finish-refuses id none = refl
  finish-refuses id (some doc) = conclude-speaks (component id doc)

  finish-recovered :
      (id : String) (o : Option HealthDocument) (r : BoxRecoveryResult)
      → map_option (λ doc. conclude (component id doc)) o ≡ some r
      → r.status ≡ recovered
      → (doc : HealthDocument) × (result : HealthResult) × (o ≡ some doc)
        × (component id doc ≡ some result)
        × (result.status ≡ healthy)
  finish-recovered id none r h k = absurd (cc)
  finish-recovered id (some doc) r h k =
      let (result, e, up) = conclude-healthy (component id doc) (cc) in (doc, result, refl, e, up)

  attempt-IsAttempt :
      (id : String) (fact : HealthComponentFact) (unit : String) (w : World Host)
      → IsAttempt id fact unit w.host w.issued
          (attempt run collect_fresh has_active_turn id fact unit w)
  unfolding attempt act finish IsAttempt
  attempt-IsAttempt id fact unit w =
      let reset = systemctl_args fact unit "reset-failed" in
      let start = systemctl_args fact unit "start" in
      let after_reset = run reset w.host in
      let after_start = run start after_reset.1 in
      let both = append_assoc w.issued (reset ∷ []) (start ∷ []) in
      let fresh = collect_fresh after_start.1 in
      elim (command-cases after_reset.0) [
        | inl (e, down) ↦ rw e (inl (down, refl, refl, refl), refl, λ r h k. absurd (ground arith))
        | inr (e, up) ↦ elim (command-cases after_start.0) [
          | inl (f, down) ↦
              rw (e, f)
                (inr (up, both, inl (down, refl, refl)), refl, λ r h k. absurd (ground arith))
          | inr (f, on) ↦
              rw (e, f)
                (
                  inr (up, both, inr (on, refl)),
                  finish-refuses id fresh.0,
                  λ r h k.
                      let (doc, result, d, c, well) = finish-recovered id fresh.0 r h k in
                      (both, (after_start.1, doc, result, d, c, well, refl)),
                )
        ]
      ]

  -- A stage that ends with nothing sent, or goes on to an attempt because `P` holds.
  IsStage :
      Type 0
      → String
      → HealthComponentFact
      → String
      → Host
      → List (List String)
      → Option BoxRecoveryResult × World Host
      → Type 0
  IsStage P id fact unit h issued out =
      ((out.1.issued ≡ issued) × (quiet out.0 ≡ true)) ⊎ (P × IsAttempt id fact unit h issued out)

  by_turn-IsStage :
      (id : String) (fact : HealthComponentFact) (unit : String) (turn : Option Bool)
      (w : World Host)
      → IsStage
          (turn ≡ some false)
          id
          fact
          unit
          w.host
          w.issued
          (by_turn run collect_fresh has_active_turn id fact unit turn w)
  unfolding by_turn IsStage
  by_turn-IsStage id fact unit none w = inl (refl, refl)
  by_turn-IsStage id fact unit (some true) w = inl (refl, refl)
  by_turn-IsStage id fact unit (some false) w = inr (refl, attempt-IsAttempt id fact unit w)

  by_judgement-IsStage :
      (id : String) (fact : HealthComponentFact) (unit : String) (o : Option HealthResult)
      (w : World Host)
      → IsStage
          ((judge o ≡ none)
            × ((active_turn run collect_fresh has_active_turn fact w.host).0 ≡ some false))
          id
          fact
          unit
          (active_turn run collect_fresh has_active_turn fact w.host).1
          w.issued
          (by_judgement run collect_fresh has_active_turn id fact unit (judge o) w)
  unfolding IsStage IsAttempt by_judgement
  by_judgement-IsStage id fact unit o w = elim (Option-cases (judge o)) [
    | inl e ↦
        let turn = active_turn run collect_fresh has_active_turn fact w.host in
        elim (by_turn-IsStage id fact unit turn.0 (record w { host = turn.1 })) [
          | inl q ↦ rw e (inl q)
          | inr (p, q) ↦ rw e (inr ((refl, p), q))
        ]
    | inr (r, e) ↦ rw e (inl (refl, judge-refuses o r e))
  ]

  by_fresh-IsStage :
      (id : String) (fact : HealthComponentFact) (unit : String) (d : Option HealthDocument)
      (w : World Host)
      → IsStage
          (((doc : HealthDocument) × (before : HealthResult) × (d ≡ some doc)
              × (component id doc ≡ some before)
              × (before.status ≡ failed))
            × ((active_turn run collect_fresh has_active_turn fact w.host).0 ≡ some false))
          id
          fact
          unit
          (active_turn run collect_fresh has_active_turn fact w.host).1
          w.issued
          (by_fresh run collect_fresh has_active_turn id fact unit d w)
  unfolding IsStage by_fresh
  by_fresh-IsStage id fact unit none w = inl (refl, refl)
  by_fresh-IsStage id fact unit (some doc) w =
      elim (by_judgement-IsStage id fact unit (component id doc) w) [
        | inl q ↦ inl q
        | inr ((go, turn), q) ↦
            let (before, e, down) = judge_go (component id doc) go in
            inr (((doc, before, refl, e, down), turn), q)
      ]

  by_admission-IsAttempt :
      (id : String) (uid : Option ℕ) (facts : HealthFacts) (w : World Host)
      (a : BoxRecoveryResult ⊎ (HealthComponentFact × String))
      → admit id uid facts ≡ a
      → let out = by_admission run collect_fresh has_active_turn id a w in
        ((out.1.issued ≡ w.issued) × (quiet out.0 ≡ true))
        ⊎ ((fact : HealthComponentFact) × (unit : String) × IsAuthorised id uid facts w.host fact
              unit
            × IsAttempt id fact unit (ready_host fact w.host) w.issued out)
  unfolding by_admission IsStage IsAttempt
  by_admission-IsAttempt id uid facts w (inl r) e =
      inl (refl, rw (admit-refused id uid facts r e) refl)
  by_admission-IsAttempt id uid facts w (inr (fact, unit)) e =
      let fresh = collect_fresh w.host in
      elim (by_fresh-IsStage id fact unit fresh.0 (record w { host = fresh.1 })) [
        | inl q ↦ inl q
        | inr ((seen, turn), q) ↦
            inr (fact, unit, (e, admit-IsAdmitted id uid facts fact unit e, seen, turn), q)
      ]

  -- Either no action is sent, and the answer is a refusal, a skip or a throw; or root asked for a
  -- component of the facts with a unit and a policy that allows it, a document collected first has
  -- the component failed, no turn was found active, and the answer is no refusal and no skip. Then
  -- the unit is reset, and if that succeeded, which is an exit with 0 in time, it is started; if
  -- the reset or the start does not succeed, nothing more is done and the answer says so, and
  -- otherwise a document is collected last.
  pub recover_box_component-IsAuthorised :
      (id : String) (uid : Option ℕ) (facts : HealthFacts) (w : World Host)
      → let out = recover_box_component run collect_fresh has_active_turn id uid facts w in
        ((out.1.issued ≡ w.issued) × (quiet out.0 ≡ true))
        ⊎ ((fact : HealthComponentFact) × (unit : String) × IsAuthorised id uid facts w.host fact
              unit
            × IsSent fact unit (ready_host fact w.host) w.issued out
            × (refuses out.0 ≡ false))
  unfolding recover_box_component IsAttempt
  recover_box_component-IsAuthorised id uid facts w =
      elim (by_admission-IsAttempt id uid facts w (admit id uid facts) refl) [
        | inl q ↦ inl q
        | inr (fact, unit, allowed, q) ↦ inr (fact, unit, allowed, q.0, q.1)
      ]

  -- Where the answer is `recovered`, the request was authorised, the failed unit was reset and
  -- started, and a document collected afterwards has the component healthy.
  pub recover_box_component-IsConfirmed :
      (id : String) (uid : Option ℕ) (facts : HealthFacts) (w : World Host) (r : BoxRecoveryResult)
      → (recover_box_component run collect_fresh has_active_turn id uid facts w).0 ≡ some r
      → r.status ≡ recovered
      → (fact : HealthComponentFact) × (unit : String) × IsAuthorised id uid facts w.host fact unit
        × ((recover_box_component run collect_fresh has_active_turn id uid facts w).1.issued
            ≡ w.issued ++ reset_and_start fact unit)
        × IsConfirmed id (recover_box_component run collect_fresh has_active_turn id uid facts w).1
  unfolding recover_box_component IsAttempt
  recover_box_component-IsConfirmed id uid facts w r h k =
      elim (by_admission-IsAttempt id uid facts w (admit id uid facts) refl) [
        | inl q ↦ absurd (quiet-recovered _ r q.1 h k)
        | inr (fact, unit, allowed, q) ↦ (fact, unit, allowed, (q.2 r h k).0, (q.2 r h k).1)
      ]
