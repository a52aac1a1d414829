-- ===== src/Client/Recovery/Run/Selection.antt =====
-- What a run of `devbox recover` acts on, and what its exit code 0 means.
use remote_devbox.Base.{
  if◌then◌else◌, ℕ, zero, suc, String, Bool, true, false, Option, none, some, List, [], ◌∷◌, ◌++◌,
  ◌≡◌, refl, arith, Bool-cases, Option-cases, is_empty,
}
use mathlib.Core.Path.{subst, sym}
use mathlib.Core.Logic.{◌⊎◌, inl, inr}
use remote_devbox.Doctor.Types.{
  HealthResult, HealthDocument, HealthStatus, healthy, degraded, recovering, blocked, failed,
  unknown,
}
use remote_devbox.Doctor.Recover.{component}
use remote_devbox.Client.Recovery.Registry.{
  RecoveryRegistration, Ownership, client_agent, client_mount, client_sync, box_systemd, unowned,
  recovery_registration_for,
}
use remote_devbox.Client.Recovery.{RecoveryDecision, run, skip, refuse, decide_recovery}
use remote_devbox.Client.Recovery.Decisions.{decide_recovery-skip}
use remote_devbox.Client.Recovery.Run.{
  ActionStatus, by_action_status, RecoveryActionResult, acted, action_blocked, action_failed,
  RecoverySelectionResult, Progress, found_healthy, look_up, after_probe, probe_from, by_post,
  by_action, perform, by_ownership, by_decision, by_registration, recover_one, recover_each,
  selected, ended, by_before, run_recovery_selection, is_healthy,
}

is_healthy_lem : (s : HealthStatus) → is_healthy s ≡ true → s ≡ healthy
is_healthy_lem healthy h = refl
is_healthy_lem degraded h = absurd (cc)
is_healthy_lem recovering h = absurd (cc)
is_healthy_lem blocked h = absurd (cc)
is_healthy_lem failed h = absurd (cc)
is_healthy_lem unknown h = absurd (cc)

-- The document has the component healthy; `next` is the host that its collection left.
abbrev pub IsFoundHealthy : {Host : Type 0} → String → HealthDocument → (next after : Host) → Type 0
IsFoundHealthy id doc next after =
    (post : HealthResult) × (component id doc ≡ some post)
    × (post.status ≡ healthy)
    × (after ≡ next)

module _ {Host : Type 0} (collect : Host → Option HealthDocument × Host)
    (act : HealthResult → RecoveryRegistration → Host → Option RecoveryActionResult × Host)
    (wait : ℕ → Host → Host) where
  -- Collections on the host, at most so many, each after a second's wait but perhaps the first,
  -- of which the last one has the component healthy; `after` is the host that it leaves.
  abbrev pub IsSeenHealthy : String → ℕ → Bool → (before after : Host) → Type 0
  IsSeenHealthy id zero later before after = ⊥
  IsSeenHealthy id (suc n) later before after =
      let start = if later then wait 1000 before else before in
      (doc : HealthDocument) × ((collect start).0 ≡ some doc)
      × (IsFoundHealthy id doc (collect start).1 after
          ⊎ IsSeenHealthy id n true (collect start).1 after)

  probe_from-IsSeenHealthy :
      (attempts : ℕ) (later : Bool) (id : String) (post : Option HealthResult) (h : Host)
      (last : Option HealthResult)
      → found_healthy post ≡ false
      → (probe_from collect act wait attempts later id post h).0 ≡ some last
      → found_healthy last ≡ true
      → IsSeenHealthy id attempts later h (probe_from collect act wait attempts later id post h).1
  unfolding probe_from after_probe
  probe_from-IsSeenHealthy zero later id post h last n e k = absurd (ground arith)
  probe_from-IsSeenHealthy (suc attempts) later id post h last n e k =
      let start = if later then wait 1000 h else h in
      let rest =
        probe_from collect act wait attempts true id (look_up id (collect start).0)
          (collect start).1 in
      elim (Option-cases (collect start).0) [
        | inl f ↦ absurd (let r = rw f at e in cc)
        | inr (doc, f) ↦ elim (Option-cases (component id doc)) [
          | inl g ↦
              rw (f, g)
                (
                  doc,
                  refl,
                  inr (
                      probe_from-IsSeenHealthy attempts true id none (collect start).1 last refl
                        (rw (f, g) at e) k),
                )
          | inr (found, g) ↦ elim (Bool-cases (is_healthy found.status)) [
            | inl up ↦
                rw (f, g, up) (doc, refl, inl (found, g, is_healthy_lem found.status up, refl))
            | inr down ↦
                rw (f, g, down)
                  (
                    doc,
                    refl,
                    inr (
                        probe_from-IsSeenHealthy attempts true id (some found) (collect start).1
                          last down (rw (f, g, down) at e) k),
                  )
          ]
        ]
      ]

  -- The action for the component was called, it says that it acted, and after it the component was
  -- seen healthy.
  abbrev pub IsRecovered : HealthResult → (before after : Host) → Type 0
  IsRecovered c before after =
      (r : RecoveryRegistration) × (recovery_registration_for c.id ≡ some r)
      × ((a : RecoveryActionResult) × ((act c r before).0 ≡ some a) × (a.status ≡ acted))
      × IsSeenHealthy c.id r.max_attempts false (act c r before).1 after

  -- The component was healthy or recovering, and the host is as it was, or it was recovered.
  abbrev pub IsSettled : HealthResult → (before after : Host) → Type 0
  IsSettled c before after =
      (((c.status ≡ healthy) ⊎ (c.status ≡ recovering)) × (after ≡ before))
      ⊎ IsRecovered c before after

  -- The components are settled one after the other, each on the host that the one before it left.
  abbrev pub AreSettled : List HealthResult → (before after : Host) → Type 0
  AreSettled [] before after = after ≡ before
  AreSettled (c ∷ cs) before after =
      (middle : Host) × IsSettled c before middle × AreSettled cs middle after

  -- A round that ends without a throw and without a failure had none before, and settles.
  abbrev IsRound : HealthResult → Progress Host → Bool × Progress Host → Type 0
  IsRound c p out =
      out.0 ≡ true → out.1.broken ≡ false → (p.broken ≡ false) × IsSettled c p.host out.1.host

  by_post-healthy :
      (c : HealthResult) (reason : String) (post : Option (Option HealthResult)) (p : Progress Host)
      → (by_post collect act wait c reason post p).0 ≡ true
      → (by_post collect act wait c reason post p).1.broken ≡ false
      → (p.broken ≡ false)
        × ((last : Option HealthResult) × (post ≡ some last) × (found_healthy last ≡ true))
        × ((by_post collect act wait c reason post p).1.host ≡ p.host)
  unfolding by_post
  by_post-healthy c reason none p a b = absurd (cc)
  by_post-healthy c reason (some last) p a b = elim (Bool-cases (found_healthy last)) [
    | inl e ↦ rw e (rw e at b, (last, refl, e), refl)
    | inr e ↦ absurd (let r = rw e at b in cc)
  ]

  by_action_status-IsSeenHealthy :
      (s : ActionStatus) (reason : String) (c : HealthResult) (r : RecoveryRegistration)
      (p : Progress Host)
      → (by_action_status collect act wait s reason c r p).0 ≡ true
      → (by_action_status collect act wait s reason c r p).1.broken ≡ false
      → (p.broken ≡ false)
        × (s ≡ acted)
        × IsSeenHealthy c.id r.max_attempts false p.host
            (by_action_status collect act wait s reason c r p).1.host
  unfolding by_action_status
  by_action_status-IsSeenHealthy acted reason c r p a b =
      let probed = probe_from collect act wait r.max_attempts false c.id none p.host in
      let (sound, (last, e, k), same) =
        by_post-healthy c reason probed.0 (record p { host = probed.1 }) a b in
      (
        sound,
        refl,
        subst (IsSeenHealthy c.id r.max_attempts false p.host) (sym same)
            (probe_from-IsSeenHealthy r.max_attempts false c.id none p.host last refl e k),
      )
  by_action_status-IsSeenHealthy action_blocked reason c r p a b = absurd (cc)
  by_action_status-IsSeenHealthy action_failed reason c r p a b = absurd (cc)

  perform-IsRound :
      (c : HealthResult) (r : RecoveryRegistration) (p : Progress Host)
      → recovery_registration_for c.id ≡ some r
      → IsRound c p (perform collect act wait c r p)
  unfolding perform by_action
  perform-IsRound c r p registered a b = elim (Option-cases (act c r p.host).0) [
    | inl e ↦ absurd (let k = rw e at a in cc)
    | inr (answer, e) ↦
        let (sound, did, seen) =
          by_action_status-IsSeenHealthy answer.status answer.reason c r
            (record p { host = (act c r p.host).1; asked = p.asked ++ c.id ∷ [] }) (rw e at a)
            (rw e at b) in
        rw e (sound, inr (r, registered, (answer, e, did), seen))
  ]

  by_ownership-IsRound :
      (o : Ownership) (c : HealthResult) (r : RecoveryRegistration) (p : Progress Host)
      → recovery_registration_for c.id ≡ some r
      → IsRound c p (by_ownership collect act wait o c r p)
  unfolding by_ownership
  by_ownership-IsRound box_systemd c r p e = λ a b. absurd (cc)
  by_ownership-IsRound unowned c r p e = λ a b. absurd (cc)
  by_ownership-IsRound client_agent c r p e = perform-IsRound c r p e
  by_ownership-IsRound client_mount c r p e = perform-IsRound c r p e
  by_ownership-IsRound client_sync c r p e = perform-IsRound c r p e

  by_decision-IsRound :
      (d : RecoveryDecision) (c : HealthResult) (r : RecoveryRegistration) (p : Progress Host)
      → recovery_registration_for c.id ≡ some r
      → decide_recovery c r ≡ d
      → IsRound c p (by_decision collect act wait d c r p)
  unfolding by_decision
  by_decision-IsRound (skip reason) c r p q e =
      λ a b. (b, inl (decide_recovery-skip c r reason e, refl))
  by_decision-IsRound (refuse reason) c r p q e = λ a b. absurd (cc)
  by_decision-IsRound (run d) c r p q e = by_ownership-IsRound r.ownership c r p q

  by_registration-IsRound :
      (o : Option RecoveryRegistration) (c : HealthResult) (p : Progress Host)
      → recovery_registration_for c.id ≡ o
      → IsRound c p (by_registration collect act wait o c p)
  unfolding by_registration
  by_registration-IsRound none c p q = λ a b. absurd (cc)
  by_registration-IsRound (some r) c p q = by_decision-IsRound (decide_recovery c r) c r p q refl

  recover_each-AreSettled :
      (cs : List HealthResult) (p : Progress Host)
      → (recover_each collect act wait cs p).0 ≡ true
      → (recover_each collect act wait cs p).1.broken ≡ false
      → (p.broken ≡ false) × AreSettled cs p.host (recover_each collect act wait cs p).1.host
  unfolding recover_each recover_one
  recover_each-AreSettled [] p a b = (b, refl)
  recover_each-AreSettled (c ∷ cs) p a b =
      let one = recover_one collect act wait c p in
      elim (Bool-cases one.0) [
        | inl e ↦
            let (sound, rest) = recover_each-AreSettled cs one.1 (rw e at a) (rw e at b) in
            let (before, here) =
              by_registration-IsRound (recovery_registration_for c.id) c p refl e sound in
            (before, (one.1.host, here, rw e rest))
        | inr e ↦ absurd (let r = rw e at a in cc)
      ]

  ended-IsClean :
      (done : Bool × Progress Host) (out : RecoverySelectionResult)
      → (ended collect act wait done).0 ≡ some out
      → out.exit_code ≡ 0
      → (done.0 ≡ true) × (done.1.broken ≡ false)
  unfolding ended
  ended-IsClean (false, p) out e z = absurd (cc)
  ended-IsClean (true, p) out e z = elim (Bool-cases p.broken) [
    | inl b ↦ absurd (let r = rw b at e in ground arith)
    | inr b ↦ (refl, b)
  ]

  ended-host : (done : Bool × Progress Host) → (ended collect act wait done).1.host ≡ done.1.host
  unfolding ended
  ended-host (b, p) = refl

  by_before-AreSettled :
      (target : String) (d : Option HealthDocument) (p : Progress Host)
      (out : RecoverySelectionResult)
      → (by_before collect act wait target d p).0 ≡ some out
      → out.exit_code ≡ 0
      → (before : HealthDocument) × (d ≡ some before)
        × (is_empty (selected collect act wait target before) ≡ false)
        × AreSettled
            (selected collect act wait target before)
            p.host
            (by_before collect act wait target d p).1.host
  unfolding by_before
  by_before-AreSettled target none p out e z = absurd (cc)
  by_before-AreSettled target (some before) p out e z =
      let chosen = selected collect act wait target before in
      elim (Bool-cases (is_empty chosen)) [
        | inl n ↦ absurd (let r = rw n at e in ground arith)
        | inr n ↦
            let done = recover_each collect act wait chosen p in
            let (whole, sound) = ended-IsClean done out (rw n at e) z in
            (
              before,
              refl,
              n,
              rw (n, ended-host done) (recover_each-AreSettled chosen p whole sound).1,
            )
      ]

  -- Where a run ends with exit code 0, it selected components of a document that it collected, at
  -- least one, and went through them one after the other on the host that this left: a component
  -- was healthy or recovering in the document, and nothing was done; or the action for it was
  -- called and acted, and of the collections that followed on the host, at most as many as its
  -- registration allows, the last one has it healthy.
  pub run_recovery_selection-AreSettled :
      (target : String) (h : Host) (out : RecoverySelectionResult)
      → (run_recovery_selection collect act wait target h).0 ≡ some out
      → out.exit_code ≡ 0
      → (before : HealthDocument) × ((collect h).0 ≡ some before)
        × (is_empty (selected collect act wait target before) ≡ false)
        × AreSettled
            (selected collect act wait target before)
            (collect h).1
            (run_recovery_selection collect act wait target h).1.host
  unfolding run_recovery_selection
  run_recovery_selection-AreSettled target h out e z =
      by_before-AreSettled target (collect h).0
        (record { host = (collect h).1; lines = []; broken = false; asked = [] }) out e z
