-- ===== src/Client/Recovery/Run/Eligibility.antt =====
-- Which components a run of `devbox recover` calls the action for.
use remote_devbox.Base.{
  ℕ, String, false, Option, none, some, List, [], ◌∷◌, ◌++◌, ◌≡◌, refl, ap, sym, ◌∙◌, All,
  Bool-cases, Option-cases, Memᴰ, is_empty,
}
use mathlib.Core.List.{append-nil, append_assoc}
use mathlib.Core.Logic.{◌⊎◌, inl, inr}
use remote_devbox.Doctor.Types.{HealthResult, HealthDocument}
use remote_devbox.Client.Recovery.Registry.{
  RecoveryRegistration, Ownership, client_agent, client_mount, client_sync, box_systemd, unowned,
  recovery_registration_for,
}
use remote_devbox.Client.Recovery.{RecoveryDecision, run, skip, refuse, decide_recovery}
use remote_devbox.Client.Recovery.Decisions.{decide_recovery-same}
use remote_devbox.Client.Recovery.Run.{
  ActionStatus, by_action_status, RecoveryActionResult, acted, action_blocked, action_failed,
  Progress, found_healthy, by_post, by_action, perform, by_ownership, by_decision, by_registration,
  recover_one, recover_each, selected, ended, by_before, run_recovery_selection,
}

-- The client itself looks after the component.
abbrev pub IsClientOwned : Ownership → Type 0
IsClientOwned o = (o ≡ client_agent) ⊎ (o ≡ client_mount) ⊎ (o ≡ client_sync)

-- The component is registered for the client, and a recovery of it was decided.
abbrev pub IsEligible : HealthResult → Type 0
IsEligible c =
    (registered : RecoveryRegistration) × (recovery_registration_for c.id ≡ some registered)
    × (decide_recovery c registered ≡ run registered)
    × IsClientOwned registered.ownership

-- An eligible component of the list has this name.
abbrev pub IsEligibleIn : List HealthResult → String → Type 0
IsEligibleIn cs id = (c : HealthResult) × Memᴰ c cs × (c.id ≡ id) × IsEligible c

module _ {Host : Type 0} (collect : Host → Option HealthDocument × Host)
    (act : HealthResult → RecoveryRegistration → Host → Option RecoveryActionResult × Host)
    (wait : ℕ → Host → Host) where
  -- The action is called for nothing more, or for an eligible component.
  abbrev IsAsked : HealthResult → Progress Host → Progress Host → Type 0
  IsAsked c p after =
      (after.asked ≡ p.asked) ⊎ ((after.asked ≡ p.asked ++ c.id ∷ []) × IsEligible c)

  by_post-asked :
      (c : HealthResult) (reason : String) (post : Option (Option HealthResult)) (p : Progress Host)
      → (by_post collect act wait c reason post p).1.asked ≡ p.asked
  unfolding by_post
  by_post-asked c reason none p = refl
  by_post-asked c reason (some last) p = elim (Bool-cases (found_healthy last)) [
    | inl e ↦ rw e refl
    | inr e ↦ rw e refl
  ]

  by_action-asked :
      (c : HealthResult) (r : RecoveryRegistration) (a : Option RecoveryActionResult)
      (p : Progress Host)
      → (by_action collect act wait c r a p).1.asked ≡ p.asked
  unfolding by_action by_action_status by_post
  by_action-asked c r none p = refl
  by_action-asked c r (some a) p = by_action_status-asked a.status a.reason c r p
    where
      by_action_status-asked :
          (s : ActionStatus) (reason : String) (c : HealthResult) (r : RecoveryRegistration)
          (p : Progress Host)
          → (by_action_status collect act wait s reason c r p).1.asked ≡ p.asked
      by_action_status-asked acted reason c r p = by_post-asked c reason _ _
      by_action_status-asked action_blocked reason c r p = refl
      by_action_status-asked action_failed reason c r p = refl

  by_ownership-asked :
      (o : Ownership) (c : HealthResult) (r : RecoveryRegistration) (p : Progress Host)
      → ((by_ownership collect act wait o c r p).1.asked ≡ p.asked)
        ⊎ (((by_ownership collect act wait o c r p).1.asked ≡ p.asked ++ c.id ∷ [])
            × IsClientOwned o)
  unfolding by_ownership perform
  by_ownership-asked box_systemd c r p = inl refl
  by_ownership-asked unowned c r p = inl refl
  by_ownership-asked client_agent c r p = inr (by_action-asked c r _ _, inl refl)
  by_ownership-asked client_mount c r p = inr (by_action-asked c r _ _, inr (inl refl))
  by_ownership-asked client_sync c r p = inr (by_action-asked c r _ _, inr (inr refl))

  by_decision-IsAsked :
      (d : RecoveryDecision) (c : HealthResult) (r : RecoveryRegistration) (p : Progress Host)
      → recovery_registration_for c.id ≡ some r
      → decide_recovery c r ≡ d
      → IsAsked c p (by_decision collect act wait d c r p).1
  unfolding by_decision
  by_decision-IsAsked (skip reason) c r p found e = inl refl
  by_decision-IsAsked (refuse reason) c r p found e = inl refl
  by_decision-IsAsked (run q) c r p found e = elim (by_ownership-asked r.ownership c r p) [
    | inl h ↦ inl h
    | inr (h, owned) ↦
        let same = decide_recovery-same c r q e in inr (h, (r, found, e ∙ ap run (sym same), owned))
  ]

  by_registration-IsAsked :
      (o : Option RecoveryRegistration) (c : HealthResult) (p : Progress Host)
      → recovery_registration_for c.id ≡ o
      → IsAsked c p (by_registration collect act wait o c p).1
  unfolding by_registration
  by_registration-IsAsked none c p found = inl refl
  by_registration-IsAsked (some r) c p found =
      by_decision-IsAsked (decide_recovery c r) c r p found refl

  later_eligible :
      (c : HealthResult) (cs : List HealthResult) (ids : List String)
      → All (IsEligibleIn cs) ids
      → All (IsEligibleIn (c ∷ cs)) ids
  later_eligible c cs [] h = tt
  later_eligible c cs (id ∷ ids) ((d, m, e, k), h) =
      ((d, Memᴰ.tail m, e, k), later_eligible c cs ids h)

  recover_each-IsEligibleIn :
      (cs : List HealthResult) (p : Progress Host)
      → (ids : List String) × ((recover_each collect act wait cs p).1.asked ≡ p.asked ++ ids)
        × All (IsEligibleIn cs) ids
  unfolding recover_each recover_one
  recover_each-IsEligibleIn [] p = ([], sym (append-nil p.asked), tt)
  recover_each-IsEligibleIn (c ∷ cs) p =
      let one = recover_one collect act wait c p in
      let (ids, grown, fine) = recover_each-IsEligibleIn cs one.1 in
      let rest = later_eligible c cs ids fine in
      elim (Bool-cases one.0) [
        | inl e ↦ elim (by_registration-IsAsked (recovery_registration_for c.id) c p refl) [
          | inl h ↦ (ids, rw e (grown ∙ ap (λ o. o ++ ids) h), rest)
          | inr (h, able) ↦ (
            c.id ∷ ids,
            rw e (grown ∙ ap (λ o. o ++ ids) h ∙ append_assoc p.asked (c.id ∷ []) ids),
            ((c, Memᴰ.head refl, refl, able), rest),
          )
        ]
        | inr e ↦ elim (by_registration-IsAsked (recovery_registration_for c.id) c p refl) [
          | inl h ↦ ([], rw e (h ∙ sym (append-nil p.asked)), tt)
          | inr (h, able) ↦ (c.id ∷ [], rw e h, ((c, Memᴰ.head refl, refl, able), tt))
        ]
      ]

  abbrev fresh : Host → Progress Host
  fresh h = record { host = h; lines = []; broken = false; asked = [] }

  by_before-IsEligibleIn :
      (target : String) (before : HealthDocument) (h : Host)
      → All
          (IsEligibleIn (selected collect act wait target before))
          (by_before collect act wait target (some before) (fresh h)).1.asked
  unfolding by_before ended
  by_before-IsEligibleIn target before h =
      let chosen = selected collect act wait target before in
      elim (Bool-cases (is_empty chosen)) [
        | inl n ↦ rw n tt
        | inr n ↦
            let (ids, grown, fine) = recover_each-IsEligibleIn chosen (fresh h) in
            rw (n, grown) fine
      ]

  -- A run calls the action only for components that it selected in the document it collected, each
  -- registered for the client's own recovery and decided to be recovered.
  pub run_recovery_selection-IsEligibleIn :
      (target : String) (h : Host)
      → let asked = (run_recovery_selection collect act wait target h).1.asked in
        (asked ≡ [])
        ⊎ ((before : HealthDocument) × ((collect h).0 ≡ some before)
            × All (IsEligibleIn (selected collect act wait target before)) asked)
  unfolding run_recovery_selection
  run_recovery_selection-IsEligibleIn target h = elim (Option-cases (collect h).0) [
    | inl e ↦ inl (rw e refl)
    | inr (before, e) ↦ inr (before, e, rw e (by_before-IsEligibleIn target before (collect h).1))
  ]
