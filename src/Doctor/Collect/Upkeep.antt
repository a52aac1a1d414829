-- ===== src/Doctor/Collect/Upkeep.antt =====
-- When a component is found healthy, and that a reason is given exactly otherwise.
use remote_devbox.Doctor.Collect.Units.{IsActive, IsExplained, unit_verdict-IsExplained}
use remote_devbox.Base.{
  String, true, false, Option, none, some, List, [], ◌∷◌, ◌≡◌, refl, ◌↔◌, ◌≢◌, arith,
}
use remote_devbox.Doctor.Types.{healthy, HealthComponentFact, Listener}
use remote_devbox.Doctor.Collect.{
  CommandResult, worsen, Verdict, start, listener_line, listener_owner_matches, truthy, exited_zero,
  listener_verdict, owner_verdict, evidence_of, listeners_verdict, listeners_of, show_argv,
  safe_run, start_verdict, collect_component, component_verdict, collect_component,
}

-- The evidence has a line that is not empty, and it names the expected process.
abbrev pub IsOwnerLine : Listener → Option String → Type 0
IsOwnerLine l none = ⊥
IsOwnerLine l (some line) = (line ≢ "") × (listener_owner_matches l line ≡ true)

-- `ss` answered, and its output has an owner's line at the listener's place.
abbrev pub IsOwned : Listener → Option CommandResult → Type 0
IsOwned l none = ⊥
IsOwned l (some r) =
    (r.timed_out ≡ false)
    × (exited_zero r.exit_code ≡ true)
    × IsOwnerLine l (listener_line l r.stdout)

owner_verdict-IsExplained :
    (v : Verdict) (l : Listener) (line : Option String)
    → IsExplained v
    → IsExplained (owner_verdict v l line)
unfolding owner_verdict worsen
owner_verdict-IsExplained v l line h = ground arith

listener_verdict-IsExplained :
    (v : Verdict) (l : Listener) (e : Option CommandResult)
    → IsExplained v
    → IsExplained (listener_verdict v l e)
unfolding listener_verdict worsen
listener_verdict-IsExplained v l none h = ground arith
listener_verdict-IsExplained v l (some r) h =
    ground (arith, owner_verdict-IsExplained v l (listener_line l r.stdout))

listeners_verdict-IsExplained :
    (v : Verdict) (ls : List Listener) (tcp_evidence unix_evidence : Option CommandResult)
    → IsExplained v
    → IsExplained (listeners_verdict v ls tcp_evidence unix_evidence)
unfolding listeners_verdict
listeners_verdict-IsExplained v [] t u h = h
listeners_verdict-IsExplained v (l ∷ ls) t u h =
    listeners_verdict-IsExplained (listener_verdict v l (evidence_of l t u)) ls t u
      (listener_verdict-IsExplained v l (evidence_of l t u) h)

-- The unit of a component, where it has one, is loaded and active.
abbrev pub IsUnitUp :
    (List String → Option CommandResult) → HealthComponentFact → Option String → Type 0
IsUnitUp probe fact none = Unit
IsUnitUp probe fact (some unit) = IsActive (safe_run probe (show_argv fact unit))

start_verdict-IsExplained :
    (probe : List String → Option CommandResult) (fact : HealthComponentFact) (unit : Option String)
    → IsExplained (start_verdict probe fact unit)
unfolding start_verdict
start_verdict-IsExplained probe fact none = (λ h. refl, λ h. refl)
start_verdict-IsExplained probe fact (some unit) =
    unit_verdict-IsExplained start (safe_run probe (show_argv fact unit)) (λ h. refl, λ h. refl)

-- A collected component has a reason exactly when it is not healthy.
pub collect_component-reason_iff :
    (probe : List String → Option CommandResult) (fact : HealthComponentFact)
    (tcp_evidence unix_evidence : Option CommandResult)
    → ((collect_component probe fact tcp_evidence unix_evidence).status ≡ healthy)
      ↔ ((collect_component probe fact tcp_evidence unix_evidence).reason ≡ none)
unfolding collect_component component_verdict
collect_component-reason_iff probe fact t u =
    listeners_verdict-IsExplained (start_verdict probe fact (truthy fact.unit)) (listeners_of fact)
      t u (start_verdict-IsExplained probe fact (truthy fact.unit))
