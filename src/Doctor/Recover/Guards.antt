-- ===== src/Doctor/Recover/Guards.antt =====
-- What stands between a request to recover a component and the actions on its unit.
use remote_devbox.Base.{
  ℕ, String, true, Option, none, some, ◌==◌, ◌≡◌, refl, ap, arith, eqb_iff, find, Bool-cases,
}
use mathlib.Core.Logic.{◌⊎◌, inl, inr}
use remote_devbox.Doctor.Types.{
  HealthFacts, HealthComponentFact, RecoveryPolicy, automatic, manual, confirmation_required,
}
use remote_devbox.Doctor.Collect.{truthy}
use remote_devbox.Doctor.Parsing.{is_component_id}
use remote_devbox.Doctor.Recover.{
  BoxRecoveryResult, refused, by_policy, by_fact, by_unit, is_root, admit,
}

-- The guards that a request has to pass before any evidence is collected.
abbrev pub IsAdmitted : String → Option ℕ → HealthFacts → HealthComponentFact → String → Type 0
IsAdmitted id uid facts fact unit =
    (uid ≡ some 0)
    × (is_component_id id ≡ true)
    × (find (λ (c : HealthComponentFact). c.id == id) facts.components ≡ some fact)
    × (truthy fact.unit ≡ some unit)
    × ((fact.recovery ≡ automatic) ⊎ (fact.recovery ≡ manual))

is_root-zero : (uid : Option ℕ) → is_root uid ≡ true → uid ≡ some 0
unfolding is_root
is_root-zero none h = absurd (cc)
is_root-zero (some n) h = ap some ((eqb_iff n 0).0 h)

by_policy-admitted :
    (p : RecoveryPolicy) (fact : HealthComponentFact) (unit : String) (f : HealthComponentFact)
    (u : String)
    → by_policy p fact unit ≡ inr (f, u)
    → (fact ≡ f) × (unit ≡ u) × ((p ≡ automatic) ⊎ (p ≡ manual))
unfolding by_policy
by_policy-admitted automatic fact unit f u h = (cc, cc, inl refl)
by_policy-admitted manual fact unit f u h = (cc, cc, inr refl)
by_policy-admitted confirmation_required fact unit f u h = absurd (cc)
by_policy-admitted RecoveryPolicy.none fact unit f u h = absurd (cc)

by_unit-admitted :
    (o : Option String) (fact : HealthComponentFact) (f : HealthComponentFact) (u : String)
    → by_unit o fact ≡ inr (f, u)
    → (fact ≡ f) × (o ≡ some u) × ((fact.recovery ≡ automatic) ⊎ (fact.recovery ≡ manual))
unfolding by_unit
by_unit-admitted none fact f u h = absurd (cc)
by_unit-admitted (some unit) fact f u h =
    let q = by_policy-admitted fact.recovery fact unit f u h in (q.0, ap some q.1, q.2)

by_fact-admitted :
    (o : Option HealthComponentFact) (f : HealthComponentFact) (u : String)
    → by_fact o ≡ inr (f, u)
    → (o ≡ some f) × (truthy f.unit ≡ some u) × ((f.recovery ≡ automatic) ⊎ (f.recovery ≡ manual))
unfolding by_fact
by_fact-admitted none f u h = absurd (cc)
by_fact-admitted (some fact) f u h =
    let q = by_unit-admitted (truthy fact.unit) fact f u h in
    (ap some q.0, rw⁻¹ q.0 q.1, rw⁻¹ q.0 q.2)

-- A request is admitted only for the root user, for a component of the facts that names a unit
-- and whose policy allows a recovery without confirmation.
pub admit-IsAdmitted :
    (id : String) (uid : Option ℕ) (facts : HealthFacts) (fact : HealthComponentFact)
    (unit : String)
    → admit id uid facts ≡ inr (fact, unit)
    → IsAdmitted id uid facts fact unit
unfolding admit
admit-IsAdmitted id uid facts fact unit h = elim (Bool-cases (is_root uid)) [
  | inl r ↦ elim (Bool-cases (is_component_id id)) [
    | inl v ↦
        let q =
          by_fact-admitted (find (λ (c : HealthComponentFact). c.id == id) facts.components) fact
            unit (rw (r, v) at h) in
        (is_root-zero uid r, v, q.0, q.1, q.2)
    | inr v ↦ absurd (ground arith)
  ]
  | inr r ↦ absurd (ground arith)
]

by_policy-refused :
    (p : RecoveryPolicy) (fact : HealthComponentFact) (unit : String) (r : BoxRecoveryResult)
    → by_policy p fact unit ≡ inl r
    → r.status ≡ refused
unfolding by_policy
by_policy-refused automatic fact unit r h = absurd (cc)
by_policy-refused manual fact unit r h = absurd (cc)
by_policy-refused confirmation_required fact unit r h = ground arith
by_policy-refused RecoveryPolicy.none fact unit r h = ground arith

by_fact-refused :
    (o : Option HealthComponentFact) (r : BoxRecoveryResult)
    → by_fact o ≡ inl r
    → r.status ≡ refused
unfolding by_fact by_unit
by_fact-refused none r h = ground arith
by_fact-refused (some fact) r h = by_unit-refused (truthy fact.unit) fact r h
  where
    by_unit-refused :
        (o : Option String) (f : HealthComponentFact) (r : BoxRecoveryResult)
        → by_unit o f ≡ inl r
        → r.status ≡ refused
    by_unit-refused none f r k = ground arith
    by_unit-refused (some unit) f r k = by_policy-refused f.recovery f unit r k

pub admit-refused :
    (id : String) (uid : Option ℕ) (facts : HealthFacts) (r : BoxRecoveryResult)
    → admit id uid facts ≡ inl r
    → r.status ≡ refused
unfolding admit
admit-refused id uid facts r h = elim (Bool-cases (is_root uid)) [
  | inl u ↦ elim (Bool-cases (is_component_id id)) [
    | inl v ↦
        by_fact-refused (find (λ (c : HealthComponentFact). c.id == id) facts.components) r
          (rw (u, v) at h)
    | inr v ↦ ground arith
  ]
  | inr u ↦ ground arith
]
