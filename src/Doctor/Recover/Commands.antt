-- ===== src/Doctor/Recover/Commands.antt =====
-- Which commands of a recovery have succeeded.
use remote_devbox.Base.{
  ℕ, true, false, Option, none, some, ◌≡◌, refl, Bool-cases, ap, ◌∙◌, ◌↔◌, eqb_iff,
}
use mathlib.Core.Logic.{◌⊎◌, inl, inr}
use remote_devbox.Base.Options.{some_inj}
use remote_devbox.Doctor.Collect.{CommandResult, exited_zero}
use remote_devbox.Doctor.Recover.{command_failed}

-- A command that ended in time with exit code 0.
abbrev pub HasSucceeded : Option CommandResult → Type 0
HasSucceeded o = (r : CommandResult) × (o ≡ some r) × (r.timed_out ≡ false) × (r.exit_code ≡ some 0)

exited_zero_iff : (o : Option ℕ) → (exited_zero o ≡ true) ↔ (o ≡ some 0)
unfolding exited_zero
exited_zero_iff none = (λ h. absurd (cc), λ h. absurd (cc))
exited_zero_iff (some n) = (λ h. ap some ((eqb_iff n 0).0 h), λ h. (eqb_iff n 0).1 (some_inj h))

-- A command fails exactly if it has not succeeded.
pub command-cases :
    (o : Option CommandResult)
    → ((command_failed o ≡ true) × ¬ HasSucceeded o) ⊎ ((command_failed o ≡ false) × HasSucceeded o)
unfolding command_failed
command-cases none = inl (refl, λ (r, e, q, z). absurd (cc))
command-cases (some r) = elim (Bool-cases r.timed_out) [
  | inl late ↦ inl (rw late refl, λ (s, e, on_time, zero). let same = some_inj e in absurd (cc))
  | inr on_time ↦ elim (Bool-cases (exited_zero r.exit_code)) [
    | inl z ↦ inr (rw (on_time, z) refl, (r, refl, on_time, (exited_zero_iff r.exit_code).0 z))
    | inr z ↦ inl (
      rw (on_time, z) refl,
      λ (s, e, in_time, zero).
          let same : r.exit_code ≡ s.exit_code =
            ap (λ (q : CommandResult). q.exit_code) (some_inj e) in
          let k = (exited_zero_iff r.exit_code).1 (same ∙ zero) in absurd (cc),
    )
  ]
]
