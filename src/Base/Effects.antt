-- ===== src/Base/Effects.antt =====
-- Calls on a host that may throw: an attempt and the next state of the host. A module that uses
-- `do` on effects brings this bind in.
use mathlib.Core.Path.{◌≡◌, refl}
use mathlib.Core.List.{List}
use Prim.Native.String.{String}
use remote_devbox.Base.Text.{concat}
use remote_devbox.Base.Attempts.{Attempt, done, thrown}

module _ {Host : Type 0} where
  -- What follows a call that has returned; what a call throws goes through.
  abbrev pub and_then {ℓ κ} :
      {A : Type ℓ} {B : Type κ}
      → Attempt A × Host
      → (A → Host → Attempt B × Host)
      → Attempt B × Host
  and_then (done a, h) next = next a h
  and_then (thrown e, h) next = (thrown e, h)

  infixl 5 ◌>>=◌
  abbrev pub ◌>>=◌ {ℓ κ} :
      {A : Type ℓ} {B : Type κ}
      → (Host → Attempt A × Host)
      → (A → Host → Attempt B × Host)
      → Host
      → Attempt B × Host
  (call >>= next) h = and_then (call h) next

  abbrev pub return {ℓ} : {A : Type ℓ} → A → Host → Attempt A × Host
  return a h = (done a, h)

  -- `throw new Error(…)` of the pieces of a template.
  abbrev pub throw {ℓ} : {A : Type ℓ} → List String → Host → Attempt A × Host
  throw pieces h = (thrown (concat pieces), h)

  -- What an effect that has a value went through.
  pub and_then-done {ℓ κ} :
      {A : Type ℓ} {B : Type κ} (m : Attempt A × Host) (next : A → Host → Attempt B × Host)
      (out : B × Host)
      → and_then m next ≡ (done out.0, out.1)
      → (a : A) × (h : Host) × (m ≡ (done a, h)) × (next a h ≡ (done out.0, out.1))
  and_then-done (done a, h) next out e = (a, h, refl, e)
  and_then-done (thrown m, h) next out e =
      absurd (let k : Attempt.thrown m ≡ done out.0 = λ i. (e i).0 in cc)

  -- What holds of a value with the host after it, and else of a message with the host after it.
  abbrev pub Settles {ℓ κ} :
      {A : Type ℓ} → (A → Host → Type κ) → (String → Host → Type κ) → Attempt A × Host → Type κ
  Settles Q E (done a, h) = Q a h
  Settles Q E (thrown message, h) = E message h

  pub and_then-Settles {ℓ κ μ} :
      {A : Type ℓ} {B : Type κ} (Q : B → Host → Type μ) (E : String → Host → Type μ)
      (P : A → Host → Type μ) (m : Attempt A × Host) (next : A → Host → Attempt B × Host)
      → Settles P E m
      → ((a : A) (h : Host) → P a h → Settles Q E (next a h))
      → Settles Q E (and_then m next)
  and_then-Settles Q E P (done a, h) next p k = k a h p
  and_then-Settles Q E P (thrown message, h) next p k = p
