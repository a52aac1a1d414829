-- ===== src/Base/Attempts.antt =====
-- A call of the client that may throw: its value, or the message of what was thrown. A module that
-- uses `do` on attempts brings this bind in.
use mathlib.Core.Path.{◌≡◌, refl, subst}
use mathlib.Core.Bool.{Bool, true, false}
use mathlib.Core.Logic.{◌⊎◌, inl, inr}
use mathlib.Core.List.{List}
use Prim.Native.String.{String}
use native.Mathlib.Omega.{arith}
use remote_devbox.Base.Tests.{if◌then◌else◌}
use remote_devbox.Base.Text.{concat}

pub data Attempt {ℓ} (A : Type ℓ) : Type ℓ where
  done : A → Attempt A
  thrown : String → Attempt A

infixl 5 ◌>>=◌ ◌>>◌
abbrev pub ◌>>=◌ {ℓ κ} : {A : Type ℓ} {B : Type κ} → Attempt A → (A → Attempt B) → Attempt B
thrown message >>= next = thrown message
done value >>= next = next value

abbrev pub ◌>>◌ {ℓ} : {B : Type ℓ} → Attempt (Unit {0}) → Attempt B → Attempt B
first >> second = first >>= λ _. second

-- `throw new Error(…)` of the pieces of a template.
abbrev pub throws {ℓ} : {A : Type ℓ} → List String → Attempt A
throws pieces = thrown (concat pieces)

-- `if (!test) throw new Error(…)`.
abbrev pub need : Bool → List String → Attempt (Unit {0})
need test pieces = if test then done tt else thrown (concat pieces)

-- What an attempt that has a value went through.
pub >>=-done {ℓ κ} :
    {A : Type ℓ} {B : Type κ} (m : Attempt A) (next : A → Attempt B) (b : B)
    → (m >>= next) ≡ done b
    → (a : A) × (m ≡ done a) × (next a ≡ done b)
>>=-done (done a) next b h = (a, refl, h)
>>=-done (thrown e) next b h = absurd (cc)

pub need-done {ℓ} :
    {B : Type ℓ} (test : Bool) (message : String) (next : Attempt B) (b : B)
    → ((if test then done tt else thrown message) >> next) ≡ done b
    → (test ≡ true) × (next ≡ done b)
need-done true message next b h = (refl, h)
need-done false message next b h = absurd (cc)

pub done_inj {ℓ} : {A : Type ℓ} {a b : A} → Attempt.done a ≡ done b → a ≡ b
done_inj e = ground arith

pub Attempt-cases {ℓ} :
    {A : Type ℓ} (m : Attempt A) → ((a : A) × (m ≡ done a)) ⊎ ((e : String) × (m ≡ thrown e))
Attempt-cases (done a) = inl (a, refl)
Attempt-cases (thrown e) = inr (e, refl)

-- What holds of every value that an attempt may have, and its rules for a chain.
abbrev pub Ensures {ℓ κ} : {A : Type ℓ} → (A → Type κ) → Attempt A → Type (ℓ ⊔ κ)
Ensures {A} Q m = (a : A) → m ≡ done a → Q a

pub >>=-Ensures {ℓ κ μ} :
    {A : Type ℓ} {B : Type κ} (Q : B → Type μ) (m : Attempt A) (next : A → Attempt B)
    → ((a : A) → m ≡ done a → Ensures Q (next a))
    → Ensures Q (m >>= next)
>>=-Ensures Q (done a) next h = h a refl
>>=-Ensures Q (thrown e) next h = λ b same. absurd (cc)

pub need-Ensures {ℓ κ} :
    {B : Type ℓ} (Q : B → Type κ) (test : Bool) (message : String) (next : Attempt B)
    → (test ≡ true → Ensures Q next)
    → Ensures Q ((if test then done tt else thrown message) >> next)
need-Ensures Q true message next h = h refl
need-Ensures Q false message next h = λ b same. absurd (cc)

pub done-Ensures {ℓ κ} : {B : Type ℓ} (Q : B → Type κ) (b : B) → Q b → Ensures Q (done b)
done-Ensures Q b q a same = subst Q (done_inj same) q

pub after-Ensures {ℓ κ} :
    {B : Type ℓ} (Q : B → Type κ) (first : Attempt (Unit {0})) (next : Attempt B)
    → Ensures Q next
    → Ensures Q (first >> next)
after-Ensures Q (done _) next h = h
after-Ensures Q (thrown e) next h = λ b same. absurd (cc)
