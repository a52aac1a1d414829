-- ===== src/Base/Options.antt =====
-- Chains of optional results; a module that uses `do` on them brings this bind in.
use mathlib.Core.Option.{Option, none, some}
use mathlib.Core.Path.{◌≡◌}
use native.Mathlib.Omega.{arith}

infixl 5 ◌>>=◌
abbrev pub ◌>>=◌ {ℓ κ} : {A : Type ℓ} {B : Type κ} → Option A → (A → Option B) → Option B
none >>= next = none
some value >>= next = next value

pub some_inj {ℓ} : {A : Type ℓ} {a b : A} → some a ≡ some b → a ≡ b
some_inj e = ground arith

pub none-ne-some {ℓ κ} : {A : Type ℓ} {a : A} {P : Type κ} → none ≡ some a → P
none-ne-some e = absurd (cc)
