-- ===== src/Base/Within.antt =====
-- What `includes` finds.
use Prim.Native.String
use Prim.Native.String.{String}
use Prim.Native.String.append
use text.Mathlib.Text.{◌==◌, starts_with}
use text.Mathlib.TextEquality.{eq_iff, starts_with_iff}
use text.Mathlib.TextLemmas.{append-nil}
use mathlib.Core.Path.{◌≡◌, refl, ap, ◌∙◌, sym}
use mathlib.Core.Logic.{◌↔◌, inl, inr}
use mathlib.Core.Bool.{Bool, true, false, ◌||◌}
use remote_devbox.Base.Tests.{Bool-cases}
use remote_devbox.Base.Text.{includes}

-- The part stands somewhere in the text.
abbrev pub IsWithin : String → String → Type 0
IsWithin part s =
    (before : String) × (after : String) × (s ≡ String.◌++◌ before (String.◌++◌ part after))

within : (s part : String) → includes s part ≡ true → IsWithin part s
unfolding includes
within String.[] part h =
    ("", "", sym (append.nil (String.◌++◌ part "") ∙ append-nil part ∙ (eq_iff part "").0 h))
within (String.◌∷◌ c s) part h = elim (Bool-cases (starts_with (String.◌∷◌ c s) part)) [
  | inl e ↦
      let (after, same) = (starts_with_iff (String.◌∷◌ c s) part).0 e in
      ("", after, sym (append.nil (String.◌++◌ part after) ∙ same))
  | inr e ↦
      let (before, after, same) = within s part (rw e at h) in
      (
        String.◌∷◌ c before,
        after,
        ap (λ t. String.◌∷◌ c t) same ∙ sym (append.cons c before (String.◌++◌ part after)),
      )
]

empty_part : (part after : String) → String.◌++◌ part after ≡ "" → (part == "") ≡ true
empty_part String.[] after h = refl
empty_part (String.◌∷◌ c p) after h = absurd (let r = sym (append.cons c p after) ∙ h in cc)

includes-here : (s part after : String) → String.◌++◌ part after ≡ s → includes s part ≡ true
unfolding includes
includes-here String.[] part after h = empty_part part after h
includes-here (String.◌∷◌ c s) part after h =
    rw ((starts_with_iff (String.◌∷◌ c s) part).1 (after, h)) refl

or-true : (b : Bool) → (b || true) ≡ true
or-true true = refl
or-true false = refl

includes-append :
    (before part after : String)
    → includes (String.◌++◌ before (String.◌++◌ part after)) part ≡ true
unfolding includes
includes-append String.[] part after =
    includes-here (String.◌++◌ "" (String.◌++◌ part after)) part after
      (sym (append.nil (String.◌++◌ part after)))
includes-append (String.◌∷◌ c b) part after =
    let rest = String.◌++◌ b (String.◌++◌ part after) in
    ap (λ t. includes t part) (append.cons c b (String.◌++◌ part after))
    ∙ rw (includes-append b part after) (or-true (starts_with (String.◌∷◌ c rest) part))

-- A text includes a part exactly if the part stands somewhere in it.
pub includes_iff : (s part : String) → (includes s part ≡ true) ↔ IsWithin part s
includes_iff s part = (
  within s part,
  λ (before, after, same). ap (λ t. includes t part) same ∙ includes-append before part after,
)
