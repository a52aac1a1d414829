-- ===== src/Base/Splitting.antt =====
-- Lines that are joined are split again.
use Prim.Native.Nat.{ℕ}
use Prim.Native.Char.{Char, code}
use Prim.Native.String
use Prim.Native.String.{String}
use Prim.Native.String.append
use text.Mathlib.TextLemmas.{append_assoc, append-nil}
use mathlib.Core.Path.{◌≡◌, refl, ap, ◌∙◌, sym}
use mathlib.Core.Bool.{Bool, true, false, not}
use mathlib.Core.List.{List, [], ◌∷◌}
use remote_devbox.Base.Tests.{eqb, eqb_iff, and-split}
use remote_devbox.Base.Lists.{All}
use remote_devbox.Base.Text.{codes, every, join, split_from, split}

-- None of its characters is `d`.
abbrev pub lacks : ℕ → String → Bool
lacks d s = every (λ c. not (eqb c d)) (codes s)

abbrev grown : String → Char → String → String
grown cur c s = String.◌++◌ (String.◌++◌ cur (String.◌∷◌ c "")) s

grown-path :
    (cur : String) (c : Char) (s : String) → grown cur c s ≡ String.◌++◌ cur (String.◌∷◌ c s)
grown-path cur c s =
    append_assoc cur (String.◌∷◌ c "") s
    ∙ ap (λ t. String.◌++◌ cur t) (append.cons c "" s ∙ ap (λ t. String.◌∷◌ c t) (append.nil s))

not-true : (b : Bool) → not b ≡ true → b ≡ false
not-true false h = refl
not-true true h = sym h

split_from-plain :
    (d : ℕ) (cur s : String) → lacks d s ≡ true → split_from d cur s ≡ String.◌++◌ cur s ∷ []
unfolding split_from
split_from-plain d cur String.[] h = ap (λ t. t ∷ []) (sym (append-nil cur))
split_from-plain d cur (String.◌∷◌ c s) h =
    let (other, rest) = and-split _ _ h in
    rw (not-true (eqb (code c) d) other) (
      split_from-plain d (String.◌++◌ cur (String.◌∷◌ c "")) s rest
      ∙ ap (λ t. t ∷ []) (grown-path cur c s))

split_from-line :
    (d : Char) (cur s rest : String)
    → lacks (code d) s ≡ true
    → split_from (code d) cur (String.◌++◌ s (String.◌∷◌ d rest))
      ≡ String.◌++◌ cur s ∷ split_from (code d) "" rest
unfolding split_from
split_from-line d cur String.[] rest h =
    ap (split_from (code d) cur) (append.nil (String.◌∷◌ d rest))
    ∙ rw ((eqb_iff (code d) (code d)).1 refl)
        (ap (λ t. t ∷ split_from (code d) "" rest) (sym (append-nil cur)))
split_from-line d cur (String.◌∷◌ c s) rest h =
    let (other, plain) = and-split _ _ h in
    ap (split_from (code d) cur) (append.cons c s (String.◌∷◌ d rest))
    ∙ rw (not-true (eqb (code c) (code d)) other) (
        split_from-line d (String.◌++◌ cur (String.◌∷◌ c "")) s rest plain
        ∙ ap (λ t. t ∷ split_from (code d) "" rest) (grown-path cur c s))

-- Lines without the separator, joined with it, are split into themselves.
pub split-join :
    (d : Char) (line : String) (lines : List String)
    → All (λ l. lacks (code d) l ≡ true) (line ∷ lines)
    → split (code d) (join (String.◌∷◌ d "") (line ∷ lines)) ≡ line ∷ lines
unfolding split
split-join d line [] (h, _) =
    split_from-plain (code d) "" line h ∙ ap (λ t. t ∷ []) (append.nil line)
split-join d line (next ∷ lines) (h, hs) =
    let rest = join (String.◌∷◌ d "") (next ∷ lines) in
    let separated = append.cons d "" rest ∙ ap (λ t. String.◌∷◌ d t) (append.nil rest) in
    ap (λ t. split_from (code d) "" (String.◌++◌ line t)) separated
    ∙ split_from-line d "" line rest h
    ∙ ap (λ t. t ∷ split_from (code d) "" rest) (append.nil line)
    ∙ ap (λ ls. line ∷ ls) (split-join d next lines hs)
