-- ===== src/Client/Presets/Parsing/Selections.antt =====
-- parseSelection of clients/devbox/src/omp-model-presets/core.ts: the selector of a model and its
-- thinking level, at the last colon.
use Prim.Native.String
use Prim.Native.String.append
use Prim.Native.Char.{Char, code}
use text.Mathlib.TextEquality.{Char-path}
use remote_devbox.Base.Options.{some_inj}
use remote_devbox.Base.{
  ℕ, String, Bool, Option, none, some, [], ◌∷◌, ◌≡◌, ◌∙◌, refl, ap, eqb, eqb_iff, ◌==◌, ◌&&◌, ◌||◌,
  not, includes, trim, Bool-cases, Option-cases, inl, inr, if◌then◌else◌, sym, true, and-split,
}
use remote_devbox.Base.Attempts.{Attempt, done, throws, need, ◌>>◌, need-done, done_inj}
use remote_devbox.Json.{Json, string}
use remote_devbox.Client.Presets.{ParsedRoleSelection, thinking_levels, is_in}

-- The texts before and after the last such character, `lastIndexOf` and the two slices.
unfoldable pub cut_last : ℕ → String → Option (String × String)
cut_last d String.[] = none
cut_last d (String.◌∷◌ c s) =
    let later = cut_last d s in
    elim later [
      | some (before, after) ↦ some (String.◌∷◌ c before, after)
      | none ↦ if eqb (code c) d then some ("", s) else none
    ]

-- `value` has no separator, or nothing on one side of it.
unfoldable pub without_level : String → String → Bool → Attempt ParsedRoleSelection
without_level value path allow_bare =
    if allow_bare && not (includes value ":")
    then done (record { selector = value; model_selector = value; thinking = none })
    else throws (path ∷ " must end with a supported thinking level" ∷ [])

unfoldable pub with_level :
    String → String → Bool → Option (String × String) → Attempt ParsedRoleSelection
unfolding without_level
with_level value path allow_bare none = without_level value path allow_bare
with_level value path allow_bare (some (model, level)) =
    if model == "" || level == ""
    then without_level value path allow_bare
    else if is_in level thinking_levels
    then done (record { selector = value; model_selector = model; thinking = some level })
    else throws (path ∷ " has unsupported thinking level '" ∷ level ∷ "'" ∷ [])

unfoldable pub parse_selection : Option Json → String → Bool → Attempt ParsedRoleSelection
unfolding with_level cut_last
parse_selection (some (string value)) path allow_bare = do
  need (trim value == value && not (value == ""))
      (path ∷ " must be a non-empty model selector" ∷ [])
  with_level value path allow_bare (cut_last b':' value)
parse_selection _ path allow_bare = throws (path ∷ " must be a non-empty model selector" ∷ [])

-- `${modelSelector}:${thinking}`, or the bare selector.
abbrev pub written : ParsedRoleSelection → String
written sel = elim sel.thinking [
  | none ↦ sel.model_selector
  | some level ↦ String.◌++◌ sel.model_selector (String.◌++◌ ":" level)
]

-- Without a level only where a bare selector is allowed, and else with one of the known levels.
abbrev pub HasLevel : Bool → Option String → Type 0
HasLevel allow_bare none = allow_bare ≡ true
HasLevel allow_bare (some level) = is_in level thinking_levels ≡ true

abbrev colon : Char
colon = ":"

cut_last-joins :
    (s : String) (p : String × String)
    → cut_last b':' s ≡ some p
    → s ≡ String.◌++◌ p.0 (String.◌++◌ ":" p.1)
unfolding cut_last
cut_last-joins String.[] p h = absurd (cc)
cut_last-joins (String.◌∷◌ c s) p h = elim (Option-cases (cut_last b':' s)) [
  | inr (q, e) ↦ rw⁻¹ (some_inj (rw e at h)) (
      ap (λ t. String.◌∷◌ c t) (cut_last-joins s q e)
      ∙ sym (append.cons c q.0 (String.◌++◌ ":" q.1)))
  | inl e ↦ elim (Bool-cases (eqb (code c) b':')) [
    | inl q ↦ rw⁻¹ (some_inj (rw (e, q) at h)) (
        ap (λ d. String.◌∷◌ d s) (Char-path c colon ((eqb_iff (code c) b':').0 q))
        ∙ sym (
            append.nil (String.◌++◌ ":" s)
            ∙ append.cons colon "" s
            ∙ ap (λ t. String.◌∷◌ colon t) (append.nil s)))
    | inr q ↦ absurd (let k = rw (e, q) at h in cc)
  ]
]

-- What a selection says of the text that it was read from.
abbrev pub IsRead : String → Bool → ParsedRoleSelection → Type 0
IsRead value allow_bare sel =
    (sel.selector ≡ value) × (written sel ≡ value) × HasLevel allow_bare sel.thinking

without_level-IsRead :
    (value path : String) (allow_bare : Bool) (sel : ParsedRoleSelection)
    → without_level value path allow_bare ≡ done sel
    → IsRead value allow_bare sel
unfolding without_level
without_level-IsRead value path allow_bare sel h =
    elim (Bool-cases (allow_bare && not (includes value ":"))) [
      | inl e ↦
          let (bare, _) = and-split allow_bare (not (includes value ":")) e in
          rw⁻¹ (done_inj (rw e at h)) (refl, refl, bare)
      | inr e ↦ absurd (let k = rw e at h in cc)
    ]

with_level-IsRead :
    (value path : String) (allow_bare : Bool) (o : Option (String × String))
    (sel : ParsedRoleSelection)
    → cut_last b':' value ≡ o
    → with_level value path allow_bare o ≡ done sel
    → IsRead value allow_bare sel
unfolding with_level
with_level-IsRead value path allow_bare none sel e h =
    without_level-IsRead value path allow_bare sel h
with_level-IsRead value path allow_bare (some (model, level)) sel e h =
    elim (Bool-cases (model == "" || level == "")) [
      | inl x ↦ without_level-IsRead value path allow_bare sel (rw x at h)
      | inr x ↦ elim (Bool-cases (is_in level thinking_levels)) [
        | inl y ↦
            rw⁻¹ (done_inj (rw (x, y) at h)) (refl, sym (cut_last-joins value (model, level) e), y)
        | inr y ↦ absurd (let k = rw (x, y) at h in cc)
      ]
    ]

-- A selection that is read prints back as the text it was read from, `model:level` or the bare
-- model; its level is one of the known ones, and is missing only where a bare model is allowed.
pub parse_selection-written :
    (value path : String) (allow_bare : Bool) (sel : ParsedRoleSelection)
    → parse_selection (some (string value)) path allow_bare ≡ done sel
    → (sel.selector ≡ value) × (written sel ≡ value) × HasLevel allow_bare sel.thinking
unfolding parse_selection
parse_selection-written value path allow_bare sel h =
    let (_, k) = need-done _ _ _ sel h in
    with_level-IsRead value path allow_bare (cut_last b':' value) sel refl k
