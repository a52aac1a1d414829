-- ===== src/Client/Presets/Formatting/Shown.antt =====
-- `/preset show`: the names that presetNamesForShow gives are presets that formatPresetDetails
-- finds.
use remote_devbox.Base.{
  String, true, Option, none, some, List, [], ◌∷◌, ◌≡◌, refl, All, map, inl, inr, Bool-cases,
  Option-cases, ◌==◌, join, is_some, eq_refl,
}
use remote_devbox.Base.Attempts.{done, done_inj}
use remote_devbox.Client.Presets.{ParsedPreset, ParsedPresetDocument, PresetStatus, value_at, is_in}
use remote_devbox.Client.Presets.Formatting.{
  canonical, preset_details, details_of, each_details, format_preset_details, shown_active,
  preset_names_for_show,
}

abbrev names_of : List (String × ParsedPreset) → List String
names_of presets = map (λ p. p.0) presets

-- A declared preset has the name.
abbrev pub IsDeclaredName : ParsedPresetDocument → String → Type 0
IsDeclaredName document name = is_some (value_at name document.presets) ≡ true

is_in-declared :
    (name : String) (presets : List (String × ParsedPreset))
    → is_in name (names_of presets) ≡ true
    → is_some (value_at name presets) ≡ true
unfolding is_in value_at
is_in-declared name [] h = absurd (cc)
is_in-declared name ((k, p) ∷ rest) h = elim (Bool-cases (k == name)) [
  | inl e ↦ rw e refl
  | inr e ↦ rw e (is_in-declared name rest (rw e at h))
]

weaker :
    (P Q : String → Type 0) (xs : List String) → ((x : String) → P x → Q x) → All P xs → All Q xs
weaker P Q [] f h = tt
weaker P Q (x ∷ xs) f (p, h) = (f x p, weaker P Q xs f h)

declared-cons :
    (k : String) (p : ParsedPreset) (rest : List (String × ParsedPreset)) (name : String)
    → is_some (value_at name rest) ≡ true
    → is_some (value_at name ((k, p) ∷ rest)) ≡ true
unfolding value_at
declared-cons k p rest name h = elim (Bool-cases (k == name)) [ inl e ↦ rw e refl | inr e ↦ rw e h ]

names_of-declared :
    (presets : List (String × ParsedPreset))
    → All (λ n. is_some (value_at n presets) ≡ true) (names_of presets)
unfolding value_at
names_of-declared [] = tt
names_of-declared ((k, p) ∷ rest) = (
  rw (eq_refl k) refl,
  weaker (λ n. is_some (value_at n rest) ≡ true) (λ n. is_some (value_at n ((k, p) ∷ rest)) ≡ true)
      (names_of rest) (declared-cons k p rest) (names_of-declared rest),
)

-- The active preset of a status, if there is one, is declared.
abbrev pub IsActiveDeclared : ParsedPresetDocument → Option String → Type 0
IsActiveDeclared document none = Unit
IsActiveDeclared document (some name) = IsDeclaredName document name

each_details-done :
    (document : ParsedPresetDocument) (names : List String) (status : PresetStatus)
    → All (IsDeclaredName document) names
    → (texts : List String) × (each_details document names status ≡ done texts)
unfolding each_details details_of
each_details-done document [] status h = ([], refl)
each_details-done document (name ∷ names) status (d, h) =
    let (texts, e) = each_details-done document names status h in
    elim (Option-cases (value_at name document.presets)) [
      | inl n ↦ absurd (let k = rw n at d in cc)
      | inr (p, s) ↦ (preset_details name p status ∷ texts, rw (s, e) refl)
    ]

shown_active-declared :
    (document : ParsedPresetDocument) (active : Option String) (names : List String)
    → IsActiveDeclared document active
    → shown_active active ≡ done names
    → All (IsDeclaredName document) names
unfolding shown_active
shown_active-declared document none names d h = absurd (cc)
shown_active-declared document (some name) names d h = elim (Bool-cases (name == "")) [
  | inl e ↦ absurd (let k = rw e at h in cc)
  | inr e ↦ rw⁻¹ (done_inj (rw e at h)) (d, tt)
]

preset_names_for_show-declared :
    (document : ParsedPresetDocument) (argument : String) (active : Option String)
    (names : List String)
    → IsActiveDeclared document active
    → preset_names_for_show argument (names_of document.presets) active document.aliases
      ≡ done names
    → All (IsDeclaredName document) names
unfolding preset_names_for_show
preset_names_for_show-declared document argument active names d h =
    elim (Bool-cases (argument == "all")) [
      | inl e ↦ rw⁻¹ (done_inj (rw e at h)) (names_of-declared document.presets)
      | inr e ↦ elim (Bool-cases (argument == "")) [
        | inl f ↦ shown_active-declared document active names d (rw (e, f) at h)
        | inr f ↦
            elim (Bool-cases
              (is_in (canonical document.aliases argument) (names_of document.presets))) [
                | inl g ↦
                    rw⁻¹ (done_inj (rw (e, f, g) at h))
                      (is_in-declared (canonical document.aliases argument) document.presets g, tt)
                | inr g ↦ absurd (let k = rw (e, f, g) at h in cc)
              ]
      ]
    ]

-- If the active preset is a declared one, or there is none: whenever the names to show are found
-- for an argument, each names a declared preset and their details are printed without an error.
pub preset_names_for_show-printed :
    (document : ParsedPresetDocument) (argument : String) (status : PresetStatus)
    (names : List String)
    → IsActiveDeclared document status.active_preset
    → preset_names_for_show argument
        (map (λ p. p.0) document.presets)
        status.active_preset
        document.aliases
      ≡ done names
    → All (IsDeclaredName document) names
      × ((text : String) × (format_preset_details document names status ≡ done text))
unfolding format_preset_details
preset_names_for_show-printed document argument status names d h =
    let declared =
      preset_names_for_show-declared document argument status.active_preset names d h in
    let (texts, e) = each_details-done document names status declared in
    (declared, (join "\n\n" texts, rw e refl))
