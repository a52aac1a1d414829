-- ===== src/Client/Presets/Formatting.antt =====
-- What /preset prints, and the settings that a retry policy becomes: toOmpRetrySettings,
-- formatPresetList, formatPresetDetails and presetNamesForShow.
pub mod Shown
use remote_devbox.Base.{
  ℕ, String, Bool, Option, none, some, List, [], ◌∷◌, ◌++◌, ◌==◌, map, concat, join, is_empty,
  is_some, opt_is, if◌then◌else◌,
}
use remote_devbox.Base.Attempts.{Attempt, done, throws, ◌>>=◌}
use remote_devbox.Json.{Json}
use remote_devbox.Client.Presets.{
  model_role_ids, role_id, role_of, ParsedPreset, ParsedPresetDocument, ParsedRetryPolicy,
  PresetStatus, value_at, is_in,
}

pub record OmpRetrySettings : Type 0 where
  pub model_fallback : Bool
  pub usage_aware_fallback : Bool
  pub usage_reserve_pct : ℕ
  pub usage_reserve_policy : Json
  pub fallback_revert_policy : Json
  pub fallback_chains : List (String × List String)

unfoldable pub to_omp_retry_settings : ParsedRetryPolicy → OmpRetrySettings
to_omp_retry_settings policy = record {
  model_fallback = policy.model_fallback;
  usage_aware_fallback = policy.usage_aware_fallback;
  usage_reserve_pct = policy.usage_reserve_pct;
  usage_reserve_policy = policy.usage_reserve_policy;
  fallback_revert_policy = policy.fallback_revert_policy;
  fallback_chains = map (λ (selector, fallbacks). (selector, fallbacks)) policy.fallback_chains;
}

unfoldable pub markers : String → PresetStatus → List String
markers name status =
    (if opt_is status.active_preset name then "active" ∷ [] else [])
    ++ (if name == status.default_preset then "default" ∷ [] else [])

-- `${name}${markers.length > 0 ? ` (${markers.join(", ")})` : ""}`.
unfoldable pub marked : String → PresetStatus → String
unfolding markers
marked name status = concat (
    name
    ∷ (if is_empty (markers name status)
        then ""
        else concat (" (" ∷ join ", " (markers name status) ∷ ")" ∷ []))
    ∷ [])

unfoldable pub format_preset_list : List String → PresetStatus → String
unfolding marked
format_preset_list names status = join "\n" (
    (if is_some status.active_preset then "OMP presets:" else "OMP presets (override reset):")
    ∷ map (λ name. concat ("- " ∷ marked name status ∷ [])) names)

unfoldable pub preset_details : String → ParsedPreset → PresetStatus → String
unfolding marked
preset_details name preset status = join "\n" (
    concat ("OMP preset: " ∷ marked name status ∷ [])
    ∷ map (λ role. concat ("- " ∷ role_id role ∷ ": " ∷ (role_of role preset.roles).selector ∷ []))
        model_role_ids)

unfoldable pub details_of : String → Option ParsedPreset → PresetStatus → Attempt String
unfolding preset_details
details_of name none status = throws ("unknown OMP model preset '" ∷ name ∷ "'" ∷ [])
details_of name (some preset) status = done (preset_details name preset status)

unfoldable pub each_details :
    ParsedPresetDocument → List String → PresetStatus → Attempt (List String)
unfolding details_of value_at
each_details document [] status = done []
each_details document (name ∷ names) status = do
  text ← details_of name (value_at name document.presets) status
  rest ← each_details document names status
  done (text ∷ rest)

unfoldable pub format_preset_details :
    ParsedPresetDocument → List String → PresetStatus → Attempt String
unfolding each_details
format_preset_details document names status = do
  texts ← each_details document names status
  done (join "\n\n" texts)

-- An alias stands for its target, any other name for itself.
unfoldable pub canonical : List (String × String) → String → String
unfolding value_at
canonical aliases name = elim (value_at name aliases) [ some target ↦ target | none ↦ name ]

unfoldable pub shown_active : Option String → Attempt (List String)
shown_active none =
    throws ("no active OMP model preset; use '/preset show <name>' or '/preset show all'" ∷ [])
shown_active (some active) =
    if active == ""
    then throws ("no active OMP model preset; use '/preset show <name>' or '/preset show all'" ∷ [])
    else done (active ∷ [])

unfoldable pub preset_names_for_show :
    String → List String → Option String → List (String × String) → Attempt (List String)
unfolding canonical shown_active is_in
preset_names_for_show argument names active aliases =
    if argument == "all"
    then done names
    else if argument == ""
    then shown_active active
    else if is_in (canonical aliases argument) names
    then done (canonical aliases argument ∷ [])
    else throws ("unknown OMP model preset '" ∷ argument ∷ "'" ∷ [])
