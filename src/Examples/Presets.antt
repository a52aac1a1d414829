-- ===== src/Examples/Presets.antt =====
-- Presets read from a document, applied, kept and resumed, against a small runtime.
use remote_devbox.Base.{
  String, Bool, true, false, Option, none, some, List, [], ◌∷◌, ◌++◌, ◌≡◌, refl, All, inl, inr,
  ◌==◌, map, concat, trim, includes, Bool-cases,
}
use remote_devbox.Base.Attempts.{Attempt, done, thrown}
use remote_devbox.Json.{Json, string, object, Number, Fields, field, end}
use remote_devbox.Client.Presets.{
  Roles, ParsedPreset, ParsedPresetDocument, ParsedRoleSelection, PresetState, PresetStatus,
  SessionEntryLike, is_in, value_at,
}
use remote_devbox.Client.Presets.Parsing.Selections.{
  parse_selection, written, HasLevel, parse_selection-written,
}
use remote_devbox.Client.Presets.Parsing.{parse_preset_document}
use remote_devbox.Client.Presets.Parsing.Validity.{
  IsPresetDocument, parse_preset_document-IsPresetDocument,
}
use remote_devbox.Client.Presets.Formatting.{preset_names_for_show, format_preset_details}
use remote_devbox.Client.Presets.Formatting.Shown.{preset_names_for_show-printed, IsDeclaredName}
use remote_devbox.Client.Presets.State.{latest_preset_state, replay, latest_preset_state-replay}
use remote_devbox.Client.Presets.Controller.{
  OmpModelPresetRuntime, ResolvedOmpModel, Session, apply_unlocked,
}
use remote_devbox.Client.Presets.Controller.Lawful.{IsLawful}
use remote_devbox.Client.Presets.Controller.Settled.{IsSettled, perform_all-IsSettled}
use remote_devbox.Client.Presets.Controller.Atomicity.{IsApplied, apply_unlocked-IsApplied}
use remote_devbox.Client.Presets.Controller.Upkeep.{EndsInStep, perform-EndsInStep}
use remote_devbox.Client.Presets.Controller.Resuming.{IsResumed, kept_entry, restore-IsResumed}
use remote_devbox.Client.Presets.Controller.Operations.{apply, clear, perform, perform_all, restore}

abbrev roles_json : String → Fields
roles_json model = field "default" (string model) (
    field "smol" (string model) (
      field "slow" (string model) (
        field "vision" (string model) (
          field "plan" (string model) (
            field "designer" (string model) (
              field "commit" (string model) (
                field "tiny" (string model)
                  (field "task" (string "m") (field "advisor" (string model) end)))))))))

abbrev raw_document : Json
raw_document = object (
    field "default_preset" (string "fast") (
      field "aliases" (object (field "quick" (string "fast") end)) (
        field "presets"
          (object (
            field "fast" (object (roles_json "m:low"))
              (field "deep" (object (roles_json "p/m:high")) end)))
          end)))

abbrev number_text : Number → String
number_text n = "0"

abbrev selection : String → String → ParsedRoleSelection
selection model level = record {
  selector = concat (model ∷ ":" ∷ level ∷ []);
  model_selector = model;
  thinking = some level;
}

abbrev everywhere : {A : Type 0} → A → A → Roles A
everywhere a b = record {
  default = a;
  smol = a;
  slow = a;
  vision = a;
  plan = a;
  designer = a;
  commit = a;
  tiny = a;
  task = b;
  advisor = a;
}

abbrev bare : ParsedRoleSelection
bare = record { selector = "m"; model_selector = "m"; thinking = none }

abbrev fast : ParsedPreset
fast = record { roles = everywhere (selection "m" "low") bare; selectors = everywhere "m:low" "m" }

abbrev deep : ParsedPreset
deep = record {
  roles = everywhere (selection "p/m" "high") bare;
  selectors = everywhere "p/m:high" "m";
}

abbrev document : ParsedPresetDocument
document = record {
  default_preset = "fast";
  presets = ("fast", fast) ∷ ("deep", deep) ∷ [];
  aliases = ("quick", "fast") ∷ [];
  retry = none;
}

document_read : parse_preset_document number_text (some raw_document) ≡ done document
unfolding parse_preset_document trim includes
document_read = refl

document-IsPresetDocument : IsPresetDocument document
document-IsPresetDocument =
    parse_preset_document-IsPresetDocument number_text (some raw_document) document document_read

parse_preset_document-IsPresetDocument_example : IsPresetDocument document
parse_preset_document-IsPresetDocument_example =
    parse_preset_document-IsPresetDocument number_text (some raw_document) document document_read

level_read : parse_selection (some (string "p/m:high")) "plan" false ≡ done (selection "p/m" "high")
unfolding parse_selection trim is_in
level_read = refl

parse_selection-written_example :
    ((selection "p/m" "high").selector ≡ "p/m:high")
    × (written (selection "p/m" "high") ≡ "p/m:high")
    × HasLevel false (some "high")
parse_selection-written_example =
    parse_selection-written "p/m:high" "plan" false (selection "p/m" "high") level_read

-- What the small runtime keeps.
record Desk : Type 0 where
  roles : Option (Roles String)
  model : String
  thinking : String
  kept : List PresetState

-- It refuses one model, and knows no model of one name.
abbrev choose : Bool → String → Desk → Attempt Bool × Desk
choose true m d = (done false, d)
choose false m d = (done true, record d { model = m })

abbrev looked_up : Bool → String → Option (ResolvedOmpModel String)
looked_up true m = none
looked_up false m = some (record { model = m; supported_thinking = some ("low" ∷ "high" ∷ []) })

abbrev desk_runtime : OmpModelPresetRuntime String Desk
desk_runtime = record {
  resolve_model = λ m d. (done (looked_up (m == "gone") m), d);
  current_model = λ d. done d.model;
  current_thinking = λ d. done d.thinking;
  replace_roles = λ rs d. (done tt, record d { roles = some rs });
  clear_roles = λ d. (done tt, record d { roles = none });
  set_model = λ m d. choose (m == "p/m") m d;
  set_thinking = λ l d. (done tt, record d { thinking = l });
  append_state = λ state d. (done tt, record d { kept = d.kept ++ state ∷ [] });
}

abbrev desk_roles : Desk → Option (Roles String)
desk_roles d = d.roles

desk_runtime-IsLawful : IsLawful desk_runtime desk_roles
desk_runtime-IsLawful = record {
  resolve_model = λ m d. (refl, refl, refl);
  replace_roles = λ rs d. refl;
  clear_roles = λ d. refl;
  set_model =
      λ m d. elim (Bool-cases (m == "p/m")) [ inl e ↦ rw e (refl, tt) | inr e ↦ rw e (refl, refl) ];
  set_thinking = λ l d. (refl, refl, refl);
  append_state = λ state d. (refl, refl, refl);
}

abbrev fresh : Session Desk
fresh = record {
  active_preset = none;
  active_roles = none;
  host = record { roles = none; model = "old"; thinking = "off"; kept = [] };
}

-- The alias stands for its preset.
applied : (apply_unlocked document desk_runtime "quick" fresh).1.active_preset ≡ some "fast"
unfolding apply_unlocked
applied = refl

-- The refused model leaves everything as it was.
refused :
    apply_unlocked document desk_runtime "deep" fresh
    ≡ (thrown "could not select model 'p/m'", fresh)
unfolding apply_unlocked
refused = refl

apply_unlocked-IsApplied_example :
    IsApplied document desk_runtime desk_roles desk_runtime-IsLawful "deep" fresh
      (apply_unlocked document desk_runtime "deep" fresh)
apply_unlocked-IsApplied_example =
    apply_unlocked-IsApplied document desk_runtime desk_roles desk_runtime-IsLawful "deep" fresh
      refl

perform_all-IsSettled_example :
    IsSettled document desk_runtime
      (perform_all document desk_runtime (apply "quick" ∷ apply "deep" ∷ clear ∷ []) fresh).1
perform_all-IsSettled_example =
    perform_all-IsSettled document desk_runtime (apply "quick" ∷ apply "deep" ∷ clear ∷ []) fresh
      (inl (refl, refl))

perform-EndsInStep_example :
    EndsInStep document desk_runtime desk_roles desk_runtime-IsLawful
      (perform document desk_runtime (apply "quick") fresh)
perform-EndsInStep_example =
    perform-EndsInStep document desk_runtime desk_roles desk_runtime-IsLawful (apply "quick") fresh
      refl

abbrev entries : List SessionEntryLike
entries = kept_entry (record { preset = none }) ∷ []

restore-IsResumed_example : IsResumed document desk_runtime "deep" deep fresh (
    restore document desk_runtime
      (entries ++ kept_entry (record { preset = some "deep" }) ∷ [])
      fresh)
unfolding value_at
restore-IsResumed_example =
    restore-IsResumed document desk_runtime entries "deep" deep fresh document-IsPresetDocument refl

latest_preset_state-replay_example : latest_preset_state entries ≡ replay none entries
latest_preset_state-replay_example = latest_preset_state-replay entries

abbrev shown : PresetStatus
shown = record { active_preset = some "deep"; default_preset = "fast" }

names_shown :
    preset_names_for_show "quick" (map (λ p. p.0) document.presets) (some "deep") document.aliases
    ≡ done ("fast" ∷ [])
unfolding preset_names_for_show
names_shown = refl

preset_names_for_show-printed_example :
    All (IsDeclaredName document) ("fast" ∷ [])
    × ((text : String) × (format_preset_details document ("fast" ∷ []) shown ≡ done text))
unfolding value_at
preset_names_for_show-printed_example =
    preset_names_for_show-printed document "quick" shown ("fast" ∷ []) refl names_shown
