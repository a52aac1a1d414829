-- ===== src/Client/Presets/Parsing.antt =====
-- parsePresetDocument, with parseSelection for a role and parseRetryPolicy for the retry section.
pub mod Selections
pub mod Retry
pub mod Validity
use remote_devbox.Base.{
  ℕ, String, Bool, Option, none, some, List, [], ◌∷◌, ◌++◌, ◌==◌, ◌||◌, concat, codes, word, one_of,
  is_lower, is_digit, is_some, is_empty, not, map, if◌then◌else◌,
}
use remote_devbox.Base.Attempts.{Attempt, done, throws, need, ◌>>=◌, ◌>>◌}
use remote_devbox.Json.{Json, string, object, Number, Fields, entries, get}
use remote_devbox.Client.Presets.{
  OmpModelRole, default, smol, slow, vision, plan, designer, commit, tiny, task, advisor,
  model_role_ids, role_id, Roles, ParsedRoleSelection, ParsedPreset, ParsedPresetDocument,
  preset_reserved_names, is_in, value_at,
}
use remote_devbox.Client.Presets.Parsing.Selections.{parse_selection}
use remote_devbox.Client.Presets.Parsing.Retry.{
  keys, only, string_of, fields_of, parse_retry_policy,
}

-- `/^[a-z][a-z0-9-]*$/`.
unfoldable pub is_preset_name : String → Bool
is_preset_name s = word is_lower (λ c. is_lower c || is_digit c || one_of (b'-' ∷ []) c) (codes s)

abbrev pub document_fields : List String
document_fields = "default_preset" ∷ "aliases" ∷ "presets" ∷ "retry" ∷ []

-- A text that is a preset name.
unfoldable pub name_of : Option Json → List String → Attempt String
unfolding is_preset_name
name_of (some (string s)) pieces = if is_preset_name s then done s else throws pieces
name_of _ pieces = throws pieces

-- The body of the loop over the roles, for one of them; `task` alone may go without a level.
unfoldable pub role_selection : String → Fields → OmpModelRole → Attempt ParsedRoleSelection
unfolding parse_selection get
role_selection preset raw role = do
  need (is_some (get (role_id role) raw))
      ("preset '" ∷ preset ∷ "' is missing role '" ∷ role_id role ∷ "'" ∷ [])
  parse_selection (get (role_id role) raw)
      (concat ("preset '" ∷ preset ∷ "' role '" ∷ role_id role ∷ "'" ∷ [])) (role_id role == "task")

-- A loop over MODEL_ROLE_IDS, in its order.
unfoldable pub for_roles : {A : Type 0} → (OmpModelRole → Attempt A) → Attempt (Roles A)
for_roles each = do
  a0 ← each default
  a1 ← each smol
  a2 ← each slow
  a3 ← each vision
  a4 ← each plan
  a5 ← each designer
  a6 ← each commit
  a7 ← each tiny
  a8 ← each task
  a9 ← each advisor
  done (record {
    default = a0;
    smol = a1;
    slow = a2;
    vision = a3;
    plan = a4;
    designer = a5;
    commit = a6;
    tiny = a7;
    task = a8;
    advisor = a9;
  })

abbrev pub selectors_of : Roles ParsedRoleSelection → Roles String
selectors_of rs = record {
  default = rs.default.selector;
  smol = rs.smol.selector;
  slow = rs.slow.selector;
  vision = rs.vision.selector;
  plan = rs.plan.selector;
  designer = rs.designer.selector;
  commit = rs.commit.selector;
  tiny = rs.tiny.selector;
  task = rs.task.selector;
  advisor = rs.advisor.selector;
}

unfoldable pub parse_preset : String → Json → Attempt ParsedPreset
unfolding is_preset_name fields_of only role_selection for_roles
parse_preset name value = do
  need (is_preset_name name) ("unsafe preset name '" ∷ name ∷ "'" ∷ [])
  raw ← fields_of (some value) ("preset '" ∷ name ∷ "' must be a role mapping" ∷ [])
  only (map role_id model_role_ids)
      (λ key. "preset '" ∷ name ∷ "' has unknown role '" ∷ key ∷ "'" ∷ []) (keys raw)
  roles ← for_roles (role_selection name raw)
  done (record { roles = roles; selectors = selectors_of roles })

unfoldable pub presets_from : List (String × Json) → Attempt (List (String × ParsedPreset))
unfolding parse_preset
presets_from [] = done []
presets_from ((name, value) ∷ rest) = do
  preset ← parse_preset name value
  presets ← presets_from rest
  done ((name, preset) ∷ presets)

-- The mapping of the presets, with an entry.
unfoldable pub preset_fields : Option Json → List String → Attempt Fields
preset_fields (some (object fields)) pieces =
    if is_empty (entries fields) then throws pieces else done fields
preset_fields _ pieces = throws pieces

module _ (number_text : Number → String) where
  -- A declared preset's name.
  unfoldable pub target_of : String → List (String × ParsedPreset) → Json → Attempt String
  unfolding value_at
  target_of alias presets (string target) =
      if is_some (value_at target presets)
      then done target
      else throws ("preset alias '" ∷ alias ∷ "' target '" ∷ target ∷ "' is not declared" ∷ [])
  target_of alias presets value = throws (
      "preset alias '"
      ∷ alias
      ∷ "' target '"
      ∷ string_of number_text value
      ∷ "' is not declared"
      ∷ [])

  unfoldable pub parse_alias : List (String × ParsedPreset) → String → Json → Attempt String
  unfolding is_preset_name is_in value_at target_of
  parse_alias presets alias value = do
    need (is_preset_name alias) ("unsafe preset alias '" ∷ alias ∷ "'" ∷ [])
    need (not (is_in alias preset_reserved_names))
        ("preset alias '" ∷ alias ∷ "' is reserved by the /preset command" ∷ [])
    need (not (is_some (value_at alias presets)))
        ("preset alias '" ∷ alias ∷ "' collides with a canonical preset" ∷ [])
    target_of alias presets value

  unfoldable pub aliases_from :
      List (String × ParsedPreset) → List (String × Json) → Attempt (List (String × String))
  unfolding parse_alias
  aliases_from presets [] = done []
  aliases_from presets ((alias, value) ∷ rest) = do
    target ← parse_alias presets alias value
    aliases ← aliases_from presets rest
    done ((alias, target) ∷ aliases)

  unfoldable pub parse_aliases :
      List (String × ParsedPreset) → Option Json → Attempt (List (String × String))
  unfolding fields_of aliases_from
  parse_aliases presets none = done []
  parse_aliases presets raw = do
    fields ← fields_of raw ("aliases must be a mapping" ∷ [])
    aliases_from presets (entries fields)

  unfoldable pub parse_preset_document : Option Json → Attempt ParsedPresetDocument
  unfolding fields_of only name_of preset_fields get presets_from parse_aliases parse_retry_policy
  parse_preset_document value = do
    raw ← fields_of value ("OMP model preset document must be a mapping" ∷ [])
    only document_fields (λ key. "unknown OMP model preset field '" ∷ key ∷ "'" ∷ []) (keys raw)
    default_preset ←
        name_of (get "default_preset" raw) ("default_preset must be a safe preset name" ∷ [])
    raw_presets ← preset_fields (get "presets" raw) ("presets must be a non-empty mapping" ∷ [])
    need (is_some (get default_preset raw_presets))
        ("default preset '" ∷ default_preset ∷ "' is not declared" ∷ [])
    presets ← presets_from (entries raw_presets)
    aliases ← parse_aliases presets (get "aliases" raw)
    retry ← parse_retry_policy number_text (get "retry" raw)
    done (record {
      default_preset = default_preset;
      presets = presets;
      aliases = aliases;
      retry = retry;
    })
