-- ===== src/Client/Presets/Parsing/Validity.antt =====
-- What a preset document that was read promises: parsePresetDocument of
-- clients/devbox/src/omp-model-presets/core.ts.
use remote_devbox.Base.{
  String, Bool, true, false, Option, none, some, List, [], ◌∷◌, ◌≡◌, refl, sym, map, ◌∙◌, All, not,
  is_some, Bool-cases, Option-cases, inl, inr, ◌==◌, arith,
}
use remote_devbox.Base.Attempts.{
  Attempt, done, need-done, done_inj, Ensures, >>=-Ensures, need-Ensures, done-Ensures,
  after-Ensures,
}
use remote_devbox.Json.{
  Json, null, boolean, number, string, array, object, Number, Fields, end, field, entries, get,
}
use remote_devbox.Client.Presets.{
  OmpModelRole, default, smol, slow, vision, plan, designer, commit, tiny, task, advisor,
  model_role_ids, role_id, role_of, Roles, ParsedRoleSelection, ParsedPreset, ParsedPresetDocument,
  preset_reserved_names, is_in, value_at,
}
use remote_devbox.Client.Presets.Parsing.Selections.{
  parse_selection, parse_selection-written, written, HasLevel, IsRead,
}
use remote_devbox.Client.Presets.Parsing.Retry.{fields_of, only, keys, parse_retry_policy}
use remote_devbox.Client.Presets.Parsing.{
  is_preset_name, role_selection, for_roles, parse_preset, presets_from, preset_fields, target_of,
  parse_alias, aliases_from, parse_aliases, parse_preset_document, name_of, selectors_of,
  document_fields,
}

-- Each role's entry is what its turn of the loop gave.
for_roles-each :
    {A : Type 0} (each : OmpModelRole → Attempt A)
    → Ensures (λ rs. All (λ r. each r ≡ done (role_of r rs)) model_role_ids) (for_roles each)
unfolding for_roles
for_roles-each {A} each =
    let Q : Roles A → Type 0 = λ rs. All (λ r. each r ≡ done (role_of r rs)) model_role_ids in
    >>=-Ensures Q (each default) _ λ a0 e0. >>=-Ensures Q (each smol) _ λ a1 e1.
      >>=-Ensures Q (each slow) _ λ a2 e2. >>=-Ensures Q (each vision) _ λ a3 e3.
        >>=-Ensures Q (each plan) _ λ a4 e4. >>=-Ensures Q (each designer) _ λ a5 e5.
          >>=-Ensures Q (each commit) _ λ a6 e6. >>=-Ensures Q (each tiny) _ λ a7 e7.
            >>=-Ensures Q (each task) _ λ a8 e8. >>=-Ensures Q (each advisor) _ λ a9 e9.
              done-Ensures Q _ (e0, (e1, (e2, (e3, (e4, (e5, (e6, (e7, (e8, (e9, tt))))))))))

-- The selector of the role prints its selection, which has a level unless the role is `task`.
abbrev pub IsSelected : ParsedPreset → OmpModelRole → Type 0
IsSelected preset r =
    (role_of r preset.selectors ≡ (role_of r preset.roles).selector)
    × (written (role_of r preset.roles) ≡ (role_of r preset.roles).selector)
    × HasLevel (role_id r == "task") (role_of r preset.roles).thinking

-- A preset with a safe name and a selection for every role.
abbrev pub IsPreset : String × ParsedPreset → Type 0
IsPreset (name, preset) = (is_preset_name name ≡ true) × All (IsSelected preset) model_role_ids

-- An alias with a safe name that is no reserved word and no preset, for a preset that is declared.
abbrev pub IsAlias : List (String × ParsedPreset) → String × String → Type 0
IsAlias presets (alias, target) =
    (is_preset_name alias ≡ true)
    × (is_in alias preset_reserved_names ≡ false)
    × (value_at alias presets ≡ none)
    × (is_some (value_at target presets) ≡ true)

selection-IsRead :
    (v : Option Json) (path : String) (bare : Bool) (sel : ParsedRoleSelection)
    → parse_selection v path bare ≡ done sel
    → (value : String) × IsRead value bare sel
unfolding parse_selection
selection-IsRead (some (string value)) path bare sel h =
    (value, parse_selection-written value path bare sel h)
selection-IsRead none path bare sel h = absurd (cc)
selection-IsRead (some null) path bare sel h = absurd (cc)
selection-IsRead (some (boolean b)) path bare sel h = absurd (cc)
selection-IsRead (some (number n)) path bare sel h = absurd (cc)
selection-IsRead (some (array vs)) path bare sel h = absurd (cc)
selection-IsRead (some (object fs)) path bare sel h = absurd (cc)

role_selection-IsSelected :
    (name : String) (raw : Fields) (r : OmpModelRole) (sel : ParsedRoleSelection)
    → role_selection name raw r ≡ done sel
    → (written sel ≡ sel.selector) × HasLevel (role_id r == "task") sel.thinking
unfolding role_selection
role_selection-IsSelected name raw r sel h =
    let (_, k) = need-done _ _ _ sel h in
    let (value, read) = selection-IsRead _ _ (role_id r == "task") sel k in
    (read.1 ∙ sym read.0, read.2)

-- The selectors of a preset are its selections' own.
selectors_of-IsSelected :
    (name : String) (raw : Fields) (rs : Roles ParsedRoleSelection) (ids : List OmpModelRole)
    → All (λ r. role_selection name raw r ≡ done (role_of r rs)) ids
    → All (IsSelected (record { roles = rs; selectors = selectors_of rs })) ids
selectors_of-IsSelected name raw rs [] h = tt
selectors_of-IsSelected name raw rs (r ∷ ids) (e, h) =
    let sound = role_selection-IsSelected name raw r (role_of r rs) e in
    ((same r rs, sound.0, sound.1), selectors_of-IsSelected name raw rs ids h)
  where
    same :
        (r : OmpModelRole) (rs : Roles ParsedRoleSelection)
        → role_of r (selectors_of rs) ≡ (role_of r rs).selector
    same default rs = refl
    same smol rs = refl
    same slow rs = refl
    same vision rs = refl
    same plan rs = refl
    same designer rs = refl
    same commit rs = refl
    same tiny rs = refl
    same task rs = refl
    same advisor rs = refl

parse_preset-IsPreset :
    (name : String) (value : Json) → Ensures (λ p. IsPreset (name, p)) (parse_preset name value)
unfolding parse_preset
parse_preset-IsPreset name value =
    let Q : ParsedPreset → Type 0 = λ p. IsPreset (name, p) in
    need-Ensures Q (is_preset_name name) _ _ λ safe.
      >>=-Ensures Q (fields_of (some value) _) _ λ raw _.
        after-Ensures Q
          (only (map role_id model_role_ids)
            (λ key. "preset '" ∷ name ∷ "' has unknown role '" ∷ key ∷ "'" ∷ []) (keys raw))
          _
          (>>=-Ensures Q (for_roles (role_selection name raw)) _ λ roles e. done-Ensures Q _ (
            safe,
            selectors_of-IsSelected name raw roles model_role_ids
                (for_roles-each (role_selection name raw) roles e),
          ))

presets_from-IsPreset : (raw : List (String × Json)) → Ensures (All IsPreset) (presets_from raw)
unfolding presets_from
presets_from-IsPreset [] = done-Ensures (All IsPreset) [] tt
presets_from-IsPreset ((name, value) ∷ raw) =
    >>=-Ensures (All IsPreset) (parse_preset name value) _ λ p e.
      >>=-Ensures (All IsPreset) (presets_from raw) _ λ ps es.
        done-Ensures (All IsPreset) ((name, p) ∷ ps)
          (parse_preset-IsPreset name value p e, presets_from-IsPreset raw ps es)

-- What is declared in the mapping is declared among the presets.
presets_from-declared :
    (key : String) (raw : Fields)
    → is_some (get key raw) ≡ true
    → Ensures (λ ps. is_some (value_at key ps) ≡ true) (presets_from (entries raw))
unfolding presets_from get value_at
presets_from-declared key end h = absurd (cc)
presets_from-declared key (field name value raw) h =
    let Q : List (String × ParsedPreset) → Type 0 = λ ps. is_some (value_at key ps) ≡ true in
    >>=-Ensures Q (parse_preset name value) _ λ p _.
      >>=-Ensures Q (presets_from (entries raw)) _ λ ps es.
        done-Ensures Q ((name, p) ∷ ps) (elim (Bool-cases (name == key)) [
          | inl e ↦ rw e refl
          | inr e ↦ rw e (presets_from-declared key raw (rw e at h) ps es)
        ])

target_of-declared :
    (number_text : Number → String) (alias : String) (presets : List (String × ParsedPreset))
    (value : Json)
    → Ensures (λ t. is_some (value_at t presets) ≡ true) (target_of number_text alias presets value)
unfolding target_of
target_of-declared nt alias presets (string t) target h =
    elim (Bool-cases (is_some (value_at t presets))) [
      | inl e ↦ rw⁻¹ (done_inj (rw e at h)) e
      | inr e ↦ absurd (let k = rw e at h in cc)
    ]
target_of-declared nt alias presets null target h = absurd (cc)
target_of-declared nt alias presets (boolean b) target h = absurd (cc)
target_of-declared nt alias presets (number n) target h = absurd (cc)
target_of-declared nt alias presets (array vs) target h = absurd (cc)
target_of-declared nt alias presets (object fs) target h = absurd (cc)

parse_alias-IsAlias :
    (number_text : Number → String) (presets : List (String × ParsedPreset)) (alias : String)
    (value : Json)
    → Ensures (λ t. IsAlias presets (alias, t)) (parse_alias number_text presets alias value)
unfolding parse_alias
parse_alias-IsAlias nt presets alias value =
    let Q : String → Type 0 = λ t. IsAlias presets (alias, t) in
    need-Ensures Q (is_preset_name alias) _ _ λ safe.
      need-Ensures Q (not (is_in alias preset_reserved_names)) _ _ λ free.
        need-Ensures Q (not (is_some (value_at alias presets))) _ _ λ apart. λ t e. (
          safe,
          ground (arith, free),
          elim (Option-cases (value_at alias presets)) [
            | inl n ↦ n
            | inr (p, s) ↦ absurd (let k = rw s at apart in cc)
          ],
          target_of-declared nt alias presets value t e,
        )

aliases_from-IsAlias :
    (number_text : Number → String) (presets : List (String × ParsedPreset))
    (raw : List (String × Json))
    → Ensures (All (IsAlias presets)) (aliases_from number_text presets raw)
unfolding aliases_from
aliases_from-IsAlias nt presets [] = done-Ensures (All (IsAlias presets)) [] tt
aliases_from-IsAlias nt presets ((alias, value) ∷ raw) =
    let Q = All (IsAlias presets) in
    >>=-Ensures Q (parse_alias nt presets alias value) _ λ t e.
      >>=-Ensures Q (aliases_from nt presets raw) _ λ names es.
        done-Ensures Q ((alias, t) ∷ names) (
          parse_alias-IsAlias nt presets alias value t e,
          aliases_from-IsAlias nt presets raw names es,
        )

parse_aliases-IsAlias :
    (number_text : Number → String) (presets : List (String × ParsedPreset)) (raw : Option Json)
    → Ensures (All (IsAlias presets)) (parse_aliases number_text presets raw)
unfolding parse_aliases
parse_aliases-IsAlias nt presets none = done-Ensures (All (IsAlias presets)) [] tt
parse_aliases-IsAlias nt presets (some value) =
    >>=-Ensures (All (IsAlias presets)) (fields_of (some value) _) _
      λ fields _. aliases_from-IsAlias nt presets (entries fields)

-- A document whose default preset is declared, with every preset complete and every alias for a
-- declared preset.
pub record IsPresetDocument (document : ParsedPresetDocument) : Type 0 where
  pub default_declared : is_some (value_at document.default_preset document.presets) ≡ true
  pub presets : All IsPreset document.presets
  pub aliases : All (IsAlias document.presets) document.aliases

-- A document that is read has its default preset declared; each preset has a safe name and, for
-- each of the ten roles, a selector that prints its selection, with a known thinking level except
-- where `task` goes without one; each alias has a safe name that is neither reserved nor a
-- preset's, and its target is a declared preset.
pub parse_preset_document-IsPresetDocument :
    (number_text : Number → String) (value : Option Json) (document : ParsedPresetDocument)
    → parse_preset_document number_text value ≡ done document
    → IsPresetDocument document
unfolding parse_preset_document preset_fields
parse_preset_document-IsPresetDocument nt value =
    let Q = IsPresetDocument in
    >>=-Ensures Q (fields_of value _) _ λ raw _.
      after-Ensures Q
        (only document_fields (λ key. "unknown OMP model preset field '" ∷ key ∷ "'" ∷ [])
          (keys raw))
        _
        (>>=-Ensures Q (name_of (get "default_preset" raw) _) _ λ name _.
          >>=-Ensures Q (preset_fields (get "presets" raw) _) _ λ fields _.
            need-Ensures Q (is_some (get name fields)) _ _ λ there.
              >>=-Ensures Q (presets_from (entries fields)) _ λ ps e.
                >>=-Ensures Q (parse_aliases nt ps (get "aliases" raw)) _ λ names f.
                  >>=-Ensures Q (parse_retry_policy nt (get "retry" raw)) _ λ retry _.
                    done-Ensures Q _ (record {
                      default_declared = presets_from-declared name fields there ps e;
                      presets = presets_from-IsPreset (entries fields) ps e;
                      aliases = parse_aliases-IsAlias nt ps (get "aliases" raw) names f;
                    }))
