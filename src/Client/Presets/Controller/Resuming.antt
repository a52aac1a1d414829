-- ===== src/Client/Presets/Controller/Resuming.antt =====
-- A session that is resumed: what `restore` makes of the state that `apply` has kept.
use remote_devbox.Base.Options.{some_inj}
use remote_devbox.Base.{
  String, Bool, true, Option, none, some, List, [], ◌∷◌, ◌++◌, ◌≡◌, refl, sym, ap, ◌∙◌, All,
  Bool-cases, inl, inr, ◌==◌, eq_iff,
}
use remote_devbox.Base.Attempts.{Attempt, done, thrown}
use remote_devbox.Base.Effects.{Settles}
use remote_devbox.Json.{Json, null, number, nat, string, object, field, end, get}
use remote_devbox.Client.Presets.{
  ParsedPreset, ParsedPresetDocument, PresetState, SessionEntryLike, preset_state_custom_type,
  value_at,
}
use remote_devbox.Client.Presets.Formatting.{canonical}
use remote_devbox.Client.Presets.State.{
  latest_preset_state, replay, entry_state, parse_state, is_state_entry, is_version, state_of,
  latest_preset_state-replay, or_else,
}
use remote_devbox.Client.Presets.Parsing.Validity.{IsPresetDocument, IsAlias}
use remote_devbox.Client.Presets.Controller.{OmpModelPresetRuntime, Session, Validated, validated}
use remote_devbox.Client.Presets.Controller.Checks.{IsDeclared, Fine, validated-IsDeclared}
use remote_devbox.Client.Presets.Controller.Operations.{
  finish, take_over, restore_valid, restore_kept, restore_state, restore,
}

abbrev pub name_value : Option String → Json
name_value none = null
name_value (some name) = string name

-- An entry of the presets' type with a state as its data.
abbrev pub kept_entry : PresetState → SessionEntryLike
kept_entry state = record {
  custom_type = some (string preset_state_custom_type);
  data_of =
      some
        (object (field "version" (number (nat 1)) (field "preset" (name_value state.preset) end)));
}

entry_state-kept_entry : (state : PresetState) → entry_state (kept_entry state) ≡ some state
unfolding entry_state parse_state is_state_entry is_version state_of get
entry_state-kept_entry state = by_name state.preset
  where
    by_name :
        (o : Option String)
        → entry_state (kept_entry (record { preset = o })) ≡ some (record { preset = o })
    by_name none = refl
    by_name (some name) = refl

replay-append :
    (seen : Option PresetState) (es : List SessionEntryLike) (e : SessionEntryLike)
    → replay seen (es ++ e ∷ []) ≡ or_else (entry_state e) (replay seen es)
unfolding replay
replay-append seen [] e = refl
replay-append seen (x ∷ es) e = replay-append (or_else (entry_state x) seen) es e

-- The state that was kept last is the one that is found, whatever was kept before it.
pub latest_preset_state-kept :
    (es : List SessionEntryLike) (state : PresetState)
    → latest_preset_state (es ++ kept_entry state ∷ []) ≡ some state
latest_preset_state-kept es state =
    latest_preset_state-replay (es ++ kept_entry state ∷ [])
    ∙ replay-append none es (kept_entry state)
    ∙ ap (λ o. or_else o (replay none es)) (entry_state-kept_entry state)

-- A declared preset is no alias.
alias_apart :
    (presets : List (String × ParsedPreset)) (aliases : List (String × String)) (name : String)
    (preset : ParsedPreset)
    → All (IsAlias presets) aliases
    → value_at name presets ≡ some preset
    → value_at name aliases ≡ none
unfolding value_at
alias_apart presets [] name preset h e = refl
alias_apart presets ((alias, target) ∷ rest) name preset ((a, b, c, d), h) e =
    elim (Bool-cases (alias == name)) [
      | inl same ↦
          let k : none ≡ some preset =
            sym c ∙ ap (λ n. value_at n presets) ((eq_iff alias name).0 same) ∙ e in
          absurd (cc)
      | inr other ↦ rw other (alias_apart presets rest name preset h e)
    ]

-- So it stands for itself.
pub canonical-declared :
    (document : ParsedPresetDocument) (name : String) (preset : ParsedPreset)
    → IsPresetDocument document
    → value_at name document.presets ≡ some preset
    → canonical document.aliases name ≡ name
unfolding canonical
canonical-declared document name preset fine e =
    rw (canonical, alias_apart document.presets document.aliases name preset fine.aliases e) refl

module _ {Model Host : Type 0} (document : ParsedPresetDocument)
    (runtime : OmpModelPresetRuntime Model Host) where
  -- After the state of a declared preset is restored: it is active with its roles, or what was
  -- before is as it was.
  abbrev pub IsResumed : String → ParsedPreset → Session Host → Attempt Bool × Session Host → Type 0
  IsResumed name preset s (done answer, after) =
      (answer ≡ true)
      × (after.active_preset ≡ some name)
      × (after.active_roles ≡ some preset.selectors)
  IsResumed name preset s (thrown message, after) =
      (after.active_preset ≡ s.active_preset) × (after.active_roles ≡ s.active_roles)

  finish-IsResumed :
      (name : String) (preset : ParsedPreset) (v : Validated Model) (s : Session Host)
      (m : Attempt (Unit {0}) × Host)
      → v.name ≡ name
      → v.preset ≡ preset
      → IsResumed name preset s (
          finish document runtime true
            (λ h. record s {
              active_preset = some v.name;
              active_roles = some v.preset.selectors;
              host = h;
            })
            s
            m)
  finish-IsResumed name preset v s (done _, h) e f = (refl, ap some e, ap (λ p. some p.selectors) f)
  finish-IsResumed name preset v s (thrown message, h) e f = (refl, refl)

  restore_valid-IsResumed :
      (name : String) (preset : ParsedPreset) (m : Attempt (Validated Model) × Host)
      (s : Session Host)
      → IsPresetDocument document
      → value_at name document.presets ≡ some preset
      → Settles (λ v h. IsDeclared document runtime name v) (Fine document runtime) m
      → IsResumed name preset s (restore_valid document runtime name m s)
  unfolding restore_valid
  restore_valid-IsResumed name preset (thrown message, h) s fine e found = (refl, refl)
  restore_valid-IsResumed name preset (done v, h) s fine e (same, there, models) =
      let own = same ∙ canonical-declared document name preset fine e in
      finish-IsResumed name preset v s (take_over document runtime name v h) own
        (some_inj (sym there ∙ ap (λ n. value_at n document.presets) own ∙ e))

  -- A session whose entries end with the kept state of a declared preset of a document that was
  -- read: if restoring it returns, it answers true and just that preset is active with its roles;
  -- if it throws, the status is as before.
  pub restore-IsResumed :
      (entries : List SessionEntryLike) (name : String) (preset : ParsedPreset) (s : Session Host)
      → IsPresetDocument document
      → value_at name document.presets ≡ some preset
      → IsResumed name preset s
          (restore document runtime (entries ++ kept_entry (record { preset = some name }) ∷ []) s)
  unfolding restore restore_state restore_kept
  restore-IsResumed entries name preset s fine e =
      rw (latest_preset_state-kept entries (record { preset = some name })) (
        restore_valid-IsResumed name preset (validated document runtime name s.host) s fine e
          (validated-IsDeclared document runtime name s.host))
