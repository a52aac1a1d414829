-- ===== src/Client/Presets/Controller.antt =====
-- createPresetController of clients/devbox/src/omp-model-presets/core.ts. The runtime is a
-- parameter: its calls change a host and may throw, except the two that read the current model and
-- thinking level, which only look. The queue runs one operation after another, so that an
-- operation sees what the one before it left, also when that one threw.
pub mod Operations
pub mod Settled
pub mod Lawful
pub mod Checks
pub mod Rollback
pub mod Switching
pub mod Atomicity
pub mod Upkeep
pub mod Resuming
use remote_devbox.Base.{
  String, Bool, true, false, Option, none, some, List, [], ◌∷◌, ◌++◌, not, is_empty, concat, join,
  if◌then◌else◌, map, or_default, ◌==◌,
}
use remote_devbox.Base.Attempts.{Attempt, done, thrown}
use remote_devbox.Base.Effects.{and_then, return, throw, ◌>>=◌}
use remote_devbox.Client.Presets.{
  OmpModelRole, default, smol, slow, vision, plan, designer, commit, tiny, task, advisor, role_id,
  role_of, Roles, ParsedRoleSelection, ParsedPreset, ParsedPresetDocument, PresetState,
  PresetStatus, SessionEntryLike, value_at, is_in,
}
use remote_devbox.Client.Presets.Formatting.{canonical}
use remote_devbox.Client.Presets.State.{latest_preset_state}

pub record ResolvedOmpModel (Model : Type 0) : Type 0 where
  pub model : Model
  pub supported_thinking : Option (List String)

pub record OmpModelPresetRuntime (Model Host : Type 0) : Type 0 where
  pub resolve_model : String → Host → Attempt (Option (ResolvedOmpModel Model)) × Host
  pub current_model : Host → Attempt Model
  pub current_thinking : Host → Attempt String
  pub replace_roles : Roles String → Host → Attempt (Unit {0}) × Host
  pub clear_roles : Host → Attempt (Unit {0}) × Host
  pub set_model : Model → Host → Attempt Bool × Host
  pub set_thinking : String → Host → Attempt (Unit {0}) × Host
  pub append_state : PresetState → Host → Attempt (Unit {0}) × Host

-- The variables of the controller, and the host that the runtime acts on.
pub record Session (Host : Type 0) : Type 0 where
  pub active_preset : Option String
  pub active_roles : Option (Roles String)
  pub host : Host

pub record Validated (Model : Type 0) : Type 0 where
  pub name : String
  pub preset : ParsedPreset
  pub models : Roles Model

-- The level is stated, the model tells which it supports, and this is none of them.
unfoldable pub is_unsupported : Option String → Option (List String) → Bool
unfolding is_in
is_unsupported (some level) (some levels) = not (is_in level levels)
is_unsupported _ _ = false

-- What the rollback notes of a call that threw.
abbrev pub noted : {A : Type 0} → String → Attempt A → List String
noted label (done _) = []
noted label (thrown message) = concat (label ∷ ": " ∷ message ∷ []) ∷ []

abbrev pub noted_model : Attempt Bool → List String
noted_model (done true) = []
noted_model (done false) = "model: previous model was rejected" ∷ []
noted_model (thrown message) = concat ("model: " ∷ message ∷ []) ∷ []

-- The message of the error that applyUnlocked throws.
unfoldable pub failure_message : String → List String → String
failure_message message errors =
    if is_empty errors
    then message
    else concat (message ∷ "; rollback failed (" ∷ join ", " errors ∷ ")" ∷ [])

module _ {Host : Type 0} where
  abbrev pub at_host : Session Host → Host → Session Host
  at_host s h = record s { host = h }

  abbrev pub switched : {Model : Type 0} → Validated Model → Session Host → Host → Session Host
  switched v s h = record s {
    active_preset = some v.name;
    active_roles = some v.preset.selectors;
    host = h;
  }

module _ {Model Host : Type 0} (document : ParsedPresetDocument)
    (runtime : OmpModelPresetRuntime Model Host) where
  unfoldable pub checked_model :
      OmpModelRole
      → ParsedRoleSelection
      → Option (ResolvedOmpModel Model)
      → Host
      → Attempt Model × Host
  unfolding is_unsupported
  checked_model role selection none = throw (
      "model '"
      ∷ selection.model_selector
      ∷ "' for role '"
      ∷ role_id role
      ∷ "' is unavailable or unauthenticated"
      ∷ [])
  checked_model role selection (some resolved) =
      if is_unsupported selection.thinking resolved.supported_thinking
      then throw (
          "thinking level '"
          ∷ or_default selection.thinking ""
          ∷ "' is unsupported by '"
          ∷ selection.model_selector
          ∷ "' for role '"
          ∷ role_id role
          ∷ "'"
          ∷ [])
      else return resolved.model

  -- The body of the loop over the roles.
  unfoldable pub model_for : ParsedPreset → OmpModelRole → Host → Attempt Model × Host
  unfolding checked_model
  model_for preset role = do
    resolved ← runtime.resolve_model (role_of role preset.roles).model_selector
    checked_model role (role_of role preset.roles) resolved

  unfoldable pub models_for : ParsedPreset → Host → Attempt (Roles Model) × Host
  unfolding model_for
  models_for preset = do
    m0 ← model_for preset default
    m1 ← model_for preset smol
    m2 ← model_for preset slow
    m3 ← model_for preset vision
    m4 ← model_for preset plan
    m5 ← model_for preset designer
    m6 ← model_for preset commit
    m7 ← model_for preset tiny
    m8 ← model_for preset task
    m9 ← model_for preset advisor
    return (record {
      default = m0;
      smol = m1;
      slow = m2;
      vision = m3;
      plan = m4;
      designer = m5;
      commit = m6;
      tiny = m7;
      task = m8;
      advisor = m9;
    })

  unfoldable pub validated_preset :
      String → Option ParsedPreset → Host → Attempt (Validated Model) × Host
  unfolding canonical models_for
  validated_preset requested none = throw ("unknown OMP model preset '" ∷ requested ∷ "'" ∷ [])
  validated_preset requested (some preset) = do
    models ← models_for preset
    return
        (record { name = canonical document.aliases requested; preset = preset; models = models })

  unfoldable pub validated : String → Host → Attempt (Validated Model) × Host
  unfolding validated_preset value_at
  validated requested =
      validated_preset requested (value_at (canonical document.aliases requested) document.presets)

  unfoldable pub restore_roles : Option (Roles String) → Host → Attempt (Unit {0}) × Host
  restore_roles (some roles) = runtime.replace_roles roles
  restore_roles none = runtime.clear_roles

  unfoldable pub level_set : Option String → Host → Attempt (Unit {0}) × Host
  level_set none = throw ("default role must declare a thinking level" ∷ [])
  level_set (some level) = runtime.set_thinking level

  abbrev pub accepted_model : Bool → String → Host → Attempt (Unit {0}) × Host
  accepted_model true selector = return (tt {0})
  accepted_model false selector = throw ("could not select model '" ∷ selector ∷ "'" ∷ [])

  -- The calls in the `try` of applyUnlocked.
  unfoldable pub switch_to : Validated Model → Host → Attempt (Unit {0}) × Host
  unfolding level_set
  switch_to v = do
    _ ← runtime.replace_roles v.preset.selectors
    accepted ← runtime.set_model v.models.default
    _ ← accepted_model accepted v.preset.roles.default.model_selector
    _ ← level_set v.preset.roles.default.thinking
    runtime.append_state (record { preset = some v.name })

  -- The three calls of the rollback, each made whatever came of the one before.
  unfoldable pub rollback : Option (Roles String) → Model → String → Host → List String × Host
  unfolding restore_roles
  rollback roles model level h =
      let first = restore_roles roles h in
      let second = runtime.set_model model first.1 in
      let third = runtime.set_thinking level second.1 in
      (noted "roles" first.0 ++ noted_model second.0 ++ noted "thinking" third.0, third.1)

  unfoldable pub settle :
      Validated Model
      → Model
      → String
      → Session Host
      → Attempt (Unit {0}) × Host
      → Attempt (Unit {0}) × Session Host
  unfolding rollback failure_message
  settle v model level s (done _, h) = (done tt, switched v s h)
  settle v model level s (thrown message, h) =
      let undone = rollback s.active_roles model level h in
      (thrown (failure_message message undone.0), at_host s undone.1)

  -- From the reads of the current model and thinking level on.
  unfoldable pub change_to :
      Validated Model
      → Attempt Model
      → Attempt String
      → Session Host
      → Host
      → Attempt (Unit {0}) × Session Host
  unfolding settle switch_to
  change_to v (done model) (done level) s h = settle v model level s (switch_to v h)
  change_to v (done model) (thrown message) s h = (thrown message, at_host s h)
  change_to v (thrown message) level s h = (thrown message, at_host s h)

  unfoldable pub apply_valid :
      Attempt (Validated Model) × Host → Session Host → Attempt (Unit {0}) × Session Host
  unfolding change_to
  apply_valid (thrown message, h) s = (thrown message, at_host s h)
  apply_valid (done v, h) s = change_to v (runtime.current_model h) (runtime.current_thinking h) s h

  unfoldable pub apply_unlocked : String → Session Host → Attempt (Unit {0}) × Session Host
  unfolding apply_valid validated
  apply_unlocked requested s = apply_valid (validated requested s.host) s
