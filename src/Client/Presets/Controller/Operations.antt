-- ===== src/Client/Presets/Controller/Operations.antt =====
-- The operations of the controller, and a queue of them.

use remote_devbox.Base.{String, Bool, true, false, Option, none, some, List, [], ◌∷◌, ◌==◌, map}
use remote_devbox.Base.Attempts.{Attempt, done, thrown}
use remote_devbox.Base.Effects.{return, ◌>>=◌}
use remote_devbox.Client.Presets.{
  ParsedPresetDocument, PresetState, Roles, PresetStatus, SessionEntryLike,
}
use remote_devbox.Client.Presets.State.{latest_preset_state}
use remote_devbox.Client.Presets.Controller.{
  OmpModelPresetRuntime, Session, Validated, validated, at_host, switched, apply_unlocked,
}

pub data Operation : Type 0 where
  apply : String → Operation
  clear : Operation
  begin resume : List SessionEntryLike → Operation

module _ {Model Host : Type 0} (document : ParsedPresetDocument)
    (runtime : OmpModelPresetRuntime Model Host) where
  unfoldable pub list_presets : List String
  list_presets = map (λ p. p.0) document.presets

  unfoldable pub status_of : Session Host → PresetStatus
  status_of s = record { active_preset = s.active_preset; default_preset = document.default_preset }

  abbrev pub cleared : Session Host → Host → Session Host
  cleared s h = record s { active_preset = none; active_roles = none; host = h }

  -- The calls of an operation, and its assignments after the last of them.
  abbrev pub finish {ℓ} :
      {A : Type ℓ}
      → A
      → (Host → Session Host)
      → Session Host
      → Attempt (Unit {0}) × Host
      → Attempt A × Session Host
  finish answer assigned s (done _, h) = (done answer, assigned h)
  finish answer assigned s (thrown message, h) = (thrown message, at_host s h)

  unfoldable pub reset : Session Host → Attempt (Unit {0}) × Session Host
  reset s =
      finish tt (cleared s) s
        ((do _ ← runtime.clear_roles; runtime.append_state (record { preset = none })) s.host)

  -- `await operation; return answer`.
  abbrev pub answering : Bool → Attempt (Unit {0}) × Session Host → Attempt Bool × Session Host
  answering answer (done _, s) = (done answer, s)
  answering answer (thrown message, s) = (thrown message, s)

  unfoldable pub initialize : Option PresetState → Session Host → Attempt Bool × Session Host
  unfolding apply_unlocked
  initialize (some _) s = (done false, s)
  initialize none s = answering true (apply_unlocked document runtime document.default_preset s)

  unfoldable pub initialize_new_session :
      List SessionEntryLike → Session Host → Attempt Bool × Session Host
  unfolding initialize
  initialize_new_session entries s = initialize (latest_preset_state entries) s

  -- A preset that was kept under an alias is kept under its own name from now on.
  unfoldable pub rename_state : Bool → String → Host → Attempt (Unit {0}) × Host
  rename_state true name = return (tt {0})
  rename_state false name = runtime.append_state (record { preset = some name })

  -- The calls that take over a preset that a session has kept under a name.
  unfoldable pub take_over : String → Validated Model → Host → Attempt (Unit {0}) × Host
  unfolding rename_state
  take_over kept v = do
    _ ← runtime.replace_roles v.preset.selectors
    rename_state (v.name == kept) v.name

  unfoldable pub restore_valid :
      String → Attempt (Validated Model) × Host → Session Host → Attempt Bool × Session Host
  unfolding take_over
  restore_valid kept (thrown message, h) s = (thrown message, at_host s h)
  restore_valid kept (done v, h) s = finish true (switched v s) s (take_over kept v h)

  unfoldable pub without_state : Option (Roles String) → Session Host → Attempt Bool × Session Host
  without_state none s = (done false, cleared s s.host)
  without_state (some _) s = finish false (cleared s) s (runtime.clear_roles s.host)

  unfoldable pub restore_kept : Option String → Session Host → Attempt Bool × Session Host
  unfolding restore_valid validated
  restore_kept none s = finish true (cleared s) s (runtime.clear_roles s.host)
  restore_kept (some kept) s = restore_valid kept (validated document runtime kept s.host) s

  unfoldable pub restore_state : Option PresetState → Session Host → Attempt Bool × Session Host
  unfolding without_state restore_kept
  restore_state none s = without_state s.active_roles s
  restore_state (some state) s = restore_kept state.preset s

  unfoldable pub restore : List SessionEntryLike → Session Host → Attempt Bool × Session Host
  unfolding restore_state
  restore entries s = restore_state (latest_preset_state entries) s

  -- One operation of the controller, `reset` and `apply` as answering true.
  unfoldable pub perform : Operation → Session Host → Attempt Bool × Session Host
  unfolding apply_unlocked reset initialize_new_session restore
  perform (apply name) s = answering true (apply_unlocked document runtime name s)
  perform clear s = answering true (reset s)
  perform (begin entries) s = initialize_new_session entries s
  perform (resume entries) s = restore entries s

  -- The operations of the queue: each starts when the one before it has settled.
  unfoldable pub perform_all : List Operation → Session Host → List (Attempt Bool) × Session Host
  unfolding perform
  perform_all [] s = ([], s)
  perform_all (op ∷ ops) s =
      let one = perform op s in let rest = perform_all ops one.1 in (one.0 ∷ rest.0, rest.1)
