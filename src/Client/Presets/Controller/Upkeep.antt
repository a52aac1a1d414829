-- ===== src/Client/Presets/Controller/Upkeep.antt =====
-- The roles that the controller holds are those in force, after every operation that returns.
use remote_devbox.Base.{String, Bool, true, false, Option, none, some, ◌≡◌, refl, sym, ◌∙◌, ◌==◌}
use remote_devbox.Base.Attempts.{Attempt, done, thrown}
use remote_devbox.Base.Effects.{Settles, and_then-Settles, and_then}
use remote_devbox.Client.Presets.{Roles, ParsedPresetDocument, PresetState}
use remote_devbox.Client.Presets.State.{latest_preset_state}
use remote_devbox.Client.Presets.Controller.{
  OmpModelPresetRuntime, Session, Validated, validated, apply_unlocked,
}
use remote_devbox.Client.Presets.Controller.Lawful.{IsLawful, IsSame, Whatever}
use remote_devbox.Client.Presets.Controller.Atomicity.{IsApplied, apply_unlocked-IsApplied}
use remote_devbox.Client.Presets.Controller.Operations.{
  Operation, apply, clear, begin, resume, finish, answering, reset, initialize,
  initialize_new_session, rename_state, take_over, restore_valid, without_state, restore_kept,
  restore_state, restore, perform,
}

module _ {Model Host : Type 0} (document : ParsedPresetDocument)
    (runtime : OmpModelPresetRuntime Model Host) (view_roles : Host → Option (Roles String))
    (lawful : IsLawful runtime view_roles) where
  -- The roles that override the settings are the ones that the controller holds.
  abbrev pub IsInStep : Session Host → Type 0
  IsInStep s = view_roles s.host ≡ s.active_roles

  abbrev pub Any : String → Session Host → Type 0
  Any message s = Unit

  abbrev pub EndsInStep : {A : Type 0} → Attempt A × Session Host → Type 0
  EndsInStep = Settles (λ a s. IsInStep s) Any

  append_state-view :
      (o : Option (Roles String)) (state : PresetState) (h : Host)
      → view_roles h ≡ o
      → Settles
          (λ a k. view_roles k ≡ o)
          (Whatever runtime view_roles)
          (runtime.append_state state h)
  append_state-view o state h e =
      by_call (runtime.append_state state h) (lawful.append_state state h)
    where
      by_call :
          (c : Attempt (Unit {0}) × Host)
          → Settles (λ a after. IsSame runtime view_roles h after) (Whatever runtime view_roles) c
          → Settles (λ a k. view_roles k ≡ o) (Whatever runtime view_roles) c
      by_call (done _, k) (a, b, c) = a ∙ e
      by_call (thrown message, k) s = tt

  rename_state-view :
      (o : Option (Roles String)) (same : Bool) (name : String) (h : Host)
      → view_roles h ≡ o
      → Settles
          (λ a k. view_roles k ≡ o)
          (Whatever runtime view_roles)
          (rename_state document runtime same name h)
  unfolding rename_state
  rename_state-view o true name h e = e
  rename_state-view o false name h e = append_state-view o (record { preset = some name }) h e

  take_over-view :
      (kept : String) (v : Validated Model) (h : Host)
      → Settles
          (λ a k. view_roles k ≡ some v.preset.selectors)
          (Whatever runtime view_roles)
          (take_over document runtime kept v h)
  unfolding take_over
  take_over-view kept v h =
      and_then-Settles (λ a k. view_roles k ≡ some v.preset.selectors) (Whatever runtime view_roles)
        _ (runtime.replace_roles v.preset.selectors h) _ (lawful.replace_roles v.preset.selectors h)
        (λ _ k e. rename_state-view (some v.preset.selectors) (v.name == kept) v.name k e)

  finish-EndsInStep :
      {A : Type 0} (answer : A) (roles : Option (Roles String)) (preset : Option String)
      (s : Session Host) (m : Attempt (Unit {0}) × Host)
      → Settles (λ a k. view_roles k ≡ roles) (Whatever runtime view_roles) m
      → EndsInStep (
          finish document runtime answer
            (λ h. record s { active_preset = preset; active_roles = roles; host = h })
            s
            m)
  finish-EndsInStep answer roles preset s (done _, h) e = e
  finish-EndsInStep answer roles preset s (thrown message, h) e = tt

  answering-EndsInStep :
      (answer : Bool) (m : Attempt (Unit {0}) × Session Host)
      → EndsInStep m
      → EndsInStep (answering document runtime answer m)
  answering-EndsInStep answer (done _, s) e = e
  answering-EndsInStep answer (thrown message, s) e = tt

  apply_unlocked-EndsInStep :
      (name : String) (s : Session Host)
      → IsInStep s
      → EndsInStep (apply_unlocked document runtime name s)
  apply_unlocked-EndsInStep name s e =
      by_result (apply_unlocked document runtime name s)
        (apply_unlocked-IsApplied document runtime view_roles lawful name s e)
    where
      by_result :
          (m : Attempt (Unit {0}) × Session Host)
          → IsApplied document runtime view_roles lawful name s m
          → EndsInStep m
      by_result (done _, after) (v, declared, active, roles, switched) = switched.0 ∙ sym roles
      by_result (thrown message, after) h = tt

  reset-EndsInStep : (s : Session Host) → EndsInStep (reset document runtime s)
  unfolding reset
  reset-EndsInStep s =
      finish-EndsInStep tt none none s
        (and_then (runtime.clear_roles s.host)
          (λ _. runtime.append_state (record { preset = none })))
        (and_then-Settles (λ a k. view_roles k ≡ none) (Whatever runtime view_roles) _
          (runtime.clear_roles s.host) _ (lawful.clear_roles s.host)
          (λ _ k e. append_state-view none (record { preset = none }) k e))

  restore_valid-EndsInStep :
      (kept : String) (m : Attempt (Validated Model) × Host) (s : Session Host)
      → EndsInStep (restore_valid document runtime kept m s)
  unfolding restore_valid
  restore_valid-EndsInStep kept (done v, h) s =
      finish-EndsInStep true (some v.preset.selectors) (some v.name) s
        (take_over document runtime kept v h) (take_over-view kept v h)
  restore_valid-EndsInStep kept (thrown message, h) s = tt

  without_state-EndsInStep :
      (roles : Option (Roles String)) (s : Session Host)
      → s.active_roles ≡ roles
      → IsInStep s
      → EndsInStep (without_state document runtime roles s)
  unfolding without_state
  without_state-EndsInStep none s e k = k ∙ e
  without_state-EndsInStep (some _) s e k =
      finish-EndsInStep false none none s (runtime.clear_roles s.host) (lawful.clear_roles s.host)

  restore_kept-EndsInStep :
      (kept : Option String) (s : Session Host) → EndsInStep (restore_kept document runtime kept s)
  unfolding restore_kept
  restore_kept-EndsInStep none s =
      finish-EndsInStep true none none s (runtime.clear_roles s.host) (lawful.clear_roles s.host)
  restore_kept-EndsInStep (some kept) s =
      restore_valid-EndsInStep kept (validated document runtime kept s.host) s

  restore_state-EndsInStep :
      (o : Option PresetState) (s : Session Host)
      → IsInStep s
      → EndsInStep (restore_state document runtime o s)
  unfolding restore_state
  restore_state-EndsInStep none s k = without_state-EndsInStep s.active_roles s refl k
  restore_state-EndsInStep (some state) s k = restore_kept-EndsInStep state.preset s

  initialize-EndsInStep :
      (o : Option PresetState) (s : Session Host)
      → IsInStep s
      → EndsInStep (initialize document runtime o s)
  unfolding initialize
  initialize-EndsInStep none s k =
      answering-EndsInStep true (apply_unlocked document runtime document.default_preset s)
        (apply_unlocked-EndsInStep document.default_preset s k)
  initialize-EndsInStep (some _) s k = k

  -- For a runtime whose calls do what they say when they return: if the controller holds the roles
  -- that are in force, then so it does after every one of its operations that returns.
  pub perform-EndsInStep :
      (op : Operation) (s : Session Host) → IsInStep s → EndsInStep (perform document runtime op s)
  unfolding perform initialize_new_session restore
  perform-EndsInStep (apply name) s k =
      answering-EndsInStep true (apply_unlocked document runtime name s)
        (apply_unlocked-EndsInStep name s k)
  perform-EndsInStep clear s k =
      answering-EndsInStep true (reset document runtime s) (reset-EndsInStep s)
  perform-EndsInStep (begin entries) s k = initialize-EndsInStep (latest_preset_state entries) s k
  perform-EndsInStep (resume entries) s k =
      restore_state-EndsInStep (latest_preset_state entries) s k
