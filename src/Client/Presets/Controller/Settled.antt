-- ===== src/Client/Presets/Controller/Settled.antt =====
-- What the variables of the controller hold, whatever the runtime does.
use remote_devbox.Base.{
  String, Bool, true, false, Option, none, some, List, [], ◌∷◌, ◌≡◌, refl, ◌⊎◌, inl, inr,
}
use remote_devbox.Base.Attempts.{Attempt, done, thrown}
use remote_devbox.Base.Effects.{Settles, and_then}
use remote_devbox.Client.Presets.{Roles, ParsedPreset, ParsedPresetDocument, PresetState, value_at}
use remote_devbox.Client.Presets.State.{latest_preset_state}
use remote_devbox.Client.Presets.Controller.{
  OmpModelPresetRuntime, Session, Validated, validated, settle, switch_to, change_to, apply_valid,
  apply_unlocked,
}
use remote_devbox.Client.Presets.Controller.Operations.{
  Operation, apply, clear, begin, resume, finish, answering, reset, initialize,
  initialize_new_session, restore_valid, without_state, restore_kept, restore_state, restore,
  perform, perform_all,
}
use remote_devbox.Client.Presets.Controller.Checks.{IsDeclared, Fine, validated-IsDeclared}

module _ {Model Host : Type 0} (document : ParsedPresetDocument)
    (runtime : OmpModelPresetRuntime Model Host) where
  -- No preset is active and no roles are held, or a declared preset is active and its roles held.
  abbrev pub IsSettled : Session Host → Type 0
  IsSettled s =
      ((s.active_preset ≡ none) × (s.active_roles ≡ none))
      ⊎ ((name : String) × (preset : ParsedPreset) × (s.active_preset ≡ some name)
          × (value_at name document.presets ≡ some preset)
          × (s.active_roles ≡ some preset.selectors))

  settle-IsSettled :
      (v : Validated Model) (model : Model) (level : String) (s : Session Host)
      (m : Attempt (Unit {0}) × Host)
      → value_at v.name document.presets ≡ some v.preset
      → IsSettled s
      → IsSettled (settle document runtime v model level s m).1
  unfolding settle
  settle-IsSettled v model level s (done _, h) e k = inr (v.name, v.preset, refl, e, refl)
  settle-IsSettled v model level s (thrown message, h) e k = k

  change_to-IsSettled :
      (v : Validated Model) (m : Attempt Model) (l : Attempt String) (s : Session Host) (h : Host)
      → value_at v.name document.presets ≡ some v.preset
      → IsSettled s
      → IsSettled (change_to document runtime v m l s h).1
  unfolding change_to
  change_to-IsSettled v (done model) (done level) s h e k =
      settle-IsSettled v model level s (switch_to document runtime v h) e k
  change_to-IsSettled v (done model) (thrown message) s h e k = k
  change_to-IsSettled v (thrown message) l s h e k = k

  apply_valid-IsSettled :
      (requested : String) (m : Attempt (Validated Model) × Host) (s : Session Host)
      → Settles (λ v h. IsDeclared document runtime requested v) (Fine document runtime) m
      → IsSettled s
      → IsSettled (apply_valid document runtime m s).1
  unfolding apply_valid
  apply_valid-IsSettled requested (done v, h) s (same, e, found) k =
      change_to-IsSettled v _ _ s h e k
  apply_valid-IsSettled requested (thrown message, h) s e k = k

  apply_unlocked-IsSettled :
      (name : String) (s : Session Host)
      → IsSettled s
      → IsSettled (apply_unlocked document runtime name s).1
  unfolding apply_unlocked
  apply_unlocked-IsSettled name s k =
      apply_valid-IsSettled name (validated document runtime name s.host) s
        (validated-IsDeclared document runtime name s.host) k

  finish-IsSettled :
      {A : Type 0} (answer : A) (assigned : Host → Session Host) (s : Session Host)
      (m : Attempt (Unit {0}) × Host)
      → ((h : Host) → IsSettled (assigned h))
      → IsSettled s
      → IsSettled (finish document runtime answer assigned s m).1
  finish-IsSettled answer assigned s (done _, h) fine k = fine h
  finish-IsSettled answer assigned s (thrown message, h) fine k = k

  answering-IsSettled :
      (answer : Bool) (m : Attempt (Unit {0}) × Session Host)
      → IsSettled m.1
      → IsSettled (answering document runtime answer m).1
  answering-IsSettled answer (done _, s) k = k
  answering-IsSettled answer (thrown message, s) k = k

  restore_valid-IsSettled :
      (kept : String) (m : Attempt (Validated Model) × Host) (s : Session Host)
      → Settles (λ v h. IsDeclared document runtime kept v) (Fine document runtime) m
      → IsSettled s
      → IsSettled (restore_valid document runtime kept m s).1
  unfolding restore_valid
  restore_valid-IsSettled kept (done v, h) s (same, e, found) k =
      finish-IsSettled true _ s _ (λ h. inr (v.name, v.preset, refl, e, refl)) k
  restore_valid-IsSettled kept (thrown message, h) s e k = k

  without_state-IsSettled :
      (roles : Option (Roles String)) (s : Session Host)
      → IsSettled s
      → IsSettled (without_state document runtime roles s).1
  unfolding without_state
  without_state-IsSettled none s k = inl (refl, refl)
  without_state-IsSettled (some _) s k = finish-IsSettled false _ s _ (λ h. inl (refl, refl)) k

  restore_kept-IsSettled :
      (kept : Option String) (s : Session Host)
      → IsSettled s
      → IsSettled (restore_kept document runtime kept s).1
  unfolding restore_kept
  restore_kept-IsSettled none s k = finish-IsSettled true _ s _ (λ h. inl (refl, refl)) k
  restore_kept-IsSettled (some kept) s k =
      restore_valid-IsSettled kept _ s (validated-IsDeclared document runtime kept s.host) k

  restore_state-IsSettled :
      (o : Option PresetState) (s : Session Host)
      → IsSettled s
      → IsSettled (restore_state document runtime o s).1
  unfolding restore_state
  restore_state-IsSettled none s k = without_state-IsSettled s.active_roles s k
  restore_state-IsSettled (some state) s k = restore_kept-IsSettled state.preset s k

  initialize-IsSettled :
      (o : Option PresetState) (s : Session Host)
      → IsSettled s
      → IsSettled (initialize document runtime o s).1
  unfolding initialize
  initialize-IsSettled none s k =
      answering-IsSettled true _ (apply_unlocked-IsSettled document.default_preset s k)
  initialize-IsSettled (some _) s k = k

  reset-IsSettled : (s : Session Host) → IsSettled s → IsSettled (reset document runtime s).1
  unfolding reset
  reset-IsSettled s k =
      finish-IsSettled tt _ s
        (and_then (runtime.clear_roles s.host)
          (λ _. runtime.append_state (record { preset = none })))
        (λ h. inl (refl, refl)) k

  perform-IsSettled :
      (op : Operation) (s : Session Host)
      → IsSettled s
      → IsSettled (perform document runtime op s).1
  unfolding perform initialize_new_session restore
  perform-IsSettled (apply name) s k =
      answering-IsSettled true (apply_unlocked document runtime name s)
        (apply_unlocked-IsSettled name s k)
  perform-IsSettled clear s k =
      answering-IsSettled true (reset document runtime s) (reset-IsSettled s k)
  perform-IsSettled (begin entries) s k = initialize-IsSettled (latest_preset_state entries) s k
  perform-IsSettled (resume entries) s k = restore_state-IsSettled (latest_preset_state entries) s k

  -- Whatever the runtime does, and whichever operations return or throw: after a queue of operations
  -- the status names no preset and no roles are held, or it names a declared preset and exactly that
  -- preset's selectors are held, if one of the two was so before.
  pub perform_all-IsSettled :
      (ops : List Operation) (s : Session Host)
      → IsSettled s
      → IsSettled (perform_all document runtime ops s).1
  unfolding perform_all
  perform_all-IsSettled [] s k = k
  perform_all-IsSettled (op ∷ ops) s k =
      perform_all-IsSettled ops (perform document runtime op s).1 (perform-IsSettled op s k)
