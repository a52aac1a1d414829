-- ===== src/Client/Presets/Controller/Atomicity.antt =====
-- `apply` of the controller against a lawful runtime: a switch in full, or none.
use remote_devbox.Base.{String, Option, some, ◌≡◌, refl, ◌⊎◌, inl}
use remote_devbox.Base.Attempts.{Attempt, done, thrown}
use remote_devbox.Base.Effects.{Settles}
use remote_devbox.Client.Presets.{Roles, ParsedPresetDocument}
use remote_devbox.Client.Presets.Controller.{
  OmpModelPresetRuntime, Session, Validated, validated, settle, switch_to, change_to, apply_valid,
  apply_unlocked,
}
use remote_devbox.Client.Presets.Controller.Checks.{IsDeclared, validated-IsDeclared}
use remote_devbox.Client.Presets.Controller.Lawful.{IsLawful, IsSame, Keeps, validated-Keeps}
use remote_devbox.Client.Presets.Controller.Rollback.{IsReported, undone-IsReported}
use remote_devbox.Client.Presets.Controller.Switching.{IsSwitched, switch_to-IsSwitched}

module _ {Model Host : Type 0} (document : ParsedPresetDocument)
    (runtime : OmpModelPresetRuntime Model Host) (view_roles : Host → Option (Roles String))
    (lawful : IsLawful runtime view_roles) where
  -- The controller and the host before it: after `apply` returns or throws.
  abbrev pub IsApplied : String → Session Host → Attempt (Unit {0}) × Session Host → Type 0
  IsApplied name s (done _, after) =
      (v : Validated Model) × IsDeclared document runtime name v
      × (after.active_preset ≡ some v.name)
      × (after.active_roles ≡ some v.preset.selectors)
      × IsSwitched document runtime view_roles lawful v after.host
  IsApplied name s (thrown message, after) =
      (after.active_preset ≡ s.active_preset)
      × (after.active_roles ≡ s.active_roles)
      × (IsSame runtime view_roles s.host after.host ⊎ IsReported message)

  settle-IsApplied :
      (name : String) (v : Validated Model) (model : Model) (level : String) (s : Session Host)
      (h : Host) (m : Attempt (Unit {0}) × Host)
      → IsDeclared document runtime name v
      → IsSame runtime view_roles s.host h
      → view_roles s.host ≡ s.active_roles
      → runtime.current_model h ≡ done model
      → runtime.current_thinking h ≡ done level
      → Settles
          (λ a after. IsSwitched document runtime view_roles lawful v after)
          (λ message h. Unit)
          m
      → IsApplied name s (settle document runtime v model level s m)
  unfolding settle
  settle-IsApplied name v model level s h (done _, k) declared same held em el sw =
      (v, declared, refl, refl, sw)
  settle-IsApplied name v model level s h (thrown message, k) declared same held em el sw = (
    refl,
    refl,
    undone-IsReported document runtime view_roles lawful s h model level message same held em el k,
  )

  change_to-IsApplied :
      (name : String) (v : Validated Model) (m : Attempt Model) (l : Attempt String)
      (s : Session Host) (h : Host)
      → IsDeclared document runtime name v
      → IsSame runtime view_roles s.host h
      → view_roles s.host ≡ s.active_roles
      → runtime.current_model h ≡ m
      → runtime.current_thinking h ≡ l
      → IsApplied name s (change_to document runtime v m l s h)
  unfolding change_to
  change_to-IsApplied name v (done model) (done level) s h declared same held em el =
      settle-IsApplied name v model level s h (switch_to document runtime v h) declared same held em
        el (switch_to-IsSwitched document runtime view_roles lawful v h)
  change_to-IsApplied name v (done model) (thrown message) s h declared same held em el =
      (refl, refl, inl same)
  change_to-IsApplied name v (thrown message) l s h declared same held em el =
      (refl, refl, inl same)

  apply_valid-IsApplied :
      (name : String) (m : Attempt (Validated Model) × Host) (s : Session Host)
      → Settles (λ v h. IsDeclared document runtime name v) (λ message h. Unit) m
      → Keeps runtime view_roles s.host m
      → view_roles s.host ≡ s.active_roles
      → IsApplied name s (apply_valid document runtime m s)
  unfolding apply_valid
  apply_valid-IsApplied name (done v, h) s declared same held =
      change_to-IsApplied name v (runtime.current_model h) (runtime.current_thinking h) s h declared
        same held refl refl
  apply_valid-IsApplied name (thrown message, h) s declared same held = (refl, refl, inl same)

  -- For a runtime whose calls do what they say when they return, and a controller that holds the
  -- roles that are in force: if `apply` returns, the status names the declared preset that the name
  -- stands for, for each of whose roles a model was found that supports the role's thinking level, and
  -- its roles, the model of its default role and that role's thinking level are in force. If it throws, the status is as before, and so are the roles, the model and the
  -- thinking level in force, or the error's message says that the rollback failed.
  pub apply_unlocked-IsApplied :
      (name : String) (s : Session Host)
      → view_roles s.host ≡ s.active_roles
      → IsApplied name s (apply_unlocked document runtime name s)
  unfolding apply_unlocked
  apply_unlocked-IsApplied name s held =
      apply_valid-IsApplied name (validated document runtime name s.host) s
        (validated-IsDeclared document runtime name s.host)
        (validated-Keeps runtime view_roles document lawful name s.host) held
