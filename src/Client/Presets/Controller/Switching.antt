-- ===== src/Client/Presets/Controller/Switching.antt =====
-- The calls of a switch that returns, for a lawful runtime.
use remote_devbox.Base.{String, Bool, true, false, Option, none, some, ◌≡◌, refl, ◌∙◌}
use remote_devbox.Base.Attempts.{Attempt, done, thrown}
use remote_devbox.Base.Effects.{Settles, and_then-Settles}
use remote_devbox.Client.Presets.{Roles, ParsedPresetDocument, PresetState}
use remote_devbox.Client.Presets.Controller.{
  OmpModelPresetRuntime, Validated, accepted_model, level_set, switch_to,
}
use remote_devbox.Client.Presets.Controller.Lawful.{IsLawful, IsSame, IsAccepted, Whatever}

module _ {Model Host : Type 0} (document : ParsedPresetDocument)
    (runtime : OmpModelPresetRuntime Model Host) (view_roles : Host → Option (Roles String))
    (lawful : IsLawful runtime view_roles) where
  -- What a switch that returns has set.
  abbrev pub IsSwitched : Validated Model → Host → Type 0
  IsSwitched v h =
      (view_roles h ≡ some v.preset.selectors)
      × (runtime.current_model h ≡ done v.models.default)
      × ((level : String) × (v.preset.roles.default.thinking ≡ some level)
          × (runtime.current_thinking h ≡ done level))

  level_set-IsSwitched :
      (v : Validated Model) (o : Option String) (h : Host)
      → v.preset.roles.default.thinking ≡ o
      → view_roles h ≡ some v.preset.selectors
      → runtime.current_model h ≡ done v.models.default
      → Settles (λ a after. IsSwitched v after) (λ message h. Unit) (level_set document runtime o h)
  unfolding level_set
  level_set-IsSwitched v none h e r m = tt
  level_set-IsSwitched v (some level) h e r m =
      by_call (runtime.set_thinking level h) (lawful.set_thinking level h)
    where
      by_call :
          (c : Attempt (Unit {0}) × Host)
          → Settles
              (λ a after.
                (view_roles after ≡ view_roles h)
                × (runtime.current_model after ≡ runtime.current_model h)
                × (runtime.current_thinking after ≡ done level))
              (Whatever runtime view_roles)
              c
          → Settles (λ a after. IsSwitched v after) (λ message h. Unit) c
      by_call (done _, k) (kept, same, set) = (kept ∙ r, same ∙ m, (level, e, set))
      by_call (thrown message, k) s = tt

  append_state-IsSwitched :
      (v : Validated Model) (state : PresetState) (h : Host)
      → IsSwitched v h
      → Settles (λ a after. IsSwitched v after) (λ message h. Unit) (runtime.append_state state h)
  append_state-IsSwitched v state h (r, m, (level, e, l)) =
      by_call (runtime.append_state state h) (lawful.append_state state h)
    where
      by_call :
          (c : Attempt (Unit {0}) × Host)
          → Settles (λ a after. IsSame runtime view_roles h after) (Whatever runtime view_roles) c
          → Settles (λ a after. IsSwitched v after) (λ message h. Unit) c
      by_call (done _, k) (a, b, c) = (a ∙ r, b ∙ m, (level, e, c ∙ l))
      by_call (thrown message, k) s = tt

  accepted-IsSwitched :
      (v : Validated Model) (ok : Bool) (h : Host)
      → view_roles h ≡ some v.preset.selectors
      → IsAccepted runtime view_roles ok v.models.default h
      → Settles
          (λ a after.
            (view_roles after ≡ some v.preset.selectors)
            × (runtime.current_model after ≡ done v.models.default))
          (λ message h. Unit)
          (accepted_model document runtime ok v.preset.roles.default.model_selector h)
  accepted-IsSwitched v true h r m = (r, m)
  accepted-IsSwitched v false h r m = tt

  pub switch_to-IsSwitched :
      (v : Validated Model) (h : Host)
      → Settles (λ a after. IsSwitched v after) (λ message h. Unit) (switch_to document runtime v h)
  unfolding switch_to
  switch_to-IsSwitched v h =
      let Q : Unit {0} → Host → Type 0 = λ a after. IsSwitched v after in
      let E : String → Host → Type 0 = λ message h. Unit in
      and_then-Settles Q E _ (runtime.replace_roles v.preset.selectors h) _
        (lawful.replace_roles v.preset.selectors h)
        λ _ h1 r.
          and_then-Settles Q E _ (runtime.set_model v.models.default h1) _
            (lawful.set_model v.models.default h1)
            λ ok h2 k.
              and_then-Settles Q E _
                (accepted_model document runtime ok v.preset.roles.default.model_selector h2) _
                (accepted-IsSwitched v ok h2 (k.0 ∙ r) k.1)
                λ _ h3 w.
                  and_then-Settles Q E _
                    (level_set document runtime v.preset.roles.default.thinking h3) _
                    (level_set-IsSwitched v v.preset.roles.default.thinking h3 refl w.0 w.1)
                    λ _ h4 done_all.
                      append_state-IsSwitched v (record { preset = some v.name }) h4 done_all
