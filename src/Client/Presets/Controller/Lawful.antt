-- ===== src/Client/Presets/Controller/Lawful.antt =====
-- What the controller relies on of its runtime, and what its checks of a preset leave as it was.
use remote_devbox.Base.{
  String, Bool, true, false, Option, none, some, ◌≡◌, refl, ◌∙◌, Bool-cases, inl, inr,
}
use remote_devbox.Base.Attempts.{Attempt, done, thrown}
use remote_devbox.Base.Effects.{Settles, and_then}
use remote_devbox.Client.Presets.{
  OmpModelRole, default, smol, slow, vision, plan, designer, commit, tiny, task, advisor, role_of,
  Roles, ParsedRoleSelection, ParsedPreset, ParsedPresetDocument, PresetState, value_at,
}
use remote_devbox.Client.Presets.Formatting.{canonical}
use remote_devbox.Client.Presets.Controller.{
  ResolvedOmpModel, OmpModelPresetRuntime, checked_model, is_unsupported, model_for, models_for,
  validated_preset, validated,
}

module _ {Model Host : Type 0} (runtime : OmpModelPresetRuntime Model Host)
    (view_roles : Host → Option (Roles String)) where
  -- Two hosts with the same overridden roles, current model and thinking level.
  abbrev pub IsSame : Host → Host → Type 0
  IsSame h after =
      (view_roles after ≡ view_roles h)
      × (runtime.current_model after ≡ runtime.current_model h)
      × (runtime.current_thinking after ≡ runtime.current_thinking h)

  -- A call that leaves the host the same, whether it returns or throws.
  abbrev pub Keeps : {A : Type 0} → Host → Attempt A × Host → Type 0
  Keeps h = Settles (λ a after. IsSame h after) (λ message after. IsSame h after)

  abbrev pub IsAccepted : Bool → Model → Host → Type 0
  IsAccepted true model h = runtime.current_model h ≡ done model
  IsAccepted false model h = Unit

  abbrev pub Whatever : String → Host → Type 0
  Whatever message h = Unit

  -- A call that returns has done what its name says and left the rest alone, except that a model
  -- may come with its own thinking level. Nothing is asked of a call that throws, but of a lookup.
  pub record IsLawful : Type 0 where
    pub resolve_model : (selector : String) (h : Host) → Keeps h (runtime.resolve_model selector h)
    pub replace_roles :
        (roles : Roles String) (h : Host)
        → Settles
            (λ a after. view_roles after ≡ some roles)
            Whatever
            (runtime.replace_roles roles h)
    pub clear_roles :
        (h : Host) → Settles (λ a after. view_roles after ≡ none) Whatever (runtime.clear_roles h)
    pub set_model :
        (model : Model) (h : Host)
        → Settles
            (λ ok after. (view_roles after ≡ view_roles h) × IsAccepted ok model after)
            Whatever
            (runtime.set_model model h)
    pub set_thinking :
        (level : String) (h : Host)
        → Settles
            (λ a after.
              (view_roles after ≡ view_roles h)
              × (runtime.current_model after ≡ runtime.current_model h)
              × (runtime.current_thinking after ≡ done level))
            Whatever
            (runtime.set_thinking level h)
    pub append_state :
        (state : PresetState) (h : Host)
        → Settles (λ a after. IsSame h after) Whatever (runtime.append_state state h)

  IsSame-trans : (h k l : Host) → IsSame h k → IsSame k l → IsSame h l
  IsSame-trans h k l (a, b, c) (d, e, f) = (d ∙ a, e ∙ b, f ∙ c)

  pub IsSame-refl : (h : Host) → IsSame h h
  IsSame-refl h = (refl, refl, refl)

  Keeps-later :
      {A : Type 0} (h k : Host) (m : Attempt A × Host) → IsSame h k → Keeps k m → Keeps h m
  Keeps-later h k (done a, l) s t = IsSame-trans h k l s t
  Keeps-later h k (thrown message, l) s t = IsSame-trans h k l s t

  and_then-Keeps :
      {A B : Type 0} (h : Host) (m : Attempt A × Host) (next : A → Host → Attempt B × Host)
      → Keeps h m
      → ((a : A) (k : Host) → Keeps k (next a k))
      → Keeps h (and_then m next)
  and_then-Keeps h (done a, k) next s t = Keeps-later h k (next a k) s (t a k)
  and_then-Keeps h (thrown message, k) next s t = s

  module _ (document : ParsedPresetDocument) (lawful : IsLawful) where
    checked_model-Keeps :
        (role : OmpModelRole) (selection : ParsedRoleSelection)
        (o : Option (ResolvedOmpModel Model)) (h : Host)
        → Keeps h (checked_model document runtime role selection o h)
    unfolding checked_model
    checked_model-Keeps role selection none h = IsSame-refl h
    checked_model-Keeps role selection (some resolved) h =
        elim (Bool-cases (is_unsupported selection.thinking resolved.supported_thinking)) [
          | inl e ↦ rw e (IsSame-refl h)
          | inr e ↦ rw e (IsSame-refl h)
        ]

    model_for-Keeps :
        (preset : ParsedPreset) (role : OmpModelRole) (h : Host)
        → Keeps h (model_for document runtime preset role h)
    unfolding model_for
    model_for-Keeps preset role h =
        let selection = role_of role preset.roles in
        and_then-Keeps h (runtime.resolve_model selection.model_selector h) _
          (lawful.resolve_model selection.model_selector h)
          (λ o k. checked_model-Keeps role selection o k)

    next-Keeps :
        {B : Type 0} (preset : ParsedPreset) (role : OmpModelRole) (h : Host)
        (next : Model → Host → Attempt B × Host)
        → ((a : Model) (k : Host) → Keeps k (next a k))
        → Keeps h (and_then (model_for document runtime preset role h) next)
    next-Keeps preset role h next t =
        and_then-Keeps h (model_for document runtime preset role h) next
          (model_for-Keeps preset role h) t

    models_for-Keeps :
        (preset : ParsedPreset) (h : Host) → Keeps h (models_for document runtime preset h)
    unfolding models_for
    models_for-Keeps preset h = next-Keeps preset default h _ λ m0 h0.
        next-Keeps preset smol h0 _ λ m1 h1. next-Keeps preset slow h1 _ λ m2 h2.
          next-Keeps preset vision h2 _ λ m3 h3. next-Keeps preset plan h3 _ λ m4 h4.
            next-Keeps preset designer h4 _ λ m5 h5. next-Keeps preset commit h5 _ λ m6 h6.
              next-Keeps preset tiny h6 _ λ m7 h7.
                next-Keeps preset task h7 _
                  λ m8 h8. next-Keeps preset advisor h8 _ λ m9 h9. IsSame-refl h9

    -- The checks of a preset change nothing that is seen, whether they find it usable or throw.
    pub validated-Keeps :
        (requested : String) (h : Host) → Keeps h (validated document runtime requested h)
    unfolding validated
    validated-Keeps requested h =
        by_preset (value_at (canonical document.aliases requested) document.presets)
      where
        by_preset :
            (o : Option ParsedPreset) → Keeps h (validated_preset document runtime requested o h)
        by_preset none = IsSame-refl h
        by_preset (some preset) =
            and_then-Keeps h (models_for document runtime preset h) _ (models_for-Keeps preset h)
              (λ models k. IsSame-refl k)
