-- ===== src/Client/Presets/Controller/Checks.antt =====
-- What the checks of a preset find: its declaration, and a model for each role.
use remote_devbox.Base.{String, false, Option, none, some, ◌≡◌, refl, inl, inr, Bool-cases, All}
use remote_devbox.Base.Attempts.{Attempt, done, thrown}
use remote_devbox.Base.Effects.{Settles, and_then-Settles, and_then}
use remote_devbox.Client.Presets.{
  OmpModelRole, default, smol, slow, vision, plan, designer, commit, tiny, task, advisor, role_of,
  model_role_ids, Roles, ParsedPreset, ParsedPresetDocument, value_at,
}
use remote_devbox.Client.Presets.Formatting.{canonical}
use remote_devbox.Client.Presets.Controller.{
  ResolvedOmpModel, checked_model, is_unsupported, model_for, OmpModelPresetRuntime, Validated,
  validated_preset, validated, models_for,
}

module _ {Model Host : Type 0} (document : ParsedPresetDocument)
    (runtime : OmpModelPresetRuntime Model Host) where
  -- A model that the runtime has for the selector of the role, and that supports its level.
  abbrev pub IsFound : ParsedPreset → OmpModelRole → Model → Type 0
  IsFound preset role model =
      (h : Host) × (resolved : ResolvedOmpModel Model) × ((runtime.resolve_model
          (role_of role preset.roles).model_selector h).0
        ≡ done (some resolved))
      × (is_unsupported (role_of role preset.roles).thinking resolved.supported_thinking ≡ false)
      × (resolved.model ≡ model)

  -- The preset that was validated is the declared one of its name, that of the request, and every
  -- role has a model.
  abbrev pub IsDeclared : String → Validated Model → Type 0
  IsDeclared requested v =
      (v.name ≡ canonical document.aliases requested)
      × (value_at v.name document.presets ≡ some v.preset)
      × All (λ r. IsFound v.preset r (role_of r v.models)) model_role_ids

  abbrev pub Fine : String → Host → Type 0
  Fine message h = Unit

  checked_model-IsFound :
      (preset : ParsedPreset) (role : OmpModelRole)
      (m : Attempt (Option (ResolvedOmpModel Model)) × Host) (h : Host)
      → (runtime.resolve_model (role_of role preset.roles).model_selector h).0 ≡ m.0
      → Settles
          (λ a k. IsFound preset role a)
          Fine
          (and_then m (checked_model document runtime role (role_of role preset.roles)))
  unfolding checked_model
  checked_model-IsFound preset role (thrown message, k) h e = tt
  checked_model-IsFound preset role (done none, k) h e = tt
  checked_model-IsFound preset role (done (some resolved), k) h e =
      let selection = role_of role preset.roles in
      elim (Bool-cases (is_unsupported selection.thinking resolved.supported_thinking)) [
        | inl bad ↦ rw bad tt
        | inr good ↦ rw good (h, resolved, e, good, refl)
      ]

  next-Settles :
      {B : Type 0} (Q : B → Host → Type 0) (preset : ParsedPreset) (role : OmpModelRole) (h : Host)
      (next : Model → Host → Attempt B × Host)
      → ((a : Model) (k : Host) → IsFound preset role a → Settles Q Fine (next a k))
      → Settles Q Fine (and_then (model_for document runtime preset role h) next)
  unfolding model_for
  next-Settles Q preset role h next t =
      and_then-Settles Q Fine (λ a k. IsFound preset role a)
        (model_for document runtime preset role h) next
        (checked_model-IsFound preset role
          (runtime.resolve_model (role_of role preset.roles).model_selector h) h refl)
        t

  models_for-IsFound :
      (preset : ParsedPreset) (h : Host)
      → Settles
          (λ ms k. All (λ r. IsFound preset r (role_of r ms)) model_role_ids)
          Fine
          (models_for document runtime preset h)
  unfolding models_for
  models_for-IsFound preset h =
      let Q : Roles Model → Host → Type 0 =
        λ ms k. All (λ r. IsFound preset r (role_of r ms)) model_role_ids in
      next-Settles Q preset default h _ λ m0 h0 f0. next-Settles Q preset smol h0 _ λ m1 h1 f1.
        next-Settles Q preset slow h1 _ λ m2 h2 f2. next-Settles Q preset vision h2 _ λ m3 h3 f3.
          next-Settles Q preset plan h3 _ λ m4 h4 f4.
            next-Settles Q preset designer h4 _ λ m5 h5 f5.
              next-Settles Q preset commit h5 _ λ m6 h6 f6.
                next-Settles Q preset tiny h6 _ λ m7 h7 f7.
                  next-Settles Q preset task h7 _ λ m8 h8 f8.
                    next-Settles Q preset advisor h8 _
                      λ m9 h9 f9. (f0, (f1, (f2, (f3, (f4, (f5, (f6, (f7, (f8, (f9, tt))))))))))

  validated_preset-IsDeclared :
      (requested : String) (o : Option ParsedPreset) (h : Host)
      → value_at (canonical document.aliases requested) document.presets ≡ o
      → Settles
          (λ v h. IsDeclared requested v)
          Fine
          (validated_preset document runtime requested o h)
  unfolding validated_preset
  validated_preset-IsDeclared requested none h e = tt
  validated_preset-IsDeclared requested (some preset) h e =
      and_then-Settles (λ v h. IsDeclared requested v) Fine _ (models_for document runtime preset h)
        _ (models_for-IsFound preset h) (λ ms k found. (refl, e, found))

  pub validated-IsDeclared :
      (requested : String) (h : Host)
      → Settles (λ v h. IsDeclared requested v) Fine (validated document runtime requested h)
  unfolding validated
  validated-IsDeclared requested h =
      validated_preset-IsDeclared requested
        (value_at (canonical document.aliases requested) document.presets) h refl
