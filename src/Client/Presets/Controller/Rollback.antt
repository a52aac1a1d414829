-- ===== src/Client/Presets/Controller/Rollback.antt =====
-- The rollback of `apply`: it restores all three, or the message says that it failed.
use remote_devbox.Base.{
  String, Bool, true, false, Option, none, some, List, [], ◌∷◌, ◌++◌, ◌≡◌, refl, sym, ◌∙◌, ◌⊎◌, inl,
  inr, append-empty_iff, Bool-cases, is_empty, concat, join,
}
use remote_devbox.Base.Attempts.{Attempt, done, thrown}
use remote_devbox.Base.Effects.{Settles}
use remote_devbox.Client.Presets.{Roles, ParsedPresetDocument}
use remote_devbox.Client.Presets.Controller.{
  OmpModelPresetRuntime, Session, noted, noted_model, restore_roles, rollback, failure_message,
}
use remote_devbox.Client.Presets.Controller.Lawful.{IsLawful, IsSame, IsAccepted}

is_empty_lem : (xs : List String) → is_empty xs ≡ true → xs ≡ []
is_empty_lem [] h = refl
is_empty_lem (x ∷ xs) h = absurd (cc)

-- A call of the rollback of which nothing was noted returned, and so has what its law promises.
noted-done :
    {Host : Type 0} (label : String) (P : Host → Type 0) (m : Attempt (Unit {0}) × Host)
    → noted label m.0 ≡ []
    → Settles (λ a h. P h) (λ message h. Unit) m
    → P m.1
noted-done label P (done _, h) e s = s
noted-done label P (thrown message, h) e s = absurd (cc)

noted_model-done :
    {Host : Type 0} (P : Host → Type 0) (Q : Bool → Host → Type 0) (m : Attempt Bool × Host)
    → noted_model m.0 ≡ []
    → Settles (λ ok h. P h × Q ok h) (λ message h. Unit) m
    → P m.1 × Q true m.1
noted_model-done P Q (done true, h) e s = s
noted_model-done P Q (done false, h) e s = absurd (cc)
noted_model-done P Q (thrown message, h) e s = absurd (cc)

-- The message says that the rollback failed.
abbrev pub IsReported : String → Type 0
IsReported message =
    (cause : String) × (errors : List String) × (is_empty errors ≡ false)
    × (message ≡ concat (cause ∷ "; rollback failed (" ∷ join ", " errors ∷ ")" ∷ []))

module _ {Model Host : Type 0} (document : ParsedPresetDocument)
    (runtime : OmpModelPresetRuntime Model Host) (view_roles : Host → Option (Roles String))
    (lawful : IsLawful runtime view_roles) where
  restore_roles-restores :
      (roles : Option (Roles String)) (h : Host)
      → Settles
          (λ a after. view_roles after ≡ roles)
          (λ message h. Unit)
          (restore_roles document runtime roles h)
  unfolding restore_roles
  restore_roles-restores none h = lawful.clear_roles h
  restore_roles-restores (some roles) h = lawful.replace_roles roles h

  rollback-restores :
      (roles : Option (Roles String)) (model : Model) (level : String) (h : Host)
      → (rollback document runtime roles model level h).0 ≡ []
      → let after = (rollback document runtime roles model level h).1 in
        (view_roles after ≡ roles)
        × (runtime.current_model after ≡ done model)
        × (runtime.current_thinking after ≡ done level)
  unfolding rollback
  rollback-restores roles model level h e =
      let first = restore_roles document runtime roles h in
      let second = runtime.set_model model first.1 in
      let third = runtime.set_thinking level second.1 in
      let (e12, e3) =
        (append-empty_iff (noted "roles" first.0 ++ noted_model second.0)
            (noted "thinking" third.0)).0
          e in
      let (e1, e2) = (append-empty_iff (noted "roles" first.0) (noted_model second.0)).0 e12 in
      let roles_back =
        noted-done "roles" (λ k. view_roles k ≡ roles) first e1 (restore_roles-restores roles h) in
      let (kept, model_back) =
        noted_model-done (λ k. view_roles k ≡ view_roles first.1)
          (λ ok k. IsAccepted runtime view_roles ok model k) second e2
          (lawful.set_model model first.1) in
      let (kept3, same_model, level_back) =
        noted-done "thinking"
          (λ k.
            (view_roles k ≡ view_roles second.1)
            × (runtime.current_model k ≡ runtime.current_model second.1)
            × (runtime.current_thinking k ≡ done level))
          third e3 (lawful.set_thinking level second.1) in
      (kept3 ∙ kept ∙ roles_back, same_model ∙ model_back, level_back)

  pub undone-IsReported :
      (s : Session Host) (h : Host) (model : Model) (level message : String)
      → IsSame runtime view_roles s.host h
      → view_roles s.host ≡ s.active_roles
      → runtime.current_model h ≡ done model
      → runtime.current_thinking h ≡ done level
      → (failing : Host)
      → let undone = rollback document runtime s.active_roles model level failing in
        IsSame runtime view_roles s.host undone.1 ⊎ IsReported (failure_message message undone.0)
  unfolding failure_message
  undone-IsReported s h model level message (a, b, c) held m l failing =
      let undone = rollback document runtime s.active_roles model level failing in
      elim (Bool-cases (is_empty undone.0)) [
        | inl e ↦
            let (r, x, y) =
              rollback-restores s.active_roles model level failing (is_empty_lem undone.0 e) in
            inl (r ∙ sym held, x ∙ sym m ∙ b, y ∙ sym l ∙ c)
        | inr e ↦ inr (message, undone.0, e, rw e refl)
      ]
