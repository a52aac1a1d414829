-- ===== src/Doctor/Snapshot/Atomicity.antt =====
-- A snapshot is replaced in full or not at all.
use remote_devbox.Base.{
  ℕ, String, Bool, true, false, none, some, ◌≡◌, refl, ap, ◌∙◌, ◌⊎◌, inl, inr, Bool-cases,
  Option-cases, is_some,
}
use remote_devbox.Base.Attempts.{Attempt, done, thrown}
use remote_devbox.Base.Effects.{Settles, and_then-Settles, and_then}
use remote_devbox.Doctor.Snapshot.{
  Disk, Call, opening, writing, syncing, closing, setting_mode, renaming, closing_again, removing,
  call, open_temporary, write_temporary, close_temporary, set_mode, rename_temporary, try_write,
  close_again, remove_temporary, clean_up, finally, write_health_snapshot, with_text, with_mode,
}

module _ (fails : Call → Bool) (part : String) where
  -- A call that may fail has its success's promise or its failure's.
  call-Settles :
      (Q : Disk → Type 0) (E : Disk → Type 0) (c : Call) (bad good : Disk)
      → E bad
      → Q good
      → Settles (λ _ d. Q d) (λ _ d. E d) (call fails part c bad good)
  call-Settles Q E c bad good e q = elim (Bool-cases (fails c)) [ inl f ↦ rw f e | inr f ↦ rw f q ]

  -- The path still has what it had.
  abbrev pub IsUntouched : Disk → Disk → Type 0
  IsUntouched d after = after.target ≡ d.target

  -- The temporary file has the text, and the path what it had.
  abbrev IsStaged : Disk → (text : String) → (mode : ℕ) → Bool → Disk → Type 0
  IsStaged d text mode fd after =
      (after.target ≡ d.target)
      × (after.temporary ≡ some (record { text = text; mode = mode }))
      × (after.fd ≡ fd)

  -- The path has the whole document, readable for all, and nothing is left beside it.
  abbrev pub IsReplaced : String → Disk → Type 0
  IsReplaced text after =
      (after.target ≡ some (record { text = text; mode = 420 }))
      × (after.temporary ≡ none)
      × (after.fd ≡ false)

  open_temporary-IsStaged :
      (d : Disk)
      → Settles
          (λ _ a. IsStaged d "" 384 true a)
          (λ _ a. IsUntouched d a)
          (open_temporary fails part d)
  unfolding open_temporary
  open_temporary-IsStaged d = elim (Bool-cases (is_some d.temporary)) [
    | inl e ↦ rw e refl
    | inr e ↦
        rw e (
          call-Settles (IsStaged d "" 384 true) (IsUntouched d) opening d _ refl (refl, refl, refl))
  ]

  try_write-IsReplaced :
      (text : String) (d : Disk)
      → Settles (λ _ a. IsReplaced text a) (λ _ a. IsUntouched d a) (try_write fails part text d)
  unfolding try_write write_temporary close_temporary set_mode rename_temporary
  try_write-IsReplaced text d =
      let Q : Unit {0} → Disk → Type 0 = λ _ a. IsReplaced text a in
      let E : String → Disk → Type 0 = λ _ a. IsUntouched d a in
      and_then-Settles Q E _ (open_temporary fails part d) _ (open_temporary-IsStaged d) λ _ d1 s1.
        and_then-Settles Q E _ (write_temporary fails part text d1) _
          (call-Settles (IsStaged d text 384 true) (IsUntouched d) writing _ _ s1.0
            (s1.0, ap (with_text fails part text) s1.1, s1.2))
          λ _ d2 s2.
            and_then-Settles Q E _ (call fails part syncing d2 d2) _
              (call-Settles (IsStaged d text 384 true) (IsUntouched d) syncing d2 d2 s2.0 s2)
              λ _ d3 s3.
                and_then-Settles Q E _ (close_temporary fails part d3) _
                  (call-Settles (IsStaged d text 384 false) (IsUntouched d) closing _ _ s3.0
                    (s3.0, s3.1, refl))
                  λ _ d4 s4.
                    and_then-Settles Q E _ (set_mode fails part d4) _
                      (call-Settles (IsStaged d text 420 false) (IsUntouched d) setting_mode _ _
                        s4.0 (s4.0, ap (with_mode fails part 420) s4.1, s4.2))
                      λ _ d5 s5.
                        call-Settles (IsReplaced text) (IsUntouched d) renaming _ _ s5.0
                          (s5.1, refl, s5.2)

  -- Nothing is left beside the path, or closing or removing the temporary file failed.
  abbrev pub IsClean : Disk → Type 0
  IsClean after =
      (after.temporary ≡ none) ⊎ ((fails closing_again ≡ true) ⊎ (fails removing ≡ true))

  close_again-kept :
      (d : Disk)
      → Settles
          (λ _ a. a.target ≡ d.target)
          (λ _ a. (a.target ≡ d.target) × (fails closing_again ≡ true))
          (close_again fails part d)
  unfolding close_again
  close_again-kept d = elim (Bool-cases d.fd) [
    | inr e ↦ rw e refl
    | inl e ↦ elim (Bool-cases (fails closing_again)) [
      | inl f ↦ rw (e, f) (refl, refl)
      | inr f ↦ rw (e, f) refl
    ]
  ]

  remove_temporary-IsClean :
      (d : Disk)
      → Settles
          (λ _ a. (a.target ≡ d.target) × IsClean a)
          (λ _ a. (a.target ≡ d.target) × IsClean a)
          (remove_temporary fails part d)
  unfolding remove_temporary
  remove_temporary-IsClean d = elim (Option-cases d.temporary) [
    | inl e ↦ rw e (refl, inl refl)
    | inr (file, e) ↦ elim (Bool-cases (fails removing)) [
      | inl f ↦ rw (e, f) (refl, inr (inr refl))
      | inr f ↦ rw (e, f) (refl, inl refl)
    ]
  ]

  clean_up-IsClean :
      (d : Disk)
      → Settles
          (λ _ a. (a.target ≡ d.target) × IsClean a)
          (λ _ a. (a.target ≡ d.target) × IsClean a)
          (clean_up fails part d)
  unfolding clean_up
  clean_up-IsClean d = after_close (close_again fails part d) (close_again-kept d)
    where
      after_remove :
          (k : Disk) (m : Attempt (Unit {0}) × Disk)
          → k.target ≡ d.target
          → Settles
              (λ _ a. (a.target ≡ k.target) × IsClean a)
              (λ _ a. (a.target ≡ k.target) × IsClean a)
              m
          → Settles
              (λ _ a. (a.target ≡ d.target) × IsClean a)
              (λ _ a. (a.target ≡ d.target) × IsClean a)
              m
      after_remove k (done _, a) same (kept, clean) = (kept ∙ same, clean)
      after_remove k (thrown message, a) same (kept, clean) = (kept ∙ same, clean)

      after_close :
          (m : Attempt (Unit {0}) × Disk)
          → Settles
              (λ _ a. a.target ≡ d.target)
              (λ _ a. (a.target ≡ d.target) × (fails closing_again ≡ true))
              m
          → Settles
              (λ _ a. (a.target ≡ d.target) × IsClean a)
              (λ _ a. (a.target ≡ d.target) × IsClean a)
              (and_then m (λ _. remove_temporary fails part))
      after_close (done _, k) same =
          after_remove k (remove_temporary fails part k) same (remove_temporary-IsClean k)
      after_close (thrown message, k) (same, failed) = (same, inr (inl failed))

  -- Whichever calls fail: if writing a snapshot returns, the path has the whole document with mode
  -- 0644 and the temporary file is gone; if it throws, the path has what it had before, and the
  -- temporary file is gone unless closing it a second time or removing it failed.
  pub write_health_snapshot-IsReplaced :
      (text : String) (d : Disk)
      → Settles
          (λ _ a. IsReplaced text a)
          (λ _ a. IsUntouched d a × IsClean a)
          (write_health_snapshot fails part text d)
  unfolding write_health_snapshot
  write_health_snapshot-IsReplaced text d =
      by_try (try_write fails part text d) (try_write-IsReplaced text d)
    where
      by_cleaning :
          (message : String) (k : Disk) (c : Attempt (Unit {0}) × Disk)
          → k.target ≡ d.target
          → Settles
              (λ _ a. (a.target ≡ k.target) × IsClean a)
              (λ _ a. (a.target ≡ k.target) × IsClean a)
              c
          → Settles
              (λ _ a. IsReplaced text a)
              (λ _ a. IsUntouched d a × IsClean a)
              (finally fails part (thrown message) c)
      by_cleaning message k (done _, a) same (kept, clean) = (kept ∙ same, clean)
      by_cleaning message k (thrown m, a) same (kept, clean) = (kept ∙ same, clean)

      by_try :
          (m : Attempt (Unit {0}) × Disk)
          → Settles (λ _ a. IsReplaced text a) (λ _ a. IsUntouched d a) m
          → Settles
              (λ _ a. IsReplaced text a)
              (λ _ a. IsUntouched d a × IsClean a)
              (finally fails part m.0 (clean_up fails part m.1))
      by_try (done _, a) (whole, none_left, closed) =
          rw (clean_up, close_again, remove_temporary, closed, none_left) (whole, refl, refl)
      by_try (thrown message, a) same =
          by_cleaning message a (clean_up fails part a) same (clean_up-IsClean a)
