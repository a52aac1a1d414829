-- ===== src/Client/MountLock/Exclusion.antt =====
-- At most one process holds the lock, as long as none finds the owner of the lock gone.
use remote_devbox.Base.Options.{some_inj}
use remote_devbox.Base.{
  ℕ, zero, suc, String, Bool, true, false, Option, none, some, List, [], ◌∷◌, ◌==◌, ◌≡◌, refl, sym,
  ap, ◌⊎◌, ◌∙◌, eqb, eqb_iff, All, Bool-cases, inl, inr,
}
use remote_devbox.Client.Bridge.{Sighting, gone, unclear, seen}
use remote_devbox.Client.MountLock.{
  LockOwner, Content, unowned, owned, Phase, entering, creating, seeing, judging, removing, writing,
  holding, releasing, unlinking, finished, refused, World, put, goes, enter, create, read_owner,
  judge, write, reread, next, move, run, start,
}

-- Between the creation of the lock and its removal.
abbrev pub is_within : Phase → Bool
is_within writing = true
is_within holding = true
is_within releasing = true
is_within unlinking = true
is_within _ = false

abbrev is_removing : Phase → Bool
is_removing (removing _) = true
is_removing _ = false

abbrev creator : Option (ℕ × Content) → Option ℕ
creator none = none
creator (some (i, content)) = some i

-- The lookup does not find its process gone.
abbrev pub IsAlive : ℕ × Sighting → Type 0
IsAlive (i, gone) = ⊥
IsAlive (i, _) = Unit

-- A process within the lock created the file that is there, and none is about to take it over.
abbrev Owns : World → ℕ → Type 0
Owns w i =
    ((is_within (w.phases i) ≡ false) ⊎ (creator w.file ≡ some i))
    × (is_removing (w.phases i) ≡ false)

-- The process stays outside of the lock, or leaves it without a call on the file.
goes_out :
    (i : ℕ) (q : Phase) (w : World)
    → is_within q ≡ false
    → is_removing q ≡ false
    → ((k : ℕ) → Owns w k)
    → (j : ℕ) → Owns (goes i q w) j
goes_out i q w out kept h j = elim (Bool-cases (eqb i j)) [
  | inl e ↦ rw e (inl out, kept)
  | inr e ↦ rw e (h j)
]

-- The process stays within the lock, and the file is the same but for its content.
goes_on :
    (i : ℕ) (q : Phase) (f : Option (ℕ × Content)) (w : World)
    → creator f ≡ creator w.file
    → creator w.file ≡ some i
    → is_removing q ≡ false
    → ((k : ℕ) → Owns w k)
    → (j : ℕ) → Owns (record w { file = f; phases = put i q w.phases }) j
goes_on i q f w same own kept h j = elim (Bool-cases (eqb i j)) [
  | inl e ↦ rw e (inr (same ∙ own ∙ ap some ((eqb_iff i j).0 e)), kept)
  | inr e ↦ rw (e, same) (h j)
]

-- The owner that a process within the lock sees in the file's name is itself.
own_file : (w : World) (i : ℕ) → Owns w i → is_within (w.phases i) ≡ true → creator w.file ≡ some i
own_file w i (inl out, kept) e = absurd (cc)
own_file w i (inr own, kept) e = own

-- The process takes the lock, where there is no file.
takes :
    (i : ℕ) (w : World)
    → w.file ≡ none
    → ((k : ℕ) → Owns w k)
    → (j : ℕ) → Owns (record w { file = some (i, unowned); phases = put i writing w.phases }) j
takes i w free h j = elim (Bool-cases (eqb i j)) [
  | inl e ↦ rw e (inr (ap some ((eqb_iff i j).0 e)), refl)
  | inr e ↦ rw e (
    elim (h j).0 [ inl out ↦ inl out | inr own ↦ absurd (let k = rw free at own in cc) ],
    (h j).1,
  )
]

-- The process removes the file that it created.
leaves :
    (i : ℕ) (w : World)
    → creator w.file ≡ some i
    → ((k : ℕ) → Owns w k)
    → (j : ℕ) → Owns (record w { file = none; phases = put i finished w.phases }) j
leaves i w own h j = elim (Bool-cases (eqb i j)) [
  | inl e ↦ rw e (inl refl, refl)
  | inr e ↦ rw e (
    elim (h j).0 [
      | inl out ↦ inl out
      | inr other ↦
          absurd (let same : eqb i j ≡ true = (eqb_iff i j).1 (some_inj (sym own ∙ other)) in cc)
    ],
    (h j).1,
  )
]

write-creator :
    (o : LockOwner) (i : ℕ) (f : Option (ℕ × Content)) → creator (write o i f) ≡ creator f
unfolding write
write-creator o i none = refl
write-creator o i (some (j, content)) = elim (Bool-cases (eqb i j)) [
  | inl e ↦ rw e refl
  | inr e ↦ rw e refl
]

enter-Owns :
    (i : ℕ) (s : Sighting) (w : World) → ((k : ℕ) → Owns w k) → (j : ℕ) → Owns (enter i s w) j
unfolding enter
enter-Owns i gone w h j = goes_out i _ w refl refl h j
enter-Owns i unclear w h j = goes_out i _ w refl refl h j
enter-Owns i (seen identity) w h j = elim (Bool-cases (identity == "")) [
  | inl e ↦ rw e (goes_out i _ w refl refl h j)
  | inr e ↦ rw e (goes_out i (creating 0) w refl refl h j)
]

create-Owns :
    (i attempt : ℕ) (f : Option (ℕ × Content)) (w : World)
    → w.file ≡ f
    → ((k : ℕ) → Owns w k)
    → (j : ℕ) → Owns (create i attempt f w) j
unfolding create
create-Owns i attempt none w e h = takes i w e h
create-Owns i attempt (some x) w e h = goes_out i (seeing attempt) w refl refl h

read_owner-Owns :
    (i attempt : ℕ) (f : Option (ℕ × Content)) (w : World)
    → ((k : ℕ) → Owns w k)
    → (j : ℕ) → Owns (read_owner i attempt f w) j
unfolding read_owner
read_owner-Owns i attempt none w h = goes_out i _ w refl refl h
read_owner-Owns i attempt (some (k, unowned)) w h = goes_out i _ w refl refl h
read_owner-Owns i attempt (some (k, owned o)) w h = goes_out i (judging attempt o) w refl refl h

judge-Owns :
    (i attempt : ℕ) (o : LockOwner) (s : Sighting) (w : World)
    → IsAlive (i, s)
    → ((k : ℕ) → Owns w k)
    → (j : ℕ) → Owns (judge i attempt o s w) j
unfolding judge
judge-Owns i attempt o gone w alive h j = absurd alive
judge-Owns i attempt o unclear w alive h j = goes_out i _ w refl refl h j
judge-Owns i attempt o (seen identity) w alive h j = elim (Bool-cases (identity == o.identity)) [
  | inl e ↦ rw e (goes_out i _ w refl refl h j)
  | inr e ↦ rw e (goes_out i _ w refl refl h j)
]

reread-Owns :
    (token : String) (i : ℕ) (f : Option (ℕ × Content)) (w : World)
    → creator w.file ≡ some i
    → ((k : ℕ) → Owns w k)
    → (j : ℕ) → Owns (reread token i f w) j
unfolding reread
reread-Owns token i none w own h j = goes_out i finished w refl refl h j
reread-Owns token i (some (k, unowned)) w own h j = goes_out i finished w refl refl h j
reread-Owns token i (some (k, owned o)) w own h j = elim (Bool-cases (o.token == token)) [
  | inl e ↦ rw e (goes_on i unlinking w.file w refl own refl h j)
  | inr e ↦ rw e (goes_out i finished w refl refl h j)
]

module _ (pids : ℕ → ℕ) (tokens : ℕ → String) where
  next-Owns :
      (i : ℕ) (s : Sighting) (p : Phase) (w : World)
      → w.phases i ≡ p
      → IsAlive (i, s)
      → ((k : ℕ) → Owns w k)
      → (j : ℕ) → Owns (next pids tokens i s p w) j
  unfolding next
  next-Owns i s entering w e alive h = enter-Owns i s w h
  next-Owns i s (creating zero) w e alive h = create-Owns i 0 w.file w refl h
  next-Owns i s (creating (suc zero)) w e alive h = create-Owns i 1 w.file w refl h
  next-Owns i s (creating (suc (suc _))) w e alive h = goes_out i _ w refl refl h
  next-Owns i s (seeing attempt) w e alive h = read_owner-Owns i attempt w.file w h
  next-Owns i s (judging attempt o) w e alive h = judge-Owns i attempt o s w alive h
  next-Owns i s (removing attempt) w e alive h = absurd (let k = rw e at (h i).1 in cc)
  next-Owns i s writing w e alive h =
      let o : LockOwner = record { pid = pids i; identity = w.identities i; token = tokens i } in
      goes_on i holding (write o i w.file) w (write-creator o i w.file)
        (own_file w i (h i) (rw e refl)) refl h
  next-Owns i s holding w e alive h =
      goes_on i releasing w.file w refl (own_file w i (h i) (rw e refl)) refl h
  next-Owns i s releasing w e alive h =
      reread-Owns (tokens i) i w.file w (own_file w i (h i) (rw e refl)) h
  next-Owns i s unlinking w e alive h = leaves i w (own_file w i (h i) (rw e refl)) h
  next-Owns i s finished w e alive h = h
  next-Owns i s (refused message) w e alive h = h

  run-Owns :
      (ms : List (ℕ × Sighting)) (w : World)
      → All IsAlive ms
      → ((k : ℕ) → Owns w k)
      → (j : ℕ) → Owns (run pids tokens ms w) j
  unfolding run move
  run-Owns [] w alive h = h
  run-Owns ((i, s) ∷ ms) w (one, alive) h =
      run-Owns ms (next pids tokens i s (w.phases i) w) alive
        (next-Owns i s (w.phases i) w refl one h)

  -- From the start, in every order of the processes' moves in which no lookup finds a process gone:
  -- two processes that are both between creating the lock and removing it are the same one.
  pub run-exclusive :
      (ms : List (ℕ × Sighting)) (i j : ℕ)
      → All IsAlive ms
      → is_within ((run pids tokens ms start).phases i) ≡ true
      → is_within ((run pids tokens ms start).phases j) ≡ true
      → i ≡ j
  run-exclusive ms i j alive a b =
      let w = run pids tokens ms start in
      let h : (k : ℕ) → Owns w k = run-Owns ms start alive (λ k. (inl refl, refl)) in
      some_inj (sym (own_file w i (h i) a) ∙ own_file w j (h j) b)
