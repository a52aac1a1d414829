-- ===== src/Client/MountLock/Settling.antt =====
-- Every process comes to an end: taking and releasing the lock is a bounded number of its own moves,
-- whatever the others do and whatever is seen.
use remote_devbox.Base.{
  ℕ, zero, suc, ◌-◌, ◌≤◌, String, Bool, true, false, Option, none, some, List, [], ◌∷◌, ◌==◌, ◌≡◌,
  refl, sym, ap, eqb, eqb_iff, Bool-cases, inl, inr, arith, if◌then◌else◌,
}
use remote_devbox.Client.Bridge.{Sighting, gone, unclear, seen}
use remote_devbox.Client.MountLock.{
  LockOwner, Content, unowned, owned, Phase, entering, creating, seeing, judging, removing, writing,
  holding, releasing, unlinking, finished, refused, World, put, enter, create, read_owner, judge,
  reread, next, move, run, start,
}

-- The process has released the lock or given up.
abbrev pub is_over : Phase → Bool
is_over finished = true
is_over (refused _) = true
is_over _ = false

-- The moves that a process may still make.
abbrev pub left : Phase → ℕ
left entering = 10
left (creating zero) = 9
left (creating (suc zero)) = 5
left (creating (suc (suc _))) = 1
left (seeing zero) = 8
left (seeing (suc _)) = 4
left (judging zero o) = 7
left (judging (suc _) o) = 3
left (removing zero) = 6
left (removing (suc _)) = 2
left writing = 4
left holding = 3
left releasing = 2
left unlinking = 1
left finished = 0
left (refused _) = 0

-- How many of the moves are the process's.
abbrev pub turns : ℕ → List (ℕ × Sighting) → ℕ
turns i [] = 0
turns i ((j, s) ∷ ms) = if eqb j i then suc (turns i ms) else turns i ms

left-over : (p : Phase) → left p ≡ 0 → is_over p ≡ true
left-over finished h = refl
left-over (refused _) h = refl
left-over entering h = absurd (omega (arith, h))
left-over (creating zero) h = absurd (omega (arith, h))
left-over (creating (suc zero)) h = absurd (omega (arith, h))
left-over (creating (suc (suc _))) h = absurd (omega (arith, h))
left-over (seeing zero) h = absurd (omega (arith, h))
left-over (seeing (suc _)) h = absurd (omega (arith, h))
left-over (judging zero o) h = absurd (omega (arith, h))
left-over (judging (suc _) o) h = absurd (omega (arith, h))
left-over (removing zero) h = absurd (omega (arith, h))
left-over (removing (suc _)) h = absurd (omega (arith, h))
left-over writing h = absurd (omega (arith, h))
left-over holding h = absurd (omega (arith, h))
left-over releasing h = absurd (omega (arith, h))
left-over unlinking h = absurd (omega (arith, h))

-- After a call, the process itself is in one of two phases, and the others where they were.
put-own : (i : ℕ) (q : Phase) (f : ℕ → Phase) → put i q f i ≡ q
put-own i q f = rw ((eqb_iff i i).1 refl) refl

put-other : (i j : ℕ) (q : Phase) (f : ℕ → Phase) → eqb i j ≡ false → put i q f j ≡ f j
put-other i j q f e = rw e refl

-- One move of the process: the phase that it goes to has fewer moves left, and no other process
-- changes its phase.
abbrev IsMove : ℕ → ℕ → World → World → Type 0
IsMove i before w after =
    (q : Phase) × ((j : ℕ) → after.phases j ≡ put i q w.phases j) × (left q ≤ before - 1)

enter-IsMove : (i : ℕ) (s : Sighting) (w : World) → IsMove i 10 w (enter i s w)
unfolding enter
enter-IsMove i gone w = (refused _, λ j. refl, omega arith)
enter-IsMove i unclear w = (refused _, λ j. refl, omega arith)
enter-IsMove i (seen identity) w = elim (Bool-cases (identity == "")) [
  | inl e ↦ rw e (refused _, λ j. refl, omega arith)
  | inr e ↦ rw e (creating 0, λ j. refl, omega arith)
]

create-IsMove :
    (i attempt before : ℕ) (f : Option (ℕ × Content)) (w : World)
    → left (seeing attempt) ≤ before - 1
    → 4 ≤ before - 1
    → IsMove i before w (create i attempt f w)
unfolding create
create-IsMove i attempt before none w a b = (writing, λ j. refl, b)
create-IsMove i attempt before (some x) w a b = (seeing attempt, λ j. refl, a)

read_owner-IsMove :
    (i attempt before : ℕ) (f : Option (ℕ × Content)) (w : World)
    → ((o : LockOwner) → left (judging attempt o) ≤ before - 1)
    → IsMove i before w (read_owner i attempt f w)
unfolding read_owner
read_owner-IsMove i attempt before none w a = (refused _, λ j. refl, omega arith)
read_owner-IsMove i attempt before (some (k, unowned)) w a = (refused _, λ j. refl, omega arith)
read_owner-IsMove i attempt before (some (k, owned o)) w a = (judging attempt o, λ j. refl, a o)

judge-IsMove :
    (i attempt before : ℕ) (o : LockOwner) (s : Sighting) (w : World)
    → left (removing attempt) ≤ before - 1
    → IsMove i before w (judge i attempt o s w)
unfolding judge
judge-IsMove i attempt before o gone w a = (removing attempt, λ j. refl, a)
judge-IsMove i attempt before o unclear w a = (refused _, λ j. refl, omega arith)
judge-IsMove i attempt before o (seen identity) w a = elim (Bool-cases (identity == o.identity)) [
  | inl e ↦ rw e (refused _, λ j. refl, omega arith)
  | inr e ↦ rw e (refused _, λ j. refl, omega arith)
]

reread-IsMove :
    (token : String) (i : ℕ) (f : Option (ℕ × Content)) (w : World)
    → IsMove i 2 w (reread token i f w)
unfolding reread
reread-IsMove token i none w = (finished, λ j. refl, omega arith)
reread-IsMove token i (some (k, unowned)) w = (finished, λ j. refl, omega arith)
reread-IsMove token i (some (k, owned o)) w = elim (Bool-cases (o.token == token)) [
  | inl e ↦ rw e (unlinking, λ j. refl, omega arith)
  | inr e ↦ rw e (finished, λ j. refl, omega arith)
]

-- A process that is over stays where it is.
stays : (i : ℕ) (p : Phase) (w : World) → w.phases i ≡ p → (j : ℕ) → w.phases j ≡ put i p w.phases j
stays i p w e j = elim (Bool-cases (eqb i j)) [
  | inl same ↦ rw (same, sym ((eqb_iff i j).0 same)) e
  | inr other ↦ rw other refl
]

module _ (pids : ℕ → ℕ) (tokens : ℕ → String) where
  next-IsMove :
      (i : ℕ) (s : Sighting) (p : Phase) (w : World)
      → w.phases i ≡ p
      → IsMove i (left p) w (next pids tokens i s p w)
  unfolding next
  next-IsMove i s entering w e = enter-IsMove i s w
  next-IsMove i s (creating zero) w e = create-IsMove i 0 9 w.file w (omega arith) (omega arith)
  next-IsMove i s (creating (suc zero)) w e =
      create-IsMove i 1 5 w.file w (omega arith) (omega arith)
  next-IsMove i s (creating (suc (suc _))) w e = (refused _, λ j. refl, omega arith)
  next-IsMove i s (seeing zero) w e = read_owner-IsMove i 0 8 w.file w (λ o. omega arith)
  next-IsMove i s (seeing (suc n)) w e = read_owner-IsMove i (suc n) 4 w.file w (λ o. omega arith)
  next-IsMove i s (judging zero o) w e = judge-IsMove i 0 7 o s w (omega arith)
  next-IsMove i s (judging (suc n) o) w e = judge-IsMove i (suc n) 3 o s w (omega arith)
  next-IsMove i s (removing zero) w e = (creating 1, λ j. refl, omega arith)
  next-IsMove i s (removing (suc n)) w e = (creating (suc (suc n)), λ j. refl, omega arith)
  next-IsMove i s writing w e = (holding, λ j. refl, omega arith)
  next-IsMove i s holding w e = (releasing, λ j. refl, omega arith)
  next-IsMove i s releasing w e = reread-IsMove (tokens i) i w.file w
  next-IsMove i s unlinking w e = (finished, λ j. refl, omega arith)
  next-IsMove i s finished w e = (finished, stays i finished w e, omega arith)
  next-IsMove i s (refused message) w e =
      (refused message, stays i (refused message) w e, omega arith)

  left-run :
      (i : ℕ) (ms : List (ℕ × Sighting)) (w : World)
      → left ((run pids tokens ms w).phases i) ≤ left (w.phases i) - turns i ms
  unfolding run move
  left-run i [] w = omega arith
  left-run i ((j, s) ∷ ms) w =
      let after = next pids tokens j s (w.phases j) w in
      let (q, moved, less) = next-IsMove j s (w.phases j) w refl in
      let rest = left-run i ms after in
      elim (Bool-cases (eqb j i)) [
        | inl e ↦
            let same = (eqb_iff j i).0 e in
            let now : after.phases i ≡ q = rw e at (moved i) in
            rw e (omega (arith, rest, ap left now, less, ap (λ k. left (w.phases k)) same))
        | inr e ↦
            let now : after.phases i ≡ w.phases i = rw e at (moved i) in
            rw e (omega (arith, rest, ap left now))
      ]

  -- Whatever the other processes do, in whichever order, and whatever the lookups see: after ten
  -- moves of its own a process has released the lock or given up with an error.
  pub run-over :
      (i : ℕ) (ms : List (ℕ × Sighting))
      → 10 ≤ turns i ms
      → is_over ((run pids tokens ms start).phases i) ≡ true
  run-over i ms enough =
      left-over ((run pids tokens ms start).phases i) (omega (arith, left-run i ms start, enough))
