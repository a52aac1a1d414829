-- ===== src/Examples/Locks.antt =====
-- Two processes at the mount lock, and the order of moves in which both come to hold it.
use remote_devbox.Base.{ℕ, String, true, List, [], ◌∷◌, ◌++◌, ◌≡◌, refl, arith, decimal}
use remote_devbox.Client.Bridge.{Sighting, gone, seen}
use remote_devbox.Client.MountLock.{holding, refused, run, start}
use remote_devbox.Client.MountLock.Exclusion.{run-exclusive}
use remote_devbox.Client.MountLock.Settling.{is_over, run-over}

abbrev pid : ℕ → ℕ
pid i = i

abbrev token : ℕ → String
token i = decimal i

abbrev turn : ℕ → ℕ × Sighting
turn i = (i, seen "sun")

-- Process 1 takes the lock, and process 2 is refused.
abbrev contended : List (ℕ × Sighting)
contended = turn 1 ∷ turn 2 ∷ turn 1 ∷ turn 2 ∷ turn 1 ∷ turn 2 ∷ turn 2 ∷ []

winner : (run pid token contended start).phases 1 ≡ holding
unfolding run
winner = refl

loser : (run pid token contended start).phases 2 ≡ refused "mount lifecycle already running"
unfolding run
loser = refl

run-exclusive_example : ◌≡◌ {A = ℕ} 1 1
run-exclusive_example =
    run-exclusive pid token contended 1 1 (tt, (tt, (tt, (tt, (tt, (tt, (tt, tt)))))))
      (rw winner refl) (rw winner refl)

abbrev taken : List (ℕ × Sighting)
taken = turn 0 ∷ turn 0 ∷ turn 0 ∷ []

-- Enter, fail to create, read the owner, and find it gone.
abbrev finds_gone : ℕ → List (ℕ × Sighting)
finds_gone i = turn i ∷ turn i ∷ turn i ∷ (i, gone) ∷ []

-- Process 0 took the lock and is gone. Processes 1 and 2 both read its lock; 1 removes it and takes
-- the lock; then 2 removes the lock of 1, and takes it as well.
abbrev race : List (ℕ × Sighting)
race =
    taken
    ++ finds_gone 1
    ++ finds_gone 2
    ++ (turn 1 ∷ turn 1 ∷ turn 1 ∷ [])
    ++ (turn 2 ∷ turn 2 ∷ turn 2 ∷ [])

both_hold :
    ((run pid token race start).phases 1 ≡ holding)
    × ((run pid token race start).phases 2 ≡ holding)
unfolding run
both_hold = (refl, refl)

abbrev ten : List (ℕ × Sighting)
ten =
    turn 1
    ∷ turn 1
    ∷ turn 2
    ∷ turn 1
    ∷ turn 1
    ∷ turn 1
    ∷ turn 1
    ∷ turn 1
    ∷ turn 1
    ∷ turn 1
    ∷ turn 1
    ∷ []

run-over_example : is_over ((run pid token ten start).phases 1) ≡ true
run-over_example = run-over pid token 1 ten (omega arith)
