-- ===== src/Spec/ClientPorts/Free.antt =====
-- The search for the lowest free port ends at a port that is free.
use remote_devbox.Base.{
  ℕ, zero, suc, ◌≤◌, ◌<◌, true, false, List, [], ◌∷◌, ◌≡◌, arith, filter, length, one_of, leb, eqb,
  eqb_iff, Bool-cases,
}
use mathlib.Core.Logic.{inl, inr}
use remote_devbox.Spec.ClientPorts.{next_free}

-- How many of the ports are at or above `n`.
abbrev pub above : ℕ → List ℕ → ℕ
above n ts = length (filter (λ t. leb n t) ts)

above-suc : (n : ℕ) (ts : List ℕ) → above (suc n) ts ≤ above n ts
above-suc n [] = omega arith
above-suc n (t ∷ ts) = ground (arith, above-suc n ts)

above-taken : (n : ℕ) (ts : List ℕ) → one_of ts n ≡ true → above (suc n) ts < above n ts
above-taken n [] h = ground arith
above-taken n (t ∷ ts) h = ground (arith, above-taken n ts, above-suc n ts)

pub above-length : (n : ℕ) (ts : List ℕ) → above n ts ≤ length ts
above-length n [] = omega arith
above-length n (t ∷ ts) = ground (arith, above-length n ts)

pub next_free-free :
    (fuel : ℕ) (taken : List ℕ) (n : ℕ)
    → above n taken ≤ fuel
    → one_of taken (next_free fuel taken n) ≡ false
unfolding next_free
next_free-free zero taken n h = ground (arith, above-taken n taken)
next_free-free (suc fuel) taken n h =
    ground (arith, above-taken n taken, next_free-free fuel taken (suc n))

pub next_free-above : (fuel : ℕ) (taken : List ℕ) (n : ℕ) → n ≤ next_free fuel taken n
unfolding next_free
next_free-above zero taken n = omega arith
next_free-above (suc fuel) taken n = ground (arith, next_free-above fuel taken (suc n))

pub next_free-lowest :
    (fuel : ℕ) (taken : List ℕ) (n m : ℕ)
    → n ≤ m
    → m < next_free fuel taken n
    → one_of taken m ≡ true
unfolding next_free
next_free-lowest zero taken n m h k = absurd (omega arith)
next_free-lowest (suc fuel) taken n m h k = elim (Bool-cases (one_of taken n)) [
  | inl e ↦ elim (Bool-cases (eqb n m)) [
    | inl q ↦ rw⁻¹ ((eqb_iff n m).0 q) e
    | inr q ↦ next_free-lowest fuel taken (suc n) m (ground arith) (rw e at k)
  ]
  | inr e ↦ absurd (ground arith)
]
