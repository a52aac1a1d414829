-- ===== src/Spec/MemoryLimits/Percents.antt =====
-- Percentages, and that they are no sizes with a unit.
use Prim.Native.Char.{code}
use remote_devbox.Base.{
  ℕ, String, true, none, List, [], ◌∷◌, ◌≡◌, ◌≤◌, refl, ◌⊎◌, is_digit, codes, Bool-cases, inl, inr,
  arith,
}
use remote_devbox.Spec.MemoryLimits.{is_percent, unit_of, size_from, direct_size}

-- A percentage from 1 to 100, its code points.
abbrev pub IsPercent : List ℕ → Type 0
IsPercent cs =
    ((a : ℕ) × (b'1' ≤ a) × (a ≤ b'9') × (cs ≡ a ∷ b'%' ∷ []))
    ⊎ ((a b : ℕ) × (b'1' ≤ a) × (a ≤ b'9') × (b'0' ≤ b) × (b ≤ b'9') × (cs ≡ a ∷ b ∷ b'%' ∷ []))
    ⊎ (cs ≡ b'1' ∷ b'0' ∷ b'0' ∷ b'%' ∷ [])

pub is_percent_of_IsPercent : (cs : List ℕ) → IsPercent cs → is_percent cs ≡ true
unfolding is_percent
is_percent_of_IsPercent cs (inl (a, lo, hi, e)) = rw e (ground arith)
is_percent_of_IsPercent cs (inr (inl (a, b, lo, hi, low, high, e))) = rw e (ground arith)
is_percent_of_IsPercent cs (inr (inr e)) = rw e refl

pub is_percent-IsPercent : (cs : List ℕ) → is_percent cs ≡ true → IsPercent cs
unfolding is_percent
is_percent-IsPercent [] h = absurd (cc)
is_percent-IsPercent (a ∷ []) h = absurd (cc)
is_percent-IsPercent (a ∷ b ∷ []) h =
    let last : b ≡ b'%' = ground arith in inl (a, ground arith, ground arith, rw last refl)
is_percent-IsPercent (a ∷ b ∷ c ∷ []) h =
    let last : c ≡ b'%' = ground arith in
    inr (inl (a, b, ground arith, ground arith, ground arith, ground arith, rw last refl))
is_percent-IsPercent (a ∷ b ∷ c ∷ d ∷ []) h =
    let p : a ≡ b'1' = ground arith in
    let q : b ≡ b'0' = ground arith in
    let r : c ≡ b'0' = ground arith in
    let s : d ≡ b'%' = ground arith in inr (inr (rw (p, q, r, s) refl))
is_percent-IsPercent (a ∷ b ∷ c ∷ d ∷ e ∷ cs) h = absurd (cc)

-- Texts that end in a percent sign are no sizes.
pub direct_size-percent :
    (value : String) → is_percent (codes value) ≡ true → direct_size value ≡ none
unfolding is_percent direct_size size_from unit_of
direct_size-percent String.[] h = refl
direct_size-percent (String.◌∷◌ a String.[]) h = absurd (cc)
direct_size-percent (String.◌∷◌ a (String.◌∷◌ b String.[])) h =
    let last : code b ≡ b'%' = ground arith in
    elim (Bool-cases (is_digit (code a))) [ inl e ↦ rw (e, last) refl | inr e ↦ rw e refl ]
direct_size-percent (String.◌∷◌ a (String.◌∷◌ b (String.◌∷◌ c String.[]))) h =
    let last : code c ≡ b'%' = ground arith in
    let digit : is_digit (code b) ≡ true = ground arith in
    elim (Bool-cases (is_digit (code a))) [ inl e ↦ rw (e, digit, last) refl | inr e ↦ rw e refl ]
direct_size-percent (String.◌∷◌ a (String.◌∷◌ b (String.◌∷◌ c (String.◌∷◌ d String.[])))) h =
    let p : code a ≡ b'1' = ground arith in
    let q : code b ≡ b'0' = ground arith in
    let r : code c ≡ b'0' = ground arith in
    let s : code d ≡ b'%' = ground arith in rw (p, q, r, s) refl
direct_size-percent (String.◌∷◌ a (String.◌∷◌ b (String.◌∷◌ c (String.◌∷◌ d (String.◌∷◌ e rest)))))
      h =
    absurd (cc)
