-- ===== src/Spec/MemoryLimits/Sizes.antt =====
-- Digits with a unit, and what is read of them.
use Prim.Native.String
use Prim.Native.String.append
use Prim.Native.Char.{Char, code}
use text.Mathlib.TextEquality.{Char-path}
use text.Mathlib.TextLemmas.{append-nil}
use remote_devbox.Base.Options.{some_inj, none-ne-some}
use remote_devbox.Base.{
  String, Bool, true, false, some, ◌≡◌, refl, ap, ◌∙◌, sym, eqb, eqb_iff, ◌⊎◌, is_digit, codes,
  every, is_empty, Bool-cases, Option-cases, inl, inr, and-split,
}
use remote_devbox.Spec.MemoryLimits.{is_unit, unit_of, size_from, direct_size}

-- The unit of a size, and a last `B`.
abbrev pub IsUnit : String → Type 0
IsUnit u = (u ≡ "") ⊎ (u ≡ "K") ⊎ (u ≡ "M") ⊎ (u ≡ "G") ⊎ (u ≡ "T")

abbrev pub IsSuffix : String → Type 0
IsSuffix s = (s ≡ "") ⊎ (s ≡ "B")

abbrev pub are_digits : String → Bool
are_digits s = every is_digit (codes s)

-- Digits, a unit and perhaps a `B`; the size is the digits and the unit.
abbrev IsTail : String → String → Type 0
IsTail value size =
    (digits : String) × (unit : String) × (suffix : String) × (are_digits digits ≡ true)
    × IsUnit unit
    × IsSuffix suffix
    × (value ≡ String.◌++◌ digits (String.◌++◌ unit suffix))
    × (size ≡ String.◌++◌ digits unit)

-- The same, with one digit at least.
abbrev pub IsDirect : String → String → Type 0
IsDirect value size =
    (digits : String) × (unit : String) × (suffix : String) × (is_empty (codes digits) ≡ false)
    × (are_digits digits ≡ true)
    × IsUnit unit
    × IsSuffix suffix
    × (value ≡ String.◌++◌ digits (String.◌++◌ unit suffix))
    × (size ≡ String.◌++◌ digits unit)

one_char : (c d : Char) → code c ≡ code d → String.◌∷◌ c "" ≡ String.◌∷◌ d ""
one_char c d e = ap (λ x. String.◌∷◌ x "") (Char-path c d e)

is_unit-IsUnit : (c : Char) → is_unit (code c) ≡ true → IsUnit (String.◌∷◌ c "")
is_unit-IsUnit c h = elim (Bool-cases (eqb (code c) b'K')) [
  | inl e ↦ inr (inl (one_char c "K" ((eqb_iff (code c) b'K').0 e)))
  | inr k ↦ elim (Bool-cases (eqb (code c) b'M')) [
    | inl e ↦ inr (inr (inl (one_char c "M" ((eqb_iff (code c) b'M').0 e))))
    | inr m ↦ elim (Bool-cases (eqb (code c) b'G')) [
      | inl e ↦ inr (inr (inr (inl (one_char c "G" ((eqb_iff (code c) b'G').0 e)))))
      | inr g ↦ elim (Bool-cases (eqb (code c) b'T')) [
        | inl e ↦ inr (inr (inr (inr (one_char c "T" ((eqb_iff (code c) b'T').0 e)))))
        | inr t ↦ absurd (let r = rw (k, m, g, t) at h in cc)
      ]
    ]
  ]
]

unit_of-IsTail : (s size : String) → unit_of s ≡ some size → IsTail s size
unfolding unit_of
unit_of-IsTail String.[] size h = ("", "", "", refl, inl refl, inl refl, refl, sym (some_inj h))
unit_of-IsTail (String.◌∷◌ c String.[]) size h = elim (Bool-cases (is_unit (code c))) [
  | inl u ↦
      let same = some_inj (rw u at h) in
      let text = String.◌∷◌ c "" in
      (
        "",
        text,
        "",
        refl,
        is_unit-IsUnit c u,
        inl refl,
        sym (append.nil (String.◌++◌ text "") ∙ append-nil text),
        sym same ∙ sym (append.nil text),
      )
  | inr u ↦ elim (Bool-cases (eqb (code c) b'B')) [
    | inl b ↦ (
      "",
      "",
      "B",
      refl,
      inl refl,
      inr refl,
      one_char c "B" ((eqb_iff (code c) b'B').0 b),
      sym (some_inj (rw (u, b) at h)),
    )
    | inr b ↦ none-ne-some (rw (u, b) at h)
  ]
]
unit_of-IsTail (String.◌∷◌ c (String.◌∷◌ d String.[])) size h =
    elim (Bool-cases (is_unit (code c))) [
      | inr u ↦ none-ne-some (rw u at h)
      | inl u ↦ elim (Bool-cases (eqb (code d) b'B')) [
        | inr b ↦ none-ne-some (rw (u, b) at h)
        | inl b ↦
            let same = some_inj (rw (u, b) at h) in
            let text = String.◌∷◌ c "" in
            let joined = append.cons c "" "B" ∙ ap (λ t. String.◌∷◌ c t) (append.nil "B") in
            (
              "",
              text,
              "B",
              refl,
              is_unit-IsUnit c u,
              inr refl,
              ap (λ t. String.◌∷◌ c t) (one_char d "B" ((eqb_iff (code d) b'B').0 b))
                  ∙ sym (append.nil (String.◌++◌ text "B") ∙ joined),
              sym same ∙ sym (append.nil text),
            )
      ]
    ]
unit_of-IsTail (String.◌∷◌ c (String.◌∷◌ d (String.◌∷◌ e s))) size h = none-ne-some h

-- One more digit before.
IsTail-digit :
    (c : Char) (s t : String)
    → is_digit (code c) ≡ true
    → IsTail s t
    → IsDirect (String.◌∷◌ c s) (String.◌∷◌ c t)
IsTail-digit c s t digit (digits, unit, suffix, all, u, x, whole, size) = (
  String.◌∷◌ c digits,
  unit,
  suffix,
  refl,
  rw (digit, all) refl,
  u,
  x,
  ap (λ r. String.◌∷◌ c r) whole ∙ sym (append.cons c digits (String.◌++◌ unit suffix)),
  ap (λ r. String.◌∷◌ c r) size ∙ sym (append.cons c digits unit),
)

IsDirect-IsTail : (value size : String) → IsDirect value size → IsTail value size
IsDirect-IsTail value size (digits, unit, suffix, full, all, u, x, whole, kept) =
    (digits, unit, suffix, all, u, x, whole, kept)

size_from-IsTail : (s size : String) → size_from s ≡ some size → IsTail s size
unfolding size_from
size_from-IsTail String.[] size h = ("", "", "", refl, inl refl, inl refl, refl, sym (some_inj h))
size_from-IsTail (String.◌∷◌ c s) size h = elim (Bool-cases (is_digit (code c))) [
  | inr other ↦ unit_of-IsTail (String.◌∷◌ c s) size (rw other at h)
  | inl digit ↦ elim (Option-cases (size_from s)) [
    | inl e ↦ none-ne-some (rw (digit, e) at h)
    | inr (t, e) ↦
        rw⁻¹ (some_inj (rw (digit, e) at h))
          (IsDirect-IsTail _ _ (IsTail-digit c s t digit (size_from-IsTail s t e)))
  ]
]

pub direct_size-IsDirect : (s size : String) → direct_size s ≡ some size → IsDirect s size
unfolding direct_size
direct_size-IsDirect String.[] size h = none-ne-some h
direct_size-IsDirect (String.◌∷◌ c s) size h = elim (Bool-cases (is_digit (code c))) [
  | inr other ↦ none-ne-some (rw other at h)
  | inl digit ↦ elim (Option-cases (size_from s)) [
    | inl e ↦ none-ne-some (rw (digit, e) at h)
    | inr (t, e) ↦
        rw⁻¹ (some_inj (rw (digit, e) at h)) (IsTail-digit c s t digit (size_from-IsTail s t e))
  ]
]

size_from-unit_suffix :
    (unit suffix : String)
    → IsUnit unit
    → IsSuffix suffix
    → size_from (String.◌++◌ unit suffix) ≡ some unit
unfolding size_from unit_of
size_from-unit_suffix unit suffix u (inl x) = elim u [
  | inl e ↦ rw (e, x) refl
  | inr (inl e) ↦ rw (e, x) refl
  | inr (inr (inl e)) ↦ rw (e, x) refl
  | inr (inr (inr (inl e))) ↦ rw (e, x) refl
  | inr (inr (inr (inr e))) ↦ rw (e, x) refl
]
size_from-unit_suffix unit suffix u (inr x) = elim u [
  | inl e ↦ rw (e, x) refl
  | inr (inl e) ↦ rw (e, x) refl
  | inr (inr (inl e)) ↦ rw (e, x) refl
  | inr (inr (inr (inl e))) ↦ rw (e, x) refl
  | inr (inr (inr (inr e))) ↦ rw (e, x) refl
]

size_from-digits :
    (digits unit suffix : String)
    → are_digits digits ≡ true
    → IsUnit unit
    → IsSuffix suffix
    → size_from (String.◌++◌ digits (String.◌++◌ unit suffix)) ≡ some (String.◌++◌ digits unit)
unfolding size_from
size_from-digits String.[] unit suffix all u x =
    ap size_from (append.nil (String.◌++◌ unit suffix))
    ∙ size_from-unit_suffix unit suffix u x
    ∙ ap some (sym (append.nil unit))
size_from-digits (String.◌∷◌ c ds) unit suffix all u x =
    let (digit, rest) = and-split (is_digit (code c)) (are_digits ds) all in
    ap size_from (append.cons c ds (String.◌++◌ unit suffix))
    ∙ rw (digit, size_from-digits ds unit suffix rest u x) (ap some (sym (append.cons c ds unit)))

pub direct_size_of_IsDirect :
    (value size : String) → IsDirect value size → direct_size value ≡ some size
unfolding direct_size
direct_size_of_IsDirect value size (String.[], unit, suffix, full, all, u, x, whole, kept) =
    absurd (cc)
direct_size_of_IsDirect value size (String.◌∷◌ c ds, unit, suffix, full, all, u, x, whole, kept) =
    let (digit, rest) = and-split (is_digit (code c)) (are_digits ds) all in
    ap direct_size (whole ∙ append.cons c ds (String.◌++◌ unit suffix))
    ∙ rw (digit, size_from-digits ds unit suffix rest u x)
        (ap some (sym (append.cons c ds unit) ∙ sym kept))
