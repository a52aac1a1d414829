-- ===== src/Spec/MemoryLimits/Canonical.antt =====
-- Which texts are memory sizes, and what they are normalized to.
use remote_devbox.Base.Options.{some_inj, none-ne-some}
use remote_devbox.Base.{
  String, true, none, some, ◌≡◌, refl, ap, ◌∙◌, sym, eq_iff, ◌==◌, ◌||◌, ◌↔◌, ◌⊎◌, codes,
  Bool-cases, inl, inr,
}
use remote_devbox.Spec.MemoryLimits.{is_percent, direct_size, canonical_memory_size}
use remote_devbox.Spec.MemoryLimits.Sizes.{IsDirect, direct_size-IsDirect, direct_size_of_IsDirect}
use remote_devbox.Spec.MemoryLimits.Percents.{
  IsPercent, is_percent-IsPercent, is_percent_of_IsPercent, direct_size-percent,
}

abbrev pub IsKept : String → Type 0
IsKept value = (value ≡ "") ⊎ IsPercent (codes value)

IsKept-iff : (value : String) → ((value == "" || is_percent (codes value)) ≡ true) ↔ IsKept value
IsKept-iff value = elim (Bool-cases (value == "")) [
  | inl e ↦ rw e (λ h. inl ((eq_iff value "").0 e), λ h. refl)
  | inr e ↦ rw e (
    λ h. inr (is_percent-IsPercent (codes value) h),
    λ h. elim h [
      | inl k ↦ absurd (let r = (eq_iff value "").1 k in cc)
      | inr k ↦ is_percent_of_IsPercent (codes value) k
    ],
  )
]

direct_size-kept : (value : String) → IsKept value → direct_size value ≡ none
unfolding direct_size
direct_size-kept value (inl e) = rw e refl
direct_size-kept value (inr p) = direct_size-percent value (is_percent_of_IsPercent (codes value) p)

-- A text is normalized exactly if it is empty or a percentage from 1% to 100%, and then to itself,
-- or if it is digits, at least one, one of the units K, M, G and T or none, and perhaps a B, and
-- then to the digits and the unit.
pub canonical_memory_size_iff :
    (value size : String)
    → (canonical_memory_size value ≡ some size)
      ↔ ((IsKept value × (size ≡ value)) ⊎ IsDirect value size)
unfolding canonical_memory_size
canonical_memory_size_iff value size =
    let kept = IsKept-iff value in
    elim (Bool-cases (value == "" || is_percent (codes value))) [
      | inl e ↦ rw e (
        λ h. inl (kept.0 e, sym (some_inj h)),
        λ h. elim h [
          | inl (k, same) ↦ ap some (sym same)
          | inr direct ↦
              none-ne-some (
                sym (direct_size-kept value (kept.0 e)) ∙ direct_size_of_IsDirect value size direct)
        ],
      )
      | inr e ↦ rw e (
        λ h. inr (direct_size-IsDirect value size h),
        λ h. elim h [
          | inl (k, same) ↦ absurd (let r = kept.1 k in cc)
          | inr direct ↦ direct_size_of_IsDirect value size direct
        ],
      )
    ]
