-- ===== src/Base/Sorting.antt =====
-- `array.sort(cmp)`: the result of a stable sort, computed by insertion. `before a b` is
-- `cmp(a, b) < 0`.
use remote_devbox.Base.Lists.{All, All-mem, All-self}
use mathlib.Core.Bool.{Bool}
use mathlib.Core.Path.{◌≡◌}
use mathlib.Core.Logic.{◌↔◌, ◌⊎◌, inl, inr}
use mathlib.Core.List.{List, [], ◌∷◌, ◌++◌, Memᴰ, Perm, perm_middle, append-nil}
use mathlib.Core.List.Perm
use remote_devbox.Base.Tests.{if◌then◌else◌, Bool-cases}

module _ {ℓ} {A : Type ℓ} (before : A → A → Bool) where
  -- After the elements that are not after it.
  insert : A → List A → List A
  insert x [] = x ∷ []
  insert x (y ∷ ys) = if before x y then x ∷ y ∷ ys else y ∷ insert x ys

  sort_from : List A → List A → List A
  sort_from out [] = out
  sort_from out (x ∷ xs) = sort_from (insert x out) xs

  unfoldable pub sort : List A → List A
  unfolding sort_from insert
  sort xs = sort_from [] xs

  insert-perm : (x : A) (ys : List A) → Perm (insert x ys) (x ∷ ys)
  unfolding insert
  insert-perm x [] = Perm.refl (x ∷ [])
  insert-perm x (y ∷ ys) = elim (Bool-cases (before x y)) [
    | inl e ↦ rw e (Perm.refl (x ∷ y ∷ ys))
    | inr e ↦ rw e (Perm.trans (Perm.cons y (insert-perm x ys)) (Perm.swap x y ys))
  ]

  sort_from-perm : (out xs : List A) → Perm (sort_from out xs) (out ++ xs)
  unfolding sort_from
  sort_from-perm out [] = rw (append-nil out) (Perm.refl out)
  sort_from-perm out (x ∷ xs) =
      Perm.trans (sort_from-perm (insert x out) xs)
        (Perm.trans (Perm.append_right xs (insert-perm x out)) (Perm.symm (perm_middle out xs)))

  -- Sorting keeps the elements, each as often as before.
  pub sort-perm : (xs : List A) → Perm (sort xs) xs
  unfolding sort
  sort-perm xs = sort_from-perm [] xs

  module _ {κ} (P : A → Type κ) where
    All-insert : (x : A) (ys : List A) → P x → All P ys → All P (insert x ys)
    unfolding insert
    All-insert x [] p h = (p, h)
    All-insert x (y ∷ ys) p (q, h) = elim (Bool-cases (before x y)) [
      | inl e ↦ rw e (p, (q, h))
      | inr e ↦ rw e (q, All-insert x ys p h)
    ]

    All-sort_from : (out xs : List A) → All P out → All P xs → All P (sort_from out xs)
    unfolding sort_from
    All-sort_from out [] h k = h
    All-sort_from out (x ∷ xs) h (p, k) = All-sort_from (insert x out) xs (All-insert x out p h) k

    -- What holds of every element holds after sorting.
    pub All-sort : (xs : List A) → All P xs → All P (sort xs)
    unfolding sort
    All-sort xs h = All-sort_from [] xs tt h

  insert_mem : (x y : A) (ys : List A) → (y ≡ x) ⊎ Memᴰ y ys → Memᴰ y (insert x ys)
  unfolding insert
  insert_mem x y [] (inl e) = Memᴰ.head e
  insert_mem x y [] (inr m) = elim m [ ]
  insert_mem x y (z ∷ zs) h = elim (Bool-cases (before x z)) [
    | inl e ↦ rw e (elim h [ inl k ↦ Memᴰ.head k | inr m ↦ Memᴰ.tail m ])
    | inr e ↦ rw e (later (insert_mem x y zs) h)
  ]
    where
      later :
          ((y ≡ x) ⊎ Memᴰ y zs → Memᴰ y (insert x zs))
          → (y ≡ x) ⊎ Memᴰ y (z ∷ zs)
          → Memᴰ y (z ∷ insert x zs)
      later rest (inl k) = Memᴰ.tail (rest (inl k))
      later rest (inr (Memᴰ.head k)) = Memᴰ.head k
      later rest (inr (Memᴰ.tail m)) = Memᴰ.tail (rest (inr m))

  sort_from_mem : (out xs : List A) (y : A) → Memᴰ y out ⊎ Memᴰ y xs → Memᴰ y (sort_from out xs)
  unfolding sort_from
  sort_from_mem out [] y (inl m) = m
  sort_from_mem out [] y (inr m) = elim m [ ]
  sort_from_mem out (x ∷ xs) y (inl m) =
      sort_from_mem (insert x out) xs y (inl (insert_mem x y out (inr m)))
  sort_from_mem out (x ∷ xs) y (inr (Memᴰ.head e)) =
      sort_from_mem (insert x out) xs y (inl (insert_mem x y out (inl e)))
  sort_from_mem out (x ∷ xs) y (inr (Memᴰ.tail m)) = sort_from_mem (insert x out) xs y (inr m)

  -- A sorted list has the elements of the list.
  pub sort_mem : (xs : List A) (y : A) → Memᴰ y (sort xs) ↔ Memᴰ y xs
  unfolding sort
  sort_mem xs y = (
    All-mem (λ z. Memᴰ z xs) (sort xs) y (All-sort (λ z. Memᴰ z xs) xs (All-self xs)),
    λ m. sort_from_mem [] xs y (inr m),
  )
