-- ===== src/Base/Lists.antt =====
-- Lists measured by native numbers, Boolean searches, and predicates by recursion.
use Prim.Native.Nat.{ℕ, suc, ◌+◌}
use mathlib.Core.Path.{◌≡◌, refl}
use mathlib.Core.Logic.{◌↔◌, ◌⊎◌, inl, inr}
use mathlib.Core.Bool.{Bool, true, false, ◌&&◌, ◌||◌}
use mathlib.Core.Option.{Option, none, some}
use mathlib.Core.List.{List, [], ◌∷◌, ◌++◌, Memᴰ}
use native.Mathlib.Omega.{arith}
use remote_devbox.Base.Tests.{if◌then◌else◌, Bool-cases}

module _ {ℓ} {A : Type ℓ} where
  abbrev pub length : List A → ℕ
  length [] = 0
  length (x ∷ xs) = suc (length xs)

  abbrev pub any : (A → Bool) → List A → Bool
  any p [] = false
  any p (x ∷ xs) = p x || any p xs

  abbrev pub all : (A → Bool) → List A → Bool
  all p [] = true
  all p (x ∷ xs) = p x && all p xs

  -- `array.find(p)`.
  abbrev pub find : (A → Bool) → List A → Option A
  find p [] = none
  find p (x ∷ xs) = if p x then some x else find p xs

  -- `array.filter(p)`.
  abbrev pub filter : (A → Bool) → List A → List A
  filter p [] = []
  filter p (x ∷ xs) = if p x then x ∷ filter p xs else filter p xs

  abbrev pub is_empty : List A → Bool
  is_empty [] = true
  is_empty (_ ∷ _) = false

  pub length-append : (xs ys : List A) → length (xs ++ ys) ≡ length xs + length ys
  length-append [] ys = omega arith
  length-append (x ∷ xs) ys = omega (arith, length-append xs ys)

  pub find-test : (p : A → Bool) (xs : List A) (x : A) → find p xs ≡ some x → p x ≡ true
  find-test p [] x h = ground arith
  find-test p (y ∷ ys) x h = ground (arith, find-test p ys x)

  pub find-mem : (p : A → Bool) (xs : List A) (x : A) → find p xs ≡ some x → Memᴰ x xs
  find-mem p [] x h = ground arith
  find-mem p (y ∷ ys) x h = elim (Bool-cases (p y)) [
    | inl e ↦ Memᴰ.head (ground arith)
    | inr e ↦ Memᴰ.tail (find-mem p ys x (ground arith))
  ]

  pub any_of_Memᴰ : (p : A → Bool) (xs : List A) (x : A) → Memᴰ x xs → p x ≡ true → any p xs ≡ true
  any_of_Memᴰ p [] x m h = elim m [ ]
  any_of_Memᴰ p (y ∷ ys) x (Memᴰ.head e) h = ground arith
  any_of_Memᴰ p (y ∷ ys) x (Memᴰ.tail m) h = ground (arith, any_of_Memᴰ p ys x m)

module _ {ℓ} {A : Type ℓ} where
  -- `if (x) out.push(x)` before the rest of a loop.
  abbrev pub push_some : Option A → List A → List A
  push_some none xs = xs
  push_some (some x) xs = x ∷ xs

  pub push_some_mem :
      (o : Option A) (xs : List A) (x : A) → Memᴰ x (push_some o xs) ↔ ((o ≡ some x) ⊎ Memᴰ x xs)
  push_some_mem none xs x = (λ m. inr m, λ h. elim h [ inl e ↦ cc | inr m ↦ m ])
  push_some_mem (some y) xs x = (to, from)
    where
      to : Memᴰ x (y ∷ xs) → (some y ≡ some x) ⊎ Memᴰ x xs
      to (Memᴰ.head e) = inl (ground arith)
      to (Memᴰ.tail m) = inr m

      from : (some y ≡ some x) ⊎ Memᴰ x xs → Memᴰ x (y ∷ xs)
      from (inl e) = Memᴰ.head (ground arith)
      from (inr m) = Memᴰ.tail m

  append_mem_cases : (xs ys : List A) (x : A) → Memᴰ x (xs ++ ys) → Memᴰ x xs ⊎ Memᴰ x ys
  append_mem_cases [] ys x m = inr m
  append_mem_cases (z ∷ xs) ys x (Memᴰ.head e) = inl (Memᴰ.head e)
  append_mem_cases (z ∷ xs) ys x (Memᴰ.tail m) = elim (append_mem_cases xs ys x m) [
    | inl k ↦ inl (Memᴰ.tail k)
    | inr k ↦ inr k
  ]

  append_mem_left : (xs ys : List A) (x : A) → Memᴰ x xs → Memᴰ x (xs ++ ys)
  append_mem_left [] ys x m = elim m [ ]
  append_mem_left (z ∷ xs) ys x (Memᴰ.head e) = Memᴰ.head e
  append_mem_left (z ∷ xs) ys x (Memᴰ.tail m) = Memᴰ.tail (append_mem_left xs ys x m)

  append_mem_right : (xs ys : List A) (x : A) → Memᴰ x ys → Memᴰ x (xs ++ ys)
  append_mem_right [] ys x m = m
  append_mem_right (z ∷ xs) ys x m = Memᴰ.tail (append_mem_right xs ys x m)

  pub append_mem : (xs ys : List A) (x : A) → Memᴰ x (xs ++ ys) ↔ (Memᴰ x xs ⊎ Memᴰ x ys)
  append_mem xs ys x = (
    append_mem_cases xs ys x,
    λ h. elim h [ inl m ↦ append_mem_left xs ys x m | inr m ↦ append_mem_right xs ys x m ],
  )

module _ {ℓ} {A : Type ℓ} where
  pub append-empty_iff : (xs ys : List A) → (xs ++ ys ≡ []) ↔ ((xs ≡ []) × (ys ≡ []))
  append-empty_iff [] ys = (λ h. (refl, h), λ h. h.1)
  append-empty_iff (x ∷ xs) ys = (λ h. absurd (cc), λ h. absurd (let e = h.0 in cc))

module _ {ℓ κ} {A : Type ℓ} (P : A → Type κ) where
  abbrev pub All : List A → Type κ
  All [] = Unit
  All (x ∷ xs) = P x × All xs

  pub All-append : (xs ys : List A) → All xs → All ys → All (xs ++ ys)
  All-append [] ys h k = k
  All-append (x ∷ xs) ys (p, h) k = (p, All-append xs ys h k)

  pub All-append_iff : (xs ys : List A) → All (xs ++ ys) ↔ (All xs × All ys)
  All-append_iff [] ys = (λ h. (tt, h), λ h. h.1)
  All-append_iff (x ∷ xs) ys =
      let (to, from) = All-append_iff xs ys in
      (λ (h, k). ((h, (to k).0), (to k).1), λ ((h, k), l). (h, from (k, l)))

  pub All-mem : (xs : List A) (x : A) → All xs → Memᴰ x xs → P x
  All-mem [] x h m = elim m [ ]
  All-mem (y ∷ ys) x (p, h) (Memᴰ.head e) = rw e p
  All-mem (y ∷ ys) x (p, h) (Memᴰ.tail m) = All-mem ys x h m

  pub All-filter : (q : A → Bool) (xs : List A) → All xs → All (filter q xs)
  All-filter q [] h = tt
  All-filter q (x ∷ xs) (p, h) = elim (Bool-cases (q x)) [
    | inl e ↦ rw e (p, All-filter q xs h)
    | inr e ↦ rw e (All-filter q xs h)
  ]

module _ {ℓ} {A : Type ℓ} where
  All-tail : (x : A) (ys xs : List A) → All (λ z. Memᴰ z xs) ys → All (λ z. Memᴰ z (x ∷ xs)) ys
  All-tail x [] xs h = tt
  All-tail x (y ∷ ys) xs (m, h) = (Memᴰ.tail m, All-tail x ys xs h)

  pub All-self : (xs : List A) → All (λ z. Memᴰ z xs) xs
  All-self [] = tt
  All-self (x ∷ xs) = (Memᴰ.head refl, All-tail x xs xs (All-self xs))

  keep_mem :
      (q : A → Bool) (x y : A) (xs : List A) → Memᴰ y (filter q xs) → Memᴰ y (filter q (x ∷ xs))
  keep_mem q x y xs m = elim (Bool-cases (q x)) [ inl e ↦ rw e (Memᴰ.tail m) | inr e ↦ rw e m ]

  filter_mem_of :
      (q : A → Bool) (xs : List A) (y : A) → Memᴰ y xs → q y ≡ true → Memᴰ y (filter q xs)
  filter_mem_of q [] y m h = elim m [ ]
  filter_mem_of q (x ∷ xs) y (Memᴰ.head e) h = let k : q x ≡ true = rw e at h in rw k (Memᴰ.head e)
  filter_mem_of q (x ∷ xs) y (Memᴰ.tail m) h = keep_mem q x y xs (filter_mem_of q xs y m h)

  filter_mem_to :
      (q : A → Bool) (xs : List A) (y : A) → Memᴰ y (filter q xs) → Memᴰ y xs × (q y ≡ true)
  filter_mem_to q [] y m = elim m [ ]
  filter_mem_to q (x ∷ xs) y m = elim (Bool-cases (q x)) [
    | inr e ↦ let (k, h) = filter_mem_to q xs y (rw e at m) in (Memᴰ.tail k, h)
    | inl e ↦ first e (filter_mem_to q xs y) (rw e at m)
  ]
    where
      first :
          q x ≡ true
          → (Memᴰ y (filter q xs) → Memᴰ y xs × (q y ≡ true))
          → Memᴰ y (x ∷ filter q xs)
          → Memᴰ y (x ∷ xs) × (q y ≡ true)
      first e rest (Memᴰ.head k) = (Memᴰ.head k, rw k e)
      first e rest (Memᴰ.tail k) = let (n, h) = rest k in (Memᴰ.tail n, h)

  pub filter_mem :
      (q : A → Bool) (xs : List A) (y : A) → Memᴰ y (filter q xs) ↔ (Memᴰ y xs × (q y ≡ true))
  filter_mem q xs y = (filter_mem_to q xs y, λ (m, h). filter_mem_of q xs y m h)
