-- ===== src/Spec/ClientPorts/Distinctness.antt =====
-- No two developers get the same local port.
use remote_devbox.Base.{
  ℕ, String, Bool, true, false, none, some, List, [], ◌∷◌, ◌≡◌, refl, arith, map, one_of, eqb,
  eqb_iff, Bool-cases, ◌||◌,
}
use mathlib.Core.Logic.{inl, inr}
use remote_devbox.Spec.ClientPorts.{
  ClientPortInput, truthy_port, explicit_ports, desktops_of, assign_client_ports,
}
use remote_devbox.Spec.ClientPorts.Assignment.{
  IsAssigned, DistinctUsers, assign_client_ports-IsAssigned,
}

-- No port stands twice in the list.
abbrev pub IsUnique : List ℕ → Type 0
IsUnique [] = Unit
IsUnique (p ∷ ps) = (one_of ps p ≡ false) × IsUnique ps

abbrev pub ports_of : List (String × ℕ) → List ℕ
ports_of = map (λ b. b.1)

-- Every explicit port is taken.
abbrev IsTaken : List ClientPortInput → List ℕ → Type 0
IsTaken ds taken = (m : ℕ) → one_of (explicit_ports ds) m ≡ true → one_of taken m ≡ true

module _ (taken : List ℕ) (d : ClientPortInput) (ds : List ClientPortInput) where
  IsTaken-some :
      (p : ℕ)
      → truthy_port d.client_port ≡ some p
      → IsTaken (d ∷ ds) taken
      → (one_of taken p ≡ true) × IsTaken ds taken
  IsTaken-some p e h = (h p (rw e (ground arith)), λ m k. h m (rw e (ground arith)))

  IsTaken-none :
      (p : ℕ) → truthy_port d.client_port ≡ none → IsTaken (d ∷ ds) taken → IsTaken ds (p ∷ taken)
  IsTaken-none p e h m k = ground (arith, h m (rw e k))

differ : (ts : List ℕ) (p q : ℕ) → one_of ts p ≡ true → one_of ts q ≡ false → eqb p q ≡ false
differ ts p q h k = elim (Bool-cases (eqb p q)) [
  | inl e ↦ absurd (let r = rw ((eqb_iff p q).0 e) at h in cc)
  | inr e ↦ e
]

not_asked :
    (taken : List ℕ) (ds : List ClientPortInput) (q : ℕ)
    → IsTaken ds taken
    → one_of taken q ≡ false
    → one_of (explicit_ports ds) q ≡ false
not_asked taken ds q h k = elim (Bool-cases (one_of (explicit_ports ds) q)) [
  | inl e ↦ absurd (let r = h q e in cc)
  | inr e ↦ e
]

or_false : (a b : Bool) → a ≡ false → b ≡ false → (a || b) ≡ false
or_false a b h k = ground arith

or_false_iff : (a b : Bool) → (a || b) ≡ false → (a ≡ false) × (b ≡ false)
or_false_iff a b h = ground arith

-- A taken port that no later desktop asks for is not given to one.
later_apart :
    (taken : List ℕ) (ds : List ClientPortInput) (bs : List (String × ℕ)) (p : ℕ)
    → IsAssigned taken ds bs
    → IsTaken ds taken
    → one_of taken p ≡ true
    → one_of (explicit_ports ds) p ≡ false
    → one_of (ports_of bs) p ≡ false
later_apart taken [] [] p a h t x = refl
later_apart taken [] (b ∷ bs) p a h t x = elim a [ ]
later_apart taken (d ∷ ds) [] p a h t x = elim a [ ]
later_apart taken (d ∷ ds) ((u, q) ∷ bs) p (same, inl (e, a)) h t x =
    let (apart, later) = or_false_iff (eqb p q) _ (rw e at x) in
    or_false (eqb p q) _ apart
      (later_apart taken ds bs p a (IsTaken-some taken d ds q e h).1 t later)
later_apart taken (d ∷ ds) ((u, q) ∷ bs) p (same, inr (e, lowest, a)) h t x =
    or_false (eqb p q) _ (differ taken p q t lowest.1)
      (later_apart (q ∷ taken) ds bs p a (IsTaken-none taken d ds q e h) (ground arith) (rw e at x))

IsAssigned-IsUnique :
    (taken : List ℕ) (ds : List ClientPortInput) (bs : List (String × ℕ))
    → IsAssigned taken ds bs
    → IsTaken ds taken
    → IsUnique (explicit_ports ds)
    → IsUnique (ports_of bs)
IsAssigned-IsUnique taken [] [] a h x = tt
IsAssigned-IsUnique taken [] (b ∷ bs) a h x = elim a [ ]
IsAssigned-IsUnique taken (d ∷ ds) [] a h x = elim a [ ]
IsAssigned-IsUnique taken (d ∷ ds) ((u, q) ∷ bs) (same, inl (e, a)) h x =
    let (apart, unique) = rw e at x in
    let (there, rest) = IsTaken-some taken d ds q e h in
    (later_apart taken ds bs q a rest there apart, IsAssigned-IsUnique taken ds bs a rest unique)
IsAssigned-IsUnique taken (d ∷ ds) ((u, q) ∷ bs) (same, inr (e, lowest, a)) h x =
    let rest = IsTaken-none taken d ds q e h in
    (
      later_apart (q ∷ taken) ds bs q a rest (ground arith)
          (not_asked taken ds q (λ m k. h m (rw e k)) lowest.1),
      IsAssigned-IsUnique (q ∷ taken) ds bs a rest (rw e at x),
    )

-- Where the users of the desktops differ and no two of them ask for the same port, no two of them
-- get the same port.
pub assign_client_ports-IsUnique :
    (devs : List ClientPortInput)
    → DistinctUsers (desktops_of devs)
    → IsUnique (explicit_ports (desktops_of devs))
    → IsUnique (ports_of (assign_client_ports devs))
assign_client_ports-IsUnique devs distinct unique =
    IsAssigned-IsUnique (explicit_ports (desktops_of devs)) (desktops_of devs)
      (assign_client_ports devs) (assign_client_ports-IsAssigned devs distinct) (λ m h. h) unique
