-- ===== src/Spec/ClientPorts/Assignment.antt =====
-- The ports that the loop hands out.
use mathlib.Core.List.{append-nil, append_assoc}
use remote_devbox.Base.{
  sym, ◌∙◌, ap, ◌||◌, ℕ, ◌≤◌, ◌<◌, String, Bool, true, false, none, some, List, [], ◌∷◌, ◌++◌, ◌≡◌,
  refl, arith, ◌==◌, length, one_of, leb, eqb, Bool-cases, Option-cases, All,
}
use mathlib.Core.Logic.{◌⊎◌, inl, inr}
use remote_devbox.Spec.ClientPorts.{
  ClientPortInput, default_client_port, truthy_port, explicit_ports, next_free, set_port, Assigning,
  step_port, assign_from, assign_client_ports, desktops_of,
}
use remote_devbox.Spec.ClientPorts.Free.{
  next_free-free, next_free-above, next_free-lowest, above-length,
}

or_right : (a b : Bool) → b ≡ true → (a || b) ≡ true
or_right a b h = ground arith

or_left : (a b : Bool) → (a || b) ≡ false → a ≡ false
or_left a b h = ground arith

-- A port that is at or above the default, is not taken, and has every port between taken.
abbrev pub IsLowest : List ℕ → ℕ → Type 0
IsLowest taken p =
    (default_client_port ≤ p)
    × (one_of taken p ≡ false)
    × ((m : ℕ) → default_client_port ≤ m → m < p → one_of taken m ≡ true)

-- The desktops get their ports in order: the explicit one, or the lowest that is free by then.
abbrev pub IsAssigned : List ℕ → List ClientPortInput → List (String × ℕ) → Type 0
IsAssigned taken [] [] = Unit
IsAssigned taken [] (_ ∷ _) = ⊥
IsAssigned taken (_ ∷ _) [] = ⊥
IsAssigned taken (d ∷ ds) ((user, p) ∷ rest) =
    (user ≡ d.user)
    × (((truthy_port d.client_port ≡ some p) × IsAssigned taken ds rest)
        ⊎ ((truthy_port d.client_port ≡ none) × IsLowest taken p × IsAssigned (p ∷ taken) ds rest))

-- No two of the inputs have the same user.
abbrev pub DistinctUsers : List ClientPortInput → Type 0
DistinctUsers [] = Unit
DistinctUsers (d ∷ ds) =
    All (λ (e : ClientPortInput). (d.user == e.user) ≡ false) ds × DistinctUsers ds

abbrev has_user : String → List (String × ℕ) → Bool
has_user user [] = false
has_user user ((u, p) ∷ rest) = (u == user) || has_user user rest

set_port-append :
    (user : String) (port : ℕ) (out : List (String × ℕ))
    → has_user user out ≡ false
    → set_port user port out ≡ out ++ (user, port) ∷ []
unfolding set_port
set_port-append user port [] h = refl
set_port-append user port ((u, p) ∷ rest) h =
    rw (or_left (u == user) (has_user user rest) h)
      (ap (λ o. (u, p) ∷ o) (set_port-append user port rest (ground arith)))

has_user-append :
    (user u : String) (port : ℕ) (out : List (String × ℕ))
    → has_user user out ≡ false
    → (u == user) ≡ false
    → has_user user (out ++ (u, port) ∷ []) ≡ false
has_user-append user u port [] h k = ground arith
has_user-append user u port ((v, p) ∷ rest) h k = ground (arith, has_user-append user u port rest)

still_fresh :
    (u : String) (port : ℕ) (out : List (String × ℕ)) (ds : List ClientPortInput)
    → All (λ (e : ClientPortInput). has_user e.user out ≡ false) ds
    → All (λ (e : ClientPortInput). (u == e.user) ≡ false) ds
    → All (λ (e : ClientPortInput). has_user e.user (out ++ (u, port) ∷ []) ≡ false) ds
still_fresh u port out [] h k = tt
still_fresh u port out (e ∷ ds) (h, hs) (k, ks) =
    (has_user-append e.user u port out h k, still_fresh u port out ds hs ks)

-- No port from the default up to the next candidate is free.
abbrev IsExhausted : Assigning → Type 0
IsExhausted s =
    (default_client_port ≤ s.next)
    × ((m : ℕ) → default_client_port ≤ m → m < s.next → one_of s.taken m ≡ true)

next_free-IsLowest :
    (s : Assigning) → IsExhausted s → IsLowest s.taken (next_free (length s.taken) s.taken s.next)
next_free-IsLowest s (low, used) = (
  omega (arith, next_free-above (length s.taken) s.taken s.next),
  next_free-free (length s.taken) s.taken s.next (above-length s.next s.taken),
  λ m h k. elim (Bool-cases (leb s.next m)) [
    | inl e ↦ next_free-lowest (length s.taken) s.taken s.next m (ground arith) k
    | inr e ↦ used m h (ground arith)
  ],
)

-- The bindings that a run of the loop adds to those before it.
abbrev IsGrown : List ℕ → List ClientPortInput → List (String × ℕ) → List (String × ℕ) → Type 0
IsGrown taken ds before after =
    (bs : List (String × ℕ)) × (after ≡ before ++ bs) × IsAssigned taken ds bs

grow :
    (u : String) (port : ℕ) (before after : List (String × ℕ)) (bs : List (String × ℕ))
    → has_user u before ≡ false
    → after ≡ set_port u port before ++ bs
    → after ≡ before ++ (u, port) ∷ bs
grow u port before after bs fresh h =
    h
    ∙ ap (λ o. o ++ bs) (set_port-append u port before fresh)
    ∙ append_assoc before ((u, port) ∷ []) bs

assign_from-IsAssigned :
    (s : Assigning) (ds : List ClientPortInput)
    → All (λ (e : ClientPortInput). has_user e.user s.out ≡ false) ds
    → DistinctUsers ds
    → IsExhausted s
    → IsGrown s.taken ds s.out (assign_from s ds)
unfolding assign_from step_port
assign_from-IsAssigned s [] fresh distinct low = ([], sym (append-nil s.out), tt)
assign_from-IsAssigned s (d ∷ ds) (fresh, later) (apart, distinct) low =
    elim (Option-cases (truthy_port d.client_port)) [
      | inl e ↦
          let free = next_free (length s.taken) s.taken s.next in
          let lowest = next_free-IsLowest s low in
          let (bs, q, r) =
            assign_from-IsAssigned
              (record { taken = free ∷ s.taken; next = free; out = set_port d.user free s.out }) ds
              (rw (set_port-append d.user free s.out fresh)
                (still_fresh d.user free s.out ds later apart))
              distinct (lowest.0, λ m h k. or_right (eqb m free) _ (lowest.2 m h k)) in
          (
            (d.user, free) ∷ bs,
            rw e (grow d.user free s.out _ bs fresh q),
            (refl, inr (e, lowest, r)),
          )
      | inr (p, e) ↦
          let (bs, q, r) =
            assign_from-IsAssigned (record s { out = set_port d.user p s.out }) ds
              (rw (set_port-append d.user p s.out fresh)
                (still_fresh d.user p s.out ds later apart))
              distinct low in
          ((d.user, p) ∷ bs, rw e (grow d.user p s.out _ bs fresh q), (refl, inl (e, r)))
    ]

no_users :
    (ds : List ClientPortInput) → All (λ (e : ClientPortInput). has_user e.user [] ≡ false) ds
no_users [] = tt
no_users (d ∷ ds) = (refl, no_users ds)

-- Where the users of the desktops differ, the map has one port for each desktop, in order: the
-- explicit port where there is one, and otherwise the lowest port from 3389 up that is neither
-- explicit anywhere nor handed out before.
pub assign_client_ports-IsAssigned :
    (devs : List ClientPortInput)
    → DistinctUsers (desktops_of devs)
    → IsAssigned (explicit_ports (desktops_of devs)) (desktops_of devs) (assign_client_ports devs)
unfolding assign_client_ports
assign_client_ports-IsAssigned devs distinct =
    let desktops = desktops_of devs in
    let (bs, q, r) =
      assign_from-IsAssigned
        (record { taken = explicit_ports desktops; next = default_client_port; out = [] }) desktops
        (no_users desktops) distinct (omega arith, λ m h k. absurd (omega arith)) in
    rw q r
