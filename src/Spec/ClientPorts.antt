-- ===== src/Spec/ClientPorts.antt =====
-- clients/devbox/src/spec/client-ports.ts: which local port a client dials for each developer.
pub mod Free
pub mod Assignment
pub mod Distinctness
use remote_devbox.Base.{
  ℕ, zero, suc, String, Bool, Option, none, some, List, [], ◌∷◌, ◌==◌, filter, length, one_of, eqb,
  if◌then◌else◌,
}

pub record ClientPortInput : Type 0 where
  pub user : String
  pub desktop_enabled : Bool
  pub client_port : Option ℕ

abbrev pub default_client_port : ℕ
default_client_port = 3389

-- An absent port, or port 0, is falsy.
abbrev pub truthy_port : Option ℕ → Option ℕ
truthy_port none = none
truthy_port (some n) = if eqb n 0 then none else some n

-- `desktops.flatMap((d) => (d.clientPort ? [d.clientPort] : []))`.
abbrev push_port : Option ℕ → List ℕ → List ℕ
push_port none ps = ps
push_port (some p) ps = p ∷ ps

abbrev pub explicit_ports : List ClientPortInput → List ℕ
explicit_ports [] = []
explicit_ports (d ∷ ds) = push_port (truthy_port d.client_port) (explicit_ports ds)

-- `while (taken.has(next)) next++`; the fuel is the number of taken ports.
unfoldable pub next_free : ℕ → List ℕ → ℕ → ℕ
next_free zero taken next = next
next_free (suc fuel) taken next =
    let further = next_free fuel taken (suc next) in if one_of taken next then further else next

-- `out.set(user, port)`.
unfoldable pub set_port : String → ℕ → List (String × ℕ) → List (String × ℕ)
set_port user port [] = (user, port) ∷ []
set_port user port ((u, p) ∷ rest) =
    if u == user then (user, port) ∷ rest else (u, p) ∷ set_port user port rest

-- What the loop changes.
pub record Assigning : Type 0 where
  pub taken : List ℕ
  pub next : ℕ
  pub out : List (String × ℕ)

step_port : Assigning → String → Option ℕ → Assigning
step_port s user (some port) = record s { out = set_port user port s.out }
step_port s user none =
    let free = next_free (length s.taken) s.taken s.next in
    record { taken = free ∷ s.taken; next = free; out = set_port user free s.out }

-- The loop over the desktops.
unfoldable pub assign_from : Assigning → List ClientPortInput → List (String × ℕ)
unfolding step_port
assign_from s [] = s.out
assign_from s (d ∷ ds) = assign_from (step_port s d.user (truthy_port d.client_port)) ds

unfoldable pub desktops_of : List ClientPortInput → List ClientPortInput
desktops_of devs = filter (λ (d : ClientPortInput). d.desktop_enabled) devs

unfoldable pub assign_client_ports : List ClientPortInput → List (String × ℕ)
assign_client_ports devs =
    assign_from
      (record { taken = explicit_ports (desktops_of devs); next = default_client_port; out = [] })
      (desktops_of devs)
