-- ===== src/Spec/References/Wiring/Ports.antt =====
-- The ports of a spec without errors.
use remote_devbox.Base.{
  ℕ, suc, ◌+◌, ◌<◌, String, true, false, List, [], ◌∷◌, ◌++◌, ◌≡◌, ◌≢◌, refl, sym, ap, ◌∙◌, map,
  All, length, length-append, arith,
}
use mathlib.Core.Path.{subst}
use mathlib.Core.List.{map-append}
use remote_devbox.Spec.Issues.{Issue, is_error, has_errors}
use remote_devbox.Spec.PortClaims.{Claim, port_issues}
use remote_devbox.Spec.PortClaims.Collisions.{IsFree, port_issues-empty_iff, port_issues-IsError}
use remote_devbox.Spec.Sections.{ProjectSpec, DeveloperSpec}
use remote_devbox.Spec.References.{port_claims, project_claims, claimed, developer_claims}

-- Issues that are all errors, and no errors: no issues.
pub none_left :
    (issues : List Issue)
    → All (λ i. is_error i ≡ true) issues
    → has_errors issues ≡ false
    → issues ≡ []
unfolding has_errors
none_left [] bad h = refl
none_left (i ∷ is) (bad, _) h = absurd (let k = rw bad at h in cc)

-- Every port that a project of a developer states, in the order of the spec.
abbrev pub project_ports : List ProjectSpec → List ℕ
project_ports [] = []
project_ports (project ∷ rest) = project.ports ++ project_ports rest

abbrev pub developer_ports : List DeveloperSpec → List ℕ
developer_ports [] = []
developer_ports (dev ∷ rest) = project_ports dev.projects ++ developer_ports rest

-- No port of the list is in it twice.
abbrev pub AreApart : List ℕ → Type 0
AreApart [] = Unit
AreApart (port ∷ ports) = All (λ other. other ≢ port) ports × AreApart ports

-- Neither sshd's, nor Eternal Terminal's, nor xRDP's.
abbrev pub IsUnreserved : ℕ → Type 0
IsUnreserved port = (port ≢ 22) × (port ≢ 2022) × (port ≢ 3389)

-- The claims are numbered on from a place.
abbrev AreNumbered : ℕ → List Claim → Type 0
AreNumbered place [] = Unit
AreNumbered place (c ∷ cs) = (c.place ≡ place) × AreNumbered (suc place) cs

AreNumbered-append :
    (place next : ℕ) (cs ds : List Claim)
    → next ≡ place + length cs
    → AreNumbered place cs
    → AreNumbered next ds
    → AreNumbered place (cs ++ ds)
AreNumbered-append place next [] ds e h k =
    subst (λ n. AreNumbered n ds) (let r : next ≡ place = omega arith in r) k
AreNumbered-append place next (c ∷ cs) ds e (same, h) k =
    (same, AreNumbered-append (suc place) next cs ds (omega arith) h k)

-- The claims are those of the ports, in their order.
abbrev AreOf : ℕ → List ℕ → List Claim → Type 0
AreOf place ports cs = AreNumbered place cs × (map (λ (c : Claim). c.port) cs ≡ ports)

port_claims-AreOf :
    (place : ℕ) (path label : String) (ports : List ℕ)
    → AreOf place ports (port_claims place path label ports)
unfolding port_claims
port_claims-AreOf place path label [] = (tt, refl)
port_claims-AreOf place path label (port ∷ ports) =
    let (numbered, same) = port_claims-AreOf (suc place) path label ports in
    ((refl, numbered), ap (λ ps. port ∷ ps) same)

length-ports : (cs : List Claim) → length cs ≡ length (map (λ (c : Claim). c.port) cs)
length-ports [] = refl
length-ports (c ∷ cs) = ap suc (length-ports cs)

AreOf-append :
    (place : ℕ) (ps qs : List ℕ) (cs ds : List Claim)
    → AreOf place ps cs
    → AreOf (place + length ps) qs ds
    → AreOf place (ps ++ qs) (cs ++ ds)
AreOf-append place ps qs cs ds (h, e) (k, f) = (
  AreNumbered-append place (place + length ps) cs ds
      (ap (λ n. place + n) (ap length (sym e) ∙ sym (length-ports cs))) h k,
  map-append (λ (c : Claim). c.port) cs ds
      ∙ ap (λ l. l ++ map (λ (c : Claim). c.port) ds) e
      ∙ ap (λ l. ps ++ l) f,
)

project_claims-AreOf :
    (place j : ℕ) (base user : String) (projects : List ProjectSpec)
    → AreOf place (project_ports projects) (project_claims place j base user projects)
unfolding project_claims
project_claims-AreOf place j base user [] = (tt, refl)
project_claims-AreOf place j base user (project ∷ rest) =
    AreOf-append place project.ports (project_ports rest) _ _
      (port_claims-AreOf place _ _ project.ports)
      (project_claims-AreOf (place + length project.ports) (suc j) base user rest)

claimed-length : (projects : List ProjectSpec) → claimed projects ≡ length (project_ports projects)
claimed-length [] = refl
claimed-length (project ∷ rest) =
    ap (λ n. length project.ports + n) (claimed-length rest)
    ∙ sym (length-append project.ports (project_ports rest))

developer_claims-AreOf :
    (place i : ℕ) (developers : List DeveloperSpec)
    → AreOf place (developer_ports developers) (developer_claims place i developers)
unfolding developer_claims
developer_claims-AreOf place i [] = (tt, refl)
developer_claims-AreOf place i (dev ∷ rest) =
    AreOf-append place (project_ports dev.projects) (developer_ports rest) _ _
      (project_claims-AreOf place 0 _ dev.user dev.projects)
      (subst
        (λ n.
          AreOf (place + n) (developer_ports rest)
            (developer_claims (place + claimed dev.projects) (suc i) rest))
        (claimed-length dev.projects)
        (developer_claims-AreOf (place + claimed dev.projects) (suc i) rest))

-- Claims with later places than a claim that are alone with it are on other ports.
apart_from :
    (claim : Claim) (place : ℕ) (cs : List Claim)
    → claim.place < place
    → AreNumbered place cs
    → All (λ (c : Claim). c.port ≡ claim.port → c.place ≡ claim.place) cs
    → All (λ other. other ≢ claim.port) (map (λ (c : Claim). c.port) cs)
apart_from claim place [] low numbered alone = tt
apart_from claim place (c ∷ cs) low (e, numbered) (here, rest) = (
  λ same. let r = here same in absurd (omega arith),
  apart_from claim (suc place) cs (omega arith) numbered rest,
)

-- Each of the claims is alone among them.
abbrev AreAlone : List Claim → List Claim → Type 0
AreAlone all cs =
    All (λ (x : Claim). All (λ (c : Claim). c.port ≡ x.port → c.place ≡ x.place) all) cs

AreAlone-tail : (x : Claim) (all cs : List Claim) → AreAlone (x ∷ all) cs → AreAlone all cs
AreAlone-tail x all [] h = tt
AreAlone-tail x all (c ∷ cs) (h, hs) = (h.1, AreAlone-tail x all cs hs)

AreApart-ports :
    (place : ℕ) (cs : List Claim)
    → AreNumbered place cs
    → AreAlone cs cs
    → AreApart (map (λ (c : Claim). c.port) cs)
AreApart-ports place [] numbered alone = tt
AreApart-ports place (c ∷ cs) (e, numbered) (here, rest) = (
  apart_from c (suc place) cs (omega arith) numbered here.1,
  AreApart-ports (suc place) cs numbered (AreAlone-tail c cs cs rest),
)

AreFree-parts :
    (all cs : List Claim)
    → All (IsFree all) cs
    → AreAlone all cs × All IsUnreserved (map (λ (c : Claim). c.port) cs)
AreFree-parts all [] h = (tt, tt)
AreFree-parts all (c ∷ cs) ((kept, alone), rest) =
    let (others, free) = AreFree-parts all cs rest in
    ((alone, others), ((ground arith, ground arith, ground arith), free))

-- Without a clash of ports, no port is stated twice and none is one of the box's own.
pub port_issues-AreApart :
    (developers : List DeveloperSpec)
    → has_errors (port_issues (developer_claims 0 0 developers)) ≡ false
    → AreApart (developer_ports developers) × All IsUnreserved (developer_ports developers)
port_issues-AreApart developers h =
    let claims = developer_claims 0 0 developers in
    let (numbered, same) = developer_claims-AreOf 0 0 developers in
    let (alone, free) = AreFree-parts claims claims (
      (port_issues-empty_iff claims).0
        (none_left (port_issues claims) (port_issues-IsError claims) h)) in
    (
      subst AreApart same (AreApart-ports 0 claims numbered alone),
      subst (All IsUnreserved) same free,
    )
