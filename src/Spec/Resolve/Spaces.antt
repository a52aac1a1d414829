-- ===== src/Spec/Resolve/Spaces.antt =====
-- The memory space of a project is one that its developer declares.
use remote_devbox.Base.{
  inl, inr, String, Bool, true, false, ◌||◌, Option, none, some, List, [], ◌∷◌, ◌==◌, ◌≡◌, refl,
  arith, any, eq_refl, Bool-cases,
}
use remote_devbox.Doctor.Collect.{truthy}
use remote_devbox.Spec.Resolve.{
  by_available, by_fallback, by_override, choose_named, Memory, profile_space, from_agent, literal,
  by_agent, by_project, is_on, by_memory, resolve_memory_space,
}

abbrev pub is_space : List String → String → Bool
is_space spaces value = any (λ s. s == value) spaces

-- What may be written where a space is referred to: nothing, or a name that passes.
abbrev pub IsRef : (String → Bool) → Option String → Type 0
IsRef test none = Unit
IsRef test (some value) = test value ≡ true

-- `isSpaceRef` of references.ts: the literal `none`, or a declared space.
abbrev pub is_space_ref : List String → String → Bool
is_space_ref spaces value = value == "none" || is_space spaces value

literal-declared :
    (spaces : List String) (space v : String)
    → is_space_ref spaces space ≡ true
    → literal space ≡ some v
    → is_space spaces v ≡ true
literal-declared spaces space v h e = elim (Bool-cases (space == "none")) [
  | inl k ↦ absurd (let r = rw k at e in cc)
  | inr k ↦ let same : space ≡ v = (let r = rw k at e in cc) in rw⁻¹ same (ground arith)
]

by_available-declared :
    (spaces : List String) (path what v : String)
    → (by_available spaces path what).value ≡ some v
    → is_space spaces v ≡ true
unfolding by_available
by_available-declared [] path what v e = absurd (cc)
by_available-declared (one ∷ []) path what v e =
    let same : one ≡ v = cc in rw (same, eq_refl v) refl
by_available-declared (one ∷ two ∷ more) path what v e = absurd (cc)

by_fallback-declared :
    (o : Option String) (spaces : List String) (path what v : String)
    → IsRef (is_space spaces) o
    → (by_fallback o spaces path what).value ≡ some v
    → is_space spaces v ≡ true
unfolding by_fallback
by_fallback-declared none spaces path what v h e = by_available-declared spaces path what v e
by_fallback-declared (some s) spaces path what v h e = let same : s ≡ v = cc in rw⁻¹ same h

by_agent-declared :
    (agent : Option String) (memory : Memory) (path v : String)
    → IsRef (is_space_ref memory.spaces) agent
    → IsRef (is_space memory.spaces) (truthy memory.default_space)
    → (by_agent agent memory path).value ≡ some v
    → is_space memory.spaces v ≡ true
unfolding by_agent choose_named by_override
by_agent-declared none memory path v a d e =
    by_fallback-declared (truthy memory.default_space) memory.spaces path "memory space" v d e
by_agent-declared (some s) memory path v a d e = literal-declared memory.spaces s v a e

by_project-declared :
    (project agent : Option String) (memory : Memory) (path v : String)
    → IsRef (is_space_ref memory.spaces) project
    → IsRef (is_space_ref memory.spaces) agent
    → IsRef (is_space memory.spaces) (truthy memory.default_space)
    → (by_project project agent memory path).value ≡ some v
    → is_space memory.spaces v ≡ true
unfolding by_project
by_project-declared none agent memory path v p a d e = by_agent-declared agent memory path v a d e
by_project-declared (some s) agent memory path v p a d e = literal-declared memory.spaces s v p e

-- The space that a profile pins is `none` or declared.
abbrev pub AreRefs : (String → Bool) → List (String × Option String) → Type 0
AreRefs test [] = Unit
AreRefs test ((key, space) ∷ rest) = IsRef test (truthy space) × AreRefs test rest

profile_space-IsRef :
    (test : String → Bool) (name : String) (profiles : List (String × Option String))
    → AreRefs test profiles
    → IsRef test (truthy (profile_space name profiles))
unfolding profile_space
profile_space-IsRef test name [] h = tt
profile_space-IsRef test name ((key, space) ∷ rest) (h, hs) = elim (Bool-cases (key == name)) [
  | inl e ↦ rw e h
  | inr e ↦ rw e (profile_space-IsRef test name rest hs)
]

from_agent-IsRef :
    (test : String → Bool) (o : Option String) (profiles : List (String × Option String))
    → AreRefs test profiles
    → IsRef test (truthy (from_agent o profiles))
unfolding from_agent
from_agent-IsRef test none profiles h = tt
from_agent-IsRef test (some name) profiles h = profile_space-IsRef test name profiles h

on : (o : Option Bool) → is_on o ≡ true → o ≡ some true
unfolding is_on
on none h = absurd (cc)
on (some false) h = absurd (cc)
on (some true) h = refl

-- Where the project's space and those that the profiles pin are `none` or declared, and the default
-- space is a declared one, a space that is resolved is a declared one, whatever was pinned.
pub resolve_memory_space-declared :
    (memory : Memory) (profiles : List (String × Option String)) (project agent : Option String)
    (path v : String)
    → IsRef (is_space_ref memory.spaces) (truthy project)
    → AreRefs (is_space_ref memory.spaces) profiles
    → IsRef (is_space memory.spaces) (truthy memory.default_space)
    → (resolve_memory_space
        (record { memory = some memory; agent_profiles = profiles })
        project
        agent
        path).value
      ≡ some v
    → (memory.enabled ≡ some true) × (is_space memory.spaces v ≡ true)
unfolding resolve_memory_space by_memory
resolve_memory_space-declared memory profiles project agent path v p a d e =
    elim (Bool-cases (is_on memory.enabled)) [
      | inl k ↦ (
        on memory.enabled k,
        by_project-declared (truthy project) (truthy (from_agent (truthy agent) profiles)) memory
            path v p (from_agent-IsRef (is_space_ref memory.spaces) (truthy agent) profiles a) d
            (rw k at e),
      )
      | inr k ↦ absurd (let r = rw k at e in cc)
    ]
