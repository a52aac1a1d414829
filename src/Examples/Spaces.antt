-- ===== src/Examples/Spaces.antt =====
-- The memory space of a project whose developer's work profile pins one.
use remote_devbox.Base.{String, true, Option, none, some, List, [], ◌∷◌, ◌≡◌, refl}
use remote_devbox.Spec.Resolve.{Memory, resolve_memory_space, profile_space, choose_named}
use remote_devbox.Spec.Resolve.Spaces.{is_space, resolve_memory_space-declared}

abbrev memory : Memory
memory = record {
  enabled = some true;
  default_space = some "shared";
  spaces = "shared" ∷ "work" ∷ [];
}

abbrev profiles : List (String × Option String)
profiles = ("home", none) ∷ ("job", some "work") ∷ []

pinned :
    (resolve_memory_space
      (record { memory = some memory; agent_profiles = profiles })
      none
      (some "job")
      "p").value
    ≡ some "work"
unfolding resolve_memory_space profile_space
pinned = refl

-- The literal `none` as the default space is taken for the name of a space.
default_none :
    (resolve_memory_space
      (record {
        memory = some (record memory { default_space = some "none" });
        agent_profiles = [];
      })
      none
      none
      "p").value
    ≡ some "none"
unfolding resolve_memory_space choose_named
default_none = refl

resolve_memory_space-declared_example :
    (memory.enabled ≡ some true) × (is_space memory.spaces "work" ≡ true)
resolve_memory_space-declared_example =
    resolve_memory_space-declared memory profiles none (some "job") "p" "work" tt (tt, (refl, tt))
      refl pinned
