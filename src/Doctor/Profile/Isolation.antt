-- ===== src/Doctor/Profile/Isolation.antt =====
-- What the status of an account's components says of the account.
use remote_devbox.Base.{
  ℕ, String, Bool, true, false, not, Option, none, some, List, [], ◌∷◌, ◌≡◌, refl, ◌||◌, ◌==◌, eqb,
  any, is_some, map, words, Bool-cases, inl, inr,
}
use remote_devbox.Doctor.Types.{HealthResult, HealthStatus, healthy, failed, unknown}
use remote_devbox.Doctor.Profile.{
  ProfileProbe, SudoAnswer, allowed, denied, unsure, Observation, worst, check_mode, check_sudo,
  check_groups, in_docker, isolation, resources, profile_result, collect_profile_components,
}

-- Failed where a fault is seen, and else unknown where something could not be seen.
abbrev pub verdict : (fault missing : Bool) → HealthStatus
verdict true missing = failed
verdict false true = unknown
verdict false false = healthy

abbrev pub is_other : ℕ → Option ℕ → Bool
is_other wanted none = false
is_other wanted (some mode) = not (eqb mode wanted)

abbrev pub is_allowed : SudoAnswer → Bool
is_allowed allowed = true
is_allowed _ = false

abbrev pub is_unsure : SudoAnswer → Bool
is_unsure unsure = true
is_unsure _ = false

abbrev pub has_docker : Option (List String) → Bool
has_docker none = false
has_docker (some groups) = in_docker groups

-- The account is less closed than it should be: another mode or umask, sudo without a password, or
-- the docker group.
abbrev pub is_breached : ProfileProbe → Bool
is_breached probe =
    is_other 448 probe.home_mode
    || is_other 63 probe.umask
    || is_allowed probe.sudo
    || has_docker probe.groups

-- Something of it could not be read.
abbrev pub is_unseen : ProfileProbe → Bool
is_unseen probe =
    not (is_some probe.home_mode)
    || not (is_some probe.umask)
    || is_unsure probe.sudo
    || not (is_some probe.groups)

worst-failed : (f m : Bool) → worst (verdict f m) failed ≡ verdict (f || true) (m || false)
unfolding worst
worst-failed true m = refl
worst-failed false true = refl
worst-failed false false = refl

worst-unknown : (f m : Bool) → worst (verdict f m) unknown ≡ verdict (f || false) (m || true)
unfolding worst
worst-unknown true m = refl
worst-unknown false true = refl
worst-unknown false false = refl

kept : (f m : Bool) → verdict f m ≡ verdict (f || false) (m || false)
kept true m = refl
kept false true = refl
kept false false = refl

check_mode-verdict :
    (label : String) (wanted : ℕ) (mode : Option ℕ) (o : Observation) (f m : Bool)
    → o.status ≡ verdict f m
    → (check_mode label wanted mode o).status
      ≡ verdict (f || is_other wanted mode) (m || not (is_some mode))
unfolding check_mode
check_mode-verdict label wanted none o f m h = rw h (worst-unknown f m)
check_mode-verdict label wanted (some mode) o f m h = elim (Bool-cases (eqb mode wanted)) [
  | inl e ↦ rw (e, h) (kept f m)
  | inr e ↦ rw (e, h) (worst-failed f m)
]

check_sudo-verdict :
    (sudo : SudoAnswer) (o : Observation) (f m : Bool)
    → o.status ≡ verdict f m
    → (check_sudo sudo o).status ≡ verdict (f || is_allowed sudo) (m || is_unsure sudo)
unfolding check_sudo
check_sudo-verdict allowed o f m h = rw h (worst-failed f m)
check_sudo-verdict denied o f m h = rw h (kept f m)
check_sudo-verdict unsure o f m h = rw h (worst-unknown f m)

check_groups-verdict :
    (groups : Option (List String)) (o : Observation) (f m : Bool)
    → o.status ≡ verdict f m
    → (check_groups groups o).status ≡ verdict (f || has_docker groups) (m || not (is_some groups))
unfolding check_groups
check_groups-verdict none o f m h = rw h (worst-unknown f m)
check_groups-verdict (some groups) o f m h = elim (Bool-cases (in_docker groups)) [
  | inl e ↦ rw (e, h) (worst-failed f m)
  | inr e ↦ rw (e, h) (kept f m)
]

isolation-verdict :
    (probe : ProfileProbe)
    → (isolation probe).status ≡ verdict (is_breached probe) (is_unseen probe)
unfolding isolation
isolation-verdict probe = check_groups-verdict probe.groups _ _ _ (
    check_sudo-verdict probe.sudo _ _ _ (
      check_mode-verdict "umask" 63 probe.umask _ _ _ (
        check_mode-verdict "home mode" 448 probe.home_mode
          (record { status = healthy; observed = [] }) false false refl)))

abbrev pub lacks_memory : Option String → Bool
lacks_memory none = false
lacks_memory (some controllers) = not (any (λ w. w == "memory") (words controllers))

resources-verdict :
    (o : Option String) → (resources o).status ≡ verdict (lacks_memory o) (not (is_some o))
unfolding resources
resources-verdict none = refl
resources-verdict (some controllers) =
    elim (Bool-cases (any (λ w. w == "memory") (words controllers))) [
      | inl e ↦ rw e refl
      | inr e ↦ rw e refl
    ]

-- The isolation of an account is failed just when its home directory's mode is not 0700, its umask
-- not 0077, it may use sudo without a password or is in the docker group, and else unknown just
-- when one of these could not be read; its resources are failed just when the controllers that were
-- read lack the memory one, and else unknown just when they could not be read. Else they are healthy.
pub collect_profile_components-verdict :
    (profile : String) (probe : ProfileProbe)
    → map (λ (c : HealthResult). c.status) (collect_profile_components profile probe)
      ≡ verdict (is_breached probe) (is_unseen probe)
        ∷ verdict (lacks_memory probe.cgroup_controllers) (not (is_some probe.cgroup_controllers))
        ∷ []
unfolding collect_profile_components profile_result
collect_profile_components-verdict profile probe =
    rw (isolation-verdict probe, resources-verdict probe.cgroup_controllers) refl
