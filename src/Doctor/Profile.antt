-- ===== src/Doctor/Profile.antt =====
-- box/doctor/src/profile.ts: the health of a developer's account. What the probe of the account
-- gives is a record; in the probe of the system, `none` stands for a call that throws.
pub mod Isolation
use remote_devbox.Base.{
  ℕ, zero, suc, ◌+◌, ◌/◌, ◌%◌, String, Bool, true, false, not, Option, none, some, List, [], ◌∷◌,
  ◌++◌, ◌==◌, concat, any, filter, eqb, ltb, words, trim, ◌≡◌, refl, ◌&&◌, if◌then◌else◌,
}
use Prim.Native.String
use remote_devbox.Doctor.Types.{
  HealthResult, HealthStatus, healthy, degraded, recovering, blocked, failed, unknown,
  RecoveryPolicy,
}
use remote_devbox.Doctor.Collect.{CommandResult}

pub data SudoAnswer : Type 0 where
  allowed denied unsure : SudoAnswer

pub record ProfileProbe : Type 0 where
  pub home_mode : Option ℕ
  pub umask : Option ℕ
  pub sudo : SudoAnswer
  pub groups : Option (List String)
  pub cgroup_controllers : Option String

abbrev pub rank : HealthStatus → ℕ
rank healthy = 0
rank recovering = 1
rank degraded = 2
rank unknown = 3
rank blocked = 4
rank failed = 5

unfoldable pub worst : HealthStatus → HealthStatus → HealthStatus
worst a b = if ltb (rank a) (rank b) then b else a

octal_digit : ℕ → String
octal_digit zero = "0"
octal_digit (suc zero) = "1"
octal_digit (suc (suc zero)) = "2"
octal_digit (suc (suc (suc zero))) = "3"
octal_digit (suc (suc (suc (suc zero)))) = "4"
octal_digit (suc (suc (suc (suc (suc zero))))) = "5"
octal_digit (suc (suc (suc (suc (suc (suc zero)))))) = "6"
octal_digit _ = "7"

-- `value.toString(8).padStart(4, "0")`: the digits from the last one, at least `pad` of them; a
-- number has no more digits than itself and one.
octal_from : ℕ → ℕ → ℕ → String → String
unfolding octal_digit
octal_from zero pad n out = out
octal_from (suc fuel) pad n out =
    let more = octal_from fuel (pred pad) (n / 8) (String.◌++◌ (octal_digit (n % 8)) out) in
    if eqb n 0 && eqb pad 0 then out else more
  where
    pred : ℕ → ℕ
    pred zero = zero
    pred (suc k) = k

unfoldable pub octal : ℕ → String
unfolding octal_from
octal n = octal_from (n + 5) 4 n ""

-- The two variables that the checks of the isolation change.
pub record Observation : Type 0 where
  pub status : HealthStatus
  pub observed : List String

abbrev pub seen : HealthStatus → String → Observation → Observation
seen status words o = record { status = worst o.status status; observed = o.observed ++ words ∷ [] }

abbrev pub noted : String → Observation → Observation
noted words o = record o { observed = o.observed ++ words ∷ [] }

-- A mode that should be `wanted`, a home directory's or a umask.
unfoldable pub check_mode : String → ℕ → Option ℕ → Observation → Observation
unfolding worst octal
check_mode label wanted none o = seen unknown (concat (label ∷ " unavailable" ∷ [])) o
check_mode label wanted (some mode) o =
    let words = concat (label ∷ " " ∷ octal mode ∷ []) in
    if eqb mode wanted then noted words o else seen failed words o

unfoldable pub check_sudo : SudoAnswer → Observation → Observation
unfolding worst
check_sudo allowed o = seen failed "passwordless sudo allowed" o
check_sudo denied o = noted "passwordless sudo denied" o
check_sudo unsure o = seen unknown "passwordless sudo unknown" o

abbrev pub in_docker : List String → Bool
in_docker groups = any (λ g. g == "docker") groups

unfoldable pub check_groups : Option (List String) → Observation → Observation
unfolding worst
check_groups none o = seen unknown "group membership unavailable" o
check_groups (some groups) o =
    if in_docker groups then seen failed "docker group present" o else noted "docker group absent" o

unfoldable pub isolation : ProfileProbe → Observation
unfolding check_mode check_sudo check_groups
isolation probe = check_groups probe.groups (
    check_sudo probe.sudo (
      check_mode "umask" 63 probe.umask
        (check_mode "home mode" 448 probe.home_mode (record { status = healthy; observed = [] }))))

abbrev pub or_none : String → String
or_none controllers = if controllers == "" then "none" else controllers

unfoldable pub resources : Option String → Observation
resources none = record { status = unknown; observed = "cgroup controllers unavailable" ∷ [] }
resources (some controllers) =
    if any (λ w. w == "memory") (words controllers)
    then record {
      status = healthy;
      observed = concat ("delegated controllers: " ∷ controllers ∷ []) ∷ [];
    }
    else record {
      status = failed;
      observed = concat ("delegated controllers: " ∷ or_none controllers ∷ []) ∷ [];
    }

-- No reason of a healthy component; one for a failed one and one for any other.
abbrev pub reason_for : HealthStatus → String → Option String
reason_for healthy broken = none
reason_for failed broken = some broken
reason_for _ broken = some "profile_evidence_unavailable"

unfoldable pub profile_result : String → String → List String → String → Observation → HealthResult
profile_result profile part expected broken o = record {
  id = concat ("profile." ∷ profile ∷ "." ∷ part ∷ []);
  profile = some profile;
  status = o.status;
  expected = expected;
  observed = o.observed;
  reason = reason_for o.status broken;
  recovery = RecoveryPolicy.none;
}

unfoldable pub collect_profile_components : String → ProfileProbe → List HealthResult
unfolding profile_result isolation resources
collect_profile_components profile probe =
    profile_result profile "isolation"
      ("home mode 0700" ∷ "umask 0077" ∷ "passwordless sudo denied" ∷ "docker group absent" ∷ [])
      "profile_isolation_failed" (isolation probe)
    ∷ profile_result profile "resources" ("memory cgroup controller delegated" ∷ [])
        "cgroup_not_delegated" (resources probe.cgroup_controllers)
    ∷ []

-- What the system gives to the probe: the whole mode of the home directory, the umask, the runs of
-- `sudo -n true` and `id -nG`, the user id, and the text of the user's cgroup.controllers.
pub record SystemAnswers : Type 0 where
  pub stat_mode : Option ℕ
  pub process_umask : ℕ
  pub sudo_run : Option CommandResult
  pub id_run : Option CommandResult
  pub uid : Option ℕ
  pub controllers_file : Option String

abbrev pub exits_zero : CommandResult → Bool
exits_zero result = elim result.exit_code [ none ↦ false | some code ↦ eqb code 0 ]

unfoldable pub sudo_answer : Option CommandResult → SudoAnswer
sudo_answer none = denied
sudo_answer (some result) = if exits_zero result then allowed else denied

unfoldable pub group_names : Option CommandResult → Option (List String)
group_names none = none
group_names (some result) =
    if exits_zero result
    then some (filter (λ g. not (g == "")) (words (trim result.stdout)))
    else none

unfoldable pub controllers_of : Option ℕ → Option String → Option String
controllers_of (some uid) (some text) = some (trim text)
controllers_of _ _ = none

-- `mode & 0o777` is the rest by 512.
abbrev pub permissions : Option ℕ → Option ℕ
permissions none = none
permissions (some mode) = some (mode % 512)

unfoldable pub system_profile_probe : SystemAnswers → ProfileProbe
unfolding sudo_answer group_names controllers_of
system_profile_probe answers = record {
  home_mode = permissions answers.stat_mode;
  umask = some answers.process_umask;
  sudo = sudo_answer answers.sudo_run;
  groups = group_names answers.id_run;
  cgroup_controllers = controllers_of answers.uid answers.controllers_file;
}

octal_test : octal 448 ≡ "0700"
unfolding octal
octal_test = refl

octal_long_test : octal 33216 ≡ "100700"
unfolding octal
octal_long_test = refl
