-- ===== src/Examples/Profiles.antt =====
-- An account whose group membership cannot be read and that may use sudo.
use remote_devbox.Base.{none, some, [], ◌∷◌, map, words, ◌≡◌}
use remote_devbox.Doctor.Types.{HealthResult, healthy, failed}
use remote_devbox.Doctor.Profile.{ProfileProbe, allowed, collect_profile_components}
use remote_devbox.Doctor.Profile.Isolation.{collect_profile_components-verdict}

abbrev open_account : ProfileProbe
open_account = record {
  home_mode = some 448;
  umask = some 63;
  sudo = allowed;
  groups = none;
  cgroup_controllers = some "cpu memory pids";
}

collect_profile_components-verdict_example :
    map (λ (c : HealthResult). c.status) (collect_profile_components "dev-a" open_account)
    ≡ failed ∷ healthy ∷ []
unfolding words
collect_profile_components-verdict_example = collect_profile_components-verdict "dev-a" open_account
