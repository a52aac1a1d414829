-- ===== src/Doctor/Classify.antt =====
-- box/doctor/src/classify.ts. Times are epoch seconds. `-` on the naturals gives the age 0 to an
-- activity in the future, whose age the source computes as negative: both are within the window.

pub mod Cleanup
pub mod References
use Prim.Native.Char.{code}
use remote_devbox.Base.{
  ℕ, ◌-◌, String, Bool, ◌&&◌, Option, none, some, List, leb, eqb, any, includes, ◌==◌,
  if◌then◌else◌,
}
use remote_devbox.Doctor.Types.{SessionState, active, idle, dead, ProcRef}

pub record ClassifyOpts : Type 0 where
  pub now : ℕ
  pub activity_window_sec : ℕ
  pub idle_after_sec : ℕ

unfoldable pub classify_session : Option ℕ → Option ℕ → ClassifyOpts → SessionState
classify_session none last_activity opts = dead
classify_session (some pid) none opts = active
classify_session (some pid) (some last) opts =
    let age = opts.now - last in
    if leb age opts.activity_window_sec
    then active
    else if leb opts.idle_after_sec age
    then idle
    else active

-- `path.replace(/\/+$/, "")`.
pub strip_slashes : String → String
strip_slashes String.[] = ""
strip_slashes (String.◌∷◌ c s) =
    let rest = strip_slashes s in if eqb (code c) b'/' && rest == "" then "" else String.◌∷◌ c rest

unfoldable pub is_worktree_protected : String → List ProcRef → Bool
is_worktree_protected worktree_path procs =
    any (λ (p : ProcRef). includes p.cmd (strip_slashes worktree_path)) procs
