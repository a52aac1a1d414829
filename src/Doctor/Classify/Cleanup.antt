-- ===== src/Doctor/Classify/Cleanup.antt =====
-- When a session or a worktree may be cleaned up.
use remote_devbox.Base.{
  ℕ, ◌+◌, ◌≤◌, ◌<◌, String, true, Option, none, some, List, ◌≡◌, refl, ◌↔◌, Memᴰ, any_of_Memᴰ,
  arith, includes,
}
use remote_devbox.Doctor.Types.{idle, dead, ProcRef}
use remote_devbox.Doctor.Classify.{
  ClassifyOpts, classify_session, is_worktree_protected, strip_slashes,
}

-- A session is idle exactly if its process lives, its last activity is known, and that activity is
-- older than the activity window and at least as old as the idle threshold.
pub classify_session-idle_iff :
    (pid last : Option ℕ) (opts : ClassifyOpts)
    → (classify_session pid last opts ≡ idle) ↔ (
        (p t : ℕ) × (pid ≡ some p)
        × (last ≡ some t)
        × (t + opts.activity_window_sec < opts.now)
        × (t + opts.idle_after_sec ≤ opts.now))
unfolding classify_session
classify_session-idle_iff none last opts = (λ h. cc, λ h. cc)
classify_session-idle_iff (some p) none opts = (λ h. cc, λ h. cc)
classify_session-idle_iff (some p) (some t) opts =
    (λ h. (p, t, refl, refl, ground arith, ground arith), λ h. ground arith)

-- A session is dead exactly if it has no live process.
pub classify_session-dead_iff :
    (pid last : Option ℕ) (opts : ClassifyOpts)
    → (classify_session pid last opts ≡ dead) ↔ (pid ≡ none)
unfolding classify_session
classify_session-dead_iff pid last opts = ground arith

-- A worktree that some process's command line names is protected, whatever slashes end its path.
pub is_worktree_protected_of_mem :
    (path : String) (procs : List ProcRef) (p : ProcRef)
    → Memᴰ p procs
    → includes p.cmd (strip_slashes path) ≡ true
    → is_worktree_protected path procs ≡ true
unfolding is_worktree_protected
is_worktree_protected_of_mem path procs p m h =
    any_of_Memᴰ (λ (q : ProcRef). includes q.cmd (strip_slashes path)) procs p m h
