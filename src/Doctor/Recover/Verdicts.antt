-- ===== src/Doctor/Recover/Verdicts.antt =====
-- What the answers of a recovery say: which are quiet, and what the two judgements of a health
-- document mean.
use remote_devbox.Base.{Bool, true, false, Option, none, some, ◌≡◌, refl, ◌≢◌, arith}
use remote_devbox.Doctor.Types.{
  HealthResult, HealthStatus, healthy, failed, degraded, recovering, blocked, unknown,
}
use remote_devbox.Doctor.Recover.{
  RecoveryStatus, recovered, skipped, refused, BoxRecoveryResult, judge, by_status, conclude,
  after_status,
}

-- An answer that says nothing was done: refused, skipped, or a throw before the actions.
abbrev pub is_quiet : RecoveryStatus → Bool
is_quiet refused = true
is_quiet skipped = true
is_quiet _ = false

abbrev pub quiet : Option BoxRecoveryResult → Bool
quiet none = true
quiet (some r) = is_quiet r.status

abbrev pub refuses : Option BoxRecoveryResult → Bool
refuses none = false
refuses (some r) = is_quiet r.status

by_status_go : (s : HealthStatus) → by_status s ≡ none → s ≡ failed
unfolding by_status
by_status_go failed e = refl
by_status_go healthy e = absurd (cc)
by_status_go degraded e = absurd (cc)
by_status_go recovering e = absurd (cc)
by_status_go blocked e = absurd (cc)
by_status_go unknown e = absurd (cc)

pub quiet-recovered :
    (o : Option BoxRecoveryResult) (r : BoxRecoveryResult)
    → quiet o ≡ true
    → o ≡ some r
    → r.status ≢ recovered
quiet-recovered none r q h = absurd (cc)
quiet-recovered (some s) r q h = ground arith

pub judge_go :
    (o : Option HealthResult)
    → judge o ≡ none
    → (before : HealthResult) × (o ≡ some before) × (before.status ≡ failed)
unfolding judge
judge_go none h = absurd (cc)
judge_go (some before) h = (before, refl, by_status_go before.status h)

by_status-refuses :
    (s : HealthStatus) (r : BoxRecoveryResult) → by_status s ≡ some r → is_quiet r.status ≡ true
unfolding by_status
by_status-refuses healthy r h = ground arith
by_status-refuses failed r h = absurd (cc)
by_status-refuses degraded r h = ground arith
by_status-refuses recovering r h = ground arith
by_status-refuses blocked r h = ground arith
by_status-refuses unknown r h = ground arith

pub judge-refuses :
    (o : Option HealthResult) (r : BoxRecoveryResult) → judge o ≡ some r → is_quiet r.status ≡ true
unfolding judge
judge-refuses none r h = ground arith
judge-refuses (some before) r h = by_status-refuses before.status r h

after_status-healthy : (s : HealthStatus) → (after_status s).status ≡ recovered → s ≡ healthy
unfolding after_status
after_status-healthy healthy e = refl
after_status-healthy failed e = absurd (cc)
after_status-healthy degraded e = absurd (cc)
after_status-healthy recovering e = absurd (cc)
after_status-healthy blocked e = absurd (cc)
after_status-healthy unknown e = absurd (cc)

after_status-speaks : (s : HealthStatus) → is_quiet (after_status s).status ≡ false
unfolding after_status
after_status-speaks healthy = refl
after_status-speaks failed = refl
after_status-speaks degraded = refl
after_status-speaks recovering = refl
after_status-speaks blocked = refl
after_status-speaks unknown = refl

pub conclude-healthy :
    (o : Option HealthResult)
    → (conclude o).status ≡ recovered
    → (after : HealthResult) × (o ≡ some after) × (after.status ≡ healthy)
unfolding conclude
conclude-healthy none h = absurd (cc)
conclude-healthy (some after) h = (after, refl, after_status-healthy after.status h)

pub conclude-speaks : (o : Option HealthResult) → is_quiet (conclude o).status ≡ false
unfolding conclude
conclude-speaks none = refl
conclude-speaks (some after) = after_status-speaks after.status
