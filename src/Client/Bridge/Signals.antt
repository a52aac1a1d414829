-- ===== src/Client/Bridge/Signals.antt =====
-- Only a process with the recorded identity is signalled.
use remote_devbox.Base.{
  String, true, Option, none, some, [], ◌∷◌, ◌≡◌, refl, ap, All, All-append, Bool-cases, ◌==◌,
  eq_iff,
}
use mathlib.Core.Logic.{◌⊎◌, inl, inr}
use remote_devbox.Json.{Number}
use remote_devbox.Doctor.Collect.{truthy}
use remote_devbox.Client.Bridge.{
  LiveMount, Sighting, gone, unclear, seen, Delivery, delivered, no_process, denied, Stopping,
  stop_one, by_sighting, by_delivery, stop_owned_bridge_processes,
}

module _ {Host : Type 0} (lookup : Number → Host → Sighting × Host)
    (signal : Number → Host → Delivery × Host) where
  -- The identity is recorded for this process of the bridge.
  abbrev pub IsRecorded : LiveMount → Number → String → Type 0
  IsRecorded b pid identity =
      ((pid ≡ b.rclone_pid) × (truthy b.rclone_identity ≡ some identity))
      ⊎ ((pid ≡ b.ssh_pid) × (truthy b.ssh_identity ≡ some identity))

  -- The process was seen with the identity that the bridge records for it.
  abbrev pub IsOwnedPid : LiveMount → Number → Type 0
  IsOwnedPid b pid =
      (identity : String) × (h : Host) × IsRecorded b pid identity
      × ((lookup pid h).0 ≡ seen identity)

  by_delivery-signalled :
      (P : Number → Type 0) (pid : Number) (d : Delivery × Host) (s : Stopping Host)
      → P pid
      → All P s.signalled
      → All P (by_delivery lookup signal pid d s).signalled
  unfolding by_delivery
  by_delivery-signalled P pid (delivered, h) s p all =
      All-append P s.signalled (pid ∷ []) all (p, tt)
  by_delivery-signalled P pid (no_process, h) s p all = all
  by_delivery-signalled P pid (denied, h) s p all = all

  by_sighting-signalled :
      (P : Number → Type 0) (pid : Number) (expected : String) (d : Sighting × Host)
      (s : Stopping Host)
      → (d.0 ≡ seen expected → P pid)
      → All P s.signalled
      → All P (by_sighting lookup signal pid expected d s).signalled
  unfolding by_sighting
  by_sighting-signalled P pid expected (gone, h) s p all = all
  by_sighting-signalled P pid expected (unclear, h) s p all = all
  by_sighting-signalled P pid expected (seen identity, h) s p all =
      elim (Bool-cases (identity == expected)) [
        | inl e ↦ rw e (
            by_delivery-signalled P pid (signal pid h) (record s { host = h })
              (p (ap seen ((eq_iff identity expected).0 e))) all)
        | inr e ↦ rw e all
      ]

  stop_one-signalled :
      (P : Number → Type 0) (pid : Number) (o : Option String) (s : Stopping Host)
      → ((identity : String) → o ≡ some identity → (lookup pid s.host).0 ≡ seen identity → P pid)
      → All P s.signalled
      → All P (stop_one lookup signal pid o s).signalled
  unfolding stop_one
  stop_one-signalled P pid none s p all = all
  stop_one-signalled P pid (some expected) s p all =
      by_sighting-signalled P pid expected (lookup pid s.host) s (p expected refl) all

  -- Every process that is signalled is one of the bridge's two, and was seen with the identity
  -- that the bridge records for it.
  pub stop_owned_bridge_processes-IsOwnedPid :
      (b : LiveMount) (h : Host)
      → All (IsOwnedPid b) (stop_owned_bridge_processes lookup signal b h).signalled
  unfolding stop_owned_bridge_processes
  stop_owned_bridge_processes-IsOwnedPid b h =
      let start : Stopping Host = record { host = h; safe = true; signalled = [] } in
      let first = stop_one lookup signal b.rclone_pid (truthy b.rclone_identity) start in
      stop_one-signalled (IsOwnedPid b) b.ssh_pid (truthy b.ssh_identity) first
        (λ identity e s. (identity, first.host, inr (refl, e), s))
        (stop_one-signalled (IsOwnedPid b) b.rclone_pid (truthy b.rclone_identity) start
          (λ identity e s. (identity, h, inl (refl, e), s)) tt)
