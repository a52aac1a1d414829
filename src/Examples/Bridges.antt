-- ===== src/Examples/Bridges.antt =====
-- A bridge whose ssh process is gone while its rclone process still runs.
use remote_devbox.Base.{eqb, if◌then◌else◌, none, some, [], ◌∷◌, ◌≡◌, refl, All, Memᴰ}
use remote_devbox.Json.{Number, nat, number, string, array, object, nil, cons, end, field, get}
use remote_devbox.Client.Bridge.{
  LiveMount, BridgeFile, parsed, Sighting, gone, seen, Delivery, delivered, live_mount_of,
  read_bridges, is_safe_integer, stop_owned_bridge_processes, stop_one, assess_bridge_processes,
  keeps, keep_from, reconcile_bridges,
}
use remote_devbox.Client.Bridge.Signals.{IsOwnedPid, stop_owned_bridge_processes-IsOwnedPid}
use remote_devbox.Client.Bridge.Dropping.{IsTracked, reconcile_bridges-IsTracked}

abbrev lookup : Number → Unit {0} → Sighting × Unit {0}
lookup (nat n) h = (if eqb n 11 then seen "rclone at noon" else gone, h)
lookup _ h = (gone, h)

abbrev signal : Number → Unit {0} → Delivery × Unit {0}
signal pid h = (delivered, h)

abbrev bridge : LiveMount
bridge = record {
  profile = "ada";
  label = "code";
  tunnel_port = nat 4000;
  rclone_pid = nat 11;
  ssh_pid = nat 12;
  remote_path = "/home/ada";
  local_path = "/Volumes/ada";
  rclone_identity = some "rclone at noon";
  ssh_identity = some "ssh at noon";
  mount_nonce = none;
  created_at = "2026-01-01T00:00:00Z";
}

abbrev file : BridgeFile
file = parsed (
    array (
      cons
        (object (
          field "profile" (string "ada") (
            field "label" (string "code") (
              field "tunnelPort" (number (nat 4000)) (
                field "rclonePid" (number (nat 11)) (
                  field "sshPid" (number (nat 12)) (
                    field "remotePath" (string "/home/ada") (
                      field "localPath" (string "/Volumes/ada") (
                        field "rcloneIdentity" (string "rclone at noon") (
                          field "sshIdentity" (string "ssh at noon")
                            (field "createdAt" (string "2026-01-01T00:00:00Z") end)))))))))))
        nil))

file_read : read_bridges file ≡ some (bridge ∷ [])
unfolding read_bridges live_mount_of is_safe_integer get
file_read = refl

reconciled : reconcile_bridges lookup signal file tt ≡ some (bridge ∷ [], tt)
unfolding reconcile_bridges read_bridges live_mount_of is_safe_integer get keep_from keeps
    assess_bridge_processes stop_owned_bridge_processes stop_one
reconciled = refl

stop_owned_bridge_processes-IsOwnedPid_example :
    All
      (IsOwnedPid lookup signal bridge)
      (stop_owned_bridge_processes lookup signal bridge tt).signalled
stop_owned_bridge_processes-IsOwnedPid_example =
    stop_owned_bridge_processes-IsOwnedPid lookup signal bridge tt

reconcile_bridges-IsTracked_example :
    All (IsTracked lookup signal (bridge ∷ [])) (bridge ∷ [])
    × All (λ c. Memᴰ c (bridge ∷ [])) (bridge ∷ [])
reconcile_bridges-IsTracked_example =
    reconcile_bridges-IsTracked lookup signal file tt (bridge ∷ []) (bridge ∷ []) tt file_read
      reconciled
