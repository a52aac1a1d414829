-- ===== src/Client/Bridge.antt =====
-- clients/devbox/src/bridge.ts: the record of live mounts, and which processes may be signalled.
-- What `ps` says of a process and what a signal to it does are parameters over the state of a host.
pub mod Signals
pub mod Dropping
use remote_devbox.Base.{
  ℕ, String, Bool, true, false, ◌&&◌, ◌||◌, not, Option, none, some, List, [], ◌∷◌, ◌++◌, ◌==◌,
  if◌then◌else◌, ltb, all, is_empty,
}
use remote_devbox.Base.Options.{◌>>=◌}
use remote_devbox.Json.{
  Json, Number, nat, negsuc, fraction, number, string, array, object, Fields, get, items,
}
use remote_devbox.Doctor.Collect.{truthy}

-- Ports and process ids are safe integers, as the file has them.
pub record LiveMount : Type 0 where
  pub profile : String
  pub label : String
  pub tunnel_port : Number
  pub rclone_pid : Number
  pub ssh_pid : Number
  pub remote_path : String
  pub local_path : String
  pub rclone_identity : Option String
  pub ssh_identity : Option String
  pub mount_nonce : Option String
  pub created_at : String

-- `Number.isSafeInteger`.
unfoldable pub is_safe_integer : Number → Bool
is_safe_integer (nat n) = ltb n 9007199254740992
is_safe_integer (negsuc n) = ltb n 9007199254740991
is_safe_integer (fraction _ _ _) = false

text_of : Option Json → Option String
text_of (some (string s)) = some s
text_of _ = none

integer_of : Option Json → Option Number
integer_of (some (number n)) = if is_safe_integer n then some n else none
integer_of _ = none

optional_text_of : Option Json → Option (Option String)
optional_text_of none = some none
optional_text_of (some (string s)) = some (some s)
optional_text_of (some _) = none

-- A value that `isLiveMount` accepts, as the mount it is; what it refuses is `none`.
unfoldable pub live_mount_of : Json → Option LiveMount
unfolding text_of integer_of optional_text_of
live_mount_of (object raw) = do
  profile ← text_of (get "profile" raw)
  label ← text_of (get "label" raw)
  remote_path ← text_of (get "remotePath" raw)
  local_path ← text_of (get "localPath" raw)
  created_at ← text_of (get "createdAt" raw)
  tunnel_port ← integer_of (get "tunnelPort" raw)
  rclone_pid ← integer_of (get "rclonePid" raw)
  ssh_pid ← integer_of (get "sshPid" raw)
  rclone_identity ← optional_text_of (get "rcloneIdentity" raw)
  ssh_identity ← optional_text_of (get "sshIdentity" raw)
  mount_nonce ← optional_text_of (get "mountNonce" raw)
  some (record {
    profile = profile;
    label = label;
    tunnel_port = tunnel_port;
    rclone_pid = rclone_pid;
    ssh_pid = ssh_pid;
    remote_path = remote_path;
    local_path = local_path;
    rclone_identity = rclone_identity;
    ssh_identity = ssh_identity;
    mount_nonce = mount_nonce;
    created_at = created_at;
  })
live_mount_of _ = none

live_mounts_of : List Json → Option (List LiveMount)
live_mounts_of [] = some []
live_mounts_of (v ∷ vs) = do m ← live_mount_of v; ms ← live_mounts_of vs; some (m ∷ ms)

-- What `readFileSync` and `JSON.parse` give at the path of the state.
pub data BridgeFile : Type 0 where
  missing unreadable : BridgeFile
  parsed : Json → BridgeFile

-- `none` is the error that the state is invalid.
unfoldable pub read_bridges : BridgeFile → Option (List LiveMount)
unfolding live_mounts_of
read_bridges missing = some []
read_bridges unreadable = none
read_bridges (parsed (array vs)) = live_mounts_of (items vs)
read_bridges (parsed _) = none

-- A process that is gone (`null`), one that nothing is known of (`undefined`), or its identity.
pub data Sighting : Type 0 where
  gone unclear : Sighting
  seen : String → Sighting

-- A signal was sent, there was no such process (ESRCH), or it failed in another way.
pub data Delivery : Type 0 where
  delivered no_process denied : Delivery

pub data BridgeState : Type 0 where
  live stale unknown : BridgeState

pub record Assessment : Type 0 where
  pub state : BridgeState
  pub owned_pids : List Number

abbrev pub is_seen : Sighting → String → Bool
is_seen (seen s) identity = s == identity
is_seen _ identity = false

abbrev is_unclear : Sighting → Bool
is_unclear unclear = true
is_unclear _ = false

abbrev unassessed : Assessment
unassessed = record { state = unknown; owned_pids = [] }

abbrev both : List Number → BridgeState
both (_ ∷ _ ∷ []) = live
both _ = stale

-- What the loop over the two processes of a bridge keeps.
pub record Stopping (Host : Type 0) : Type 0 where
  pub host : Host
  pub safe : Bool
  pub signalled : List Number

module _ {Host : Type 0} (lookup : Number → Host → Sighting × Host)
    (signal : Number → Host → Delivery × Host) where
  assess_both : LiveMount → Option String → Option String → Host → Assessment × Host
  assess_both b (some rclone_identity) (some ssh_identity) h =
      let rclone = lookup b.rclone_pid h in
      let ssh = lookup b.ssh_pid rclone.1 in
      let owned =
        (if is_seen rclone.0 rclone_identity then b.rclone_pid ∷ [] else [])
        ++ (if is_seen ssh.0 ssh_identity then b.ssh_pid ∷ [] else []) in
      (
        if is_unclear rclone.0 || is_unclear ssh.0
            then unassessed
            else record { state = both owned; owned_pids = owned },
        ssh.1,
      )
  assess_both b _ _ h = (unassessed, h)

  unfoldable pub assess_bridge_processes : LiveMount → Host → Assessment × Host
  unfolding assess_both
  assess_bridge_processes b h = assess_both b (truthy b.rclone_identity) (truthy b.ssh_identity) h

  by_delivery : Number → Delivery × Host → Stopping Host → Stopping Host
  by_delivery pid (delivered, h) s = record s { host = h; signalled = s.signalled ++ pid ∷ [] }
  by_delivery pid (no_process, h) s = record s { host = h }
  by_delivery pid (denied, h) s = record s { host = h; safe = false }

  by_sighting : Number → String → Sighting × Host → Stopping Host → Stopping Host
  by_sighting pid expected (gone, h) s = record s { host = h }
  by_sighting pid expected (unclear, h) s = record s { host = h; safe = false }
  by_sighting pid expected (seen identity, h) s =
      if identity == expected
      then by_delivery pid (signal pid h) (record s { host = h })
      else record s { host = h; safe = false }

  -- One round: a process without a recorded identity is left alone, and is not safe.
  unfoldable pub stop_one : Number → Option String → Stopping Host → Stopping Host
  unfolding by_sighting by_delivery
  stop_one pid none s = record s { safe = false }
  stop_one pid (some expected) s = by_sighting pid expected (lookup pid s.host) s

  unfoldable pub stop_owned_bridge_processes : LiveMount → Host → Stopping Host
  stop_owned_bridge_processes b h = stop_one b.ssh_pid (truthy b.ssh_identity) (
      stop_one b.rclone_pid (truthy b.rclone_identity)
        (record { host = h; safe = true; signalled = [] }))

  by_state : BridgeState → LiveMount → Host → Bool × Host
  by_state live b h = (true, h)
  by_state unknown b h = (true, h)
  by_state stale b h =
      let stopped = stop_owned_bridge_processes b h in
      (not stopped.safe || not (is_empty stopped.signalled), stopped.host)

  -- The test of the filter: whether the bridge is kept.
  unfoldable pub keeps : LiveMount → Host → Bool × Host
  unfolding by_state
  keeps b h = let a = assess_bridge_processes b h in by_state a.0.state b a.1

  unfoldable pub keep_from : List LiveMount → Host → List LiveMount × Host
  keep_from [] h = ([], h)
  keep_from (b ∷ bs) h =
      let one = keeps b h in
      let rest = keep_from bs one.1 in (if one.0 then b ∷ rest.0 else rest.0, rest.1)

  -- The bridges that are written back; `none` is the error of reading.
  unfoldable pub reconcile_bridges : BridgeFile → Host → Option (List LiveMount × Host)
  reconcile_bridges file h = elim (read_bridges file) [
    | none ↦ none
    | some bs ↦ some (keep_from bs h)
  ]
