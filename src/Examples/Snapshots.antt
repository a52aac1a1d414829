-- ===== src/Examples/Snapshots.antt =====
-- A snapshot that is written, and one whose renaming fails.
use remote_devbox.Base.{Bool, true, false, none, some, ◌≡◌, refl}
use remote_devbox.Base.Attempts.{thrown}
use remote_devbox.Base.Effects.{Settles}
use remote_devbox.Doctor.Snapshot.{Disk, Call, renaming, write_health_snapshot}
use remote_devbox.Doctor.Snapshot.Atomicity.{
  IsReplaced, IsUntouched, IsClean, write_health_snapshot-IsReplaced,
}

abbrev at_renaming : Call → Bool
at_renaming renaming = true
at_renaming _ = false

abbrev before : Disk
before = record {
  target = some (record { text = "old"; mode = 420 });
  temporary = none;
  fd = false;
}

kept : write_health_snapshot at_renaming "" "new" before ≡ (thrown "file system error", before)
unfolding write_health_snapshot
kept = refl

write_health_snapshot-IsReplaced_example :
    Settles
      (λ _ a. IsReplaced at_renaming "" "new" a)
      (λ _ a. IsUntouched at_renaming "" before a × IsClean at_renaming "" a)
      (write_health_snapshot at_renaming "" "new" before)
write_health_snapshot-IsReplaced_example =
    write_health_snapshot-IsReplaced at_renaming "" "new" before
