-- ===== src/Doctor/Snapshot.antt =====
-- writeHealthSnapshot of box/doctor/src/snapshot.ts: the snapshot is written beside its path and
-- renamed. Which calls fail is a parameter; a write that fails may leave a part of the text.
pub mod Atomicity
use remote_devbox.Base.{
  ℕ, String, Bool, true, false, ◌||◌, Option, none, some, List, [], ◌∷◌, is_some, if◌then◌else◌,
}
use remote_devbox.Base.Attempts.{Attempt, done, thrown}
use remote_devbox.Base.Effects.{and_then, return, throw, ◌>>=◌}

pub record File : Type 0 where
  pub text : String
  pub mode : ℕ

-- The files at the path and at the temporary one, and whether `fd` is set.
pub record Disk : Type 0 where
  pub target : Option File
  pub temporary : Option File
  pub fd : Bool

pub data Call : Type 0 where
  opening writing syncing closing setting_mode renaming closing_again removing : Call

module _ (fails : Call → Bool) (part : String) where
  abbrev pub call : Call → Disk → Disk → Attempt (Unit {0}) × Disk
  call c on_failure on_success =
      if fails c then (thrown "file system error", on_failure) else (done tt, on_success)

  -- With `wx` the file must be new; its mode is 0600.
  unfoldable pub open_temporary : Disk → Attempt (Unit {0}) × Disk
  open_temporary d =
      if is_some d.temporary
      then (thrown "EEXIST", d)
      else call opening d
          (record d { temporary = some (record { text = ""; mode = 384 }); fd = true })

  abbrev pub with_text : String → Option File → Option File
  with_text text none = none
  with_text text (some file) = some (record file { text = text })

  abbrev pub with_mode : ℕ → Option File → Option File
  with_mode mode none = none
  with_mode mode (some file) = some (record file { mode = mode })

  unfoldable pub write_temporary : String → Disk → Attempt (Unit {0}) × Disk
  write_temporary text d =
      call writing (record d { temporary = with_text part d.temporary })
        (record d { temporary = with_text text d.temporary })

  -- `closeSync(fd); fd = null`.
  unfoldable pub close_temporary : Disk → Attempt (Unit {0}) × Disk
  close_temporary d = call closing d (record d { fd = false })

  unfoldable pub set_mode : Disk → Attempt (Unit {0}) × Disk
  set_mode d = call setting_mode d (record d { temporary = with_mode 420 d.temporary })

  unfoldable pub rename_temporary : Disk → Attempt (Unit {0}) × Disk
  rename_temporary d = call renaming d (record d { target = d.temporary; temporary = none })

  unfoldable pub try_write : String → Disk → Attempt (Unit {0}) × Disk
  unfolding open_temporary write_temporary close_temporary set_mode rename_temporary
  try_write text = do
    _ ← open_temporary
    _ ← write_temporary text
    _ ← (λ d. call syncing d d)
    _ ← close_temporary
    _ ← set_mode
    rename_temporary

  unfoldable pub close_again : Disk → Attempt (Unit {0}) × Disk
  close_again d = if d.fd then call closing_again d (record d { fd = false }) else (done tt, d)

  unfoldable pub remove_temporary : Disk → Attempt (Unit {0}) × Disk
  remove_temporary d =
      if is_some d.temporary then call removing d (record d { temporary = none }) else (done tt, d)

  -- The `finally` block.
  unfoldable pub clean_up : Disk → Attempt (Unit {0}) × Disk
  unfolding close_again remove_temporary
  clean_up = do _ ← close_again; remove_temporary

  -- What the `try` came to, unless the `finally` block throws.
  abbrev pub finally : Attempt (Unit {0}) → Attempt (Unit {0}) × Disk → Attempt (Unit {0}) × Disk
  finally outcome (done _, d) = (outcome, d)
  finally outcome (thrown message, d) = (thrown message, d)

  unfoldable pub write_health_snapshot : String → Disk → Attempt (Unit {0}) × Disk
  unfolding try_write clean_up
  write_health_snapshot text d = let tried = try_write text d in finally tried.0 (clean_up tried.1)
