-- ===== src/Examples/Applies.antt =====
-- A command under two locks.
use remote_devbox.Base.{false, [], ◌∷◌}
use remote_devbox.Client.ApplyLock.{LockedCommand, command_under_locks}
use remote_devbox.Client.ApplyLock.Nesting.{AreTaken, command_under_locks-AreTaken}

abbrev playbook : LockedCommand
playbook = record { command = "ansible-playbook"; args = "site.yml" ∷ [] }

command_under_locks-AreTaken_example :
    AreTaken false
      ("a.lock" ∷ "b.lock" ∷ [])
      (command_under_locks false ("a.lock" ∷ "b.lock" ∷ []) playbook)
      playbook
command_under_locks-AreTaken_example =
    command_under_locks-AreTaken false ("a.lock" ∷ "b.lock" ∷ []) playbook
