-- ===== src/Doctor/Parsers/Processes.antt =====
-- sessions.ts of box/doctor/src/parse: the processes of ps, and the sessions that they run.
use remote_devbox.Base.{
  ℕ, String, Bool, false, Option, none, some, List, [], ◌∷◌, ◌==◌, ◌≡◌, refl, ◌&&◌, map, filter,
  split, trim, cut, codes, is_digit, is_space, includes, if◌then◌else◌,
}
use remote_devbox.Doctor.Parsers.Tables.{Numeral, whole, number_of}
use remote_devbox.Doctor.Parsers.Worktrees.{cse_of}

pub record ParsedProc : Type 0 where
  pub pid : Numeral
  pub cmd : String

-- `/^\d+\s/`.
after_digits : List ℕ → Bool
after_digits [] = false
after_digits (c ∷ cs) = let rest = after_digits cs in if is_digit c then rest else is_space c

unfoldable pub has_pid : List ℕ → Bool
unfolding after_digits
has_pid [] = false
has_pid (c ∷ cs) = is_digit c && after_digits cs

-- `l.slice(0, -1)`.
unfoldable pub without_last : String → String
without_last String.[] = ""
without_last (String.◌∷◌ c String.[]) = ""
without_last (String.◌∷◌ c (String.◌∷◌ d s)) = String.◌∷◌ c (without_last (String.◌∷◌ d s))

-- At the first space; without one, `indexOf` is -1, and the slices are all but the last character,
-- and the whole line.
unfoldable pub proc_of : String → Option (String × String) → ParsedProc
unfolding without_last
proc_of line none = record { pid = number_of (some (without_last line)); cmd = line }
proc_of line (some (pid, cmd)) = record { pid = number_of (some pid); cmd = cmd }

unfoldable pub parse_procs : String → List ParsedProc
unfolding has_pid proc_of
parse_procs output =
    map (λ l. proc_of l (cut b' ' l))
      (filter (λ l. has_pid (codes l)) (map trim (split b'\n' output)))

-- `map.set(key, pid)`.
unfoldable pub set_pid : String → Numeral → List (String × Numeral) → List (String × Numeral)
set_pid key pid [] = (key, pid) ∷ []
set_pid key pid ((k, p) ∷ rest) =
    if k == key then (k, pid) ∷ rest else (k, p) ∷ set_pid key pid rest

unfoldable pub add_session :
    ParsedProc → Option String → List (String × Numeral) → List (String × Numeral)
unfolding set_pid
add_session p none sessions = sessions
add_session p (some cse) sessions =
    if includes p.cmd "--print" then set_pid cse p.pid sessions else sessions

unfoldable pub sessions_from : List (String × Numeral) → List ParsedProc → List (String × Numeral)
unfolding add_session cse_of
sessions_from sessions [] = sessions
sessions_from sessions (p ∷ ps) =
    sessions_from (add_session p (cse_of "--session-id " p.cmd) sessions) ps

unfoldable pub session_pids_by_cse : List ParsedProc → List (String × Numeral)
unfolding sessions_from
session_pids_by_cse procs = sessions_from [] procs

sessions_test :
    session_pids_by_cse
      (parse_procs " 12 claude --print --session-id cse_a1 -x\nx\n13 claude --session-id cse_b\n")
    ≡ ("cse_a1", whole 12) ∷ []
unfolding session_pids_by_cse parse_procs split trim cut includes number_of cse_of
sessions_test = refl
