-- ===== src/Doctor/Parsers/KernelLog.antt =====
-- oom.ts of box/doctor/src/parse: the processes that the kernel killed for want of memory, from
-- `dmesg -T`. The date of a text, in whole seconds, is a parameter: `none` is NaN.
use Prim.Native.String
use Prim.Native.Char.{Char, code}
use remote_devbox.Base.{
  strip, ℕ, String, Bool, not, ◌&&◌, Option, none, some, List, [], ◌∷◌, ◌==◌, ◌≡◌, refl, eqb,
  is_digit, is_space, one_of, split, concat, or_default, if◌then◌else◌,
}
use remote_devbox.Base.Options.{◌>>=◌}
use remote_devbox.Json.{Number, nat}
use remote_devbox.Doctor.Parsers.Tables.{Numeral, whole, number_of, map_some}

pub record OomEvent : Type 0 where
  pub at : Number
  pub at_text : String
  pub process : String
  pub pid : Numeral
  pub uid : Numeral

-- The groups of LINE after its first.
pub record Killed : Type 0 where
  pub pid : String
  pub process : String
  pub uid : String

abbrev consed : Char → String × String → String × String
consed c (taken, rest) = (String.◌∷◌ c taken, rest)

-- As many characters of a class as there are, and the rest.
unfoldable pub span : (ℕ → Bool) → String → String × String
span p String.[] = ("", "")
span p (String.◌∷◌ c s) =
    let longer = consed c (span p s) in if p (code c) then longer else ("", String.◌∷◌ c s)

-- At least one of them.
unfoldable pub span_some : (ℕ → Bool) → String → Option (String × String)
unfolding span
span_some p s = let both = span p s in if both.0 == "" then none else some both

-- `.` of a pattern.
abbrev pub is_dot : ℕ → Bool
is_dot c = not (one_of (10 ∷ 13 ∷ 8232 ∷ 8233 ∷ []) c)

-- `.*?UID:(\d+)`.
unfoldable pub uid_of : String → Option String
unfolding strip span_some
uid_of String.[] = none
uid_of (String.◌∷◌ c s) =
    let later = uid_of s in
    elim (strip "UID:" (String.◌∷◌ c s) >>= span_some is_digit) [
      | some both ↦ some both.0
      | none ↦ if is_dot (code c) then later else none
    ]

-- `\s+Out of memory: Killed process (\d+) \(([^)]+)\).*?UID:(\d+)`: no character after a repeated
-- class is of the class, so that each takes what it can.
unfoldable pub killed_of : String → Option Killed
unfolding span_some strip uid_of
killed_of s = do
  blanks ← span_some is_space s
  named ← strip "Out of memory: Killed process " blanks.1
  pid ← span_some is_digit named
  opened ← strip " (" pid.1
  process ← span_some (λ c. not (eqb c b')')) opened
  closed ← strip ")" process.1
  uid ← uid_of closed
  some (record { pid = pid.0; process = process.0; uid = uid })

-- `(.+?)\]` and what follows it.
unfoldable pub stamped : String → String → Option (String × Killed)
unfolding killed_of
stamped stamp String.[] = none
stamped stamp (String.◌∷◌ c s) =
    let here = if eqb (code c) b']' && not (stamp == "") then killed_of s else none in
    let later = stamped (String.◌++◌ stamp (String.◌∷◌ c "")) s in
    elim here [
      | some killed ↦ some (stamp, killed)
      | none ↦ if is_dot (code c) then later else none
    ]

unfoldable pub oom_line : String → Option (String × Killed)
unfolding strip stamped
oom_line line = strip "[" line >>= stamped ""

module _ (parse_seconds : String → Option Number) where
  abbrev pub oom_event : String × Killed → OomEvent
  oom_event (at_text, killed) = record {
    at = or_default (parse_seconds (concat (at_text ∷ " UTC" ∷ []))) (nat 0);
    at_text = at_text;
    process = killed.process;
    pid = number_of (some killed.pid);
    uid = number_of (some killed.uid);
  }

  unfoldable pub parse_oom_events : String → List OomEvent
  unfolding oom_line
  parse_oom_events output =
      map_some (λ line. oom_line line >>= λ m. some (oom_event m)) (split b'\n' output)

oom_test :
    parse_oom_events
      (λ _. none)
      "x\n[Mon [a]  Out of memory: Killed process 12 (bun), total-vm:1 UID: UID:1001 pgt\n"
    ≡ record { at = nat 0; at_text = "Mon [a"; process = "bun"; pid = whole 12; uid = whole 1001 }
      ∷ []
unfolding parse_oom_events split number_of
oom_test = refl
