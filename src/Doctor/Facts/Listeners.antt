-- ===== src/Doctor/Facts/Listeners.antt =====
-- `parseListener` of box/doctor/src/facts.ts.
use remote_devbox.Base.{
  All, ◌≤◌, ◌≡◌, arith, ℕ, String, Bool, ◌&&◌, ◌||◌, Option, none, some, List, [], ◌∷◌, codes, word,
  between, one_of, is_alnum, is_digit, leb, if◌then◌else◌, opt_is,
}
use remote_devbox.Json.{Json, nat, number, string, Fields, get}
use remote_devbox.Doctor.Types.{Listener, tcp, unix, ProcessMatch, exact, prefix}
use remote_devbox.Doctor.Parsing.{
  >>=-Ensures, ok-Ensures, Ensures, list_of, Result, ok, err, ◌>>=◌, record_of, Failure, invalid,
  text_where, optional_choice,
}

abbrev process_char : ℕ → Bool
process_char c = is_alnum c || one_of (codes "_.@-") c

abbrev address_char : ℕ → Bool
address_char c = between b'A' b'F' c || between b'a' b'f' c || is_digit c || one_of (codes ":.") c

abbrev path_char : ℕ → Bool
path_char c = is_alnum c || one_of (codes "_./@-") c

-- `/^[A-Za-z0-9_.@-]+$/`.
unfoldable pub is_process_name : String → Bool
is_process_name s = word process_char process_char (codes s)

-- `/^[A-Fa-f0-9:.]+$/`.
unfoldable pub is_address : String → Bool
is_address s = word address_char address_char (codes s)

-- `/^[A-Za-z0-9_./@-]+$/`.
unfoldable pub is_socket_path : String → Bool
is_socket_path s = word path_char path_char (codes s)

-- An integer in 1..65535.
unfoldable pub port_of : Option Json → Failure → Result ℕ
port_of (some (number (nat n))) e = if leb 1 n && leb n 65535 then ok n else err e
port_of _ e = err e

abbrev matches : List (String × ProcessMatch)
matches = ("exact", exact) ∷ ("prefix", prefix) ∷ []

-- The text of a field, if it is one.
abbrev text_of : Option Json → Option String
text_of (some (string s)) = some s
text_of _ = none

tcp_listener : Fields → String → Option ProcessMatch → Result Listener
unfolding port_of
tcp_listener raw process match = do
  address ← text_where is_address (get "address" raw) (invalid "invalid TCP listener")
  port ← port_of (get "port" raw) (invalid "invalid TCP listener")
  ok (tcp address port process match)

unix_listener : Fields → String → Option ProcessMatch → Result Listener
unix_listener raw process match = do
  path ← text_where is_socket_path (get "path" raw) (invalid "invalid Unix listener")
  ok (unix path process match)

by_protocol : Option String → Fields → String → Option ProcessMatch → Result Listener
unfolding tcp_listener unix_listener
by_protocol protocol raw process match =
    if opt_is protocol "tcp"
    then tcp_listener raw process match
    else if opt_is protocol "unix"
    then unix_listener raw process match
    else err (invalid "invalid listener protocol")

unfoldable pub parse_listener : Json → Result Listener
unfolding by_protocol
parse_listener value = do
  raw ← record_of (some value) "health listener"
  process ← text_where is_process_name (get "process" raw) (invalid "invalid listener process")
  match ←
      optional_choice matches (get "processMatch" raw) (invalid "invalid listener process match")
  by_protocol (text_of (get "protocol" raw)) raw process match

-- `listeners.map(parseListener)`: the first error is thrown.
unfoldable pub parse_listeners : List Json → Result (List Listener)
parse_listeners [] = ok []
parse_listeners (v ∷ vs) = do l ← parse_listener v; ls ← parse_listeners vs; ok (l ∷ ls)

-- `value.map(parseListener)` of a list that may be left out.
unfoldable pub optional_listeners : Option Json → Failure → Result (Option (List Listener))
optional_listeners none e = ok none
optional_listeners (some v) e = do vs ← list_of (some v) e; ls ← parse_listeners vs; ok (some ls)

abbrev pub IsValidPort : Listener → Type 0
IsValidPort (tcp address port process match) = (1 ≤ port) × (port ≤ 65535)
IsValidPort (unix path process match) = Unit

port_of-bounds :
    (v : Option Json) (e : Failure) (n : ℕ) → port_of v e ≡ ok n → (1 ≤ n) × (n ≤ 65535)
unfolding port_of
port_of-bounds v e n h = ground arith

by_protocol-IsValidPort :
    (protocol : Option String) (raw : Fields) (process : String) (match : Option ProcessMatch)
    (l : Listener)
    → by_protocol protocol raw process match ≡ ok l
    → IsValidPort l
unfolding by_protocol
by_protocol-IsValidPort protocol raw process match l h =
    ground (arith, port_of-bounds (get "port" raw) (invalid "invalid TCP listener"))

parse_listener-IsValidPort : (v : Json) → Ensures IsValidPort (parse_listener v)
unfolding parse_listener
parse_listener-IsValidPort v =
    >>=-Ensures IsValidPort (record_of (some v) "health listener") _ λ raw _.
      >>=-Ensures IsValidPort (text_where is_process_name _ _) _ λ process _.
        >>=-Ensures IsValidPort (optional_choice matches _ _) _ λ match _ l h.
          by_protocol-IsValidPort (text_of (get "protocol" raw)) raw process match l h

parse_listeners-IsValidPort : (vs : List Json) → Ensures (All IsValidPort) (parse_listeners vs)
unfolding parse_listeners
parse_listeners-IsValidPort [] = ok-Ensures (All IsValidPort) [] tt
parse_listeners-IsValidPort (v ∷ vs) = >>=-Ensures (All IsValidPort) (parse_listener v) _ λ l e.
    >>=-Ensures (All IsValidPort) (parse_listeners vs) _ λ ls es.
      ok-Ensures (All IsValidPort) (l ∷ ls)
        (parse_listener-IsValidPort v l e, parse_listeners-IsValidPort vs ls es)

-- No list, or one of listeners whose ports are TCP ports.
abbrev pub ListenersValid : Option (List Listener) → Type 0
ListenersValid none = Unit
ListenersValid (some ls) = All IsValidPort ls

pub optional_listeners-Valid :
    (v : Option Json) (e : Failure) → Ensures ListenersValid (optional_listeners v e)
unfolding optional_listeners
optional_listeners-Valid none e = ok-Ensures ListenersValid none tt
optional_listeners-Valid (some v) e = >>=-Ensures ListenersValid (list_of (some v) e) _ λ vs _.
    >>=-Ensures ListenersValid (parse_listeners vs) _
      λ ls es. ok-Ensures ListenersValid (some ls) (parse_listeners-IsValidPort vs ls es)
