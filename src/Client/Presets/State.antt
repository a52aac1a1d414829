-- ===== src/Client/Presets/State.antt =====
-- parseState and latestPresetState of clients/devbox/src/omp-model-presets/core.ts: the state that
-- a session's entries have kept.
use remote_devbox.Base.{
  Bool, Option, none, some, List, [], ◌∷◌, ◌++◌, ◌≡◌, refl, ◌∙◌, ap, sym, eqb, if◌then◌else◌,
}
use remote_devbox.Json.{Json, null, number, string, object, nat, get}
use remote_devbox.Client.Presets.{PresetState, SessionEntryLike, preset_state_custom_type}
use remote_devbox.Base.{◌==◌}

-- `value.version === PRESET_STATE_VERSION`, which is 1.
unfoldable pub is_version : Option Json → Bool
is_version (some (number (nat n))) = eqb n 1
is_version _ = Bool.false

-- A preset's name or null; an absent field is neither.
unfoldable pub state_of : Option Json → Option PresetState
state_of (some null) = some (record { preset = none })
state_of (some (string name)) = some (record { preset = some name })
state_of _ = none

unfoldable pub parse_state : Option Json → Option PresetState
unfolding is_version state_of get
parse_state (some (object fields)) =
    if is_version (get "version" fields) then state_of (get "preset" fields) else none
parse_state _ = none

unfoldable pub is_state_entry : Option Json → Bool
is_state_entry (some (string s)) = s == preset_state_custom_type
is_state_entry _ = Bool.false

-- The body of the loop: the state of an entry of the presets that has one.
unfoldable pub entry_state : SessionEntryLike → Option PresetState
unfolding parse_state is_state_entry
entry_state entry = if is_state_entry entry.custom_type then parse_state entry.data_of else none

unfoldable pub reverse : List SessionEntryLike → List SessionEntryLike
reverse [] = []
reverse (e ∷ es) = reverse es ++ e ∷ []

abbrev pub or_else : Option PresetState → Option PresetState → Option PresetState
or_else (some state) later = some state
or_else none later = later

-- The loop that returns at the first entry with a state.
unfoldable pub first_state : List SessionEntryLike → Option PresetState
unfolding entry_state
first_state [] = none
first_state (e ∷ es) = or_else (entry_state e) (first_state es)

-- From the last entry to the first.
unfoldable pub latest_preset_state : List SessionEntryLike → Option PresetState
unfolding first_state reverse
latest_preset_state entries = first_state (reverse entries)

-- The state that the entries leave when they are read in their order, a later one over an earlier.
unfoldable pub replay : Option PresetState → List SessionEntryLike → Option PresetState
unfolding entry_state
replay seen [] = seen
replay seen (e ∷ es) = replay (or_else (entry_state e) seen) es

or_else_assoc : (a b c : Option PresetState) → or_else (or_else a b) c ≡ or_else a (or_else b c)
or_else_assoc none b c = refl
or_else_assoc (some s) b c = refl

first_state-append :
    (xs ys : List SessionEntryLike)
    → first_state (xs ++ ys) ≡ or_else (first_state xs) (first_state ys)
unfolding first_state
first_state-append [] ys = refl
first_state-append (x ∷ xs) ys =
    ap (or_else (entry_state x)) (first_state-append xs ys)
    ∙ sym (or_else_assoc (entry_state x) (first_state xs) (first_state ys))

or_else-none : (a : Option PresetState) → or_else a none ≡ a
or_else-none none = refl
or_else-none (some s) = refl

latest_preset_state-cons :
    (e : SessionEntryLike) (es : List SessionEntryLike)
    → latest_preset_state (e ∷ es) ≡ or_else (latest_preset_state es) (entry_state e)
unfolding latest_preset_state first_state
latest_preset_state-cons e es =
    first_state-append (reverse es) (e ∷ [])
    ∙ ap (or_else (first_state (reverse es))) (or_else-none (entry_state e))

replay-latest_preset_state :
    (seen : Option PresetState) (es : List SessionEntryLike)
    → replay seen es ≡ or_else (latest_preset_state es) seen
unfolding replay latest_preset_state first_state
replay-latest_preset_state seen [] = refl
replay-latest_preset_state seen (e ∷ es) =
    replay-latest_preset_state (or_else (entry_state e) seen) es
    ∙ sym (or_else_assoc (latest_preset_state es) (entry_state e) seen)
    ∙ ap (λ s. or_else s seen) (sym (latest_preset_state-cons e es))

-- The search from the last entry finds the state that reading all entries in their order leaves.
pub latest_preset_state-replay :
    (entries : List SessionEntryLike) → latest_preset_state entries ≡ replay none entries
latest_preset_state-replay entries =
    sym (replay-latest_preset_state none entries ∙ or_else-none (latest_preset_state entries))
