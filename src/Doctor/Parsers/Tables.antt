-- ===== src/Doctor/Parsers/Tables.antt =====
-- mem.ts, swap.ts and rc.ts of box/doctor/src/parse: rows of fields with blanks between them.
use remote_devbox.Base.{
  ℕ, zero, suc, ◌+◌, ◌-◌, ◌*◌, String, Bool, true, false, not, Option, none, some, List, [], ◌∷◌,
  ◌==◌, ◌≡◌, refl, map, filter, find, split, words, trim, codes, is_digit, every, eqb,
  if◌then◌else◌,
}
use remote_devbox.Base.Attempts.{Attempt, done, throws}
use text.Mathlib.Text.{starts_with}
use remote_devbox.Doctor.Types.{RcUnit}

-- `Number(text)`: a decimal integer, or what any other text gives, kept as the text; `nan` is that of
-- a field that is not there. An integer is exact below 2 ^ 53.
pub data Numeral : Type 0 where
  whole : ℕ → Numeral
  minus : ℕ → Numeral
  other : String → Numeral
  nan : Numeral

digits_value : ℕ → List ℕ → ℕ
digits_value n [] = n
digits_value n (c ∷ cs) = digits_value (n * 10 + (c - 48)) cs

abbrev all_digits : List ℕ → Bool
all_digits [] = false
all_digits (c ∷ cs) = every is_digit (c ∷ cs)

signed : String → List ℕ → Numeral
unfolding digits_value
signed text [] = other text
signed text (c ∷ cs) =
    if all_digits (c ∷ cs)
    then whole (digits_value 0 (c ∷ cs))
    else if eqb c b'-'
    then (if all_digits cs then minus (digits_value 0 cs) else other text)
    else other text

unfoldable pub number_of : Option String → Numeral
unfolding signed
number_of none = nan
number_of (some text) = signed text (codes text)

-- `fields[i]`.
unfoldable pub field_at : ℕ → List String → Option String
field_at i [] = none
field_at zero (f ∷ fs) = some f
field_at (suc i) (f ∷ fs) = field_at i fs

pub record MemInfo : Type 0 where
  pub total_bytes : Numeral
  pub used_bytes : Numeral
  pub free_bytes : Numeral
  pub available_bytes : Numeral

unfoldable pub mem_row : Option String → Attempt MemInfo
unfolding number_of field_at
mem_row none = throws ("parseMem: no Mem: row in `free -b` output" ∷ [])
mem_row (some line) =
    let fields = words (trim line) in
    done (record {
      total_bytes = number_of (field_at 1 fields);
      used_bytes = number_of (field_at 2 fields);
      free_bytes = number_of (field_at 3 fields);
      available_bytes = number_of (field_at 6 fields);
    })

unfoldable pub parse_mem : String → Attempt MemInfo
unfolding mem_row
parse_mem output = mem_row (find (λ l. starts_with l "Mem:") (split b'\n' output))

pub record SwapDevice : Type 0 where
  pub name : String
  pub type_of : String
  pub size_bytes : Numeral
  pub used_bytes : Numeral
  pub priority : Numeral

-- A row with five fields or more.
unfoldable pub swap_device : List String → Option SwapDevice
unfolding number_of
swap_device (name ∷ type ∷ size ∷ used ∷ priority ∷ _) = some (record {
  name = name;
  type_of = type;
  size_bytes = number_of (some size);
  used_bytes = number_of (some used);
  priority = number_of (some priority);
})
swap_device _ = none

-- The rows that have enough fields.
abbrev pub map_some : {A B : Type 0} → (A → Option B) → List A → List B
map_some f [] = []
map_some f (x ∷ xs) = elim (f x) [ none ↦ map_some f xs | some y ↦ y ∷ map_some f xs ]

unfoldable pub parse_swap : String → List SwapDevice
unfolding swap_device
parse_swap output =
    map_some (λ l. swap_device (words l))
      (filter (λ l. not (l == "")) (map trim (split b'\n' output)))

-- A row with four fields or more.
unfoldable pub rc_unit_of : List String → Option RcUnit
rc_unit_of (unit ∷ load ∷ active ∷ sub ∷ _) =
    some (record { unit = unit; loaded = load == "loaded"; active = active; sub = sub })
rc_unit_of _ = none

unfoldable pub parse_rc_units : String → List RcUnit
unfolding rc_unit_of
parse_rc_units output =
    map_some (λ l. rc_unit_of (words l))
      (filter (λ l. starts_with l "agent-rc-") (map trim (split b'\n' output)))

swap_test :
    parse_swap "/swapfile file 8589934592 0 -1\nbad row\n"
    ≡ record {
      name = "/swapfile";
      type_of = "file";
      size_bytes = whole 8589934592;
      used_bytes = whole 0;
      priority = minus 1;
    }
      ∷ []
unfolding parse_swap split trim words
swap_test = refl

rc_test :
    parse_rc_units "  agent-rc-a.service loaded failed failed x\nagent-rc-b.service loaded\n"
    ≡ record { unit = "agent-rc-a.service"; loaded = true; active = "failed"; sub = "failed" } ∷ []
unfolding parse_rc_units split trim words
rc_test = refl
