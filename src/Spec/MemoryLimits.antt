-- ===== src/Spec/MemoryLimits.antt =====
-- clients/devbox/src/spec/memory-limit.ts: canonicalMemorySize, isMemoryWeight, formatMemoryLimit.
pub mod Sizes
pub mod Percents
pub mod Canonical
use Prim.Native.String
use Prim.Native.Char.{Char, code}
use remote_devbox.Base.{
  ℕ, String, Bool, true, false, ◌&&◌, ◌||◌, Option, none, some, List, [], ◌∷◌, ◌==◌, ◌≡◌, refl, eqb,
  is_digit, one_of, codes, or_default, decimal, between, ltb, if◌then◌else◌,
}
use remote_devbox.Json.{Json, object, number, field, end, nat}

-- `/^(?:[1-9]\d?|100)%$/`.
unfoldable pub is_percent : List ℕ → Bool
is_percent (a ∷ b ∷ []) = between b'1' b'9' a && eqb b b'%'
is_percent (a ∷ b ∷ c ∷ []) = between b'1' b'9' a && is_digit b && eqb c b'%'
is_percent (a ∷ b ∷ c ∷ d ∷ []) = eqb a b'1' && eqb b b'0' && eqb c b'0' && eqb d b'%'
is_percent _ = false

abbrev pub is_unit : ℕ → Bool
is_unit = one_of (b'K' ∷ b'M' ∷ b'G' ∷ b'T' ∷ [])

-- What follows the digits in `/^(\d+)([KMGT]?)(?:B)?$/`: the unit.
unfoldable pub unit_of : String → Option String
unit_of String.[] = some ""
unit_of (String.◌∷◌ c String.[]) =
    if is_unit (code c) then some (String.◌∷◌ c "") else if eqb (code c) b'B' then some "" else none
unit_of (String.◌∷◌ c (String.◌∷◌ d String.[])) =
    if is_unit (code c) && eqb (code d) b'B' then some (String.◌∷◌ c "") else none
unit_of _ = none

abbrev prepend : Char → Option String → Option String
prepend c none = none
prepend c (some s) = some (String.◌∷◌ c s)

-- The digits to the end of them, and the unit: the amount and the unit one after the other.
unfoldable pub size_from : String → Option String
unfolding unit_of
size_from String.[] = some ""
size_from (String.◌∷◌ c s) =
    let longer = prepend c (size_from s) in
    let unit = unit_of (String.◌∷◌ c s) in if is_digit (code c) then longer else unit

unfoldable pub direct_size : String → Option String
unfolding size_from
direct_size String.[] = none
direct_size (String.◌∷◌ c s) =
    let size = prepend c (size_from s) in if is_digit (code c) then size else none

unfoldable pub canonical_memory_size : String → Option String
unfolding is_percent direct_size
canonical_memory_size value =
    if value == "" || is_percent (codes value) then some value else direct_size value

-- `entries.length === 1`, and its value an integer above zero.
unfoldable pub is_memory_weight : Json → Bool
is_memory_weight (object (field key (number (nat n)) end)) = key == "weight" && ltb 0 n
is_memory_weight _ = false

pub data MemoryLimitSpec : Type 0 where
  text : String → MemoryLimitSpec
  weight : ℕ → MemoryLimitSpec

unfoldable pub format_memory_limit : MemoryLimitSpec → String
unfolding canonical_memory_size
format_memory_limit (text value) = or_default (canonical_memory_size value) value
format_memory_limit (weight n) = decimal n

canonical_test : canonical_memory_size "128GB" ≡ some "128G"
unfolding canonical_memory_size
canonical_test = refl

canonical_plain_test : canonical_memory_size "12B" ≡ some "12"
unfolding canonical_memory_size
canonical_plain_test = refl

canonical_other_test : canonical_memory_size "12GK" ≡ none
unfolding canonical_memory_size
canonical_other_test = refl
