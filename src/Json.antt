-- ===== src/Json.antt =====
-- Values of `JSON.parse` and of YAML, the program's `unknown` data. An absent field (`undefined`)
-- is the `none` of a lookup. A number is an integer, or a finite fraction of two naturals.
use remote_devbox.Base.{ℕ, String, Bool, Option, none, some, List, [], ◌∷◌, ◌==◌, if◌then◌else◌}

pub data Number : Type 0 where
  nat : ℕ → Number  -- n
  negsuc : ℕ → Number  -- -(n + 1)
  fraction : Bool → ℕ → ℕ → Number  -- sign, numerator, denominator; not an integer

mutual
  pub data Json : Type 0 where
    null : Json
    boolean : Bool → Json
    number : Number → Json
    string : String → Json
    array : Items → Json
    object : Fields → Json

  pub data Items : Type 0 where
    nil : Items
    cons : Json → Items → Items

  pub data Fields : Type 0 where
    end : Fields
    field : String → Json → Fields → Fields

-- The elements of an array, in order.
abbrev pub items : Items → List Json
items nil = []
items (cons v vs) = v ∷ items vs

abbrev pub of_items : List Json → Items
of_items [] = nil
of_items (v ∷ vs) = cons v (of_items vs)

-- `Object.entries(value)`.
abbrev pub entries : Fields → List (String × Json)
entries end = []
entries (field k v fs) = (k, v) ∷ entries fs

-- `value[key]`; a parsed object names a key once.
unfoldable pub get : String → Fields → Option Json
get key end = none
get key (field k v fs) = if k == key then some v else get key fs
