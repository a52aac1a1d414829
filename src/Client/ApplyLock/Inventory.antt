-- ===== src/Client/ApplyLock/Inventory.antt =====
-- inventoryTargets of apply-lock.ts: the hosts of a static inventory, from the text of its file. What
-- `toLowerCase` gives and the order of `sort` are parameters.
use Prim.Native.Char.{code}
use text.Mathlib.Text.{starts_with}
use remote_devbox.Base.{
  ℕ, String, Bool, false, not, none, some, List, [], ◌∷◌, ◌++◌, ◌==◌, ◌≡◌, refl, ◌||◌, ◌&&◌, eqb,
  every, any, find, is_space, one_of, codes, split, words, trim, strip, includes, is_empty,
  if◌then◌else◌,
}
use remote_devbox.Base.Attempts.{Attempt, done, throws}
use remote_devbox.Base.Sorting.{sort}
use remote_devbox.Doctor.Recover.{drop_end}

unfoldable pub ends_with : String → String → Bool
ends_with String.[] part = part == ""
ends_with (String.◌∷◌ c s) part = (String.◌∷◌ c s) == part || ends_with s part

-- `slice(1, -1)`.
unfoldable pub inner : String → String
inner String.[] = ""
inner (String.◌∷◌ c s) = drop_end 1 s

abbrev is_in_quotes : String → String → Bool
is_in_quotes mark value = starts_with value mark && ends_with value mark

unfoldable pub unquote : String → String
unfolding ends_with inner
unquote value = if is_in_quotes "\"" value || is_in_quotes "'" value then inner value else value

-- `\s*#.*$`; `.` is no line terminator.
unfoldable pub is_comment : List ℕ → Bool
is_comment [] = false
is_comment (c ∷ cs) =
    let rest = is_comment cs in
    if is_space c
    then rest
    else eqb c b'#' && every (λ d. not (one_of (10 ∷ 13 ∷ 8232 ∷ 8233 ∷ []) d)) cs

-- `replace(/\s+#.*$/, "")`.
unfoldable pub without_comment : String → String
unfolding is_comment
without_comment String.[] = ""
without_comment (String.◌∷◌ c s) =
    let rest = without_comment s in
    if is_space (code c) && is_comment (codes s) then "" else String.◌∷◌ c rest

-- `replace(/\.$/, "")`.
unfoldable pub without_dot : String → String
unfolding ends_with
without_dot host = if ends_with host "." then drop_end 1 host else host

pub record Reading : Type 0 where
  pub section : String
  pub targets : List String

abbrev pub added : String → List String → List String
added target targets = if any (λ t. t == target) targets then targets else targets ++ target ∷ []

-- The value of `ansible_host`, or the first field.
unfoldable pub stated_host : String → List String → String
stated_host name fields = elim (find (λ f. starts_with f "ansible_host=") fields) [
  | none ↦ name
  | some field ↦ elim (strip "ansible_host=" field) [ none ↦ name | some host ↦ host ]
]

module _ (lower : String → String) (before : String → String → Bool) where
  unfoldable pub add_host : List String → Reading → Reading
  unfolding stated_host unquote without_dot
  add_host [] r = r
  add_host (name ∷ fields) r =
      let target = lower (without_dot (unquote (stated_host name (name ∷ fields)))) in
      if name == "" || includes name "=" || target == ""
      then r
      else record r { targets = added target r.targets }

  unfoldable pub read_line : String → Reading → Reading
  unfolding ends_with inner add_host
  read_line line r =
      if line == "" || starts_with line "#" || starts_with line ";"
      then r
      else if starts_with line "[" && ends_with line "]"
      then record r { section = lower (trim (inner line)) }
      else if ends_with r.section ":vars" || ends_with r.section ":children"
      then r
      else add_host (words line) r

  unfoldable pub read_lines : List String → Reading → Reading
  unfolding read_line without_comment
  read_lines [] r = r
  read_lines (raw ∷ lines) r = read_lines lines (read_line (trim (without_comment raw)) r)

  unfoldable pub inventory_targets : (name : String) → (text : String) → Attempt (List String)
  unfolding read_lines
  inventory_targets name text =
      let r = read_lines (split b'\n' text) (record { section = ""; targets = [] }) in
      if is_empty r.targets
      then throws ("no static inventory hosts found in " ∷ name ∷ [])
      else done (sort before r.targets)

inventory_test :
    inventory_targets
      (λ s. s)
      (λ a b. false)
      "hosts"
      "[box]\nbox1 ansible_host='10.0.0.1.' # main\n; x\nbox2. x=1\n[box:vars]\na\n"
    ≡ done ("10.0.0.1" ∷ "box2" ∷ [])
unfolding inventory_targets split words trim includes sort strip drop_end
inventory_test = refl
