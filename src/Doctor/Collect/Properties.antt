-- ===== src/Doctor/Collect/Properties.antt =====
-- The texts that the collector of box/doctor/src/collect.ts reads: `systemctl show` and `ss`.
use Prim.Native.Char.{code}
use Prim.Native.String
use mathlib.Core.Path.{◌≡◌, refl}
use remote_devbox.Base.{
  ℕ, String, Option, none, some, List, [], ◌∷◌, ◌==◌, map, filter, not, trim, split, cut,
  or_default, eqb, if◌then◌else◌,
}

-- `KEY=value`; a line with no `=` is a key with an empty value.
key_value : String → String × String
key_value line = or_default (cut b'=' line) (line, "")

-- `systemdProperties(output)`, as the entries that `Object.fromEntries` is given.
unfoldable pub systemd_properties : String → List (String × String)
unfolding key_value
systemd_properties output =
    map key_value (filter (λ line. not (line == "")) (map trim (split 10 output)))

-- A field of the object: of two entries with a key the later one counts.
unfoldable pub property : String → List (String × String) → Option String
property key [] = none
property key ((k, v) ∷ rest) =
    let later = property key rest in
    elim later [ some w ↦ some w | none ↦ if k == key then some v else none ]

-- Where a scan for `("name"` stands.
pub data Scan : Type 0 where
  outside opened : Scan
  inside : String → Scan

-- The name that is complete at this character, and where the scan stands after it.
scan_step : Scan → ℕ → String → Option String × Scan
scan_step outside c one = (none, if eqb c b'(' then opened else outside)
scan_step opened c one =
    (none, if eqb c 34 then inside "" else if eqb c b'(' then opened else outside)
scan_step (inside name) c one =
    if eqb c 34
    then (if name == "" then none else some name, outside)
    else (none, inside (String.◌++◌ name one))

found : Option String → List String → List String
found none names = names
found (some name) names = name ∷ names

scan_from : Scan → String → List String
unfolding scan_step found
scan_from state String.[] = []
scan_from state (String.◌∷◌ c s) =
    let (name, next) = scan_step state (code c) (String.◌∷◌ c "") in found name (scan_from next s)

-- The first groups of `line.matchAll(/\("([^"]+)"/g)`.
unfoldable pub quoted_names : String → List String
unfolding scan_from
quoted_names line = scan_from outside line

quoted_names_test : quoted_names "users:((\"sshd\",pid=1,fd=3),(\"x\",pid=2))" ≡ "sshd" ∷ "x" ∷ []
unfolding quoted_names
quoted_names_test = refl
