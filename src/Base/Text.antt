-- ===== src/Base/Text.antt =====
-- Texts: character classes by code point, and the operations of JavaScript strings that the
-- program uses. A text walks as `String.◌∷◌ c s`.
use Prim.Native.Nat.{ℕ, zero, suc, ◌/◌, ◌%◌}
use Prim.Native.Char.{code}
use Prim.Native.String
use Prim.Native.String.{String}
use mathlib.Core.Path.{◌≡◌, refl}
use mathlib.Core.Bool.{Bool, true, false, not, ◌&&◌, ◌||◌}
use mathlib.Core.Option
use mathlib.Core.Option.{Option, none, some}
use mathlib.Core.List.{List, [], ◌∷◌}
use text.Mathlib.Text.{◌==◌, starts_with}
use remote_devbox.Base.Tests.{leb, eqb, if◌then◌else◌}

-- The code points of a text.
abbrev pub codes : String → List ℕ
codes String.[] = []
codes (String.◌∷◌ c s) = code c ∷ codes s

abbrev pub between : ℕ → ℕ → ℕ → Bool
between lo hi c = leb lo c && leb c hi

abbrev pub is_lower : ℕ → Bool
is_lower = between b'a' b'z'

abbrev pub is_upper : ℕ → Bool
is_upper = between b'A' b'Z'

abbrev pub is_digit : ℕ → Bool
is_digit = between b'0' b'9'

abbrev pub is_alnum : ℕ → Bool
is_alnum c = is_lower c || is_upper c || is_digit c

-- One of the given characters.
abbrev pub one_of : List ℕ → ℕ → Bool
one_of [] c = false
one_of (d ∷ ds) c = eqb c d || one_of ds c

-- `\s` of a JavaScript pattern, and what `trim` removes.
abbrev pub is_space : ℕ → Bool
is_space c =
    between 9 13 c
    || eqb c 32
    || eqb c 160
    || eqb c 5760
    || between 8192 8202 c
    || eqb c 8232
    || eqb c 8233
    || eqb c 8239
    || eqb c 8287
    || eqb c 12288
    || eqb c 65279

-- `[…]*` over the rest of the text.
abbrev pub every : (ℕ → Bool) → List ℕ → Bool
every p [] = true
every p (c ∷ cs) = p c && every p cs

-- `^[first][rest]*$`.
abbrev pub word : (ℕ → Bool) → (ℕ → Bool) → List ℕ → Bool
word p q [] = false
word p q (c ∷ cs) = p c && every q cs

-- The texts one after the other, `${a}${b}…`.
abbrev pub concat : List String → String
concat [] = ""
concat (s ∷ ss) = String.◌++◌ s (concat ss)

-- `parts.join(sep)`.
abbrev pub join : String → List String → String
join sep [] = ""
join sep (s ∷ []) = s
join sep (s ∷ t ∷ ss) = String.◌++◌ s (String.◌++◌ sep (join sep (t ∷ ss)))

-- The text after a prefix, if it begins with it.
unfoldable pub strip : String → String → Option String
strip String.[] s = some s
strip (String.◌∷◌ c p) String.[] = none
strip (String.◌∷◌ c p) (String.◌∷◌ d s) =
    let rest = strip p s in if eqb (code c) (code d) then rest else none

-- `text.includes(part)`.
unfoldable pub includes : String → String → Bool
includes String.[] part = part == ""
includes (String.◌∷◌ c s) part = starts_with (String.◌∷◌ c s) part || includes s part

-- `text.split(c)` at a separator of one character; `cur` is the part being read.
unfoldable pub split_from : ℕ → String → String → List String
split_from d cur String.[] = cur ∷ []
split_from d cur (String.◌∷◌ c s) =
    let closed = cur ∷ split_from d "" s in
    let longer = split_from d (String.◌++◌ cur (String.◌∷◌ c "")) s in
    if eqb (code c) d then closed else longer

unfoldable pub split : ℕ → String → List String
unfolding split_from
split d s = split_from d "" s

-- `text.split(/\s+/)`; `gap` tells that the last character was blank, and then `cur` is empty.
words_from : String → Bool → String → List String
words_from cur gap String.[] = cur ∷ []
words_from cur gap (String.◌∷◌ c s) =
    let blank = is_space (code c) in
    let rest = words_from (if blank then "" else String.◌++◌ cur (String.◌∷◌ c "")) blank s in
    if blank && not gap then cur ∷ rest else rest

unfoldable pub words : String → List String
unfolding words_from
words s = words_from "" false s

-- `text.trim()`.
trim_start : String → String
trim_start String.[] = ""
trim_start (String.◌∷◌ c s) = if is_space (code c) then trim_start s else String.◌∷◌ c s

trim_end : String → String
trim_end String.[] = ""
trim_end (String.◌∷◌ c s) =
    let rest = trim_end s in if is_space (code c) && rest == "" then "" else String.◌∷◌ c rest

unfoldable pub trim : String → String
unfolding trim_start trim_end
trim s = trim_end (trim_start s)

-- The texts before and after the first such character.
unfoldable pub cut : ℕ → String → Option (String × String)
cut d String.[] = none
cut d (String.◌∷◌ c s) =
    let rest = cut d s in
    if eqb (code c) d then some ("", s) else Option.map (λ p. (String.◌∷◌ c p.0, p.1)) rest

digit : ℕ → String
digit zero = "0"
digit (suc zero) = "1"
digit (suc (suc zero)) = "2"
digit (suc (suc (suc zero))) = "3"
digit (suc (suc (suc (suc zero)))) = "4"
digit (suc (suc (suc (suc (suc zero))))) = "5"
digit (suc (suc (suc (suc (suc (suc zero)))))) = "6"
digit (suc (suc (suc (suc (suc (suc (suc zero))))))) = "7"
digit (suc (suc (suc (suc (suc (suc (suc (suc zero)))))))) = "8"
digit _ = "9"

-- Digits of a number, the lowest first to be read; a number below `fuel` has fewer digits.
decimal_from : ℕ → ℕ → String → String
decimal_from zero n out = out
decimal_from (suc fuel) n out =
    let more = decimal_from fuel (n / 10) (String.◌++◌ (digit (n % 10)) out) in
    if eqb (n / 10) 0 then String.◌++◌ (digit n) out else more

-- `String(n)` of a natural number.
unfoldable pub decimal : ℕ → String
unfolding decimal_from digit
decimal n = decimal_from (suc n) n ""

decimal_test : decimal 65535 ≡ "65535"
unfolding decimal
decimal_test = refl

split_test : split b'/' "a//b" ≡ "a" ∷ "" ∷ "b" ∷ []
unfolding split
split_test = refl

includes_test : includes "xbridge-1" "bridge" ≡ true
unfolding includes
includes_test = refl

words_test : words " a\t b c " ≡ "" ∷ "a" ∷ "b" ∷ "c" ∷ "" ∷ []
unfolding words
words_test = refl

trim_test : trim "  a b\t" ≡ "a b"
unfolding trim
trim_test = refl

cut_test : cut b'=' "a=b=c" ≡ some ("a", "b=c")
unfolding cut
cut_test = refl
