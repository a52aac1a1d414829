-- ===== src/Client/Presets/Parsing/Retry.antt =====
-- parseRetryPolicy of clients/devbox/src/omp-model-presets/core.ts, and isRecord.
use remote_devbox.Base.{
  ℕ, String, Bool, Option, none, some, List, [], ◌∷◌, ◌++◌, ◌==◌, ◌&&◌, not, map, join, leb, trim,
  is_empty, if◌then◌else◌,
}
use remote_devbox.Base.Attempts.{Attempt, done, throws, need, ◌>>=◌, ◌>>◌}
use remote_devbox.Json.{
  Json, null, boolean, number, string, array, object, Items, nil, cons, items, Number, nat, Fields,
  entries, get,
}
use remote_devbox.Client.Presets.{ParsedRetryPolicy, is_in}

-- A value that `isRecord` accepts, with its fields, or the error.
unfoldable pub fields_of : Option Json → List String → Attempt Fields
fields_of (some (object fields)) pieces = done fields
fields_of _ pieces = throws pieces

-- `Object.keys(value)`.
abbrev pub keys : Fields → List String
keys fields = map (λ p. p.0) (entries fields)

-- `for (const key of keys) if (!allowed.has(key)) throw …`.
unfoldable pub only : List String → (String → List String) → List String → Attempt (Unit {0})
unfolding is_in
only allowed pieces [] = done tt
only allowed pieces (key ∷ rest) = need (is_in key allowed) (pieces key) >> only allowed pieces rest

unfoldable pub boolean_of : Option Json → List String → Attempt Bool
boolean_of (some (boolean b)) pieces = done b
boolean_of _ pieces = throws pieces

-- An integer in 1..100.
unfoldable pub percent_of : Option Json → List String → Attempt ℕ
percent_of (some (number (nat n))) pieces = if leb 1 n && leb n 100 then done n else throws pieces
percent_of _ pieces = throws pieces

-- A text that is not empty and has no blank at its ends.
unfoldable pub is_trimmed : String → Bool
is_trimmed s = not (s == "") && trim s == s

unfoldable pub fallbacks_from : String → List String → List Json → Attempt (List String)
unfolding is_in is_trimmed
fallbacks_from selector seen [] = done seen
fallbacks_from selector seen (string s ∷ rest) = do
  need (is_trimmed s && not (is_in s seen))
      ("retry.fallback_chains '" ∷ selector ∷ "' contains an invalid fallback selector" ∷ [])
  fallbacks_from selector (seen ++ s ∷ []) rest
fallbacks_from selector seen (_ ∷ rest) =
    throws ("retry.fallback_chains '" ∷ selector ∷ "' contains an invalid fallback selector" ∷ [])

-- The elements of a list that has one.
unfoldable pub elements_of : Json → List String → Attempt (List Json)
elements_of (array vs) pieces = if is_empty (items vs) then throws pieces else done (items vs)
elements_of _ pieces = throws pieces

-- An assignment to the key `__proto__` makes no entry.
unfoldable pub enter :
    String → List String → List (String × List String) → List (String × List String)
enter selector fallbacks chains =
    if selector == "__proto__" then chains else (selector, fallbacks) ∷ chains

unfoldable pub chains_from : List (String × Json) → Attempt (List (String × List String))
unfolding fallbacks_from elements_of enter
chains_from [] = done []
chains_from ((selector, value) ∷ rest) = do
  need (is_trimmed selector) ("retry.fallback_chains '" ∷ selector ∷ "' is invalid" ∷ [])
  raw ← elements_of value ("retry.fallback_chains '" ∷ selector ∷ "' is invalid" ∷ [])
  fallbacks ← fallbacks_from selector [] raw
  chains ← chains_from rest
  done (enter selector fallbacks chains)

abbrev pub retry_fields : List String
retry_fields =
    "model_fallback" ∷ "usage_aware_fallback" ∷ "usage_reserve_pct" ∷ "usage_reserve_policy"
    ∷ "fallback_revert_policy" ∷ "fallback_chains" ∷ []

abbrev pub reserve_policies : List String
reserve_policies = "confirm" ∷ "auto" ∷ "fail-closed" ∷ []

abbrev pub revert_policies : List String
revert_policies = "cooldown-expiry" ∷ "never" ∷ []

-- A mapping with an entry.
unfoldable pub chain_entries : Option Json → List String → Attempt (List (String × Json))
chain_entries (some (object fields)) pieces =
    if is_empty (entries fields) then throws pieces else done (entries fields)
chain_entries _ pieces = throws pieces

-- `number_text` is `String(n)` of a number.
module _ (number_text : Number → String) where
  -- `String(value)`; a list is its elements with commas between, null among them as nothing.
  mutual
    pub string_of : Json → String
    string_of null = "null"
    string_of (boolean b) = if b then "true" else "false"
    string_of (number n) = number_text n
    string_of (string s) = s
    string_of (array vs) = join "," (strings_of vs)
    string_of (object fields) = "[object Object]"

    strings_of : Items → List String
    strings_of nil = []
    strings_of (cons null vs) = "" ∷ strings_of vs
    strings_of (cons v vs) = string_of v ∷ strings_of vs

  unfoldable pub policy_of : List String → Option Json → List String → Attempt Json
  unfolding is_in
  policy_of allowed none pieces = throws pieces
  policy_of allowed (some value) pieces =
      if is_in (string_of value) allowed then done value else throws pieces

  unfoldable pub policy_from : Fields → Attempt ParsedRetryPolicy
  unfolding only boolean_of percent_of policy_of chain_entries chains_from
  policy_from raw = do
    only retry_fields (λ key. "unknown OMP retry field '" ∷ key ∷ "'" ∷ []) (keys raw)
    model_fallback ←
        boolean_of (get "model_fallback" raw) ("retry.model_fallback must be true or false" ∷ [])
    usage_aware ←
        boolean_of (get "usage_aware_fallback" raw)
          ("retry.usage_aware_fallback must be true or false" ∷ [])
    percent ←
        percent_of (get "usage_reserve_pct" raw)
          ("retry.usage_reserve_pct must be an integer in 1..100" ∷ [])
    reserve ←
        policy_of reserve_policies (get "usage_reserve_policy" raw)
          ("retry.usage_reserve_policy is unsupported" ∷ [])
    revert ←
        policy_of revert_policies (get "fallback_revert_policy" raw)
          ("retry.fallback_revert_policy is unsupported" ∷ [])
    raw_chains ←
        chain_entries (get "fallback_chains" raw)
          ("retry.fallback_chains must be a non-empty mapping" ∷ [])
    chains ← chains_from raw_chains
    done (record {
      model_fallback = model_fallback;
      usage_aware_fallback = usage_aware;
      usage_reserve_pct = percent;
      usage_reserve_policy = reserve;
      fallback_revert_policy = revert;
      fallback_chains = chains;
    })

  unfoldable pub parse_retry_policy : Option Json → Attempt (Option ParsedRetryPolicy)
  unfolding fields_of policy_from
  parse_retry_policy none = done none
  parse_retry_policy raw = do
    fields ← fields_of raw ("retry must be a mapping" ∷ [])
    policy ← policy_from fields
    done (some policy)
