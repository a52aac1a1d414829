-- ===== src/Doctor/Parsing.antt =====
-- What the two parsers of the doctor share, box/doctor/src/facts.ts and document.ts: errors as
-- values, the patterns as tests on code points, and the closed vocabularies.
use mathlib.Core.Path.{subst}
use remote_devbox.Base.{
  ◌⊎◌, inl, inr, ◌≡◌, refl, arith, eqb, String, Bool, true, false, ◌&&◌, ◌||◌, Option, none, some,
  List, [], ◌∷◌, ◌==◌, concat, codes, word, one_of, is_lower, is_digit, leb, length, if◌then◌else◌,
}
use remote_devbox.Json.{number, nat, items, array, Json, string, object, Fields}
use remote_devbox.Doctor.Types.{
  RecoveryPolicy, automatic, manual, confirmation_required, HealthStatus, healthy, degraded,
  recovering, blocked, failed, unknown,
}

-- What is thrown: an `Error` with its message, or `UnsupportedSchemaError`.
pub data Failure : Type 0 where
  invalid : String → Failure
  unsupported_schema : Failure

pub data Result {ℓ} (A : Type ℓ) : Type ℓ where
  ok : A → Result A
  err : Failure → Result A

infixl 5 ◌>>◌ ◌>>=◌
abbrev pub ◌>>=◌ {ℓ κ} : {A : Type ℓ} {B : Type κ} → Result A → (A → Result B) → Result B
err failure >>= next = err failure
ok value >>= next = next value

abbrev pub ◌>>◌ {ℓ} : {B : Type ℓ} → Result (Unit {0}) → Result B → Result B
first >> second = first >>= λ _. second

-- `if (!test) throw new Error(message)`.
abbrev pub guard : Bool → Failure → Result (Unit {0})
guard test failure = if test then ok tt else err failure

-- `record(value, label)` and `object(value, label)`: null, an array and a scalar are refused.
unfoldable pub record_of : Option Json → String → Result Fields
record_of (some (object fs)) label = ok fs
record_of _ label = err (invalid (concat (label ∷ " must be an object" ∷ [])))

-- `/^[a-z0-9][a-z0-9._-]*$/`.
unfoldable pub is_component_id : String → Bool
is_component_id s =
    word (λ c. is_lower c || is_digit c)
      (λ c. is_lower c || is_digit c || one_of (b'.' ∷ b'_' ∷ b'-' ∷ []) c) (codes s)

-- `/^[a-z_][a-z0-9_-]{0,31}$/`.
unfoldable pub is_profile_name : String → Bool
is_profile_name s =
    word (λ c. is_lower c || eqb c b'_')
      (λ c. is_lower c || is_digit c || one_of (b'_' ∷ b'-' ∷ []) c) (codes s)
    && leb (length (codes s)) 32

-- A required text that passes a test.
unfoldable pub text_where : (String → Bool) → Option Json → Failure → Result String
text_where test (some (string s)) e = if test s then ok s else err e
text_where test _ e = err e

-- An optional text that passes a test.
unfoldable pub optional_where : (String → Bool) → Option Json → Failure → Result (Option String)
optional_where test none e = ok none
optional_where test (some (string s)) e = if test s then ok (some s) else err e
optional_where test (some _) e = err e

-- The key of a vocabulary with a text.
unfoldable pub choice {ℓ} : {A : Type ℓ} → List (String × A) → String → Option A
choice [] s = none
choice ((k, a) ∷ rest) s = if k == s then some a else choice rest s

abbrev pub policies : List (String × RecoveryPolicy)
policies =
    ("automatic", automatic)
    ∷ ("manual", manual)
    ∷ ("confirmation-required", confirmation_required)
    ∷ ("none", RecoveryPolicy.none)
    ∷ []

abbrev pub statuses : List (String × HealthStatus)
statuses =
    ("healthy", healthy)
    ∷ ("degraded", degraded)
    ∷ ("recovering", recovering)
    ∷ ("blocked", blocked)
    ∷ ("failed", failed)
    ∷ ("unknown", unknown)
    ∷ []

-- `SET.has(value)` for a set of texts; what is no text is in none.
unfoldable pub choice_of {ℓ} : {A : Type ℓ} → List (String × A) → Option Json → Failure → Result A
unfolding choice
choice_of vocabulary (some (string s)) e = elim (choice vocabulary s) [
  | none ↦ err e
  | some a ↦ ok a
]
choice_of vocabulary _ e = err e

-- A field with a closed vocabulary that may be left out.
unfoldable pub optional_choice {ℓ} :
    {A : Type ℓ} → List (String × A) → Option Json → Failure → Result (Option A)
unfolding choice
optional_choice vocabulary none e = ok none
optional_choice vocabulary (some (string s)) e = elim (choice vocabulary s) [
  | none ↦ err e
  | some a ↦ ok (some a)
]
optional_choice vocabulary (some _) e = err e

-- `` `${before}${middle}${after}` `` as the message of an `Error`.
unfoldable pub message : String → String → String → Failure
message before middle after = invalid (concat (before ∷ middle ∷ after ∷ []))

-- `raw.schemaVersion === 1`.
unfoldable pub is_one : Option Json → Bool
is_one (some (number (nat n))) = eqb n 1
is_one _ = false

-- A list of values, or what is thrown.
unfoldable pub list_of : Option Json → Failure → Result (List Json)
list_of (some (array vs)) e = ok (items vs)
list_of _ e = err e

-- What holds of every value that a parse returns, and its rules for a chain.
abbrev pub Ensures {ℓ κ} : {A : Type ℓ} → (A → Type κ) → Result A → Type (ℓ ⊔ κ)
Ensures {A} Q r = (a : A) → r ≡ ok a → Q a

pub >>=-Ensures {ℓ κ μ} :
    {A : Type ℓ} {B : Type κ} (Q : B → Type μ) (m : Result A) (f : A → Result B)
    → ((a : A) → m ≡ ok a → Ensures Q (f a))
    → Ensures Q (m >>= f)
>>=-Ensures Q (ok a) f h = h a refl
>>=-Ensures Q (err e) f h = λ b same. absurd (cc)

pub guard-Ensures {ℓ κ} :
    {B : Type ℓ} (Q : B → Type κ) (b : Bool) (e : Failure) (k : Result B)
    → (b ≡ true → Ensures Q k)
    → Ensures Q (guard b e >> k)
guard-Ensures Q true e k h = h refl
guard-Ensures Q false e k h = λ b same. absurd (cc)

ok_inj {ℓ} : {A : Type ℓ} {a b : A} → Result.ok a ≡ ok b → a ≡ b
ok_inj e = ground arith

pub ok-Ensures {ℓ κ} : {B : Type ℓ} (Q : B → Type κ) (b : B) → Q b → Ensures Q (ok b)
ok-Ensures Q b q a same = subst Q (ok_inj same) q

pub text_where-ok :
    (test : String → Bool) (v : Option Json) (e : Failure) {s : String}
    → text_where test v e ≡ ok s
    → test s ≡ true
unfolding text_where
text_where-ok test v e h = ground arith

-- A text that is there passes the test.
abbrev pub Passes : (String → Bool) → Option String → Type 0
Passes test none = Unit
Passes test (some s) = test s ≡ true

pub optional_where-Passes :
    (test : String → Bool) (v : Option Json) (e : Failure) (o : Option String)
    → optional_where test v e ≡ ok o
    → Passes test o
unfolding optional_where
optional_where-Passes test v e none h = tt
optional_where-Passes test v e (some s) h = ground arith

pub Result-cases {ℓ} :
    {A : Type ℓ} (r : Result A)
    → ((a : A) × (r ≡ ok a))
      ⊎ ((r ≡ err unsupported_schema) ⊎ ((m : String) × (r ≡ err (invalid m))))
Result-cases (ok a) = inl (a, refl)
Result-cases (err unsupported_schema) = inr (inl refl)
Result-cases (err (invalid m)) = inr (inr (m, refl))
