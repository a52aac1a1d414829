-- ===== src/Client/Presets.antt =====
-- clients/devbox/src/omp-model-presets/core.ts: the data of model presets. A record that has one
-- entry for each role is a record with a field for each; other mappings are association lists.

pub mod Parsing
pub mod State
pub mod Controller
pub mod Formatting
use remote_devbox.Base.{ℕ, String, Bool, Option, none, some, List, [], ◌∷◌, ◌==◌, if◌then◌else◌}
use remote_devbox.Json.{Json}

pub data OmpModelRole : Type 0 where
  default smol slow vision plan designer commit tiny task advisor : OmpModelRole

abbrev pub model_role_ids : List OmpModelRole
model_role_ids =
    default ∷ smol ∷ slow ∷ vision ∷ plan ∷ designer ∷ commit ∷ tiny ∷ task ∷ advisor ∷ []

abbrev pub role_id : OmpModelRole → String
role_id default = "default"
role_id smol = "smol"
role_id slow = "slow"
role_id vision = "vision"
role_id plan = "plan"
role_id designer = "designer"
role_id commit = "commit"
role_id tiny = "tiny"
role_id task = "task"
role_id advisor = "advisor"

abbrev pub thinking_levels : List String
thinking_levels = "inherit" ∷ "off" ∷ "minimal" ∷ "low" ∷ "medium" ∷ "high" ∷ "xhigh" ∷ "max" ∷ []

abbrev pub preset_state_custom_type : String
preset_state_custom_type = "omp-model-presets/state"

abbrev pub preset_reserved_names : List String
preset_reserved_names = "status" ∷ "list" ∷ "show" ∷ "reset" ∷ []

-- `Record<OmpModelRole, A>`.
pub record Roles (A : Type 0) : Type 0 where
  pub default : A
  pub smol : A
  pub slow : A
  pub vision : A
  pub plan : A
  pub designer : A
  pub commit : A
  pub tiny : A
  pub task : A
  pub advisor : A

-- `roles[role]`.
abbrev pub role_of : {A : Type 0} → OmpModelRole → Roles A → A
role_of default rs = rs.default
role_of smol rs = rs.smol
role_of slow rs = rs.slow
role_of vision rs = rs.vision
role_of plan rs = rs.plan
role_of designer rs = rs.designer
role_of commit rs = rs.commit
role_of tiny rs = rs.tiny
role_of task rs = rs.task
role_of advisor rs = rs.advisor

-- A thinking level is one of the texts above.
pub record ParsedRoleSelection : Type 0 where
  pub selector : String
  pub model_selector : String
  pub thinking : Option String

pub record ParsedPreset : Type 0 where
  pub roles : Roles ParsedRoleSelection
  pub selectors : Roles String

-- The two policies are the values as they were read, which the source takes for texts.
pub record ParsedRetryPolicy : Type 0 where
  pub model_fallback : Bool
  pub usage_aware_fallback : Bool
  pub usage_reserve_pct : ℕ
  pub usage_reserve_policy : Json
  pub fallback_revert_policy : Json
  pub fallback_chains : List (String × List String)

pub record ParsedPresetDocument : Type 0 where
  pub default_preset : String
  pub presets : List (String × ParsedPreset)
  pub aliases : List (String × String)
  pub retry : Option ParsedRetryPolicy

-- `none` is the state of an override that was reset.
pub record PresetState : Type 0 where
  pub preset : Option String

pub record SessionEntryLike : Type 0 where
  pub custom_type : Option Json
  pub data_of : Option Json

-- `{ activePreset, defaultPreset }`.
pub record PresetStatus : Type 0 where
  pub active_preset : Option String
  pub default_preset : String

-- `mapping[key]` of an own key. A name that every object inherits, such as `constructor`, is no
-- preset's; the source throws for it as for any other, with another message.
unfoldable pub value_at : {A : Type 0} → String → List (String × A) → Option A
value_at key [] = none
value_at key ((k, a) ∷ rest) = if k == key then some a else value_at key rest

-- `names.includes(name)`.
unfoldable pub is_in : String → List String → Bool
is_in name [] = Bool.false
is_in name (s ∷ ss) = if s == name then Bool.true else is_in name ss
