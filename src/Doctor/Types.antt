-- ===== src/Doctor/Types.antt =====
-- box/doctor/src/types.ts and the fact types of facts.ts.
use remote_devbox.Base.{ℕ, String, Bool, Option, List}

pub record RcUnit : Type 0 where
  pub unit : String
  pub loaded : Bool
  pub active : String
  pub sub : String

pub data SessionState : Type 0 where
  active idle dead : SessionState

pub record Worktree : Type 0 where
  pub path : String
  pub branch : String
  pub locked : Bool
  pub cse : Option String

pub record ProcRef : Type 0 where
  pub pid : ℕ
  pub cmd : String

pub data ConditionSeverity : Type 0 where
  high medium low : ConditionSeverity

-- `facts` is a record of named values; those that the program builds are texts.
pub record Condition : Type 0 where
  pub id : String
  pub severity : ConditionSeverity
  pub facts : List (String × String)
  pub candidate_action : String
  pub guard : String

pub data HealthStatus : Type 0 where
  healthy degraded recovering blocked failed unknown : HealthStatus

pub data RecoveryPolicy : Type 0 where
  automatic manual confirmation_required none : RecoveryPolicy

pub record HealthResult : Type 0 where
  pub id : String
  pub profile : Option String
  pub status : HealthStatus
  pub expected : List String
  pub observed : List String
  pub reason : Option String
  pub recovery : RecoveryPolicy

pub record HealthDocument : Type 0 where
  pub schema_version : ℕ
  pub status : HealthStatus
  pub observed_at : String
  pub components : List HealthResult

pub data ProcessMatch : Type 0 where
  exact prefix : ProcessMatch

-- `TcpListenerFact | UnixListenerFact`.
pub data Listener : Type 0 where
  tcp : (address : String) (port : ℕ) (process : String) → Option ProcessMatch → Listener
  unix : (path process : String) → Option ProcessMatch → Listener

pub data UnitScope : Type 0 where
  system user : UnitScope

pub record HealthComponentFact : Type 0 where
  pub id : String
  pub profile : Option String
  pub unit : Option String
  pub unit_scope : Option UnitScope
  pub listeners : Option (List Listener)
  pub recovery : RecoveryPolicy

pub record HealthFacts : Type 0 where
  pub schema_version : ℕ
  pub components : List HealthComponentFact
