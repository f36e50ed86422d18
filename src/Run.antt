-- ===== src/Run.antt =====
-- runtime/run_state.py: the state of a run, the line that each mutation appends, and the claims.
pub mod World
pub mod Log
pub mod Claims
pub mod Mutate
use my_org.Common.{
  ℕ, ◌+◌, String, Bool, true, false, not, ◌&&◌, Option, none, some, List, [], ◌∷◌, if◌then◌else◌,
  ◌==◌, ltb,
}
use my_org.Steps.{Step, Steps}

-- TERMINAL_RUN, "active", and any other text that a change could leave.
pub data RunStatus : Type 0 where
  active completed rejected blocked_human blocked_retry_limit blocked_cycle_limit
        blocked_review_limit rejected_by_checker cancelled :
      RunStatus
  other : String → RunStatus

abbrev pub is_active : RunStatus → Bool
is_active active = true
is_active _ = false

-- `run_status in TERMINAL_RUN`.
abbrev pub is_terminal_run : RunStatus → Bool
is_terminal_run active = false
is_terminal_run (other text) = false
is_terminal_run _ = true

pub record Message : Type 0 where
  pub id : String
  pub step : String
  pub from_agent : String
  pub to_agent : String
  pub kind : String
  pub subject : String
  pub classification : String
  pub payload : String
  pub payload_sha256 : String
  pub reply_to : Option String
  pub sent_at : ℕ

-- What a change may change: the keys of the state that are not written by `mutate` itself.
pub record Run : Type 0 where
  pub run_id : String
  pub org_id : String
  pub workflow_id : String
  pub workflow_revision : String
  pub goal : String
  pub max_cycles : ℕ
  pub cycle_count : ℕ
  pub run_status : RunStatus
  pub messages : List Message
  pub steps : Steps
  pub spend_usd : ℕ
  pub planning_spend_usd : ℕ
  pub spend_ceiling_usd : ℕ
  pub cancelled_by : String
  pub cancel_reason : String

-- A state without its own hash, which is what is hashed.
pub record Payload : Type 0 where
  pub body : Run
  pub open body use *
  pub seq : ℕ
  pub event : String
  pub actor : String
  pub target : String
  pub request_id : String
  pub ts : ℕ
  pub prev_event_hash : Option String

-- A state as a line of the run's file holds it.
pub record Row : Type 0 where
  pub payload : Payload
  pub open payload use *
  pub event_hash : String

-- A line of the file is a state, or text that is no JSON.
pub data Line : Type 0 where
  unreadable : Line
  row : Row → Line
