-- ===== src/Steps.antt =====
-- The steps of a run: the dictionaries that `create_run` (runtime/run_verbs.py) builds and that the
-- verbs change. A key that the source reads by `.get` with a default is a field that starts at that
-- default; money is in millionths of a dollar, to which the source rounds; a time is in seconds.
pub mod Laws
use my_org.Common.{
  ℕ, String, Bool, true, false, Option, none, some, List, [], ◌∷◌, if◌then◌else◌, ◌==◌,
}
use my_org.Audit.{Risk}

pub data StepStatus : Type 0 where
  pending ready in_progress awaiting_approval awaiting_check completed rejected blocked_human
        blocked_retry_limit blocked_review_limit rejected_by_checker :
      StepStatus

pub record Submission : Type 0 where
  pub submission_revision : ℕ
  pub evidence : String
  pub evidence_sha256 : String
  pub maker : String
  pub submitted_at : ℕ

-- `checker` is none where the source has None or "", which it treats alike; `claim_expires_at` is
-- none where the source has "".
pub record Step : Type 0 where
  pub status : StepStatus
  pub attempts : ℕ
  pub owner : String
  pub checker : Option String
  pub review_cycles : ℕ
  pub max_review_cycles : ℕ
  pub submissions : List Submission
  pub action : String
  pub risk : Risk
  pub max_attempts : ℕ
  pub depends_on : List String
  pub holder : String
  pub claim_token : String
  pub claim_expires_at : Option ℕ
  pub evidence : String
  pub evidence_sha256 : String
  pub last_failure : String
  pub last_feedback_message : String
  pub releases : ℕ
  pub spend_usd : ℕ
  pub approver : String
  pub approval_ref : String
  pub checked_by : String
  pub check_message : String
  pub held_reason : String
  pub held_evidence : String
  pub held_evidence_sha256 : String
  pub held_kind : String

abbrev pub Steps : Type 0
Steps = List (String × Step)

-- `steps.get(key)`.
unfoldable pub get : String → Steps → Option Step
get key [] = none
get key ((k, s) ∷ m) = if k == key then some s else get key m

-- The dictionary after the step object that `steps.get(key)` returned was changed into `step`.
unfoldable pub put : String → Step → Steps → Steps
put key step [] = []
put key step ((k, s) ∷ m) = if k == key then (k, step) ∷ m else (k, s) ∷ put key step m

abbrev pub is_pending : StepStatus → Bool
is_pending pending = true
is_pending _ = false

abbrev pub is_ready : StepStatus → Bool
is_ready ready = true
is_ready _ = false

abbrev pub is_in_progress : StepStatus → Bool
is_in_progress in_progress = true
is_in_progress _ = false

abbrev pub is_awaiting_approval : StepStatus → Bool
is_awaiting_approval awaiting_approval = true
is_awaiting_approval _ = false

abbrev pub is_awaiting_check : StepStatus → Bool
is_awaiting_check awaiting_check = true
is_awaiting_check _ = false

abbrev pub is_completed : StepStatus → Bool
is_completed completed = true
is_completed _ = false
