-- ===== src/Create.antt =====
-- `create_run` of runtime/run_verbs.py: the first line of a run's file. The snapshot of the workflow
-- beside it is not part of the disk.
pub mod Fresh
pub mod Gate
use my_org.Common.{
  ℕ, String, ℤ, pos_part, Bool, true, false, not, Option, none, some, List, [], ◌∷◌, map, ◌==◌,
  if◌then◌else◌, is_slug,
}
use my_org.Result.{
  Result, ok, err, ◌>>=◌, ◌>>◌, found, require, refuse, invalid_policy, key_error, lock_timeout,
  invalid_run_id, run_already_exists,
}
use my_org.Audit.{Risk}
use my_org.Steps.{StepStatus, pending, ready, Step, Steps}
use my_org.Run.{active, Run, Payload, Line}
use my_org.Run.World.{World}
use my_org.Run.Mutate.{Disk, Outcome, write_event}
use my_org.Verbs.{or_default}
use my_org.Workflow.{RawStep, RawWorkflow, value_of, listed, validate_workflow}

-- A step of a workflow; `checker` is none where the source has None or "".
pub record PlannedStep : Type 0 where
  pub id : String
  pub owner : String
  pub checker : Option String
  pub max_review_cycles : ℕ
  pub action : String
  pub max_attempts : ℕ
  pub depends_on : List String

-- A workflow with its hash, `revision(workflow)`.
pub record Workflow : Type 0 where
  pub id : String
  pub goal : String
  pub max_cycles : ℕ
  pub steps : List PlannedStep
  pub workflow_revision : String

pub record CreateArgs : Type 0 where
  pub run_id : String
  pub actor : String
  pub request_id : String
  pub org : Option String
  pub spend : ℤ

-- `policy()[action]`.
unfoldable pub risk_of : World → String → Result Risk
risk_of w action = do actions ← found w.policy invalid_policy; found (actions action) key_error

abbrev pub first_status : List String → StepStatus
first_status [] = ready
first_status (d ∷ ds) = pending

unfoldable pub new_step : PlannedStep → Risk → Step
new_step p risk = record {
  status = first_status p.depends_on;
  attempts = 0;
  owner = p.owner;
  checker = p.checker;
  review_cycles = 0;
  max_review_cycles = p.max_review_cycles;
  submissions = [];
  action = p.action;
  risk = risk;
  max_attempts = p.max_attempts;
  depends_on = p.depends_on;
  holder = "";
  claim_token = "";
  claim_expires_at = none;
  evidence = "";
  evidence_sha256 = "";
  last_failure = "";
  last_feedback_message = "";
  releases = 0;
  spend_usd = 0;
  approver = "";
  approval_ref = "";
  checked_by = "";
  check_message = "";
  held_reason = "";
  held_evidence = "";
  held_evidence_sha256 = "";
  held_kind = "";
}

-- `states[key] = step`: in place, or at the end.
unfoldable pub set_key : String → Step → Steps → Steps
set_key key s [] = (key, s) ∷ []
set_key key s ((k, t) ∷ m) =
    let rest = set_key key s m in if k == key then (k, s) ∷ m else (k, t) ∷ rest

-- The loop over the workflow's steps.
unfoldable pub plan_steps : World → List PlannedStep → Steps → Result Steps
unfolding risk_of new_step set_key
plan_steps w [] states = ok states
plan_steps w (p ∷ ps) states = do
  risk ← risk_of w p.action
  plan_steps w ps (set_key p.id (new_step p risk) states)

-- The planning that was paid for is the first line of the bill.
unfoldable pub created : World → CreateArgs → Workflow → Steps → Payload
created w a wf states = record {
  body = record {
    run_id = a.run_id;
    org_id = or_default a.org w.default_org;
    workflow_id = wf.id;
    workflow_revision = wf.workflow_revision;
    goal = wf.goal;
    max_cycles = wf.max_cycles;
    cycle_count = 0;
    run_status = active;
    messages = [];
    steps = states;
    spend_usd = pos_part a.spend;
    planning_spend_usd = pos_part a.spend;
    spend_ceiling_usd = 0;
    cancelled_by = "";
    cancel_reason = "";
  };
  seq = 1;
  event = "run.created";
  actor = a.actor;
  target = a.run_id;
  request_id = a.request_id;
  ts = w.logged_at;
  prev_event_hash = none;
}

-- What the loop reads of a step, and the state of a workflow, that were let through.
unfoldable pub read_step : RawStep → PlannedStep
read_step s = record {
  id = s.id;
  owner = s.owner;
  checker = s.checker;
  max_review_cycles = value_of s.max_review_cycles;
  action = s.action;
  max_attempts = value_of s.max_attempts;
  depends_on = listed s.depends_on;
}

unfoldable pub read_workflow : RawWorkflow → Workflow
unfolding read_step
read_workflow f = record {
  id = f.id;
  goal = f.goal;
  max_cycles = value_of f.max_cycles;
  steps = map read_step (listed f.steps);
  workflow_revision = f.workflow_revision;
}

abbrev pub is_there : Option (List Line) → Bool
is_there none = false
is_there (some lines) = true

-- What is checked, and then built under the lock, before the line is written.
unfoldable pub first_state : World → CreateArgs → RawWorkflow → Option (List Line) → Result Payload
unfolding validate_workflow plan_steps created read_workflow
first_state w a f file = do
  validate_workflow w f
  require w.lock_acquired lock_timeout
  require (is_slug a.run_id) invalid_run_id
  refuse (is_there file) run_already_exists
  let wf = read_workflow f
  states ← plan_steps w wf.steps []
  ok (created w a wf states)

unfoldable pub create_end : World → Disk → Result Payload → Outcome
create_end w d (err x) = (err x, d)
create_end w d (ok state) = write_event w state d

unfoldable pub create_run : World → CreateArgs → RawWorkflow → Disk → Outcome
unfolding first_state create_end
create_run w a f d = create_end w d (first_state w a f d.file)
