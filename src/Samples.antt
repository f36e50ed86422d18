-- ===== src/Samples.antt =====
-- A concrete world, a run with three steps, and the files that the tests and the witnesses read.
pub mod History
pub mod Gates
pub mod Chains
pub mod Waiting
pub mod Workflows
pub mod Queues
pub mod Drives
use Prim.Native.String.{◌++◌}
use Prim.Native.String
use my_org.Common.{
  ℕ, zero, suc, String, ◌≡◌, refl, Bool, true, false, Option, none, some, List, [], ◌∷◌, arith,
  eq_refl, eq_iff,
}
use my_org.Result.{Result, ok, err}
use my_org.Audit.{Host, Risk, green, yellow, red, other}
use my_org.Steps.{StepStatus, pending, ready, in_progress, awaiting_approval, Step, Steps}
use my_org.Run.{RunStatus, active, Run, Payload, Row, row}
use my_org.Run.World.{World, no_store, unset}
use my_org.Run.Log.{read_events, sealed_row}
use my_org.Run.Mutate.{Disk}
use my_org.Verbs.{Args}

abbrev pub unary : ℕ → String
unary zero = ""
unary (suc n) = String.◌∷◌ "1" (unary n)

abbrev pub host : Host
host = record {
  digest = λ e t p. e.action ++ ("/" ++ e.target);
  digest_lines = λ lines. "legacy";
  strip = λ s. s;
  path_exists = λ path. true;
  is_digest = λ s. false;
  now = 100;
  writable = true;
}

abbrev pub world : World
world = record {
  lock_acquired = true;
  checked_at = 100;
  stamped_at = 100;
  logged_at = 100;
  claim_seconds = 900;
  str = unary;
  strip = λ s. s;
  replace_first = λ s old new. s;
  revision = λ p. p.event;
  relative = λ path. some path;
  read_file = λ path. some "bytes";
  sha256 = λ bytes. "sha-" ++ bytes;
  run_file = λ id. "runtime/runs/" ++ id;
  policy = some (λ action. some green);
  agent_exists = λ owner. true;
  registry = no_store;
  ceiling_env = unset;
  audit = host;
  default_org = "default";
}

-- A step as `create_run` makes it.
abbrev pub new_step : StepStatus → String → Risk → List String → Step
new_step status action risk depends_on = record {
  status = status;
  attempts = 0;
  owner = "content";
  checker = none;
  review_cycles = 0;
  max_review_cycles = 0;
  submissions = [];
  action = action;
  risk = risk;
  max_attempts = 2;
  depends_on = depends_on;
  holder = "";
  claim_token = "";
  claim_expires_at = none;
  evidence = "";
  evidence_sha256 = "";
  last_failure = "";
  last_feedback_message = "";
  releases = 0;
  spend_usd = 0;
  approver = "";
  approval_ref = "";
  checked_by = "";
  check_message = "";
  held_reason = "";
  held_evidence = "";
  held_evidence_sha256 = "";
  held_kind = "";
}

abbrev pub run_of : RunStatus → ℕ → Steps → Run
run_of status cycles steps = record {
  run_id = "demo-run";
  org_id = "org";
  workflow_id = "wf-demo";
  workflow_revision = "rev";
  goal = "publish";
  max_cycles = 9;
  cycle_count = cycles;
  run_status = status;
  messages = [];
  steps = steps;
  spend_usd = 0;
  planning_spend_usd = 0;
  spend_ceiling_usd = 0;
  cancelled_by = "";
  cancel_reason = "";
}

-- The first line of a run's file, for a run.
abbrev pub first_row : Run → Row
first_row r =
    let state : Payload = record {
      body = r;
      seq = 1;
      event = "run.created";
      actor = "planner";
      target = "demo-run";
      request_id = "r-0";
      ts = 90;
      prev_event_hash = none;
    } in
    record { payload = state; event_hash = "run.created" }

abbrev pub disk_of : Run → Disk
disk_of r = record { file = some (row (first_row r) ∷ []); audit_log = [] }

pub reads : (r : Run) → read_events world "demo-run" (disk_of r).file ≡ ok (first_row r ∷ [])
unfolding read_events
reads r = refl

abbrev pub args : String → String → String → Args
args step actor request_id = record {
  run_id = "demo-run";
  step = step;
  actor = actor;
  request_id = request_id;
}

abbrev pub draft : Step
draft = new_step ready "draft_copy" green []

-- The same step after a first dispatch.
abbrev pub drafting : Step
drafting = record draft {
  status = in_progress;
  attempts = 1;
  holder = "worker-1";
  claim_token = "demo-run#11";
  claim_expires_at = some 1000;
}

abbrev pub send : Step
send = new_step pending "send_email" yellow ("draft" ∷ [])

abbrev pub two_steps : Steps
two_steps = ("draft", draft) ∷ ("send", send) ∷ []

abbrev pub new_run : Run
new_run = run_of active 0 two_steps

abbrev pub drafting_run : Run
drafting_run = run_of active 1 (("draft", drafting) ∷ ("send", send) ∷ [])

-- The state that was returned, or a default.
abbrev pub row_or : Result Row → Row → Row
row_or (ok r) default = r
row_or (err x) default = default
