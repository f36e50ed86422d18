-- ===== src/Create/Gate.antt =====
-- `gate` of runtime/run_review.py: one action of a department put through the runtime, as a run of one
-- step that is created and then requested.
pub mod Decided
use Prim.Native.String.{◌++◌ as ◌<>◌}
use my_org.Common.{
  ℕ, String, Bool, true, false, ◌&&◌, Option, none, some, List, [], ◌∷◌, if◌then◌else◌, ◌==◌, leb,
  text_length, pos,
}
use my_org.Result.{
  Result, ok, err, ◌>>=◌, ◌>>◌, found, require, invalid_policy, unclassified_gate_action,
  unknown_department, bad_summary,
}
use my_org.Audit.{Risk}
use my_org.Run.World.{World}
use my_org.Run.Mutate.{Disk, Outcome, mutate}
use my_org.Verbs.{Args}
use my_org.Verbs.Life.{request_step}
use my_org.Workflow.{integer, missing, RawWorkflow, is_classified}
use my_org.Create.{CreateArgs, create_run}

-- The arguments, with the hash of the workflow that the command writes.
pub record GateArgs : Type 0 where
  pub run_id : String
  pub owner : String
  pub action : String
  pub summary : String
  pub org : Option String
  pub request_id : String
  pub workflow_revision : String

unfoldable pub gate_workflow : GateArgs → String → RawWorkflow
gate_workflow a summary = record {
  version = integer 1;
  id = "wf-" <> a.run_id;
  goal = summary;
  max_cycles = integer 4;
  steps = some (
      record {
        id = "act";
        owner = a.owner;
        checker = none;
        action = a.action;
        max_review_cycles = missing;
        max_attempts = integer 1;
        depends_on = some [];
      }
      ∷ []);
  workflow_revision = a.workflow_revision;
}

unfoldable pub gate_creation : GateArgs → CreateArgs
gate_creation a = record {
  run_id = a.run_id;
  actor = a.owner;
  request_id = "gate-create-" <> a.request_id;
  org = a.org;
  spend = pos 0;
}

unfoldable pub gate_request : GateArgs → Args
gate_request a = record {
  run_id = a.run_id;
  step = "act";
  actor = a.owner;
  request_id = "gate-request-" <> a.request_id;
}

unfoldable pub gate_checks : World → GateArgs → Result String
gate_checks w a = do
  actions ← found w.policy invalid_policy
  require (is_classified (actions a.action)) unclassified_gate_action
  require (w.agent_exists a.owner) unknown_department
  let summary = w.strip a.summary
  require (leb 10 (text_length summary) && leb (text_length summary) 500) bad_summary
  ok summary

-- The step is requested in a world of its own time.
unfoldable pub gate_end : World → GateArgs → Outcome → Outcome
unfolding gate_request
gate_end w a (err x, d) = (err x, d)
gate_end w a (ok line, d) = mutate w (request_step w (gate_request a) (some a.owner)) d

unfoldable pub gate_begin : World → World → GateArgs → Disk → Result String → Outcome
unfolding gate_end gate_workflow gate_creation
gate_begin w w' a d (err x) = (err x, d)
gate_begin w w' a d (ok summary) =
    gate_end w' a (create_run w (gate_creation a) (gate_workflow a summary) d)

unfoldable pub gate : World → World → GateArgs → Disk → Outcome
unfolding gate_checks gate_begin
gate w w' a d = gate_begin w w' a d (gate_checks w a)
