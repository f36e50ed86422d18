-- ===== src/Samples/Workflows.antt =====
-- The theorems on workflows, the gate and the planner, applied to the sample workflow.
use my_org.Common.{
  ℕ, zero, suc, ◌≡◌, ◌↔◌, refl, String, Option, none, some, [], ◌∷◌, arith, if◌then◌else◌, ◌==◌,
  is_slug,
}
use my_org.Result.{ok}
use my_org.Audit.{Risk}
use my_org.Steps.{Step, get, put}
use my_org.Run.{Row}
use my_org.Run.Log.{read_events, append_event}
use my_org.Run.Mutate.{write_event, mutate}
use my_org.Verbs.Life.{request_step, request_change, request_entry}
use my_org.Workflow.{RawWorkflow, validate_workflow}
use my_org.Workflow.Graph.{Dependencies, Trail, visit_nodes}
use my_org.Workflow.Acyclic.{Acyclic, IsWorkflow, visit_nodes-Acyclic}
use my_org.Workflow.Accepts.{validate_workflow_iff}
use my_org.Create.{create_run, risk_of}
use my_org.Create.Gate.{GateArgs, gate}
use my_org.Create.Gate.Decided.{Decided, gate-Decided}
use my_org.Planner.{Reply, answered, object, not_json, Backend, forced, attempt_plan, plan}
use my_org.Planner.Delivers.{plan-Delivers}
use my_org.Samples.{world, new_run, first_row, row_or}
use my_org.Samples.History.{publishing, no_run}

validate_workflow_iff_example : (validate_workflow world publishing ≡ ok tt) ↔ (
    (actions : String → Option Risk) × (world.policy ≡ some actions)
    × IsWorkflow world actions publishing)
validate_workflow_iff_example = validate_workflow_iff world publishing

abbrev publishing_graph : Dependencies
publishing_graph =
    record { name = "draft"; needs = [] } ∷ record { name = "send"; needs = "draft" ∷ [] } ∷ []

visit_nodes-Acyclic_example :
    (t : Trail) × (visit_nodes publishing_graph ≡ some t)
    × ((t.cycles ≡ []) ↔ Acyclic publishing_graph)
visit_nodes-Acyclic_example = visit_nodes-Acyclic publishing_graph

abbrev sending : GateArgs
sending = record {
  run_id = "demo-run";
  owner = "content";
  action = "send_email";
  summary = "send the newsletter";
  org = none;
  request_id = "7";
  workflow_revision = "rev";
}

abbrev gate_row : Row
gate_row = row_or (gate world world sending no_run).0 (first_row new_run)

gate-run : gate world world sending no_run ≡ (ok gate_row, (gate world world sending no_run).1)
unfolding gate create_run is_slug visit_nodes write_event append_event mutate read_events
    request_step request_change get request_entry put
gate-run = refl

gate-Decided_example :
    (t : Step) × (get "act" gate_row.steps ≡ some t)
    × (risk_of world "send_email" ≡ ok t.risk)
    × Decided t
gate-Decided_example =
    gate-Decided world world sending no_run (gate world world sending no_run).1 gate_row refl
      gate-run

-- A backend that talks first, and answers with the workflow when it is asked again.
abbrev chatty_reply : ℕ → Reply
chatty_reply zero = answered "" 0
chatty_reply (suc zero) = answered "let me think" 20
chatty_reply (suc (suc n)) = answered "the plan" 30

abbrev pub chatty : Backend
chatty = record {
  reply = λ attempt request. chatty_reply attempt;
  extract_json = λ text. if text == "the plan" then object publishing else not_json "no object";
  lower = λ text. text;
  revision = λ f. "rev";
}

plan-Delivers_example : (f : RawWorkflow) × ((plan world chatty "publish" "wf-demo" 3).0 ≡ ok f)
unfolding attempt_plan is_slug visit_nodes
plan-Delivers_example =
    plan-Delivers world chatty "publish" "wf-demo" 1 3 (omega arith) (λ feedback. (_, refl), tt)
      (λ feedback. (forced chatty "publish" "wf-demo" publishing, refl))
