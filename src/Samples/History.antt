-- ===== src/Samples/History.antt =====
-- The theorems on mutations and on histories of commands, applied to the sample run.
use my_org.Common.{is_slug, ◌≡◌, refl, none, some, List, [], ◌∷◌, arith, inl, inr, pos}
use my_org.Result.{ok}
use my_org.Steps.{get, put}
use my_org.Run.{cancelled, Run, Row, row}
use my_org.Run.World.{World}
use my_org.Run.Log.{read_events, append_event, sealed_row}
use my_org.Run.Claims.{claim_token_for}
use my_org.Run.Mutate.{Disk, Verb, write_event, stamped, mutate}
use my_org.Run.Mutate.Outcome.{Effect, mutate-Effect}
use my_org.Run.Mutate.Replay.{mutate_again}
use my_org.Run.Mutate.Trail.{Trail, mutate-Trail}
use my_org.Verbs.{deps_completed}
use my_org.Verbs.Life.{request_change, request_entry, request_step}
use my_org.Verbs.Invariant.{StepInv, Inv}
use my_org.Commands.{Command, request_step_cmd, fail_cmd, run_commands}
use my_org.Commands.History.{Sound, run_commands-Sound}
use my_org.Commands.Final.{run_commands-Final}
use my_org.Workflow.{RawWorkflow, integer, missing, validate_workflow}
use my_org.Workflow.Graph.{visit_nodes}
use my_org.Create.{CreateArgs, create_run}
use my_org.Create.Fresh.{create_run-Sound}
use my_org.Samples.{
  world, run_of, first_row, disk_of, reads, args, draft, send, two_steps, new_run, drafting_run,
  row_or,
}

draft-StepInv : StepInv world.strip draft
draft-StepInv = record {
  tried = omega arith;
  reviewed = omega arith;
  unheld = refl;
  unclaimed = refl;
  red_idle = refl;
  yellow_approved = refl;
  signed = refl;
}

send-StepInv : StepInv world.strip send
send-StepInv = record {
  tried = omega arith;
  reviewed = omega arith;
  unheld = refl;
  unclaimed = refl;
  red_idle = refl;
  yellow_approved = refl;
  signed = refl;
}

new_run-Inv : Inv world.strip new_run
unfolding deps_completed
new_run-Inv = record {
  each = (draft-StepInv, (send-StepInv, tt));
  started = (inr refl, (inl refl, tt));
  finished = refl;
  billed = refl;
}

pub new_run-Sound : Sound world "demo-run" (disk_of new_run)
new_run-Sound = (first_row new_run ∷ [], reads new_run, (new_run-Inv, tt))

abbrev morning : List (World × Command)
morning =
    (world, request_step_cmd (args "draft" "content" "r-1") (some "worker-1"))
    ∷ (
      world,
      fail_cmd (args "draft" "content" "r-2") "no answer"
          (record { spend = pos 5; claim_token = none }),
    )
    ∷ []

run_commands-Sound_example : Sound world "demo-run" (run_commands morning (disk_of new_run))
run_commands-Sound_example =
    run_commands-Sound world "demo-run" morning (disk_of new_run)
      (refl, refl, refl, (refl, refl, refl, tt)) new_run-Sound

abbrev pub stopped_run : Run
stopped_run = run_of cancelled 1 two_steps

run_commands-Final_example :
    (run_commands morning (disk_of stopped_run)).file ≡ (disk_of stopped_run).file
run_commands-Final_example =
    run_commands-Final world "demo-run" morning (disk_of stopped_run) (first_row stopped_run ∷ [])
      (first_row stopped_run) (refl, refl, refl, (refl, refl, refl, tt)) (reads stopped_run) refl
      refl refl

abbrev request_draft : Verb
request_draft = request_step world (args "draft" "content" "r-1") (some "worker-1")

mutate-Effect_example :
    Effect world request_draft
      (disk_of new_run)
      (first_row new_run ∷ [])
      (first_row new_run)
      (mutate world request_draft (disk_of new_run))
unfolding request_step
mutate-Effect_example =
    mutate-Effect world request_draft (disk_of new_run) (first_row new_run ∷ []) (first_row new_run)
      (reads new_run) refl

-- The disk after that request.
abbrev requested_row : Row
requested_row =
    sealed_row world
      (stamped world request_draft.request (first_row new_run).payload
        (record drafting_run { cycle_count = 0 }))
      (some "run.created")

abbrev requested_disk : Disk
requested_disk = record {
  file = some (row (first_row new_run) ∷ row requested_row ∷ []);
  audit_log = [];
}

request_draft-run :
    mutate world request_draft (disk_of new_run) ≡ (ok requested_row, requested_disk)
unfolding mutate request_step sealed_row stamped read_events request_change get request_entry put
    write_event append_event claim_token_for
request_draft-run = refl

-- The same worker asks again, a minute later.
abbrev later : World
later = record world { checked_at = 160; stamped_at = 160; logged_at = 160 }

mutate_again_example :
    mutate later request_draft requested_disk ≡ (ok requested_row, requested_disk)
unfolding request_step
mutate_again_example =
    mutate_again world later request_draft (disk_of new_run) requested_disk (first_row new_run ∷ [])
      (first_row new_run) requested_row refl refl (reads new_run) refl request_draft-run

mutate-Trail_example :
    Trail world request_draft
      (disk_of new_run)
      (first_row new_run ∷ [])
      (first_row new_run)
      (mutate world request_draft (disk_of new_run))
unfolding request_step
mutate-Trail_example =
    mutate-Trail world request_draft (disk_of new_run) (first_row new_run ∷ []) (first_row new_run)
      (reads new_run) refl

abbrev pub publishing : RawWorkflow
publishing = record {
  version = integer 1;
  id = "wf-demo";
  goal = "publish";
  max_cycles = integer 9;
  steps = some (
      record {
        id = "draft";
        owner = "content";
        checker = some "brand";
        action = "draft_copy";
        max_review_cycles = integer 1;
        max_attempts = integer 3;
        depends_on = some [];
      }
      ∷ record {
        id = "send";
        owner = "content";
        checker = none;
        action = "send_email";
        max_review_cycles = missing;
        max_attempts = integer 1;
        depends_on = some ("draft" ∷ []);
      }
      ∷ []);
  workflow_revision = "rev";
}

abbrev creation : CreateArgs
creation = record {
  run_id = "demo-run";
  actor = "planner";
  request_id = "r-0";
  org = none;
  spend = pos 120;
}

abbrev pub no_run : Disk
no_run = record { file = none; audit_log = [] }

create-run : create_run world creation publishing no_run ≡ (
  ok (row_or (create_run world creation publishing no_run).0 (first_row new_run)),
  (create_run world creation publishing no_run).1,
)
unfolding create_run write_event append_event is_slug visit_nodes
create-run = refl

create_run-Sound_example :
    (validate_workflow world publishing ≡ ok tt)
    × (no_run.file ≡ none)
    × Sound world "demo-run" (create_run world creation publishing no_run).1
create_run-Sound_example =
    create_run-Sound world creation publishing no_run
      (create_run world creation publishing no_run).1
      (row_or (create_run world creation publishing no_run).0 (first_row new_run)) create-run
