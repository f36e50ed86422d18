-- ===== src/Triggers/Start.antt =====
-- `start_queued` and `_mark` of runtime/triggers.py. What is logged is left out; the plan's
-- own file is a parameter, since only `create_run` reads it.
pub mod Order
pub mod Held
pub mod Final
use Prim.Native.String.{◌++◌ as ◌<>◌}
use Prim.Native.String
use my_org.Common.{
  ℕ, zero, suc, ◌+◌, String, Bool, true, false, not, ◌&&◌, Option, none, some, List, [], ◌∷◌,
  if◌then◌else◌, ◌==◌, leb, last?, is_slug, pos,
}
use my_org.Result.{Result, ok, err, Error, key_error, index_error, invalid_run_id}
use my_org.Audit
use my_org.Run.{Row, Line}
use my_org.Run.World.{World}
use my_org.Run.Log.{read_events}
use my_org.Run.Mutate.{Disk, Outcome}
use my_org.Workflow.{RawWorkflow}
use my_org.Create.{CreateArgs, create_run}
use my_org.Backends.{is_transient}
use my_org.Planner.{Backend, Plan, plan}
use my_org.Health.{Condition, running, stalled, RunHealth, Files, all_health}
use my_org.Triggers.Queue.{
  TriggerStatus, queued, started, failed, Intake, queued_triggers, settle_trigger,
}
use my_org.Triggers.Flight.{file_of, in_flight}

-- The table, the runs' files and the audit log.
pub record Company : Type 0 where
  pub intake : List Intake
  pub files : Files
  pub audit_log : Audit.Log

-- What a pass takes from outside: a world, the time, the backend and the attempts of one plan, the
-- text of an exception, and the writing of the plan's file.
pub record Desk : Type 0 where
  pub world : World
  pub now : ℕ
  pub backend : Backend
  pub repair_attempts : ℕ
  pub message : Error → String
  pub write_plan : RawWorkflow → Result (Unit {0})

pub record Start : Type 0 where
  pub intake_id : String
  pub run_id : String
  pub source : String

abbrev pub Pass : Type 0
Pass = Result (List Start) × Company

-- MAX_TRIGGER_ATTEMPTS.
abbrev pub max_trigger_attempts : ℕ
max_trigger_attempts = 3

-- `text[n:]`.
abbrev pub drop_text : ℕ → String → String
drop_text zero s = s
drop_text (suc n) String.[] = String.[]
drop_text (suc n) (String.◌∷◌ c s) = drop_text n s

unfoldable pub run_id_for : Intake → String
run_id_for intake = "run-" <> drop_text 3 intake.id

-- The directory after a run's file was written.
abbrev pub set_file : String → List Line → Files → Files
set_file run_id lines [] = (run_id, lines) ∷ []
set_file run_id lines ((name, old) ∷ files) =
    let rest = set_file run_id lines files in
    if name == run_id then (name, lines) ∷ files else (name, old) ∷ rest

-- `_mark`: of the errors of `settle_trigger` only the Conflict, which it drops, can occur, since the
-- status is an outcome and the row that was updated is there.
unfoldable pub mark :
    Desk
    → String
    → Intake
    → TriggerStatus
    → Option String
    → Option String
    → Bool
    → Company
    → Company
unfolding settle_trigger
mark desk org intake status run_id error count_attempt c =
    elim (settle_trigger desk.now org intake.id status run_id error count_attempt c.intake) [
      | err x ↦ c
      | ok done ↦ record c { intake = done.1 }
    ]

abbrev pub sum : List ℕ → ℕ
sum [] = 0
sum (n ∷ ns) = n + sum ns

unfoldable pub start_creation : String → Intake → List ℕ → CreateArgs
unfolding run_id_for
start_creation org intake costs = record {
  run_id = run_id_for intake;
  actor = "trigger:" <> intake.source;
  request_id = "trigger-" <> intake.id;
  org = some org;
  spend = pos (sum costs);
}

-- The company after a run's disk was written.
unfoldable pub on_disk : String → Company → Outcome → Result Row × Company
on_disk run_id c (r, d) = elim d.file [
  | none ↦ (r, record c { audit_log = d.audit_log })
  | some lines ↦ (r, record c { files = set_file run_id lines c.files; audit_log = d.audit_log })
]

unfoldable pub create_planned :
    Desk
    → String
    → Intake
    → Company
    → RawWorkflow
    → List ℕ
    → Result (Unit {0})
    → Result Row × Company
unfolding on_disk start_creation
create_planned desk org intake c f costs (err x) = (err x, c)
create_planned desk org intake c f costs (ok u) = on_disk (run_id_for intake) c (
    create_run desk.world (start_creation org intake costs) f
      (record { file = file_of (run_id_for intake) c.files; audit_log = c.audit_log }))

unfoldable pub create_from : Desk → String → Intake → Company → Plan → Result Row × Company
unfolding create_planned
create_from desk org intake c (err x, costs) = (err x, c)
create_from desk org intake c (ok f, costs) =
    create_planned desk org intake c f costs (desk.write_plan f)

abbrev pub start_of : Intake → Start
start_of intake = record {
  intake_id = intake.id;
  run_id = run_id_for intake;
  source = intake.source;
}

unfoldable pub mark_started : Desk → String → Intake → Company → Pass
unfolding mark run_id_for
mark_started desk org intake c =
    (ok (start_of intake ∷ []), mark desk org intake started (some (run_id_for intake)) none true c)

-- A KeyError or an IndexError is not caught.
abbrev pub is_caught : Error → Bool
is_caught key_error = false
is_caught index_error = false
is_caught _ = true

-- A failure that only says that the other end is busy costs no attempt.
unfoldable pub mark_failed : Desk → String → Intake → Error → Company → Pass
unfolding mark is_transient
mark_failed desk org intake x c =
    if is_caught x
    then (
      ok [],
      mark desk org intake queued none (some (desk.message x))
          (not (is_transient desk.backend.lower (desk.message x))) c,
    )
    else (err x, c)

unfoldable pub finish_start : Desk → String → Intake → Result Row × Company → Pass
unfolding mark_failed mark_started
finish_start desk org intake (err x, c) = mark_failed desk org intake x c
finish_start desk org intake (ok line, c) = mark_started desk org intake c

-- Whatever is moving holds the queue.
unfoldable pub start_unless_busy : Desk → String → Intake → Company → List String → Pass
unfolding finish_start create_from run_id_for
start_unless_busy desk org intake c (run ∷ runs) = (ok [], c)
start_unless_busy desk org intake c [] = finish_start desk org intake (
    create_from desk org intake c
      (plan desk.world desk.backend intake.goal (run_id_for intake) desk.repair_attempts))

-- A file that is there was left by an attempt before.
unfoldable pub start_one : Desk → String → Intake → Company → Option (List Line) → Pass
unfolding mark_started start_unless_busy in_flight
start_one desk org intake c (some lines) = mark_started desk org intake c
start_one desk org intake c none =
    start_unless_busy desk org intake c (in_flight desk.world desk.now org c.files)

unfoldable pub start_front : Desk → String → Intake → Company → Pass
unfolding start_one mark_failed run_id_for
start_front desk org intake c =
    if is_slug (run_id_for intake)
    then start_one desk org intake c (file_of (run_id_for intake) c.files)
    else mark_failed desk org intake invalid_run_id c

-- `last_error or "unrecorded"`.
abbrev pub recorded : Option String → String
recorded none = "unrecorded"
recorded (some text) = if text == "" then "unrecorded" else text

unfoldable pub gave_up : Desk → Intake → String
gave_up desk intake =
    "gave up after "
    <> (desk.world.str intake.attempts
        <> (" attempts. Last error: " <> desk.world.strip (recorded intake.last_error)))

unfoldable pub after_give_up : (Company → Pass) → Company → Result (Intake × List Intake) → Pass
after_give_up rest c (err x) = (err x, c)
after_give_up rest c (ok (row, rows)) = rest (record c { intake = rows })

-- The loop over the front of the queue. A request out of attempts is settled and passed over.
unfoldable pub start_each : Desk → String → List Intake → Company → Pass
unfolding settle_trigger gave_up after_give_up start_front
start_each desk org [] c = (ok [], c)
start_each desk org (intake ∷ intakes) c =
    let rest = start_each desk org intakes in
    if leb max_trigger_attempts intake.attempts
    then after_give_up rest c (
        settle_trigger desk.now org intake.id failed none (some (gave_up desk intake)) true
          c.intake)
    else start_front desk org intake c

unfoldable pub start_queued : Desk → String → ℕ → Company → Pass
unfolding start_each queued_triggers
start_queued desk org limit c = start_each desk org (queued_triggers org limit c.intake) c
