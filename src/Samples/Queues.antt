-- ===== src/Samples/Queues.antt =====
-- The theorems on the request queue, the schedules, the runs' health and the notices, applied to a
-- company with one run.
use mathlib.Core.List.{Memᴰ}
use mathlib.Core.List.Memᴰ.{head, tail}
use my_org.Common.{
  Option, ℕ, suc, ◌≤◌, ◌<◌, ◌≡◌, refl, String, true, false, none, some, List, [], ◌∷◌, ◌++◌, map,
  arith, length, select, All, is_slug, ◌↔◌, if◌then◌else◌, ◌==◌, find_first,
}
use my_org.Result.{ok}
use my_org.Run.{row}
use my_org.Run.Mutate.{write_event}
use my_org.Create.{create_run}
use my_org.Run.Log.{append_event}
use my_org.Workflow.Graph.{visit_nodes}
use my_org.Triggers.Queue.{
  queued, Intake, waits, queued_triggers, enqueue_trigger, enqueue, settle_trigger, max_queued,
}
use my_org.Triggers.Queue.Once.{enqueue_trigger_again, enqueue-bound}
use my_org.Triggers.Queue.Places.{settle_trigger-places}
use my_org.Triggers.Schedules.{daily, Schedule, stamp, next_fire, claim_due_schedule}
use my_org.Triggers.Schedules.Clock.{IsNext, next_fire-IsNext}
use my_org.Triggers.Schedules.Claims.{claim_due_schedule-once}
use my_org.Triggers.Flight.{in_flight}
use my_org.Triggers.Start.{Company, Desk, start_of, start_queued}
use my_org.Triggers.Start.Order.{OldestStarted, start_queued-first}
use my_org.Triggers.Start.Held.{start_queued-held}
use my_org.Triggers.Start.Final.{KeptAll, start_queued-KeptAll}
use my_org.Health.{running, health, all_health, Files}
use my_org.Health.Running.{IsRunning, health-IsRunning}
use my_org.Health.Worst.{WorstFirst, Listed, all_health-WorstFirst}
use my_org.Notices.{
  Command, needs_approval, Fact, append, is_notice, new_notice, read_all, raise_notice,
}
use my_org.Notices.Once.{read_all-append}
use my_org.Notices.Told.{deliveries, raise_notice_again}
use my_org.Planner.{plan}
use my_org.Samples.{world, drafting_run, first_row}
use my_org.Samples.Workflows.{chatty}

-- Nine in the morning, asked at noon of the first day.
abbrev noon : ℕ
noon = 43200000000

next_fire-IsNext_example :
    IsNext daily noon none (some "09:00") 118800000000
    × (noon < 118800000000)
    × (stamp noon < stamp 118800000000)
unfolding next_fire
next_fire-IsNext_example = next_fire-IsNext daily noon none (some "09:00") 118800000000 refl

abbrev newsletter : Schedule
newsletter = record {
  id = "newsletter";
  org_id = "org";
  kind = daily;
  interval_seconds = none;
  daily_at = some "09:00";
  goal = "publish";
  enabled = true;
  next_fire_at = 32400;
  last_fire_at = none;
  updated_at = 0;
}

abbrev fired_newsletter : Schedule
fired_newsletter = record newsletter {
  next_fire_at = 118800;
  last_fire_at = some 43200;
  updated_at = 43200;
}

claim_due_schedule-once_example :
    claim_due_schedule 43201 "org" "newsletter" 43201 118801 (fired_newsletter ∷ [])
    ≡ (false, fired_newsletter ∷ [])
unfolding claim_due_schedule
claim_due_schedule-once_example =
    claim_due_schedule-once 43200 43201 "org" "newsletter" 43200 118800 43201 118801
      (newsletter ∷ []) (fired_newsletter ∷ []) (omega arith) (omega arith) refl

abbrev request : String → ℕ → ℕ → Intake
request id attempts created_at = record {
  id = id;
  org_id = "org";
  source = "operator";
  source_ref = "idea";
  goal = "publish";
  status = queued;
  run_id = none;
  attempts = attempts;
  last_error = none;
  created_at = created_at;
  updated_at = created_at;
}

-- The second was asked for first; the first is out of attempts.
abbrev requests : List Intake
requests = request "tg-c" 0 30 ∷ request "tg-b" 1 20 ∷ request "tg-a" 3 10 ∷ []

enqueue_trigger_again_example :
    enqueue_trigger 50 "org" "tg-d" "webhook" "crm" "write" (requests ++ request "tg-d" 0 40 ∷ [])
    ≡ (request "tg-d" 0 40, false, requests ++ request "tg-d" 0 40 ∷ [])
unfolding enqueue_trigger
enqueue_trigger_again_example =
    enqueue_trigger_again 40 50 "org" "tg-d" "operator" "idea" "publish" "webhook" "crm" "write"
      requests (requests ++ request "tg-d" 0 40 ∷ []) (request "tg-d" 0 40) true refl

enqueue-bound_example :
    length (select (waits "org") (requests ++ request "tg-d" 0 40 ∷ [])) ≤ suc max_queued
unfolding enqueue
enqueue-bound_example =
    enqueue-bound 40 "org" "tg-d" "operator" "idea" "publish" requests
      (requests ++ request "tg-d" 0 40 ∷ []) (request "tg-d" 0 40) true refl

abbrev failed_once : Intake
failed_once = record (request "tg-b" 2 20) { last_error = some "no plan"; updated_at = 60 }

settle_trigger-places_example :
    map
      (λ (u : Intake). u.id)
      (queued_triggers "org" 5 (request "tg-c" 0 30 ∷ failed_once ∷ request "tg-a" 3 10 ∷ []))
    ≡ map (λ (u : Intake). u.id) (queued_triggers "org" 5 requests)
unfolding settle_trigger
settle_trigger-places_example =
    settle_trigger-places 60 "org" "tg-b" none (some "no plan") true requests
      (request "tg-c" 0 30 ∷ failed_once ∷ request "tg-a" 3 10 ∷ []) failed_once "org" 5 refl

abbrev desk : Desk
desk = record {
  world = world;
  now = 100;
  backend = chatty;
  repair_attempts = 3;
  message = λ x. "no plan";
  write_plan = λ f. ok tt;
}

abbrev idle_company : Company
idle_company = record { intake = requests; files = []; audit_log = [] }

start_queued-run :
    start_queued desk "org" 5 idle_company
    ≡ (ok (start_of (request "tg-b" 1 20) ∷ []), (start_queued desk "org" 5 idle_company).1)
unfolding start_queued plan visit_nodes create_run write_event append_event
start_queued-run = refl

start_queued-first_example : OldestStarted "org" requests (start_of (request "tg-b" 1 20)) [] 30
start_queued-first_example =
    start_queued-first desk "org" 5 idle_company (start_queued desk "org" 5 idle_company).1
      (start_of (request "tg-b" 1 20)) [] (request "tg-c" 0 30) start_queued-run (head refl) refl
      refl (omega arith)

abbrev busy_files : Files
busy_files = ("demo-run", row (first_row drafting_run) ∷ []) ∷ []

abbrev busy_company : Company
busy_company = record { intake = requests; files = busy_files; audit_log = [] }

start_queued-held_example :
    ((start_queued desk "org" 5 busy_company).1.files ≡ busy_files)
    × ((start_queued desk "org" 5 busy_company).1.audit_log ≡ [])
unfolding in_flight
start_queued-held_example = start_queued-held desk "org" 5 busy_company "demo-run" [] refl

health-IsRunning_example :
    (health world 100 "demo-run" (some (row (first_row drafting_run) ∷ []))).state ≡ running
    ↔ IsRunning world 100 "demo-run" (some (row (first_row drafting_run) ∷ []))
health-IsRunning_example =
    health-IsRunning world 100 "demo-run" (some (row (first_row drafting_run) ∷ []))

-- A file that is no run's lies beside the run.
abbrev mixed_files : Files
mixed_files = ("Notes", []) ∷ busy_files

all_health-WorstFirst_example :
    WorstFirst (all_health world 100 mixed_files)
    × All (Listed world mixed_files) (all_health world 100 mixed_files)
    × Memᴰ
        (health world 100 "demo-run" (some (row (first_row drafting_run) ∷ [])))
        (all_health world 100 mixed_files)
unfolding is_slug
all_health-WorstFirst_example =
    all_health-WorstFirst world 100 mixed_files "demo-run" (row (first_row drafting_run) ∷ [])
      (tail (head refl)) refl

abbrev decision : Fact
decision = record {
  kind = needs_approval;
  subject = "demo-run is waiting on your decision";
  detail = "Step send needs a person.";
  action = "Open the Control Center and approve or reject it.";
  org_id = "org";
  run_id = "demo-run";
  step_id = "send";
}

read_all-append_example :
    find_first (is_notice "x") (read_all (append (new_notice 100 decision) [])) ≡ (
      if (new_notice 100 decision).id == "x"
      then some (new_notice 100 decision)
      else find_first (is_notice "x") (read_all []))
read_all-append_example = read_all-append "x" (new_notice 100 decision) []

-- The first delivery is refused, the second accepted.
abbrev deliveries_of : List (Option Command)
deliveries_of = some (λ n. some "offline") ∷ some (λ n. none) ∷ none ∷ []

raise_notice_again_example :
    raise_notice 160 decision (deliveries deliveries_of (append (new_notice 100 decision) []))
    ≡ (none, deliveries deliveries_of (append (new_notice 100 decision) []))
unfolding raise_notice
raise_notice_again_example =
    raise_notice_again 100 160 decision [] (append (new_notice 100 decision) [])
      (new_notice 100 decision) deliveries_of refl

start_queued-KeptAll_example :
    KeptAll "org" requests (start_queued desk "org" 5 idle_company).1.intake
start_queued-KeptAll_example = start_queued-KeptAll desk "org" 5 idle_company
