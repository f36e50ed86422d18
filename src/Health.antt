-- ===== src/Health.antt =====
-- runtime/health.py: the condition of each run, and of all of them, the worst first. The texts of the
-- details are values; a time is in seconds, of which the source takes whole minutes.
pub mod Worst
pub mod Running
use Prim.Native.Nat.{◌/◌}
use Prim.Native.String.{◌++◌ as ◌<>◌}
use my_org.Common.{
  ℕ, ◌-◌, String, Bool, true, false, ◌&&◌, ◌||◌, Option, none, some, List, [], ◌∷◌, map,
  if◌then◌else◌, ◌==◌, leb, ltb, eqb, length, last?, select, order_by, text_before, is_slug,
}
use my_org.Result.{Result, ok, err, Error, ◌>>=◌, ◌>>◌, found, require, lock_timeout, index_error}
use my_org.Steps.{StepStatus, ready, in_progress, awaiting_check, Step, Steps, is_completed}
use my_org.Run.{RunStatus, completed, blocked_human, is_terminal_run, Row, Line}
use my_org.Run.World.{World}
use my_org.Run.Log.{read_events}
use my_org.Approvals.{is_waiting_step}

-- RUNNING, WAITING, STALLED, FINISHED, FAILED.
pub data Condition : Type 0 where
  running waiting stalled finished failed : Condition

pub data Detail : Type 0 where
  all_completed handed_back out_of_budget nothing_moves : Detail
  stopped : RunStatus → Detail
  need_decision quiet in_flight_steps : ℕ → Detail
  broken : Error → Detail

pub record RunHealth : Type 0 where
  pub run_id : String
  pub workflow_id : String
  pub goal : String
  pub state : Condition
  pub detail : Detail
  pub runtime_status : Option RunStatus
  pub done : ℕ
  pub total : ℕ
  pub cycles : ℕ
  pub max_cycles : ℕ
  pub idle_minutes : Option ℕ
  pub waiting_on : List String

-- STALLED_AFTER_MINUTES.
abbrev pub stalled_after_minutes : ℕ
stalled_after_minutes = 30

unfoldable pub needs_attention : Condition → Bool
needs_attention waiting = true
needs_attention stalled = true
needs_attention failed = true
needs_attention _ = false

-- `max(0, (now - stamped) // 60)`.
unfoldable pub idle_minutes : Row → ℕ → Option ℕ
idle_minutes state now = some ((now - state.ts) / 60)

abbrev pub is_run_completed : RunStatus → Bool
is_run_completed completed = true
is_run_completed _ = false

abbrev pub is_handed_back : RunStatus → Bool
is_handed_back blocked_human = true
is_handed_back _ = false

abbrev pub is_movable : StepStatus → Bool
is_movable ready = true
is_movable awaiting_check = true
is_movable in_progress = true
is_movable _ = false

abbrev pub is_parked_entry : String × Step → Bool
is_parked_entry (key, s) = is_waiting_step s.status

abbrev pub is_movable_entry : String × Step → Bool
is_movable_entry (key, s) = is_movable s.status

abbrev pub is_done_entry : String × Step → Bool
is_done_entry (key, s) = is_completed s.status

abbrev pub is_long : Option ℕ → Bool
is_long none = false
is_long (some idle) = leb stalled_after_minutes idle

-- The part of `classify` after the ends of a run, on the numbers of parked and of movable steps.
unfoldable pub classify_steps : Row → Option ℕ → ℕ → ℕ → Condition × Detail
classify_steps state idle parked movable =
    if ltb 0 parked
    then (waiting, need_decision parked)
    else (if leb state.max_cycles state.cycle_count
        then (failed, out_of_budget)
        else (if eqb movable 0
            then (stalled, nothing_moves)
            else (if is_long idle
                then (stalled, quiet movable)
                else (running, in_flight_steps movable))))

unfoldable pub classify : Row → Option ℕ → Condition × Detail
unfolding classify_steps
classify state idle =
    if is_run_completed state.run_status
    then (finished, all_completed)
    else (if is_handed_back state.run_status
        then (waiting, handed_back)
        else (if is_terminal_run state.run_status
            then (failed, stopped state.run_status)
            else classify_steps state idle (length (select is_parked_entry state.steps))
                (length (select is_movable_entry state.steps))))

unfoldable pub unreadable_run : String → Error → RunHealth
unreadable_run run_id x = record {
  run_id = run_id;
  workflow_id = "?";
  goal = "?";
  state = failed;
  detail = broken x;
  runtime_status = none;
  done = 0;
  total = 0;
  cycles = 0;
  max_cycles = 0;
  idle_minutes = none;
  waiting_on = [];
}

-- `current_state` of runtime/executor_core.py.
unfoldable pub current_state : World → String → Option (List Line) → Result Row
unfolding read_events
current_state w run_id file = do
  require w.lock_acquired lock_timeout
  events ← read_events w run_id file
  found (last? events) index_error

unfoldable pub readable_run : String → ℕ → Row → RunHealth
unfolding classify idle_minutes
readable_run run_id now state =
    let idle = idle_minutes state now in
    record {
      run_id = run_id;
      workflow_id = state.workflow_id;
      goal = state.goal;
      state = (classify state idle).0;
      detail = (classify state idle).1;
      runtime_status = some state.run_status;
      done = length (select is_done_entry state.steps);
      total = length state.steps;
      cycles = state.cycle_count;
      max_cycles = state.max_cycles;
      idle_minutes = idle;
      waiting_on =
          order_by text_before
            (map (λ (e : String × Step). e.0) (select is_parked_entry state.steps));
    }

unfoldable pub health_of : String → ℕ → Result Row → RunHealth
unfolding unreadable_run readable_run
health_of run_id now (err x) = unreadable_run run_id x
health_of run_id now (ok state) = readable_run run_id now state

unfoldable pub health : World → ℕ → String → Option (List Line) → RunHealth
unfolding health_of current_state
health w now run_id file = health_of run_id now (current_state w run_id file)

abbrev pub rank : Condition → ℕ
rank failed = 0
rank stalled = 1
rank waiting = 2
rank running = 3
rank finished = 4

-- `key=lambda item: (order[item.state], item.run_id)`.
abbrev pub is_worse : RunHealth → RunHealth → Bool
is_worse a b =
    ltb (rank a.state) (rank b.state)
    || (eqb (rank a.state) (rank b.state) && text_before a.run_id b.run_id)

-- The directory of the runs: its `.jsonl` files, by stem, in any order.
abbrev pub Files : Type 0
Files = List (String × List Line)

abbrev pub is_run_file : String × List Line → Bool
is_run_file (stem, lines) = is_slug stem

abbrev pub file_before : String × List Line → String × List Line → Bool
file_before (s, x) (t, y) = text_before (s <> ".jsonl") (t <> ".jsonl")

-- `run_files` of runtime/run_state.py: the files that are named like a run, by name.
unfoldable pub run_files : Files → Files
run_files files = order_by file_before (select is_run_file files)

unfoldable pub all_health : World → ℕ → Files → List RunHealth
unfolding health run_files
all_health w now files =
    order_by is_worse
      (map (λ (f : String × List Line). health w now f.0 (some f.1)) (run_files files))
