-- ===== src/Planner.antt =====
-- runtime/planner.py: `plan`, which asks a backend for a workflow until one is valid. What the backend
-- answers, and what its answer is as JSON, are parameters.

pub mod Valid
pub mod Delivers
use my_org.Common.{
  ℕ, zero, suc, ◌+◌, ◌*◌, String, Bool, true, false, Option, none, some, List, [], ◌∷◌,
  if◌then◌else◌, ◌++◌, length, ltb,
}
use my_org.Result.{Result, ok, err, Error, executor_error, no_valid_plan}
use my_org.Run.World.{World}
use my_org.Workflow.{Field, missing, unfit, integer, RawStep, RawWorkflow, validate_workflow}
use my_org.Backends.{is_transient}

-- What is handed back to the model: nothing, the text of an ExecutorError, or what the runtime raised.
pub data Feedback : Type 0 where
  nothing : Feedback
  said : String → Feedback
  rejected : Error → Feedback

-- The fields of a PlanRequest that a call sets.
pub record PlanRequest : Type 0 where
  pub goal : String
  pub workflow_id : String
  pub feedback : Feedback

-- An answer and its cost, or an ExecutorError.
pub data Reply : Type 0 where
  answered : String → ℕ → Reply
  raised : String → Reply

-- The backend at each attempt, `extract_json` (an object, or the text of its ExecutorError), and
-- `revision` of a workflow.
pub data Extracted : Type 0 where
  object : RawWorkflow → Extracted
  not_json : String → Extracted

pub record Backend : Type 0 where
  pub reply : ℕ → PlanRequest → Reply
  pub extract_json : String → Extracted
  pub lower : String → String
  pub revision : RawWorkflow → String

-- CYCLES_PER_STEP and MAX_CYCLES_CEILING.
abbrev pub cycles_per_step : ℕ
cycles_per_step = 4

abbrev pub max_cycles_ceiling : ℕ
max_cycles_ceiling = 100

abbrev pub needed_cycles : List RawStep → ℕ
needed_cycles steps =
    if ltb (length steps * cycles_per_step) max_cycles_ceiling
    then length steps * cycles_per_step
    else max_cycles_ceiling

-- `not isinstance(value, int) or value < needed`.
abbrev pub is_below : ℕ → Field → Bool
is_below needed (integer n) = ltb n needed
is_below needed _ = true

abbrev pub budget : Field → Option (List RawStep) → Field
budget max_cycles none = max_cycles
budget max_cycles (some []) = max_cycles
budget max_cycles (some (s ∷ ss)) =
    if is_below (needed_cycles (s ∷ ss)) max_cycles
    then integer (needed_cycles (s ∷ ss))
    else max_cycles

unfoldable pub enforce_budget : RawWorkflow → RawWorkflow
enforce_budget f = record f { max_cycles = budget f.max_cycles f.steps }

-- The id and the goal belong to the caller.
unfoldable pub forced : Backend → String → String → RawWorkflow → RawWorkflow
unfolding enforce_budget
forced b goal workflow_id f =
    let own = enforce_budget (record f { id = workflow_id; goal = goal }) in
    record own { workflow_revision = b.revision own }

unfoldable pub validation_errors : World → RawWorkflow → Feedback
unfolding validate_workflow
validation_errors w f = elim (validate_workflow w f) [ err x ↦ rejected x | ok u ↦ nothing ]

-- What one attempt comes to: a plan, another attempt, or an exception.
pub data Turn : Type 0 where
  planned : RawWorkflow → Turn
  again : Feedback → Turn
  stop : Error → Turn

unfoldable pub failed : Backend → String → Turn
unfolding is_transient
failed b text = if is_transient b.lower text then stop (executor_error text) else again (said text)

unfoldable pub judged : RawWorkflow → Feedback → Turn
judged f nothing = planned f
judged f feedback = again feedback

unfoldable pub read_answer : World → Backend → String → String → Extracted → Turn
unfolding failed judged validation_errors forced
read_answer w b goal workflow_id (not_json text) = failed b text
read_answer w b goal workflow_id (object f) =
    judged (forced b goal workflow_id f) (validation_errors w (forced b goal workflow_id f))

-- The turn, and the cost that the backend charged for it.
unfoldable pub read_reply : World → Backend → String → String → Reply → Turn × List ℕ
unfolding failed read_answer
read_reply w b goal workflow_id (raised text) = (failed b text, [])
read_reply w b goal workflow_id (answered text cost) =
    (read_answer w b goal workflow_id (b.extract_json text), cost ∷ [])

unfoldable pub attempt_plan : World → Backend → String → String → ℕ → Feedback → Turn × List ℕ
unfolding read_reply
attempt_plan w b goal workflow_id attempt feedback =
    read_reply w b goal workflow_id
      (b.reply attempt (record { goal = goal; workflow_id = workflow_id; feedback = feedback }))

abbrev pub Plan : Type 0
Plan = Result RawWorkflow × List ℕ

unfoldable pub charged : List ℕ → Plan → Plan
charged costs (r, later) = (r, costs ++ later)

unfoldable pub after_turn : (Feedback → Plan) → Turn × List ℕ → Plan
unfolding charged
after_turn rest (planned f, costs) = (ok f, costs)
after_turn rest (again feedback, costs) = charged costs (rest feedback)
after_turn rest (stop x, costs) = (err x, costs)

-- The loop, from the attempts that are left and the number of the next.
unfoldable pub plan_from : World → Backend → String → String → ℕ → ℕ → Feedback → Plan
unfolding attempt_plan after_turn
plan_from w b goal workflow_id zero attempt feedback = (err no_valid_plan, [])
plan_from w b goal workflow_id (suc left) attempt feedback =
    after_turn (plan_from w b goal workflow_id left (suc attempt))
      (attempt_plan w b goal workflow_id attempt feedback)

unfoldable pub plan : World → Backend → String → String → ℕ → Plan
unfolding plan_from
plan w b goal workflow_id attempts = plan_from w b goal workflow_id attempts 1 nothing
