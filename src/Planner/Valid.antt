-- ===== src/Planner/Valid.antt =====
-- What a plan is when `plan` returns one, and when it does.
use my_org.Common.{ℕ, ◌≤◌, String, ◌≡◌, ◌⊎◌, true, List, length}
use my_org.Result.{Result, ok, err, Error, executor_error, no_valid_plan}
use my_org.Run.World.{World}
use my_org.Workflow.{RawWorkflow, listed, value_of, validate_workflow}
use my_org.Backends.{is_transient}
use my_org.Planner.{Backend, needed_cycles, Turn, planned, stop, Plan}

-- A workflow that the runtime accepts, with the caller's id and goal, and enough cycles for its steps.
pub record IsPlan (w : World) (goal workflow_id : String) (f : RawWorkflow) : Type 0 where
  pub valid : validate_workflow w f ≡ ok tt
  pub own_id : f.id ≡ workflow_id
  pub own_goal : f.goal ≡ goal
  pub enough : needed_cycles (listed f.steps) ≤ value_of f.max_cycles

-- The exception of a backend that is busy.
abbrev pub Busy : Backend → Error → Type 0
Busy b x = (text : String) × (x ≡ executor_error text) × (is_transient b.lower text ≡ true)

module _ (w : World) (b : Backend) (goal workflow_id : String) where
  -- What one attempt leaves behind.
  record Answers (t : Turn × List ℕ) : Type 0 where
    sound : (f : RawWorkflow) → t.0 ≡ planned f → IsPlan w goal workflow_id f
    busy : (x : Error) → t.0 ≡ stop x → Busy b x
    one_cost : length t.1 ≤ 1

  -- What the loop leaves behind when `left` attempts were left.
  record Ends (left : ℕ) (p : Plan) : Type 0 where
    sound : (f : RawWorkflow) → p.0 ≡ ok f → IsPlan w goal workflow_id f
    why : (x : Error) → p.0 ≡ err x → (x ≡ no_valid_plan) ⊎ Busy b x
    costs : length p.1 ≤ left

-- A plan, or why there is none.
abbrev pub Planned : World → Backend → String → String → Result RawWorkflow → Type 0
Planned w b goal workflow_id (ok f) = IsPlan w goal workflow_id f
Planned w b goal workflow_id (err x) = (x ≡ no_valid_plan) ⊎ Busy b x
