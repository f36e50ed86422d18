-- ===== src/Driver/Work.antt =====
-- What `drive_step` does with a step: the claim, the approved hold, the ceiling, the dispatch, the grade.
use Prim.Native.String.{◌++◌ as ◌<>◌}
use my_org.Common.{
  ℕ, zero, suc, ◌+◌, String, Bool, true, false, ◌||◌, Option, none, some, List, [], ◌∷◌,
  if◌then◌else◌, ◌==◌, eqb, ltb,
}
use my_org.Result.{Result, ok, err, found, key_error}
use my_org.Steps.{Step, get, is_in_progress}
use my_org.Run.{Row, is_active}
use my_org.Run.Claims.{claim_is_live}
use my_org.Run.Mutate.{Disk, Outcome}
use my_org.Verbs.Life.{env_ceiling}
use my_org.Backends.{is_transient}
use my_org.Planner.{Reply, raised, answered}
use my_org.Triggers.Queue.{cut}
use my_org.Driver.Request.{acceptance_criteria, structural_failure, dispatch}
use my_org.Driver.Sends.{
  claiming, rereading, holding, budgeting, checking, finishing, parking, Driver, state_at, claim,
  take, finish, release_step, record_failure, hold_step, evidence_name,
}

-- What the grader says: the work meets its criteria, or misses them, or no grade could be had.
pub data Graded : Type 0 where
  passes : Graded
  misses unavailable : String → Graded

-- The end of `drive_step`, or the exception that left it, and the disk.
abbrev pub Driven : Type 0
Driven = Result (Unit {0}) × Disk

abbrev pub driven : Outcome → Driven
driven (err x, d) = (err x, d)
driven (ok r, d) = (ok tt, d)

module _ (h : Driver) (run_id : String) where
  abbrev pub judge : String → Graded
  judge verdict =
      if h.meets verdict
      then passes
      else misses ("did not meet acceptance criteria: " <> cut 600 ((h.at checking).strip verdict))

  -- The loop over GRADE_ATTEMPTS.
  unfoldable pub grade_from : String → List String → String → ℕ → ℕ → String → Graded × List ℕ
  grade_from step_id criteria output zero attempt last =
      (unavailable (last <> " (after 3 attempts)"), [])
  grade_from step_id criteria output (suc left) attempt last =
      let retry = λ (text : String). grade_from step_id criteria output left (suc attempt) text in
      elim (h.grade attempt step_id criteria output) [
        | raised text ↦ retry text
        | answered verdict cost ↦ (judge verdict, cost ∷ [])
      ]

  unfoldable pub acceptance_failure : String → String → List String → Graded × List ℕ
  unfolding grade_from
  acceptance_failure step_id output [] = (passes, [])
  acceptance_failure step_id output (c ∷ cs) = grade_from step_id (c ∷ cs) output 3 1 "None"

  abbrev pub total_of : List ℕ → ℕ
  total_of [] = 0
  total_of (n ∷ ns) = n + total_of ns

  -- The work is kept, passed on or sent back as it was graded.
  unfoldable pub after_grade : String → Step → Row → ℕ → Disk → Graded × List ℕ → Driven
  unfolding finish record_failure hold_step evidence_name
  after_grade step_id step state cost d (passes, costs) = driven (
      finish h run_id finishing step_id step.owner (evidence_name h run_id step_id none)
        state.workflow_revision (cost + total_of costs) d)
  after_grade step_id step state cost d (misses reason, costs) =
      driven (record_failure h run_id step_id step.owner reason (cost + total_of costs) d)
  after_grade step_id step state cost d (unavailable reason, costs) = driven (
      hold_step h run_id parking step_id step.owner
        (evidence_name h run_id step_id (some "ungraded")) reason none (cost + total_of costs) d)

  unfoldable pub after_structure : String → Step → Row → String → ℕ → Disk → Option String → Driven
  unfolding after_grade acceptance_failure record_failure acceptance_criteria
  after_structure step_id step state output cost d (some reason) =
      driven (record_failure h run_id step_id step.owner reason cost d)
  after_structure step_id step state output cost d none =
      after_grade step_id step state cost d
        (acceptance_failure step_id output (acceptance_criteria h step_id))

  -- Work of a run that has ended meanwhile is dropped.
  unfoldable pub after_answer : String → Step → Row → String → ℕ → Disk → Result Row → Driven
  unfolding after_structure structural_failure
  after_answer step_id step state output cost d (err x) = (err x, d)
  after_answer step_id step state output cost d (ok now) =
      if is_active now.run_status
      then after_structure step_id step state output cost d
          (structural_failure h (h.at checking) output)
      else (ok tt, d)

  unfoldable pub after_dispatch : String → Step → Row → Disk → Reply → Driven
  unfolding after_answer release_step record_failure is_transient
  after_dispatch step_id step state d (raised text) =
      if is_transient h.lower text
      then driven (release_step h run_id step_id step.owner text 0 d)
      else driven (record_failure h run_id step_id step.owner text 0 d)
  after_dispatch step_id step state d (answered output cost) =
      after_answer step_id step state output cost d (state_at h run_id checking d)

  -- The allowance that a person bought, or the ceiling of the environment; 0 is no ceiling.
  unfoldable pub ceiling_of : Row → ℕ
  unfolding env_ceiling
  ceiling_of state =
      if eqb state.spend_ceiling_usd 0
      then env_ceiling (h.at budgeting).ceiling_env
      else state.spend_ceiling_usd

  abbrev pub spent_by : Row → Result Row → ℕ
  spent_by state (err x) = state.spend_usd
  spent_by state (ok now) = now.spend_usd

  abbrev pub parked : Outcome → Bool × Disk
  parked (err x, d) = (false, d)
  parked (ok r, d) = (true, d)

  -- Whether the step was parked before it could spend.
  unfoldable pub over_budget : String → String → Row → Disk → Bool × Disk
  unfolding ceiling_of hold_step evidence_name
  over_budget step_id owner state d =
      let spent = spent_by state (state_at h run_id budgeting d) in
      if eqb (ceiling_of state) 0 || ltb spent (ceiling_of state)
      then (false, d)
      else parked (
          hold_step h run_id budgeting step_id owner
            (evidence_name h run_id step_id (some "over-budget"))
            (h.budget_note spent (ceiling_of state)) (some "budget") 0 d)

  unfoldable pub after_budget : String → Step → Row → Bool × Disk → Driven
  unfolding after_dispatch dispatch
  after_budget step_id step state (true, d) = (ok tt, d)
  after_budget step_id step state (false, d) =
      after_dispatch step_id step state d (dispatch h run_id step_id step state)

  -- Work that a person approved is finished, not produced again; a budget stop has produced none.
  unfoldable pub work : String → Step → Row → Disk → Driven
  unfolding finish after_budget over_budget
  work step_id step state d =
      if step.held_kind == "budget" || step.held_evidence == ""
      then after_budget step_id step state (over_budget step_id step.owner state d)
      else driven (
          finish h run_id holding step_id step.owner step.held_evidence state.workflow_revision 0 d)

  unfoldable pub on_found : String → Row → Disk → Result Step → Driven
  unfolding work
  on_found step_id state d (err x) = (err x, d)
  on_found step_id state d (ok step) = work step_id step state d

  unfoldable pub after_reread : String → Disk → Result Row → Driven
  unfolding on_found
  after_reread step_id d (err x) = (err x, d)
  after_reread step_id d (ok state) =
      on_found step_id state d (found (get step_id state.steps) key_error)

  -- A step that could not be taken is left alone.
  unfoldable pub after_take : String → Outcome → Driven
  unfolding after_reread
  after_take step_id (err x, d) = (ok tt, d)
  after_take step_id (ok r, d) = after_reread step_id d (state_at h run_id rereading d)

  abbrev pub is_dispatched : String → Row → Bool
  is_dispatched step_id r = elim (get step_id r.steps) [
    | none ↦ false
    | some s ↦ is_in_progress s.status
  ]

  -- A step that waits for a person is left to them.
  unfoldable pub after_claim : String → Step → Row → Outcome → Driven
  unfolding work
  after_claim step_id step state (err x, d) = (err x, d)
  after_claim step_id step state (ok r, d) =
      if is_dispatched step_id r then work step_id step state d else (ok tt, d)

  unfoldable pub drive_found : String → Row → Disk → Step → Driven
  unfolding after_claim after_take work claim take claim_is_live
  drive_found step_id state d step =
      if is_in_progress step.status
      then (if step.holder == h.holder
          then work step_id step state d
          else (if claim_is_live (h.at claiming) step
              then (ok tt, d)
              else after_take step_id (take h run_id step_id step.owner d)))
      else after_claim step_id step state (claim h run_id step_id step.owner d)

  unfoldable pub drive_step : String → Row → Disk → Driven
  unfolding drive_found
  drive_step step_id state d = elim (found (get step_id state.steps) key_error) [
    | err x ↦ (err x, d)
    | ok step ↦ drive_found step_id state d step
  ]
