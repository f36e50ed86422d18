-- ===== src/Driver/Sound.antt =====
-- The driver keeps the invariant of runs.
pub mod Sent
use my_org.Common.{
  ℕ, ◌+◌, String, ◌≡◌, refl, Bool, true, false, ◌||◌, Option, none, some, List, [], ◌∷◌, if_ind,
  ◌==◌, eqb, ltb,
}
use my_org.Result.{Result, ok, err, found, key_error}
use my_org.Steps.{Step, get, is_in_progress}
use my_org.Run.{Row, is_active}
use my_org.Run.World.{World}
use my_org.Run.Claims.{claim_is_live}
use my_org.Run.Mutate.{Disk, Outcome}
use my_org.Backends.{is_transient}
use my_org.Planner.{Reply, raised, answered}
use my_org.Commands.{Command, args_of, execute, run_commands, request_step_cmd, take_cmd}
use my_org.Commands.History.{Sound, run_commands-Sound}
use my_org.Driver.Request.{acceptance_criteria, structural_failure, dispatch}
use my_org.Driver.Sends.{
  Stage, claiming, taking, rereading, holding, budgeting, checking, finishing, failing, releasing,
  parking, Driver, state_at, send_with, token_for, claim, take, finish, release_step,
  record_failure, hold_step, evidence_name, complete_with, release_with, fail_with, hold_with,
  args_at, args_as,
}
use my_org.Driver.Work.{
  Graded, passes, misses, unavailable, Driven, driven, after_grade, after_structure, after_answer,
  after_dispatch, ceiling_of, total_of, spent_by, parked, over_budget, after_budget, work, on_found,
  after_reread, after_take, is_dispatched, after_claim, drive_found, drive_step, acceptance_failure,
}
use my_org.Driver.Sound.Sent.{
  OneHost, finish-Sound, release_step-Sound, record_failure-Sound, hold_step-Sound, claim-Sound,
  take-Sound,
}

module _ (w : World) (h : Driver) (id : String) (host : OneHost w h) where
  pub driven-Sound : (o : Outcome) → Sound w id o.1 → Sound w id (driven o).1
  driven-Sound (err x, d) s = s
  driven-Sound (ok r, d) s = s

  parked-Sound : (o : Outcome) → Sound w id o.1 → Sound w id (parked h id o).1
  parked-Sound (err x, d) s = s
  parked-Sound (ok r, d) s = s

  after_grade-Sound :
      (step_id : String) (step : Step) (state : Row) (cost : ℕ) (d : Disk) (g : Graded × List ℕ)
      → Sound w id d
      → Sound w id (after_grade h id step_id step state cost d g).1
  unfolding after_grade
  after_grade-Sound step_id step state cost d (passes, costs) s =
      let evidence = evidence_name h id step_id none in
      let spend = cost + total_of h id costs in
      driven-Sound
        (finish h id finishing step_id step.owner evidence state.workflow_revision spend d)
        (finish-Sound w h id host finishing step_id step.owner evidence state.workflow_revision
          spend d s)
  after_grade-Sound step_id step state cost d (misses reason, costs) s =
      let spend = cost + total_of h id costs in
      driven-Sound (record_failure h id step_id step.owner reason spend d)
        (record_failure-Sound w h id host step_id step.owner reason spend d s)
  after_grade-Sound step_id step state cost d (unavailable reason, costs) s =
      let artifact = evidence_name h id step_id (some "ungraded") in
      let spend = cost + total_of h id costs in
      driven-Sound (hold_step h id parking step_id step.owner artifact reason none spend d)
        (hold_step-Sound w h id host parking step_id step.owner artifact reason none spend d s)

  after_structure-Sound :
      (step_id : String) (step : Step) (state : Row) (output : String) (cost : ℕ) (d : Disk)
      (reason : Option String)
      → Sound w id d
      → Sound w id (after_structure h id step_id step state output cost d reason).1
  unfolding after_structure
  after_structure-Sound step_id step state output cost d (some reason) s =
      driven-Sound (record_failure h id step_id step.owner reason cost d)
        (record_failure-Sound w h id host step_id step.owner reason cost d s)
  after_structure-Sound step_id step state output cost d none s =
      after_grade-Sound step_id step state cost d
        (acceptance_failure h id step_id output (acceptance_criteria h step_id)) s

  after_answer-Sound :
      (step_id : String) (step : Step) (state : Row) (output : String) (cost : ℕ) (d : Disk)
      (now : Result Row)
      → Sound w id d
      → Sound w id (after_answer h id step_id step state output cost d now).1
  unfolding after_answer
  after_answer-Sound step_id step state output cost d (err x) s = s
  after_answer-Sound step_id step state output cost d (ok now) s =
      if_ind (λ (o : Driven). Sound w id o.1) (is_active now.run_status) _ _
        (λ _.
          after_structure-Sound step_id step state output cost d
            (structural_failure h (h.at checking) output) s)
        (λ _. s)

  after_dispatch-Sound :
      (step_id : String) (step : Step) (state : Row) (d : Disk) (reply : Reply)
      → Sound w id d
      → Sound w id (after_dispatch h id step_id step state d reply).1
  unfolding after_dispatch
  after_dispatch-Sound step_id step state d (raised text) s =
      if_ind (λ (o : Driven). Sound w id o.1) (is_transient h.lower text) _ _
        (λ _.
          driven-Sound (release_step h id step_id step.owner text 0 d)
            (release_step-Sound w h id host step_id step.owner text 0 d s))
        (λ _.
          driven-Sound (record_failure h id step_id step.owner text 0 d)
            (record_failure-Sound w h id host step_id step.owner text 0 d s))
  after_dispatch-Sound step_id step state d (answered output cost) s =
      after_answer-Sound step_id step state output cost d (state_at h id checking d) s

  over_budget-Sound :
      (step_id owner : String) (state : Row) (d : Disk)
      → Sound w id d
      → Sound w id (over_budget h id step_id owner state d).1
  unfolding over_budget
  over_budget-Sound step_id owner state d s =
      let spent = spent_by h id state (state_at h id budgeting d) in
      let ceiling = ceiling_of h id state in
      let artifact = evidence_name h id step_id (some "over-budget") in
      let note = h.budget_note spent ceiling in
      if_ind (λ (o : Bool × Disk). Sound w id o.1) (eqb ceiling 0 || ltb spent ceiling) _ _ (λ _. s)
        (λ _.
          parked-Sound (hold_step h id budgeting step_id owner artifact note (some "budget") 0 d) (
            hold_step-Sound w h id host budgeting step_id owner artifact note (some "budget") 0 d
              s))

  after_budget-Sound :
      (step_id : String) (step : Step) (state : Row) (o : Bool × Disk)
      → Sound w id o.1
      → Sound w id (after_budget h id step_id step state o).1
  unfolding after_budget
  after_budget-Sound step_id step state (true, d) s = s
  after_budget-Sound step_id step state (false, d) s =
      after_dispatch-Sound step_id step state d (dispatch h id step_id step state) s

  work-Sound :
      (step_id : String) (step : Step) (state : Row) (d : Disk)
      → Sound w id d
      → Sound w id (work h id step_id step state d).1
  unfolding work
  work-Sound step_id step state d s =
      let held = step.held_evidence in
      if_ind (λ (o : Driven). Sound w id o.1) (step.held_kind == "budget" || held == "") _ _
        (λ _.
          after_budget-Sound step_id step state (over_budget h id step_id step.owner state d)
            (over_budget-Sound step_id step.owner state d s))
        (λ _.
          driven-Sound (finish h id holding step_id step.owner held state.workflow_revision 0 d) (
            finish-Sound w h id host holding step_id step.owner held state.workflow_revision 0 d s))

  after_reread-Sound :
      (step_id : String) (d : Disk) (state : Result Row)
      → Sound w id d
      → Sound w id (after_reread h id step_id d state).1
  unfolding after_reread on_found
  after_reread-Sound step_id d (err x) s = s
  after_reread-Sound step_id d (ok state) s = on (found (get step_id state.steps) key_error)
    where
      on : (step : Result Step) → Sound w id (on_found h id step_id state d step).1
      on (err x) = s
      on (ok step) = work-Sound step_id step state d s

  after_take-Sound :
      (step_id : String) (o : Outcome) → Sound w id o.1 → Sound w id (after_take h id step_id o).1
  unfolding after_take
  after_take-Sound step_id (err x, d) s = s
  after_take-Sound step_id (ok r, d) s = after_reread-Sound step_id d (state_at h id rereading d) s

  after_claim-Sound :
      (step_id : String) (step : Step) (state : Row) (o : Outcome)
      → Sound w id o.1
      → Sound w id (after_claim h id step_id step state o).1
  unfolding after_claim
  after_claim-Sound step_id step state (err x, d) s = s
  after_claim-Sound step_id step state (ok r, d) s =
      if_ind (λ (o : Driven). Sound w id o.1) (is_dispatched h id step_id r) _ _
        (λ _. work-Sound step_id step state d s) (λ _. s)

  drive_found-Sound :
      (step_id : String) (state : Row) (d : Disk) (step : Step)
      → Sound w id d
      → Sound w id (drive_found h id step_id state d step).1
  unfolding drive_found
  drive_found-Sound step_id state d step s =
      if_ind (λ (o : Driven). Sound w id o.1) (is_in_progress step.status) _ _
        (λ _.
          if_ind (λ (o : Driven). Sound w id o.1) (step.holder == h.holder) _ _
            (λ _. work-Sound step_id step state d s)
            (λ _.
              if_ind (λ (o : Driven). Sound w id o.1) (claim_is_live (h.at claiming) step) _ _
                (λ _. s)
                (λ _.
                  after_take-Sound step_id (take h id step_id step.owner d)
                    (take-Sound w h id host step_id step.owner d s))))
        (λ _.
          after_claim-Sound step_id step state (claim h id step_id step.owner d)
            (claim-Sound w h id host step_id step.owner d s))

-- Whatever a department and the grader answer, and whatever fails on the way, driving a step leaves the
-- run's file a readable chain of states that all have the invariant of runs, if it was one, in
-- worlds that share the hash function and `strip`.
pub drive_step-Sound :
    (w : World) (h : Driver) (id step_id : String) (state : Row) (d : Disk)
    → OneHost w h
    → Sound w id d
    → Sound w id (drive_step h id step_id state d).1
unfolding drive_step
drive_step-Sound w h id step_id state d host s = on (found (get step_id state.steps) key_error)
  where
    on :
        (step : Result Step)
        → Sound w id
            (elim step as (λ (r : Result Step). Driven) [
              | err x ↦ (err x, d)
              | ok t ↦ drive_found h id step_id state d t
            ]).1
    on (err x) = s
    on (ok step) = drive_found-Sound w h id host step_id state d step s
