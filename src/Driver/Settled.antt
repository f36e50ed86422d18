-- ===== src/Driver/Settled.antt =====
-- The whole loop keeps the invariant of runs.
use my_org.Common.{
  ℕ, zero, suc, String, ◌≡◌, refl, not, ◌||◌, Option, none, some, List, [], ◌∷◌, if_ind,
}
use my_org.Result.{Result, ok, err, found, key_error}
use my_org.Steps.{Step, get}
use my_org.Run.{Row, is_active}
use my_org.Run.World.{World}
use my_org.Run.Mutate.{Disk, Outcome}
use my_org.Planner.{Reply, raised, answered}
use my_org.Commands.{args_of, execute, send_message_cmd}
use my_org.Commands.History.{Sound}
use my_org.Driver.Sends.{sending, reviewing, rereading, Driver, args_as, state_at}
use my_org.Driver.Work.{Driven, drive_step}
use my_org.Driver.Sound.{driven-Sound, drive_step-Sound}
use my_org.Driver.Sound.Sent.{OneHost, execute-Sound}
use my_org.Driver.Check.{
  Verdict, approves, returns, rejects, Checker, parse_verdict, submission_text, verdict_message,
  verdict_command, after_message, after_review, after_submission, checked_by, drive_check,
}
use my_org.Driver.Loop.{
  Crew, ready_steps, check_steps, next, drive_ready, drive_checks, drive_pass, then_advance,
  Advanced, is_idle, on_state, advance_from, advance,
}

module _ (w : World) (h : Driver) (k : Checker) (id : String) (host : OneHost w h) where
  verdict_command-run :
      (step_id checker : String) (v : Verdict) (cost : ℕ) (d : Disk)
      → (args_of (verdict_command h k id step_id checker v cost d)).run_id ≡ id
  unfolding verdict_command args_as
  verdict_command-run step_id checker approves cost d = refl
  verdict_command-run step_id checker returns cost d = refl
  verdict_command-run step_id checker rejects cost d = refl

  after_message-Sound :
      (step_id checker : String) (v : Verdict) (cost : ℕ) (o : Outcome)
      → Sound w id o.1
      → Sound w id (after_message h k id step_id checker v cost o).1
  unfolding after_message
  after_message-Sound step_id checker v cost (err x, d) s = s
  after_message-Sound step_id checker v cost (ok r, d) s =
      let command = verdict_command h k id step_id checker v cost d in
      driven-Sound w h id host (execute (h.at reviewing) command d) (
        execute-Sound w h id host reviewing command d (verdict_command-run step_id checker v cost d)
          s)

  after_review-Sound :
      (step_id : String) (step : Step) (checker : String) (d : Disk) (reply : Reply)
      → Sound w id d
      → Sound w id (after_review h k id step_id step checker d reply).1
  unfolding after_review args_as
  after_review-Sound step_id step checker d (raised text) s = s
  after_review-Sound step_id step checker d (answered output cost) s =
      let v = parse_verdict k output in
      let command =
        send_message_cmd (args_as h id sending step_id checker "verdict-message" d)
          (verdict_message h k id step_id step v) in
      after_message-Sound step_id checker v cost (execute (h.at sending) command d)
        (execute-Sound w h id host sending command d refl s)

  after_submission-Sound :
      (step_id : String) (step : Step) (checker : String) (d : Disk) (text : Option String)
      → Sound w id d
      → Sound w id (after_submission h k id step_id step checker d text).1
  unfolding after_submission
  after_submission-Sound step_id step checker d none s = s
  after_submission-Sound step_id step checker d (some text) s =
      after_review-Sound step_id step checker d (k.review step_id checker text) s

  checked_by-Sound :
      (step_id : String) (d : Disk) (step : Step) (checker : Option String)
      → Sound w id d
      → Sound w id (checked_by h k id step_id d step checker).1
  unfolding checked_by
  checked_by-Sound step_id d step none s = s
  checked_by-Sound step_id d step (some checker) s =
      after_submission-Sound step_id step checker d (submission_text h k id step) s

  drive_check-Sound :
      (step_id : String) (state : Row) (d : Disk)
      → Sound w id d
      → Sound w id (drive_check h k id step_id state d).1
  unfolding drive_check
  drive_check-Sound step_id state d s = on (found (get step_id state.steps) key_error)
    where
      on :
          (step : Result Step)
          → Sound w id
              (elim step as (λ (r : Result Step). Driven) [
                | err x ↦ (err x, d)
                | ok t ↦ checked_by h k id step_id d t t.checker
              ]).1
      on (err x) = s
      on (ok step) = checked_by-Sound step_id d step step.checker s

module _ (w : World) (c : Crew) (id : String)
    (hosts : (pass : ℕ) (step_id : String) → OneHost w (c.driver pass step_id)) where
  next-Sound :
      (rest : Disk → Driven) (o : Driven)
      → ((d : Disk) → Sound w id d → Sound w id (rest d).1)
      → Sound w id o.1
      → Sound w id (next rest o).1
  unfolding next
  next-Sound rest (err x, d) f s = s
  next-Sound rest (ok u, d) f s = f d s

  drive_ready-Sound :
      (pass : ℕ) (state : Row) (names : List String) (d : Disk)
      → Sound w id d
      → Sound w id (drive_ready c id pass state names d).1
  unfolding drive_ready
  drive_ready-Sound pass state [] d s = s
  drive_ready-Sound pass state (n ∷ ns) d s =
      next-Sound (drive_ready c id pass state ns) (drive_step (c.driver pass n) id n state d)
        (drive_ready-Sound pass state ns)
        (drive_step-Sound w (c.driver pass n) id n state d (hosts pass n) s)

  drive_checks-Sound :
      (pass : ℕ) (state : Row) (names : List String) (d : Disk)
      → Sound w id d
      → Sound w id (drive_checks c id pass state names d).1
  unfolding drive_checks
  drive_checks-Sound pass state [] d s = s
  drive_checks-Sound pass state (n ∷ ns) d s =
      next-Sound (drive_checks c id pass state ns)
        (drive_check (c.driver pass n) (c.checker pass n) id n state d)
        (drive_checks-Sound pass state ns)
        (drive_check-Sound w (c.driver pass n) (c.checker pass n) id (hosts pass n) n state d s)

  drive_pass-Sound :
      (pass : ℕ) (state : Row) (d : Disk)
      → Sound w id d
      → Sound w id (drive_pass c id pass state d).1
  unfolding drive_pass
  drive_pass-Sound pass state d s =
      next-Sound (drive_checks c id pass state (check_steps state))
        (drive_ready c id pass state (ready_steps (c.reader pass) state) d)
        (drive_checks-Sound pass state (check_steps state))
        (drive_ready-Sound pass state (ready_steps (c.reader pass) state) d s)

  then_advance-Sound :
      (rest : Disk → Advanced c id) (o : Driven)
      → ((d : Disk) → Sound w id d → Sound w id (rest d).1)
      → Sound w id o.1
      → Sound w id (then_advance c id rest o).1
  unfolding then_advance
  then_advance-Sound rest (err x, d) f s = s
  then_advance-Sound rest (ok u, d) f s = f d s

  on_state-Sound :
      (rest : Disk → Advanced c id) (pass : ℕ) (d : Disk) (state : Result Row)
      → ((e : Disk) → Sound w id e → Sound w id (rest e).1)
      → Sound w id d
      → Sound w id (on_state c id rest pass d state).1
  unfolding on_state
  on_state-Sound rest pass d (err x) f s = s
  on_state-Sound rest pass d (ok state) f s =
      if_ind (λ (o : Advanced c id). Sound w id o.1)
        (not (is_active state.run_status) || is_idle c id pass state) _ _ (λ _. s)
        (λ _.
          then_advance-Sound rest (drive_pass c id pass state d) f
            (drive_pass-Sound pass state d s))

  advance_from-Sound :
      (left pass : ℕ) (d : Disk) → Sound w id d → Sound w id (advance_from c id left pass d).1
  unfolding advance_from
  advance_from-Sound zero pass d s = s
  advance_from-Sound (suc left) pass d s =
      if_ind (λ (o : Advanced c id). Sound w id o.1) (c.halt pass) _ _ (λ _. s)
        (λ _.
          on_state-Sound (advance_from c id left (suc pass)) pass d
            (state_at (c.reader pass) id rereading d) (advance_from-Sound left (suc pass)) s)

-- However many passes `advance` makes, whatever departments, graders and checkers answer and whatever
-- fails, the run's file stays a readable chain of states with the invariant of runs, if it was one,
-- in worlds that share the hash function and `strip`.
pub advance-Sound :
    (w : World) (c : Crew) (id : String) (max_iterations : ℕ) (d : Disk)
    → ((pass : ℕ) (step_id : String) → OneHost w (c.driver pass step_id))
    → Sound w id d
    → Sound w id (advance c id max_iterations d).1
unfolding advance
advance-Sound w c id max_iterations d hosts s = advance_from-Sound w c id hosts max_iterations 0 d s
