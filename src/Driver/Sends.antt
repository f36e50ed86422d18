-- ===== src/Driver/Sends.antt =====
-- The commands that the driver sends to the runtime.
use Prim.Native.String.{◌++◌ as ◌<>◌}
use my_org.Common.{ℕ, String, pos, Bool, Option, none, some, List, if◌then◌else◌, ◌==◌}
use my_org.Result.{Result, ok, err, Error, ◌>>=◌, found, key_error}
use my_org.Steps.{Step, get}
use my_org.Run.{Row}
use my_org.Run.World.{World}
use my_org.Run.Mutate.{Disk, Outcome}
use my_org.Verbs.{Args}
use my_org.Commands.{
  Command, request_step_cmd, take_cmd, hold_cmd, complete_cmd, fail_cmd, release_step_cmd, execute,
}
use my_org.Health.{current_state}
use my_org.Planner.{Reply}
use my_org.Triggers.Queue.{cut}

-- What the driver does at a time of its own.
pub data Stage : Type 0 where
  claiming taking rereading holding budgeting checking finishing failing releasing parking working
        sending reviewing :
      Stage

-- The text that `request_id` puts at the end.
abbrev verb_text : Stage → String
verb_text claiming = "claim"
verb_text taking = "take"
verb_text finishing = "complete"
verb_text holding = "complete"
verb_text failing = "fail"
verb_text releasing = "release"
verb_text parking = "hold"
verb_text budgeting = "over-budget"
verb_text _ = ""

-- Work that a step upstream handed on, and what is asked of a department.
pub record Handoff : Type 0 where
  pub step_id : String
  pub owner : String
  pub text : String

pub record StepRequest : Type 0 where
  pub run_id : String
  pub step_id : String
  pub agent : String
  pub action : String
  pub goal : String
  pub handoffs : List Handoff
  pub feedback : String

-- What the driver has from outside: the world at each time, its own name, the id of a mutation of a step
-- that cannot be read, what a department answers, what the grader answers to an attempt, a step and
-- its criteria and text, GRADE_PATTERN's and NOT_A_DELIVERABLE's tests, the acceptance criteria in the
-- workflow's snapshot, the texts of an error and of a budget stop, and `str.lower`.
pub record Driver : Type 0 where
  pub at : Stage → World
  pub holder : String
  pub fresh_id : String
  pub backend : StepRequest → Reply
  pub grade : ℕ → String → List String → String → Reply
  pub meets : String → Bool
  pub asks : String → Bool
  pub snapshot : Option (List (String × List String))
  pub message : Error → String
  pub budget_note : ℕ → ℕ → String
  pub lower : String → String

module _ (h : Driver) (run_id : String) where
  abbrev pub state_at : Stage → Disk → Result Row
  state_at stage d = current_state (h.at stage) run_id d.file

  abbrev pub step_at : Stage → String → Disk → Result Step
  step_at stage step_id d = do state ← state_at stage d; found (get step_id state.steps) key_error

  -- A step that cannot be read has no attempt to name.
  abbrev pub id_of : Stage → String → String → Result Step → String
  id_of stage step_id verb (err x) = "exec-" <> (step_id <> ("-" <> h.fresh_id))
  id_of stage step_id verb (ok step) =
      "exec-"
      <> (step_id
          <> ("-a"
              <> ((h.at stage).str step.attempts
                  <> ("-r" <> ((h.at stage).str step.releases <> ("-" <> verb))))))

  unfoldable pub request_id : Stage → String → String → Disk → String
  unfolding current_state
  request_id stage step_id verb d = id_of stage step_id verb (step_at stage step_id d)

  abbrev pub token_of : String → Option String
  token_of token = if token == "" then none else some token

  unfoldable pub token_for : Stage → String → Disk → Result (Option String)
  unfolding current_state
  token_for stage step_id d = do step ← step_at stage step_id d; ok (token_of step.claim_token)

  unfoldable pub args_as : Stage → String → String → String → Disk → Args
  unfolding request_id
  args_as stage step_id actor verb d = record {
    run_id = run_id;
    step = step_id;
    actor = actor;
    request_id = request_id stage step_id verb d;
  }

  unfoldable pub args_at : Stage → String → String → Disk → Args
  unfolding args_as
  args_at stage step_id owner d = args_as stage step_id owner (verb_text stage) d

  -- A command that carries the token, which is read before.
  unfoldable pub send_with :
      Stage → (Option String → Command) → Disk → Result (Option String) → Outcome
  unfolding execute
  send_with stage command d (err x) = (err x, d)
  send_with stage command d (ok token) = execute (h.at stage) (command token) d

  unfoldable pub claim : String → String → Disk → Outcome
  unfolding execute args_at
  claim step_id owner d =
      execute (h.at claiming) (request_step_cmd (args_at claiming step_id owner d) (some h.holder))
        d

  unfoldable pub take : String → String → Disk → Outcome
  unfolding execute args_at
  take step_id owner d =
      execute (h.at taking) (take_cmd (args_at taking step_id owner d) h.holder) d

  -- The commands, but for the token.
  unfoldable pub complete_with :
      Stage → String → String → String → String → ℕ → Disk → Option String → Command
  unfolding args_at
  complete_with stage step_id owner evidence revision spend d token =
      complete_cmd (args_at stage step_id owner d) evidence revision
        (record { spend = pos spend; claim_token = token })

  unfoldable pub release_with : String → String → String → ℕ → Disk → Option String → Command
  unfolding args_at
  release_with step_id owner reason spend d token =
      release_step_cmd (args_at releasing step_id owner d) (cut 2000 reason)
        (record { spend = pos spend; claim_token = token })

  unfoldable pub fail_with : String → String → String → ℕ → Disk → Option String → Command
  unfolding args_at
  fail_with step_id owner reason spend d token =
      fail_cmd (args_at failing step_id owner d) (cut 2000 reason)
        (record { spend = pos spend; claim_token = token })

  unfoldable pub hold_with :
      Stage → String → String → String → String → Option String → ℕ → Disk → Option String → Command
  unfolding args_at
  hold_with stage step_id owner artifact reason kind spend d token =
      hold_cmd (args_at stage step_id owner d) (record {
        evidence = artifact;
        reason = cut 2000 reason;
        kind = kind;
        spend = pos spend;
        claim_token = token;
      })

  unfoldable pub finish : Stage → String → String → String → String → ℕ → Disk → Outcome
  unfolding send_with complete_with token_for
  finish stage step_id owner evidence revision spend d =
      send_with stage (complete_with stage step_id owner evidence revision spend d) d
        (token_for stage step_id d)

  unfoldable pub release_step : String → String → String → ℕ → Disk → Outcome
  unfolding send_with release_with token_for
  release_step step_id owner reason spend d =
      send_with releasing (release_with step_id owner reason spend d) d
        (token_for releasing step_id d)

  unfoldable pub record_failure : String → String → String → ℕ → Disk → Outcome
  unfolding send_with fail_with token_for
  record_failure step_id owner reason spend d =
      send_with failing (fail_with step_id owner reason spend d) d (token_for failing step_id d)

  -- `hold`, for work that was not graded and for a step that was not dispatched.
  unfoldable pub hold_step :
      Stage → String → String → String → String → Option String → ℕ → Disk → Outcome
  unfolding send_with hold_with token_for
  hold_step stage step_id owner artifact reason kind spend d =
      send_with stage (hold_with stage step_id owner artifact reason kind spend d) d
        (token_for stage step_id d)

  -- The path that `write_evidence` returns.
  abbrev labelled : Option String → String
  labelled none = ""
  labelled (some label) = "." <> label

  unfoldable pub evidence_name : String → Option String → String
  evidence_name step_id label =
      "runtime/runs/" <> (run_id <> ("." <> (step_id <> (labelled label <> ".evidence"))))
