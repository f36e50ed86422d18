-- ===== src/Driver/Check.antt =====
-- `drive_check` of runtime/checking.py: a second department judges the submission of the first. The
-- lesson that a refusal may propose goes to the company's memory, which is not modelled.
use Prim.Native.String.{◌++◌ as ◌<>◌}
use my_org.Common.{ℕ, ◌+◌, String, pos, Option, none, some, if◌then◌else◌, ◌==◌}
use my_org.Result.{Result, ok, err, found, key_error}
use my_org.Steps.{Step, get}
use my_org.Run.{Row}
use my_org.Run.Mutate.{Disk, Outcome}
use my_org.Verbs.{evidence_path}
use my_org.Verbs.Review.{Draft}
use my_org.Commands.{
  Command, send_message_cmd, check_approve_cmd, check_return_cmd, check_reject_cmd, execute,
}
use my_org.Planner.{Reply, raised, answered}
use my_org.Triggers.Queue.{cut}
use my_org.Driver.Sends.{sending, reviewing, Driver, args_as, evidence_name}
use my_org.Driver.Work.{Driven, driven}

pub data Verdict : Type 0 where
  approves returns rejects : Verdict

-- What the checker answers to a submission, VERDICT_PATTERN's word in it, and the id of a new message.
pub record Checker : Type 0 where
  pub review : String → String → String → Reply
  pub verdict_word : String → Option Verdict
  pub message_id : String → String

-- An unreadable verdict is a return.
unfoldable pub parse_verdict : Checker → String → Verdict
parse_verdict k text = elim (k.verdict_word text) [ none ↦ returns | some v ↦ v ]

abbrev verdict_text : Verdict → String
verdict_text approves = "approve"
verdict_text returns = "return"
verdict_text rejects = "reject"

abbrev kind_of : Verdict → String
kind_of approves = "decision"
kind_of _ = "feedback"

module _ (h : Driver) (k : Checker) (run_id : String) where
  -- The artifact, hashed again, or nothing that a checker may see.
  abbrev pub same_bytes : Step → Result (String × String) → Option String
  same_bytes step (err x) = none
  same_bytes step (ok (relative, hash)) =
      if hash == step.evidence_sha256 then (h.at reviewing).read_file relative else none

  unfoldable pub submission_text : Step → Option String
  unfolding evidence_path
  submission_text step = same_bytes step (evidence_path (h.at reviewing) step.evidence)

  unfoldable pub verdict_message : String → Step → Verdict → Draft
  unfolding evidence_name
  verdict_message step_id step v = record {
    message_id = k.message_id step_id;
    to_agent = step.owner;
    kind = kind_of v;
    subject = cut 120 ("Check " <> (verdict_text v <> (" for " <> step_id)));
    payload =
        evidence_name h run_id step_id
          (some ("check" <> (h.at sending).str (step.review_cycles + 1)));
    classification = "internal";
    reply_to = none;
  }

  -- The command of CHECK_COMMANDS.
  unfoldable pub verdict_command : String → String → Verdict → ℕ → Disk → Command
  unfolding args_as
  verdict_command step_id checker approves cost d =
      check_approve_cmd (args_as h run_id reviewing step_id checker "check-approve" d)
        (k.message_id step_id) (pos cost)
  verdict_command step_id checker returns cost d =
      check_return_cmd (args_as h run_id reviewing step_id checker "check-return" d)
        (k.message_id step_id) (pos cost)
  verdict_command step_id checker rejects cost d =
      check_reject_cmd (args_as h run_id reviewing step_id checker "check-reject" d)
        (k.message_id step_id) (pos cost)

  unfoldable pub after_message : String → String → Verdict → ℕ → Outcome → Driven
  unfolding execute verdict_command
  after_message step_id checker v cost (err x, d) = (err x, d)
  after_message step_id checker v cost (ok r, d) =
      driven (execute (h.at reviewing) (verdict_command step_id checker v cost d) d)

  -- A checker that could not be asked leaves the step as it is.
  unfoldable pub after_review : String → Step → String → Disk → Reply → Driven
  unfolding after_message verdict_message parse_verdict execute args_as
  after_review step_id step checker d (raised text) = (ok tt, d)
  after_review step_id step checker d (answered output cost) =
      after_message step_id checker (parse_verdict k output) cost (
        execute (h.at sending)
          (send_message_cmd (args_as h run_id sending step_id checker "verdict-message" d)
            (verdict_message step_id step (parse_verdict k output)))
          d)

  unfoldable pub after_submission : String → Step → String → Disk → Option String → Driven
  unfolding after_review
  after_submission step_id step checker d none = (ok tt, d)
  after_submission step_id step checker d (some text) =
      after_review step_id step checker d (k.review step_id checker text)

  unfoldable pub checked_by : String → Disk → Step → Option String → Driven
  unfolding after_submission submission_text
  checked_by step_id d step none = (err key_error, d)
  checked_by step_id d step (some checker) =
      after_submission step_id step checker d (submission_text step)

  unfoldable pub drive_check : String → Row → Disk → Driven
  unfolding checked_by
  drive_check step_id state d = elim (found (get step_id state.steps) key_error) [
    | err x ↦ (err x, d)
    | ok step ↦ checked_by step_id d step step.checker
  ]
