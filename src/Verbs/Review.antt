-- ===== src/Verbs/Review.antt =====
-- runtime/run_review.py: the messages between departments, and the second opinion. `gate` is in Create.
use my_org.Common.{
  ◌+◌, String, ℤ, Bool, false, ◌&&◌, ◌||◌, Option, none, some, List, [], ◌∷◌, ◌++◌, if◌then◌else◌,
  ◌==◌, leb, member, some_of, find_first, is_slug, text_length,
}
use my_org.Result.{
  Result, ok, ◌>>=◌, ◌>>◌, require, refuse, found, key_error, unknown_step, not_awaiting_check,
  not_step_checker, no_checker_message, message_of_another_step, wrong_checker_message,
  checker_message_changed, invalid_message_id, bad_kind, bad_classification, bad_subject,
  message_id_exists, not_adjacent, same_participants, no_reply_target, bad_reply,
}
use my_org.Steps.{
  ready, completed, blocked_review_limit, rejected_by_checker, Step, Steps, get, is_awaiting_check,
}
use my_org.Run.{Message, Run, Payload}
use my_org.Run as Run
use my_org.Run.World.{World}
use my_org.Run.Mutate.{Verb}
use my_org.Verbs.{
  Args, step_in, update, evidence_path, release_dependents, verify_submission, charge_step,
  charge_run,
}
use my_org.Verbs.Life.{request_of, no_entry}

-- What a caller of `send_message` writes.
pub record Draft : Type 0 where
  pub message_id : String
  pub to_agent : String
  pub kind : String
  pub subject : String
  pub classification : String
  pub payload : String
  pub reply_to : Option String

abbrev pub message_kinds : List String
message_kinds = "handoff" ∷ "question" ∷ "answer" ∷ "feedback" ∷ "decision" ∷ []

abbrev pub classifications : List String
classifications = "public" ∷ "internal" ∷ "confidential" ∷ []

-- The departments of a step: its owner and its checker.
unfoldable pub parties : Step → List String
parties step = step.owner ∷ elim step.checker [ none ↦ [] | some c ↦ c ∷ [] ]

-- The parties of the steps that a step depends on; a name that is not there raises.
unfoldable pub upstream : Steps → List String → Result (List String)
unfolding parties
upstream steps [] = ok []
upstream steps (d ∷ ds) = do
  step ← found (get d steps) key_error
  rest ← upstream steps ds
  ok (parties step ++ rest)

-- The parties of the steps that depend on it.
unfoldable pub downstream : String → Steps → List String
unfolding parties
downstream key [] = []
downstream key ((k, s) ∷ m) =
    let rest = downstream key m in if member key s.depends_on then parties s ++ rest else rest

-- `pair <= current or (pair & current and pair & adjacent)`.
unfoldable pub may_talk : List String → List String → String → String → Bool
may_talk current adjacent a b =
    (member a current && member b current)
    || (member a current || member b current) && (member a adjacent || member b adjacent)

abbrev pub has_id : String → Message → Bool
has_id id m = m.id == id

unfoldable pub check_reply : Args → Draft → List Message → Result (Unit {0})
check_reply a m messages = elim m.reply_to [
  | none ↦ ok tt
  | some id ↦ if id == "" then ok tt else (do
    prior ← found (find_first (has_id id) messages) no_reply_target
    require (prior.step == a.step && prior.from_agent == m.to_agent && prior.to_agent == a.actor)
        bad_reply)
]

unfoldable pub send_change : World → Args → Draft → String × String → Payload → Result Run
unfolding upstream downstream may_talk check_reply
send_change w a m (proof, proof_hash) s = do
  refuse (some_of (has_id m.message_id) s.messages) message_id_exists
  step ← found (get a.step s.steps) unknown_step
  above ← upstream s.steps step.depends_on
  let adjacent = above ++ downstream a.step s.steps
  require (may_talk (parties step) adjacent a.actor m.to_agent) not_adjacent
  refuse (a.actor == m.to_agent) same_participants
  check_reply a m s.messages
  ok (record s.body {
    messages =
        s.messages
        ++ record {
          id = m.message_id;
          step = a.step;
          from_agent = a.actor;
          to_agent = m.to_agent;
          kind = m.kind;
          subject = w.strip m.subject;
          classification = m.classification;
          payload = proof;
          payload_sha256 = proof_hash;
          reply_to = m.reply_to;
          sent_at = w.stamped_at;
        }
          ∷ [];
  })

-- The sender is the event's actor and the message its target.
unfoldable pub send_message : World → Args → Draft → Result Verb
unfolding evidence_path
send_message w a m = do
  require (is_slug m.message_id) invalid_message_id
  proof ← evidence_path w m.payload
  require (member m.kind message_kinds) bad_kind
  require (member m.classification classifications) bad_classification
  let subject_length = text_length (w.strip m.subject)
  require (leb 1 subject_length && leb subject_length 160) bad_subject
  ok (record {
    request = record {
      run_id = a.run_id;
      request_id = a.request_id;
      event = "message.sent";
      actor = a.actor;
      target = m.message_id;
    };
    change = send_change w a m proof;
    entry = no_entry;
  })

-- The checks of `checker_message`; the message itself is not used by the callers.
unfoldable pub checker_message : World → Run → String → String → String → String → Result (Unit {0})
unfolding evidence_path
checker_message w r step_id message_id checker kind = do
  step ← found (get step_id r.steps) key_error
  m ← found (find_first (has_id message_id) r.messages) no_checker_message
  require (m.step == step_id) message_of_another_step
  require (m.from_agent == checker && m.to_agent == step.owner && m.kind == kind)
      wrong_checker_message
  (_, current_hash) ← evidence_path w m.payload
  require (current_hash == m.payload_sha256) checker_message_changed

abbrev pub is_checker : Step → String → Bool
is_checker step actor = elim step.checker [ none ↦ false | some c ↦ actor == c ]

-- The guards that the three verdicts share.
unfoldable pub reviewed : World → Args → String → String → Payload → Result Step
unfolding step_in verify_submission checker_message
reviewed w a message_id kind s = do
  step ← step_in is_awaiting_check not_awaiting_check a.step s.steps
  require (is_checker step a.actor) not_step_checker
  verify_submission w step
  checker_message w s.body a.step message_id a.actor kind
  ok step

unfoldable pub check_approve_change : World → Args → String → ℤ → Payload → Result Run
unfolding reviewed charge_step charge_run release_dependents
check_approve_change w a message_id spend s = do
  step ← reviewed w a message_id "decision" s
  let done = record step { status = completed; checked_by = a.actor; check_message = message_id }
  release_dependents (update (charge_run spend s.body) a.step (charge_step spend done))

unfoldable pub check_approve : World → Args → String → ℤ → Verb
check_approve w a message_id spend = record {
  request = request_of a "check.approved";
  change = check_approve_change w a message_id spend;
  entry = no_entry;
}

-- A return sends the step back, or ends the run where its review cycles are spent.
unfoldable pub returned : Args → String → Run → Step → Run
returned a message_id r step =
    if leb step.max_review_cycles step.review_cycles
    then record (update r a.step (record step { status = blocked_review_limit })) {
      run_status = Run.blocked_review_limit;
    }
    else update r a.step (record step {
      review_cycles = step.review_cycles + 1;
      status = ready;
      last_feedback_message = message_id;
    })

unfoldable pub check_return_change : World → Args → String → ℤ → Payload → Result Run
unfolding reviewed charge_step charge_run returned
check_return_change w a message_id spend s = do
  step ← reviewed w a message_id "feedback" s
  ok (returned a message_id (charge_run spend s.body) (charge_step spend step))

unfoldable pub check_return : World → Args → String → ℤ → Verb
check_return w a message_id spend = record {
  request = request_of a "check.returned";
  change = check_return_change w a message_id spend;
  entry = no_entry;
}

unfoldable pub check_reject_change : World → Args → String → ℤ → Payload → Result Run
unfolding reviewed charge_step charge_run
check_reject_change w a message_id spend s = do
  step ← reviewed w a message_id "feedback" s
  let r = update (charge_run spend s.body) a.step (record (charge_step spend step) {
    status = rejected_by_checker;
    last_feedback_message = message_id;
  })
  ok (record r { run_status = Run.rejected_by_checker })

unfoldable pub check_reject : World → Args → String → ℤ → Verb
check_reject w a message_id spend = record {
  request = request_of a "check.rejected";
  change = check_reject_change w a message_id spend;
  entry = no_entry;
}
