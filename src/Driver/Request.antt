-- ===== src/Driver/Request.antt =====
-- What a department is asked: `dispatch` of runtime/executor_steps.py, with `upstream_handoffs`,
-- `last_feedback` and `acceptance_criteria` of runtime/executor_grading.py, and `clip` and
-- `structural_failure` of runtime/prompts.py. Of a request the brief, the memory, the room and the grant
-- are left out.
use Prim.Native.String.{◌++◌ as ◌<>◌}
use my_org.Common.{
  ℕ, String, Bool, not, ◌&&◌, Option, none, some, List, [], ◌∷◌, if◌then◌else◌, ◌==◌, leb, ltb,
  find_first, text_length,
}
use my_org.Result.{Result, ok, err, ◌>>=◌, ◌>>◌, require, found, evidence_missing, evidence_changed}
use my_org.Steps.{Step, get, is_completed}
use my_org.Run.{Row, Message}
use my_org.Run.World.{World}
use my_org.Verbs.{evidence_path}
use my_org.Planner.{Reply, raised}
use my_org.Triggers.Queue.{cut}
use my_org.Driver.Sends.{working, Driver, Handoff}

-- MAX_HANDOFF_CHARS.
abbrev max_handoff_chars : ℕ
max_handoff_chars = 12000

unfoldable pub clip : World → ℕ → String → String
clip w limit text =
    if leb (text_length text) limit
    then text
    else cut limit text
      <> ("\n[... TRUNCATED at "
          <> (w.str limit
              <> " characters -- this artifact is longer than what you were shown ...]"))

-- The text of an artifact whose hash is the one that was recorded.
unfoldable pub recorded_text : World → String → String → Result String
unfolding evidence_path clip
recorded_text w evidence hash = do
  (relative, current_hash) ← evidence_path w evidence
  require (current_hash == hash) evidence_changed
  text ← found (w.read_file relative) evidence_missing
  ok (clip w max_handoff_chars text)

abbrev is_handed_on : Step → Bool
is_handed_on s = is_completed s.status && not (s.evidence == "")

-- The evidence of one dependency before the rest; what is not completed hands nothing on.
unfoldable pub handed_on :
    World → String → Option Step → Result (List Handoff) → Result (List Handoff)
unfolding recorded_text
handed_on w key none rest = rest
handed_on w key (some s) rest =
    if is_handed_on s
    then (do
      text ← recorded_text w s.evidence s.evidence_sha256
      handoffs ← rest
      ok (record { step_id = key; owner = s.owner; text = text } ∷ handoffs))
    else rest

unfoldable pub upstream_handoffs : World → Row → List String → Result (List Handoff)
unfolding handed_on
upstream_handoffs w state [] = ok []
upstream_handoffs w state (d ∷ ds) =
    handed_on w d (get d state.steps) (upstream_handoffs w state ds)

abbrev text_or_none : Result String → String
text_or_none (err x) = ""
text_or_none (ok text) = text

unfoldable pub feedback_of : World → Option Message → String
unfolding recorded_text
feedback_of w none = ""
feedback_of w (some m) = text_or_none (recorded_text w m.payload m.payload_sha256)

-- What the checker said, or the reason of a plain failure.
unfoldable pub last_feedback : World → Row → Step → String
unfolding feedback_of
last_feedback w state step =
    if step.last_feedback_message == ""
    then step.last_failure
    else feedback_of w
        (find_first (λ (m : Message). m.id == step.last_feedback_message) state.messages)

abbrev criteria_in : String → List (String × List String) → List String
criteria_in step_id [] = []
criteria_in step_id ((key, criteria) ∷ steps) =
    if key == step_id then criteria else criteria_in step_id steps

-- No snapshot, no criteria.
unfoldable pub acceptance_criteria : Driver → String → List String
acceptance_criteria h step_id = elim h.snapshot [
  | none ↦ []
  | some steps ↦ criteria_in step_id steps
]

-- MIN_DELIVERABLE_CHARS.
abbrev min_deliverable_chars : ℕ
min_deliverable_chars = 200

unfoldable pub structural_failure : Driver → World → String → Option String
structural_failure h w text =
    if ltb (text_length (w.strip text)) min_deliverable_chars
    then some (
        "output is only "
        <> (w.str (text_length (w.strip text)) <> " characters -- that is not a deliverable"))
    else (if h.asks (cut min_deliverable_chars (w.strip text))
        then some "output asks for clarification or refuses instead of delivering the work"
        else none)

unfoldable pub asked : Driver → String → String → Step → Row → Result (List Handoff) → Reply
unfolding last_feedback
asked h run_id step_id step state (err x) = raised (h.message x)
asked h run_id step_id step state (ok handoffs) = h.backend (record {
  run_id = run_id;
  step_id = step_id;
  agent = step.owner;
  action = step.action;
  goal = state.goal;
  handoffs = handoffs;
  feedback = last_feedback (h.at working) state step;
})

unfoldable pub dispatch : Driver → String → String → Step → Row → Reply
unfolding asked upstream_handoffs
dispatch h run_id step_id step state =
    asked h run_id step_id step state (upstream_handoffs (h.at working) state step.depends_on)
