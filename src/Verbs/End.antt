-- ===== src/Verbs/End.antt =====
-- runtime/run_outcomes.py: how a step ends, and the two ways in which a person ends or extends a run.
use Prim.Native.String.{◌++◌ as ◌<>◌}
use my_org.Common.{
  ℕ, suc, ◌+◌, ◌-◌, String, ℤ, Bool, true, false, ◌&&◌, Option, none, some, [], ◌∷◌, ◌++◌,
  if◌then◌else◌, ◌==◌, leb, ltb, length, text_length,
}
use my_org.Result.{
  Result, ok, ◌>>=◌, ◌>>◌, require, refuse, not_in_progress, not_step_owner, stale_revision,
  approver_required, bad_cancel_reason,
}
use my_org.Audit.{Entry, granted, blocked, yellow}
use my_org.Steps.{
  ready, awaiting_check, completed, blocked_retry_limit, Step, Steps, is_in_progress, is_completed,
}
use my_org.Run.{Run, Payload, Row, RunStatus, active, is_active}
use my_org.Run as Run
use my_org.Run.World.{World}
use my_org.Run.Claims.{release_claim, check_claim}
use my_org.Run.Mutate.{Verb}
use my_org.Verbs.{
  Args, step_in, update, evidence_path, release_dependents, charge_step, charge_run, attribution,
}
use my_org.Verbs.Life.{request_of, no_entry}

-- What a caller of `complete`, `fail` or `release_step` says of the dispatch.
pub record Report : Type 0 where
  pub spend : ℤ
  pub claim_token : Option String

abbrev pub has_checker : Step → Bool
has_checker step = elim step.checker [ none ↦ false | some c ↦ true ]

unfoldable pub submitted : World → Args → String × String → Step → Step
submitted w a (proof, proof_hash) step = record step {
  submissions =
      step.submissions
      ++ record {
        submission_revision = length step.submissions + 1;
        evidence = proof;
        evidence_sha256 = proof_hash;
        maker = a.actor;
        submitted_at = w.stamped_at;
      }
        ∷ [];
  status = if has_checker step then awaiting_check else completed;
  evidence = proof;
  evidence_sha256 = proof_hash;
}

unfoldable pub complete_change :
    World → Args → String → Report → String × String → Payload → Result Run
unfolding step_in submitted check_claim charge_step charge_run release_claim release_dependents
complete_change w a revision report proof s = do
  require (revision == s.workflow_revision) stale_revision
  step ← step_in is_in_progress not_in_progress a.step s.steps
  require (a.actor == step.owner) not_step_owner
  check_claim step report.claim_token
  let step' = charge_step report.spend (release_claim (submitted w a proof step))
  let r = update (charge_run report.spend s.body) a.step step'
  if has_checker step then ok r else release_dependents r

-- The evidence is read before the run is locked.
unfoldable pub complete : World → Args → String → String → Report → Result Verb
unfolding evidence_path
complete w a evidence revision report = do
  proof ← evidence_path w evidence
  ok (record {
    request = request_of a "step.completed";
    change = complete_change w a revision report proof;
    entry = no_entry;
  })

unfoldable pub failed : Report → String → Step → Step
unfolding charge_step release_claim
failed report reason step = record (charge_step report.spend (release_claim step)) {
  last_failure = reason;
  status = if ltb step.attempts step.max_attempts then ready else blocked_retry_limit;
}

unfoldable pub fail_change : Args → String → Report → Payload → Result Run
unfolding step_in check_claim charge_run failed
fail_change a reason report s = do
  step ← step_in is_in_progress not_in_progress a.step s.steps
  require (a.actor == step.owner) not_step_owner
  check_claim step report.claim_token
  let r = update (charge_run report.spend s.body) a.step (failed report reason step)
  ok (
      if ltb step.attempts step.max_attempts
      then r
      else record r { run_status = Run.blocked_retry_limit })

unfoldable pub fail : Args → String → Report → Verb
fail a reason report = record {
  request = request_of a "step.failed";
  change = fail_change a reason report;
  entry = no_entry;
}

unfoldable pub released : Report → String → Step → Step
unfolding charge_step release_claim
released report reason step = record (charge_step report.spend (release_claim step)) {
  last_failure = reason;
  attempts = step.attempts - 1;
  releases = step.releases + 1;
  status = ready;
}

unfoldable pub release_change : Args → String → Report → Payload → Result Run
unfolding step_in check_claim charge_run released
release_change a reason report s = do
  step ← step_in is_in_progress not_in_progress a.step s.steps
  require (a.actor == step.owner) not_step_owner
  check_claim step report.claim_token
  ok (update (charge_run report.spend s.body) a.step (released report reason step))

unfoldable pub release_step : Args → String → Report → Verb
release_step a reason report = record {
  request = request_of a "step.released";
  change = release_change a reason report;
  entry = no_entry;
}

-- The loop of `cancel_run` over the steps: nobody may finish one in progress now.
unfoldable pub release_held : Steps → Steps
unfolding release_claim
release_held [] = []
release_held ((k, s) ∷ m) =
    (k, if is_in_progress s.status then release_claim s else s) ∷ release_held m

unfoldable pub cancel_change : Args → String → Payload → Result Run
unfolding release_held
cancel_change a reason s = ok (record s.body {
  steps = release_held s.steps;
  run_status = Run.cancelled;
  cancelled_by = a.actor;
  cancel_reason = reason;
})

unfoldable pub done_count : Steps → ℕ
done_count [] = 0
done_count ((k, s) ∷ m) = if is_completed s.status then suc (done_count m) else done_count m

unfoldable pub cancel_entry :
    World → Args → Option String → String → Payload → Result (Option Entry)
unfolding done_count
cancel_entry w a actor_id reason s =
    let who = w.replace_first (attribution w s.body a.actor actor_id) "approved by" "stopped by" in
    let progress = w.str (done_count s.steps) <> ("/" <> w.str (length s.steps)) in
    ok (
      some (record {
        actor = a.actor;
        action = "run.cancelled";
        category = yellow;
        target = a.run_id;
        approval = granted;
        evidence = w.run_file a.run_id;
        outcome = blocked;
        note = who <> (" after " <> (progress <> (" steps: " <> reason)));
      }))

-- `args.step` is the run's id here: it is the target of the event.
unfoldable pub cancel_run : World → Args → Option String → String → Result Verb
cancel_run w a actor_id reason_text = do
  refuse (w.strip a.actor == "") approver_required
  let reason = w.strip reason_text
  require (leb 1 (text_length reason) && leb (text_length reason) 200) bad_cancel_reason
  ok (record {
    request = request_of a "run.cancelled";
    change = cancel_change a reason;
    entry = cancel_entry w a actor_id reason;
  })
