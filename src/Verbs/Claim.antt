-- ===== src/Verbs/Claim.antt =====
-- runtime/run_verbs.py: the claims of steps and the hold, as verbs for `mutate`.
use my_org.Common.{◌+◌, String, ℤ, not, ◌&&◌, Option, some, if◌then◌else◌, ◌==◌}
use my_org.Result.{
  Result, ok, ◌>>=◌, ◌>>◌, require, refuse, found, key_error, not_step_owner, not_in_progress,
  held_by_another, not_the_holder, unknown_step, nobody_holds,
}
use my_org.Audit.{
  Entry, pending as approval_pending, not_required, success, awaiting_approval as approval_awaited,
}
use my_org.Steps.{awaiting_approval, get, is_in_progress}
use my_org.Run.{Run, Payload}
use my_org.Run.World.{World}
use my_org.Run.Claims.{claim_is_live, mint_claim, release_claim, check_claim}
use my_org.Run.Mutate.{Verb}
use my_org.Verbs.{
  Args, step_in, update, or_default, evidence_path, charge_step, charge_run, gate_entry,
}
use my_org.Verbs.Life.{request_of, no_entry}

unfoldable pub take_change : World → Args → String → Payload → Result Run
unfolding step_in claim_is_live mint_claim
take_change w a holder s = do
  step ← step_in is_in_progress not_in_progress a.step s.steps
  require (a.actor == step.owner) not_step_owner
  refuse (claim_is_live w step && not (step.holder == holder)) held_by_another
  ok (update s.body a.step (mint_claim w s step holder))

unfoldable pub take : World → Args → String → Verb
take w a holder = record {
  request = request_of a "step.taken";
  change = take_change w a holder;
  entry = no_entry;
}

-- The event's actor is the holder.
unfoldable pub renew_change : World → Args → String → Payload → Result Run
unfolding step_in claim_is_live check_claim
renew_change w a claim_token s = do
  step ← step_in is_in_progress not_in_progress a.step s.steps
  require (claim_is_live w step && step.holder == a.actor) not_the_holder
  check_claim step (some claim_token)
  ok (
      update s.body a.step
        (record step { claim_expires_at = some (w.stamped_at + w.claim_seconds) }))

unfoldable pub renew_claim : World → Args → String → Verb
renew_claim w a claim_token = record {
  request = request_of a "claim.renewed";
  change = renew_change w a claim_token;
  entry = no_entry;
}

unfoldable pub expire_change : World → Args → Payload → Result Run
expire_change w a s = do
  step ← found (get a.step s.steps) unknown_step
  refuse (step.holder == "") nobody_holds
  ok (update s.body a.step (record step { claim_expires_at = some w.stamped_at }))

unfoldable pub expire_entry : World → Args → Payload → Result (Option Entry)
expire_entry w a s = do
  step ← found (get a.step s.steps) key_error
  ok (
      some (
        gate_entry w a step not_required success
          "an operator reclaimed a step from a holder that stopped responding"))

-- The actor defaults to "operator" before it comes here.
unfoldable pub expire_claim : World → Args → Verb
expire_claim w a = record {
  request = request_of a "claim.expired";
  change = expire_change w a;
  entry = expire_entry w a;
}

-- What a caller of `hold` says of the step.
pub record Held : Type 0 where
  pub evidence : String
  pub reason : String
  pub kind : Option String
  pub spend : ℤ
  pub claim_token : Option String

unfoldable pub hold_change : Args → Held → String × String → Payload → Result Run
unfolding step_in check_claim charge_step charge_run release_claim
hold_change a h (proof, proof_hash) s = do
  step ← step_in is_in_progress not_in_progress a.step s.steps
  require (a.actor == step.owner) not_step_owner
  check_claim step h.claim_token
  let held = record step {
    status = awaiting_approval;
    held_reason = h.reason;
    held_evidence = proof;
    held_evidence_sha256 = proof_hash;
    held_kind = or_default h.kind "ungraded";
  }
  ok (update (charge_run h.spend s.body) a.step (release_claim (charge_step h.spend held)))

unfoldable pub hold_entry : World → Args → Payload → Result (Option Entry)
hold_entry w a s = do
  step ← found (get a.step s.steps) key_error
  ok (
      some (
        gate_entry w a step approval_pending approval_awaited (
          if step.held_kind == "budget"
          then "the run reached its cost ceiling, so spending more waits for a person"
          else "a quality gate could not run, so the work waits for a person")))

-- The evidence is read before the run is locked.
unfoldable pub hold : World → Args → Held → Result Verb
unfolding evidence_path
hold w a h = do
  proof ← evidence_path w h.evidence
  ok (record {
    request = request_of a "step.held";
    change = hold_change a h proof;
    entry = hold_entry w a;
  })
