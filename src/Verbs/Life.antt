-- ===== src/Verbs/Life.antt =====
-- runtime/run_verbs.py: a step asked for, approved or rejected, as verbs for `mutate`.
use Prim.Native.String.{◌++◌ as ◌<>◌}
use my_org.Common.{ℕ, ◌+◌, String, Option, none, some, if◌then◌else◌, ◌==◌, leb, eqb}
use my_org.Result.{
  Result, ok, ◌>>=◌, ◌>>◌, require, refuse, found, key_error, step_not_ready, not_step_owner,
  not_awaiting_approval, approval_ref_required,
}
use my_org.Audit.{
  Risk, green, yellow, red, Entry, pending as approval_pending, granted, denied, not_required,
  success, awaiting_approval as approval_awaited, blocked, refused,
}
use my_org.Steps.{
  ready, in_progress, awaiting_approval, rejected, blocked_human, blocked_retry_limit, Step, get,
  is_ready, is_awaiting_approval,
}
use my_org.Run.{Run, Payload}
use my_org.Run as Run
use my_org.Run.World.{World, CeilingEnv, unset, not_a_number, amount}
use my_org.Run.Claims.{mint_claim, release_claim}
use my_org.Run.Mutate.{Request, Verb}
use my_org.Verbs.{Args, step_in, update, or_default, attribution, gate_entry}

abbrev pub request_of : Args → String → Request
request_of a event = record {
  run_id = a.run_id;
  request_id = a.request_id;
  event = event;
  actor = a.actor;
  target = a.step;
}

-- The green path: a step at its cap ends the run; any other is claimed and one attempt is spent.
unfoldable pub dispatched : World → Payload → Step → String → String → Run
unfolding mint_claim
dispatched w s step key holder =
    if leb step.max_attempts step.attempts
    then record s.body {
      steps = (update s.body key (record step { status = blocked_retry_limit })).steps;
      run_status = Run.blocked_retry_limit;
    }
    else update s.body key
        (mint_claim w s (record step { status = in_progress; attempts = step.attempts + 1 }) holder)

unfoldable pub requested : World → Payload → Step → String → String → Risk → Run
unfolding dispatched
requested w s step key holder red = record s.body {
  steps = (update s.body key (record step { status = blocked_human })).steps;
  run_status = Run.blocked_human;
}
requested w s step key holder yellow =
    update s.body key (record step { status = awaiting_approval })
requested w s step key holder _ = dispatched w s step key holder

unfoldable pub request_change : World → Args → Option String → Payload → Result Run
unfolding step_in requested
request_change w a holder s = do
  step ← step_in is_ready step_not_ready a.step s.steps
  require (a.actor == step.owner) not_step_owner
  ok (requested w s step a.step (or_default holder a.actor) step.risk)

unfoldable pub request_note : World → Args → Step → Risk → Option Entry
request_note w a step green = none
request_note w a step yellow =
    some (gate_entry w a step approval_pending approval_awaited "parked for a human decision")
request_note w a step _ = some (
    gate_entry w a step not_required refused
      "handed back to a human; no code path can approve this")

unfoldable pub request_entry : World → Args → Payload → Result (Option Entry)
unfolding request_note
request_entry w a s = do
  step ← found (get a.step s.steps) key_error
  ok (request_note w a step step.risk)

unfoldable pub request_step : World → Args → Option String → Verb
request_step w a holder = record {
  request = request_of a "step.requested";
  change = request_change w a holder;
  entry = request_entry w a;
}

-- `float(os.environ.get("MYORG_RUN_CEILING_USD", "5") or 0.0)`, and 5.0 where that is no number.
unfoldable pub env_ceiling : CeilingEnv → ℕ
env_ceiling unset = 5_000_000
env_ceiling not_a_number = 5_000_000
env_ceiling (amount n) = n

-- Approving a budget stop buys one more ceiling's worth and sends the step back to be done.
unfoldable pub buy_more : World → Args → String → Run → Step → Run
unfolding env_ceiling release_claim
buy_more w a approval_ref r step =
    let ceiling =
      if eqb r.spend_ceiling_usd 0 then env_ceiling w.ceiling_env else r.spend_ceiling_usd in
    let step' = record step {
      status = ready;
      approver = a.actor;
      approval_ref = approval_ref;
      held_evidence = "";
      held_evidence_sha256 = "";
      held_kind = "";
    } in
    record r {
      steps = (update r a.step (release_claim step')).steps;
      spend_ceiling_usd = r.spend_usd + ceiling;
    }

unfoldable pub approve_change : World → Args → String → Payload → Result Run
unfolding step_in buy_more release_claim
approve_change w a approval_ref s = do
  step ← step_in is_awaiting_approval not_awaiting_approval a.step s.steps
  refuse (w.strip approval_ref == "") approval_ref_required
  ok (
      if step.held_kind == "budget"
      then buy_more w a approval_ref s.body step
      else update s.body a.step (
          release_claim (record step {
            status = in_progress;
            approver = a.actor;
            approval_ref = approval_ref;
          })))

unfoldable pub approve_entry :
    World → Args → Option String → String → Payload → Result (Option Entry)
approve_entry w a actor_id approval_ref s = do
  step ← found (get a.step s.steps) key_error
  ok (
      some (
        gate_entry w a step granted success
          (attribution w s.body a.actor actor_id <> (" against reference " <> approval_ref))))

unfoldable pub approve : World → Args → Option String → String → Verb
approve w a actor_id approval_ref = record {
  request = request_of a "step.approved";
  change = approve_change w a approval_ref;
  entry = approve_entry w a actor_id approval_ref;
}

unfoldable pub reject_change : Args → String → Payload → Result Run
unfolding step_in
reject_change a approval_ref s = do
  step ← step_in is_awaiting_approval not_awaiting_approval a.step s.steps
  ok (record s.body {
    steps =
        (update s.body a.step (record step {
          status = rejected;
          approver = a.actor;
          approval_ref = approval_ref;
        })).steps;
    run_status = Run.rejected;
  })

unfoldable pub reject_entry :
    World → Args → Option String → String → Payload → Result (Option Entry)
reject_entry w a actor_id approval_ref s = do
  step ← found (get a.step s.steps) key_error
  ok (
      some (
        gate_entry w a step denied blocked (
          w.replace_first (attribution w s.body a.actor actor_id) "approved" "declined"
          <> (" against reference " <> approval_ref))))

unfoldable pub reject : World → Args → Option String → String → Verb
reject w a actor_id approval_ref = record {
  request = request_of a "step.rejected";
  change = reject_change a approval_ref;
  entry = reject_entry w a actor_id approval_ref;
}

abbrev pub no_entry : Payload → Result (Option Entry)
no_entry s = ok none
