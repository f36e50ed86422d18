-- ===== src/Verbs/Invariant/Life.antt =====
-- The verbs of runtime/run_verbs.py keep the invariant.
use my_org.Common.{
  ℕ, String, ◌≡◌, refl, true, false, not, ◌&&◌, Option, some, arith, ◌==◌, if_ind, leb,
}
use mathlib.Core.Path.{subst}
use my_org.Result.{
  Result, ok, >>=-eq-ok, >>-eq-ok, found-eq-ok, ok-injective, refuse->>, require->>, found,
  step_not_ready, not_step_owner, not_awaiting_approval, not_in_progress, approval_ref_required,
  held_by_another, not_the_holder, unknown_step, nobody_holds,
}
use my_org.Audit.{Risk, green, yellow, red, other}
use my_org.Steps.Laws.{AllSteps-get}
use my_org.Steps.{
  in_progress, awaiting_approval, Step, get, is_ready, is_in_progress, is_awaiting_approval,
}
use my_org.Run.{Run, Payload, is_active}
use my_org.Run.World.{World}
use my_org.Run.Claims.{claim_is_live, release_claim, check_claim}
use my_org.Verbs.{Args, update, or_default, charge_step, charge_run}
use my_org.Verbs.Life.{
  dispatched, requested, request_change, buy_more, approve_change, reject_change,
}
use my_org.Verbs.Claim.{take_change, renew_change, expire_change, Held, hold_change}
use my_org.Verbs.Invariant.{StepInv, Inv, is_red, is_yellow}
use my_org.Verbs.Invariant.Moves.{is_open, moved, paid, on_step}

module _ (w : World) (s : Payload) (step : Step) (key holder : String)
    (at_key : get key s.steps ≡ some step) (ready : is_ready step.status ≡ true)
    (act : is_active s.run_status ≡ true) (inv : Inv w.strip s.body) where
  requested_red-Inv : Inv w.strip (requested w s step key holder red)
  unfolding requested
  requested_red-Inv =
      moved w.strip s.body _ _ key step _ at_key (ground arith) refl refl refl (λ v. ground arith)
        inv

  requested_yellow-Inv : step.risk ≡ yellow → Inv w.strip (requested w s step key holder yellow)
  unfolding requested
  requested_yellow-Inv e =
      moved w.strip s.body s.run_status s.spend_ceiling_usd key step _ at_key (ground arith)
        (ground arith) refl refl (λ v. ground arith) inv

  dispatched-Inv :
      is_red step.risk ≡ false
      → is_yellow step.risk ≡ false
      → Inv w.strip (dispatched w s step key holder)
  unfolding dispatched
  dispatched-Inv nr ny =
      if_ind (Inv w.strip) (leb step.max_attempts step.attempts) _ _
        (λ spent_all.
          moved w.strip s.body _ _ key step _ at_key (ground arith) refl refl refl
            (λ v. ground arith) inv)
        (λ more.
          moved w.strip s.body s.run_status s.spend_ceiling_usd key step _ at_key (ground arith)
            (ground arith) refl refl (λ v. ground arith) inv)

  requested-Inv :
      (risk : Risk) → step.risk ≡ risk → Inv w.strip (requested w s step key holder risk)
  unfolding requested
  requested-Inv red e = requested_red-Inv
  requested-Inv yellow e = requested_yellow-Inv e
  requested-Inv green e = dispatched-Inv (ground arith) (ground arith)
  requested-Inv (other word) e = dispatched-Inv (ground arith) (ground arith)

-- A change keeps the invariant of an active run.
abbrev pub KeepsInv : World → (Payload → Result Run) → Type 0
KeepsInv w change =
    (s : Payload) (r : Run)
    → is_active s.run_status ≡ true
    → change s ≡ ok r
    → Inv w.strip s.body
    → Inv w.strip r

pub request_change-KeepsInv :
    (w : World) (a : Args) (holder : Option String) → KeepsInv w (request_change w a holder)
unfolding request_change
request_change-KeepsInv w a holder s r act e inv =
    on_step is_ready step_not_ready a.step s.steps _ e λ step at_key ready e1.
      subst (Inv w.strip)
        (ok-injective _ r (require->> (a.actor == step.owner) not_step_owner _ e1).1)
        (requested-Inv w s step a.step (or_default holder a.actor) at_key ready act inv step.risk
          refl)

module _ (w : World) (a : Args) (approval_ref : String) (r : Run) (step : Step)
    (at_key : get a.step r.steps ≡ some step) (waits : is_awaiting_approval step.status ≡ true)
    (inv : Inv w.strip r) where
  buy_more-Inv : is_active r.run_status ≡ true → Inv w.strip (buy_more w a approval_ref r step)
  unfolding buy_more
  buy_more-Inv act =
      moved w.strip r r.run_status _ a.step step _ at_key (ground arith) (ground arith) refl refl
        (λ v. ground arith) inv

  resumed-Inv :
      is_active r.run_status ≡ true
      → (w.strip approval_ref == "") ≡ false
      → Inv w.strip (
          update r a.step (
            release_claim (record step {
              status = in_progress;
              approver = a.actor;
              approval_ref = approval_ref;
            })))
  unfolding release_claim
  resumed-Inv act named =
      moved w.strip r r.run_status r.spend_ceiling_usd a.step step _ at_key (ground arith)
        (ground arith) refl refl (λ v. ground arith) inv

pub approve_change-KeepsInv :
    (w : World) (a : Args) (approval_ref : String) → KeepsInv w (approve_change w a approval_ref)
unfolding approve_change
approve_change-KeepsInv w a ref s r act e inv =
    on_step is_awaiting_approval not_awaiting_approval a.step s.steps _ e λ step at_key waits e1.
      let (named, e2) = refuse->> (w.strip ref == "") approval_ref_required _ e1 in
      subst (Inv w.strip) (ok-injective _ r e2) (
        if_ind (Inv w.strip) (step.held_kind == "budget") _ _
          (λ _. buy_more-Inv w a ref s.body step at_key waits inv act)
          (λ _. resumed-Inv w a ref s.body step at_key waits inv act named))

pub reject_change-KeepsInv :
    (w : World) (a : Args) (approval_ref : String) → KeepsInv w (reject_change a approval_ref)
unfolding reject_change
reject_change-KeepsInv w a ref s r act e inv =
    on_step is_awaiting_approval not_awaiting_approval a.step s.steps _ e λ step at_key waits e1.
      subst (Inv w.strip) (ok-injective _ r e1) (
        moved w.strip s.body _ s.spend_ceiling_usd a.step step _ at_key (ground arith) refl refl
          refl (λ v. ground arith) inv)

-- A claim changed on a step in progress.
claimed-Inv :
    (w : World) (r : Run) (k : String) (step : Step) (holder token : String) (until : Option ℕ)
    → get k r.steps ≡ some step
    → is_in_progress step.status ≡ true
    → is_active r.run_status ≡ true
    → Inv w.strip r
    → Inv w.strip (
        update r k (record step { holder = holder; claim_token = token; claim_expires_at = until }))
claimed-Inv w r k step holder token until at_key going act inv =
    moved w.strip r r.run_status r.spend_ceiling_usd k step _ at_key (ground arith) (ground arith)
      refl refl (λ v. ground arith) inv

pub take_change-KeepsInv :
    (w : World) (a : Args) (holder : String) → KeepsInv w (take_change w a holder)
unfolding take_change
take_change-KeepsInv w a holder s r act e inv =
    on_step is_in_progress not_in_progress a.step s.steps _ e λ step at_key going e1.
      let e2 = (require->> (a.actor == step.owner) not_step_owner _ e1).1 in
      subst (Inv w.strip)
        (ok-injective _ r
          (refuse->> (claim_is_live w step && not (step.holder == holder)) held_by_another _ e2).1)
        (claimed-Inv w s.body a.step step _ _ _ at_key going act inv)

pub renew_change-KeepsInv :
    (w : World) (a : Args) (token : String) → KeepsInv w (renew_change w a token)
unfolding renew_change
renew_change-KeepsInv w a token s r act e inv =
    on_step is_in_progress not_in_progress a.step s.steps _ e λ step at_key going e1.
      let e2 =
        (require->> (claim_is_live w step && step.holder == a.actor) not_the_holder _ e1).1 in
      subst (Inv w.strip) (ok-injective _ r (>>-eq-ok (check_claim step (some token)) _ e2))
        (claimed-Inv w s.body a.step step _ _ _ at_key going act inv)

held-is_open :
    (strip : String → String) (step : Step)
    → StepInv strip step
    → (step.holder == "") ≡ false
    → is_open step ≡ true
held-is_open strip step v held = ground arith

pub expire_change-KeepsInv : (w : World) (a : Args) → KeepsInv w (expire_change w a)
unfolding expire_change
expire_change-KeepsInv w a s r act e inv =
    let (step, i, e1) = >>=-eq-ok (found (get a.step s.steps) unknown_step) _ e in
    let at_key = found-eq-ok (get a.step s.steps) unknown_step i in
    let (held, e2) = refuse->> (step.holder == "") nobody_holds _ e1 in
    let v = AllSteps-get (StepInv w.strip) a.step step s.steps inv.each at_key in
    subst (Inv w.strip) (ok-injective _ r e2) (
      moved w.strip s.body s.run_status s.spend_ceiling_usd a.step step _ at_key
        (held-is_open w.strip step v held) (ground arith) refl refl (λ v. ground arith) inv)

module _ (w : World) (a : Args) (h : Held) (proof proof_hash : String) (r : Run) (step : Step)
    (at_key : get a.step r.steps ≡ some step) (going : is_in_progress step.status ≡ true)
    (act : is_active r.run_status ≡ true) (inv : Inv w.strip r) where
  parked : Step
  parked = release_claim (
      charge_step h.spend (record step {
        status = awaiting_approval;
        held_reason = h.reason;
        held_evidence = proof;
        held_evidence_sha256 = proof_hash;
        held_kind = or_default h.kind "ungraded";
      }))

  parked-StepInv : StepInv w.strip step → StepInv w.strip parked
  unfolding parked release_claim charge_step
  parked-StepInv v = ground arith

  parked-Inv : Inv w.strip (update (charge_run h.spend r) a.step parked)
  unfolding parked release_claim charge_step
  parked-Inv =
      paid w.strip r h.spend a.step step parked at_key (ground arith) (ground arith) refl refl
        parked-StepInv inv

pub hold_change-KeepsInv :
    (w : World) (a : Args) (h : Held) (proof : String × String) → KeepsInv w (hold_change a h proof)
unfolding hold_change parked
hold_change-KeepsInv w a h (proof, proof_hash) s r act e inv =
    on_step is_in_progress not_in_progress a.step s.steps _ e λ step at_key going e1.
      let e2 = (require->> (a.actor == step.owner) not_step_owner _ e1).1 in
      subst (Inv w.strip) (ok-injective _ r (>>-eq-ok (check_claim step h.claim_token) _ e2))
        (parked-Inv w a h proof proof_hash s.body step at_key going act inv)
