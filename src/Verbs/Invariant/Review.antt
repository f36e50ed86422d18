-- ===== src/Verbs/Invariant/Review.antt =====
-- The verbs of runtime/run_review.py keep the invariant.
use mathlib.Core.Path.{subst}
use my_org.Common.{String, ℤ, ◌≡◌, refl, true, some, ◌++◌, arith, ◌==◌, if_ind, leb, some_of}
use my_org.Result.{
  Result, ok, ◌>>=◌, >>=-eq-ok, >>-eq-ok, ok-injective, require->>, refuse->>, found,
  not_awaiting_check, not_step_checker, message_id_exists, unknown_step, not_adjacent,
  same_participants,
}
use my_org.Steps.{completed, rejected_by_checker, Step, get, is_awaiting_check}
use my_org.Run.{Run, Payload, is_active}
use my_org.Run as Run
use my_org.Run.World.{World}
use my_org.Verbs.{Args, update, charge_step, charge_run, verify_submission}
use my_org.Verbs.Review.{
  Draft, send_change, check_reply, checker_message, is_checker, reviewed, check_approve_change,
  returned, check_return_change, check_reject_change, upstream, downstream, may_talk, parties,
  has_id,
}
use my_org.Verbs.Invariant.{StepInv, Inv}
use my_org.Verbs.Invariant.Moves.{paid, ended, on_step}
use my_org.Verbs.Invariant.Release.{release_dependents-Released, Released-Inv}
use my_org.Verbs.Invariant.Life.{KeepsInv}
use my_org.Verbs.Invariant.End.{charge_run-going}

-- What the shared guards have checked.
pub reviewed-eq-ok :
    (w : World) (a : Args) (message_id kind : String) (s : Payload) (step : Step)
    → reviewed w a message_id kind s ≡ ok step
    → (get a.step s.steps ≡ some step)
      × (is_awaiting_check step.status ≡ true)
      × (is_checker step a.actor ≡ true)
unfolding reviewed
reviewed-eq-ok w a message_id kind s step e =
    on_step is_awaiting_check not_awaiting_check a.step s.steps _ e λ t at_key waits e1.
      let (by, e2) = require->> (is_checker t a.actor) not_step_checker _ e1 in
      let e3 = >>-eq-ok (verify_submission w t) _ e2 in
      let e4 = >>-eq-ok (checker_message w s.body a.step message_id a.actor kind) _ e3 in
      let same = ok-injective t step e4 in
      subst
        (λ (u : Step).
          (get a.step s.steps ≡ some u)
          × (is_awaiting_check u.status ≡ true)
          × (is_checker u a.actor ≡ true))
        same (at_key, waits, by)

-- A verdict goes on with the step that the guards accepted.
after_review {ℓ} :
    {P : Type ℓ} (w : World) (a : Args) (message_id kind : String) (s : Payload)
    (f : Step → Result Run) {r : Run}
    → (reviewed w a message_id kind s >>= f) ≡ ok r
    → ((step : Step)
        → get a.step s.steps ≡ some step
        → is_awaiting_check step.status ≡ true
        → is_checker step a.actor ≡ true
        → f step ≡ ok r
        → P)
    → P
after_review w a message_id kind s f h go =
    let (step, i, e) = >>=-eq-ok (reviewed w a message_id kind s) f h in
    let (g, t, by) = reviewed-eq-ok w a message_id kind s step i in go step g t by e

module _ (w : World) (a : Args) (message_id : String) (spend : ℤ) (r : Run) (step : Step)
    (at_key : get a.step r.steps ≡ some step) (waits : is_awaiting_check step.status ≡ true)
    (by : is_checker step a.actor ≡ true) (act : is_active r.run_status ≡ true)
    (inv : Inv w.strip r) where
  approved_by : Step
  approved_by =
      charge_step spend
        (record step { status = completed; checked_by = a.actor; check_message = message_id })

  approved_by-StepInv : StepInv w.strip step → StepInv w.strip approved_by
  unfolding approved_by charge_step
  approved_by-StepInv v = ground (arith)

  approved_by-Inv : Inv w.strip (update (charge_run spend r) a.step approved_by)
  unfolding approved_by charge_step
  approved_by-Inv =
      paid w.strip r spend a.step step approved_by at_key (ground arith) (ground arith) refl refl
        approved_by-StepInv inv

  returned-Inv : Inv w.strip (returned a message_id (charge_run spend r) (charge_step spend step))
  unfolding returned charge_step
  returned-Inv =
      if_ind (Inv w.strip) (leb step.max_review_cycles step.review_cycles) _ _
        (λ over. ended w.strip _ Run.blocked_review_limit refl (
          paid w.strip r spend a.step step _ at_key (ground arith) (ground arith) refl refl
            (λ v. ground arith) inv))
        (λ more.
          paid w.strip r spend a.step step _ at_key (ground arith) (ground arith) refl refl
            (λ v. ground arith) inv)

  refused-Inv :
      Inv w.strip
        (record (update (charge_run spend r) a.step (record (charge_step spend step) {
          status = rejected_by_checker;
          last_feedback_message = message_id;
        })) { run_status = Run.rejected_by_checker })
  unfolding charge_step
  refused-Inv = ended w.strip _ Run.rejected_by_checker refl (
      paid w.strip r spend a.step step _ at_key (ground arith) (ground arith) refl refl
        (λ v. ground arith) inv)

pub check_approve_change-KeepsInv :
    (w : World) (a : Args) (message_id : String) (spend : ℤ)
    → KeepsInv w (check_approve_change w a message_id spend)
unfolding check_approve_change approved_by
check_approve_change-KeepsInv w a message_id spend s r act e inv =
    after_review w a message_id "decision" s _ e λ step at_key waits by e1.
      Released-Inv w.strip _ r
        (charge_run-going spend s.body a.step
          (approved_by w a message_id spend s.body step at_key waits by act inv) act)
        (release_dependents-Released _ r e1)
        (approved_by-Inv w a message_id spend s.body step at_key waits by act inv)

pub check_return_change-KeepsInv :
    (w : World) (a : Args) (message_id : String) (spend : ℤ)
    → KeepsInv w (check_return_change w a message_id spend)
unfolding check_return_change
check_return_change-KeepsInv w a message_id spend s r act e inv =
    after_review w a message_id "feedback" s _ e λ step at_key waits by e1.
      subst (Inv w.strip) (ok-injective _ r e1)
        (returned-Inv w a message_id spend s.body step at_key waits by act inv)

pub check_reject_change-KeepsInv :
    (w : World) (a : Args) (message_id : String) (spend : ℤ)
    → KeepsInv w (check_reject_change w a message_id spend)
unfolding check_reject_change
check_reject_change-KeepsInv w a message_id spend s r act e inv =
    after_review w a message_id "feedback" s _ e λ step at_key waits by e1.
      subst (Inv w.strip) (ok-injective _ r e1)
        (refused-Inv w a message_id spend s.body step at_key waits by act inv)

-- A message changes no key of the run but `messages`.
pub send_change-KeepsInv :
    (w : World) (a : Args) (m : Draft) (proof : String × String)
    → KeepsInv w (send_change w a m proof)
unfolding send_change
send_change-KeepsInv w a m (proof, proof_hash) s r act e inv =
    let (_, e1) = refuse->> (some_of (has_id m.message_id) s.messages) message_id_exists _ e in
    let (step, _, e2) = >>=-eq-ok (found (get a.step s.steps) unknown_step) _ e1 in
    let (above, _, e3) = >>=-eq-ok (upstream s.steps step.depends_on) _ e2 in
    let (_, e4) =
      require->> (may_talk (parties step) (above ++ downstream a.step s.steps) a.actor m.to_agent)
        not_adjacent _ e3 in
    let (_, e5) = refuse->> (a.actor == m.to_agent) same_participants _ e4 in
    subst (Inv w.strip) (ok-injective _ r (>>-eq-ok (check_reply a m s.messages) _ e5)) (record {
      each = inv.each;
      started = inv.started;
      finished = inv.finished;
      billed = inv.billed;
    })
