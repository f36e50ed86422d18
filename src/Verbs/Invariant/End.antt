-- ===== src/Verbs/Invariant/End.antt =====
-- The verbs of runtime/run_outcomes.py keep the invariant.
use mathlib.Core.Path.{subst}
use my_org.Common.{
  String, ℤ, ◌≡◌, refl, inl, inr, Bool, true, false, some, List, [], ◌∷◌, arith, ◌==◌,
  if◌then◌else◌, if_ind, ltb, Bool-cases,
}
use my_org.Result.{
  ok, >>-eq-ok, ok-injective, require->>, not_in_progress, not_step_owner, stale_revision,
}
use my_org.Steps.{Step, Steps, get, is_in_progress, is_completed}
use my_org.Steps.Laws.{AllSteps, total}
use my_org.Run.{Run, Payload, is_active}
use my_org.Run as Run
use my_org.Run.World.{World}
use my_org.Run.Claims.{release_claim, check_claim}
use my_org.Verbs.{Args, update, charge_step, charge_run, deps_completed, release_dependents}
use my_org.Verbs.End.{
  Report, has_checker, submitted, complete_change, failed, fail_change, released, release_change,
  release_held, cancel_change,
}
use my_org.Verbs.Invariant.{StepInv, Started, Inv, is_run_completed, spent}
use my_org.Verbs.Invariant.Moves.{paid, ended, on_step}
use my_org.Verbs.Invariant.Release.{
  release_dependents-Released, Released-Inv, deps_completed-cons, cons-deps_completed,
}
use my_org.Verbs.Invariant.Life.{KeepsInv}

module _ (w : World) (a : Args) (report : Report) (r : Run) (step : Step)
    (at_key : get a.step r.steps ≡ some step) (going : is_in_progress step.status ≡ true)
    (act : is_active r.run_status ≡ true) (inv : Inv w.strip r) where
  delivered : String × String → Step
  delivered proof = charge_step report.spend (release_claim (submitted w a proof step))

  delivered-StepInv :
      (proof : String × String) → StepInv w.strip step → StepInv w.strip (delivered proof)
  unfolding delivered submitted release_claim charge_step
  delivered-StepInv (proof, proof_hash) v = ground arith

  delivered-Inv :
      (proof : String × String)
      → Inv w.strip (update (charge_run report.spend r) a.step (delivered proof))
  unfolding delivered submitted release_claim charge_step
  delivered-Inv proof =
      paid w.strip r report.spend a.step step (delivered proof) at_key (ground arith) (ground arith)
        refl refl (delivered-StepInv proof) inv

  failed-StepInv :
      (reason : String) → StepInv w.strip step → StepInv w.strip (failed report reason step)
  unfolding failed charge_step release_claim
  failed-StepInv reason v = ground arith

  failed-Inv :
      (reason : String)
      → Inv w.strip (update (charge_run report.spend r) a.step (failed report reason step))
  unfolding failed release_claim charge_step
  failed-Inv reason =
      paid w.strip r report.spend a.step step _ at_key (ground arith) (ground arith) refl refl
        (failed-StepInv reason) inv

  released-StepInv :
      (reason : String) → StepInv w.strip step → StepInv w.strip (released report reason step)
  unfolding released charge_step release_claim
  released-StepInv reason v = ground arith

  released-Inv :
      (reason : String)
      → Inv w.strip (update (charge_run report.spend r) a.step (released report reason step))
  unfolding released release_claim charge_step
  released-Inv reason =
      paid w.strip r report.spend a.step step _ at_key (ground arith) (ground arith) refl refl
        (released-StepInv reason) inv

pub charge_run-going :
    (spend : ℤ) (r : Run) (k : String) (s : Step)
    → is_active r.run_status ≡ true
    → is_run_completed (update (charge_run spend r) k s).run_status ≡ false
unfolding charge_run
charge_run-going spend r k s act = ground arith

complete_end-Inv :
    (strip : String → String) (r' r : Run) (b : Bool)
    → is_run_completed r'.run_status ≡ false
    → Inv strip r'
    → (if b then ok r' else release_dependents r') ≡ ok r
    → Inv strip r
complete_end-Inv strip r' r true on v h = subst (Inv strip) (ok-injective r' r h) v
complete_end-Inv strip r' r false on v h =
    Released-Inv strip r' r on (release_dependents-Released r' r h) v

pub complete_change-KeepsInv :
    (w : World) (a : Args) (revision : String) (report : Report) (proof : String × String)
    → KeepsInv w (complete_change w a revision report proof)
unfolding complete_change delivered
complete_change-KeepsInv w a revision report proof s r act e inv =
    on_step is_in_progress not_in_progress a.step s.steps _
      (require->> (revision == s.workflow_revision) stale_revision _ e).1
      λ step at_key going e1.
        let e2 = (require->> (a.actor == step.owner) not_step_owner _ e1).1 in
        complete_end-Inv w.strip _ r (has_checker step)
          (charge_run-going report.spend s.body a.step
            (delivered w a report s.body step at_key going act inv proof) act)
          (delivered-Inv w a report s.body step at_key going act inv proof)
          (>>-eq-ok (check_claim step report.claim_token) _ e2)

pub fail_change-KeepsInv :
    (w : World) (a : Args) (reason : String) (report : Report)
    → KeepsInv w (fail_change a reason report)
unfolding fail_change
fail_change-KeepsInv w a reason report s r act e inv =
    on_step is_in_progress not_in_progress a.step s.steps _ e λ step at_key going e1.
      let e2 = (require->> (a.actor == step.owner) not_step_owner _ e1).1 in
      let v = failed-Inv w a report s.body step at_key going act inv reason in
      subst (Inv w.strip) (ok-injective _ r (>>-eq-ok (check_claim step report.claim_token) _ e2)) (
        if_ind (Inv w.strip) (ltb step.attempts step.max_attempts) _ _ (λ _. v)
          (λ _. ended w.strip _ Run.blocked_retry_limit refl v))

pub release_change-KeepsInv :
    (w : World) (a : Args) (reason : String) (report : Report)
    → KeepsInv w (release_change a reason report)
unfolding release_change
release_change-KeepsInv w a reason report s r act e inv =
    on_step is_in_progress not_in_progress a.step s.steps _ e λ step at_key going e1.
      let e2 = (require->> (a.actor == step.owner) not_step_owner _ e1).1 in
      subst (Inv w.strip) (ok-injective _ r (>>-eq-ok (check_claim step report.claim_token) _ e2))
        (released-Inv w a report s.body step at_key going act inv reason)

release_held-StepInv :
    (strip : String → String) (m : Steps)
    → AllSteps (StepInv strip) m
    → AllSteps (StepInv strip) (release_held m)
unfolding release_held
release_held-StepInv strip [] h = tt
release_held-StepInv strip ((k, s) ∷ m) h = (one h.0, release_held-StepInv strip m h.1)
  where
    one : StepInv strip s → StepInv strip (if is_in_progress s.status then release_claim s else s)
    one v = ground arith

get-release_held :
    (m : Steps) (d : String) (s : Step)
    → get d m ≡ some s
    → is_completed s.status ≡ true
    → (t : Step) × (get d (release_held m) ≡ some t) × (is_completed t.status ≡ true)
unfolding get release_held
get-release_held [] d s e c = cc
get-release_held ((k, u) ∷ m) d s e c = elim (Bool-cases (k == d)) [
  | inl here ↦ (if is_in_progress u.status then release_claim u else u, ground arith, ground arith)
  | inr away ↦ let (t, g, c') = get-release_held m d s (ground arith) c in (t, ground arith, c')
]

release_held-deps :
    (m : Steps) (ds : List String)
    → deps_completed m ds ≡ ok true
    → deps_completed (release_held m) ds ≡ ok true
unfolding deps_completed
release_held-deps m [] h = refl
release_held-deps m (d ∷ ds) h =
    let (s, g, c, h') = deps_completed-cons m d ds h in
    let (t, g', c') = get-release_held m d s g c in
    cons-deps_completed (release_held m) d ds t g' c' (release_held-deps m ds h')

release_held-Started :
    (all m : Steps)
    → AllSteps (Started all) m
    → AllSteps (Started (release_held all)) (release_held m)
unfolding release_held
release_held-Started all [] h = tt
release_held-Started all ((k, s) ∷ m) h = (
  if_ind (Started (release_held all)) (is_in_progress s.status) _ _ (λ _. one h.0) (λ _. one h.0),
  release_held-Started all m h.1,
)
  where
    one : Started all s → Started (release_held all) s
    one (inl p) = inl p
    one (inr d) = inr (release_held-deps all s.depends_on d)

release_held-total : (m : Steps) → total spent (release_held m) ≡ total spent m
unfolding release_held
release_held-total [] = refl
release_held-total ((k, s) ∷ m) = ground (arith, release_held-total m)

pub cancel_change-KeepsInv :
    (w : World) (a : Args) (reason : String) → KeepsInv w (cancel_change a reason)
unfolding cancel_change
cancel_change-KeepsInv w a reason s r act e inv = subst (Inv w.strip) (ok-injective _ r e) (record {
  each = release_held-StepInv w.strip s.steps inv.each;
  started = release_held-Started s.steps s.steps inv.started;
  finished = refl;
  billed = omega (arith, inv.billed, release_held-total s.steps);
})
