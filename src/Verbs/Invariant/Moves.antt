-- ===== src/Verbs/Invariant/Moves.antt =====
-- One step of a run moved by a verb: what must hold of it for the run to keep its invariant.
use my_org.Common.{
  ℤ, not, ◌&&◌, ℕ, ◌+◌, String, ◌≡◌, refl, sym, ap, ◌∙◌, inl, inr, Bool, true, false, some, List,
  [], ◌∷◌, arith, eq_iff, Option-cases,
}
use my_org.Result.{Result, ok, Error, ◌>>=◌, >>=-eq-ok}
use my_org.Steps.{StepStatus, Step, Steps, get, put, is_pending, is_completed}
use my_org.Steps.Laws.{AllSteps, AllSteps-get, AllSteps-put, AllSteps-mono, get-put, total-put}
use my_org.Run.{Run, RunStatus}
use my_org.Verbs.{deps_completed, step_in, charged, charge_run, update}
use my_org.Verbs.Invariant.{StepInv, Started, Inv, is_run_completed, spent}

-- Dependencies that are completed stay so when a step that is not completed changes.
pub deps_completed-put :
    (k : String) (s t : Step) (m : Steps) (ds : List String)
    → get k m ≡ some t
    → is_completed t.status ≡ false
    → deps_completed m ds ≡ ok true
    → deps_completed (put k s m) ds ≡ ok true
unfolding deps_completed
deps_completed-put k s t m [] e c h = refl
deps_completed-put k s t m (d ∷ ds) e c h =
    ground (arith, get-put k d s t m e, eq_iff k d, deps_completed-put k s t m ds e c)

-- The step `s` under the name `k` of the run `r` became `s'` in the run `r'`.
pub record Moves (strip : String → String) (r r' : Run) (k : String) (s s' : Step) : Type 0 where
  pub at_key : get k r.steps ≡ some s
  pub waiting_over : is_pending s.status ≡ false
  pub incomplete : is_completed s.status ≡ false
  pub steps_put : r'.steps ≡ put k s' r.steps
  pub same_needs : s'.depends_on ≡ s.depends_on
  pub step_inv : StepInv strip s → StepInv strip s'
  pub going_on : is_run_completed r'.run_status ≡ false
  pub same_plan : r'.planning_spend_usd ≡ r.planning_spend_usd
  pub same_charge : r'.spend_usd + s.spend_usd ≡ r.spend_usd + s'.spend_usd

module _ (strip : String → String) (r r' : Run) (k : String) (s s' : Step)
    (mv : Moves strip r r' k s s') (inv : Inv strip r) where
  open mv use {
    at_key, waiting_over, incomplete, steps_put, same_needs, step_inv, going_on, same_plan,
    same_charge,
  }

  put-Started : AllSteps (Started (put k s' r.steps)) (put k s' r.steps)
  put-Started =
      AllSteps-put (Started (put k s' r.steps)) k s' r.steps
        (AllSteps-mono (Started r.steps) (Started (put k s' r.steps)) r.steps keep inv.started)
        (move (AllSteps-get (Started r.steps) k s r.steps inv.started at_key))
    where
      keep : (t : Step) → Started r.steps t → Started (put k s' r.steps) t
      keep t (inl p) = inl p
      keep t (inr d) = inr (deps_completed-put k s' s r.steps t.depends_on at_key incomplete d)

      move : Started r.steps s → Started (put k s' r.steps) s'
      move (inl p) = cc
      move (inr d) = inr (
          ap (deps_completed (put k s' r.steps)) same_needs
          ∙ deps_completed-put k s' s r.steps s.depends_on at_key incomplete d)

  pub Moves-Inv : Inv strip r'
  Moves-Inv = record {
    each = rw steps_put (
        AllSteps-put (StepInv strip) k s' r.steps inv.each
          (step_inv (AllSteps-get (StepInv strip) k s r.steps inv.each at_key)));
    started = rw steps_put put-Started;
    finished = rw going_on;
    billed =
        rw steps_put (
          omega (arith, same_charge, same_plan, inv.billed, total-put spent k s' s r.steps at_key));
  }

-- What a verb's first guard says of the step.
pub step_in-eq-ok :
    (test : StepStatus → Bool) (e : Error) (k : String) (m : Steps) (s : Step)
    → step_in test e k m ≡ ok s
    → (get k m ≡ some s) × (test s.status ≡ true)
unfolding step_in
step_in-eq-ok test e k m s h = elim (Option-cases (get k m)) [
  | inl missing ↦ ground arith
  | inr (t, g) ↦ (ground arith, ground arith)
]

-- A step that is neither pending nor completed.
abbrev pub is_open : Step → Bool
is_open s = not (is_pending s.status) && not (is_completed s.status)

-- A move that costs nothing, perhaps with another status or ceiling of the run.
pub moved :
    (strip : String → String) (r : Run) (status : RunStatus) (ceiling : ℕ) (k : String)
    (s s' : Step)
    → get k r.steps ≡ some s
    → is_open s ≡ true
    → is_run_completed status ≡ false
    → s'.depends_on ≡ s.depends_on
    → s'.spend_usd ≡ s.spend_usd
    → (StepInv strip s → StepInv strip s')
    → Inv strip r
    → Inv strip
        (record r { steps = put k s' r.steps; run_status = status; spend_ceiling_usd = ceiling })
moved strip r status ceiling k s s' g o on d x v inv =
    Moves-Inv strip r _ k s s'
      (record {
        at_key = g;
        waiting_over = ground arith;
        incomplete = ground arith;
        steps_put = refl;
        same_needs = d;
        step_inv = v;
        going_on = on;
        same_plan = refl;
        same_charge = ap (λ n. r.spend_usd + n) (sym x);
      })
      inv

-- The step and the run are charged the same.
charged-add : (spend : ℤ) (n m : ℕ) → charged spend n + m ≡ n + charged spend m
unfolding charged
charged-add spend n m = ground arith

-- A move that is charged.
pub paid :
    (strip : String → String) (r : Run) (spend : ℤ) (k : String) (s s' : Step)
    → get k r.steps ≡ some s
    → is_open s ≡ true
    → is_run_completed r.run_status ≡ false
    → s'.depends_on ≡ s.depends_on
    → s'.spend_usd ≡ charged spend s.spend_usd
    → (StepInv strip s → StepInv strip s')
    → Inv strip r
    → Inv strip (update (charge_run spend r) k s')
paid strip r spend k s s' g o on d x v inv =
    Moves-Inv strip r _ k s s'
      (record {
        at_key = g;
        waiting_over = ground arith;
        incomplete = ground arith;
        steps_put = unfold charge_run in refl;
        same_needs = d;
        step_inv = v;
        going_on = unfold charge_run in on;
        same_plan = unfold charge_run in refl;
        same_charge = unfold charge_run in rw x (charged-add spend r.spend_usd s.spend_usd);
      })
      inv

-- An end of the run by another status than completed.
pub ended :
    (strip : String → String) (r : Run) (status : RunStatus)
    → is_run_completed status ≡ false
    → Inv strip r
    → Inv strip (record r { run_status = status })
ended strip r status on inv = record {
  each = inv.each;
  started = inv.started;
  finished = rw on;
  billed = inv.billed;
}

-- A verb that begins with the guard on its step goes on with that step.
pub on_step {ℓ} :
    {P : Type ℓ} {A : Type 0} (test : StepStatus → Bool) (x : Error) (k : String) (m : Steps)
    (f : Step → Result A) {r : A}
    → (step_in test x k m >>= f) ≡ ok r
    → ((s : Step) → get k m ≡ some s → test s.status ≡ true → f s ≡ ok r → P)
    → P
on_step test x k m f h go =
    let (s, i, e) = >>=-eq-ok (step_in test x k m) f h in
    let (g, t) = step_in-eq-ok test x k m s i in go s g t e
