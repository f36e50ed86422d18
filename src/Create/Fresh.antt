-- ===== src/Create/Fresh.antt =====
-- A run that was just created has the invariant of runs, and its file reads.
use my_org.Common.{
  String, ◌≡◌, refl, sym, ap, ◌∙◌, ◌⊎◌, inl, inr, Bool, true, false, Option, none, some, List, [],
  ◌∷◌, arith, is_slug,
}
use my_org.Result.{
  Result, ok, err, >>=-eq-ok, require->>, refuse->>, lock_timeout, invalid_run_id,
  run_already_exists, ok-injective,
}
use my_org.Audit.{Risk}
use my_org.Steps.{Step, Steps, is_pending, is_completed}
use my_org.Steps.Laws.{AllSteps, AllSteps-mono, total}
use my_org.Run.{Payload, Row, Line, row}
use my_org.Run.World.{World}
use my_org.Run.Log.{read_events, append_event, sealed_row}
use my_org.Run.Log.Append.{Reads→read_events}
use my_org.Run.Mutate.{Disk, Outcome, write_event}
use my_org.Verbs.{deps_completed}
use my_org.Verbs.Invariant.{
  implies, is_red, is_yellow, never_ran, has_run, StepInv, Started, Inv, spent,
}
use my_org.Commands.History.{Sound}
use my_org.Workflow.{RawWorkflow, validate_workflow}
use my_org.Create.{
  read_workflow, PlannedStep, Workflow, CreateArgs, risk_of, first_status, new_step, set_key,
  plan_steps, created, is_there, first_state, create_end, create_run,
}

-- A step on which no work was done.
record IsFresh (strip : String → String) (s : Step) : Type 0 where
  valid : StepInv strip s
  waits : (is_pending s.status ≡ true) ⊎ (s.depends_on ≡ [])
  free : s.spend_usd ≡ 0

first_status-idle :
    (ds : List String)
    → (never_ran (first_status ds) ≡ true)
      × (has_run (first_status ds) ≡ false)
      × (is_completed (first_status ds) ≡ false)
first_status-idle [] = (refl, refl, refl)
first_status-idle (d ∷ ds) = (refl, refl, refl)

first_status-waits : (ds : List String) → (is_pending (first_status ds) ≡ true) ⊎ (ds ≡ [])
first_status-waits [] = inr refl
first_status-waits (d ∷ ds) = inl refl

implies-true : (b : Bool) → implies b true ≡ true
implies-true true = refl
implies-true false = refl

new_step-StepInv :
    (strip : String → String) (p : PlannedStep) (risk : Risk) → StepInv strip (new_step p risk)
unfolding new_step
new_step-StepInv strip p risk =
    let (idle, unrun, undone) = first_status-idle p.depends_on in
    record {
      tried = omega arith;
      reviewed = omega arith;
      unheld = implies-true _;
      unclaimed = implies-true _;
      red_idle = rw idle (implies-true (is_red risk));
      yellow_approved = rw unrun (implies-true (is_yellow risk));
      signed = rw undone refl;
    }

new_step-IsFresh :
    (strip : String → String) (p : PlannedStep) (risk : Risk) → IsFresh strip (new_step p risk)
unfolding new_step
new_step-IsFresh strip p risk = record {
  valid = new_step-StepInv strip p risk;
  waits = first_status-waits p.depends_on;
  free = refl;
}

AllSteps-set_key :
    (P : Step → Type 0) (key : String) (s : Step) (m : Steps)
    → AllSteps P m
    → P s
    → AllSteps P (set_key key s m)
unfolding set_key
AllSteps-set_key P key s [] h p = (p, tt)
AllSteps-set_key P key s ((k, t) ∷ m) h p = ground (arith, AllSteps-set_key P key s m h.1 p)

plan_steps-IsFresh :
    (w : World) (ps : List PlannedStep) (m states : Steps)
    → AllSteps (IsFresh w.strip) m
    → plan_steps w ps m ≡ ok states
    → AllSteps (IsFresh w.strip) states
unfolding plan_steps
plan_steps-IsFresh w [] m states h e = ground (arith, h, e)
plan_steps-IsFresh w (p ∷ ps) m states h e =
    let (risk, _, e') = >>=-eq-ok (risk_of w p.action) _ e in
    plan_steps-IsFresh w ps _ states
      (AllSteps-set_key (IsFresh w.strip) p.id (new_step p risk) m h
        (new_step-IsFresh w.strip p risk))
      e'

total-IsFresh :
    (strip : String → String) (m : Steps) → AllSteps (IsFresh strip) m → total spent m ≡ 0
total-IsFresh strip [] h = refl
total-IsFresh strip ((k, s) ∷ m) h = omega (arith, h.0.free, total-IsFresh strip m h.1)

IsFresh-Started : (strip : String → String) (m : Steps) (s : Step) → IsFresh strip s → Started m s
unfolding deps_completed
IsFresh-Started strip m s h = elim h.waits [
  | inl p ↦ inl p
  | inr none_needed ↦ inr (rw none_needed refl)
]

not_there : (file : Option (List Line)) → is_there file ≡ false → file ≡ none
not_there none h = refl
not_there (some lines) h = cc

created-Inv :
    (w : World) (a : CreateArgs) (wf : Workflow) (states : Steps)
    → AllSteps (IsFresh w.strip) states
    → Inv w.strip (created w a wf states).body
unfolding created
created-Inv w a wf states h = record {
  each = AllSteps-mono (IsFresh w.strip) (StepInv w.strip) states (λ s k. k.valid) h;
  started =
      AllSteps-mono (IsFresh w.strip) (Started states) states (IsFresh-Started w.strip states) h;
  finished = refl;
  billed = omega (arith, total-IsFresh w.strip states h);
}

-- What `create_run` writes when it succeeds: one line, on a file that was not there.
first_state-eq-ok :
    (w : World) (a : CreateArgs) (f : RawWorkflow) (file : Option (List Line)) (s : Payload)
    → first_state w a f file ≡ ok s
    → (states : Steps) × (validate_workflow w f ≡ ok tt)
      × (is_slug a.run_id ≡ true)
      × (file ≡ none)
      × (plan_steps w (read_workflow f).steps [] ≡ ok states)
      × (s ≡ created w a (read_workflow f) states)
unfolding first_state
first_state-eq-ok w a f file s e =
    let (_, valid, e0) = >>=-eq-ok (validate_workflow w f) _ e in
    let (_, e1) = require->> w.lock_acquired lock_timeout _ e0 in
    let (slug, e2) = require->> (is_slug a.run_id) invalid_run_id _ e1 in
    let (new, e3) = refuse->> (is_there file) run_already_exists _ e2 in
    let (states, p, e4) = >>=-eq-ok (plan_steps w (read_workflow f).steps []) _ e3 in
    (states, valid, slug, not_there file new, p, sym (ok-injective _ s e4))

abbrev first_line : World → CreateArgs → Workflow → Steps → Row
first_line w a wf states = sealed_row w (created w a wf states) none

-- The first line, written to a file that is not there.
write_event-first :
    (w : World) (a : CreateArgs) (wf : Workflow) (states : Steps) (d : Disk)
    → d.file ≡ none
    → write_event w (created w a wf states) d ≡ (
      ok (first_line w a wf states),
      record d { file = some (row (first_line w a wf states) ∷ []) },
    )
unfolding write_event append_event
write_event-first w a wf states d absent = rw absent refl

first_line-reads :
    (w : World) (a : CreateArgs) (wf : Workflow) (states : Steps)
    → is_slug a.run_id ≡ true
    → read_events w a.run_id (some (row (first_line w a wf states) ∷ []))
      ≡ ok (first_line w a wf states ∷ [])
unfolding created sealed_row
first_line-reads w a wf states slug =
    Reads→read_events w a.run_id _ (first_line w a wf states ∷ [])
      (record { slug = slug; lines = refl; linked = (refl, refl, refl, tt); some_row = refl })

-- The line that a `create_run` leaves, and what its state is.
pub record Created (w : World) (a : CreateArgs) (f : RawWorkflow) (r : Row) (d : Disk)
    : Type 0 where
  pub states : Steps
  pub planned : plan_steps w (read_workflow f).steps [] ≡ ok states
  pub line : r ≡ first_line w a (read_workflow f) states
  pub reads : read_events w a.run_id d.file ≡ ok (r ∷ [])

create_end-Created :
    (w : World) (a : CreateArgs) (f : RawWorkflow) (d d' : Disk) (r : Row) (x : Result Payload)
    → first_state w a f d.file ≡ x
    → create_end w d x ≡ (ok r, d')
    → (validate_workflow w f ≡ ok tt) × (d.file ≡ none) × Created w a f r d'
unfolding create_end
create_end-Created w a f d d' r (err y) q e = cc
create_end-Created w a f d d' r (ok s) q e =
    let wf = read_workflow f in
    let (states, valid, slug, absent, p, k) = first_state-eq-ok w a f d.file s q in
    let line = first_line w a wf states in
    let same : (ok r, d') ≡ (ok line, record d { file = some (row line ∷ []) }) =
      sym e
      ∙ ap (λ (t : Payload). write_event w t d) k
      ∙ write_event-first w a wf states d absent in
    let here : r ≡ line = ok-injective r line (ap (λ (o : Outcome). o.0) same) in
    let file : d'.file ≡ some (row line ∷ []) = ap (λ (o : Outcome). o.1.file) same in
    (
      valid,
      absent,
      record {
        states = states;
        planned = p;
        line = here;
        reads = rw (file, here) (first_line-reads w a wf states slug);
      },
    )

pub create_run-Created :
    (w : World) (a : CreateArgs) (f : RawWorkflow) (d d' : Disk) (r : Row)
    → create_run w a f d ≡ (ok r, d')
    → (validate_workflow w f ≡ ok tt) × (d.file ≡ none) × Created w a f r d'
unfolding create_run
create_run-Created w a f d d' r e = create_end-Created w a f d d' r _ refl e

-- A `create_run` that succeeds was given a valid workflow and found no file of that run, and leaves
-- one that reads, in which the run has the invariant.
pub create_run-Sound :
    (w : World) (a : CreateArgs) (f : RawWorkflow) (d d' : Disk) (r : Row)
    → create_run w a f d ≡ (ok r, d')
    → (validate_workflow w f ≡ ok tt) × (d.file ≡ none) × Sound w a.run_id d'
unfolding sealed_row
create_run-Sound w a f d d' r e =
    let wf = read_workflow f in
    let (valid, absent, c) = create_run-Created w a f d d' r e in
    let inv =
      created-Inv w a wf c.states (plan_steps-IsFresh w wf.steps [] c.states tt c.planned) in
    (valid, absent, (r ∷ [], c.reads, (rw c.line inv, tt)))
