-- ===== src/Verbs.antt =====
-- The verbs of runtime/run_verbs.py, run_outcomes.py and run_review.py: the parts that they share.
-- A verb is a change of the run's state and, for a gated transition, the audit entry that it leaves.
pub mod Life
pub mod Claim
pub mod End
pub mod Budget
pub mod Review
pub mod Invariant
pub mod Extend
pub mod Gate
pub mod Refused
pub mod Fencing
use Prim.Native.String.{◌++◌ as ◌<>◌}
use my_org.Common.{
  ℕ, zero, ◌+◌, String, ℤ, pos_part, Bool, true, false, not, ◌&&◌, Option, none, some, List, [],
  ◌∷◌, if◌then◌else◌, ◌==◌, eqb, last?, every,
}
use my_org.Result.{
  Result, ok, err, Error, ◌>>=◌, ◌>>◌, require, found, key_error, evidence_outside,
  evidence_missing, no_submission, submission_changed,
}
use my_org.Audit.{Approval, Outcome, Entry}
use my_org.Steps.{StepStatus, ready, Submission, Step, Steps, get, put, is_pending, is_completed}
use my_org.Run.{completed, Run, Payload}
use my_org.Run.World.{World, Actor, Registry, no_store, broken, store}

-- The arguments that the verbs share; `actor` is the approver where a person decides.
pub record Args : Type 0 where
  pub run_id : String
  pub step : String
  pub actor : String
  pub request_id : String

-- `state["steps"].get(args.step)` with the guard on its status, which raises one error for both.
unfoldable pub step_in : (StepStatus → Bool) → Error → String → Steps → Result Step
step_in test e key steps = elim (get key steps) [
  | none ↦ err e
  | some s ↦ if test s.status then ok s else err e
]

-- The run in which the step of that name was changed into `step`.
abbrev pub update : Run → String → Step → Run
update r key step = record r { steps = put key step r.steps }

-- `value or default` on a text that may be missing.
abbrev pub or_default : Option String → String → String
or_default none default = default
or_default (some text) default = if text == "" then default else text

-- The path relative to the repository and the hash of what is there.
unfoldable pub evidence_path : World → String → Result (String × String)
evidence_path w value = do
  relative ← found (w.relative value) evidence_outside
  bytes ← found (w.read_file relative) evidence_missing
  ok (relative, w.sha256 bytes)

-- `all(steps[d]["status"] == "completed" for d in names)`: stops at the first that is not, and a name
-- that is not there raises.
unfoldable pub deps_completed : Steps → List String → Result Bool
deps_completed steps [] = ok true
deps_completed steps (d ∷ ds) = elim (get d steps) [
  | none ↦ err key_error
  | some s ↦ elim s.status [ StepStatus.completed ↦ deps_completed steps ds | _ ↦ ok false ]
]

unfoldable pub release_candidate : Steps → Step → Result Step
release_candidate all s =
    if is_pending s.status
    then (do
      done ← deps_completed all s.depends_on
      ok (if done then record s { status = ready } else s))
    else ok s

-- The loop of `release_dependents`. It asks of `all`, the steps before the loop, what the source asks
-- of the steps as they change: a step turns from pending to ready, so what is completed stays.
unfoldable pub release_loop : Steps → Steps → Result Steps
unfolding release_candidate
release_loop all [] = ok []
release_loop all ((k, s) ∷ m) = do
  s' ← release_candidate all s
  m' ← release_loop all m
  ok ((k, s') ∷ m')

abbrev pub all_completed : Steps → Bool
all_completed = every (λ entry. is_completed entry.1.status)

unfoldable pub release_dependents : Run → Result Run
unfolding release_loop
release_dependents r = do
  steps ← release_loop r.steps r.steps
  let r' = record r { steps = steps }
  ok (if all_completed steps then record r' { run_status = completed } else r')

unfoldable pub verify_submission : World → Step → Result (Unit {0})
unfolding evidence_path
verify_submission w step = do
  submission ← found (last? step.submissions) no_submission
  (_, current_hash) ← evidence_path w submission.evidence
  require (current_hash == submission.evidence_sha256) submission_changed

-- What `charge` makes of a sum of money: an amount that is not above zero adds nothing.
unfoldable pub charged : ℤ → ℕ → ℕ
charged spend n = if eqb (pos_part spend) 0 then n else n + pos_part spend

-- `charge` on the step and on the run.
unfoldable pub charge_step : ℤ → Step → Step
charge_step spend s = record s { spend_usd = charged spend s.spend_usd }

unfoldable pub charge_run : ℤ → Run → Run
charge_run spend r = record r { spend_usd = charged spend r.spend_usd }

unfoldable pub attributed : String → Option Actor → String
attributed approver none =
    "approved by '" <> (approver <> "' (not a registered actor in this organization)")
attributed approver (some a) =
    if not (a.actor_type == "human" && a.status == "active")
    then "approved by '"
      <> (approver
          <> ("' (registered as an " <> (a.actor_type <> (", status " <> (a.status <> ")")))))
    else "approved by " <> (approver <> ", a registered active human")

unfoldable pub attribution : World → Run → String → Option String → String
unfolding attributed
attribution w r approver actor_id = elim w.registry [
  | no_store ↦ "approved by '" <> (approver <> "' (name self-asserted at the CLI, unverified)")
  | broken ↦ "approved by '" <> (approver <> "' (attribution could not be checked)")
  | store actor ↦ attributed approver (actor r.org_id (or_default actor_id approver))
]

-- The audit entry of a gated step, read from the state after the change.
unfoldable pub gate_entry : World → Args → Step → Approval → Outcome → String → Entry
gate_entry w a step approval outcome note = record {
  actor = a.actor;
  action = step.action;
  category = step.risk;
  target = a.run_id <> ("/" <> a.step);
  approval = approval;
  evidence = w.run_file a.run_id;
  outcome = outcome;
  note = note;
}
