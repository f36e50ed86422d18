-- ===== src/Verbs/Invariant.antt =====
-- The invariant of a run's state: what every verb keeps of every step and of the run.
pub mod Moves
pub mod Release
pub mod Life
pub mod End
pub mod Review
use my_org.Common.{
  ℕ, ◌+◌, ◌≤◌, String, ◌≡◌, refl, ◌⊎◌, Bool, true, false, not, ◌||◌, Option, none, some, ◌==◌,
}
use my_org.Result.{ok}
use my_org.Audit.{Risk, red, yellow}
use my_org.Steps.{
  StepStatus, pending, ready, in_progress, awaiting_check, completed, blocked_human, Step, Steps,
  is_in_progress, is_pending, is_completed,
}
use my_org.Steps.Laws.{AllSteps, total}
use my_org.Run.{Run, RunStatus}
use my_org.Run as Run
use my_org.Verbs.{deps_completed, all_completed}

abbrev pub implies : Bool → Bool → Bool
implies a b = not a || b

abbrev pub is_red : Risk → Bool
is_red red = true
is_red _ = false

abbrev pub is_yellow : Risk → Bool
is_yellow yellow = true
is_yellow _ = false

-- The statuses before any work, and of a step handed back to a person.
abbrev pub never_ran : StepStatus → Bool
never_ran pending = true
never_ran ready = true
never_ran blocked_human = true
never_ran _ = false

-- The statuses in which the step's work is being done or was done.
abbrev pub has_run : StepStatus → Bool
has_run in_progress = true
has_run awaiting_check = true
has_run completed = true
has_run _ = false

-- Completed by the checker that the step names, if it names one.
abbrev pub is_signed : Step → Bool
is_signed s = elim s.checker [ none ↦ true | some c ↦ s.checked_by == c ]

-- `strip` is Python's. Attempts and reviews stay within their limits; only a step in progress is
-- held; a red step never ran; a yellow step ran only under an approval with a reference; a completed
-- step with a checker was completed by it.
pub record StepInv (strip : String → String) (s : Step) : Type 0 where
  pub tried : s.attempts ≤ s.max_attempts
  pub reviewed : s.review_cycles ≤ s.max_review_cycles
  pub unheld : implies (not (is_in_progress s.status)) (s.holder == "") ≡ true
  pub unclaimed : implies (not (is_in_progress s.status)) (s.claim_token == "") ≡ true
  pub red_idle : implies (is_red s.risk) (never_ran s.status) ≡ true
  pub yellow_approved :
      implies (is_yellow s.risk) (implies (has_run s.status) (not (strip s.approval_ref == "")))
      ≡ true
  pub signed : implies (is_completed s.status) (is_signed s) ≡ true

-- A step that is no longer pending has all that it depends on completed.
abbrev pub Started : Steps → Step → Type 0
Started m s = (is_pending s.status ≡ true) ⊎ (deps_completed m s.depends_on ≡ ok true)

abbrev pub is_run_completed : RunStatus → Bool
is_run_completed Run.completed = true
is_run_completed _ = false

abbrev pub spent : Step → ℕ
spent s = s.spend_usd

pub record Inv (strip : String → String) (r : Run) : Type 0 where
  pub each : AllSteps (StepInv strip) r.steps
  pub started : AllSteps (Started r.steps) r.steps
  pub finished : implies (is_run_completed r.run_status) (all_completed r.steps) ≡ true
  pub billed : r.spend_usd ≡ r.planning_spend_usd + total spent r.steps
