-- ===== src/Approvals.antt =====
-- runtime/approvals.py: since when a step has waited for a person.
pub mod Waiting
use my_org.Common.{
  ℕ, String, Bool, true, false, Option, none, some, List, [], ◌∷◌, ◌++◌, if◌then◌else◌,
}
use my_org.Result.{Result, ok, err, index_error}
use my_org.Steps.{StepStatus, awaiting_approval, blocked_human, Step, get}
use my_org.Run.{Row}

-- WAITING_STEP of runtime/run_state.py.
abbrev pub is_waiting_step : StepStatus → Bool
is_waiting_step awaiting_approval = true
is_waiting_step blocked_human = true
is_waiting_step _ = false

abbrev pub is_waiting : Option Step → Bool
is_waiting none = false
is_waiting (some s) = is_waiting_step s.status

-- `reversed(...)`.
abbrev pub reversed : {A : Type 0} → List A → List A
reversed [] = []
reversed (x ∷ xs) = reversed xs ++ x ∷ []

-- The loop of `parked_at`, over the events before the last, the latest first.
unfoldable pub parked_from : String → ℕ → List Row → ℕ
parked_from step parked [] = parked
parked_from step parked (event ∷ events) =
    let earlier = parked_from step event.ts events in
    if is_waiting (get step event.steps) then earlier else parked

unfoldable pub parked_back : String → List Row → Result ℕ
unfolding parked_from
parked_back step [] = err index_error
parked_back step (last ∷ earlier) = ok (parked_from step last.ts earlier)

unfoldable pub parked_at : List Row → String → Result ℕ
unfolding parked_back
parked_at events step = parked_back step (reversed events)
