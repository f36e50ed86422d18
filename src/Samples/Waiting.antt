-- ===== src/Samples/Waiting.antt =====
-- The theorem on waiting steps, applied to a run whose step is parked twice.
use my_org.Common.{ℕ, ◌≡◌, refl, [], ◌∷◌, ◌++◌, inr}
use my_org.Result.{ok}
use my_org.Steps.{in_progress, awaiting_approval, get}
use my_org.Audit.{yellow}
use my_org.Run.{active, Row}
use my_org.Approvals.{parked_at}
use my_org.Approvals.Waiting.{parked_at-first}
use my_org.Samples.{new_step, run_of, first_row}

abbrev working_row : Row
working_row =
    first_row (run_of active 2 (("send", new_step in_progress "send_email" yellow []) ∷ []))

abbrev parked_row : Row
parked_row =
    first_row (run_of active 3 (("send", new_step awaiting_approval "send_email" yellow []) ∷ []))

-- The same at another time.
abbrev at_time : ℕ → Row → Row
at_time t r = record { payload = record r.payload { ts = t }; event_hash = r.event_hash }

-- Parked at 80, approved, parked again at 90, and still parked at 95 while a sibling moved on.
parked_at-first_example :
    parked_at
      ((at_time 80 parked_row ∷ working_row ∷ []) ++ parked_row ∷ at_time 95 parked_row ∷ [])
      "send"
    ≡ ok 90
unfolding get
parked_at-first_example =
    parked_at-first "send" (at_time 80 parked_row ∷ working_row ∷ []) (at_time 95 parked_row ∷ [])
      parked_row (inr (working_row, refl, refl)) refl (refl, tt)
