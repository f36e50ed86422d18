-- ===== src/Verbs/Refused.antt =====
-- What `request_step` of runtime/run_verbs.py never dispatches.
use my_org.Common.{
  ◌≡◌, ◌⊎◌, inl, inr, ap, Option, none, some, List, last?, find_first, arith, String,
}
use my_org.Result.{Result, ok, err, Error}
use my_org.Audit.{other}
use my_org.Steps.{Step, get}
use my_org.Run.{Payload, Row, blocked_cycle_limit}
use my_org.Run.World.{World}
use my_org.Run.Log.{read_events}
use my_org.Run.Mutate.{Disk, Outcome, same_request, mutate}
use my_org.Run.Mutate.Outcome.{Adds}
use my_org.Run.Mutate.Trail.{Trail, refuses, replays, stops, commits, mutate-Trail}
use my_org.Verbs.{Args}
use my_org.Verbs.Life.{request_step}
use my_org.Verbs.Gate.{request_step-not_ok}

-- An error that leaves every step of the run as it was, on the disk too: the file is as it was, or one line
-- ends the run at its cycle limit.
pub record Refused (w : World) (id : String) (d : Disk) (rs : List Row) (last : Row) (o : Outcome)
    : Type 0 where
  pub error : Error
  pub raised : o.0 ≡ err error
  pub nothing_moved :
      (o.1.file ≡ d.file)
      ⊎ ((next : Payload) × (next.run_status ≡ blocked_cycle_limit)
          × (next.steps ≡ last.steps)
          × Adds w id rs next o.1)

module _ (w : World) (a : Args) (holder : Option String) (d : Disk) (rs : List Row) (last : Row)
    (n : find_first (same_request a.request_id) rs ≡ none) where
  Trail-Refused :
      (o : Outcome)
      → ((r : Row) → ¬ (o ≡ (ok r, o.1)))
      → Trail w (request_step w a holder) d rs last o
      → Refused w a.run_id d rs last o
  unfolding request_step
  Trail-Refused o never (refuses x r f) = record { error = x; raised = r; nothing_moved = inl f }
  Trail-Refused o never (replays prior f same q) = absurd (ground (arith, n, f))
  Trail-Refused o never (stops next c r b s adds log) = record {
    error = _;
    raised = r;
    nothing_moved = inr (next, b, s, adds);
  }
  Trail-Refused o never (commits body entry between k c b r adds asked g ends) =
      absurd (never _ (ap (λ (x : Result Row). (x, o.1)) r))

-- A step whose risk word the policy's three classes do not hold is never dispatched: a new request for it,
-- on a file that reads, raises, whoever asks, and on the disk every step of the run is as it was: the
-- run's file is unchanged, or has one more line, which ends the run at its cycle limit.
pub request_step-unclassified :
    (w : World) (a : Args) (holder : Option String) (d : Disk) (rs : List Row) (last : Row)
    (step : Step) (word : String)
    → read_events w a.run_id d.file ≡ ok rs
    → last? rs ≡ some last
    → find_first (same_request a.request_id) rs ≡ none
    → get a.step last.steps ≡ some step
    → step.risk ≡ other word
    → Refused w a.run_id d rs last (mutate w (request_step w a holder) d)
unfolding request_step
request_step-unclassified w a holder d rs last step word e l n g o =
    Trail-Refused w a holder d rs last n (mutate w (request_step w a holder) d)
      (λ r. request_step-not_ok w a holder d _ rs last r step word e l n g o)
      (mutate-Trail w (request_step w a holder) d rs last e l)
