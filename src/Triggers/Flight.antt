-- ===== src/Triggers/Flight.antt =====
-- `in_flight` of runtime/triggers.py.
use my_org.Common.{
  ℕ, String, Bool, true, false, ◌&&◌, Option, none, some, List, [], ◌∷◌, if◌then◌else◌, ◌==◌, last?,
}
use my_org.Result.{Result, ok, err}
use my_org.Run.{Row, Line}
use my_org.Run.World.{World}
use my_org.Run.Log.{read_events}
use my_org.Health.{Condition, running, stalled, RunHealth, Files, all_health}

abbrev pub file_of : String → Files → Option (List Line)
file_of run_id [] = none
file_of run_id ((name, lines) ∷ files) = if name == run_id then some lines else file_of run_id files

abbrev pub is_moving : Condition → Bool
is_moving running = true
is_moving stalled = true
is_moving _ = false

-- `events[-1]` of a run that reads, and its organization.
abbrev pub last_in_org : String → Option Row → Bool
last_in_org org none = false
last_in_org org (some last) = last.org_id == org

abbrev pub in_org : String → Result (List Row) → Bool
in_org org (err x) = false
in_org org (ok events) = last_in_org org (last? events)

unfoldable pub moving_in : World → String → Files → List RunHealth → List String
unfolding read_events
moving_in w org files [] = []
moving_in w org files (run ∷ runs) =
    let rest = moving_in w org files runs in
    if is_moving run.state && in_org org (read_events w run.run_id (file_of run.run_id files))
    then run.run_id ∷ rest
    else rest

unfoldable pub in_flight : World → ℕ → String → Files → List String
unfolding moving_in all_health
in_flight w now org files = moving_in w org files (all_health w now files)
