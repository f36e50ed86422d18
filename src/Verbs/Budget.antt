-- ===== src/Verbs/Budget.antt =====
-- runtime/run_outcomes.py: `extend_budget`, which writes its own event.
use Prim.Native.String.{◌++◌ as ◌<>◌}
use Prim.Native.Nat.{min}
use my_org.Common.{
  ℕ, ◌+◌, Bool, true, false, not, ◌&&◌, none, some, List, if◌then◌else◌, ◌==◌, leb, last?, some_of,
}
use my_org.Result.{
  Result, ok, err, lock_timeout, empty_run, approver_required, bad_extension, not_out_of_cycles,
  at_the_ceiling,
}
use my_org.Audit
use my_org.Audit.{Entry, granted, success, blocked, yellow}
use my_org.Run.{Run, Payload, Row, RunStatus, active, is_active}
use my_org.Run as Run
use my_org.Run.World.{World}
use my_org.Run.Log.{read_events}
use my_org.Run.Mutate.{Disk, Outcome, write_event, same_request}
use my_org.Verbs.{Args}

unfoldable pub extended : World → Args → Payload → ℕ → Payload
extended w a s ceiling = record {
  body = record s.body { run_status = active; max_cycles = ceiling };
  seq = s.seq + 1;
  event = "run.budget_extended";
  actor = a.actor;
  target = a.run_id;
  request_id = a.request_id;
  ts = w.logged_at;
  prev_event_hash = s.prev_event_hash;
}

unfoldable pub extend_entry : World → Args → Payload → ℕ → Entry
extend_entry w a s ceiling = record {
  actor = a.actor;
  action = "run.budget_extended";
  category = yellow;
  target = a.run_id;
  approval = granted;
  evidence = w.run_file a.run_id;
  outcome = success;
  note =
      "cycle budget raised to "
      <> (w.str ceiling <> ("; " <> (w.str s.cycle_count <> " already spent")));
}

abbrev pub is_out_of_cycles : RunStatus → Bool
is_out_of_cycles Run.blocked_cycle_limit = true
is_out_of_cycles _ = false

unfoldable pub extend_end : World → Payload → Disk → Result Audit.Log → Outcome
extend_end w next d (err e) = (err e, d)
extend_end w next d (ok log) = write_event w next (record d { audit_log = log })

unfoldable pub extend_last : World → Args → ℕ → Disk → Row → Outcome
unfolding extended extend_entry extend_end
extend_last w a extra d last =
    let ceiling = min 100 (last.max_cycles + extra) in
    if not (is_out_of_cycles last.run_status)
    then (err not_out_of_cycles, d)
    else if leb ceiling last.max_cycles
    then (err at_the_ceiling, d)
    else let next = extended w a last.payload ceiling in
      extend_end w next d (Audit.append w.audit (extend_entry w a last.payload ceiling) d.audit_log)

unfoldable pub extend_read : World → Args → ℕ → Disk → Result (List Row) → Outcome
unfolding extend_last
extend_read w a extra d (err e) = (err e, d)
extend_read w a extra d (ok rows) = elim (last? rows) [
  | none ↦ (err empty_run, d)
  | some last ↦
      if some_of (same_request a.request_id) rows
      then (ok last, d)
      else extend_last w a extra d last
]

-- `extend_budget`, which writes its own event: it is the one way out of a terminal status. A replay
-- is answered before the status is asked for.
unfoldable pub extend_budget : World → Args → ℕ → Disk → Outcome
unfolding extend_read
extend_budget w a extra d =
    if w.strip a.actor == ""
    then (err approver_required, d)
    else if not (leb 1 extra && leb extra 100)
    then (err bad_extension, d)
    else if not w.lock_acquired
    then (err lock_timeout, d)
    else extend_read w a extra d (read_events w a.run_id d.file)
