-- ===== src/Run/Mutate.antt =====
-- `mutate` of runtime/run_state.py: the one door through which a verb changes a run. The disk is the
-- run's file and the audit log; what was written before an error stays written.
pub mod Outcome
pub mod Keeps
pub mod Replay
pub mod Audited
pub mod Ends
pub mod Trail
use my_org.Common.{
  ℕ, ◌+◌, String, Bool, true, false, not, ◌&&◌, ◌||◌, Option, none, some, List, if◌then◌else◌, ◌==◌,
  leb, last?, find_first,
}
use Prim.Native.String.{◌++◌}
use my_org.Result.{
  Result, ok, err, Error, ◌>>=◌, lock_timeout, empty_run, request_id_reused, run_is_terminal,
  max_cycles_reached, unknown_run_status,
}
use my_org.Audit
use my_org.Audit.{Entry, green, not_required, success, blocked}
use my_org.Run.{
  RunStatus, active, completed, rejected, blocked_human, blocked_retry_limit, blocked_cycle_limit,
  blocked_review_limit, rejected_by_checker, cancelled, other, is_active, is_terminal_run, Run,
  Payload, Row, Line,
}
use my_org.Run.World.{World}
use my_org.Run.Log.{read_events, append_event}

pub record Disk : Type 0 where
  pub file : Option (List Line)
  pub audit_log : Audit.Log

-- The arguments of `mutate` that go into the event.
pub record Request : Type 0 where
  pub run_id : String
  pub request_id : String
  pub event : String
  pub actor : String
  pub target : String

-- What a verb hands over: the change, and the audit entry that a gated transition leaves.
pub record Verb : Type 0 where
  pub request : Request
  pub open request use *
  pub change : Payload → Result Run
  pub entry : Payload → Result (Option Entry)

abbrev pub Outcome : Type 0
Outcome = Result Row × Disk

abbrev pub status_text : RunStatus → String
status_text active = "active"
status_text completed = "completed"
status_text rejected = "rejected"
status_text blocked_human = "blocked_human"
status_text blocked_retry_limit = "blocked_retry_limit"
status_text blocked_cycle_limit = "blocked_cycle_limit"
status_text blocked_review_limit = "blocked_review_limit"
status_text rejected_by_checker = "rejected_by_checker"
status_text cancelled = "cancelled"
status_text (other text) = text

abbrev is_run_completed : RunStatus → Bool
is_run_completed completed = true
is_run_completed _ = false

-- The audit entry of `record_terminal`.
unfoldable pub terminal_entry : World → String → RunStatus → Entry
terminal_entry w run_id status = record {
  actor = "runtime";
  action = "run." ++ status_text status;
  category = green;
  target = run_id;
  approval = not_required;
  evidence = w.run_file run_id;
  outcome = if is_run_completed status then success else blocked;
  note = "the run reached " ++ (status_text status ++ " and can go no further");
}

unfoldable pub record_terminal : World → String → RunStatus → Audit.Log → Result Audit.Log
unfolding terminal_entry
record_terminal w run_id status log = Audit.append w.audit (terminal_entry w run_id status) log

-- The end of a mutation: `append_event`, whose line is the state returned.
unfoldable pub write_event : World → Payload → Disk → Outcome
write_event w state d = elim (append_event w state d.file) [
  | err e ↦ (err e, d)
  | ok (line, lines) ↦ (ok line, record d { file = some lines })
]

-- The state that a mutation appends, after the change left `body`.
unfoldable pub stamped : World → Request → Payload → Run → Payload
stamped w q state body = record {
  body = record body { cycle_count = body.cycle_count + 1 };
  seq = state.seq + 1;
  event = q.event;
  actor = q.actor;
  target = q.target;
  request_id = q.request_id;
  ts = w.logged_at;
  prev_event_hash = state.prev_event_hash;
}

unfoldable pub log_entry : World → Option Entry → Audit.Log → Result Audit.Log
log_entry w none log = ok log
log_entry w (some e) log = Audit.append w.audit e log

-- A run that was active and has ended leaves an entry of its own.
unfoldable pub log_end : World → Payload → Audit.Log → Result Audit.Log
log_end w state log =
    if is_terminal_run state.run_status
    then record_terminal w state.run_id state.run_status log
    else ok log

-- The end of a mutation, one step after the other; the first error ends it.
unfoldable pub commit_end : World → Payload → Disk → Result Audit.Log → Outcome
commit_end w next d (err e) = (err e, d)
commit_end w next d (ok log) = write_event w next (record d { audit_log = log })

unfoldable pub commit_logged : World → Payload → Disk → Result Audit.Log → Outcome
unfolding log_end commit_end
commit_logged w next d (err e) = (err e, d)
commit_logged w next d (ok log) =
    commit_end w next (record d { audit_log = log }) (log_end w next log)

unfoldable pub commit_entry : World → Payload → Disk → Result (Option Entry) → Outcome
unfolding log_entry commit_logged
commit_entry w next d (err e) = (err e, d)
commit_entry w next d (ok entry) = commit_logged w next d (log_entry w entry d.audit_log)

-- A status that no reader would know.
abbrev pub is_unknown : RunStatus → Bool
is_unknown status = not (is_active status) && not (is_terminal_run status)

-- After the change: the guard on the status, the audit entries, and only then the event.
unfoldable pub commit : World → Verb → Payload → Run → Disk → Outcome
unfolding stamped commit_entry
commit w v state body d =
    if is_unknown body.run_status
    then (err unknown_run_status, d)
    else let next = stamped w v.request state body in commit_entry w next d (v.entry next)

-- The state that ends a run out of cycles.
unfoldable pub out_of_cycles : World → Request → Payload → Payload
out_of_cycles w q state = record {
  body = record state.body { run_status = blocked_cycle_limit };
  seq = state.seq + 1;
  event = "run.blocked_cycle_limit";
  actor = "runtime";
  target = q.run_id;
  request_id = q.request_id;
  ts = w.logged_at;
  prev_event_hash = state.prev_event_hash;
}

-- The event is written, and the caller still gets an error.
abbrev pub raising : Error → Outcome → Outcome
raising e (ok line, d) = (err e, d)
raising e (err e', d) = (err e', d)

unfoldable pub stop_end : World → Payload → Disk → Result Audit.Log → Outcome
stop_end w next d (err e) = (err e, d)
stop_end w next d (ok log) =
    raising max_cycles_reached (write_event w next (record d { audit_log = log }))

unfoldable pub stop_run : World → Request → Payload → Disk → Outcome
unfolding out_of_cycles stop_end
stop_run w q state d =
    let next = out_of_cycles w q state in
    stop_end w next d (record_terminal w q.run_id next.run_status d.audit_log)

-- The rest of a mutation whose change gave a result.
unfoldable pub after_change : World → Verb → Payload → Disk → Result Run → Outcome
unfolding commit
after_change w v state d (err e) = (err e, d)
after_change w v state d (ok body) = commit w v state body d

-- A request id that the run has not seen.
unfoldable pub fresh : World → Verb → Payload → Disk → Outcome
unfolding stop_run after_change
fresh w v state d =
    if not (is_active state.run_status)
    then (err run_is_terminal, d)
    else if leb state.max_cycles state.cycle_count
    then stop_run w v.request state d
    else after_change w v state d (v.change state)

abbrev pub same_request : String → Row → Bool
same_request id r = r.request_id == id

abbrev pub same_mutation : Request → Row → Bool
same_mutation q prior = prior.event == q.event && prior.actor == q.actor && prior.target == q.target

-- The run's states, in order, are `events`; an identical request is answered from the log.
unfoldable pub answer : World → Verb → Disk → Row → Option Row → Outcome
unfolding fresh
answer w v d last none = fresh w v last.payload d
answer w v d last (some prior) =
    if same_mutation v.request prior then (ok last, d) else (err request_id_reused, d)

unfoldable pub on_last : World → Verb → Disk → List Row → Option Row → Outcome
unfolding answer
on_last w v d events none = (err empty_run, d)
on_last w v d events (some last) = answer w v d last (find_first (same_request v.request_id) events)

unfoldable pub on_events : World → Verb → Disk → Result (List Row) → Outcome
unfolding on_last
on_events w v d (err e) = (err e, d)
on_events w v d (ok events) = on_last w v d events (last? events)

unfoldable pub mutate : World → Verb → Disk → Outcome
unfolding on_events
mutate w v d =
    if w.lock_acquired
    then on_events w v d (read_events w v.run_id d.file)
    else (err lock_timeout, d)
