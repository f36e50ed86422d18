-- ===== src/Run/Mutate/Trail.antt =====
-- What the audit log holds of a mutation, beside what the run's file does.
use my_org.Common.{
  true, ◌≡◌, refl, ap, ◌≤◌, ◌<◌, false, not, Option, none, some, List, arith, leb, leb→le, leb→lt,
  last?, length, find_first, if_ind,
}
use my_org.Result.{
  Result, ok, err, Error, max_cycles_reached, run_is_terminal, unknown_run_status, lock_timeout,
  request_id_reused,
}
use my_org.Audit
use my_org.Audit.{Entry, Host, Approval, not_required}
use my_org.Run.{active, is_active, blocked_cycle_limit, Run, Payload, Row}
use my_org.Run.World.{World}
use my_org.Run.Log.{read_events}
use my_org.Run.Log.Append.{read_events→Reads}
use my_org.Run.Log.Unique.{Linked-last}
use my_org.Run.Mutate.{
  Disk, Verb, Outcome, record_terminal, write_event, stamped, log_entry, log_end, commit_end,
  commit_logged, commit_entry, is_unknown, commit, after_change, out_of_cycles, stop_end, stop_run,
  fresh, same_request, same_mutation, answer, on_last, on_events, mutate,
}
use my_org.Run.Mutate.Outcome.{line_after, Adds, write_event-Adds, raising-err, raising-disk}
use my_org.Run.Mutate.Audited.{write_event-log}
use my_org.Run.Mutate.Ends.{
  Gains, Ends, is_active→eq, log_entry-Gains, record_terminal-Ends, log_end-Ends,
}

pub data Trail (w : World) (v : Verb) (d : Disk) (rs : List Row) (last : Row) (o : Outcome)
    : Type 0 where
  refuses : (x : Error) → o.0 ≡ err x → o.1.file ≡ d.file → Trail w v d rs last o
  replays :
      (prior : Row)
      → find_first (same_request v.request_id) rs ≡ some prior
      → same_mutation v.request prior ≡ true
      → o ≡ (ok last, d)
      → Trail w v d rs last o
  stops :
      (next : Payload)
      → last.max_cycles ≤ last.cycle_count
      → o.0 ≡ err max_cycles_reached
      → next.run_status ≡ blocked_cycle_limit
      → next.steps ≡ last.steps
      → Adds w v.run_id rs next o.1
      → Ends w v.run_id blocked_cycle_limit d.audit_log o.1.audit_log
      → Trail w v d rs last o
  commits :
      (body : Run) (entry : Option Entry) (between : Audit.Log)
      → last.run_status ≡ active
      → last.cycle_count < last.max_cycles
      → v.change last.payload ≡ ok body
      → o.0 ≡ ok (line_after w rs (stamped w v.request last.payload body))
      → Adds w v.run_id rs (stamped w v.request last.payload body) o.1
      → v.entry (stamped w v.request last.payload body) ≡ ok entry
      → Gains w.audit entry d.audit_log between
      → Ends w body.run_id body.run_status between o.1.audit_log
      → Trail w v d rs last o

module _ (w : World) (v : Verb) (d : Disk) (rs : List Row) (last : Row)
    (e : read_events w v.run_id d.file ≡ ok rs) (s : last.seq ≡ length rs) where
  -- The state is written where the log is, and the log is not touched any more.
  written-log :
      (next : Payload) (log : Audit.Log) (r : Row)
      → (write_event w next (record d { audit_log = log })).0 ≡ ok r
      → (write_event w next (record d { audit_log = log })).1.audit_log ≡ log
  written-log next log r h =
      let o = write_event w next (record d { audit_log = log }) in
      write_event-log w next (record d { audit_log = log }) o.1 r
        (ap (λ (x : Result Row). (x, o.1)) h)

  stop_end-Trail :
      (r : Result Audit.Log)
      → record_terminal w v.run_id blocked_cycle_limit d.audit_log ≡ r
      → last.max_cycles ≤ last.cycle_count
      → Trail w v d rs last (stop_end w (out_of_cycles w v.request last.payload) d r)
  unfolding stop_end out_of_cycles
  stop_end-Trail (err x) q c = refuses x refl refl
  stop_end-Trail (ok log) q c =
      let next = out_of_cycles w v.request last.payload in
      let (r, adds) =
        write_event-Adds w v.run_id rs next (record d { audit_log = log }) e (omega arith) in
      let same : (write_event w next (record d { audit_log = log })).1.audit_log ≡ log =
        written-log next log _ r in
      stops next c (raising-err max_cycles_reached _ r) refl refl (rw raising-disk adds) (
        rw (raising-disk, same)
          (record_terminal-Ends w v.run_id blocked_cycle_limit d.audit_log log refl q))

  module _ (a : last.run_status ≡ active) (c : last.cycle_count < last.max_cycles) where
    commit_end-Trail :
        (body : Run) (entry : Option Entry) (between : Audit.Log) (r : Result Audit.Log)
        → v.change last.payload ≡ ok body
        → is_unknown body.run_status ≡ false
        → v.entry (stamped w v.request last.payload body) ≡ ok entry
        → Gains w.audit entry d.audit_log between
        → log_end w (stamped w v.request last.payload body) between ≡ r
        → Trail w v d rs last (
            commit_end w
              (stamped w v.request last.payload body)
              (record d { audit_log = between })
              r)
    unfolding commit_end stamped
    commit_end-Trail body entry between (err x) b k asked g q = refuses x refl refl
    commit_end-Trail body entry between (ok log) b k asked g q =
        let next = stamped w v.request last.payload body in
        let (r, adds) =
          write_event-Adds w v.run_id rs next (record d { audit_log = log }) e (omega arith) in
        commits body entry between a c b r adds asked g
          (rw (written-log next log _ r) (log_end-Ends w next between log k q))

    commit_logged-Trail :
        (body : Run) (entry : Option Entry) (r : Result Audit.Log)
        → v.change last.payload ≡ ok body
        → is_unknown body.run_status ≡ false
        → v.entry (stamped w v.request last.payload body) ≡ ok entry
        → log_entry w entry d.audit_log ≡ r
        → Trail w v d rs last (commit_logged w (stamped w v.request last.payload body) d r)
    unfolding commit_logged
    commit_logged-Trail body entry (err x) b k asked q = refuses x refl refl
    commit_logged-Trail body entry (ok log) b k asked q =
        commit_end-Trail body entry log _ b k asked (log_entry-Gains w entry d.audit_log log q) refl

    commit_entry-Trail :
        (body : Run) (r : Result (Option Entry))
        → v.change last.payload ≡ ok body
        → is_unknown body.run_status ≡ false
        → v.entry (stamped w v.request last.payload body) ≡ r
        → Trail w v d rs last (commit_entry w (stamped w v.request last.payload body) d r)
    unfolding commit_entry
    commit_entry-Trail body (err x) b k q = refuses x refl refl
    commit_entry-Trail body (ok entry) b k q = commit_logged-Trail body entry _ b k q refl

    after_change-Trail :
        (r : Result Run)
        → v.change last.payload ≡ r
        → Trail w v d rs last (after_change w v last.payload d r)
    unfolding after_change commit
    after_change-Trail (err x) b = refuses x refl refl
    after_change-Trail (ok body) b =
        if_ind (Trail w v d rs last) (is_unknown body.run_status) _ _
          (λ bad. refuses unknown_run_status refl refl) (λ k. commit_entry-Trail body _ b k refl)

  fresh-Trail : Trail w v d rs last (fresh w v last.payload d)
  unfolding fresh stop_run out_of_cycles
  fresh-Trail =
      if_ind (Trail w v d rs last) (not (is_active last.run_status)) _ _
        (λ ended. refuses run_is_terminal refl refl)
        (λ a.
          if_ind (Trail w v d rs last) (leb last.max_cycles last.cycle_count) _ _
            (λ spent. stop_end-Trail _ refl (leb→le last.max_cycles last.cycle_count spent))
            (λ left.
              after_change-Trail (is_active→eq last.run_status (ground (arith, a)))
                (leb→lt last.max_cycles last.cycle_count left) _ refl))

  answer-Trail :
      (r : Option Row)
      → find_first (same_request v.request_id) rs ≡ r
      → Trail w v d rs last (answer w v d last r)
  unfolding answer
  answer-Trail none n = fresh-Trail
  answer-Trail (some prior) n =
      if_ind (Trail w v d rs last) (same_mutation v.request prior) _ _
        (λ same. replays prior n same refl) (λ another. refuses request_id_reused refl refl)

-- On a file that reads as `rs` with last state `last`, no state is written without its entries in the audit
-- log. `mutate` raises and leaves the run's file as it was; or answers a repeated request and leaves
-- the disk as it was; or ends a run at its cycle limit, and the log gained the entry of that end and
-- nothing else; or adds the line of what the change made of an active run below its limit, and the
-- log gained the entry that the verb asks for, if it asks for one, and then, where the new state is
-- terminal, the entry of its end, written by the runtime, and nothing else.
pub mutate-Trail :
    (w : World) (v : Verb) (d : Disk) (rs : List Row) (last : Row)
    → read_events w v.run_id d.file ≡ ok rs
    → last? rs ≡ some last
    → Trail w v d rs last (mutate w v d)
unfolding mutate
mutate-Trail w v d rs last e l =
    let s : last.seq ≡ length rs = omega (
      arith,
      (Linked-last w 1 none rs last (read_events→Reads w v.run_id d.file rs e).linked l).0,
    ) in
    if_ind (Trail w v d rs last) w.lock_acquired _ _
      (λ held.
        rw (e, on_events, l, on_last)
          (answer-Trail w v d rs last e s (find_first (same_request v.request_id) rs) refl))
      (λ timeout. refuses lock_timeout refl refl)
