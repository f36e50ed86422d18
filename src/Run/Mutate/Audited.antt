-- ===== src/Run/Mutate/Audited.antt =====
-- The audit log and the run's file: what must be written before a new state is.
use my_org.Common.{
  ◌≡◌, refl, sym, ap, ◌∙◌, Bool, true, false, not, Option, none, some, List, arith, leb, last?,
  find_first, if◌then◌else◌,
}
use my_org.Result.{Result, ok, err, Error}
use my_org.Audit
use my_org.Audit.{Entry}
use my_org.Run.{is_active, Run, Payload, Row}
use my_org.Run.World.{World}
use my_org.Run.Log.{read_events}
use my_org.Run.Mutate.{
  Disk, Verb, Outcome, write_event, stamped, log_entry, log_end, commit_end, commit_logged,
  commit_entry, is_unknown, commit, after_change, raising, stop_end, stop_run, fresh, same_request,
  answer, on_last, on_events, mutate,
}

-- The audit log went from one to the other by the verb's entry, and by the run's end where it ended.
pub record Audited (w : World) (v : Verb) (next : Payload) (log log' : Audit.Log) : Type 0 where
  pub entry : Option Entry
  pub between : Audit.Log
  pub asked : v.entry next ≡ ok entry
  pub gated : log_entry w entry log ≡ ok between
  pub ended : log_end w next between ≡ ok log'

pub write_event-log :
    (w : World) (next : Payload) (d d' : Disk) (r : Row)
    → write_event w next d ≡ (ok r, d')
    → d'.audit_log ≡ d.audit_log
unfolding write_event
write_event-log w next d d' r e = ground (arith, e)

raising-not_ok : (x : Error) (o : Outcome) {r : Row} {d : Disk} → ¬ (raising x o ≡ (ok r, d))
raising-not_ok x (ok line, d) h = cc
raising-not_ok x (err y, d) h = cc

module _ (w : World) (v : Verb) (next : Payload) (d d' : Disk) (r : Row) where
  commit_end-log :
      (d'' : Disk) (x : Result Audit.Log)
      → commit_end w next d'' x ≡ (ok r, d')
      → x ≡ ok d'.audit_log
  unfolding commit_end
  commit_end-log d'' (err y) h = cc
  commit_end-log d'' (ok log) h = ap ok (sym (write_event-log w next _ d' r h))

  commit_logged-log :
      (x : Result Audit.Log)
      → commit_logged w next d x ≡ (ok r, d')
      → (log : Audit.Log) × (x ≡ ok log) × (log_end w next log ≡ ok d'.audit_log)
  unfolding commit_logged
  commit_logged-log (err y) h = cc
  commit_logged-log (ok log) h = (log, refl, commit_end-log _ _ h)

  commit_entry-Audited :
      (x : Result (Option Entry))
      → v.entry next ≡ x
      → commit_entry w next d x ≡ (ok r, d')
      → Audited w v next d.audit_log d'.audit_log
  unfolding commit_entry
  commit_entry-Audited (err y) a h = cc
  commit_entry-Audited (ok entry) a h =
      let (log, g, k) = commit_logged-log _ h in
      record { entry = entry; between = log; asked = a; gated = g; ended = k }

-- The state was changed by the verb, and what the audit log gained goes with it.
abbrev pub Logged : World → Verb → Row → Disk → Disk → Type 0
Logged w v last d d' =
    (is_active last.run_status ≡ true)
    × (body : Run) × (v.change last.payload ≡ ok body)
    × Audited w v (stamped w v.request last.payload body) d.audit_log d'.audit_log

-- A guard that raises, passed by a mutation that succeeded.
past_guard :
    {r : Row} {d' : Disk} (b : Bool) (x : Error) (d : Disk) (o : Outcome)
    → (if b then (err x, d) else o) ≡ (ok r, d')
    → (b ≡ false) × (o ≡ (ok r, d'))
past_guard true x d o h = cc
past_guard false x d o h = (refl, h)

past_test :
    {r : Row} {d' : Disk} (b : Bool) (x : Error) (d : Disk) (o : Outcome)
    → (if b then o else (err x, d)) ≡ (ok r, d')
    → (b ≡ true) × (o ≡ (ok r, d'))
past_test true x d o h = (refl, h)
past_test false x d o h = cc

past_choice : (b : Bool) (x y z : Outcome) → (x ≡ z → ⊥) → (if b then x else y) ≡ z → y ≡ z
past_choice true x y z never h = absurd (never h)
past_choice false x y z never h = h

not-false : (b : Bool) → not b ≡ false → b ≡ true
not-false true h = refl
not-false false h = cc

module _ (w : World) (v : Verb) (last : Row) (d d' : Disk) (r : Row) where
  after_change-Logged :
      (x : Result Run)
      → v.change last.payload ≡ x
      → is_active last.run_status ≡ true
      → after_change w v last.payload d x ≡ (ok r, d')
      → Logged w v last d d'
  unfolding after_change commit
  after_change-Logged (err y) b a h = cc
  after_change-Logged (ok body) b a h =
      let (k, h') = past_guard (is_unknown body.run_status) _ _ _ h in
      (a, body, b, commit_entry-Audited w v _ d d' r _ refl h')

  stop_end-not_ok : (next : Payload) (x : Result Audit.Log) → stop_end w next d x ≡ (ok r, d') → ⊥
  unfolding stop_end
  stop_end-not_ok next (err y) h = cc
  stop_end-not_ok next (ok log) h = raising-not_ok _ _ h

  fresh-Logged : fresh w v last.payload d ≡ (ok r, d') → Logged w v last d d'
  unfolding fresh stop_run
  fresh-Logged h =
      let (a, h') = past_guard (not (is_active last.run_status)) _ _ _ h in
      after_change-Logged (v.change last.payload) refl (not-false _ a)
        (past_choice (leb last.max_cycles last.cycle_count) _ _ _ (stop_end-not_ok _ _) h')

-- A mutation that answers a new request on a file that reads: the verb's change was made of the last
-- state, the entry that the verb asks for was appended to the audit log, and then the entry of the
-- run's end where the new state is terminal; the log holds these and nothing else.
pub mutate-Logged :
    (w : World) (v : Verb) (d d' : Disk) (rs : List Row) (last r : Row)
    → read_events w v.run_id d.file ≡ ok rs
    → last? rs ≡ some last
    → find_first (same_request v.request_id) rs ≡ none
    → mutate w v d ≡ (ok r, d')
    → Logged w v last d d'
unfolding mutate
mutate-Logged w v d d' rs last r e l n h =
    let (held, h') = past_test w.lock_acquired _ _ _ h in
    let q : on_events w v d (read_events w v.run_id d.file) ≡ fresh w v last.payload d =
      rw (e, on_events, l, on_last, n, answer) refl in
    fresh-Logged w v last d d' r (sym q ∙ h')
