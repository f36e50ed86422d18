-- ===== src/Triggers/Queue.antt =====
-- The table `trigger_intake` of runtime/db_triggers.py, and `enqueue` of runtime/triggers.py. A table
-- is the list of its rows by rowid; the text of a time sorts as the time does, which is in seconds.
pub mod Once
pub mod Places
use Prim.Native.String
use my_org.Common.{
  ℕ, zero, suc, ◌+◌, String, Bool, true, false, not, ◌&&◌, Option, none, some, List, [], ◌∷◌, ◌++◌,
  if◌then◌else◌, ◌==◌, leb, ltb, eqb, length, find_first, select, update, take, order_by,
}
use my_org.Result.{
  Result, ok, err, ◌>>=◌, ◌>>◌, found, require, refuse, key_error, queue_is_full, bad_settlement,
  already_settled,
}

-- The four outcomes that a settlement may name, and any other text.
pub data TriggerStatus : Type 0 where
  queued started failed withdrawn : TriggerStatus
  other : String → TriggerStatus

abbrev pub is_outcome : TriggerStatus → Bool
is_outcome (other text) = false
is_outcome _ = true

abbrev pub is_queued : TriggerStatus → Bool
is_queued queued = true
is_queued _ = false

pub record Intake : Type 0 where
  pub id : String
  pub org_id : String
  pub source : String
  pub source_ref : String
  pub goal : String
  pub status : TriggerStatus
  pub run_id : Option String
  pub attempts : ℕ
  pub last_error : Option String
  pub created_at : ℕ
  pub updated_at : ℕ

-- `WHERE org_id=? AND id=?`.
abbrev pub is_row : String → String → Intake → Bool
is_row org id t = t.org_id == org && t.id == id

unfoldable pub new_intake : ℕ → String → String → String → String → String → Intake
new_intake now org id source source_ref goal = record {
  id = id;
  org_id = org;
  source = source;
  source_ref = source_ref;
  goal = goal;
  status = queued;
  run_id = none;
  attempts = 0;
  last_error = none;
  created_at = now;
  updated_at = now;
}

-- What `enqueue_trigger` answers from a row that is there, or none: the row, whether it is new, and the table.
unfoldable pub enqueued : Intake → List Intake → Option Intake → Intake × Bool × List Intake
enqueued t rows (some prior) = (prior, false, rows)
enqueued t rows none = (t, true, rows ++ t ∷ [])

unfoldable pub enqueue_trigger :
    ℕ → String → String → String → String → String → List Intake → Intake × Bool × List Intake
unfolding enqueued new_intake
enqueue_trigger now org id source source_ref goal rows =
    enqueued (new_intake now org id source source_ref goal) rows (find_first (is_row org id) rows)

-- `WHERE org_id=? AND status='queued'`.
abbrev pub waits : String → Intake → Bool
waits org t = t.org_id == org && is_queued t.status

abbrev pub no_younger : Intake → Intake → Bool
no_younger t u = leb t.created_at u.created_at

-- `ORDER BY created_at, rowid LIMIT ?`.
unfoldable pub queued_triggers : String → ℕ → List Intake → List Intake
queued_triggers org limit rows = take limit (order_by no_younger (select (waits org) rows))

-- MAX_QUEUED_TRIGGERS.
abbrev pub max_queued : ℕ
max_queued = 50

unfoldable pub enqueue :
    ℕ
    → String
    → String
    → String
    → String
    → String
    → List Intake
    → Result (Intake × Bool × List Intake)
unfolding queued_triggers enqueue_trigger
enqueue now org id source source_ref goal rows = do
  refuse (ltb max_queued (length (queued_triggers org (max_queued + 1) rows))) queue_is_full
  ok (enqueue_trigger now org id source source_ref goal rows)

-- `text[:n]`.
abbrev pub cut : ℕ → String → String
cut zero s = String.[]
cut (suc n) String.[] = String.[]
cut (suc n) (String.◌∷◌ c s) = String.◌∷◌ c (cut n s)

-- `(error or "")[:512] or None`.
unfoldable pub clipped : Option String → Option String
clipped none = none
clipped (some text) = if cut 512 text == "" then none else some (cut 512 text)

-- The row that an UPDATE of a settlement leaves.
unfoldable pub settled : ℕ → TriggerStatus → Option String → Option String → Bool → Intake → Intake
unfolding clipped
settled now status run_id error count_attempt t = record t {
  status = status;
  run_id = run_id;
  last_error = clipped error;
  attempts = t.attempts + (if count_attempt then 1 else 0);
  updated_at = now;
}

-- `WHERE org_id=? AND id=? AND status='queued'`.
abbrev pub open_row : String → String → Intake → Bool
open_row org id t = is_row org id t && is_queued t.status

unfoldable pub settle_trigger :
    ℕ
    → String
    → String
    → TriggerStatus
    → Option String
    → Option String
    → Bool
    → List Intake
    → Result (Intake × List Intake)
unfolding settled
settle_trigger now org id status run_id error count_attempt rows = do
  require (is_outcome status) bad_settlement
  let done = update (open_row org id) (settled now status run_id error count_attempt) rows
  require (eqb (length (select (open_row org id) rows)) 1) already_settled
  row ← found (find_first (is_row org id) done) key_error
  ok (row, done)
