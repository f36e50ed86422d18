-- ===== src/Triggers/Schedules.antt =====
-- `next_fire`, `intake_id` and `fire_due_schedules` of runtime/triggers.py over the table `schedules`
-- of runtime/db_triggers.py. A moment is in microseconds since the epoch; a stored time is in
-- seconds, to which `stamp` cuts it.
pub mod Clock
pub mod Claims
use Prim.Native.Nat.{◌/◌}
use Prim.Native.String.{◌++◌ as ◌<>◌}
use my_org.Common.{
  ℕ, ◌+◌, ◌-◌, ◌*◌, String, Bool, true, false, not, ◌&&◌, ◌||◌, Option, none, some, List, [], ◌∷◌,
  ◌++◌, if◌then◌else◌, ◌==◌, leb, ltb, eqb, length, codes, select, update, order_by, text_before,
}
use my_org.Result.{
  Result, ok, err, Error, ◌>>=◌, ◌>>◌, found, require, short_interval, bad_time_of_day,
  unknown_schedule_kind,
}
use my_org.Triggers.Queue.{Intake, cut, enqueue}

pub data ScheduleKind : Type 0 where
  interval daily : ScheduleKind
  other : String → ScheduleKind

pub record Schedule : Type 0 where
  pub id : String
  pub org_id : String
  pub kind : ScheduleKind
  pub interval_seconds : Option ℕ
  pub daily_at : Option String
  pub goal : String
  pub enabled : Bool
  pub next_fire_at : ℕ
  pub last_fire_at : Option ℕ
  pub updated_at : ℕ

abbrev pub second : ℕ
second = 1000000

abbrev pub day : ℕ
day = 86400000000

-- `stamp` of a moment, and `parse` of a stored time.
abbrev pub stamp : ℕ → ℕ
stamp moment = moment / second

abbrev pub parse : ℕ → ℕ
parse stored = stored * second

abbrev is_digit_to : ℕ → ℕ → Bool
is_digit_to top c = leb b'0' c && leb c top

-- `([01][0-9]|2[0-3]):[0-5][0-9]`, and the seconds of the day that it names.
abbrev pub read_time : List ℕ → Option ℕ
read_time (h ∷ k ∷ c ∷ m ∷ n ∷ []) =
    if ((is_digit_to b'1' h && is_digit_to b'9' k) || (eqb h b'2' && is_digit_to b'3' k))
      && (eqb c b':' && (is_digit_to b'5' m && is_digit_to b'9' n))
    then some (((h - b'0') * 10 + (k - b'0')) * 3600 + ((m - b'0') * 10 + (n - b'0')) * 60)
    else none
read_time _ = none

unfoldable pub time_of_day : Option String → Option ℕ
time_of_day none = none
time_of_day (some text) = read_time (codes text)

-- `not interval_seconds or interval_seconds < 60`.
abbrev pub is_short : Option ℕ → Bool
is_short none = true
is_short (some s) = ltb s 60

abbrev pub seconds_of : Option ℕ → ℕ
seconds_of none = 0
seconds_of (some s) = s

-- `after.replace(hour=.., minute=.., second=0, microsecond=0)`.
abbrev pub same_day : ℕ → ℕ → ℕ
same_day after time = (after / day) * day + time * second

unfoldable pub next_fire : ScheduleKind → ℕ → Option ℕ → Option String → Result ℕ
unfolding time_of_day
next_fire interval after interval_seconds daily_at = do
  require (not (is_short interval_seconds)) short_interval
  ok (after + seconds_of interval_seconds * second)
next_fire daily after interval_seconds daily_at = do
  time ← found (time_of_day daily_at) bad_time_of_day
  let candidate = same_day after time
  ok (if ltb after candidate then candidate else candidate + day)
next_fire (other kind) after interval_seconds daily_at = err unknown_schedule_kind

-- What the pass takes from outside: the store's clock, the text of a stored time, and sha256.
pub record Host : Type 0 where
  pub clock : ℕ
  pub time_text : ℕ → String
  pub sha256 : String → String

unfoldable pub intake_id : Host → String → String → String
intake_id host source source_ref = "tg-" <> cut 24 (host.sha256 (source <> (":" <> source_ref)))

pub record Tables : Type 0 where
  pub schedules : List Schedule
  pub intake : List Intake

abbrev pub id_before : Schedule → Schedule → Bool
id_before s t = text_before s.id t.id

unfoldable pub schedules_of : String → List Schedule → List Schedule
schedules_of org rows = order_by id_before (select (λ (s : Schedule). s.org_id == org) rows)

abbrev pub is_due : String → String → ℕ → Schedule → Bool
is_due org id fired_at s =
    (s.org_id == org && s.id == id) && (s.enabled && leb s.next_fire_at fired_at)

unfoldable pub advanced : ℕ → ℕ → ℕ → Schedule → Schedule
advanced clock fired_at next s = record s {
  next_fire_at = next;
  last_fire_at = some fired_at;
  updated_at = clock;
}

-- The claim, and the table after it.
unfoldable pub claim_due_schedule :
    ℕ → String → String → ℕ → ℕ → List Schedule → Bool × List Schedule
unfolding advanced
claim_due_schedule clock org id fired_at next rows = (
  eqb (length (select (is_due org id fired_at) rows)) 1,
  update (is_due org id fired_at) (advanced clock fired_at next) rows,
)

-- What was queued; a full queue is logged and passed over.
unfoldable pub queued_row : Tables → Result (Intake × Bool × List Intake) → List Intake × Tables
queued_row t (err x) = ([], t)
queued_row t (ok (row, created, rows)) =
    ((if created then row ∷ [] else []), record t { intake = rows })

unfoldable pub fire : Host → String → Schedule → Tables → List Intake × Tables
unfolding intake_id queued_row
fire host org s t = queued_row t (
    enqueue host.clock org
      (intake_id host "schedule" (s.id <> (":" <> host.time_text s.next_fire_at))) "schedule" s.id
      s.goal t.intake)

unfoldable pub fire_claimed :
    Host → String → Schedule → Tables → Bool × List Schedule → List Intake × Tables
unfolding fire
fire_claimed host org s t (false, rows) = ([], record t { schedules = rows })
fire_claimed host org s t (true, rows) = fire host org s (record t { schedules = rows })

unfoldable pub fire_following :
    Host → String → ℕ → Schedule → Tables → Result ℕ → Result (List Intake) × Tables
unfolding fire_claimed claim_due_schedule
fire_following host org moment s t (err x) = (err x, t)
fire_following host org moment s t (ok following) =
    let (rows, u) =
      fire_claimed host org s t
        (claim_due_schedule host.clock org s.id (stamp moment) (stamp following) t.schedules) in
    (ok rows, u)

-- One turn of the loop.
unfoldable pub fire_one : Host → String → ℕ → Schedule → Tables → Result (List Intake) × Tables
unfolding fire_following
fire_one host org moment s t =
    if not s.enabled || ltb moment (parse s.next_fire_at)
    then (ok [], t)
    else fire_following host org moment s t (next_fire s.kind moment s.interval_seconds s.daily_at)

-- The rows of one turn before those of the rest.
unfoldable pub after_fired :
    List Intake → Result (List Intake) × Tables → Result (List Intake) × Tables
after_fired fired (err x, t) = (err x, t)
after_fired fired (ok rows, t) = (ok (fired ++ rows), t)

unfoldable pub then_fire :
    (Tables → Result (List Intake) × Tables)
    → Result (List Intake) × Tables
    → Result (List Intake) × Tables
unfolding after_fired
then_fire rest (err x, t) = (err x, t)
then_fire rest (ok fired, t) = after_fired fired (rest t)

unfoldable pub fire_each :
    Host → String → ℕ → List Schedule → Tables → Result (List Intake) × Tables
unfolding fire_one then_fire
fire_each host org moment [] t = (ok [], t)
fire_each host org moment (s ∷ ss) t =
    then_fire (fire_each host org moment ss) (fire_one host org moment s t)

unfoldable pub fire_due_schedules : Host → String → ℕ → Tables → Result (List Intake) × Tables
unfolding fire_each schedules_of
fire_due_schedules host org moment t = fire_each host org moment (schedules_of org t.schedules) t
