-- ===== src/Notices.antt =====
-- runtime/notify.py: the outbox of what a person needs to know. The outbox is the list of its lines, each
-- a whole notice, since only `append` writes them; its lock is taken as acquired.
pub mod Once
pub mod Unique
pub mod Told
use Prim.Native.String.{◌++◌ as ◌<>◌}
use my_org.Common.{
  ℕ, ◌+◌, String, Bool, true, false, not, ◌&&◌, ◌||◌, Option, none, some, List, [], ◌∷◌, ◌++◌,
  if◌then◌else◌, ◌==◌, leb, ltb, eqb, find_first, select, order_by,
}
use my_org.Triggers.Queue.{cut}

pub data Kind : Type 0 where
  needs_approval run_failed run_stalled lesson_proposed idea_failed idea_stuck run_completed
        call_approval call_unresolved smoke_test :
      Kind

abbrev pub kind_text : Kind → String
kind_text needs_approval = "needs_approval"
kind_text run_failed = "run_failed"
kind_text run_stalled = "run_stalled"
kind_text lesson_proposed = "lesson_proposed"
kind_text idea_failed = "idea_failed"
kind_text idea_stuck = "idea_stuck"
kind_text run_completed = "run_completed"
kind_text call_approval = "call_approval"
kind_text call_unresolved = "call_unresolved"
kind_text smoke_test = "smoke_test"

pub data Severity : Type 0 where
  blocking attention routine : Severity

unfoldable pub severity_of : Kind → Severity
severity_of needs_approval = blocking
severity_of run_failed = blocking
severity_of idea_failed = blocking
severity_of call_approval = blocking
severity_of call_unresolved = blocking
severity_of run_stalled = attention
severity_of idea_stuck = attention
severity_of lesson_proposed = routine
severity_of run_completed = routine
severity_of smoke_test = routine

pub record Notice : Type 0 where
  pub id : String
  pub kind : Kind
  pub severity : Severity
  pub org_id : String
  pub subject : String
  pub detail : String
  pub action : String
  pub run_id : String
  pub step_id : String
  pub created_at : ℕ
  pub delivered : Bool
  pub attempts : ℕ
  pub last_error : String

-- `"-".join(part for part in parts if part)`.
abbrev pub joined : List String → String
joined [] = ""
joined (part ∷ []) = part
joined (part ∷ next ∷ parts) = part <> ("-" <> joined (next ∷ parts))

abbrev pub given : List String → List String
given parts = select (λ part. not (part == "")) parts

unfoldable pub notice_id : Kind → String → String → String
notice_id kind run_id step_id = joined (given (kind_text kind ∷ run_id ∷ step_id ∷ []))

-- `latest[record["id"]] = record`: in place, or at the end.
abbrev pub set_notice : Notice → List Notice → List Notice
set_notice n [] = n ∷ []
set_notice n (m ∷ ms) = let rest = set_notice n ms in if m.id == n.id then n ∷ ms else m ∷ rest

-- The loop over the lines.
unfoldable pub read_notices : List Notice → List Notice → List Notice
read_notices latest [] = latest
read_notices latest (line ∷ lines) = read_notices (set_notice line latest) lines

unfoldable pub read_all : List Notice → List Notice
unfolding read_notices
read_all outbox = read_notices [] outbox

abbrev pub append : Notice → List Notice → List Notice
append n outbox = outbox ++ n ∷ []

abbrev pub is_notice : String → Notice → Bool
is_notice id n = n.id == id

-- What is told, and to whom: the arguments of `raise_notice`, its organization with its default.
pub record Fact : Type 0 where
  pub kind : Kind
  pub subject : String
  pub detail : String
  pub action : String
  pub org_id : String
  pub run_id : String
  pub step_id : String

unfoldable pub new_notice : ℕ → Fact → Notice
unfolding notice_id severity_of
new_notice now f = record {
  id = notice_id f.kind f.run_id f.step_id;
  kind = f.kind;
  severity = severity_of f.kind;
  org_id = f.org_id;
  subject = f.subject;
  detail = f.detail;
  action = f.action;
  run_id = f.run_id;
  step_id = f.step_id;
  created_at = now;
  delivered = false;
  attempts = 0;
  last_error = "";
}

abbrev pub is_same_fact : Fact → Notice → Bool
is_same_fact f prior = prior.subject == f.subject && prior.detail == f.detail

unfoldable pub raised_after : ℕ → Fact → List Notice → Option Notice → Option Notice × List Notice
unfolding new_notice
raised_after now f outbox none = (some (new_notice now f), append (new_notice now f) outbox)
raised_after now f outbox (some prior) =
    if not prior.delivered || is_same_fact f prior
    then (none, outbox)
    else (some (new_notice now f), append (new_notice now f) outbox)

-- The notice that was written, if one was, and the outbox.
unfoldable pub raise_notice : ℕ → Fact → List Notice → Option Notice × List Notice
unfolding raised_after read_all notice_id
raise_notice now f outbox =
    raised_after now f outbox
      (find_first (is_notice (notice_id f.kind f.run_id f.step_id)) (read_all outbox))

abbrev pub delivered_line : List Notice → Option Notice → List Notice
delivered_line outbox none = outbox
delivered_line outbox (some n) = append (record n { delivered = true }) outbox

unfoldable pub mark_delivered : String → List Notice → List Notice
unfolding read_all
mark_delivered id outbox = delivered_line outbox (find_first (is_notice id) (read_all outbox))

abbrev pub weight : Severity → ℕ
weight blocking = 0
weight attention = 1
weight routine = 2

-- `key=lambda n: (order[n.severity], n.created_at)`.
abbrev pub is_more_urgent : Notice → Notice → Bool
is_more_urgent m n =
    ltb (weight m.severity) (weight n.severity)
    || (eqb (weight m.severity) (weight n.severity) && leb m.created_at n.created_at)

unfoldable pub outstanding : List Notice → List Notice
unfolding read_all
outstanding outbox =
    order_by is_more_urgent (select (λ (n : Notice). not n.delivered) (read_all outbox))

unfoldable pub record_failure : Notice → String → List Notice → List Notice
record_failure n error outbox =
    append (record n { attempts = n.attempts + 1; last_error = cut 400 error }) outbox

-- The command that the operator wired up, with what `describe` says of its failure, or none where it
-- accepts the notice.
abbrev pub Command : Type 0
Command = Notice → Option String

unfoldable pub handed_over : Notice → Option String → List Notice → Bool × List Notice
unfolding record_failure mark_delivered
handed_over n (some error) outbox = (false, record_failure n error outbox)
handed_over n none outbox = (true, mark_delivered n.id outbox)

-- The loop over the notices that were outstanding.
unfoldable pub deliver_each : Command → List Notice → List Notice → List Notice × List Notice
unfolding handed_over
deliver_each command [] outbox = ([], outbox)
deliver_each command (n ∷ ns) outbox =
    let (accepted, after) = handed_over n (command n) outbox in
    let (sent, end) = deliver_each command ns after in ((if accepted then n ∷ sent else sent), end)

unfoldable pub deliver : Option Command → List Notice → List Notice × List Notice
unfolding deliver_each outstanding
deliver none outbox = (outstanding outbox, outbox)
deliver (some command) outbox = deliver_each command (outstanding outbox) outbox
