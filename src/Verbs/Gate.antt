-- ===== src/Verbs/Gate.antt =====
-- What the gate of runtime/run_verbs.py leaves in the audit log, and what it never lets through.
use Prim.Native.String.{◌++◌ as ◌<>◌}
use my_org.Common.{
  String, ◌≡◌, refl, sym, ap, ◌∙◌, true, false, Option, none, some, List, arith, ◌==◌, leb, last?,
  find_first, if_ind,
}
use mathlib.Core.Path.{subst}
use my_org.Result.{
  ok, >>=-eq-ok, ok-injective, refuse->>, require->>, approval_ref_required, found, found-eq-ok,
  key_error, not_step_owner, not_awaiting_approval, step_not_ready,
}
use my_org.Audit
use my_org.Audit.{
  Entry, Host, Risk, other, granted, success, is_category, validate, append, Approval,
}
use my_org.Steps.{Step, Steps, get, put, is_ready, is_awaiting_approval}
use my_org.Steps.Laws.{get-put_self}
use my_org.Run.{is_active, is_terminal_run, Run, RunStatus, Payload, Row}
use my_org.Run.World.{World}
use my_org.Run.Log.{read_events}
use my_org.Run.Claims.{mint_claim}
use my_org.Run.Mutate.{Disk, stamped, log_entry, log_end, same_request, mutate}
use my_org.Run.Mutate.Audited.{Audited, mutate-Logged}
use my_org.Verbs.{Args, or_default, attribution, gate_entry}
use my_org.Verbs.Life.{
  requested, dispatched, request_change, request_note, request_entry, request_step, buy_more,
  approve_change, approve_entry, approve,
}
use my_org.Verbs.Invariant.Moves.{on_step}

-- An approval leaves the run's status as it was.
approve_change-run_status :
    (w : World) (a : Args) (ref : String) (s : Payload) (r : Run)
    → approve_change w a ref s ≡ ok r
    → r.run_status ≡ s.run_status
unfolding approve_change buy_more
approve_change-run_status w a ref s r e =
    on_step is_awaiting_approval not_awaiting_approval a.step s.steps _ e λ step at_key waits e1.
      let (named, e2) = refuse->> (w.strip ref == "") approval_ref_required _ e1 in
      subst (λ (x : Run). x.run_status ≡ s.run_status) (ok-injective _ r e2)
        (if_ind (λ (x : Run). x.run_status ≡ s.run_status) (step.held_kind == "budget") _ _
          (λ _. refl) (λ _. refl))

active-not_terminal : (x : RunStatus) → is_active x ≡ true → is_terminal_run x ≡ false
active-not_terminal x h = ground arith

log_end-active :
    (w : World) (s : Payload) (log log' : Audit.Log)
    → is_active s.run_status ≡ true
    → log_end w s log ≡ ok log'
    → log ≡ log'
unfolding log_end
log_end-active w s log log' a h =
    let q : log_end w s log ≡ ok log = rw (active-not_terminal s.run_status a, log_end) refl in
    ok-injective log log' (sym q ∙ h)

approve_entry-granted :
    (w : World) (a : Args) (actor_id : Option String) (ref : String) (s : Payload)
    (o : Option Entry)
    → approve_entry w a actor_id ref s ≡ ok o
    → (e : Entry) × (o ≡ some e) × (e.approval ≡ granted) × (e.actor ≡ a.actor)
unfolding approve_entry gate_entry
approve_entry-granted w a actor_id ref s o h =
    let (step, g, k) = >>=-eq-ok (found (get a.step s.steps) key_error) _ h in
    (
      gate_entry w a step granted success
          (attribution w s.body a.actor actor_id <> (" against reference " <> ref)),
      sym (ok-injective _ o k),
      refl,
      refl,
    )

-- What a log gained by one entry that records a grant by `actor`.
abbrev pub Granted : World → String → Audit.Log → Audit.Log → Type 0
Granted w actor log log' =
    (e : Entry) × (e.approval ≡ granted)
    × (e.actor ≡ actor)
    × (Audit.append w.audit e log ≡ ok log')

Audited-Granted :
    (w : World) (a : Args) (actor_id : Option String) (ref : String) (next : Payload)
    (log log' : Audit.Log)
    → is_active next.run_status ≡ true
    → Audited w (approve w a actor_id ref) next log log'
    → Granted w a.actor log log'
unfolding approve log_entry
Audited-Granted w a actor_id ref next log log' act h =
    let (e, one, g, by) = approve_entry-granted w a actor_id ref next h.entry h.asked in
    let gated : Audit.append w.audit e log ≡ ok h.between =
      subst (λ (o : Option Entry). log_entry w o log ≡ ok h.between) one h.gated in
    (e, g, by, gated ∙ ap ok (log_end-active w next h.between log' act h.ended))

-- An approval that succeeds on a new request and a file that reads has appended one entry to the
-- audit log and nothing else: a grant by the approver.
pub approve-Granted :
    (w : World) (a : Args) (actor_id : Option String) (ref : String) (d d' : Disk) (rs : List Row)
    (last r : Row)
    → read_events w a.run_id d.file ≡ ok rs
    → last? rs ≡ some last
    → find_first (same_request a.request_id) rs ≡ none
    → mutate w (approve w a actor_id ref) d ≡ (ok r, d')
    → Granted w a.actor d.audit_log d'.audit_log
unfolding approve stamped
approve-Granted w a actor_id ref d d' rs last r e l n h =
    let (act, body, b, logged) =
      mutate-Logged w (approve w a actor_id ref) d d' rs last r e l n h in
    Audited-Granted w a actor_id ref _ _ _
      (rw (approve_change-run_status w a ref last.payload body b) act) logged

-- The audit log refuses a category that it does not know.
append-unknown_category :
    (h : Host) (e : Entry) (log log' : Audit.Log)
    → is_category e.category ≡ false
    → append h e log ≡ ok log'
    → ⊥
unfolding append validate
append-unknown_category h e log log' bad k = ground arith

put-risk :
    (key : String) (m : Steps) (step step' t : Step)
    → get key m ≡ some step
    → step'.risk ≡ step.risk
    → get key (put key step' m) ≡ some t
    → t.risk ≡ step.risk
put-risk key m step step' t g same e =
    let q : some step' ≡ some t = sym (get-put_self key step' step m g) ∙ e in
    ground (arith, q, same)

-- A dispatch keeps the step's risk, which its audit entry carries.
dispatched-risk :
    (w : World) (s : Payload) (step t : Step) (key holder : String)
    → get key s.steps ≡ some step
    → get key (dispatched w s step key holder).steps ≡ some t
    → t.risk ≡ step.risk
unfolding dispatched mint_claim
dispatched-risk w s step t key holder g =
    if_ind (λ (r : Run). get key r.steps ≡ some t → t.risk ≡ step.risk)
      (leb step.max_attempts step.attempts) _ _ (λ _ e. put-risk key s.steps step _ t g refl e)
      (λ _ e. put-risk key s.steps step _ t g refl e)

-- What a request makes of a step whose risk word is not in the policy's three.
request_change-other :
    (w : World) (a : Args) (holder : Option String) (s : Payload) (r : Run) (step t : Step)
    (word : String)
    → get a.step s.steps ≡ some step
    → step.risk ≡ other word
    → request_change w a holder s ≡ ok r
    → get a.step r.steps ≡ some t
    → t.risk ≡ other word
unfolding request_change requested
request_change-other w a holder s r step t word g o e h =
    on_step is_ready step_not_ready a.step s.steps _ e λ step' at_key ready e1.
      let same : step' ≡ step = ground (arith, g, at_key) in
      let o' : step'.risk ≡ other word = ap (λ (x : Step). x.risk) same ∙ o in
      let k = ok-injective _ r (require->> (a.actor == step'.owner) not_step_owner _ e1).1 in
      let d : dispatched w s step' a.step (or_default holder a.actor) ≡ r =
        subst (λ (x : Risk). requested w s step' a.step (or_default holder a.actor) x ≡ r) o' k in
      dispatched-risk w s step' t a.step (or_default holder a.actor) at_key
        (subst (λ (x : Run). get a.step x.steps ≡ some t) (sym d) h)
      ∙ o'

request_note-other :
    (w : World) (a : Args) (step : Step) (x : Risk) (word : String) (log log' : Audit.Log)
    → x ≡ other word
    → step.risk ≡ other word
    → log_entry w (request_note w a step x) log ≡ ok log'
    → ⊥
unfolding request_note log_entry gate_entry
request_note-other w a step x word log log' o p h =
    append-unknown_category w.audit _ log log' (rw p refl)
      (subst (λ (y : Risk). log_entry w (request_note w a step y) log ≡ ok log') o h)

-- A new request for a step whose risk word the policy's three classes do not hold does not succeed, since
-- the audit log refuses the entry.
pub request_step-not_ok :
    (w : World) (a : Args) (holder : Option String) (d d' : Disk) (rs : List Row) (last r : Row)
    (step : Step) (word : String)
    → read_events w a.run_id d.file ≡ ok rs
    → last? rs ≡ some last
    → find_first (same_request a.request_id) rs ≡ none
    → get a.step last.steps ≡ some step
    → step.risk ≡ other word
    → ¬ (mutate w (request_step w a holder) d ≡ (ok r, d'))
unfolding request_step request_entry stamped
request_step-not_ok w a holder d d' rs last r step word e l n g o h =
    let (act, body, b, logged) = mutate-Logged w (request_step w a holder) d d' rs last r e l n h in
    let (t, found_t, k) = >>=-eq-ok (found (get a.step body.steps) key_error) _ logged.asked in
    let at = found-eq-ok (get a.step body.steps) key_error found_t in
    let risk = request_change-other w a holder last.payload body step t word g o b at in
    request_note-other w a t t.risk word d.audit_log logged.between risk risk (
      subst (λ (x : Option Entry). log_entry w x d.audit_log ≡ ok logged.between)
        (sym (ok-injective _ logged.entry k)) logged.gated)
