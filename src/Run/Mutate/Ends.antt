-- ===== src/Run/Mutate/Ends.antt =====
-- The entries that a mutation owes to the audit log.
use Prim.Native.String.{◌++◌ as ◌<>◌}
use my_org.Common.{
  String, ◌≡◌, refl, sym, ◌∙◌, inl, inr, true, false, Option, none, some, arith, Bool-cases,
}
use my_org.Result.{ok, ok-injective}
use my_org.Audit
use my_org.Audit.{Entry, Host, Approval, not_required}
use my_org.Run.{RunStatus, active, is_active, is_terminal_run, Payload}
use my_org.Run.World.{World}
use my_org.Run.Mutate.{status_text, terminal_entry, record_terminal, log_entry, log_end, is_unknown}

-- A log that gained an entry, where there is one.
pub data Gains (h : Host) : Option Entry → Audit.Log → Audit.Log → Type 0 where
  nothing : {log log' : Audit.Log} → log' ≡ log → Gains h none log log'
  one :
      {e : Entry} {log log' : Audit.Log}
      → Audit.append h e log ≡ ok log'
      → Gains h (some e) log log'

-- The entry of a run's end.
pub record IsEnd (w : World) (id : String) (status : RunStatus) (e : Entry) : Type 0 where
  pub by_runtime : e.actor ≡ "runtime"
  pub action : e.action ≡ "run." <> status_text status
  pub target : e.target ≡ id
  pub evidence : e.evidence ≡ w.run_file id
  pub approval : e.approval ≡ not_required

-- A log that gained the entry of a run's end, where the run has ended.
pub data Ends (w : World) (id : String) (status : RunStatus) (log log' : Audit.Log) : Type 0 where
  going_on : status ≡ active → log' ≡ log → Ends w id status log log'
  over :
      (e : Entry)
      → is_terminal_run status ≡ true
      → IsEnd w id status e
      → Audit.append w.audit e log ≡ ok log'
      → Ends w id status log log'

pub is_active→eq : (s : RunStatus) → is_active s ≡ true → s ≡ active
is_active→eq active h = refl
is_active→eq _ h = cc

terminal-IsEnd :
    (w : World) (id : String) (status : RunStatus) → IsEnd w id status (terminal_entry w id status)
unfolding terminal_entry
terminal-IsEnd w id status = record {
  by_runtime = refl;
  action = refl;
  target = refl;
  evidence = refl;
  approval = refl;
}

pub log_entry-Gains :
    (w : World) (e : Option Entry) (log log' : Audit.Log)
    → log_entry w e log ≡ ok log'
    → Gains w.audit e log log'
unfolding log_entry
log_entry-Gains w none log log' h = nothing (sym (ok-injective log log' h))
log_entry-Gains w (some e) log log' h = one h

pub record_terminal-Ends :
    (w : World) (id : String) (status : RunStatus) (log log' : Audit.Log)
    → is_terminal_run status ≡ true
    → record_terminal w id status log ≡ ok log'
    → Ends w id status log log'
unfolding record_terminal
record_terminal-Ends w id status log log' t h =
    over (terminal_entry w id status) t (terminal-IsEnd w id status) h

pub log_end-Ends :
    (w : World) (next : Payload) (log log' : Audit.Log)
    → is_unknown next.run_status ≡ false
    → log_end w next log ≡ ok log'
    → Ends w next.run_id next.run_status log log'
unfolding log_end
log_end-Ends w next log log' k h = elim (Bool-cases (is_terminal_run next.run_status)) [
  | inl t ↦ record_terminal-Ends w next.run_id next.run_status log log' t (sym (rw t refl) ∙ h)
  | inr n ↦
      going_on (is_active→eq next.run_status (ground (arith, k, n)))
        (sym (ok-injective log log' (sym (rw n refl) ∙ h)))
]
