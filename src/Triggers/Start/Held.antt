-- ===== src/Triggers/Start/Held.antt =====
-- While a run is moving, a pass makes no new one.
use mathlib.Core.Path.{subst}
use my_org.Common.{
  not, String, ℕ, ◌≡◌, refl, sym, ap, ◌∙◌, Bool, true, Option, none, some, List, [], ◌∷◌, leb,
  if_ind, is_slug,
}
use my_org.Result.{Result, ok, err, Error, invalid_run_id}
use my_org.Run.{Line}
use my_org.Backends.{is_transient}
use my_org.Triggers.Queue.{TriggerStatus, queued, started, Intake, settle_trigger, queued_triggers}
use my_org.Triggers.Flight.{file_of, in_flight}
use my_org.Triggers.Start.{
  Company, Desk, Pass, max_trigger_attempts, run_id_for, mark, mark_started, is_caught, mark_failed,
  start_unless_busy, start_one, start_front, after_give_up, start_each, start_queued,
}

-- The runs' files and the audit log are as they were.
abbrev Untouched : Company → Company → Type 0
Untouched c d = (d.files ≡ c.files) × (d.audit_log ≡ c.audit_log)

mark-Untouched :
    (desk : Desk) (org : String) (i : Intake) (status : TriggerStatus)
    (run_id error : Option String) (count_attempt : Bool) (c : Company)
    → Untouched c (mark desk org i status run_id error count_attempt c)
unfolding mark
mark-Untouched desk org i status run_id error count_attempt c =
    elim (settle_trigger desk.now org i.id status run_id error count_attempt c.intake)
      as (λ (r : Result (Intake × List Intake)).
        Untouched c (elim r [ err x ↦ c | ok done ↦ record c { intake = done.1 } ])) [
          | err x ↦ (refl, refl)
          | ok done ↦ (refl, refl)
        ]

module _ (desk : Desk) (org : String) (c : Company) (run : String) (runs : List String)
    (busy : in_flight desk.world desk.now org c.files ≡ run ∷ runs) where
  mark_failed-Untouched :
      (i : Intake) (x : Error) (d : Company)
      → Untouched c d
      → Untouched c (mark_failed desk org i x d).1
  unfolding mark_failed
  mark_failed-Untouched i x d h =
      if_ind (λ (p : Pass). Untouched c p.1) (is_caught x) _ _
        (λ _.
          let (f, a) =
            mark-Untouched desk org i queued none (some (desk.message x))
              (not (is_transient desk.backend.lower (desk.message x))) d in
          (f ∙ h.0, a ∙ h.1))
        (λ _. h)

  mark_started-Untouched :
      (i : Intake) (d : Company) → Untouched c d → Untouched c (mark_started desk org i d).1
  unfolding mark_started
  mark_started-Untouched i d h =
      let (f, a) = mark-Untouched desk org i started (some (run_id_for i)) none true d in
      (f ∙ h.0, a ∙ h.1)

  start_one-Untouched :
      (i : Intake) (d : Company) (file : Option (List Line))
      → Untouched c d
      → Untouched c (start_one desk org i d file).1
  unfolding start_one start_unless_busy
  start_one-Untouched i d (some lines) h = mark_started-Untouched i d h
  start_one-Untouched i d none h =
      let busy' : in_flight desk.world desk.now org d.files ≡ run ∷ runs =
        ap (in_flight desk.world desk.now org) h.0 ∙ busy in
      subst (λ (rs : List String). Untouched c (start_unless_busy desk org i d rs).1) (sym busy') h

  start_front-Untouched :
      (i : Intake) (d : Company) → Untouched c d → Untouched c (start_front desk org i d).1
  unfolding start_front
  start_front-Untouched i d h =
      if_ind (λ (p : Pass). Untouched c p.1) (is_slug (run_id_for i)) _ _
        (λ _. start_one-Untouched i d (file_of (run_id_for i) d.files) h)
        (λ _. mark_failed-Untouched i invalid_run_id d h)

  after_give_up-Untouched :
      (rest : Company → Pass) (d : Company) (o : Result (Intake × List Intake))
      → ((e : Company) → Untouched c e → Untouched c (rest e).1)
      → Untouched c d
      → Untouched c (after_give_up rest d o).1
  unfolding after_give_up
  after_give_up-Untouched rest d (err x) f h = h
  after_give_up-Untouched rest d (ok (row, rows)) f h = f _ h

  start_each-Untouched :
      (queue : List Intake) (d : Company)
      → Untouched c d
      → Untouched c (start_each desk org queue d).1
  unfolding start_each
  start_each-Untouched [] d h = h
  start_each-Untouched (i ∷ queue) d h =
      if_ind (λ (p : Pass). Untouched c p.1) (leb max_trigger_attempts i.attempts) _ _
        (λ _.
          after_give_up-Untouched (start_each desk org queue) d _ (start_each-Untouched queue) h)
        (λ _. start_front-Untouched i d h)

-- While a run of the organization is moving, a pass writes to no run's file and leaves the audit log as it
-- was, whatever waits in the queue: at most it adopts a run that is there, or settles a request.
pub start_queued-held :
    (desk : Desk) (org : String) (limit : ℕ) (c : Company) (run : String) (runs : List String)
    → in_flight desk.world desk.now org c.files ≡ run ∷ runs
    → ((start_queued desk org limit c).1.files ≡ c.files)
      × ((start_queued desk org limit c).1.audit_log ≡ c.audit_log)
unfolding start_queued
start_queued-held desk org limit c run runs busy =
    start_each-Untouched desk org c run runs busy (queued_triggers org limit c.intake) c
      (refl, refl)
