-- ===== src/Triggers/Start/Final.antt =====
-- What a pass leaves of the table of requests.
use mathlib.Core.Path.{subst}
use my_org.Common.{
  ℕ, ◌≤◌, not, String, ◌≡◌, refl, sym, ap, ◌∙◌, Bool, true, Option, none, some, List, [], ◌∷◌,
  arith, if_ind, update, eqb, length, select, find_first, leb, is_slug,
}
use my_org.Result.{
  Result, ok, err, Error, invalid_run_id, >>=-eq-ok, require->>, found, key_error, already_settled,
  bad_settlement, ok-injective,
}
use my_org.Run.{Row, Line}
use my_org.Run.Mutate.{Outcome}
use my_org.Create.{create_run}
use my_org.Backends.{is_transient}
use my_org.Planner.{Plan, plan}
use my_org.Triggers.Queue.{
  TriggerStatus, queued, started, failed, is_outcome, Intake, waits, is_row, open_row, settled,
  settle_trigger, queued_triggers,
}
use my_org.Triggers.Flight.{file_of, in_flight}
use my_org.Triggers.Start.{
  Company, Desk, Pass, max_trigger_attempts, run_id_for, mark, mark_started, is_caught, mark_failed,
  set_file, on_disk, create_planned, create_from, finish_start, gave_up, start_creation,
  start_unless_busy, start_one, start_front, after_give_up, start_each, start_queued,
}

-- A request that waited in the organization may have been settled, and is still the same request; any
-- other row is as it was.
pub data Kept (org : String) (t u : Intake) : Type 0 where
  same : u ≡ t → Kept org t u
  served :
      waits org t ≡ true
      → u.id ≡ t.id
      → u.org_id ≡ t.org_id
      → u.goal ≡ t.goal
      → u.created_at ≡ t.created_at
      → t.attempts ≤ u.attempts
      → Kept org t u

-- Tables of the same requests, one by one.
abbrev pub KeptAll : String → List Intake → List Intake → Type 0
KeptAll org [] [] = Unit
KeptAll org (t ∷ ts) (u ∷ us) = Kept org t u × KeptAll org ts us
KeptAll _ _ _ = ⊥

Kept-trans : (org : String) (t u v : Intake) → Kept org t u → Kept org u v → Kept org t v
Kept-trans org t u v h (same q) = subst (Kept org t) (sym q) h
Kept-trans org t u v (same p) (served w i o g c a) =
    subst (λ (x : Intake). Kept org x v) p (served w i o g c a)
Kept-trans org t u v (served w i o g c a) (served w' i' o' g' c' a') =
    served w (i' ∙ i) (o' ∙ o) (g' ∙ g) (c' ∙ c) (omega (arith, a, a'))

KeptAll-refl : (org : String) (ts : List Intake) → KeptAll org ts ts
KeptAll-refl org [] = tt
KeptAll-refl org (t ∷ ts) = (same refl, KeptAll-refl org ts)

KeptAll-trans :
    (org : String) (ts us vs : List Intake)
    → KeptAll org ts us
    → KeptAll org us vs
    → KeptAll org ts vs
KeptAll-trans org [] [] vs h k = k
KeptAll-trans org [] (u ∷ us) vs h k = elim h [ ]
KeptAll-trans org (t ∷ ts) [] vs h k = elim h [ ]
KeptAll-trans org (t ∷ ts) (u ∷ us) [] h k = elim k [ ]
KeptAll-trans org (t ∷ ts) (u ∷ us) (v ∷ vs) h k =
    (Kept-trans org t u v h.0 k.0, KeptAll-trans org ts us vs h.1 k.1)

open_row-waits : (org id : String) (t : Intake) → open_row org id t ≡ true → waits org t ≡ true
open_row-waits org id t h = ground (arith, h)

update-KeptAll :
    (org id : String) (f : Intake → Intake) (ts : List Intake)
    → ((t : Intake) → open_row org id t ≡ true → Kept org t (f t))
    → KeptAll org ts (update (open_row org id) f ts)
update-KeptAll org id f [] h = tt
update-KeptAll org id f (t ∷ ts) h =
    let rest = update-KeptAll org id f ts h in
    if_ind (λ (us : List Intake). KeptAll org (t ∷ ts) us) (open_row org id t) _ _
      (λ e. (h t e, rest)) (λ _. (same refl, rest))

settle_trigger-KeptAll :
    (now : ℕ) (org id : String) (status : TriggerStatus) (run_id error : Option String)
    (count_attempt : Bool) (rows : List Intake) (done : Intake × List Intake)
    → settle_trigger now org id status run_id error count_attempt rows ≡ ok done
    → KeptAll org rows done.1
unfolding settle_trigger settled
settle_trigger-KeptAll now org id status run_id error count_attempt rows done e =
    let change = settled now status run_id error count_attempt in
    let table = update (open_row org id) change rows in
    let (_, k0) = require->> (is_outcome status) bad_settlement _ e in
    let (_, k) = require->> (eqb (length (select (open_row org id) rows)) 1) already_settled _ k0 in
    let (row, _, q) = >>=-eq-ok (found (find_first (is_row org id) table) key_error) _ k in
    let written : table ≡ done.1 =
      ap (λ (x : Intake × List Intake). x.1) (ok-injective (row, table) done q) in
    subst (KeptAll org rows) written (
      update-KeptAll org id change rows
        (λ t w. served (open_row-waits org id t w) refl refl refl refl (omega arith)))

-- A run's creation writes nothing to the table.
on_disk-intake :
    (run_id : String) (c : Company) (o : Outcome) → (on_disk run_id c o).1.intake ≡ c.intake
unfolding on_disk
on_disk-intake run_id c (r, d) = of d.file
  where
    of :
        (file : Option (List Line))
        → (elim file as (λ (f : Option (List Line)). Result Row × Company) [
          | none ↦ (r, record c { audit_log = d.audit_log })
          | some lines ↦
              (r, record c { files = set_file run_id lines c.files; audit_log = d.audit_log })
        ]).1.intake
          ≡ c.intake
    of none = refl
    of (some lines) = refl

create_from-intake :
    (desk : Desk) (org : String) (i : Intake) (c : Company) (p : Plan)
    → (create_from desk org i c p).1.intake ≡ c.intake
unfolding create_from create_planned
create_from-intake desk org i c (err x, costs) = refl
create_from-intake desk org i c (ok f, costs) = of (desk.write_plan f)
  where
    of : (w : Result (Unit {0})) → (create_planned desk org i c f costs w).1.intake ≡ c.intake
    of (err x) = refl
    of (ok u) = on_disk-intake (run_id_for i) c (
        create_run desk.world (start_creation org i costs) f
          (record { file = file_of (run_id_for i) c.files; audit_log = c.audit_log }))

module _ (desk : Desk) (org : String) (rows : List Intake) where
  abbrev Keeps : Company → Type 0
  Keeps c = KeptAll org rows c.intake

  settled-Keeps :
      (id : String) (status : TriggerStatus) (run_id error : Option String) (count_attempt : Bool)
      (c : Company) (done : Intake × List Intake)
      → settle_trigger desk.now org id status run_id error count_attempt c.intake ≡ ok done
      → Keeps c
      → KeptAll org rows done.1
  settled-Keeps id status run_id error count_attempt c done e h =
      KeptAll-trans org rows c.intake done.1 h
        (settle_trigger-KeptAll desk.now org id status run_id error count_attempt c.intake done e)

  mark-Keeps :
      (i : Intake) (status : TriggerStatus) (run_id error : Option String) (count_attempt : Bool)
      (c : Company)
      → Keeps c
      → Keeps (mark desk org i status run_id error count_attempt c)
  unfolding mark
  mark-Keeps i status run_id error count_attempt c h =
      elim (settle_trigger desk.now org i.id status run_id error count_attempt c.intake)
          as (λ (r : Result (Intake × List Intake)).
            settle_trigger desk.now org i.id status run_id error count_attempt c.intake ≡ r
            → Keeps (elim r [ err x ↦ c | ok done ↦ record c { intake = done.1 } ])) [
              | err x ↦ λ e. h
              | ok done ↦ λ e. settled-Keeps i.id status run_id error count_attempt c done e h
            ]
        refl

  mark_failed-Keeps :
      (i : Intake) (x : Error) (c : Company) → Keeps c → Keeps (mark_failed desk org i x c).1
  unfolding mark_failed
  mark_failed-Keeps i x c h =
      if_ind (λ (p : Pass). Keeps p.1) (is_caught x) _ _
        (λ _.
          mark-Keeps i queued none (some (desk.message x))
            (not (is_transient desk.backend.lower (desk.message x))) c h)
        (λ _. h)

  mark_started-Keeps : (i : Intake) (c : Company) → Keeps c → Keeps (mark_started desk org i c).1
  unfolding mark_started
  mark_started-Keeps i c h = mark-Keeps i started (some (run_id_for i)) none true c h

  finish_start-Keeps :
      (i : Intake) (o : Result Row × Company) → Keeps o.1 → Keeps (finish_start desk org i o).1
  unfolding finish_start
  finish_start-Keeps i (err x, c) h = mark_failed-Keeps i x c h
  finish_start-Keeps i (ok line, c) h = mark_started-Keeps i c h

  start_unless_busy-Keeps :
      (i : Intake) (c : Company) (moving : List String)
      → Keeps c
      → Keeps (start_unless_busy desk org i c moving).1
  unfolding start_unless_busy
  start_unless_busy-Keeps i c (run ∷ runs) h = h
  start_unless_busy-Keeps i c [] h =
      let planned = plan desk.world desk.backend i.goal (run_id_for i) desk.repair_attempts in
      finish_start-Keeps i (create_from desk org i c planned)
        (subst (KeptAll org rows) (sym (create_from-intake desk org i c planned)) h)

  start_one-Keeps :
      (i : Intake) (c : Company) (file : Option (List Line))
      → Keeps c
      → Keeps (start_one desk org i c file).1
  unfolding start_one
  start_one-Keeps i c (some lines) h = mark_started-Keeps i c h
  start_one-Keeps i c none h =
      start_unless_busy-Keeps i c (in_flight desk.world desk.now org c.files) h

  start_front-Keeps : (i : Intake) (c : Company) → Keeps c → Keeps (start_front desk org i c).1
  unfolding start_front
  start_front-Keeps i c h =
      if_ind (λ (p : Pass). Keeps p.1) (is_slug (run_id_for i)) _ _
        (λ _. start_one-Keeps i c (file_of (run_id_for i) c.files) h)
        (λ _. mark_failed-Keeps i invalid_run_id c h)

  start_each-Keeps :
      (queue : List Intake) (c : Company) → Keeps c → Keeps (start_each desk org queue c).1
  unfolding start_each after_give_up
  start_each-Keeps [] c h = h
  start_each-Keeps (i ∷ queue) c h =
      let why = some (gave_up desk i) in
      if_ind (λ (p : Pass). Keeps p.1) (leb max_trigger_attempts i.attempts) _ _
        (λ _.
          elim (settle_trigger desk.now org i.id failed none why true c.intake)
              as (λ (r : Result (Intake × List Intake)).
                settle_trigger desk.now org i.id failed none why true c.intake ≡ r
                → Keeps (after_give_up (start_each desk org queue) c r).1) [
                  | err x ↦ λ e. h
                  | ok done ↦ λ e.
                      start_each-Keeps queue (record c { intake = done.1 })
                        (settled-Keeps i.id failed none why true c done e h)
                ]
            refl)
        (λ _. start_front-Keeps i c h)

-- A pass keeps every row of the table in its place. A row of another organization, or one that no longer
-- waits, is as it was; of one that waits the id, the organization, the goal and the time it came stay,
-- and its attempts never go down.
pub start_queued-KeptAll :
    (desk : Desk) (org : String) (limit : ℕ) (c : Company)
    → KeptAll org c.intake (start_queued desk org limit c).1.intake
unfolding start_queued
start_queued-KeptAll desk org limit c =
    start_each-Keeps desk org c.intake (queued_triggers org limit c.intake) c
      (KeptAll-refl org c.intake)
