-- ===== src/Triggers/Start/Order.antt =====
-- One request at a time, and nothing overtakes.
use mathlib.Core.List.{Memᴰ, append_assoc}
use mathlib.Core.Path.{subst}
use my_org.Common.{
  ℕ, ◌≤◌, ◌<◌, String, ◌≡◌, refl, sym, ap, ◌∙◌, inl, inr, true, false, Option, none, some, List, [],
  ◌∷◌, ◌++◌, arith, leb, leb→le, leb→lt, if_ind, if-cases, All, select, take, order_by, is_slug,
  All-Mem, select-Mem, Mem-select, Mem-order_by, Mem-middle, eq_iff, order_by-Mem,
  order_by-Ascending, take-prefix, Ascending, Ascending-front,
}
use my_org.Result.{Result, ok, err, Error, invalid_run_id}
use my_org.Run.{Row, Line}
use my_org.Triggers.Queue.{
  TriggerStatus, queued, is_queued, Intake, waits, no_younger, queued_triggers,
}
use my_org.Triggers.Start.{
  Company, Desk, Start, Pass, max_trigger_attempts, run_id_for, start_of, mark_started, is_caught,
  mark_failed, finish_start, start_unless_busy, start_one, start_front, after_give_up, start_each,
  start_queued,
}

-- A pass that started nothing but this request.
abbrev Sole : Intake → Result (List Start) → Type 0
Sole i (err x) = Unit
Sole i (ok []) = Unit
Sole i (ok (s ∷ more)) = (s ≡ start_of i) × (more ≡ [])

module _ (desk : Desk) (org : String) (i : Intake) where
  mark_failed-Sole : (x : Error) (c : Company) → Sole i (mark_failed desk org i x c).0
  unfolding mark_failed
  mark_failed-Sole x c = if_ind (λ (p : Pass). Sole i p.0) (is_caught x) _ _ (λ _. tt) (λ _. tt)

  finish_start-Sole : (o : Result Row × Company) → Sole i (finish_start desk org i o).0
  unfolding finish_start mark_started
  finish_start-Sole (err x, c) = mark_failed-Sole x c
  finish_start-Sole (ok line, c) = (refl, refl)

  start_unless_busy-Sole :
      (c : Company) (runs : List String) → Sole i (start_unless_busy desk org i c runs).0
  unfolding start_unless_busy
  start_unless_busy-Sole c (run ∷ runs) = tt
  start_unless_busy-Sole c [] = finish_start-Sole _

  start_one-Sole :
      (c : Company) (file : Option (List Line)) → Sole i (start_one desk org i c file).0
  unfolding start_one mark_started
  start_one-Sole c (some lines) = (refl, refl)
  start_one-Sole c none = start_unless_busy-Sole c _

  start_front-Sole : (c : Company) → Sole i (start_front desk org i c).0
  unfolding start_front
  start_front-Sole c =
      if_ind (λ (p : Pass). Sole i p.0) (is_slug (run_id_for i)) _ _ (λ _. start_one-Sole c _)
        (λ _. mark_failed-Sole invalid_run_id c)

-- The request that a pass started, and those that it passed over.
record Front (queue : List Intake) (s : Start) (more : List Start) : Type 0 where
  passed : List Intake
  first : Intake
  rest : List Intake
  split : queue ≡ passed ++ first ∷ rest
  spent : All (λ t. max_trigger_attempts ≤ t.attempts) passed
  left : first.attempts < max_trigger_attempts
  start : s ≡ start_of first
  alone : more ≡ []

started_here :
    (i : Intake) (rest : List Intake) (r : Result (List Start)) (s : Start) (more : List Start)
    → i.attempts < max_trigger_attempts
    → Sole i r
    → r ≡ ok (s ∷ more)
    → Front (i ∷ rest) s more
started_here i rest (err x) s more k h e = cc
started_here i rest (ok []) s more k h e = cc
started_here i rest (ok (t ∷ ts)) s more k h e = record {
  passed = [];
  first = i;
  rest = rest;
  split = refl;
  spent = tt;
  left = k;
  start = cc;
  alone = cc;
}

passed_over :
    (t : Intake) (queue : List Intake) (s : Start) (more : List Start)
    → max_trigger_attempts ≤ t.attempts
    → Front queue s more
    → Front (t ∷ queue) s more
passed_over t queue s more h f = record {
  passed = t ∷ f.passed;
  first = f.first;
  rest = f.rest;
  split = ap (λ (ts : List Intake). t ∷ ts) f.split;
  spent = (h, f.spent);
  left = f.left;
  start = f.start;
  alone = f.alone;
}

after_give_up-Front :
    (rest : Company → Pass) (queue : List Intake) (c c' : Company) (s : Start) (more : List Start)
    (o : Result (Intake × List Intake))
    → ((d : Company) → rest d ≡ (ok (s ∷ more), c') → Front queue s more)
    → after_give_up rest c o ≡ (ok (s ∷ more), c')
    → Front queue s more
unfolding after_give_up
after_give_up-Front rest queue c c' s more (err x) f e = cc
after_give_up-Front rest queue c c' s more (ok (row, rows)) f e = f _ e

start_each-Front :
    (desk : Desk) (org : String) (queue : List Intake) (c c' : Company) (s : Start)
    (more : List Start)
    → start_each desk org queue c ≡ (ok (s ∷ more), c')
    → Front queue s more
unfolding start_each
start_each-Front desk org [] c c' s more e = cc
start_each-Front desk org (i ∷ queue) c c' s more e =
    elim (if-cases (leb max_trigger_attempts i.attempts) _ _ e) [
      | inl (out, k) ↦ passed_over i queue s more (leb→le max_trigger_attempts i.attempts out) (
          after_give_up-Front (start_each desk org queue) queue c c' s more _
            (λ d. start_each-Front desk org queue d c' s more) k)
      | inr (left, k) ↦
          started_here i queue _ s more (leb→lt max_trigger_attempts i.attempts left)
            (start_front-Sole desk org i c) (ap (λ (p : Pass). p.0) k)
    ]

-- A row with chances left was not passed over.
unspent :
    (u : Intake) (passed : List Intake)
    → u.attempts < max_trigger_attempts
    → All (λ t. max_trigger_attempts ≤ t.attempts) passed
    → ¬ Memᴰ u passed
unspent u passed h k m =
    let most = All-Mem (λ (t : Intake). max_trigger_attempts ≤ t.attempts) u passed k m in
    omega (arith, h, most)

no_older : (x y : Intake) → no_younger x y ≡ false → y.created_at ≤ x.created_at
no_older x y h = omega (arith, leb→lt x.created_at y.created_at h)

is_queued→eq : (x : TriggerStatus) → is_queued x ≡ true → x ≡ queued
is_queued→eq queued h = refl
is_queued→eq _ h = cc

waits-eq : (org : String) (t : Intake) → waits org t ≡ true → (t.org_id ≡ org) × (t.status ≡ queued)
waits-eq org t h =
    ((eq_iff t.org_id org).0 (ground (arith, h)), is_queued→eq t.status (ground (arith, h)))

eq-waits : (org : String) (t : Intake) → t.org_id ≡ org → t.status ≡ queued → waits org t ≡ true
eq-waits org t o q = rw ((eq_iff t.org_id org).1 o, ap is_queued q) refl

-- The one request that a pass started: a row of the table that waited in the organization, with fewer
-- than three attempts, and came no later than a time.
pub record OldestStarted (org : String) (rows : List Intake) (s : Start) (more : List Start)
    (time : ℕ) : Type 0 where
  pub intake : Intake
  pub stored : Memᴰ intake rows
  pub ours : intake.org_id ≡ org
  pub waited : intake.status ≡ queued
  pub chances : intake.attempts < 3
  pub started : s ≡ start_of intake
  pub no_other : more ≡ []
  pub oldest : intake.created_at ≤ time

-- A pass that starts a request starts no other, and that request is a row of the table that waited in the
-- organization with fewer than three attempts; no request of the organization that waits with fewer
-- than three attempts is older.
pub start_queued-first :
    (desk : Desk) (org : String) (limit : ℕ) (c c' : Company) (s : Start) (more : List Start)
    (u : Intake)
    → start_queued desk org limit c ≡ (ok (s ∷ more), c')
    → Memᴰ u c.intake
    → u.org_id ≡ org
    → u.status ≡ queued
    → u.attempts < 3
    → OldestStarted org c.intake s more u.created_at
unfolding start_queued queued_triggers
start_queued-first desk org limit c c' s more u e m o w h =
    let queue = order_by no_younger (select (waits org) c.intake) in
    let f = start_each-Front desk org (take limit queue) c c' s more e in
    let (cut, whole) = take-prefix limit queue in
    let front : f.passed ++ f.first ∷ (f.rest ++ cut) ≡ queue =
      sym (append_assoc f.passed (f.first ∷ f.rest) cut)
      ∙ ap (λ (ts : List Intake). ts ++ cut) (sym f.split)
      ∙ whole in
    let (stored, waiting) = Mem-select (waits org) f.first c.intake (
      Mem-order_by no_younger f.first (select (waits org) c.intake)
        (subst (Memᴰ f.first) front (Mem-middle f.passed f.first (f.rest ++ cut)))) in
    record {
      intake = f.first;
      stored = stored;
      ours = (waits-eq org f.first waiting).0;
      waited = (waits-eq org f.first waiting).1;
      chances = f.left;
      started = f.start;
      no_other = f.alone;
      oldest =
          Ascending-front (λ (t : Intake). t.created_at) f.passed f.first (f.rest ++ cut) u
            (subst (Ascending (λ (t : Intake). t.created_at)) (sym front) (
              order_by-Ascending (λ (t : Intake). t.created_at) no_younger
                (λ x y. leb→le x.created_at y.created_at) no_older (select (waits org) c.intake)))
            (subst (Memᴰ u) (sym front) (
              order_by-Mem no_younger u _
                (select-Mem (waits org) u c.intake m (eq-waits org u o w))))
            (unspent u f.passed h f.spent);
    }
