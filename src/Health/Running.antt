-- ===== src/Health/Running.antt =====
-- When a run is shown as running.
use mathlib.Core.List.{Memᴰ}
use my_org.Common.{
  ℕ, ◌+◌, ◌<◌, String, ◌≡◌, ◌≢◌, ◌⊎◌, ◌↔◌, inl, inr, refl, ap, Bool, true, false, Option, List,
  arith, ltb, leb, eqb, leb→lt, ltb→le, length, select, if◌then◌else◌, select-none, select-Without,
  All, All-imp, positive-select, select-positive,
}
use my_org.Result.{Result, ok, err}
use my_org.Steps.{StepStatus, ready, in_progress, awaiting_check, awaiting_approval, Step}
use my_org.Steps as Steps
use my_org.Run.{RunStatus, active, other, is_terminal_run, Row, Line}
use my_org.Run.World.{World}
use my_org.Approvals.{is_waiting_step}
use my_org.Health.{
  Condition, running, waiting, stalled, finished, failed, Detail, is_run_completed, idle_minutes,
  readable_run, health_of, current_state, is_handed_back, is_movable, is_parked_entry,
  is_movable_entry, is_long, classify_steps, classify, health,
}

-- A run that has not ended: `active`, or a status that the runtime does not know.
abbrev pub Going : RunStatus → Type 0
Going s = (s ≡ active) ⊎ ((text : String) × (s ≡ other text))

-- A step that a person has to act on.
abbrev pub Waits : StepStatus → Type 0
Waits s = (s ≡ awaiting_approval) ⊎ (s ≡ Steps.blocked_human)

-- A step that somebody can move.
abbrev pub Moves : StepStatus → Type 0
Moves s = (s ≡ ready) ⊎ (s ≡ in_progress) ⊎ (s ≡ awaiting_check)

-- What a run is when it is shown as running.
pub record IsRunning (w : World) (now : ℕ) (id : String) (file : Option (List Line)) : Type 0 where
  pub state : Row
  pub read : current_state w id file ≡ ok state
  pub going : Going state.run_status
  pub nobody_waits : All (λ (e : String × Step). ¬ Waits e.1.status) state.steps
  pub in_budget : state.cycle_count < state.max_cycles
  pub mover : String × Step
  pub has_mover : Memᴰ mover state.steps
  pub moves : Moves mover.1.status
  pub recent : now < state.ts + 1800

Waits-eq : (s : StepStatus) → Waits s → is_waiting_step s ≡ true
Waits-eq s (inl e) = ap is_waiting_step e
Waits-eq s (inr e) = ap is_waiting_step e

eq-Waits : (s : StepStatus) → ¬ Waits s → is_waiting_step s ≡ false
eq-Waits awaiting_approval n = absurd (n (inl refl))
eq-Waits Steps.blocked_human n = absurd (n (inr refl))
eq-Waits _ n = refl

Moves-eq : (s : StepStatus) → Moves s → is_movable s ≡ true
Moves-eq s (inl e) = ap is_movable e
Moves-eq s (inr (inl e)) = ap is_movable e
Moves-eq s (inr (inr e)) = ap is_movable e

eq-Moves : (s : StepStatus) → is_movable s ≡ true → Moves s
eq-Moves ready h = inl refl
eq-Moves in_progress h = inr (inl refl)
eq-Moves awaiting_check h = inr (inr refl)
eq-Moves _ h = cc

Going-eq : (s : RunStatus) → is_terminal_run s ≡ false → Going s
Going-eq active h = inl refl
Going-eq (other text) h = inr (text, refl)
Going-eq _ h = cc

Going-tests :
    (s : RunStatus)
    → Going s
    → (is_run_completed s ≡ false) × (is_handed_back s ≡ false) × (is_terminal_run s ≡ false)
Going-tests s (inl e) = (ap is_run_completed e, ap is_handed_back e, ap is_terminal_run e)
Going-tests s (inr (text, e)) = (ap is_run_completed e, ap is_handed_back e, ap is_terminal_run e)

-- A conditional whose first branch has another condition took its second.
not_first :
    (b : Bool) (c : Condition) (x : Detail) (rest : Condition × Detail) (d : Detail)
    → c ≢ running
    → (if b then (c, x) else rest) ≡ (running, d)
    → (b ≡ false) × (rest ≡ (running, d))
not_first true c x rest d n e = absurd (n (ap (λ (p : Condition × Detail). p.0) e))
not_first false c x rest d n e = (refl, e)

-- The answers of the tests of `classify` for a run that is shown as running.
record Tests (state : Row) (idle : Option ℕ) : Type 0 where
  unfinished : is_run_completed state.run_status ≡ false
  kept : is_handed_back state.run_status ≡ false
  alive : is_terminal_run state.run_status ≡ false
  parked : ltb 0 (length (select is_parked_entry state.steps)) ≡ false
  budget : leb state.max_cycles state.cycle_count ≡ false
  movable : eqb (length (select is_movable_entry state.steps)) 0 ≡ false
  short : is_long idle ≡ false

classify-Tests :
    (state : Row) (idle : Option ℕ) (d : Detail)
    → classify state idle ≡ (running, d)
    → Tests state idle
unfolding classify classify_steps
classify-Tests state idle d e =
    let can_move = length (select is_movable_entry state.steps) in
    let (a, e1) = not_first (is_run_completed state.run_status) finished _ _ d (λ k. cc) e in
    let (b, e2) = not_first (is_handed_back state.run_status) waiting _ _ d (λ k. cc) e1 in
    let (c, e3) = not_first (is_terminal_run state.run_status) failed _ _ d (λ k. cc) e2 in
    let (p, e4) =
      not_first (ltb 0 (length (select is_parked_entry state.steps))) waiting _ _ d (λ k. cc) e3 in
    let (l, e5) = not_first (leb state.max_cycles state.cycle_count) failed _ _ d (λ k. cc) e4 in
    let (m, e6) = not_first (eqb can_move 0) stalled _ _ d (λ k. cc) e5 in
    let (s, _) = not_first (is_long idle) stalled _ _ d (λ k. cc) e6 in
    record { unfinished = a; kept = b; alive = c; parked = p; budget = l; movable = m; short = s }

Tests-classify :
    (state : Row) (idle : Option ℕ) → Tests state idle → (classify state idle).0 ≡ running
unfolding classify classify_steps
Tests-classify state idle t =
    rw (t.unfinished, t.kept, t.alive, t.parked, t.budget, t.movable, t.short) refl

module _ (w : World) (now : ℕ) (id : String) (file : Option (List Line)) where
  Tests-IsRunning :
      (state : Row)
      → current_state w id file ≡ ok state
      → Tests state (idle_minutes state now)
      → IsRunning w now id file
  unfolding idle_minutes
  Tests-IsRunning state r t =
      let (e, m, h) = positive-select is_movable_entry state.steps (ground (arith, t.movable)) in
      record {
        state = state;
        read = r;
        going = Going-eq state.run_status t.alive;
        nobody_waits =
            All-imp (λ (x : String × Step). is_parked_entry x ≡ false) _ state.steps
              (λ x k wait. ground (arith, Waits-eq x.1.status wait, k))
              (select-none is_parked_entry state.steps (ltb→le 0 _ t.parked));
        in_budget = leb→lt state.max_cycles state.cycle_count t.budget;
        mover = e;
        has_mover = m;
        moves = eq-Moves e.1.status h;
        recent = ground (arith, t.short);
      }

  IsRunning-Tests : (r : IsRunning w now id file) → Tests r.state (idle_minutes r.state now)
  unfolding idle_minutes
  IsRunning-Tests r =
      let (unfinished, kept, alive) = Going-tests r.state.run_status r.going in
      let nobody =
        All-imp (λ (e : String × Step). ¬ Waits e.1.status) _ r.state.steps
          (λ e n. eq-Waits e.1.status n) r.nobody_waits in
      let some_move =
        select-positive is_movable_entry r.mover r.state.steps r.has_mover
          (Moves-eq r.mover.1.status r.moves) in
      record {
        unfinished = unfinished;
        kept = kept;
        alive = alive;
        parked = rw (select-Without is_parked_entry r.state.steps nobody) refl;
        budget = ground (arith, r.in_budget);
        movable = ground (arith, some_move);
        short = ground (arith, r.recent);
      }

  read-IsRunning :
      (r : Result Row)
      → current_state w id file ≡ r
      → (health_of id now r).state ≡ running
      → IsRunning w now id file
  unfolding health_of readable_run
  read-IsRunning (err x) q h = cc
  read-IsRunning (ok state) q h = Tests-IsRunning state q (
      classify-Tests state (idle_minutes state now) _
        (ap (λ (c : Condition). (c, (classify state (idle_minutes state now)).1)) h))

  IsRunning-health : IsRunning w now id file → (health w now id file).state ≡ running
  unfolding health health_of readable_run
  IsRunning-health r =
      rw r.read (Tests-classify r.state (idle_minutes r.state now) (IsRunning-Tests r))

-- A run is shown as running exactly when its file reads, its last state is active (or has a status that the
-- runtime does not know), no step of it waits for an approval or is blocked on a person, it is below
-- its cycle limit, some step is ready, in progress or awaiting its check, and its last event is less
-- than 1800 seconds old.
pub health-IsRunning :
    (w : World) (now : ℕ) (id : String) (file : Option (List Line))
    → (health w now id file).state ≡ running ↔ IsRunning w now id file
unfolding health
health-IsRunning w now id file =
    (read-IsRunning w now id file (current_state w id file) refl, IsRunning-health w now id file)
