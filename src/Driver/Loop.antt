-- ===== src/Driver/Loop.antt =====
-- `advance` of runtime/executor_drive.py, with one step at a time (MAX_PARALLEL_STEPS is 1 unless an
-- operator raises it): the steps that are ready, then the checks, until nothing is left to do.
use my_org.Common.{
  ℕ, zero, suc, String, Bool, true, false, not, ◌&&◌, ◌||◌, List, [], ◌∷◌, map, if◌then◌else◌, ◌==◌,
  select, order_by, text_before,
}
use my_org.Result.{Result, ok, err, did_not_settle}
use my_org.Steps.{Step, Steps, is_ready, is_in_progress, is_awaiting_check}
use my_org.Run.{Row, is_active}
use my_org.Run.Claims.{claim_is_live}
use my_org.Run.Mutate.{Disk}
use my_org.Driver.Sends.{Driver, rereading, state_at}
use my_org.Driver.Work.{Driven, drive_step}
use my_org.Driver.Check.{Checker, drive_check}

-- Who drives: the host of each step in each pass, the checkers' answers, the host of the pass itself,
-- and whether the organization is suspended before it.
pub record Crew : Type 0 where
  pub driver : ℕ → String → Driver
  pub checker : ℕ → String → Checker
  pub reader : ℕ → Driver
  pub halt : ℕ → Bool

-- A step that another holder is at.
abbrev pub is_elsewhere : Driver → Step → Bool
is_elsewhere h s = claim_is_live (h.at rereading) s && not (s.holder == h.holder)

abbrev pub can_drive : Driver → String × Step → Bool
can_drive h (key, s) = (is_ready s.status || is_in_progress s.status) && not (is_elsewhere h s)

abbrev pub to_check : String × Step → Bool
to_check (key, s) = is_awaiting_check s.status

abbrev pub names_of : (String × Step → Bool) → Steps → List String
names_of p steps = order_by text_before (map (λ (e : String × Step). e.0) (select p steps))

unfoldable pub ready_steps : Driver → Row → List String
unfolding claim_is_live
ready_steps h state = names_of (can_drive h) state.steps

unfoldable pub check_steps : Row → List String
check_steps state = names_of to_check state.steps

-- An exception ends the pass.
unfoldable pub next : (Disk → Driven) → Driven → Driven
next rest (err x, d) = (err x, d)
next rest (ok u, d) = rest d

module _ (c : Crew) (run_id : String) where
  unfoldable pub drive_ready : ℕ → Row → List String → Disk → Driven
  unfolding drive_step next
  drive_ready pass state [] d = (ok tt, d)
  drive_ready pass state (s ∷ ss) d =
      next (drive_ready pass state ss) (drive_step (c.driver pass s) run_id s state d)

  unfoldable pub drive_checks : ℕ → Row → List String → Disk → Driven
  unfolding drive_check next
  drive_checks pass state [] d = (ok tt, d)
  drive_checks pass state (s ∷ ss) d =
      next (drive_checks pass state ss)
        (drive_check (c.driver pass s) (c.checker pass s) run_id s state d)

  unfoldable pub drive_pass : ℕ → Row → Disk → Driven
  unfolding drive_ready drive_checks
  drive_pass pass state d =
      next (drive_checks pass state (check_steps state))
        (drive_ready pass state (ready_steps (c.reader pass) state) d)

  -- The state that `advance` returns, or the exception that leaves it.
  abbrev pub Advanced : Type 0
  Advanced = Result Row × Disk

  unfoldable pub then_advance : (Disk → Advanced) → Driven → Advanced
  then_advance rest (err x, d) = (err x, d)
  then_advance rest (ok u, d) = rest d

  abbrev pub no_names : List String → Bool
  no_names [] = true
  no_names (s ∷ ss) = false

  unfoldable pub is_idle : ℕ → Row → Bool
  unfolding ready_steps check_steps
  is_idle pass state = no_names (ready_steps (c.reader pass) state) && no_names (check_steps state)

  unfoldable pub on_state : (Disk → Advanced) → ℕ → Disk → Result Row → Advanced
  unfolding then_advance drive_pass is_idle
  on_state rest pass d (err x) = (err x, d)
  on_state rest pass d (ok state) =
      if not (is_active state.run_status) || is_idle pass state
      then (ok state, d)
      else then_advance rest (drive_pass pass state d)

  -- The loop, from the passes that are left and the number of the next.
  unfoldable pub advance_from : ℕ → ℕ → Disk → Advanced
  unfolding on_state
  advance_from zero pass d = (err did_not_settle, d)
  advance_from (suc left) pass d =
      let rest = advance_from left (suc pass) in
      if c.halt pass
      then (state_at (c.reader pass) run_id rereading d, d)
      else on_state rest pass d (state_at (c.reader pass) run_id rereading d)

  unfoldable pub advance : ℕ → Disk → Advanced
  unfolding advance_from
  advance max_iterations d = advance_from max_iterations 0 d
