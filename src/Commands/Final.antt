-- ===== src/Commands/Final.antt =====
-- A run that has ended stays as it ended.
use my_org.Common.{
  ap, ℕ, String, ◌≡◌, refl, sym, ◌∙◌, false, List, [], ◌∷◌, arith, ◌==◌, ◌&&◌, leb, some, member,
  is_slug, text_length, last?,
}
use mathlib.Core.Path.{subst}
use my_org.Result.{Result, ok, err, ◌>>=◌, require, refuse}
use my_org.Run.{Row, is_active}
use my_org.Run.World.{World}
use my_org.Run.Log.{read_events}
use my_org.Run.Mutate.{Disk, Verb, Outcome, mutate}
use my_org.Run.Mutate.Outcome.{Effect, refuses, replays, stops, commits, mutate-Effect}
use my_org.Run.Mutate.Replay.{read_events-revision}
use my_org.Verbs.{Args, evidence_path}
use my_org.Verbs.Life.{request_step, approve, reject}
use my_org.Verbs.Claim.{take, renew_claim, expire_claim, hold}
use my_org.Verbs.End.{complete, fail, release_step, cancel_run}
use my_org.Verbs.Budget.{is_out_of_cycles, extend_budget}
use my_org.Verbs.Review.{
  message_kinds, classifications, send_message, check_approve, check_return, check_reject,
}
use my_org.Verbs.Extend as Extend
use my_org.Verbs.Extend.{extend_budget-Extension}
use my_org.Commands.{
  Command, request_step_cmd, approve_cmd, reject_cmd, take_cmd, renew_claim_cmd, expire_claim_cmd,
  hold_cmd, complete_cmd, fail_cmd, release_step_cmd, cancel_run_cmd, send_message_cmd,
  check_approve_cmd, check_return_cmd, check_reject_cmd, extend_budget_cmd, mutate_checked, execute,
  args_of, run_commands,
}
use my_org.Commands.History.{OneRun}

module _ (w : World) (d : Disk) (rs : List Row) (last : Row) (l : last? rs ≡ some last)
    (ended : is_active last.run_status ≡ false) where
  Effect-same : {v : Verb} {o : Outcome} → Effect w v d rs last o → o.1.file ≡ d.file
  Effect-same (refuses x q f) = f
  Effect-same (replays prior f m q) = rw q refl
  Effect-same (stops a c q adds) = absurd (cc)
  Effect-same (commits body a c n b u q adds) = absurd (cc)

  mutate-same : (v : Verb) → read_events w v.run_id d.file ≡ ok rs → (mutate w v d).1.file ≡ d.file
  mutate-same v e = Effect-same (mutate-Effect w v d rs last e l)

  checked-same :
      {A : Type 0} (m : Result A) (f : A → Result Verb)
      → ((x : A) → (mutate_checked w (f x) d).1.file ≡ d.file)
      → (mutate_checked w (m >>= f) d).1.file ≡ d.file
  unfolding mutate_checked
  checked-same (err e) f k = refl
  checked-same (ok x) f k = k x

  extend_budget-same :
      (a : Args) (cycles : ℕ)
      → is_out_of_cycles last.run_status ≡ false
      → read_events w a.run_id d.file ≡ ok rs
      → (extend_budget w a cycles d).1.file ≡ d.file
  extend_budget-same a cycles other e = elim (extend_budget-Extension w a cycles d rs last e l) [
    | Extend.refuses x r same ↦ same
    | Extend.replays again q ↦ ap (λ (o : Outcome). o.1.file) q
    | Extend.extends next b written q adds ↦ absurd (ground (arith, b))
  ]

  execute-same :
      (c : Command)
      → is_out_of_cycles last.run_status ≡ false
      → read_events w (args_of c).run_id d.file ≡ ok rs
      → (execute w c d).1.file ≡ d.file
  unfolding execute request_step approve reject take renew_claim expire_claim hold complete fail
      release_step cancel_run send_message check_approve check_return check_reject
  execute-same (request_step_cmd a holder) o e = mutate-same (request_step w a holder) e
  execute-same (approve_cmd a actor_id ref) o e = mutate-same (approve w a actor_id ref) e
  execute-same (reject_cmd a actor_id ref) o e = mutate-same (reject w a actor_id ref) e
  execute-same (take_cmd a holder) o e = mutate-same (take w a holder) e
  execute-same (renew_claim_cmd a token) o e = mutate-same (renew_claim w a token) e
  execute-same (expire_claim_cmd a) o e = mutate-same (expire_claim w a) e
  execute-same (hold_cmd a held) o e =
      checked-same (evidence_path w held.evidence) _ (λ proof. mutate-same _ e)
  execute-same (complete_cmd a evidence revision report) o e =
      checked-same (evidence_path w evidence) _ (λ proof. mutate-same _ e)
  execute-same (fail_cmd a reason report) o e = mutate-same (fail a reason report) e
  execute-same (release_step_cmd a reason report) o e = mutate-same (release_step a reason report) e
  execute-same (cancel_run_cmd a actor_id reason) o e =
      checked-same (refuse (w.strip a.actor == "") _) _ (λ _.
        checked-same
          (require (leb 1 (text_length (w.strip reason)) && leb (text_length (w.strip reason)) 200)
            _)
          _ (λ _. mutate-same _ e))
  execute-same (send_message_cmd a m) o e = checked-same (require (is_slug m.message_id) _) _ (λ _.
      checked-same (evidence_path w m.payload) _ (λ proof.
        checked-same (require (member m.kind message_kinds) _) _ (λ _.
          checked-same (require (member m.classification classifications) _) _ (λ _.
            checked-same
              (require
                (leb 1 (text_length (w.strip m.subject))
                  && leb (text_length (w.strip m.subject)) 160)
                _)
              _ (λ _. mutate-same _ e)))))
  execute-same (check_approve_cmd a id spend) o e = mutate-same (check_approve w a id spend) e
  execute-same (check_return_cmd a id spend) o e = mutate-same (check_return w a id spend) e
  execute-same (check_reject_cmd a id spend) o e = mutate-same (check_reject w a id spend) e
  execute-same (extend_budget_cmd a cycles) o e = extend_budget-same a cycles o e

-- If a run's file reads and its last state is not active, and not `blocked_cycle_limit`, then no
-- sequence of commands to that run, in worlds that share the hash function and `strip`, changes the
-- file.
pub run_commands-Final :
    (w : World) (id : String) (cs : List (World × Command)) (d : Disk) (rs : List Row) (last : Row)
    → OneRun w id cs
    → read_events w id d.file ≡ ok rs
    → last? rs ≡ some last
    → is_active last.run_status ≡ false
    → is_out_of_cycles last.run_status ≡ false
    → (run_commands cs d).file ≡ d.file
unfolding run_commands
run_commands-Final w id [] d rs last k e l ended out = refl
run_commands-Final w id ((w', c) ∷ rest) d rs last (same, strips, name, k) e l ended out =
    let now = execute-same w' d rs last l ended c out (
      subst (λ (x : String). read_events w' x d.file ≡ ok rs) (sym name)
        (read_events-revision w w' id d.file rs same e)) in
    run_commands-Final w id rest (execute w' c d).1 rs last k (rw now e) l ended out ∙ now
