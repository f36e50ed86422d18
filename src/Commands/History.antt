-- ===== src/Commands/History.antt =====
-- What every command does to a run's file, and what holds after any history of commands.
use my_org.Common.{
  ℕ, String, ◌≡◌, refl, sym, Option, some, List, [], ◌∷◌, ◌==◌, ◌&&◌, leb, member, is_slug,
  text_length, last?, All-append, All-last,
}
use mathlib.Core.Path.{subst}
use my_org.Result.{Result, ok, err, ◌>>=◌, require, refuse}
use my_org.Run.{Row, Line, active}
use my_org.Run.World.{World}
use my_org.Run.Log.{non_empty, read_events, sealed_row}
use my_org.Run.Log.Append.{read_events→Reads}
use my_org.Run.Mutate.{Disk, Verb, mutate}
use my_org.Run.Mutate.Keeps.{Keeps, AllRuns, mutate-Keeps}
use my_org.Run.Mutate.Replay.{read_events-revision}
use my_org.Verbs.{Args, evidence_path}
use my_org.Verbs.Life.{request_step, approve, reject}
use my_org.Verbs.Claim.{take, renew_claim, expire_claim, hold}
use my_org.Verbs.End.{complete, fail, release_step, cancel_run}
use my_org.Verbs.Budget.{extend_budget}
use my_org.Verbs.Review.{
  message_kinds, classifications, send_message, check_approve, check_return, check_reject,
}
use my_org.Verbs.Invariant.{Inv}
use my_org.Verbs.Invariant.Life.{
  KeepsInv, request_change-KeepsInv, approve_change-KeepsInv, reject_change-KeepsInv,
  take_change-KeepsInv, renew_change-KeepsInv, expire_change-KeepsInv, hold_change-KeepsInv,
}
use my_org.Verbs.Invariant.End.{
  complete_change-KeepsInv, fail_change-KeepsInv, release_change-KeepsInv, cancel_change-KeepsInv,
}
use my_org.Verbs.Invariant.Review.{
  check_approve_change-KeepsInv, check_return_change-KeepsInv, check_reject_change-KeepsInv,
  send_change-KeepsInv,
}
use my_org.Verbs.Extend as Extend
use my_org.Verbs.Extend.{extend_budget-Extension}
use my_org.Commands.{
  Command, request_step_cmd, approve_cmd, reject_cmd, take_cmd, renew_claim_cmd, expire_claim_cmd,
  hold_cmd, complete_cmd, fail_cmd, release_step_cmd, cancel_run_cmd, send_message_cmd,
  check_approve_cmd, check_return_cmd, check_reject_cmd, extend_budget_cmd, mutate_checked, execute,
  args_of, run_commands,
}

-- What `mutate` adds to a change keeps the invariant too.
KeepsInv-Keeps : (w : World) (v : Verb) → KeepsInv w v.change → Keeps (Inv w.strip) v
KeepsInv-Keeps w v k = record {
  counted = λ r n h. record {
    each = h.each;
    started = h.started;
    finished = h.finished;
    billed = h.billed;
  };
  out_of_cycles =
      λ r h. record { each = h.each; started = h.started; finished = refl; billed = h.billed };
  changed = k;
}

-- The file reads as a chain of states, and every one has the invariant.
abbrev pub Sound : World → String → Disk → Type 0
Sound w id d = (rs : List Row) × (read_events w id d.file ≡ ok rs) × AllRuns (Inv w.strip) rs

last?-cons : (x : Row) (rs : List Row) → (last : Row) × (last? (x ∷ rs) ≡ some last)
last?-cons x [] = (x, refl)
last?-cons x (y ∷ rs) = last?-cons y rs

non_empty-last : (rs : List Row) → non_empty rs ≡ ok rs → (last : Row) × (last? rs ≡ some last)
non_empty-last [] e = cc
non_empty-last (x ∷ rs) e = last?-cons x rs

-- A file that reads has a last state.
reads-last :
    (w : World) (id : String) (file : Option (List Line)) (rs : List Row)
    → read_events w id file ≡ ok rs
    → (last : Row) × (last? rs ≡ some last)
reads-last w id file rs e = non_empty-last rs (read_events→Reads w id file rs e).some_row

mutate-Sound :
    (w : World) (v : Verb) (d : Disk)
    → KeepsInv w v.change
    → Sound w v.run_id d
    → Sound w v.run_id (mutate w v d).1
mutate-Sound w v d k (rs, e, h) =
    let (last, l) = reads-last w v.run_id d.file rs e in
    mutate-Keeps (Inv w.strip) w v d rs last (KeepsInv-Keeps w v k) e l h

module _ (w : World) (id : String) (d : Disk) (h : Sound w id d) where
  checked-Sound :
      {A : Type 0} (m : Result A) (f : A → Result Verb)
      → ((x : A) → Sound w id (mutate_checked w (f x) d).1)
      → Sound w id (mutate_checked w (m >>= f) d).1
  unfolding mutate_checked
  checked-Sound (err e) f k = h
  checked-Sound (ok x) f k = k x

-- An extension changes only the status and the limit.
extended-Inv :
    {strip : String → String} (last : Row) (ceiling : ℕ)
    → Inv strip last.body
    → Inv strip (record last.body { run_status = active; max_cycles = ceiling })
extended-Inv last ceiling inv = record {
  each = inv.each;
  started = inv.started;
  finished = refl;
  billed = inv.billed;
}

extend_budget-Sound :
    (w : World) (a : Args) (cycles : ℕ) (d : Disk)
    → Sound w a.run_id d
    → Sound w a.run_id (extend_budget w a cycles d).1
unfolding sealed_row
extend_budget-Sound w a cycles d (rs, e, h) =
    let (last, l) = reads-last w a.run_id d.file rs e in
    let inv = All-last (λ r. Inv w.strip r.body) rs last h l in
    elim (extend_budget-Extension w a cycles d rs last e l) [
      | Extend.refuses x r same ↦ (rs, rw same e, h)
      | Extend.replays again q ↦ (rs, rw q e, h)
      | Extend.extends next b written q adds ↦ (
        _,
        adds.reads,
        All-append (λ r. Inv w.strip r.body) rs _ h
            (
              subst (Inv w.strip) (sym written.otherwise) (extended-Inv last next.max_cycles inv),
              tt,
            ),
      )
    ]

-- A command that finds the run's file a readable chain of states with the invariant leaves it so,
-- whatever the command's outcome.
pub execute-Sound :
    (w : World) (c : Command) (d : Disk)
    → Sound w (args_of c).run_id d
    → Sound w (args_of c).run_id (execute w c d).1
unfolding execute request_step approve reject take renew_claim expire_claim hold complete fail
    release_step cancel_run send_message check_approve check_return check_reject
execute-Sound w (request_step_cmd a holder) d h =
    mutate-Sound w (request_step w a holder) d (request_change-KeepsInv w a holder) h
execute-Sound w (approve_cmd a actor_id ref) d h =
    mutate-Sound w (approve w a actor_id ref) d (approve_change-KeepsInv w a ref) h
execute-Sound w (reject_cmd a actor_id ref) d h =
    mutate-Sound w (reject w a actor_id ref) d (reject_change-KeepsInv w a ref) h
execute-Sound w (take_cmd a holder) d h =
    mutate-Sound w (take w a holder) d (take_change-KeepsInv w a holder) h
execute-Sound w (renew_claim_cmd a token) d h =
    mutate-Sound w (renew_claim w a token) d (renew_change-KeepsInv w a token) h
execute-Sound w (expire_claim_cmd a) d h =
    mutate-Sound w (expire_claim w a) d (expire_change-KeepsInv w a) h
execute-Sound w (hold_cmd a held) d h =
    checked-Sound w a.run_id d h (evidence_path w held.evidence) _
      (λ proof. mutate-Sound w _ d (hold_change-KeepsInv w a held proof) h)
execute-Sound w (complete_cmd a evidence revision report) d h =
    checked-Sound w a.run_id d h (evidence_path w evidence) _
      (λ proof. mutate-Sound w _ d (complete_change-KeepsInv w a revision report proof) h)
execute-Sound w (fail_cmd a reason report) d h =
    mutate-Sound w (fail a reason report) d (fail_change-KeepsInv w a reason report) h
execute-Sound w (release_step_cmd a reason report) d h =
    mutate-Sound w (release_step a reason report) d (release_change-KeepsInv w a reason report) h
execute-Sound w (cancel_run_cmd a actor_id reason) d h =
    checked-Sound w a.run_id d h (refuse (w.strip a.actor == "") _) _ (λ _.
      checked-Sound w a.run_id d h
        (require (leb 1 (text_length (w.strip reason)) && leb (text_length (w.strip reason)) 200) _)
        _ (λ _. mutate-Sound w _ d (cancel_change-KeepsInv w a (w.strip reason)) h))
execute-Sound w (send_message_cmd a m) d h =
    checked-Sound w a.run_id d h (require (is_slug m.message_id) _) _ (λ _.
      checked-Sound w a.run_id d h (evidence_path w m.payload) _ (λ proof.
        checked-Sound w a.run_id d h (require (member m.kind message_kinds) _) _ (λ _.
          checked-Sound w a.run_id d h (require (member m.classification classifications) _) _ (λ _.
            checked-Sound w a.run_id d h
              (require
                (leb 1 (text_length (w.strip m.subject))
                  && leb (text_length (w.strip m.subject)) 160)
                _)
              _ (λ _. mutate-Sound w _ d (send_change-KeepsInv w a m proof) h)))))
execute-Sound w (check_approve_cmd a id spend) d h =
    mutate-Sound w (check_approve w a id spend) d (check_approve_change-KeepsInv w a id spend) h
execute-Sound w (check_return_cmd a id spend) d h =
    mutate-Sound w (check_return w a id spend) d (check_return_change-KeepsInv w a id spend) h
execute-Sound w (check_reject_cmd a id spend) d h =
    mutate-Sound w (check_reject w a id spend) d (check_reject_change-KeepsInv w a id spend) h
execute-Sound w (extend_budget_cmd a cycles) d h = extend_budget-Sound w a cycles d h

-- Commands to one run, on one host: Python's hash and strip do not change between them.
abbrev pub OneRun : World → String → List (World × Command) → Type 0
OneRun w id [] = Unit
OneRun w id ((w', c) ∷ rest) =
    (w.revision ≡ w'.revision) × (w.strip ≡ w'.strip) × ((args_of c).run_id ≡ id) × OneRun w id rest

Sound-world :
    (w w' : World) (id : String) (d : Disk)
    → w.revision ≡ w'.revision
    → w.strip ≡ w'.strip
    → Sound w id d
    → Sound w' id d
Sound-world w w' id d same strips (rs, e, h) = (
  rs,
  read_events-revision w w' id d.file rs same e,
  subst (λ (f : String → String). AllRuns (Inv f) rs) strips h,
)

-- After any sequence of commands to one run, in worlds that share the hash function and `strip`, and
-- whether each succeeds or not, the file still reads as a chain of states that all have the invariant,
-- if it did before. The invariant: attempts and reviews within their limits, claims only on steps in
-- progress, no red step ever run, a yellow one only under an approval reference, a completed step
-- signed by its checker, all dependencies completed before a step leaves `pending`, a completed run
-- with all its steps completed, and the bill the sum of the planning and of the steps.
pub run_commands-Sound :
    (w : World) (id : String) (cs : List (World × Command)) (d : Disk)
    → OneRun w id cs
    → Sound w id d
    → Sound w id (run_commands cs d)
unfolding run_commands
run_commands-Sound w id [] d k h = h
run_commands-Sound w id ((w', c) ∷ rest) d (same, strips, name, k) h =
    let before = Sound-world w w' id d same strips h in
    let after = execute-Sound w' c d (subst (λ (x : String). Sound w' x d) (sym name) before) in
    run_commands-Sound w id rest (execute w' c d).1 k (
      Sound-world w' w id (execute w' c d).1 (sym same) (sym strips)
        (subst (λ (x : String). Sound w' x (execute w' c d).1) name after))
