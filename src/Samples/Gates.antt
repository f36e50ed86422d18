-- ===== src/Samples/Gates.antt =====
-- The theorems on the gate, the claims and the dependents, applied to the sample run.
use my_org.Common.{ℕ, zero, suc, ◌≡◌, refl, ap, none, some, [], ◌∷◌, pos}
use my_org.Result.{ok}
use my_org.Audit.{other, append}
use my_org.Steps.{ready, awaiting_approval, completed, Step, get, put}
use my_org.Run.{active, blocked_cycle_limit, Run}
use my_org.Run.Log.{read_events, append_event, sealed_row}
use my_org.Run.Claims.{claim_token_for}
use my_org.Run.Mutate.{Outcome, write_event, stamped, mutate}
use my_org.Verbs.{gate_entry, deps_completed, release_dependents}
use my_org.Verbs.Life.{request_step, approve, approve_change, approve_entry}
use my_org.Verbs.Claim.{Held}
use my_org.Verbs.Budget.{extend_budget}
use my_org.Verbs.Invariant.Release.{Released, release_dependents-Released}
use my_org.Verbs.Extend.{Extension, extend_budget-Extension}
use my_org.Verbs.Gate.{Granted, approve-Granted}
use my_org.Verbs.Refused.{Refused, request_step-unclassified}
use my_org.Verbs.Fencing.{Fenced, stale_token-Fenced}
use my_org.Samples.{
  unary, world, new_step, run_of, first_row, disk_of, reads, args, draft, drafting, send, two_steps,
  drafting_run, row_or,
}

unary-injective : (i j : ℕ) → unary i ≡ unary j → i ≡ j
unary-injective zero zero h = refl
unary-injective zero (suc j) h = cc
unary-injective (suc i) zero h = cc
unary-injective (suc i) (suc j) h = ap suc (unary-injective i j (cc))

-- A run whose yellow step waits for a person.
abbrev done_draft : Step
done_draft = record draft { status = completed; attempts = 1 }

abbrev parked_run : Run
parked_run =
    run_of active 3
      (("draft", done_draft) ∷ ("send", record send { status = awaiting_approval }) ∷ [])

abbrev grant : Outcome
grant = mutate world (approve world (args "send" "boss" "r-5") none "PO-1") (disk_of parked_run)

grant-run : grant ≡ (ok (row_or grant.0 (first_row parked_run)), grant.1)
unfolding mutate approve approve_change approve_entry gate_entry append read_events get put
    write_event append_event sealed_row stamped
grant-run = refl

approve-Granted_example : Granted world "boss" [] grant.1.audit_log
approve-Granted_example =
    approve-Granted world (args "send" "boss" "r-5") none "PO-1" (disk_of parked_run) grant.1
      (first_row parked_run ∷ []) (first_row parked_run) (row_or grant.0 (first_row parked_run))
      (reads parked_run) refl refl grant-run

-- A policy that classes an action as "purple".
abbrev purple_step : Step
purple_step = new_step ready "paint" (other "purple") []

abbrev purple_run : Run
purple_run = run_of active 0 (("paint", purple_step) ∷ [])

request_step-unclassified_example :
    Refused world "demo-run"
      (disk_of purple_run)
      (first_row purple_run ∷ [])
      (first_row purple_run)
      (mutate world (request_step world (args "paint" "content" "r-1") none) (disk_of purple_run))
unfolding get
request_step-unclassified_example =
    request_step-unclassified world (args "paint" "content" "r-1") none (disk_of purple_run)
      (first_row purple_run ∷ []) (first_row purple_run) purple_step "purple" (reads purple_run)
      refl refl refl refl

abbrev held : Held
held = record {
  evidence = "outputs/draft.md";
  reason = "late";
  kind = none;
  spend = pos 0;
  claim_token = some "demo-run#1";
}

stale_token-Fenced_example :
    Fenced world
      (args "draft" "content" "r-9")
      (first_row drafting_run).payload
      "demo-run#1"
      "rev"
      "late"
      (pos 0)
      held
      ("outputs/draft.md", "sha-bytes")
unfolding get claim_token_for
stale_token-Fenced_example =
    stale_token-Fenced world (args "draft" "content" "r-9") (first_row drafting_run).payload
      drafting 0 1 "rev" "late" (pos 0) held ("outputs/draft.md", "sha-bytes") unary-injective refl
      refl (λ h. cc)

-- The draft is done, so the step that waits for it is free.
abbrev drafted_run : Run
drafted_run = run_of active 2 (("draft", done_draft) ∷ ("send", send) ∷ [])

abbrev freed_run : Run
freed_run = run_of active 2 (("draft", done_draft) ∷ ("send", record send { status = ready }) ∷ [])

release_dependents-Released_example : Released drafted_run freed_run
unfolding release_dependents deps_completed get
release_dependents-Released_example = release_dependents-Released drafted_run freed_run refl

abbrev spent_run : Run
spent_run = run_of blocked_cycle_limit 9 two_steps

extend_budget-Extension_example :
    Extension world
      (args "" "boss" "r-7")
      5
      (disk_of spent_run)
      (first_row spent_run ∷ [])
      (first_row spent_run)
      (extend_budget world (args "" "boss" "r-7") 5 (disk_of spent_run))
extend_budget-Extension_example =
    extend_budget-Extension world (args "" "boss" "r-7") 5 (disk_of spent_run)
      (first_row spent_run ∷ []) (first_row spent_run) (reads spent_run) refl
