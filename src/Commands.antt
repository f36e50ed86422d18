-- ===== src/Commands.antt =====
-- runtime/company_runtime.py: the commands that `parser` dispatches to the verbs, and their effect on
-- the disk. `status` and `validate` only read; `create-run` and `gate` are in Create.
pub mod History
pub mod Final
use my_org.Common.{ℕ, String, ℤ, Option, List, [], ◌∷◌}
use my_org.Result.{Result, ok, err}
use my_org.Run.World.{World}
use my_org.Run.Mutate.{Disk, Verb, Outcome, mutate}
use my_org.Verbs.{Args}
use my_org.Verbs.Life.{request_step, approve, reject}
use my_org.Verbs.Claim.{take, renew_claim, expire_claim, Held, hold}
use my_org.Verbs.End.{Report, complete, fail, release_step, cancel_run}
use my_org.Verbs.Budget.{extend_budget}
use my_org.Verbs.Review.{Draft, send_message, check_approve, check_return, check_reject}

pub data Command : Type 0 where
  request_step_cmd : Args → Option String → Command
  approve_cmd : Args → Option String → String → Command
  reject_cmd : Args → Option String → String → Command
  take_cmd : Args → String → Command
  renew_claim_cmd : Args → String → Command
  expire_claim_cmd : Args → Command
  hold_cmd : Args → Held → Command
  complete_cmd : Args → String → String → Report → Command
  fail_cmd : Args → String → Report → Command
  release_step_cmd : Args → String → Report → Command
  cancel_run_cmd : Args → Option String → String → Command
  send_message_cmd : Args → Draft → Command
  check_approve_cmd : Args → String → ℤ → Command
  check_return_cmd : Args → String → ℤ → Command
  check_reject_cmd : Args → String → ℤ → Command
  extend_budget_cmd : Args → ℕ → Command

-- A verb whose arguments were refused before the run was read changes nothing.
unfoldable pub mutate_checked : World → Result Verb → Disk → Outcome
mutate_checked w (err e) d = (err e, d)
mutate_checked w (ok v) d = mutate w v d

unfoldable pub execute : World → Command → Disk → Outcome
unfolding mutate_checked
execute w (request_step_cmd a holder) d = mutate w (request_step w a holder) d
execute w (approve_cmd a actor_id ref) d = mutate w (approve w a actor_id ref) d
execute w (reject_cmd a actor_id ref) d = mutate w (reject w a actor_id ref) d
execute w (take_cmd a holder) d = mutate w (take w a holder) d
execute w (renew_claim_cmd a token) d = mutate w (renew_claim w a token) d
execute w (expire_claim_cmd a) d = mutate w (expire_claim w a) d
execute w (hold_cmd a held) d = mutate_checked w (hold w a held) d
execute w (complete_cmd a evidence revision report) d =
    mutate_checked w (complete w a evidence revision report) d
execute w (fail_cmd a reason report) d = mutate w (fail a reason report) d
execute w (release_step_cmd a reason report) d = mutate w (release_step a reason report) d
execute w (cancel_run_cmd a actor_id reason) d = mutate_checked w (cancel_run w a actor_id reason) d
execute w (send_message_cmd a draft) d = mutate_checked w (send_message w a draft) d
execute w (check_approve_cmd a id spend) d = mutate w (check_approve w a id spend) d
execute w (check_return_cmd a id spend) d = mutate w (check_return w a id spend) d
execute w (check_reject_cmd a id spend) d = mutate w (check_reject w a id spend) d
execute w (extend_budget_cmd a cycles) d = extend_budget w a cycles d

abbrev pub args_of : Command → Args
args_of (request_step_cmd a _) = a
args_of (approve_cmd a _ _) = a
args_of (reject_cmd a _ _) = a
args_of (take_cmd a _) = a
args_of (renew_claim_cmd a _) = a
args_of (expire_claim_cmd a) = a
args_of (hold_cmd a _) = a
args_of (complete_cmd a _ _ _) = a
args_of (fail_cmd a _ _) = a
args_of (release_step_cmd a _ _) = a
args_of (cancel_run_cmd a _ _) = a
args_of (send_message_cmd a _) = a
args_of (check_approve_cmd a _ _) = a
args_of (check_return_cmd a _ _) = a
args_of (check_reject_cmd a _ _) = a
args_of (extend_budget_cmd a _) = a

-- One command after the other, each in the world of its own time; an error ends only its own command.
unfoldable pub run_commands : List (World × Command) → Disk → Disk
unfolding execute
run_commands [] d = d
run_commands ((w, c) ∷ rest) d = run_commands rest (execute w c d).1
