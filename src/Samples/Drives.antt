-- ===== src/Samples/Drives.antt =====
-- The theorems on the driver, applied to the sample run.
use my_org.Common.{◌≡◌, refl, true, false, some, [], ◌∷◌}
use my_org.Result.{ok}
use my_org.Run.{Row}
use my_org.Audit.{append}
use my_org.Steps.{get, put}
use my_org.Run.Log.{append_event}
use my_org.Run.Claims.{claim_token_for}
use my_org.Run.Mutate.{write_event, mutate}
use my_org.Verbs.{gate_entry, deps_completed}
use my_org.Verbs.Life.{request_step, request_change, request_entry}
use my_org.Verbs.End.{complete, complete_change}
use my_org.Backends.{is_transient}
use my_org.Commands.History.{Sound}
use my_org.Planner.{answered}
use my_org.Driver.Sends.{Driver}
use my_org.Driver.Check.{returns}
use my_org.Driver.Loop.{Crew, advance}
use my_org.Driver.Settled.{advance-Sound}
use my_org.Driver.Returns.{Returns, advance-Returns}
use my_org.Samples.{world, new_run, first_row, disk_of, row_or}
use my_org.Samples.History.{new_run-Sound}

-- A driver whose departments answer at once and whose grader is content.
abbrev driver : Driver
driver = record {
  at = λ stage. world;
  holder = "executor-1";
  fresh_id = "0";
  backend = λ request.
      answered
        "The newsletter of this month: three products, each with its price, its picture and a link to its own page in the shop. The first is the lamp, the second the chair, the third the small table, and the last line asks the reader to answer."
        120;
  grade = λ attempt step_id criteria output. answered "MEETS" 5;
  meets = λ verdict. true;
  asks = λ opening. false;
  snapshot = some (("draft", "names three products" ∷ []) ∷ []);
  message = λ x. "evidence";
  budget_note = λ spent ceiling. "over budget";
  lower = λ text. text;
}

abbrev crew : Crew
crew = record {
  driver = λ pass step_id. driver;
  checker = λ pass step_id. record {
    review = λ key checker text. answered "RETURN" 5;
    verdict_word = λ text. some returns;
    message_id = λ key. "chk-1";
  };
  reader = λ pass. driver;
  halt = λ pass. false;
}

advance-Sound_example : Sound world "demo-run" (advance crew "demo-run" 5 (disk_of new_run)).1
advance-Sound_example =
    advance-Sound world crew "demo-run" 5 (disk_of new_run) (λ pass step_id stage. (refl, refl))
      new_run-Sound

abbrev last_row : Row
last_row = row_or (advance crew "demo-run" 5 (disk_of new_run)).0 (first_row new_run)

advance-run :
    advance crew "demo-run" 5 (disk_of new_run)
    ≡ (ok last_row, (advance crew "demo-run" 5 (disk_of new_run)).1)
unfolding advance get mutate request_step request_change request_entry put write_event append_event
    complete complete_change claim_token_for deps_completed append gate_entry
advance-run = refl

advance-Returns_example :
    Returns crew "demo-run" 5 last_row (advance crew "demo-run" 5 (disk_of new_run)).1
advance-Returns_example =
    advance-Returns crew "demo-run" 5 (disk_of new_run)
      (advance crew "demo-run" 5 (disk_of new_run)).1 last_row advance-run

-- A reply that is no JSON can be taken for a busy server, by the position at which it breaks.
test_is_transient :
    is_transient
      (λ text. text)
      "planner returned invalid JSON: Expecting value: line 1 column 503 (char 502)"
    ≡ true
unfolding is_transient
test_is_transient = refl
