-- ===== src/Samples/Chains.antt =====
-- The theorems on the two hash chains, applied to sample files.
use my_org.Common.{◌≡◌, refl, none, some, List, [], ◌∷◌, ◌++◌, map, arith}
use my_org.Result.{ok}
use my_org.Audit
use my_org.Audit.{
  Entry, Sealed, sealed, green, yellow, other, not_required, granted, success, verify, append,
}
use my_org.Audit.Chain.{verify-append, verify_unique}
use my_org.Run.{Payload, Row, row}
use my_org.Run.Log.{read_events, append_event, sealed_row}
use my_org.Run.Log.Append.{append_event-readable, next_row}
use my_org.Run.Log.Unique.{NoCollision, read_events_unique}
use my_org.Samples.{host, world, first_row, disk_of, reads, new_run}

abbrev second_state : Payload
second_state = record (first_row new_run).payload {
  seq = 2;
  event = "step.taken";
  request_id = "r-1";
}

abbrev second_row : Row
second_row = next_row world "demo-run" none (first_row new_run ∷ []) second_state

abbrev two_lines : List Row
two_lines = first_row new_run ∷ second_row ∷ []

append_event-readable_example :
    (append_event world second_state (disk_of new_run).file ≡ ok (second_row, map row two_lines))
    × (read_events world "demo-run" (some (map row two_lines)) ≡ ok two_lines)
append_event-readable_example =
    append_event-readable world "demo-run" (disk_of new_run).file (first_row new_run ∷ [])
      second_state (reads new_run) (omega arith)

two_lines-NoCollision : NoCollision world two_lines two_lines
unfolding sealed_row
two_lines-NoCollision = ((λ h. refl, (λ h. cc, tt)), ((λ h. cc, (λ h. refl, tt)), tt))

two_lines-read : read_events world "demo-run" (some (map row two_lines)) ≡ ok two_lines
unfolding read_events sealed_row
two_lines-read = refl

read_events_unique_example : two_lines ≡ two_lines
unfolding sealed_row
read_events_unique_example =
    read_events_unique world "demo-run" (some (map row two_lines)) (some (map row two_lines))
      two_lines two_lines second_row second_row two_lines-NoCollision two_lines-read two_lines-read
      refl refl refl

-- The accountability log with one chained entry after a line from before the chain.
abbrev entry : Entry
entry = record {
  actor = "boss";
  action = "send_email";
  category = yellow;
  target = "demo-run/send";
  approval = granted;
  evidence = "runtime/runs/demo-run";
  outcome = success;
  note = "";
}

abbrev old_log : Audit.Log
old_log =
    Audit.plain "2024: before the chain"
    ∷ sealed (record {
      entry = entry;
      ts = 90;
      prev_hash = some "legacy";
      entry_hash = "send_email/demo-run/send";
    })
    ∷ []

abbrev new_log : Audit.Log
new_log = old_log ++ Audit.seal host entry old_log ∷ []

verify-append_example :
    (verify host new_log ≡ []) × (new_log ≡ old_log ++ Audit.seal host entry old_log ∷ [])
unfolding verify append
verify-append_example = verify-append host entry old_log new_log refl refl

verify_unique_example :
    ((Audit.split_chain old_log).1 ≡ (Audit.split_chain old_log).1)
    × (Audit.anchor host (Audit.split_chain old_log).0
        ≡ Audit.anchor host (Audit.split_chain old_log).0)
unfolding verify Audit.split_chain
verify_unique_example =
    verify_unique host old_log old_log (λ h. (refl, refl, refl), tt) refl refl refl refl
