-- ===== src/Run/Log.antt =====
-- `read_events` and `append_event` of runtime/run_state.py: the append-only, hash-chained file of a
-- run. Lines are split at line ends, and a line parses to a state or is no JSON.
pub mod Append
pub mod Unique
use my_org.Common.{
  ℕ, suc, String, Bool, true, false, Option, none, some, List, [], ◌∷◌, ◌++◌, ◌==◌, eqb, last?,
  is_slug,
}
use my_org.Result.{
  Result, ok, err, ◌>>=◌, ◌>>◌, require, found, invalid_run_id, unknown_run, invalid_json,
  broken_sequence, broken_chain, hash_mismatch, empty_run,
}
use my_org.Audit.{same_hash}
use my_org.Run.{Payload, Row, Line, unreadable, row}
use my_org.Run.World.{World}

-- The loop over the lines, from the line number and the hash that the next line must carry.
unfoldable pub read_from : World → ℕ → Option String → List Line → Result (List Row)
read_from w number previous [] = ok []
read_from w number previous (unreadable ∷ ls) = err invalid_json
read_from w number previous (row r ∷ ls) = do
  require (eqb r.seq number) broken_sequence
  require (same_hash r.prev_event_hash previous) broken_chain
  require (r.event_hash == w.revision r.payload) hash_mismatch
  rest ← read_from w (suc number) (some r.event_hash) ls
  ok (r ∷ rest)

abbrev pub non_empty : List Row → Result (List Row)
non_empty [] = err empty_run
non_empty (r ∷ rs) = ok (r ∷ rs)

-- `file` is none where the run's file does not exist.
unfoldable pub read_events : World → String → Option (List Line) → Result (List Row)
unfolding read_from is_slug
read_events w run_id file = do
  require (is_slug run_id) invalid_run_id
  lines ← found file unknown_run
  rows ← read_from w 1 none lines
  non_empty rows

-- The `event_hash` of the last line; a last line that is no JSON raises.
abbrev pub last_hash : Option Line → Result (Option String)
last_hash none = ok none
last_hash (some unreadable) = err invalid_json
last_hash (some (row r)) = ok (some r.event_hash)

abbrev pub lines_of : Option (List Line) → List Line
lines_of none = []
lines_of (some lines) = lines

-- The line for a state: the hash of the line before it, then its own.
unfoldable pub sealed_row : World → Payload → Option String → Row
sealed_row w state previous =
    let state' = record state { prev_event_hash = previous } in
    record { payload = state'; event_hash = w.revision state' }

-- The line written, and the file with it at its end.
unfoldable pub append_event : World → Payload → Option (List Line) → Result (Row × List Line)
unfolding sealed_row
append_event w state file = do
  previous ← last_hash (last? (lines_of file))
  let line = sealed_row w state previous
  ok (line, lines_of file ++ row line ∷ [])
