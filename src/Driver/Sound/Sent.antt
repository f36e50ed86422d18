-- ===== src/Driver/Sound/Sent.antt =====
-- Each command that the driver sends keeps the invariant of its run.
use my_org.Common.{ℕ, String, ◌≡◌, refl, Option, some, [], ◌∷◌}
use my_org.Result.{Result, ok, err}
use my_org.Run.World.{World}
use my_org.Run.Mutate.{Disk}
use my_org.Commands.{Command, args_of, execute, run_commands, request_step_cmd, take_cmd}
use my_org.Commands.History.{Sound, run_commands-Sound}
use my_org.Driver.Sends.{
  Stage, claiming, taking, failing, releasing, Driver, send_with, token_for, claim, take, finish,
  release_step, record_failure, hold_step, complete_with, release_with, fail_with, hold_with,
  args_at, args_as,
}

-- The worlds of the driver hash and strip as one.
abbrev pub OneHost : World → Driver → Type 0
OneHost w h =
    (stage : Stage) → (w.revision ≡ (h.at stage).revision) × (w.strip ≡ (h.at stage).strip)

module _ (w : World) (h : Driver) (id : String) (host : OneHost w h) where
  pub execute-Sound :
      (stage : Stage) (c : Command) (d : Disk)
      → (args_of c).run_id ≡ id
      → Sound w id d
      → Sound w id (execute (h.at stage) c d).1
  unfolding run_commands
  execute-Sound stage c d name s =
      run_commands-Sound w id ((h.at stage, c) ∷ []) d ((host stage).0, (host stage).1, name, tt) s

  send_with-Sound :
      (stage : Stage) (command : Option String → Command) (d : Disk)
      (token : Result (Option String))
      → ((t : Option String) → (args_of (command t)).run_id ≡ id)
      → Sound w id d
      → Sound w id (send_with h id stage command d token).1
  unfolding send_with
  send_with-Sound stage command d (err x) name s = s
  send_with-Sound stage command d (ok token) name s =
      execute-Sound stage (command token) d (name token) s

  pub finish-Sound :
      (stage : Stage) (step_id owner evidence revision : String) (spend : ℕ) (d : Disk)
      → Sound w id d
      → Sound w id (finish h id stage step_id owner evidence revision spend d).1
  unfolding finish complete_with args_at args_as
  finish-Sound stage step_id owner evidence revision spend d s =
      send_with-Sound stage (complete_with h id stage step_id owner evidence revision spend d) d
        (token_for h id stage step_id d) (λ t. refl) s

  pub release_step-Sound :
      (step_id owner reason : String) (spend : ℕ) (d : Disk)
      → Sound w id d
      → Sound w id (release_step h id step_id owner reason spend d).1
  unfolding release_step release_with args_at args_as
  release_step-Sound step_id owner reason spend d s =
      send_with-Sound releasing (release_with h id step_id owner reason spend d) d
        (token_for h id releasing step_id d) (λ t. refl) s

  pub record_failure-Sound :
      (step_id owner reason : String) (spend : ℕ) (d : Disk)
      → Sound w id d
      → Sound w id (record_failure h id step_id owner reason spend d).1
  unfolding record_failure fail_with args_at args_as
  record_failure-Sound step_id owner reason spend d s =
      send_with-Sound failing (fail_with h id step_id owner reason spend d) d
        (token_for h id failing step_id d) (λ t. refl) s

  pub hold_step-Sound :
      (stage : Stage) (step_id owner artifact reason : String) (kind : Option String) (spend : ℕ)
      (d : Disk)
      → Sound w id d
      → Sound w id (hold_step h id stage step_id owner artifact reason kind spend d).1
  unfolding hold_step hold_with args_at args_as
  hold_step-Sound stage step_id owner artifact reason kind spend d s =
      send_with-Sound stage (hold_with h id stage step_id owner artifact reason kind spend d) d
        (token_for h id stage step_id d) (λ t. refl) s

  pub claim-Sound :
      (step_id owner : String) (d : Disk) → Sound w id d → Sound w id (claim h id step_id owner d).1
  unfolding claim args_at args_as
  claim-Sound step_id owner d s =
      execute-Sound claiming
        (request_step_cmd (args_at h id claiming step_id owner d) (some h.holder)) d refl s

  pub take-Sound :
      (step_id owner : String) (d : Disk) → Sound w id d → Sound w id (take h id step_id owner d).1
  unfolding take args_at args_as
  take-Sound step_id owner d s =
      execute-Sound taking (take_cmd (args_at h id taking step_id owner d) h.holder) d refl s
