-- ===== src/Lib.antt =====
-- MyOrg runs a plan of steps by agents of its departments. The runtime is the part that must not be
-- wrong: a run is an append-only, hash-chained file of states, every change goes through one function,
-- and whatever leaves the building waits for a person and leaves an entry in an audit log. This library
-- models that part of runtime/ and proves what it keeps.
--
-- Parts, and the files that model them:
--   Audit          runtime/audit.py: `append`, `validate`, `split_chain`, `anchor` and `verify` on the
--                  list of the log's lines. Audit/Chain: what the chain keeps and detects.
--   Steps          the dictionary of steps that `create_run` makes and the verbs change; Steps/Laws.
--   Run            runtime/run_state.py: a run (`Run`), the state of a mutation (`Payload`), a line (`Row`).
--   Run/World      what comes from outside: the clock, the locks, the files, the policy, the registry,
--                  Python's `str` and `strip`, and the hash. All are parameters.
--   Run/Claims     `claim_is_live`, `mint_claim`, `release_claim`, `check_claim`.
--   Run/Log        `read_events` and `append_event`. Run/Log/Append, Run/Log/Unique: their theorems.
--   Run/Mutate     `mutate` and `record_terminal`, cut at its early exits. Outcome: what it can do to
--                  the disk. Keeps: invariants. Replay: idempotence. Audited,
--                  Ends, Trail: the audit log.
--   Workflow       `validate_workflow` of runtime/run_state.py; Workflow/Graph: its search for cycles.
--                  Workflow/Valid, Acyclic, Accepts and Workflow/Graph's children: what they accept.
--   Create         `create_run`; Create/Fresh: its theorem. Create/Gate: `gate` of runtime/run_review.py.
--   Verbs          `evidence_path`, `release_dependents`, `charge`, `attribution`, which the verbs share.
--   Verbs/Life     runtime/run_verbs.py: request_step, approve, reject.
--   Verbs/Claim    runtime/run_verbs.py: take, renew_claim, expire_claim, hold.
--   Verbs/End      runtime/run_outcomes.py: complete, fail, release_step, cancel_run.
--   Verbs/Budget   runtime/run_outcomes.py: extend_budget.
--   Verbs/Review   runtime/run_review.py: send_message, check_approve, check_return, check_reject.
--   Verbs/Invariant, Verbs/Extend, Verbs/Gate, Verbs/Refused, Verbs/Fencing: their theorems.
--   Commands       runtime/company_runtime.py: the commands that call the verbs. Commands/History and
--                  Commands/Final: what holds after any sequence of them.
--   Approvals      runtime/approvals.py: `parked_at`; Approvals/Waiting: its theorem.
--   Backends       runtime/backends.py: which failures say that the other end is busy.
--   Planner        runtime/planner.py: `enforce_budget`, `validation_errors` and `plan`.
--   Health         runtime/health.py: `classify`, `health`, `all_health`, over `run_files` of
--                  runtime/run_state.py. Health/Running, Health/Worst: their theorems.
--   Triggers       runtime/triggers.py over runtime/db_triggers.py: Queue (the table of requests and
--                  `enqueue`), Schedules (`next_fire`, `fire_due_schedules`), Flight
--                  (`in_flight`), Start (`start_queued`).
--   Notices        runtime/notify.py: the outbox. Notices/Once, Unique, Told: their theorems.
--   Driver         runtime/executor_drive.py with executor_core.py, executor_steps.py,
--                  executor_grading.py, checking.py and prompts.py: Sends (the commands that the driver
--                  sends), Request (what a department is asked), Work (`drive_step`), Check
--                  (`drive_check`), Loop (`advance`). Sound, Settled, Returns: their theorems.
--   Samples        a concrete world and run, with the theorems applied to them.
--   Common, Result helpers; `Error` has one constructor for each SystemExit.
--
-- How the parts interact: a command makes a verb, which is a change of the last state and the audit
-- entry of a gated transition. `mutate` reads the file, answers a repeated request, refuses a run that
-- has ended, ends a run out of cycles, and else applies the change, appends the audit entries and only
-- then the new state. `extend_budget` alone writes its own line.
--
-- A request reaches the queue by an operator or by a schedule that fired; `start_queued` takes the first
-- with chances left, asks the planner for a workflow, and creates its run, unless a run is moving.
--
-- How it is modelled: a `Disk` is one run's file and the audit log, and what was written before an
-- error stays written. Each mutation has a `World` of its own time, with three readings of the clock.
-- Money is in millionths of a dollar, to which the source rounds; a spend may be negative. Times are
-- seconds. A checker that is None or "" is none. A line of a file is a state or text that is no JSON;
-- texts of errors and what is printed are left out. Loops are structural recursion; only the search
-- for cycles takes a depth, one more than the number of steps, which is shown to be enough, and `plan`
-- the number of attempts that the source gives it. A table of the database is the list of its rows by
-- rowid. What a model call answers, and what text parses to, are parameters; a moment of a schedule is in
-- microseconds. The text of a failure, which a request keeps, is a parameter of the pass.
-- The loop of `release_dependents` asks of the steps before the loop, since it completes none. The claim
-- length and MYORG_RUN_CEILING_USD are not negative.
--
-- The driver drives one step at a time, as it does by default; its loop takes the number of passes that
-- the source gives it, and ends with the source's own error when they are used up.
--
-- Not modelled: steps in parallel threads, the scheduler's leases, the webhook door, connectors, the other stores and
-- the HTTP service around the state machine; prompts; `status` and `validate`, which print.
pub mod Approvals
pub mod Audit
pub mod Backends
pub mod Commands
pub mod Common
pub mod Create
pub mod Driver
pub mod Health
pub mod Notices
pub mod Planner
pub mod Result
pub mod Run
pub mod Samples
pub mod Steps
pub mod Triggers
pub mod Verbs
pub mod Workflow
