-- ===== src/Driver.antt =====
-- `drive_step` of runtime/executor_drive.py, with what it calls of runtime/executor_core.py,
-- executor_steps.py and executor_grading.py: one step of a run, claimed, worked on by its department,
-- graded, and finished, failed, released or held. What is logged, and the brief for a person, are left
-- out; of a request only what the model could be asked about is kept.
pub mod Sends
pub mod Request
pub mod Work
pub mod Check
pub mod Loop
pub mod Settled
pub mod Returns
pub mod Sound
