-- ===== src/Result.antt =====
-- What the runtime raises. Each constructor of `Error` is one `raise SystemExit(...)` of
-- runtime/run_state.py, run_verbs.py, run_outcomes.py, run_review.py or audit.py, or of another
-- exception of the modules named below, without the text of its message; `key_error` and `index_error` are Python's own, for a dictionary and a list.
use my_org.Common.{String, ◌≡◌, refl, Bool, true, false, Option, none, some}

pub data Error : Type 0 where
  -- filelock.py
  lock_timeout : Error
  -- Python
  key_error index_error : Error
  -- run_state.py
  stale_claim invalid_policy invalid_run_id unknown_run invalid_json broken_sequence broken_chain
        hash_mismatch empty_run request_id_reused run_is_terminal max_cycles_reached
        unknown_run_status :
      Error
  -- run_verbs.py
  invalid_workflow graph_too_deep run_already_exists step_not_ready not_step_owner
        not_awaiting_approval approval_ref_required not_in_progress held_by_another not_the_holder
        unknown_step nobody_holds :
      Error
  -- run_outcomes.py
  evidence_outside evidence_missing no_submission submission_changed approver_required bad_extension
        not_out_of_cycles at_the_ceiling bad_cancel_reason stale_revision :
      Error
  -- run_review.py
  unclassified_gate_action unknown_department bad_summary not_awaiting_check not_step_checker
        no_checker_message message_of_another_step wrong_checker_message checker_message_changed
        invalid_message_id bad_classification bad_subject message_id_exists not_adjacent
        same_participants no_reply_target bad_reply bad_kind :
      Error
  -- audit.py
  audit_evidence_missing audit_field_missing bad_audit_category audit_not_writable : Error
  -- executor_core.py: an ExecutorError, with its text, and the last of `plan`'s own
  executor_error : String → Error
  no_valid_plan did_not_settle evidence_changed : Error
  -- triggers.py: a TriggerError
  short_interval bad_time_of_day unknown_schedule_kind queue_is_full : Error
  -- db_triggers.py: a StoreError
  bad_settlement already_settled schedule_not_found : Error
  -- an OSError
  os_error : Error

-- What a function of the runtime returns, or the exception that leaves it.
pub data Result {ℓ} (A : Type ℓ) : Type ℓ where
  err : Error → Result A
  ok : A → Result A

-- `if test: raise SystemExit(...)`.
abbrev pub refuse : Bool → Error → Result (Unit {0})
refuse false x = ok tt
refuse true x = err x

-- `if not test: raise SystemExit(...)`.
abbrev pub require : Bool → Error → Result (Unit {0})
require false x = err x
require true x = ok tt

infixl 5 ◌>>=◌
-- The next statement, where the one before it did not raise.
abbrev pub ◌>>=◌ {ℓ κ} : {A : Type ℓ} {B : Type κ} → Result A → (A → Result B) → Result B
err x >>= next = err x
ok value >>= next = next value

infixl 5 ◌>>◌
-- The same after a guard.
abbrev pub ◌>>◌ {ℓ} : {B : Type ℓ} → Result (Unit {0}) → Result B → Result B
check >> rest = check >>= λ _. rest

-- A value that may be missing, with what is raised then.
abbrev pub found {ℓ} : {A : Type ℓ} → Option A → Error → Result A
found none e = err e
found (some a) e = ok a

-- Inversion of a chain that succeeded, for proofs in which its parts stay shut.
module _ {ℓ κ} {A : Type ℓ} {B : Type κ} where
  pub >>=-eq-ok :
      (first : Result A) (next : A → Result B) {r : B}
      → first >>= next ≡ ok r
      → (value : A) × (first ≡ ok value) × (next value ≡ ok r)
  >>=-eq-ok (err x) next h = cc
  >>=-eq-ok (ok value) next h = (value, refl, h)

pub >>-eq-ok {ℓ} :
    {B : Type ℓ} (m : Result (Unit {0})) (k : Result B) {b : B} → (m >> k) ≡ ok b → k ≡ ok b
>>-eq-ok (ok a) k h = h
>>-eq-ok (err e) k h = cc

pub require-eq-ok : (b : Bool) (e : Error) {u : Unit {0}} → require b e ≡ ok u → b ≡ true
require-eq-ok true e h = refl
require-eq-ok false e h = cc

pub refuse-eq-ok : (b : Bool) (e : Error) {u : Unit {0}} → refuse b e ≡ ok u → b ≡ false
refuse-eq-ok true e h = cc
refuse-eq-ok false e h = refl

pub found-eq-ok {ℓ} :
    {A : Type ℓ} (o : Option A) (e : Error) {a : A} → found o e ≡ ok a → o ≡ some a
found-eq-ok none e h = cc
found-eq-ok (some b) e h = cc

pub ok-injective {ℓ} : {A : Type ℓ} (a b : A) → ok a ≡ ok b → a ≡ b
ok-injective a b h = cc

pub refuse->> {ℓ} :
    {B : Type ℓ} (b : Bool) (e : Error) (k : Result B) {v : B}
    → (refuse b e >> k) ≡ ok v
    → (b ≡ false) × (k ≡ ok v)
refuse->> true e k h = cc
refuse->> false e k h = (refl, h)

pub require->> {ℓ} :
    {B : Type ℓ} (b : Bool) (e : Error) (k : Result B) {v : B}
    → (require b e >> k) ≡ ok v
    → (b ≡ true) × (k ≡ ok v)
require->> true e k h = (refl, h)
require->> false e k h = cc
