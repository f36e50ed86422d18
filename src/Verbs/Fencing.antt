-- ===== src/Verbs/Fencing.antt =====
-- The tokens of the claims: a worker whose claim was taken over can no longer report.
use text.Mathlib.TextLemmas.{append_cancel_left}
use my_org.Common.{ℕ, ◌+◌, String, ◌≡◌, refl, ◌∙◌, some, arith, ◌==◌, ◌&&◌, eq_iff, ℤ}
use my_org.Result.{
  Result, ok, err, Error, ◌>>=◌, ◌>>◌, require, require->>, not_in_progress, not_step_owner,
  stale_revision, not_the_holder,
}
use my_org.Steps.{Step, get, is_in_progress}
use my_org.Run.{Run, Payload}
use my_org.Run.World.{World}
use my_org.Run.Claims.{claim_is_live, claim_token_for, check_claim}
use my_org.Verbs.{Args, step_in}
use my_org.Verbs.Claim.{renew_change, Held, hold_change}
use my_org.Verbs.End.{complete_change, fail_change, release_change}
use my_org.Verbs.Invariant.Moves.{on_step}

-- Tokens that one run mints at different positions of its file differ.
claim_token_for-injective :
    (w : World) (run_id : String) (m n : ℕ)
    → ((i j : ℕ) → w.str i ≡ w.str j → i ≡ j)
    → claim_token_for w run_id m ≡ claim_token_for w run_id n
    → m ≡ n
unfolding claim_token_for
claim_token_for-injective w run_id m n inj h =
    let k = inj (m + 1) (n + 1) (append_cancel_left "#" _ _ (append_cancel_left run_id _ _ h)) in
    omega (arith, k)

check_claim-stale :
    {B : Type 0} (step : Step) (token : String) (k : Result B) {b : B}
    → ¬ (token ≡ step.claim_token)
    → (check_claim step (some token) >> k) ≡ ok b
    → ⊥
unfolding check_claim
check_claim-stale step token k other h = ground (arith, eq_iff token step.claim_token)

abbrev Raises : Result Run → Type 0
Raises m = (x : Error) × (m ≡ err x)

not_ok→Raises : (m : Result Run) → ((r : Run) → m ≡ ok r → ⊥) → Raises m
not_ok→Raises (err x) never = (x, refl)
not_ok→Raises (ok r) never = absurd (never r refl)

module _ (w : World) (a : Args) (s : Payload) (step : Step) (token : String)
    (at_key : get a.step s.steps ≡ some step) (stale : ¬ (token ≡ step.claim_token)) where
  other_token : (t : Step) → get a.step s.steps ≡ some t → ¬ (token ≡ t.claim_token)
  other_token t g h = stale (ground (arith, at_key, g, h))

  report-stops :
      (f : Step → Result Run) {r : Run}
      → (step_in is_in_progress not_in_progress a.step s.steps >>= λ t.
          require (a.actor == t.owner) not_step_owner >> (check_claim t (some token) >> f t))
        ≡ ok r
      → ⊥
  report-stops f e = on_step is_in_progress not_in_progress a.step s.steps _ e λ t g going e1.
      check_claim-stale t token (f t) (other_token t g)
        (require->> (a.actor == t.owner) not_step_owner _ e1).1

  complete_change-Raises :
      (revision : String) (spend : ℤ) (proof : String × String)
      → Raises (
          complete_change w a revision (record { spend = spend; claim_token = some token }) proof s)
  unfolding complete_change
  complete_change-Raises revision spend proof =
      not_ok→Raises _
        λ r e. report-stops _ (require->> (revision == s.workflow_revision) stale_revision _ e).1

  fail_change-Raises :
      (reason : String) (spend : ℤ)
      → Raises (fail_change a reason (record { spend = spend; claim_token = some token }) s)
  unfolding fail_change
  fail_change-Raises reason spend = not_ok→Raises _ λ r e. report-stops _ e

  release_change-Raises :
      (reason : String) (spend : ℤ)
      → Raises (release_change a reason (record { spend = spend; claim_token = some token }) s)
  unfolding release_change
  release_change-Raises reason spend = not_ok→Raises _ λ r e. report-stops _ e

  hold_change-Raises :
      (h : Held) (proof : String × String)
      → Raises (hold_change a (record h { claim_token = some token }) proof s)
  unfolding hold_change
  hold_change-Raises h proof = not_ok→Raises _ λ r e. report-stops _ e

  renew_change-Raises : Raises (renew_change w a token s)
  unfolding renew_change
  renew_change-Raises = not_ok→Raises _ λ r e.
      on_step is_in_progress not_in_progress a.step s.steps _ e λ t g going e1.
        check_claim-stale t token _ (other_token t g)
          (require->> (claim_is_live w t && t.holder == a.actor) not_the_holder _ e1).1

-- All that a worker can report of a step raises, if it names this token.
abbrev pub Fenced :
    World → Args → Payload → String → String → String → ℤ → Held → String × String → Type 0
Fenced w a s token revision reason spend held proof =
    Raises
      (complete_change w a revision (record { spend = spend; claim_token = some token }) proof s)
    × Raises (fail_change a reason (record { spend = spend; claim_token = some token }) s)
    × Raises (release_change a reason (record { spend = spend; claim_token = some token }) s)
    × Raises (hold_change a (record held { claim_token = some token }) proof s)
    × Raises (renew_change w a token s)

-- If `str` does not write two numbers alike: a worker that names the token of another claim on the
-- step than the one that holds it now, because it was minted at another position of the run's file,
-- can no longer complete the step, fail it, release it, hold it or renew the claim, whatever else it
-- says: each raises, and makes no state.
pub stale_token-Fenced :
    (w : World) (a : Args) (s : Payload) (step : Step) (m n : ℕ) (revision reason : String)
    (spend : ℤ) (held : Held) (proof : String × String)
    → ((i j : ℕ) → w.str i ≡ w.str j → i ≡ j)
    → get a.step s.steps ≡ some step
    → step.claim_token ≡ claim_token_for w s.run_id n
    → ¬ (m ≡ n)
    → Fenced w a s (claim_token_for w s.run_id m) revision reason spend held proof
stale_token-Fenced w a s step m n revision reason spend held proof inj g c differ =
    let token = claim_token_for w s.run_id m in
    let stale : ¬ (token ≡ step.claim_token) =
      λ h. differ (claim_token_for-injective w s.run_id m n inj (h ∙ c)) in
    (
      complete_change-Raises w a s step token g stale revision spend proof,
      fail_change-Raises w a s step token g stale reason spend,
      release_change-Raises w a s step token g stale reason spend,
      hold_change-Raises w a s step token g stale held proof,
      renew_change-Raises w a s step token g stale,
    )
