-- ===== src/Run/Claims.antt =====
-- The claims of runtime/run_state.py: who holds a step, until when, and with which token.
use Prim.Native.String.{◌++◌}
use my_org.Common.{
  ℕ, ◌+◌, String, Bool, false, not, ◌&&◌, Option, none, some, if◌then◌else◌, ◌==◌, ltb,
}
use my_org.Result.{Result, ok, err, stale_claim}
use my_org.Steps.{Step}
use my_org.Run.{Payload}
use my_org.Run.World.{World}

-- `str(expires) > now()`: "" is less than any time, and two times of one format compare as they are.
abbrev expires_after : Option ℕ → ℕ → Bool
expires_after none now = false
expires_after (some t) now = ltb now t

unfoldable pub claim_is_live : World → Step → Bool
claim_is_live w step = not (step.holder == "") && expires_after step.claim_expires_at w.checked_at

-- f"{run_id}#{seq + 1}".
unfoldable pub claim_token_for : World → String → ℕ → String
claim_token_for w run_id seq = run_id ++ ("#" ++ w.str (seq + 1))

unfoldable pub mint_claim : World → Payload → Step → String → Step
mint_claim w state step holder = record step {
  holder = holder;
  claim_token = claim_token_for w state.run_id state.seq;
  claim_expires_at = some (w.stamped_at + w.claim_seconds);
}

unfoldable pub release_claim : Step → Step
release_claim step = record step { holder = ""; claim_token = ""; claim_expires_at = none }

-- A caller that supplies no token is let through; any other token must be the current one.
unfoldable pub check_claim : Step → Option String → Result (Unit {0})
check_claim step none = ok tt
check_claim step (some supplied) = if supplied == step.claim_token then ok tt else err stale_claim
