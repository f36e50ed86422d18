-- ===== src/Planner/Delivers.antt =====
-- `plan` gets past attempts that fail.
use mathlib.Core.Path.{subst}
use my_org.Common.{ℕ, zero, suc, ◌+◌, ◌<◌, String, ◌≡◌, ◌∙◌, List, arith}
use my_org.Result.{ok}
use my_org.Run.World.{World}
use my_org.Workflow.{RawWorkflow}
use my_org.Planner.{
  Feedback, nothing, Backend, Turn, planned, again, stop, attempt_plan, Plan, charged, after_turn,
  plan_from, plan,
}

-- The loop goes past the attempts that do not stop it, to the first that yields a plan.
module _ (w : World) (b : Backend) (goal workflow_id : String) where
  -- An attempt that only asks for another.
  abbrev pub Repairs : ℕ → Type 0
  Repairs k =
      (feedback : Feedback)
      → (next : Feedback) × ((attempt_plan w b goal workflow_id k feedback).0 ≡ again next)

  -- An attempt that yields a plan, whatever was handed back.
  abbrev pub Delivers : ℕ → Type 0
  Delivers k =
      (feedback : Feedback)
      → (f : RawWorkflow) × ((attempt_plan w b goal workflow_id k feedback).0 ≡ planned f)

  abbrev pub RepairsUntil : ℕ → ℕ → Type 0
  RepairsUntil k zero = Unit
  RepairsUntil k (suc n) = Repairs k × RepairsUntil (suc k) n

  after_turn-planned :
      (rest : Feedback → Plan) (t : Turn × List ℕ) (f : RawWorkflow)
      → t.0 ≡ planned f
      → (after_turn rest t).0 ≡ ok f
  unfolding after_turn
  after_turn-planned rest (planned g, cs) f e = cc
  after_turn-planned rest (again next, cs) f e = cc
  after_turn-planned rest (stop x, cs) f e = cc

  after_turn-again :
      (rest : Feedback → Plan) (t : Turn × List ℕ) (next : Feedback)
      → t.0 ≡ again next
      → (after_turn rest t).0 ≡ (rest next).0
  unfolding after_turn charged
  after_turn-again rest (planned g, cs) next e = cc
  after_turn-again rest (again other, cs) next e = cc
  after_turn-again rest (stop x, cs) next e = cc

  plan_from-Delivers :
      (n left k : ℕ) (feedback : Feedback)
      → n < left
      → RepairsUntil k n
      → Delivers (k + n)
      → (f : RawWorkflow) × ((plan_from w b goal workflow_id left k feedback).0 ≡ ok f)
  unfolding plan_from
  plan_from-Delivers n zero k feedback h r d = absurd (omega (arith, h))
  plan_from-Delivers zero (suc left) k feedback h r d =
      let (f, e) = subst Delivers (omega arith) d feedback in (f, after_turn-planned _ _ f e)
  plan_from-Delivers (suc n) (suc left) k feedback h r d =
      let (next, e) = r.0 feedback in
      let (f, q) =
        plan_from-Delivers n left (suc k) next (omega (arith, h)) r.1
          (subst Delivers (omega arith) d) in
      (f, after_turn-again _ _ next e ∙ q)

-- If the first `n` attempts only ask for another, attempt `n + 1` delivers whatever was handed back, and more
-- than `n` attempts are allowed, then `plan` returns a workflow.
pub plan-Delivers :
    (w : World) (b : Backend) (goal workflow_id : String) (n attempts : ℕ)
    → n < attempts
    → RepairsUntil w b goal workflow_id 1 n
    → Delivers w b goal workflow_id (1 + n)
    → (f : RawWorkflow) × ((plan w b goal workflow_id attempts).0 ≡ ok f)
unfolding plan
plan-Delivers w b goal workflow_id n attempts h r d =
    plan_from-Delivers w b goal workflow_id n attempts 1 nothing h r d
