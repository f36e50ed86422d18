-- ===== src/Create/Gate/Decided.antt =====
-- What the gate decides: the policy's class of the action, and nothing else, says where it goes.
use mathlib.Core.Path.{subst}
use Prim.Native.String.{count, ◌++◌ as ◌<>◌}
use text.Mathlib.TextLemmas.{length-append}
use my_org.Common.{
  Bool-cases, inl, inr, String, ◌≡◌, refl, sym, ap, ◌∙◌, Option, none, some, [], ◌∷◌, arith, ◌==◌,
  find_first, eq_iff, some-injective,
}
use my_org.Result.{
  Result, ok, err, >>=-eq-ok, ok-injective, require->>, step_not_ready, not_step_owner,
}
use my_org.Audit.{Risk, green, yellow, red, other}
use my_org.Steps.{in_progress, awaiting_approval, blocked_human, Step, Steps, get, put, is_ready}
use my_org.Run.{Run, Payload, Row}
use my_org.Run.World.{World}
use my_org.Run.Log.{read_events, sealed_row}
use my_org.Run.Mutate.{Disk, Outcome, stamped, same_request, mutate}
use my_org.Run.Mutate.Outcome.{Effect, refuses, replays, stops, commits, mutate-Effect}
use my_org.Run.Mutate.Replay.{read_events-revision}
use my_org.Verbs.{or_default}
use my_org.Verbs.Life.{request_step, request_change, requested, dispatched}
use my_org.Verbs.Invariant.Moves.{on_step}
use my_org.Run.Claims.{mint_claim}
use my_org.Verbs.Gate.{request_step-not_ok}
use my_org.Create.Fresh.{Created, create_run-Created}
use my_org.Create.{create_run, created, read_workflow, new_step, risk_of, plan_steps, set_key}
use my_org.Create.Gate.{
  GateArgs, gate_workflow, gate_creation, gate_request, gate_checks, gate_end, gate_begin, gate,
}

-- Where a class of action leads: to work, to a person's decision, or back to a person.
abbrev pub Decided : Step → Type 0
Decided s = elim s.risk [
  | green ↦ s.status ≡ in_progress
  | yellow ↦ s.status ≡ awaiting_approval
  | red ↦ s.status ≡ blocked_human
  | other word ↦ ⊥
]

-- The only step of the run that the gate creates.
abbrev act_step : GateArgs → Risk → Step
act_step a risk =
    new_step
      (record {
        id = "act";
        owner = a.owner;
        checker = none;
        max_review_cycles = 0;
        action = a.action;
        max_attempts = 1;
        depends_on = [];
      })
      risk

gate-states :
    (w : World) (a : GateArgs) (summary : String) (states : Steps)
    → plan_steps w (read_workflow (gate_workflow a summary)).steps [] ≡ ok states
    → (risk : Risk) × (risk_of w a.action ≡ ok risk) × (states ≡ ("act", act_step a risk) ∷ [])
unfolding plan_steps gate_workflow read_workflow set_key
gate-states w a summary states e =
    let (risk, p, q) = >>=-eq-ok (risk_of w a.action) _ e in
    (risk, p, sym (ok-injective _ states q))

-- Where the request sends the step.
requested-Decided :
    (w : World) (a : GateArgs) (s : Payload) (holder : String) (risk : Risk)
    → ((word : String) → ¬ (risk ≡ other word))
    → s.steps ≡ ("act", act_step a risk) ∷ []
    → (t : Step) × (get "act" (requested w s (act_step a risk) "act" holder risk).steps ≡ some t)
      × (t.risk ≡ risk)
      × Decided t
unfolding requested dispatched get put mint_claim new_step
requested-Decided w a s holder green known e =
    let t =
      mint_claim w s (record (act_step a green) { status = in_progress; attempts = 1 }) holder in
    (t, rw e refl, refl, refl)
requested-Decided w a s holder yellow known e =
    (record (act_step a yellow) { status = awaiting_approval }, rw e refl, refl, refl)
requested-Decided w a s holder red known e =
    (record (act_step a red) { status = blocked_human }, rw e refl, refl, refl)
requested-Decided w a s holder (other word) known e = absurd (known word refl)

act-Decided :
    (w : World) (a : GateArgs) (s : Payload) (body : Run) (holder : Option String) (risk : Risk)
    → ((word : String) → ¬ (risk ≡ other word))
    → s.steps ≡ ("act", act_step a risk) ∷ []
    → request_change w (gate_request a) holder s ≡ ok body
    → (t : Step) × (get "act" body.steps ≡ some t) × (t.risk ≡ risk) × Decided t
unfolding request_change gate_request get new_step
act-Decided w a s body holder risk known e k =
    on_step is_ready step_not_ready "act" s.steps _ k λ step at_key ready k1.
      let same : step ≡ act_step a risk =
        some-injective step (act_step a risk) (sym at_key ∙ ap (λ (m : Steps). get "act" m) e) in
      let who = or_default holder a.owner in
      let moved = ok-injective _ body (require->> (a.owner == step.owner) not_step_owner _ k1).1 in
      let moved' : requested w s (act_step a risk) "act" who risk ≡ body =
        ap (λ (x : Step). requested w s x "act" who x.risk) (sym same) ∙ moved in
      subst (λ (r : Run). (t : Step) × (get "act" r.steps ≡ some t) × (t.risk ≡ risk) × Decided t)
        moved' (requested-Decided w a s who risk known e)

-- The two requests of a gate are never taken for one another.
distinct : (s : String) → ¬ ("gate-create-" <> s ≡ "gate-request-" <> s)
distinct s h =
    let longer =
      sym (length-append "gate-create-" s) ∙ ap count h ∙ length-append "gate-request-" s in
    omega (arith, longer)

-- The request on the file that the creation left.
module _ (w w' : World) (a : GateArgs) (summary : String) (d1 d' : Disk) (first r : Row)
    (same : w.revision ≡ w'.revision)
    (c : Created w (gate_creation a) (gate_workflow a summary) first d1)
    (e : mutate w' (request_step w' (gate_request a) (some a.owner)) d1 ≡ (ok r, d')) where
  first-reads : read_events w' a.run_id d1.file ≡ ok (first ∷ [])
  unfolding gate_creation
  first-reads = read_events-revision w w' a.run_id d1.file (first ∷ []) same c.reads

  first-new : find_first (same_request (gate_request a).request_id) (first ∷ []) ≡ none
  unfolding gate_creation gate_request created sealed_row
  first-new = elim (Bool-cases (first.request_id == ("gate-request-" <> a.request_id))) [
    | inl found_it ↦ absurd (
        distinct a.request_id (
          sym (ap (λ (x : Row). x.request_id) c.line)
          ∙ (eq_iff first.request_id ("gate-request-" <> a.request_id)).0 found_it))
    | inr other_id ↦ rw (find_first, other_id) refl
  ]

  classified :
      (risk : Risk)
      → first.steps ≡ ("act", act_step a risk) ∷ []
      → (word : String) → ¬ (risk ≡ other word)
  unfolding gate_request new_step get
  classified risk steps word k =
      request_step-not_ok w' (gate_request a) (some a.owner) d1 d' (first ∷ []) first r
        (act_step a risk) word first-reads refl first-new (rw steps refl) k e

  requested_row :
      (o : Outcome)
      → Effect w' (request_step w' (gate_request a) (some a.owner)) d1 (first ∷ []) first o
      → o.0 ≡ ok r
      → (body : Run) × (request_change w' (gate_request a) (some a.owner) first.payload ≡ ok body)
        × (r.steps ≡ body.steps)
  unfolding request_step gate_request stamped sealed_row
  requested_row o (refuses x q f) k = cc
  requested_row o (stops act q x adds) k = cc
  requested_row o (replays prior f m x) k = let never : none ≡ some prior = sym first-new ∙ f in cc
  requested_row o (commits body act n fresh b u q adds) k =
      (body, b, ap (λ (x : Row). x.steps) (ok-injective r _ (sym k ∙ q)))

  -- The states of the step, on the file that the creation left and on the line of the request.
  asked-Decided :
      (t : Step) × (get "act" r.steps ≡ some t) × (risk_of w a.action ≡ ok t.risk) × Decided t
  unfolding request_step gate_request created sealed_row
  asked-Decided =
      let (risk, p, q) = gate-states w a summary c.states c.planned in
      let at : first.steps ≡ ("act", act_step a risk) ∷ [] = ap (λ (x : Row). x.steps) c.line ∙ q in
      let effect =
        mutate-Effect w' (request_step w' (gate_request a) (some a.owner)) d1 (first ∷ []) first
          first-reads refl in
      let (body, b, here) = requested_row _ effect (ap (λ (o : Outcome). o.0) e) in
      let (t, found_t, same_risk, decided) =
        act-Decided w' a first.payload body (some a.owner) risk (classified risk at) at b in
      (t, rw here found_t, rw same_risk p, decided)

-- In two worlds that hash alike: a gate that succeeds leaves its step, whose risk
-- is the policy's for the action, in progress if that risk is green, waiting for a person's
-- approval if it is yellow, and handed back to a person if it is red; no other risk word passes.
pub gate-Decided :
    (w w' : World) (a : GateArgs) (d d' : Disk) (r : Row)
    → w.revision ≡ w'.revision
    → gate w w' a d ≡ (ok r, d')
    → (t : Step) × (get "act" r.steps ≡ some t) × (risk_of w a.action ≡ ok t.risk) × Decided t
unfolding gate gate_end gate_begin
gate-Decided w w' a d d' r same e = begun (gate_checks w a) e
  where
    created_first :
        (summary : String) (o : Outcome)
        → create_run w (gate_creation a) (gate_workflow a summary) d ≡ o
        → gate_end w' a o ≡ (ok r, d')
        → (t : Step) × (get "act" r.steps ≡ some t) × (risk_of w a.action ≡ ok t.risk) × Decided t
    created_first summary (err x, d1) q k = cc
    created_first summary (ok first, d1) q k =
        asked-Decided w w' a summary d1 d' first r same
          (create_run-Created w (gate_creation a) (gate_workflow a summary) d d1 first q).2 k

    begun :
        (s : Result String)
        → gate_begin w w' a d s ≡ (ok r, d')
        → (t : Step) × (get "act" r.steps ≡ some t) × (risk_of w a.action ≡ ok t.risk) × Decided t
    begun (err x) k = cc
    begun (ok summary) k = created_first summary _ refl k
