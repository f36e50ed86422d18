-- ===== src/Workflow/Accepts.antt =====
-- `validate_workflow` lets through every workflow that the runtime can run.
use my_org.Common.{
  String, ◌≡◌, ◌↔◌, refl, Bool, true, false, not, Option, none, some, List, [], ◌∷◌, ◌++◌, ◌==◌,
  member, All,
}
use my_org.Result.{ok}
use my_org.Audit.{Risk}
use my_org.Run.World.{World}
use my_org.Workflow.{
  RawStep, RawWorkflow, Problem, check, listed, header_problems, checker_problems, review_problems,
  dependency_problems, step_problems, steps_problems, ids_of, graph_of, validate_workflow,
}
use my_org.Workflow.Valid.{Reviewed, IsStep}
use my_org.Workflow.Acyclic.{IsWorkflow, visit_nodes-Acyclic, validate_workflow-IsWorkflow}

pass : (b : Bool) (p : Problem) (ps : List Problem) → b ≡ true → ps ≡ [] → check b p ++ ps ≡ []
pass b p ps h e = rw (h, e) refl

pass_last : (b : Bool) (p : Problem) → b ≡ true → check b p ≡ []
pass_last b p h = rw h refl

false-not : (b : Bool) → b ≡ false → not b ≡ true
false-not b h = rw h refl

dependencies-nil :
    (ids : List String) (id : String) (ds : List String)
    → All (λ d. (member d ids ≡ true) × ((d == id) ≡ false)) ds
    → dependency_problems ids id ds ≡ []
unfolding dependency_problems
dependencies-nil ids id [] h = refl
dependencies-nil ids id (d ∷ ds) h =
    pass _ _ _ h.0.0 (pass _ _ _ (false-not _ h.0.1) (dependencies-nil ids id ds h.1))

review-nil :
    (w : World) (actions : String → Option Risk) (s : RawStep) (o : Option String)
    → s.checker ≡ o
    → Reviewed w actions s o
    → review_problems w actions s ≡ []
unfolding review_problems checker_problems
review-nil w actions s none k h = rw k (pass_last _ _ h)
review-nil w actions s (some c) k h = rw k (
    pass _ _ _ h.checker_known (
      pass _ _ _ (false-not _ h.apart)
        (pass _ _ _ h.on_green (pass _ _ _ h.reviews (pass_last _ _ h.enough)))))

step-nil :
    (w : World) (actions : String → Option Risk) (ids : List String) (s : RawStep)
    → IsStep w actions ids s
    → step_problems w actions ids s ≡ []
unfolding step_problems
step-nil w actions ids s h = pass _ _ _ h.slug (
    pass _ _ _ h.owned (
      rw (review-nil w actions s s.checker refl h.reviewed) (
        pass _ _ _ h.classified (
          pass _ _ _ h.attempts (
            pass _ _ _ h.listed_needs (dependencies-nil ids s.id (listed s.depends_on) h.known))))))

steps-nil :
    (w : World) (actions : String → Option Risk) (ids : List String) (ss : List RawStep)
    → All (IsStep w actions ids) ss
    → steps_problems w actions ids ss ≡ []
unfolding steps_problems
steps-nil w actions ids [] h = refl
steps-nil w actions ids (s ∷ ss) h =
    rw (step-nil w actions ids s h.0, steps-nil w actions ids ss h.1) refl

header-nil :
    (w : World) (actions : String → Option Risk) (f : RawWorkflow)
    → IsWorkflow w actions f
    → header_problems w f ≡ []
unfolding header_problems
header-nil w actions f h = pass _ _ _ h.version (
    pass _ _ _ h.slug
      (pass _ _ _ (false-not _ h.purpose) (pass _ _ _ h.cycles (pass_last _ _ h.some_steps))))

IsWorkflow-validate_workflow :
    (w : World) (actions : String → Option Risk) (f : RawWorkflow)
    → w.policy ≡ some actions
    → IsWorkflow w actions f
    → validate_workflow w f ≡ ok tt
unfolding validate_workflow
IsWorkflow-validate_workflow w actions f p h =
    let steps = listed f.steps in
    let (t, v, quiet) = visit_nodes-Acyclic (graph_of steps) in
    rw (p, header-nil w actions f h, v)
      (rw (h.different, steps-nil w actions (ids_of steps) steps h.steps, quiet.1 h.acyclic) refl)

-- `validate_workflow` accepts a workflow if and only if the policy loads and the workflow has what the
-- runtime relies on: its own fields within bounds; different step names; every step with a known
-- owner, a classified action, one to five attempts and dependencies on other steps of the workflow;
-- a checker only on a green step, another department, with one to three reviews and two attempts
-- more than reviews; and no step that depends on itself, however indirectly.
pub validate_workflow_iff :
    (w : World) (f : RawWorkflow)
    → (validate_workflow w f ≡ ok tt)
      ↔ ((actions : String → Option Risk) × (w.policy ≡ some actions) × IsWorkflow w actions f)
validate_workflow_iff w f =
    (validate_workflow-IsWorkflow w f, λ k. IsWorkflow-validate_workflow w k.0 f k.1 k.2)
