-- ===== src/Workflow/Acyclic.antt =====
-- `validate_workflow` accepts exactly the workflows that the runtime can run.
use mathlib.Core.Path.{subst}
use my_org.Common.{
  String, ◌≡◌, ◌↔◌, refl, inl, inr, true, false, not, Option, some, List, [], ◌∷◌, map, arith, ◌==◌,
  eq_iff, member, is_slug, All, Bool-cases,
}
use my_org.Result.{ok, >>=-eq-ok, found, found-eq-ok, invalid_policy, graph_too_deep}
use my_org.Audit.{Risk}
use my_org.Run.World.{World}
use my_org.Workflow.Graph.{Dependencies, needs_of, Trail, names, visit_nodes}
use my_org.Workflow.Graph.Order.{
  Needs, directly, through, Ordered-acyclic, Within-member, visit_nodes-Ordered,
}
use my_org.Workflow.Graph.Cycle.{Cyclic, visit_nodes-Cyclic}
use my_org.Workflow.Graph.Fuel.{visit_nodes-IsSome}
use my_org.Workflow.{
  RawWorkflow, Problem, dependency_cycle, is_between, has_steps, listed, header_problems,
  steps_problems, no_repeats, ids_of, graph_of, refuse_problems, validate_workflow,
}
use my_org.Workflow.Valid.{
  append-eq-nil, check-eq-nil, passed, refuse_problems-eq-ok, not-eq-true, IsStep, steps-IsStep,
}

-- No step of the workflow needs itself, however indirectly.
abbrev pub Acyclic : Dependencies → Type 0
Acyclic g = (x : String) → ¬ (Needs g x x)

pub record IsWorkflow (w : World) (actions : String → Option Risk) (f : RawWorkflow) : Type 0 where
  pub version : is_between 1 1 f.version ≡ true
  pub slug : is_slug f.id ≡ true
  pub purpose : (w.strip f.goal == "") ≡ false
  pub cycles : is_between 1 100 f.max_cycles ≡ true
  pub some_steps : has_steps f.steps ≡ true
  pub different : no_repeats (ids_of (listed f.steps)) ≡ true
  pub steps : All (IsStep w actions (ids_of (listed f.steps))) (listed f.steps)
  pub acyclic : Acyclic (graph_of (listed f.steps))

-- A name that is not in the graph needs nothing.
needs_of-none : (g : Dependencies) (x : String) → member x (names g) ≡ false → needs_of x g ≡ []
unfolding needs_of
needs_of-none [] x m = refl
needs_of-none (n ∷ g) x m = ground (arith, m, eq_iff n.name x, eq_iff x n.name, needs_of-none g x)

unneeded : (g : Dependencies) (x y : String) → needs_of x g ≡ [] → ¬ (Needs g x y)
unneeded g x y e (directly _ _ m) =
    let q : member y [] ≡ true = subst (λ (l : List String). member y l ≡ true) e m in cc
unneeded g x z e (through _ y _ m k) =
    let q : member y [] ≡ true = subst (λ (l : List String). member y l ≡ true) e m in cc

-- A search that reports nothing was over a graph without cycles.
quiet-Acyclic : (g : Dependencies) (t : Trail) → visit_nodes g ≡ some t → t.cycles ≡ [] → Acyclic g
quiet-Acyclic g t e c x = elim (Bool-cases (member x (names g))) [
  | inl m ↦
      let (order, all) = visit_nodes-Ordered g t e c in
      Ordered-acyclic g t.visited x order (Within-member x (names g) t.visited all m)
  | inr m ↦ unneeded g x x (needs_of-none g x m)
]

Cyclic-quiet : (g : Dependencies) (t : Trail) → Acyclic g → Cyclic g t → t.cycles ≡ []
Cyclic-quiet g t a c = no_members t.cycles c
  where
    no_members : (xs : List String) → All (λ x. Needs g x x) xs → xs ≡ []
    no_members [] h = refl
    no_members (x ∷ xs) h = absurd (a x h.0)

-- On any graph the search ends, and it reports nothing if and only if no node needs itself, however
-- indirectly.
pub visit_nodes-Acyclic :
    (g : Dependencies) → (t : Trail) × (visit_nodes g ≡ some t) × ((t.cycles ≡ []) ↔ Acyclic g)
visit_nodes-Acyclic g =
    let (t, e) = visit_nodes-IsSome g in
    (t, e, (quiet-Acyclic g t e, λ a. Cyclic-quiet g t a (visit_nodes-Cyclic g t e)))

map-eq-nil : (f : String → Problem) (xs : List String) → map f xs ≡ [] → xs ≡ []
map-eq-nil f [] e = refl
map-eq-nil f (x ∷ xs) e = cc

header-IsWorkflow :
    (w : World) (f : RawWorkflow)
    → header_problems w f ≡ []
    → (is_between 1 1 f.version ≡ true)
      × (is_slug f.id ≡ true)
      × ((w.strip f.goal == "") ≡ false)
      × (is_between 1 100 f.max_cycles ≡ true)
      × (has_steps f.steps ≡ true)
unfolding header_problems
header-IsWorkflow w f e =
    let (version, e1) = passed (is_between 1 1 f.version) _ _ e in
    let (slug, e2) = passed (is_slug f.id) _ _ e1 in
    let (purpose, e3) = passed (not (w.strip f.goal == "")) _ _ e2 in
    let (cycles, e4) = passed (is_between 1 100 f.max_cycles) _ _ e3 in
    (version, slug, not-eq-true _ purpose, cycles, check-eq-nil (has_steps f.steps) _ e4)

-- A workflow that `validate_workflow` accepts, under the policy that was loaded, has all that the
-- runtime relies on.
pub validate_workflow-IsWorkflow :
    (w : World) (f : RawWorkflow)
    → validate_workflow w f ≡ ok tt
    → (actions : String → Option Risk) × (w.policy ≡ some actions) × IsWorkflow w actions f
unfolding validate_workflow
validate_workflow-IsWorkflow w f e =
    let (actions, p, e1) = >>=-eq-ok (found w.policy invalid_policy) _ e in
    let (_, h, e2) = >>=-eq-ok (refuse_problems (header_problems w f)) _ e1 in
    let steps = listed f.steps in
    let (t, v, e3) = >>=-eq-ok (found (visit_nodes (graph_of steps)) graph_too_deep) _ e2 in
    let (version, slug, purpose, cycles, some_steps) =
      header-IsWorkflow w f (refuse_problems-eq-ok _ h) in
    let (different, e4) = passed (no_repeats (ids_of steps)) _ _ (refuse_problems-eq-ok _ e3) in
    let (each_step, e5) = append-eq-nil (steps_problems w actions (ids_of steps) steps) _ e4 in
    (
      actions,
      found-eq-ok w.policy invalid_policy p,
      record {
        version = version;
        slug = slug;
        purpose = purpose;
        cycles = cycles;
        some_steps = some_steps;
        different = different;
        steps = steps-IsStep w actions (ids_of steps) steps each_step;
        acyclic =
            quiet-Acyclic (graph_of steps) t
              (found-eq-ok (visit_nodes (graph_of steps)) graph_too_deep v)
              (map-eq-nil dependency_cycle t.cycles e5);
      },
    )
