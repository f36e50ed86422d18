-- ===== src/Workflow.antt =====
-- `validate_workflow` of runtime/run_state.py, on a workflow as `json.loads` returns it. The problems
-- that it would print are a list of values; any of them stops the command.
pub mod Graph
pub mod Valid
pub mod Acyclic
pub mod Accepts
use my_org.Common.{
  ℕ, ◌+◌, String, Bool, true, false, not, ◌&&◌, ◌||◌, Option, none, some, List, [], ◌∷◌, ◌++◌, map,
  if◌then◌else◌, ◌==◌, leb, ltb, member, is_slug,
}
use my_org.Result.{
  Result, ok, err, Error, ◌>>=◌, ◌>>◌, found, require, invalid_policy, invalid_workflow,
  graph_too_deep,
}
use my_org.Audit.{Risk, green}
use my_org.Run.World.{World}
use my_org.Workflow.Graph.{Dependencies, Node, Trail, visit_nodes}

-- A value that should be an integer: the key is not there, it holds something else (or a number
-- below zero, which no bound lets through), or it holds a number.
pub data Field : Type 0 where
  missing : Field
  unfit : Field
  integer : ℕ → Field

-- A step; a text that is not there is "", and a checker that is None or "" is none. `depends_on` is
-- none where it is no list, and [] where it is not there.
pub record RawStep : Type 0 where
  pub id : String
  pub owner : String
  pub checker : Option String
  pub action : String
  pub max_review_cycles : Field
  pub max_attempts : Field
  pub depends_on : Option (List String)

-- A workflow with its hash, `revision(workflow)`; `steps` is none where it is no list.
pub record RawWorkflow : Type 0 where
  pub version : Field
  pub id : String
  pub goal : String
  pub max_cycles : Field
  pub steps : Option (List RawStep)
  pub workflow_revision : String

-- One constructor for each `errors.append(...)`.
pub data Problem : Type 0 where
  bad_version bad_id no_goal bad_max_cycles no_steps repeated_step_id : Problem
  bad_step_id unknown_owner unknown_checker own_checker checker_not_on_green bad_review_limit
        too_few_attempts review_limit_without_checker unclassified_action bad_attempts
        dependencies_not_a_list :
      String → Problem
  unknown_dependency own_dependency : String → String → Problem
  dependency_cycle : String → Problem

abbrev pub check : Bool → Problem → List Problem
check true p = []
check false p = p ∷ []

-- `isinstance(value, int) and low <= value <= high`.
abbrev pub is_between : ℕ → ℕ → Field → Bool
is_between low high (integer n) = leb low n && leb n high
is_between low high _ = false

abbrev pub is_integer : Field → Bool
is_integer (integer n) = true
is_integer _ = false

abbrev pub is_missing : Field → Bool
is_missing missing = true
is_missing _ = false

abbrev pub value_of : Field → ℕ
value_of (integer n) = n
value_of _ = 0

abbrev pub has_steps : Option (List RawStep) → Bool
has_steps (some (s ∷ ss)) = true
has_steps _ = false

-- `list` where it is one, and else nothing to look at.
abbrev pub listed {ℓ} : {A : Type ℓ} → Option (List A) → List A
listed none = []
listed (some xs) = xs

unfoldable pub header_problems : World → RawWorkflow → List Problem
header_problems w f =
    check (is_between 1 1 f.version) bad_version
    ++ (check (is_slug f.id) bad_id
        ++ (check (not (w.strip f.goal == "")) no_goal
            ++ (check (is_between 1 100 f.max_cycles) bad_max_cycles
                ++ check (has_steps f.steps) no_steps)))

abbrev pub no_repeats : List String → Bool
no_repeats [] = true
no_repeats (x ∷ xs) = not (member x xs) && no_repeats xs

abbrev pub is_green : Option Risk → Bool
is_green (some green) = true
is_green _ = false

abbrev pub is_classified : Option Risk → Bool
is_classified (some risk) = true
is_classified none = false

-- The review limit of a step with a checker.
unfoldable pub checker_problems : World → (String → Option Risk) → RawStep → String → List Problem
checker_problems w actions s c =
    check (w.agent_exists c) (unknown_checker s.id)
    ++ (check (not (c == s.owner)) (own_checker s.id)
        ++ (check (is_green (actions s.action)) (checker_not_on_green s.id)
            ++ (check (is_between 1 3 s.max_review_cycles) (bad_review_limit s.id)
                ++ check
                    (not (
                      is_integer s.max_review_cycles
                      && (is_integer s.max_attempts
                          && ltb (value_of s.max_attempts) (value_of s.max_review_cycles + 2))))
                    (too_few_attempts s.id))))

unfoldable pub review_problems : World → (String → Option Risk) → RawStep → List Problem
unfolding checker_problems
review_problems w actions s = elim s.checker [
  | none ↦ check (is_missing s.max_review_cycles) (review_limit_without_checker s.id)
  | some c ↦ checker_problems w actions s c
]

unfoldable pub dependency_problems : List String → String → List String → List Problem
dependency_problems ids id [] = []
dependency_problems ids id (d ∷ ds) =
    check (member d ids) (unknown_dependency id d)
    ++ (check (not (d == id)) (own_dependency id d) ++ dependency_problems ids id ds)

abbrev pub is_list {ℓ} : {A : Type ℓ} → Option (List A) → Bool
is_list none = false
is_list (some xs) = true

unfoldable pub step_problems : World → (String → Option Risk) → List String → RawStep → List Problem
unfolding review_problems dependency_problems
step_problems w actions ids s =
    check (is_slug s.id) (bad_step_id s.id)
    ++ (check (w.agent_exists s.owner) (unknown_owner s.id)
        ++ (review_problems w actions s
            ++ (check (is_classified (actions s.action)) (unclassified_action s.id)
                ++ (check (is_between 1 5 s.max_attempts) (bad_attempts s.id)
                    ++ (check (is_list s.depends_on) (dependencies_not_a_list s.id)
                        ++ dependency_problems ids s.id (listed s.depends_on))))))

unfoldable pub steps_problems :
    World → (String → Option Risk) → List String → List RawStep → List Problem
unfolding step_problems
steps_problems w actions ids [] = []
steps_problems w actions ids (s ∷ ss) =
    step_problems w actions ids s ++ steps_problems w actions ids ss

abbrev pub ids_of : List RawStep → List String
ids_of = map (λ s. s.id)

-- The dictionary `graph`.
abbrev pub graph_of : List RawStep → Dependencies
graph_of = map (λ s. record { name = s.id; needs = listed s.depends_on })

-- `if errors: raise SystemExit(...)`.
abbrev pub refuse_problems : List Problem → Result (Unit {0})
refuse_problems [] = ok tt
refuse_problems (p ∷ ps) = err invalid_workflow

unfoldable pub validate_workflow : World → RawWorkflow → Result (Unit {0})
unfolding header_problems steps_problems
validate_workflow w f = do
  actions ← found w.policy invalid_policy
  refuse_problems (header_problems w f)
  let steps = listed f.steps
  let ids = ids_of steps
  trail ← found (visit_nodes (graph_of steps)) graph_too_deep
  refuse_problems (
      check (no_repeats ids) repeated_step_id
      ++ (steps_problems w actions ids steps ++ map dependency_cycle trail.cycles))
