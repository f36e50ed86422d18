-- ===== src/Workflow/Valid.antt =====
-- What `validate_workflow` lets through, and why it stops the rest.
use my_org.Common.{
  ◌+◌, String, ◌≡◌, refl, Bool, true, false, not, ◌&&◌, Option, none, some, List, [], ◌∷◌, ◌++◌,
  ◌==◌, member, is_slug, All, ltb,
}
use my_org.Result.{ok}
use my_org.Audit.{Risk}
use my_org.Run.World.{World}
use my_org.Workflow.{
  RawStep, Problem, check, is_between, is_classified, is_green, is_missing, is_integer, is_list,
  listed, value_of, checker_problems, review_problems, dependency_problems, step_problems,
  steps_problems, refuse_problems,
}

pub append-eq-nil : (xs ys : List Problem) → xs ++ ys ≡ [] → (xs ≡ []) × (ys ≡ [])
append-eq-nil [] ys e = (refl, e)
append-eq-nil (x ∷ xs) ys e = cc

pub check-eq-nil : (b : Bool) (p : Problem) → check b p ≡ [] → b ≡ true
check-eq-nil true p e = refl
check-eq-nil false p e = cc

pub refuse_problems-eq-ok : (ps : List Problem) {u : Unit {0}} → refuse_problems ps ≡ ok u → ps ≡ []
refuse_problems-eq-ok [] e = refl
refuse_problems-eq-ok (p ∷ ps) e = cc

-- A problem that was not found: the test held, and so did the rest.
pub passed :
    (b : Bool) (p : Problem) (ps : List Problem) → check b p ++ ps ≡ [] → (b ≡ true) × (ps ≡ [])
passed b p ps e =
    let (here, there) = append-eq-nil (check b p) ps e in (check-eq-nil b p here, there)

-- A checker is another department, on a green step, with one to three reviews, and the attempts are
-- two more at least.
pub record IsChecked (w : World) (actions : String → Option Risk) (s : RawStep) (c : String)
    : Type 0 where
  pub checker_known : w.agent_exists c ≡ true
  pub apart : (c == s.owner) ≡ false
  pub on_green : is_green (actions s.action) ≡ true
  pub reviews : is_between 1 3 s.max_review_cycles ≡ true
  pub enough :
      not (
        is_integer s.max_review_cycles
        && (is_integer s.max_attempts
            && ltb (value_of s.max_attempts) (value_of s.max_review_cycles + 2)))
      ≡ true

-- A step without a checker names no review limit.
abbrev pub Reviewed : World → (String → Option Risk) → RawStep → Option String → Type 0
Reviewed w actions s none = is_missing s.max_review_cycles ≡ true
Reviewed w actions s (some c) = IsChecked w actions s c

-- A step that the runtime can run: a known owner, an action of the policy, one to five attempts, and
-- dependencies on other steps of the workflow.
pub record IsStep (w : World) (actions : String → Option Risk) (ids : List String) (s : RawStep)
    : Type 0 where
  pub slug : is_slug s.id ≡ true
  pub owned : w.agent_exists s.owner ≡ true
  pub classified : is_classified (actions s.action) ≡ true
  pub attempts : is_between 1 5 s.max_attempts ≡ true
  pub known : All (λ d. (member d ids ≡ true) × ((d == s.id) ≡ false)) (listed s.depends_on)
  pub listed_needs : is_list s.depends_on ≡ true
  pub reviewed : Reviewed w actions s s.checker

pub not-eq-true : (b : Bool) → not b ≡ true → b ≡ false
not-eq-true true h = cc
not-eq-true false h = refl

dependencies-known :
    (ids : List String) (id : String) (ds : List String)
    → dependency_problems ids id ds ≡ []
    → All (λ d. (member d ids ≡ true) × ((d == id) ≡ false)) ds
unfolding dependency_problems
dependencies-known ids id [] e = tt
dependencies-known ids id (d ∷ ds) e =
    let (m, e1) = passed (member d ids) _ _ e in
    let (o, e2) = passed (not (d == id)) _ _ e1 in
    ((m, not-eq-true _ o), dependencies-known ids id ds e2)

review-Reviewed :
    (w : World) (actions : String → Option Risk) (s : RawStep) (o : Option String)
    → s.checker ≡ o
    → review_problems w actions s ≡ []
    → Reviewed w actions s o
unfolding review_problems checker_problems
review-Reviewed w actions s none k e = check-eq-nil _ _ (rw k at e)
review-Reviewed w actions s (some c) k e =
    let (known, e1) = passed (w.agent_exists c) _ _ (rw k at e) in
    let (apart, e2) = passed (not (c == s.owner)) _ _ e1 in
    let (green_step, e3) = passed (is_green (actions s.action)) _ _ e2 in
    let (reviews, e4) = passed (is_between 1 3 s.max_review_cycles) _ _ e3 in
    record {
      checker_known = known;
      apart = not-eq-true _ apart;
      on_green = green_step;
      reviews = reviews;
      enough = check-eq-nil _ _ e4;
    }

step_problems-IsStep :
    (w : World) (actions : String → Option Risk) (ids : List String) (s : RawStep)
    → step_problems w actions ids s ≡ []
    → IsStep w actions ids s
unfolding step_problems
step_problems-IsStep w actions ids s e =
    let (slug, e1) = passed (is_slug s.id) _ _ e in
    let (owned, e2) = passed (w.agent_exists s.owner) _ _ e1 in
    let (review, e3) = append-eq-nil (review_problems w actions s) _ e2 in
    let (classified, e4) = passed (is_classified (actions s.action)) _ _ e3 in
    let (attempts, e5) = passed (is_between 1 5 s.max_attempts) _ _ e4 in
    let (is_a_list, e6) = passed (is_list s.depends_on) _ _ e5 in
    record {
      slug = slug;
      owned = owned;
      classified = classified;
      attempts = attempts;
      known = dependencies-known ids s.id (listed s.depends_on) e6;
      listed_needs = is_a_list;
      reviewed = review-Reviewed w actions s s.checker refl review;
    }

pub steps-IsStep :
    (w : World) (actions : String → Option Risk) (ids : List String) (ss : List RawStep)
    → steps_problems w actions ids ss ≡ []
    → All (IsStep w actions ids) ss
unfolding steps_problems
steps-IsStep w actions ids [] e = tt
steps-IsStep w actions ids (s ∷ ss) e =
    let (first, rest) = append-eq-nil (step_problems w actions ids s) _ e in
    (step_problems-IsStep w actions ids s first, steps-IsStep w actions ids ss rest)
