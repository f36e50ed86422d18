-- ===== src/Verbs/Invariant/Release.antt =====
-- `release_dependents`: which steps it makes ready, when it ends the run, and that it keeps the
-- invariant.
use my_org.Common.{
  String, ◌≡◌, refl, sym, ap, ◌∙◌, ◌⊎◌, inl, inr, Bool, true, false, some, List, [], ◌∷◌, arith,
  ◌==◌, if◌then◌else◌, Bool-cases, Option-cases,
}
use mathlib.Core.Path.{subst}
use my_org.Result.{ok, ◌>>=◌, >>=-eq-ok, ok-injective}
use my_org.Steps.{Step, Steps, ready, get, is_pending, is_completed}
use my_org.Steps.Laws.{AllSteps, total}
use my_org.Run.{Run, is_active}
use my_org.Run as Run
use my_org.Verbs.{
  deps_completed, release_candidate, release_loop, all_completed, release_dependents,
}
use my_org.Verbs.Invariant.{StepInv, Started, Inv, is_run_completed, spent}

-- What `release_dependents` makes of a step, asking of the steps `all`.
pub data FreedStep (all : Steps) (s s' : Step) : Type 0 where
  kept :
      s' ≡ s
      → (is_pending s.status ≡ false) ⊎ (deps_completed all s.depends_on ≡ ok false)
      → FreedStep all s s'
  freed :
      is_pending s.status ≡ true
      → deps_completed all s.depends_on ≡ ok true
      → s' ≡ record s { status = ready }
      → FreedStep all s s'

-- The same steps, under the same names, each as `FreedStep` says.
abbrev pub Freed : Steps → Steps → Steps → Type 0
Freed all [] [] = Unit
Freed all [] (e ∷ m') = ⊥
Freed all ((k, s) ∷ m) [] = ⊥
Freed all ((k, s) ∷ m) ((k', s') ∷ m') = (k' ≡ k) × FreedStep all s s' × Freed all m m'

candidate-freed :
    (all : Steps) (s s' : Step) (b : Bool)
    → is_pending s.status ≡ true
    → deps_completed all s.depends_on ≡ ok b
    → ok (if b then record s { status = ready } else s) ≡ ok s'
    → FreedStep all s s'
candidate-freed all s s' true p d e = freed p d (cc)
candidate-freed all s s' false p d e = kept (cc) (inr d)

release_candidate-FreedStep :
    (all : Steps) (s s' : Step) → release_candidate all s ≡ ok s' → FreedStep all s s'
unfolding release_candidate
release_candidate-FreedStep all s s' e = elim (Bool-cases (is_pending s.status)) [
  | inr going ↦ kept (ground arith) (inl going)
  | inl p ↦
      let e' : (deps_completed all s.depends_on >>= λ done.
      ok (if done then record s { status = ready } else s))
          ≡ ok s' =
        ground arith in
      let (b, d, last) = >>=-eq-ok (deps_completed all s.depends_on) _ e' in
      candidate-freed all s s' b p d last
]

pub release_loop-Freed : (all m m' : Steps) → release_loop all m ≡ ok m' → Freed all m m'
unfolding release_loop
release_loop-Freed all [] [] e = tt
release_loop-Freed all [] (x ∷ m') e = cc
release_loop-Freed all ((k, s) ∷ m) m' e =
    let (s', c, e') = >>=-eq-ok (release_candidate all s) _ e in
    let (rest, l, last) = >>=-eq-ok (release_loop all m) _ e' in
    subst (Freed all ((k, s) ∷ m)) (ok-injective ((k, s') ∷ rest) m' last)
      (refl, release_candidate-FreedStep all s s' c, release_loop-Freed all m rest l)

FreedStep-is_completed :
    (all : Steps) (s s' : Step)
    → FreedStep all s s'
    → is_completed s.status ≡ true
    → is_completed s'.status ≡ true
FreedStep-is_completed all s s' (kept e w) c = cc
FreedStep-is_completed all s s' (freed p d e) c = ground arith

-- What was completed is completed after the loop.
Freed-get :
    (all m m' : Steps) (d : String) (s : Step)
    → Freed all m m'
    → get d m ≡ some s
    → is_completed s.status ≡ true
    → (t : Step) × (get d m' ≡ some t) × (is_completed t.status ≡ true)
unfolding get
Freed-get all [] [] d s f e c = cc
Freed-get all [] (_ ∷ m') d s f e c = elim f [ ]
Freed-get all ((k, u) ∷ m) [] d s f e c = elim f [ ]
Freed-get all ((k, u) ∷ m) ((k', u') ∷ m') d s (kk, step, f) e c = elim (Bool-cases (k == d)) [
  | inr away ↦ let (t, g, c') = Freed-get all m m' d s f (ground arith) c in (t, ground arith, c')
  | inl here ↦ (u', ground arith, FreedStep-is_completed all u u' step (ground arith))
]

pub deps_completed-cons :
    (m : Steps) (d : String) (ds : List String)
    → deps_completed m (d ∷ ds) ≡ ok true
    → (s : Step) × (get d m ≡ some s)
      × (is_completed s.status ≡ true)
      × (deps_completed m ds ≡ ok true)
unfolding deps_completed
deps_completed-cons m d ds h = elim (Option-cases (get d m)) [
  | inl missing ↦ ground arith
  | inr (s, g) ↦ (s, g, ground arith, ground arith)
]

pub cons-deps_completed :
    (m : Steps) (d : String) (ds : List String) (s : Step)
    → get d m ≡ some s
    → is_completed s.status ≡ true
    → deps_completed m ds ≡ ok true
    → deps_completed m (d ∷ ds) ≡ ok true
unfolding deps_completed
cons-deps_completed m d ds s g c h = ground arith

Freed-deps_completed :
    (all m m' : Steps) (ds : List String)
    → Freed all m m'
    → deps_completed m ds ≡ ok true
    → deps_completed m' ds ≡ ok true
unfolding deps_completed
Freed-deps_completed all m m' [] f h = refl
Freed-deps_completed all m m' (d ∷ ds) f h =
    let (s, g, c, h') = deps_completed-cons m d ds h in
    let (t, g', c') = Freed-get all m m' d s f g c in
    cons-deps_completed m' d ds t g' c' (Freed-deps_completed all m m' ds f h')

-- A predicate that a step keeps when it turns from pending to ready.
Freed-AllSteps :
    (P Q : Step → Type 0) (all m m' : Steps)
    → ((s s' : Step) → FreedStep all s s' → P s → Q s')
    → Freed all m m'
    → AllSteps P m
    → AllSteps Q m'
Freed-AllSteps P Q all [] [] k f h = tt
Freed-AllSteps P Q all [] (_ ∷ m') k f h = elim f [ ]
Freed-AllSteps P Q all ((i, s) ∷ m) [] k f h = elim f [ ]
Freed-AllSteps P Q all ((i, s) ∷ m) ((j, s') ∷ m') k (_, step, f) h =
    (k s s' step h.0, Freed-AllSteps P Q all m m' k f h.1)

Freed-total : (all m m' : Steps) → Freed all m m' → total spent m' ≡ total spent m
Freed-total all [] [] f = refl
Freed-total all [] (_ ∷ m') f = elim f [ ]
Freed-total all ((i, s) ∷ m) [] f = elim f [ ]
Freed-total all ((i, s) ∷ m) ((j, s') ∷ m') (_, kept e w, f) =
    omega (arith, Freed-total all m m' f, ap spent e)
Freed-total all ((i, s) ∷ m) ((j, s') ∷ m') (_, freed p d e, f) =
    omega (arith, Freed-total all m m' f, ap spent e)

FreedStep-StepInv :
    (strip : String → String) (all : Steps) (s s' : Step)
    → FreedStep all s s'
    → StepInv strip s
    → StepInv strip s'
FreedStep-StepInv strip all s s' (kept e w) v = subst (StepInv strip) (sym e) v
FreedStep-StepInv strip all s s' (freed p d e) v = subst (StepInv strip) (sym e) (ground arith)

FreedStep-Started :
    (m m' : Steps) (s s' : Step) → Freed m m m' → FreedStep m s s' → Started m s → Started m' s'
FreedStep-Started m m' s s' f (kept e w) (inl p) = inl (cc)
FreedStep-Started m m' s s' f (kept e w) (inr d) = inr (
    ap (λ (t : Step). deps_completed m' t.depends_on) e
    ∙ Freed-deps_completed m m m' s.depends_on f d)
FreedStep-Started m m' s s' f (freed p d e) h = inr (
    ap (λ (t : Step). deps_completed m' t.depends_on) e
    ∙ Freed-deps_completed m m m' s.depends_on f d)

-- What `release_dependents` returns.
pub record Released (r r' : Run) : Type 0 where
  pub freed_steps : Freed r.steps r.steps r'.steps
  pub ends : all_completed r'.steps ≡ true → r'.run_status ≡ Run.completed
  pub goes_on : all_completed r'.steps ≡ false → r'.run_status ≡ r.run_status
  pub same_spend : r'.spend_usd ≡ r.spend_usd
  pub same_plan : r'.planning_spend_usd ≡ r.planning_spend_usd

run_ended :
    (r : Run) (steps : Steps)
    → Freed r.steps r.steps steps
    → (b : Bool) → all_completed steps ≡ b
    → Released r (
        if b
        then record r { steps = steps; run_status = Run.completed }
        else record r { steps = steps })
run_ended r steps f true e = record {
  freed_steps = f;
  ends = λ h. refl;
  goes_on = λ h. cc;
  same_spend = refl;
  same_plan = refl;
}
run_ended r steps f false e = record {
  freed_steps = f;
  ends = λ h. cc;
  goes_on = λ h. refl;
  same_spend = refl;
  same_plan = refl;
}

-- Where `release_dependents` returns, the steps are the same, under the same names; those that were
-- pending and have everything they depend on completed are ready and no other step has changed; the
-- run is completed if all its steps are, and has the status that it had otherwise; the sums of money
-- are as they were.
pub release_dependents-Released : (r r' : Run) → release_dependents r ≡ ok r' → Released r r'
unfolding release_dependents
release_dependents-Released r r' e =
    let (steps, l, last) = >>=-eq-ok (release_loop r.steps r.steps) _ e in
    let f = release_loop-Freed r.steps r.steps steps l in
    subst (Released r) (ok-injective _ r' last) (run_ended r steps f (all_completed steps) refl)

pub Released-Inv :
    (strip : String → String) (r r' : Run)
    → is_run_completed r.run_status ≡ false
    → Released r r'
    → Inv strip r
    → Inv strip r'
Released-Inv strip r r' on rel v = record {
  each =
      Freed-AllSteps (StepInv strip) (StepInv strip) r.steps r.steps r'.steps
        (FreedStep-StepInv strip r.steps) rel.freed_steps v.each;
  started =
      Freed-AllSteps (Started r.steps) (Started r'.steps) r.steps r.steps r'.steps
        (λ s s' step. FreedStep-Started r.steps r'.steps s s' rel.freed_steps step) rel.freed_steps
        v.started;
  finished = elim (Bool-cases (all_completed r'.steps)) [
    | inl all ↦ ground arith
    | inr some_open ↦ ground (arith, rel.goes_on some_open)
  ];
  billed = omega (
    arith,
    v.billed,
    rel.same_spend,
    rel.same_plan,
    Freed-total r.steps r.steps r'.steps rel.freed_steps,
  );
}
