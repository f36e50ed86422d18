-- ===== src/Workflow/Graph/Cycle.antt =====
-- A cycle that the search reports is there: the node needs itself.
use my_org.Common.{
  ℕ, zero, suc, String, ◌≡◌, sym, inl, inr, true, Option, some, List, [], ◌∷◌, arith, ◌==◌, eq_iff,
  eq_refl, member, length, Bool-cases, if-cases, some-injective, All,
}
use mathlib.Core.Path.{subst}
use my_org.Workflow.Graph.{
  Dependencies, needs_of, Trail, and_then-eq-some, each, left, visit, names, nothing_visited,
  visit_nodes,
}
use my_org.Workflow.Graph.Order.{Needs, directly, through}

Needs-snoc :
    (g : Dependencies) (x y z : String) → Needs g x y → member z (needs_of y g) ≡ true → Needs g x z
Needs-snoc g x y z (directly _ _ m) n = through x y z m (directly y z n)
Needs-snoc g x y z (through _ v _ m k) n = through x v z m (Needs-snoc g v y z k n)

All-member :
    (P : String → Type 0) (x : String) (xs : List String) → All P xs → member x xs ≡ true → P x
All-member P x [] h m = cc
All-member P x (y ∷ ys) h m = elim (Bool-cases (x == y)) [
  | inl same ↦ subst P (sym ((eq_iff x y).0 same)) h.0
  | inr other ↦ All-member P x ys h.1 (ground arith)
]

-- Every node on the way needs the next one.
abbrev Leads : Dependencies → List String → String → Type 0
Leads g path x = All (λ p. Needs g p x) path

Leads-snoc :
    (g : Dependencies) (path : List String) (x y : String)
    → Leads g path x
    → member y (needs_of x g) ≡ true
    → Leads g path y
Leads-snoc g [] x y h m = tt
Leads-snoc g (p ∷ path) x y h m = (Needs-snoc g p x y h.0 m, Leads-snoc g path x y h.1 m)

abbrev pub Cyclic : Dependencies → Trail → Type 0
Cyclic g t = All (λ x. Needs g x x) t.cycles

each-Cyclic :
    (g : Dependencies) (f : String → Trail → Option Trail) (all xs : List String) (t t' : Trail)
    → ((x : String)
        → member x all ≡ true
        → (u u' : Trail) → f x u ≡ some u'
        → Cyclic g u
        → Cyclic g u')
    → ((x : String) → member x xs ≡ true → member x all ≡ true)
    → each f xs t ≡ some t'
    → Cyclic g t
    → Cyclic g t'
unfolding each
each-Cyclic g f all [] t t' keep sub e c = subst (Cyclic g) (some-injective _ _ e) c
each-Cyclic g f all (x ∷ xs) t t' keep sub e c =
    let (u, first, rest) = and_then-eq-some (f x t) (λ u. each f xs u) e in
    each-Cyclic g f all xs u t' keep (λ y m. sub y (ground (arith, m))) rest
      (keep x (sub x (ground (arith, eq_refl x))) t u first c)

visit-Cyclic :
    (depth : ℕ) (g : Dependencies) (path : List String) (x : String) (t t' : Trail)
    → Leads g path x
    → visit depth g path x t ≡ some t'
    → Cyclic g t
    → Cyclic g t'
unfolding visit
visit-Cyclic zero g path x t t' way e c = cc
visit-Cyclic (suc depth) g path x t t' way e c = elim (if-cases (member x path) _ _ e) [
  | inl (cycle, q) ↦
      subst (Cyclic g) (some-injective _ _ q) (All-member (λ p. Needs g p x) x path way cycle, c)
  | inr (off, e') ↦ elim (if-cases (member x t.visited) _ _ e') [
    | inl (seen, q) ↦ subst (Cyclic g) (some-injective _ _ q) c
    | inr (new, q) ↦
        let (u, inside, last) = and_then-eq-some (each _ (needs_of x g) t) (left x) q in
        let done : Cyclic g u =
          each-Cyclic g _ (needs_of x g) (needs_of x g) t u
            (λ y m v v'.
              visit-Cyclic depth g (x ∷ path) y v v' (directly x y m, Leads-snoc g path x y way m))
            (λ y m. m) inside c in
        subst (Cyclic g) (some-injective _ _ last) done
  ]
]

-- Each node that a search over the whole graph reports needs itself.
pub visit_nodes-Cyclic : (g : Dependencies) (t : Trail) → visit_nodes g ≡ some t → Cyclic g t
unfolding visit_nodes
visit_nodes-Cyclic g t e =
    each-Cyclic g _ (names g) (names g) nothing_visited t
      (λ x m u u'. visit-Cyclic (suc (length g)) g [] x u u' tt) (λ x m. m) e tt
