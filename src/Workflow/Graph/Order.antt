-- ===== src/Workflow/Graph/Order.antt =====
-- A search that reports no cycle has put the nodes in an order in which every node comes after what
-- it needs; so no node needs itself, however indirectly.
use my_org.Common.{
  ℕ, zero, suc, String, ◌≡◌, inl, inr, true, Option, some, List, [], ◌∷◌, arith, ◌==◌, eq_iff,
  eq_refl, member, length, Bool-cases, if-cases, All,
}
use my_org.Workflow.Graph.{
  Dependencies, needs_of, Trail, and_then-eq-some, each, left, visit, names, nothing_visited,
  visit_nodes,
}

-- Every member of the first list is one of the second.
abbrev pub Within : List String → List String → Type 0
Within xs ys = All (λ x. member x ys ≡ true) xs

-- Each name comes after (to the left of) all that it needs.
abbrev pub Ordered : Dependencies → List String → Type 0
Ordered g [] = Unit
Ordered g (x ∷ xs) = Within (needs_of x g) xs × Ordered g xs

-- `x` needs `y`, perhaps by others in between.
pub data Needs (g : Dependencies) : String → String → Type 0 where
  directly : (x y : String) → member y (needs_of x g) ≡ true → Needs g x y
  through : (x y z : String) → member y (needs_of x g) ≡ true → Needs g y z → Needs g x z

pub Within-member :
    (x : String) (xs ys : List String) → Within xs ys → member x xs ≡ true → member x ys ≡ true
Within-member x [] ys h m = cc
Within-member x (z ∷ xs) ys h m = ground (arith, eq_iff x z, h.0, Within-member x xs ys h.1)

member-cons : (x y : String) (ys : List String) → member x ys ≡ true → member x (y ∷ ys) ≡ true
member-cons x y ys h = ground (arith, h)

-- What a member of an ordered list needs is in the list too.
Ordered-needs :
    (g : Dependencies) (xs : List String) (x y : String)
    → Ordered g xs
    → member x xs ≡ true
    → member y (needs_of x g) ≡ true
    → member y xs ≡ true
Ordered-needs g [] x y o m n = cc
Ordered-needs g (z ∷ xs) x y (w, o) m n = elim (Bool-cases (x == z)) [
  | inl same ↦
      let q = (eq_iff x z).0 same in
      member-cons y z xs (Within-member y (needs_of z g) xs w (rw (← q) n))
  | inr other ↦ member-cons y z xs (Ordered-needs g xs x y o (ground arith) n)
]

Ordered-Needs :
    (g : Dependencies) (xs : List String) (x y : String)
    → Ordered g xs
    → member x xs ≡ true
    → Needs g x y
    → member y xs ≡ true
Ordered-Needs g xs x y o m (directly _ _ n) = Ordered-needs g xs x y o m n
Ordered-Needs g xs x z o m (through _ y _ n k) =
    Ordered-Needs g xs y z o (Ordered-needs g xs x y o m n) k

-- What the first node of an ordered list needs is further on.
first-Needs :
    (g : Dependencies) (x : String) (xs : List String) (y : String)
    → Ordered g (x ∷ xs)
    → Needs g x y
    → member y xs ≡ true
first-Needs g x xs y (w, o) (directly _ _ n) = Within-member y (needs_of x g) xs w n
first-Needs g x xs z (w, o) (through _ y _ n k) =
    Ordered-Needs g xs y z o (Within-member y (needs_of x g) xs w n) k

pub Ordered-acyclic :
    (g : Dependencies) (xs : List String) (x : String)
    → Ordered g xs
    → member x xs ≡ true
    → ¬ (Needs g x x)
Ordered-acyclic g [] x o m k = cc
Ordered-acyclic g (z ∷ xs) x (w, o) m k = elim (Bool-cases (x == z)) [
  | inl same ↦
      let q = (eq_iff x z).0 same in
      Ordered-acyclic g xs x o (first-Needs g x xs x (rw q (w, o)) k) k
  | inr other ↦ Ordered-acyclic g xs x o (ground arith) k
]

-- What a part of the search without a cycle does: the order goes on, nothing is forgotten, and the
-- names that it was called for are in it.
record Grows (g : Dependencies) (xs : List String) (t t' : Trail) : Type 0 where
  clean : t.cycles ≡ []
  ordered : Ordered g t.visited → Ordered g t'.visited
  kept : (y : String) → member y t.visited ≡ true → member y t'.visited ≡ true
  reached : Within xs t'.visited

Within-kept :
    (xs : List String) (ys zs : List String)
    → ((y : String) → member y ys ≡ true → member y zs ≡ true)
    → Within xs ys
    → Within xs zs
Within-kept [] ys zs k h = tt
Within-kept (x ∷ xs) ys zs k h = (k x h.0, Within-kept xs ys zs k h.1)

-- The step of the search that `each` repeats.
abbrev Good : Dependencies → (String → Trail → Option Trail) → Type 0
Good g f = (x : String) (t t' : Trail) → f x t ≡ some t' → t'.cycles ≡ [] → Grows g (x ∷ []) t t'

each-Grows :
    (g : Dependencies) (f : String → Trail → Option Trail) (xs : List String) (t t' : Trail)
    → Good g f
    → each f xs t ≡ some t'
    → t'.cycles ≡ []
    → Grows g xs t t'
unfolding each
each-Grows g f [] t t' good e c =
    let q : t ≡ t' = ground (arith, e) in
    record { clean = rw q c; ordered = λ o. rw (← q) o; kept = λ y m. rw (← q) m; reached = tt }
each-Grows g f (x ∷ xs) t t' good e c =
    let (u, first, rest) = and_then-eq-some (f x t) (λ u. each f xs u) e in
    let tail = each-Grows g f xs u t' good rest c in
    let head = good x t u first tail.clean in
    record {
      clean = head.clean;
      ordered = λ o. tail.ordered (head.ordered o);
      kept = λ y m. tail.kept y (head.kept y m);
      reached = (tail.kept x head.reached.0, tail.reached);
    }

-- A node is put in front of what it needs.
left-Grows :
    (g : Dependencies) (x : String) (t u t' : Trail)
    → Grows g (needs_of x g) t u
    → left x u ≡ some t'
    → Grows g (x ∷ []) t t'
left-Grows g x t u t' inside e =
    let q : record u { visited = x ∷ u.visited } ≡ t' = ground (arith, e) in
    rw (← q) (record {
      clean = inside.clean;
      ordered = λ o. (inside.reached, inside.ordered o);
      kept = λ y m. member-cons y x u.visited (inside.kept y m);
      reached = (ground (arith, eq_refl x), tt);
    })

visit-Good :
    (depth : ℕ) (g : Dependencies) (path : List String) → Good g (λ x t. visit depth g path x t)
unfolding visit
visit-Good zero g path x t t' e c = cc
visit-Good (suc depth) g path x t t' e c = elim (if-cases (member x path) _ _ e) [
  | inl (cycle, q) ↦ absurd (ground (arith, q, c))
  | inr (off, e') ↦ elim (if-cases (member x t.visited) _ _ e') [
    | inl (seen, q) ↦
        let q' : t ≡ t' = ground (arith, q) in
        rw (← q')
          (record { clean = rw q' c; ordered = λ o. o; kept = λ y m. m; reached = (seen, tt) })
    | inr (new, q) ↦
        let (u, inside, last) = and_then-eq-some (each _ (needs_of x g) t) (left x) q in
        left-Grows g x t u t'
          (each-Grows g _ (needs_of x g) t u (visit-Good depth g (x ∷ path)) inside
            (ground (arith, last, c)))
          last
  ]
]

-- A search over the whole graph that reports no cycle has found an order of all its nodes.
pub visit_nodes-Ordered :
    (g : Dependencies) (t : Trail)
    → visit_nodes g ≡ some t
    → t.cycles ≡ []
    → Ordered g t.visited × Within (names g) t.visited
unfolding visit_nodes
visit_nodes-Ordered g t e c =
    let whole = each-Grows g _ (names g) nothing_visited t (visit-Good (suc (length g)) g []) e c in
    (whole.ordered tt, whole.reached)
