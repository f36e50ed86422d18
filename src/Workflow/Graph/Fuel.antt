-- ===== src/Workflow/Graph/Fuel.antt =====
-- The depth that `visit_nodes` allows is enough for every graph.
use my_org.Common.{
  ℕ, zero, suc, ◌+◌, ◌≤◌, ◌<◌, String, ◌≡◌, refl, ◌⊎◌, inl, inr, true, false, Option, none, some,
  List, [], ◌∷◌, arith, ◌==◌, eq_iff, member, length, Bool-cases, if◌then◌else◌, if_ind,
}
use my_org.Workflow.Graph.{
  Dependencies, needs_of, Trail, and_then, each, left, visit, names, nothing_visited, visit_nodes,
}

abbrev IsSome : Option Trail → Type 0
IsSome o = (t : Trail) × (o ≡ some t)

-- How many nodes of the graph are not on the path.
abbrev off_path : Dependencies → List String → ℕ
off_path [] path = 0
off_path (n ∷ g) path = (if member n.name path then 0 else 1) + off_path g path

off_path-le-length : (g : Dependencies) (path : List String) → off_path g path ≤ length g
off_path-le-length [] path = omega arith
off_path-le-length (n ∷ g) path = ground (arith, off_path-le-length g path)

off_path_mono :
    (g : Dependencies) (path : List String) (x : String) → off_path g (x ∷ path) ≤ off_path g path
off_path_mono [] path x = omega arith
off_path_mono (n ∷ g) path x = ground (arith, off_path_mono g path x)

-- A node with needs that joins the path is one less off it.
off_path-lt :
    (g : Dependencies) (path : List String) (x y : String) (ys : List String)
    → member x path ≡ false
    → needs_of x g ≡ y ∷ ys
    → off_path g (x ∷ path) < off_path g path
unfolding needs_of
off_path-lt [] path x y ys m e = cc
off_path-lt (n ∷ g) path x y ys m e = elim (Bool-cases (n.name == x)) [
  | inl same ↦
      let q = (eq_iff n.name x).0 same in
      let on : member n.name (x ∷ path) ≡ true = ground (arith, same) in
      let off : member n.name path ≡ false = rw q m in
      ground (arith, on, off, off_path_mono g path x)
  | inr other ↦ ground (arith, off_path-lt g path x y ys m (ground (arith, other, e)))
]

each-IsSome :
    (f : String → Trail → Option Trail) (xs : List String) (t : Trail)
    → ((x : String) (u : Trail) → IsSome (f x u))
    → IsSome (each f xs t)
unfolding each
each-IsSome f [] t h = (t, refl)
each-IsSome f (x ∷ xs) t h =
    let (u, e) = h x t in let (v, e') = each-IsSome f xs u h in (v, rw e e')

left-IsSome : (x : String) (o : Option Trail) → IsSome o → IsSome (and_then o (left x))
left-IsSome x none (t, e) = cc
left-IsSome x (some u) h = (record u { visited = x ∷ u.visited }, refl)

-- A node off the path needs nothing, or leaves fewer nodes off the path.
room :
    (g : Dependencies) (path : List String) (x : String) (ys : List String)
    → member x path ≡ false
    → needs_of x g ≡ ys
    → (ys ≡ []) ⊎ (off_path g (x ∷ path) < off_path g path)
room g path x [] off e = inl refl
room g path x (y ∷ ys) off e = inr (off_path-lt g path x y ys off e)

below-IsSome :
    (f : String → Trail → Option Trail) (x : String) (ys : List String) (t : Trail)
    → (ys ≡ []) ⊎ ((z : String) (u : Trail) → IsSome (f z u))
    → IsSome (and_then (each f ys t) (left x))
unfolding each
below-IsSome f x ys t (inl nothing) = rw nothing (record t { visited = x ∷ t.visited }, refl)
below-IsSome f x ys t (inr deeper) = left-IsSome x (each f ys t) (each-IsSome f ys t deeper)

visit-IsSome :
    (depth : ℕ) (g : Dependencies) (path : List String) (x : String) (t : Trail)
    → off_path g path ≤ depth
    → IsSome (visit (suc depth) g path x t)
unfolding visit
visit-IsSome zero g path x t h =
    if_ind IsSome (member x path) _ _ (λ cycle. (record t { cycles = x ∷ t.cycles }, refl))
      (λ off.
        if_ind IsSome (member x t.visited) _ _ (λ seen. (t, refl))
          (λ new.
            below-IsSome (λ y u. visit zero g (x ∷ path) y u) x (needs_of x g) t
              (elim (room g path x (needs_of x g) off refl) [
                | inl nothing ↦ inl nothing
                | inr less ↦ absurd (omega (arith, less, h))
              ])))
visit-IsSome (suc depth) g path x t h =
    if_ind IsSome (member x path) _ _ (λ cycle. (record t { cycles = x ∷ t.cycles }, refl))
      (λ off.
        if_ind IsSome (member x t.visited) _ _ (λ seen. (t, refl))
          (λ new.
            below-IsSome (λ y u. visit (suc depth) g (x ∷ path) y u) x (needs_of x g) t
              (elim (room g path x (needs_of x g) off refl) [
                | inl nothing ↦ inl nothing
                | inr less ↦
                    inr (λ z u. visit-IsSome depth g (x ∷ path) z u (omega (arith, less, h)))
              ])))

-- The search over a graph always ends within the depth that it is given.
pub visit_nodes-IsSome : (g : Dependencies) → (t : Trail) × (visit_nodes g ≡ some t)
unfolding visit_nodes
visit_nodes-IsSome g =
    each-IsSome (λ x t. visit (suc (length g)) g [] x t) (names g) nothing_visited
      (λ x u. visit-IsSome (length g) g [] x u (off_path-le-length g []))
