-- ===== src/Workflow/Graph.antt =====
-- The search for cycles in `validate_workflow` of runtime/run_state.py: the function `visit` with its
-- sets `visiting` and `visited`, and the loop over the graph.
pub mod Order
pub mod Cycle
pub mod Fuel
use my_org.Common.{
  ◌≡◌, refl, ℕ, zero, suc, String, Bool, true, false, Option, none, some, List, [], ◌∷◌, map, ◌==◌,
  member, length, if◌then◌else◌,
}

pub record Node : Type 0 where
  pub name : String
  pub needs : List String

abbrev pub Dependencies : Type 0
Dependencies = List Node

-- `graph.get(name, [])`.
unfoldable pub needs_of : String → Dependencies → List String
needs_of x [] = []
needs_of x (n ∷ g) = if n.name == x then n.needs else needs_of x g

-- `visited`, the latest first, and the nodes at which a cycle was reported, the latest first.
pub record Trail : Type 0 where
  pub visited : List String
  pub cycles : List String

-- The next step of the search, unless the depth was reached.
abbrev pub and_then : Option Trail → (Trail → Option Trail) → Option Trail
and_then none k = none
and_then (some t) k = k t

-- A loop over names.
unfoldable pub each : (String → Trail → Option Trail) → List String → Trail → Option Trail
each f [] t = some t
each f (x ∷ xs) t = and_then (f x t) (λ u. each f xs u)

-- `visiting.remove(node); visited.add(node)`.
abbrev pub left : String → Trail → Option Trail
left x t = some (record t { visited = x ∷ t.visited })

-- `visit`, with the nodes that are being visited as the path to this one. The first argument bounds
-- the depth; none means that it was reached.
unfoldable pub visit : ℕ → Dependencies → List String → String → Trail → Option Trail
unfolding each needs_of
visit zero g path x t = none
visit (suc depth) g path x t =
    let below = and_then (each (λ y u. visit depth g (x ∷ path) y u) (needs_of x g) t) (left x) in
    if member x path
    then some (record t { cycles = x ∷ t.cycles })
    else if member x t.visited
    then some t
    else below

abbrev pub names : Dependencies → List String
names = map (λ n. n.name)

abbrev pub nothing_visited : Trail
nothing_visited = record { visited = []; cycles = [] }

-- A path of different nodes of the graph and one name more is as deep as it gets.
unfoldable pub visit_nodes : Dependencies → Option Trail
unfolding visit
visit_nodes g = each (λ x t. visit (suc (length g)) g [] x t) (names g) nothing_visited

pub and_then-eq-some :
    (m : Option Trail) (k : Trail → Option Trail) {t : Trail}
    → and_then m k ≡ some t
    → (u : Trail) × (m ≡ some u) × (k u ≡ some t)
and_then-eq-some none k e = cc
and_then-eq-some (some u) k e = (u, refl, e)
