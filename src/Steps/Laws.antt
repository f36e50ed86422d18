-- ===== src/Steps/Laws.antt =====
-- The dictionary of steps: what a lookup returns after a change, and predicates on every step.
use my_org.Common.{
  ℕ, ◌+◌, String, ◌≡◌, refl, some, List, [], ◌∷◌, map, arith, if◌then◌else◌, ◌==◌, eq_iff, All,
}
use my_org.Steps.{Step, Steps, get, put}

-- A predicate on the steps, whatever their names.
abbrev pub AllSteps : (Step → Type 0) → Steps → Type 0
AllSteps P = All (λ entry. P entry.1)

pub get-put :
    (k j : String) (s t : Step) (m : Steps)
    → get k m ≡ some t
    → get j (put k s m) ≡ (if k == j then some s else get j m)
unfolding get put
get-put k j s t [] e = cc
get-put k j s t ((i, u) ∷ m) e =
    ground (arith, eq_iff i k, eq_iff i j, eq_iff k j, get-put k j s t m)

pub get-put_self :
    (k : String) (s t : Step) (m : Steps) → get k m ≡ some t → get k (put k s m) ≡ some s
unfolding get put
get-put_self k s t [] e = cc
get-put_self k s t ((i, u) ∷ m) e = ground (arith, get-put_self k s t m)

pub AllSteps-get :
    (P : Step → Type 0) (k : String) (s : Step) (m : Steps) → AllSteps P m → get k m ≡ some s → P s
unfolding get
AllSteps-get P k s [] h e = cc
AllSteps-get P k s ((i, u) ∷ m) h e = ground (arith, AllSteps-get P k s m h.1)

pub AllSteps-put :
    (P : Step → Type 0) (k : String) (s : Step) (m : Steps)
    → AllSteps P m
    → P s
    → AllSteps P (put k s m)
unfolding put
AllSteps-put P k s [] h p = tt
AllSteps-put P k s ((i, u) ∷ m) h p = ground (arith, AllSteps-put P k s m h.1 p)

pub AllSteps-mono :
    (P Q : Step → Type 0) (m : Steps) → ((s : Step) → P s → Q s) → AllSteps P m → AllSteps Q m
AllSteps-mono P Q [] f h = tt
AllSteps-mono P Q ((i, u) ∷ m) f h = (f u h.0, AllSteps-mono P Q m f h.1)

abbrev pub keys : Steps → List String
keys = map (λ entry. entry.0)

pub keys-put : (k : String) (s : Step) (m : Steps) → keys (put k s m) ≡ keys m
unfolding put
keys-put k s [] = refl
keys-put k s ((i, u) ∷ m) = ground (arith, keys-put k s m)

-- A number of every step, summed over the run.
abbrev pub total : (Step → ℕ) → Steps → ℕ
total f [] = 0
total f ((i, s) ∷ m) = f s + total f m

-- Changing one step moves the sum by the change of that step.
pub total-put :
    (f : Step → ℕ) (k : String) (s t : Step) (m : Steps)
    → get k m ≡ some t
    → total f (put k s m) + f t ≡ total f m + f s
unfolding get put
total-put f k s t [] e = cc
total-put f k s t ((i, u) ∷ m) e = ground (arith, total-put f k s t m)
