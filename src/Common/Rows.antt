-- ===== src/Common/Rows.antt =====
-- A table of a database as the list of its rows by rowid: `SELECT`, `UPDATE`, `ORDER BY` and `LIMIT`.
use Prim.Native.Nat.{ℕ, zero, suc, ◌≤◌}
use mathlib.Core.Logic.{inl, inr}
use mathlib.Core.Path.{◌≡◌, refl}
use mathlib.Core.Bool.{Bool, true, false}
use mathlib.Core.List.{List, [], ◌∷◌}
use native.Mathlib.Omega.{arith}
use my_org.Common.Lists.{All, length}
use my_org.Common.Tests.{if◌then◌else◌, if_ind, Bool-cases}

module _ {ℓ} {A : Type ℓ} where
  abbrev pub select : (A → Bool) → List A → List A
  select p [] = []
  select p (x ∷ xs) = let rest = select p xs in if p x then x ∷ rest else rest

  abbrev pub update : (A → Bool) → (A → A) → List A → List A
  update p f [] = []
  update p f (x ∷ xs) = let rest = update p f xs in if p x then f x ∷ rest else x ∷ rest

  abbrev pub take : ℕ → List A → List A
  take zero xs = []
  take (suc n) [] = []
  take (suc n) (x ∷ xs) = x ∷ take n xs

  -- A row goes before the later rows of the same key.
  abbrev pub place : (A → A → Bool) → A → List A → List A
  place before x [] = x ∷ []
  place before x (y ∷ ys) =
      let rest = place before x ys in if before x y then x ∷ y ∷ ys else y ∷ rest

  abbrev pub order_by : (A → A → Bool) → List A → List A
  order_by before [] = []
  order_by before (x ∷ xs) = place before x (order_by before xs)

module _ {ℓ κ} {A : Type ℓ} (P : A → Type κ) where
  pub All-take : (n : ℕ) (xs : List A) → All P xs → All P (take n xs)
  All-take zero xs h = tt
  All-take (suc n) [] h = tt
  All-take (suc n) (x ∷ xs) h = (h.0, All-take n xs h.1)

  pub All-place :
      (before : A → A → Bool) (x : A) (ys : List A) → P x → All P ys → All P (place before x ys)
  All-place before x [] p h = (p, tt)
  All-place before x (y ∷ ys) p h =
      if_ind (All P) (before x y) _ _ (λ _. (p, (h.0, h.1)))
        (λ _. (h.0, All-place before x ys p h.1))

  pub All-order_by : (before : A → A → Bool) (xs : List A) → All P xs → All P (order_by before xs)
  All-order_by before [] h = tt
  All-order_by before (x ∷ xs) h =
      All-place before x (order_by before xs) h.0 (All-order_by before xs h.1)

  pub All-select : (p : A → Bool) (xs : List A) → ((x : A) → p x ≡ true → P x) → All P (select p xs)
  All-select p [] h = tt
  All-select p (x ∷ xs) h =
      if_ind (All P) (p x) _ _ (λ e. (h x e, All-select p xs h)) (λ _. All-select p xs h)

  pub All-update :
      (p : A → Bool) (f : A → A) (xs : List A)
      → All P xs
      → ((x : A) → p x ≡ true → P x → P (f x))
      → All P (update p f xs)
  All-update p f [] h g = tt
  All-update p f (x ∷ xs) h g =
      let rest = All-update p f xs h.1 g in
      if_ind (All P) (p x) _ _ (λ e. (g x e h.0, rest)) (λ _. (h.0, rest))

-- Rows that a test does not select.
module _ {ℓ} {A : Type ℓ} where
  abbrev pub Without : (A → Bool) → List A → Type 0
  Without p xs = All (λ x. p x ≡ false) xs

  pub Without-mono :
      (p q : A → Bool) (xs : List A)
      → ((x : A) → p x ≡ false → q x ≡ false)
      → Without p xs
      → Without q xs
  Without-mono p q [] g h = tt
  Without-mono p q (x ∷ xs) g h = (g x h.0, Without-mono p q xs g h.1)

  pub select-Without : (p : A → Bool) (xs : List A) → Without p xs → select p xs ≡ []
  select-Without p [] h = refl
  select-Without p (x ∷ xs) h = rw h.0 (select-Without p xs h.1)

  pub update-Without : (p : A → Bool) (f : A → A) (xs : List A) → Without p xs → update p f xs ≡ xs
  update-Without p f [] h = refl
  update-Without p f (x ∷ xs) h = rw (h.0, update-Without p f xs h.1) refl

  pub select-none : (p : A → Bool) (xs : List A) → length (select p xs) ≤ 0 → Without p xs
  select-none p [] h = tt
  select-none p (x ∷ xs) h = elim (Bool-cases (p x)) [
    | inl e ↦ absurd (ground (arith, h, e))
    | inr e ↦ (e, select-none p xs (ground (arith, h, e)))
  ]

  -- Where at most one row has a key, that row stands alone among rows that do not have it.
  pub data Single (p : A → Bool) : List A → Type ℓ where
    nowhere : {xs : List A} → Without p xs → Single p xs
    here : {x : A} {xs : List A} → p x ≡ true → Without p xs → Single p (x ∷ xs)
    later : {x : A} {xs : List A} → p x ≡ false → Single p xs → Single p (x ∷ xs)

  pub select-Single : (p : A → Bool) (xs : List A) → length (select p xs) ≤ 1 → Single p xs
  select-Single p [] h = nowhere tt
  select-Single p (x ∷ xs) h = elim (Bool-cases (p x)) [
    | inl e ↦ here e (select-none p xs (ground (arith, h, e)))
    | inr e ↦ later e (select-Single p xs (ground (arith, h, e)))
  ]
