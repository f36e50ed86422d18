-- ===== src/Common/Sorted.antt =====
-- Rows in the order of a number: what `ORDER BY` and `LIMIT` keep.
use Prim.Native.Nat.{ℕ, zero, suc, ◌≤◌}
use mathlib.Core.Path.{◌≡◌, refl, sym, ap, ◌∙◌, subst}
use mathlib.Core.Logic.{inl, inr}
use mathlib.Core.Bool.{Bool, true, false}
use mathlib.Core.List.{List, [], ◌∷◌, ◌++◌, Memᴰ}
use mathlib.Core.List.Memᴰ.{head, tail}
use native.Mathlib.Omega.{arith}
use my_org.Common.Lists.{All}
use my_org.Common.Tests.{Bool-cases}
use my_org.Common.Rows.{select, take, place, order_by, All-place}

module _ {ℓ} {A : Type ℓ} where
  pub All-Mem {κ} : (P : A → Type κ) (x : A) (xs : List A) → All P xs → Memᴰ x xs → P x
  All-Mem P x [] h m = elim m [ ]
  All-Mem P x (y ∷ ys) h (head e) = subst P (sym e) h.0
  All-Mem P x (y ∷ ys) h (tail m) = All-Mem P x ys h.1 m

  pub select-Mem :
      (p : A → Bool) (x : A) (xs : List A) → Memᴰ x xs → p x ≡ true → Memᴰ x (select p xs)
  select-Mem p x [] m h = elim m [ ]
  select-Mem p x (y ∷ ys) (head e) h = rw (ap p (sym e) ∙ h) (head e)
  select-Mem p x (y ∷ ys) (tail m) h = elim (Bool-cases (p y)) [
    | inl k ↦ rw k (tail (select-Mem p x ys m h))
    | inr k ↦ rw k (select-Mem p x ys m h)
  ]

  pub place-Mem :
      (before : A → A → Bool) (z x : A) (ys : List A) → Memᴰ z (x ∷ ys) → Memᴰ z (place before x ys)
  place-Mem before z x [] m = m
  place-Mem before z x (y ∷ ys) m = elim (Bool-cases (before x y)) [
    | inl k ↦ rw k m
    | inr k ↦ rw k (second y ys (place before x ys) (λ n. place-Mem before z x ys n) m)
  ]
    where
      second :
          (y : A) (ys zs : List A)
          → (Memᴰ z (x ∷ ys) → Memᴰ z zs)
          → Memᴰ z (x ∷ y ∷ ys)
          → Memᴰ z (y ∷ zs)
      second y ys zs f (head e) = tail (f (head e))
      second y ys zs f (tail (head e)) = head e
      second y ys zs f (tail (tail n)) = tail (f (tail n))

  pub order_by-Mem :
      (before : A → A → Bool) (z : A) (xs : List A) → Memᴰ z xs → Memᴰ z (order_by before xs)
  order_by-Mem before z [] m = elim m [ ]
  order_by-Mem before z (x ∷ xs) (head e) = place-Mem before z x _ (head e)
  order_by-Mem before z (x ∷ xs) (tail m) =
      place-Mem before z x _ (tail (order_by-Mem before z xs m))

  -- `LIMIT` cuts the rows after the first few.
  pub take-prefix : (n : ℕ) (xs : List A) → (more : List A) × (take n xs ++ more ≡ xs)
  take-prefix zero xs = (xs, refl)
  take-prefix (suc n) [] = ([], refl)
  take-prefix (suc n) (x ∷ xs) = let (more, e) = take-prefix n xs in (more, ap (λ ys. x ∷ ys) e)

module _ {ℓ} {A : Type ℓ} (key : A → ℕ) where
  abbrev pub Ascending : List A → Type 0
  Ascending [] = Unit
  Ascending (x ∷ xs) = All (λ y. key x ≤ key y) xs × Ascending xs

  All-below :
      (x y : A) (ys : List A)
      → key x ≤ key y
      → All (λ z. key y ≤ key z) ys
      → All (λ z. key x ≤ key z) ys
  All-below x y [] h k = tt
  All-below x y (z ∷ zs) h k = (omega (arith, h, k.0), All-below x y zs h k.1)

  module _ (before : A → A → Bool) (yes : (x y : A) → before x y ≡ true → key x ≤ key y)
      (no : (x y : A) → before x y ≡ false → key y ≤ key x) where
    place-Ascending : (x : A) (ys : List A) → Ascending ys → Ascending (place before x ys)
    place-Ascending x [] h = (tt, tt)
    place-Ascending x (y ∷ ys) h = elim (Bool-cases (before x y)) [
      | inl k ↦ let le = yes x y k in rw k ((le, All-below x y ys le h.0), h)
      | inr k ↦
          rw k (All-place (λ z. key y ≤ key z) before x ys (no x y k) h.0, place-Ascending x ys h.1)
    ]

    pub order_by-Ascending : (xs : List A) → Ascending (order_by before xs)
    order_by-Ascending [] = tt
    order_by-Ascending (x ∷ xs) = place-Ascending x (order_by before xs) (order_by-Ascending xs)

  -- The first row of what is left comes before every row that was not passed over.
  pub Ascending-front :
      (passed : List A) (x : A) (rest : List A) (z : A)
      → Ascending (passed ++ x ∷ rest)
      → Memᴰ z (passed ++ x ∷ rest)
      → ¬ Memᴰ z passed
      → key x ≤ key z
  Ascending-front [] x rest z h (head e) m = omega (arith, ap key e)
  Ascending-front [] x rest z h (tail k) m = All-Mem (λ y. key x ≤ key y) z rest h.0 k
  Ascending-front (p ∷ ps) x rest z h (head e) m = absurd (m (head e))
  Ascending-front (p ∷ ps) x rest z h (tail k) m =
      Ascending-front ps x rest z h.1 k (λ n. m (tail n))
