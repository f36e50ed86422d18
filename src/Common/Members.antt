-- ===== src/Common/Members.antt =====
-- The rows of a list that was selected from or ordered are rows of the list.
use Prim.Native.Nat.{◌<◌}
use mathlib.Core.Path.{◌≡◌, refl, ap, ◌∙◌, subst}
use mathlib.Core.Logic.{inl, inr}
use mathlib.Core.Bool.{Bool, true}
use mathlib.Core.List.{List, [], ◌∷◌, ◌++◌, map, Memᴰ}
use mathlib.Core.List.Memᴰ.{head, tail}
use native.Mathlib.Omega.{arith}
use my_org.Common.Lists.{All, length}
use my_org.Common.Tests.{Bool-cases}
use my_org.Common.Rows.{select, place, order_by}
use my_org.Common.Sorted.{select-Mem}

module _ {ℓ} {A : Type ℓ} where
  pub Mem-middle : (xs : List A) (x : A) (ys : List A) → Memᴰ x (xs ++ x ∷ ys)
  Mem-middle [] x ys = head refl
  Mem-middle (y ∷ xs) x ys = tail (Mem-middle xs x ys)

  pub Mem-select :
      (p : A → Bool) (x : A) (xs : List A) → Memᴰ x (select p xs) → Memᴰ x xs × (p x ≡ true)
  Mem-select p x [] m = elim m [ ]
  Mem-select p x (y ∷ ys) m = elim (Bool-cases (p y)) [
    | inl k ↦ kept k (λ n. Mem-select p x ys n) (subst (Memᴰ x) (rw k refl) m)
    | inr k ↦ let (n, e) = Mem-select p x ys (subst (Memᴰ x) (rw k refl) m) in (tail n, e)
  ]
    where
      kept :
          p y ≡ true
          → (Memᴰ x (select p ys) → Memᴰ x ys × (p x ≡ true))
          → Memᴰ x (y ∷ select p ys)
          → Memᴰ x (y ∷ ys) × (p x ≡ true)
      kept k f (head e) = (head e, ap p e ∙ k)
      kept k f (tail n) = (tail (f n).0, (f n).1)

  pub Mem-place :
      (before : A → A → Bool) (z x : A) (ys : List A) → Memᴰ z (place before x ys) → Memᴰ z (x ∷ ys)
  Mem-place before z x [] m = m
  Mem-place before z x (y ∷ ys) m = elim (Bool-cases (before x y)) [
    | inl k ↦ subst (Memᴰ z) (rw k refl) m
    | inr k ↦ swapped (λ n. Mem-place before z x ys n) (subst (Memᴰ z) (rw k refl) m)
  ]
    where
      second : Memᴰ z (x ∷ ys) → Memᴰ z (x ∷ y ∷ ys)
      second (head e) = head e
      second (tail n) = tail (tail n)

      swapped :
          (Memᴰ z (place before x ys) → Memᴰ z (x ∷ ys))
          → Memᴰ z (y ∷ place before x ys)
          → Memᴰ z (x ∷ y ∷ ys)
      swapped f (head e) = tail (head e)
      swapped f (tail n) = second (f n)

  pub Mem-order_by :
      (before : A → A → Bool) (z : A) (xs : List A) → Memᴰ z (order_by before xs) → Memᴰ z xs
  Mem-order_by before z [] m = elim m [ ]
  Mem-order_by before z (x ∷ xs) m =
      on (λ n. Mem-order_by before z xs n) (Mem-place before z x (order_by before xs) m)
    where
      on :
          (Memᴰ z (order_by before xs) → Memᴰ z xs)
          → Memᴰ z (x ∷ order_by before xs)
          → Memᴰ z (x ∷ xs)
      on f (head e) = head e
      on f (tail n) = tail (f n)

  Mem→positive : (x : A) (xs : List A) → Memᴰ x xs → 0 < length xs
  Mem→positive x [] m = elim m [ ]
  Mem→positive x (y ∷ ys) m = omega arith

  pub select-positive :
      (p : A → Bool) (x : A) (xs : List A) → Memᴰ x xs → p x ≡ true → 0 < length (select p xs)
  select-positive p x xs m h = Mem→positive x (select p xs) (select-Mem p x xs m h)

  pub positive-select :
      (p : A → Bool) (xs : List A) → 0 < length (select p xs) → (x : A) × Memᴰ x xs × (p x ≡ true)
  positive-select p xs h = on (select p xs) h (λ x m. Mem-select p x xs m)
    where
      on :
          (ys : List A)
          → 0 < length ys
          → ((x : A) → Memᴰ x ys → Memᴰ x xs × (p x ≡ true))
          → (x : A) × Memᴰ x xs × (p x ≡ true)
      on [] k f = absurd (omega (arith, k))
      on (y ∷ ys) k f = let (m, e) = f y (head refl) in (y, m, e)

  pub All-imp {κ μ} :
      (P : A → Type κ) (Q : A → Type μ) (xs : List A) → ((x : A) → P x → Q x) → All P xs → All Q xs
  All-imp P Q [] f h = tt
  All-imp P Q (x ∷ xs) f h = (f x h.0, All-imp P Q xs f h.1)

  pub All-zip {κ μ ν} :
      (P : A → Type κ) (Q : A → Type μ) (R : A → Type ν) (xs : List A)
      → ((x : A) → P x → Q x → R x)
      → All P xs
      → All Q xs
      → All R xs
  All-zip P Q R [] f h k = tt
  All-zip P Q R (x ∷ xs) f h k = (f x h.0 k.0, All-zip P Q R xs f h.1 k.1)

  pub All-of {κ} : (P : A → Type κ) (xs : List A) → ((x : A) → Memᴰ x xs → P x) → All P xs
  All-of P [] f = tt
  All-of P (x ∷ xs) f = (f x (head refl), All-of P xs (λ y m. f y (tail m)))

pub map-Mem {ℓ κ} :
    {A : Type ℓ} {B : Type κ} (f : A → B) (x : A) (xs : List A) → Memᴰ x xs → Memᴰ (f x) (map f xs)
map-Mem f x [] m = elim m [ ]
map-Mem f x (y ∷ ys) (head e) = head (ap f e)
map-Mem f x (y ∷ ys) (tail m) = tail (map-Mem f x ys m)

pub Mem-map {ℓ κ} :
    {A : Type ℓ} {B : Type κ} (f : A → B) (z : B) (xs : List A)
    → Memᴰ z (map f xs)
    → (x : A) × Memᴰ x xs × (z ≡ f x)
Mem-map f z [] m = elim m [ ]
Mem-map f z (x ∷ xs) (head e) = (x, head refl, e)
Mem-map f z (x ∷ xs) (tail m) = let (y, n, e) = Mem-map f z xs m in (y, tail n, e)
