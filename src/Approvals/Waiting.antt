-- ===== src/Approvals/Waiting.antt =====
-- `parked_at` finds the event with which the present wait began.
use my_org.Common.{
  ℕ, String, ◌≡◌, refl, sym, ap, ◌∙◌, ◌⊎◌, inl, inr, true, false, some, List, [], ◌∷◌, ◌++◌, arith,
  last?, All, All-append,
}
use my_org.Result.{ok}
use my_org.Steps.{get}
use my_org.Run.{Row}
use my_org.Approvals.{is_waiting, reversed, parked_from, parked_back, parked_at}

append_assoc : {A : Type 0} (xs ys zs : List A) → (xs ++ ys) ++ zs ≡ xs ++ (ys ++ zs)
append_assoc [] ys zs = refl
append_assoc (x ∷ xs) ys zs = ap (λ l. x ∷ l) (append_assoc xs ys zs)

append-nil : {A : Type 0} (xs : List A) → xs ++ [] ≡ xs
append-nil [] = refl
append-nil (x ∷ xs) = ap (λ l. x ∷ l) (append-nil xs)

reversed-append : {A : Type 0} (xs ys : List A) → reversed (xs ++ ys) ≡ reversed ys ++ reversed xs
reversed-append [] ys = sym (append-nil (reversed ys))
reversed-append (x ∷ xs) ys =
    ap (λ l. l ++ x ∷ []) (reversed-append xs ys)
    ∙ append_assoc (reversed ys) (reversed xs) (x ∷ [])

All-reversed : {A : Type 0} (P : A → Type 0) (xs : List A) → All P xs → All P (reversed xs)
All-reversed P [] h = tt
All-reversed P (x ∷ xs) h = All-append P (reversed xs) (x ∷ []) (All-reversed P xs h.1) (h.0, tt)

-- The step waits in this state.
abbrev pub Waits : String → Row → Type 0
Waits step r = is_waiting (get step r.steps) ≡ true

-- Nothing came before, or what came last before was no wait.
abbrev pub NoWait : String → List Row → Type 0
NoWait step before =
    (before ≡ []) ⊎ ((r : Row) × (last? before ≡ some r) × (is_waiting (get step r.steps) ≡ false))

last?-reversed :
    {A : Type 0} (xs : List A) (r : A)
    → last? xs ≡ some r
    → (rest : List A) × (reversed xs ≡ r ∷ rest)
last?-reversed [] r e = cc
last?-reversed (x ∷ []) r e = ([], ground arith)
last?-reversed (x ∷ y ∷ ys) r e =
    let (rest, k) = last?-reversed (y ∷ ys) r e in (rest ++ x ∷ [], ap (λ l. l ++ x ∷ []) k)

parked_from-NoWait :
    (step : String) (parked : ℕ) (before : List Row)
    → NoWait step before
    → parked_from step parked (reversed before) ≡ parked
unfolding parked_from
parked_from-NoWait step parked before (inl none_before) = rw none_before refl
parked_from-NoWait step parked before (inr (r, l, out)) =
    let (rest, k) = last?-reversed before r l in rw (k, parked_from, out) refl

parked_from-Waits :
    (step : String) (parked : ℕ) (xs ys : List Row) (first : Row)
    → All (Waits step) xs
    → Waits step first
    → parked_from step parked (xs ++ first ∷ ys) ≡ parked_from step first.ts ys
unfolding parked_from
parked_from-Waits step parked [] ys first h k = rw k refl
parked_from-Waits step parked (x ∷ xs) ys first h k =
    rw (h.0) (parked_from-Waits step x.ts xs ys first h.1 k)

parked_back-Waits :
    (step : String) (xs ys : List Row) (first : Row)
    → All (Waits step) xs
    → Waits step first
    → parked_back step (xs ++ first ∷ ys) ≡ ok (parked_from step first.ts ys)
unfolding parked_back
parked_back-Waits step [] ys first h k = refl
parked_back-Waits step (x ∷ xs) ys first h k = ap ok (parked_from-Waits step x.ts xs ys first h.1 k)

-- If the step waits in the event `first` and in all that follow it, and did not wait just before
-- `first` or `first` is the first event of all, then `parked_at` returns the time of `first`.
pub parked_at-first :
    (step : String) (before rest : List Row) (first : Row)
    → NoWait step before
    → Waits step first
    → All (Waits step) rest
    → parked_at (before ++ first ∷ rest) step ≡ ok first.ts
unfolding parked_at
parked_at-first step before rest first b k h =
    let q : reversed (before ++ first ∷ rest) ≡ reversed rest ++ first ∷ reversed before =
      reversed-append before (first ∷ rest)
      ∙ append_assoc (reversed rest) (first ∷ []) (reversed before) in
    ap (parked_back step) q
    ∙ parked_back-Waits step (reversed rest) (reversed before) first
        (All-reversed (Waits step) rest h) k
    ∙ ap ok (parked_from-NoWait step first.ts before b)
