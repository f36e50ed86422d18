-- ===== src/Triggers/Queue/Once.antt =====
-- What was asked for once is queued once, and how long the queue can grow.
use my_org.Common.{
  ℕ, zero, suc, ◌≤◌, String, ◌≡◌, refl, sym, ap, inl, inr, Bool, true, false, Option, none, some,
  List, [], ◌∷◌, ◌++◌, arith, eq_refl, find_first, length, ltb, ltb→le, take, select, order_by,
  place, if_ind, Bool-cases,
}
use my_org.Result.{ok, refuse->>, queue_is_full, ok-injective}
use my_org.Triggers.Queue.{
  Intake, is_row, waits, no_younger, new_intake, enqueued, enqueue_trigger, queued_triggers,
  max_queued, enqueue,
}

module _ {ℓ} {A : Type ℓ} (p : A → Bool) where
  find_first-snoc :
      (xs : List A) (x : A)
      → find_first p xs ≡ none
      → p x ≡ true
      → find_first p (xs ++ x ∷ []) ≡ some x
  find_first-snoc [] x e h = rw h refl
  find_first-snoc (y ∷ xs) x e h = elim (Bool-cases (p y)) [
    | inl k ↦ absurd (ground (arith, e, k))
    | inr k ↦ rw (k, find_first) (find_first-snoc xs x (ground (arith, e, k)) h)
  ]

answers-again :
    (org id : String) (fresh fresh' t : Intake) (created : Bool) (rows rows' : List Intake)
    (prior : Option Intake)
    → is_row org id fresh ≡ true
    → find_first (is_row org id) rows ≡ prior
    → enqueued fresh rows prior ≡ (t, created, rows')
    → enqueued fresh' rows' (find_first (is_row org id) rows') ≡ (t, false, rows')
unfolding enqueued
answers-again org id fresh fresh' t created rows rows' (some prior) own q k =
    let same : rows ≡ rows' = ap (λ (x : Intake × Bool × List Intake). x.2) k in
    let row : prior ≡ t = ap (λ (x : Intake × Bool × List Intake). x.0) k in
    rw (sym same, q) (ap (λ (x : Intake). (x, false, rows)) row)
answers-again org id fresh fresh' t created rows rows' none own q k =
    let same : rows ++ fresh ∷ [] ≡ rows' = ap (λ (x : Intake × Bool × List Intake). x.2) k in
    let row : fresh ≡ t = ap (λ (x : Intake × Bool × List Intake). x.0) k in
    rw (sym same, find_first-snoc (is_row org id) rows fresh q own)
      (ap (λ (x : Intake). (x, false, rows ++ fresh ∷ [])) row)

-- Asking again for what was queued, in whatever words, answers with the row that is there, says
-- that it is not new, and leaves the table as it was.
pub enqueue_trigger_again :
    (now now' : ℕ) (org id source source_ref goal source' source_ref' goal' : String)
    (rows rows' : List Intake) (t : Intake) (created : Bool)
    → enqueue_trigger now org id source source_ref goal rows ≡ (t, created, rows')
    → enqueue_trigger now' org id source' source_ref' goal' rows' ≡ (t, false, rows')
unfolding enqueue_trigger enqueued new_intake
enqueue_trigger_again now now' org id source source_ref goal source' source_ref' goal' rows rows' t
      created e =
    answers-again org id (new_intake now org id source source_ref goal)
      (new_intake now' org id source' source_ref' goal') t created rows rows' _
      (rw (eq_refl org, eq_refl id) refl) refl e

length-place :
    (before : Intake → Intake → Bool) (x : Intake) (ys : List Intake)
    → length (place before x ys) ≡ suc (length ys)
length-place before x [] = refl
length-place before x (y ∷ ys) = elim (Bool-cases (before x y)) [
  | inl first ↦ rw first refl
  | inr later ↦ rw later (omega (arith, length-place before x ys))
]

length-order_by :
    (before : Intake → Intake → Bool) (xs : List Intake) → length (order_by before xs) ≡ length xs
length-order_by before [] = refl
length-order_by before (x ∷ xs) =
    omega (arith, length-place before x (order_by before xs), length-order_by before xs)

length-take : (n : ℕ) (xs : List Intake) → length (take (suc n) xs) ≤ n → length xs ≤ n
length-take zero [] k = omega arith
length-take zero (x ∷ xs) k = absurd (omega (arith, k))
length-take (suc n) [] k = omega arith
length-take (suc n) (x ∷ xs) k = omega (arith, length-take n xs (omega (arith, k)))

length-select-snoc :
    (p : Intake → Bool) (xs : List Intake) (x : Intake)
    → length (select p (xs ++ x ∷ [])) ≤ suc (length (select p xs))
length-select-snoc p [] x =
    if_ind (λ (ys : List Intake). length ys ≤ 1) (p x) _ _ (λ _. omega arith) (λ _. omega arith)
length-select-snoc p (y ∷ xs) x =
    let rest = length-select-snoc p xs x in
    elim (Bool-cases (p y)) [ inl k ↦ rw k (omega (arith, rest)) | inr k ↦ rw k rest ]

enqueued-bound :
    (org : String) (fresh t : Intake) (created : Bool) (rows rows' : List Intake)
    (prior : Option Intake)
    → length (select (waits org) rows) ≤ max_queued
    → enqueued fresh rows prior ≡ (t, created, rows')
    → length (select (waits org) rows') ≤ suc max_queued
unfolding enqueued
enqueued-bound org fresh t created rows rows' (some prior) h e =
    rw (sym (ap (λ (x : Intake × Bool × List Intake). x.2) e)) (omega (arith, h))
enqueued-bound org fresh t created rows rows' none h e =
    rw (sym (ap (λ (x : Intake × Bool × List Intake). x.2) e))
      (omega (arith, h, length-select-snoc (waits org) rows fresh))

-- After `enqueue` succeeds, at most one request more than MAX_QUEUED_TRIGGERS waits for the organization,
-- however many waited for others.
pub enqueue-bound :
    (now : ℕ) (org id source source_ref goal : String) (rows rows' : List Intake) (t : Intake)
    (created : Bool)
    → enqueue now org id source source_ref goal rows ≡ ok (t, created, rows')
    → length (select (waits org) rows') ≤ suc max_queued
unfolding enqueue queued_triggers enqueue_trigger
enqueue-bound now org id source source_ref goal rows rows' t created e =
    let queue = order_by no_younger (select (waits org) rows) in
    let (short, k) =
      refuse->> (ltb max_queued (length (take (suc max_queued) queue))) queue_is_full _ e in
    let few = length-take max_queued queue (ltb→le _ _ short) in
    enqueued-bound org (new_intake now org id source source_ref goal) t created rows rows'
      (find_first (is_row org id) rows)
      (omega (arith, few, length-order_by no_younger (select (waits org) rows)))
      (ok-injective _ (t, created, rows') k)
