-- ===== src/Triggers/Queue/Places.antt =====
-- A request that is queued again keeps its place.
use my_org.Common.{
  ℕ, zero, suc, String, ◌≡◌, refl, sym, ap, ◌∙◌, inl, inr, Bool, true, Option, List, [], ◌∷◌, map,
  arith, if_ind, Bool-cases, select, update, take, place, order_by, eqb, length, find_first,
}
use my_org.Result.{ok, >>=-eq-ok, require->>, found, key_error, already_settled, ok-injective}
use my_org.Triggers.Queue.{
  queued, is_queued, Intake, is_row, waits, no_younger, queued_triggers, settled, open_row,
  settle_trigger,
}

-- What the queue reads of a row.
record Same (t u : Intake) : Type 0 where
  id : t.id ≡ u.id
  org : t.org_id ≡ u.org_id
  status : is_queued t.status ≡ is_queued u.status
  age : t.created_at ≡ u.created_at

Same-refl : (t : Intake) → Same t t
Same-refl t = record { id = refl; org = refl; status = refl; age = refl }

-- Lists whose rows read the same, one by one.
abbrev Alike : List Intake → List Intake → Type 0
Alike [] [] = Unit
Alike (t ∷ ts) (u ∷ us) = Same t u × Alike ts us
Alike _ _ = ⊥

update-Alike :
    (p : Intake → Bool) (f : Intake → Intake) (ts : List Intake)
    → ((t : Intake) → p t ≡ true → Same (f t) t)
    → Alike (update p f ts) ts
update-Alike p f [] h = tt
update-Alike p f (t ∷ ts) h =
    let rest = update-Alike p f ts h in
    if_ind (λ (us : List Intake). Alike us (t ∷ ts)) (p t) _ _ (λ e. (h t e, rest))
      (λ _. (Same-refl t, rest))

select-Alike :
    (p : Intake → Bool) (ts us : List Intake)
    → ((t u : Intake) → Same t u → p t ≡ p u)
    → Alike ts us
    → Alike (select p ts) (select p us)
select-Alike p [] [] h a = tt
select-Alike p [] (u ∷ us) h a = elim a [ ]
select-Alike p (t ∷ ts) [] h a = elim a [ ]
select-Alike p (t ∷ ts) (u ∷ us) h a =
    let rest = select-Alike p ts us h a.1 in
    elim (Bool-cases (p u)) [
      | inl k ↦ rw (h t u a.0 ∙ k, k) (a.0, rest)
      | inr k ↦ rw (h t u a.0 ∙ k, k) rest
    ]

place-Alike :
    (t u : Intake) (ts us : List Intake)
    → Same t u
    → Alike ts us
    → Alike (place no_younger t ts) (place no_younger u us)
place-Alike t u [] [] s a = (s, tt)
place-Alike t u [] (v ∷ us) s a = elim a [ ]
place-Alike t u (v ∷ ts) [] s a = elim a [ ]
place-Alike t u (v ∷ ts) (x ∷ us) s a =
    let rest = place-Alike t u ts us s a.1 in
    let here : no_younger t v ≡ no_younger u x = rw (s.age, a.0.age) refl in
    elim (Bool-cases (no_younger u x)) [
      | inl k ↦ rw (here ∙ k, k) (s, a)
      | inr k ↦ rw (here ∙ k, k) (a.0, rest)
    ]

order_by-Alike :
    (ts us : List Intake) → Alike ts us → Alike (order_by no_younger ts) (order_by no_younger us)
order_by-Alike [] [] a = tt
order_by-Alike [] (u ∷ us) a = elim a [ ]
order_by-Alike (t ∷ ts) [] a = elim a [ ]
order_by-Alike (t ∷ ts) (u ∷ us) a = place-Alike t u _ _ a.0 (order_by-Alike ts us a.1)

take-ids :
    (n : ℕ) (ts us : List Intake)
    → Alike ts us
    → map (λ (t : Intake). t.id) (take n ts) ≡ map (λ (t : Intake). t.id) (take n us)
take-ids zero ts us a = refl
take-ids (suc n) [] [] a = refl
take-ids (suc n) [] (u ∷ us) a = elim a [ ]
take-ids (suc n) (t ∷ ts) [] a = elim a [ ]
take-ids (suc n) (t ∷ ts) (u ∷ us) a = rw (a.0.id, take-ids n ts us a.1) refl

settled-Same :
    (now : ℕ) (org id : String) (run_id error : Option String) (count_attempt : Bool) (t : Intake)
    → open_row org id t ≡ true
    → Same (settled now queued run_id error count_attempt t) t
unfolding settled
settled-Same now org id run_id error count_attempt t h = record {
  id = refl;
  org = refl;
  status = ground (arith, h);
  age = refl;
}

waits-Same : (org : String) (t u : Intake) → Same t u → waits org t ≡ waits org u
waits-Same org t u s = rw (s.org, s.status) refl

-- A settlement back to `queued`, which is what a failed attempt gets, leaves every organization's queue
-- in the order it had, at whatever length it is read.
pub settle_trigger-places :
    (now : ℕ) (org id : String) (run_id error : Option String) (count_attempt : Bool)
    (rows rows' : List Intake) (t : Intake) (org' : String) (limit : ℕ)
    → settle_trigger now org id queued run_id error count_attempt rows ≡ ok (t, rows')
    → map (λ (u : Intake). u.id) (queued_triggers org' limit rows')
      ≡ map (λ (u : Intake). u.id) (queued_triggers org' limit rows)
unfolding settle_trigger queued_triggers
settle_trigger-places now org id run_id error count_attempt rows rows' t org' limit e =
    let change = settled now queued run_id error count_attempt in
    let done = update (open_row org id) change rows in
    let (_, k) = require->> (eqb (length (select (open_row org id) rows)) 1) already_settled _ e in
    let (row, _, q) = >>=-eq-ok (found (find_first (is_row org id) done) key_error) _ k in
    let same : done ≡ rows' =
      ap (λ (x : Intake × List Intake). x.1) (ok-injective (row, done) (t, rows') q) in
    let alike =
      update-Alike (open_row org id) change rows
        (settled-Same now org id run_id error count_attempt) in
    rw (sym same) (
      take-ids limit _ _
        (order_by-Alike _ _ (select-Alike (waits org') done rows (waits-Same org') alike)))
