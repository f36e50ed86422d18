-- ===== src/Triggers/Schedules/Claims.antt =====
-- A due time is claimed once.
use mathlib.Core.Path.{subst}
use my_org.Common.{
  ℕ, ◌≤◌, ◌<◌, String, ◌≡◌, refl, inl, inr, Bool, true, false, ◌&&◌, List, ◌∷◌, arith, ◌==◌, eqb,
  length, select, update, Without, Without-mono, select-Without, update-Without, Single, nowhere,
  here, later, select-Single, Bool-cases, ap, sym, ◌∙◌,
}
use my_org.Triggers.Schedules.{Schedule, is_due, advanced, claim_due_schedule}

abbrev pub has_key : String → String → Schedule → Bool
has_key org id s = s.org_id == org && s.id == id

module _ (clock : ℕ) (org id : String) (fired next fired' : ℕ) (h : fired' < next) where
  not_due : (t : ℕ) (s : Schedule) → has_key org id s ≡ false → is_due org id t s ≡ false
  not_due t s k = rw k refl

  idle :
      (t : ℕ) (rows : List Schedule)
      → Without (has_key org id) rows
      → Without (is_due org id t) rows
  idle t rows = Without-mono (has_key org id) (is_due org id t) rows (not_due t)

  moved : (s : Schedule) → is_due org id fired' (advanced clock fired next s) ≡ false
  unfolding advanced
  moved s = ground (arith, h)

  claimed-Without :
      (rows : List Schedule)
      → Single (has_key org id) rows
      → eqb (length (select (is_due org id fired) rows)) 1 ≡ true
      → Without
          (is_due org id fired')
          (update (is_due org id fired) (advanced clock fired next) rows)
  claimed-Without rows (nowhere none) won =
      rw
        (update-Without (is_due org id fired) (advanced clock fired next) rows
          (idle fired rows none))
        (idle fired' rows none)
  claimed-Without (s ∷ rows) (here k none) won =
      let nobody = select-Without (is_due org id fired) rows (idle fired rows none) in
      let same =
        update-Without (is_due org id fired) (advanced clock fired next) rows
          (idle fired rows none) in
      elim (Bool-cases (is_due org id fired s)) [
        | inl due ↦ rw (due, same) (moved s, idle fired' rows none)
        | inr early ↦ absurd (ground (arith, won, early, nobody))
      ]
  claimed-Without (s ∷ rows) (later k rest) won =
      let early = not_due fired s k in
      rw early (not_due fired' s k, claimed-Without rows rest (sym (rw early refl) ∙ won))

-- Where a key names at most one schedule: once a sweeper has claimed a due time, no sweeper whose clock
-- has not reached the following due time claims it again, and the attempt leaves the table as it was.
pub claim_due_schedule-once :
    (clock clock' : ℕ) (org id : String) (fired next fired' next' : ℕ) (rows rows' : List Schedule)
    → length (select (has_key org id) rows) ≤ 1
    → fired' < next
    → claim_due_schedule clock org id fired next rows ≡ (true, rows')
    → claim_due_schedule clock' org id fired' next' rows' ≡ (false, rows')
unfolding claim_due_schedule
claim_due_schedule-once clock clock' org id fired next fired' next' rows rows' one h e =
    let shut =
      claimed-Without clock org id fired next fired' h rows
        (select-Single (has_key org id) rows one) (ap (λ (x : Bool × List Schedule). x.0) e) in
    let shut' : Without (is_due org id fired') rows' =
      subst (Without (is_due org id fired')) (ap (λ (x : Bool × List Schedule). x.1) e) shut in
    rw
      (
        select-Without (is_due org id fired') rows' shut',
        update-Without (is_due org id fired') (advanced clock' fired' next') rows' shut',
      )
      refl
