-- ===== src/Notices/Told.antt =====
-- A fact that was written is told once, whatever is delivered in between.
use mathlib.Core.Path.{subst}
use my_org.Common.{
  ℕ, String, ◌≡◌, refl, sym, ap, ◌∙◌, ◌⊎◌, inl, inr, true, false, not, ◌||◌, Option, none, some,
  List, [], ◌∷◌, arith, ◌==◌, eq_refl, eq_iff, find_first, Bool-cases, if-cases, All, All-of,
  select, Mem-select, Mem-order_by, some-injective,
}
use my_org.Notices.{
  Notice, Fact, notice_id, read_all, append, is_notice, new_notice, is_same_fact, raised_after,
  raise_notice, Command, delivered_line, mark_delivered, outstanding, is_more_urgent,
  record_failure, handed_over, deliver_each, deliver,
}
use my_org.Notices.Once.{read_all-append}
use my_org.Notices.Unique.{read_notices-Unique, Unique-find, find_first-is}

-- The notice that is read under an id tells the fact.
abbrev Told : String → Fact → List Notice → Type 0
Told id f outbox =
    (p : Notice) × (find_first (is_notice id) (read_all outbox) ≡ some p)
    × (p.subject ≡ f.subject)
    × (p.detail ≡ f.detail)

-- A notice of another id, or one that tells the fact.
abbrev Fits : String → Fact → Notice → Type 0
Fits id f n = (is_notice id n ≡ false) ⊎ ((n.subject ≡ f.subject) × (n.detail ≡ f.detail))

module _ (id : String) (f : Fact) where
  append-Told :
      (n : Notice) (outbox : List Notice)
      → Fits id f n
      → Told id f outbox
      → Told id f (append n outbox)
  append-Told n outbox fits (p, q, s, t) = elim (Bool-cases (n.id == id)) [
    | inr k ↦ (p, read_all-append id n outbox ∙ rw k q, s, t)
    | inl k ↦ let (s', t') = fitting k fits in (n, read_all-append id n outbox ∙ rw k refl, s', t')
  ]
    where
      fitting : (n.id == id) ≡ true → Fits id f n → (n.subject ≡ f.subject) × (n.detail ≡ f.detail)
      fitting k (inl other) = absurd (ground (arith, k, other))
      fitting k (inr same) = same

  -- What is read tells the fact, where it has the id.
  found-Fits :
      (key : String) (outbox : List Notice) (p : Notice)
      → find_first (is_notice key) (read_all outbox) ≡ some p
      → Told id f outbox
      → Fits id f p
  found-Fits key outbox p q (t, r, s, d) = elim (Bool-cases (p.id == id)) [
    | inr k ↦ inl k
    | inl k ↦
        let same : key ≡ id =
          sym ((eq_iff p.id key).0 (find_first-is key (read_all outbox) p q))
          ∙ (eq_iff p.id id).0 k in
        let one : p ≡ t =
          some-injective p t
            (sym q ∙ ap (λ (x : String). find_first (is_notice x) (read_all outbox)) same ∙ r) in
        inr (ap (λ (x : Notice). x.subject) one ∙ s, ap (λ (x : Notice). x.detail) one ∙ d)
  ]

  mark_delivered-Told :
      (key : String) (outbox : List Notice)
      → Told id f outbox
      → Told id f (mark_delivered key outbox)
  unfolding mark_delivered
  mark_delivered-Told key outbox h = of (find_first (is_notice key) (read_all outbox)) refl
    where
      of :
          (o : Option Notice)
          → find_first (is_notice key) (read_all outbox) ≡ o
          → Told id f (delivered_line outbox o)
      of none q = h
      of (some p) q =
          append-Told (record p { delivered = true }) outbox (found-Fits key outbox p q h) h

  deliver_each-Told :
      (command : Command) (ns outbox : List Notice)
      → All (Fits id f) ns
      → Told id f outbox
      → Told id f (deliver_each command ns outbox).1
  unfolding deliver_each handed_over record_failure
  deliver_each-Told command [] outbox fits h = h
  deliver_each-Told command (n ∷ ns) outbox fits h =
      deliver_each-Told command ns (handed_over n (command n) outbox).1 fits.1 (of (command n))
    where
      of : (o : Option String) → Told id f (handed_over n o outbox).1
      of (some error) = append-Told _ outbox fits.0 h
      of none = mark_delivered-Told n.id outbox h

  outstanding-Fits :
      (outbox : List Notice) → Told id f outbox → All (Fits id f) (outstanding outbox)
  unfolding outstanding read_all
  outstanding-Fits outbox h = All-of (Fits id f) (outstanding outbox) λ n m.
      let pending = select (λ (x : Notice). not x.delivered) (read_all outbox) in
      let (there, _) =
        Mem-select (λ (x : Notice). not x.delivered) n (read_all outbox)
          (Mem-order_by is_more_urgent n pending m) in
      found-Fits n.id outbox n
        (Unique-find n.id n (read_all outbox) (read_notices-Unique [] outbox tt) there
          (eq_refl n.id))
        h

  deliver-Told :
      (command : Option Command) (outbox : List Notice)
      → Told id f outbox
      → Told id f (deliver command outbox).1
  unfolding deliver
  deliver-Told none outbox h = h
  deliver-Told (some command) outbox h =
      deliver_each-Told command (outstanding outbox) outbox (outstanding-Fits outbox h) h

-- The outbox after some deliveries, each to the command that was wired up then.
abbrev pub deliveries : List (Option Command) → List Notice → List Notice
deliveries [] outbox = outbox
deliveries (command ∷ commands) outbox = deliveries commands (deliver command outbox).1

deliveries-Told :
    (id : String) (f : Fact) (commands : List (Option Command)) (outbox : List Notice)
    → Told id f outbox
    → Told id f (deliveries commands outbox)
deliveries-Told id f [] outbox h = h
deliveries-Told id f (command ∷ commands) outbox h =
    deliveries-Told id f commands (deliver command outbox).1 (deliver-Told id f command outbox h)

written-Told :
    (now : ℕ) (f : Fact) (outbox : List Notice)
    → Told (notice_id f.kind f.run_id f.step_id) f (append (new_notice now f) outbox)
unfolding new_notice
written-Told now f outbox =
    let id = notice_id f.kind f.run_id f.step_id in
    (
      new_notice now f,
      read_all-append id (new_notice now f) outbox ∙ rw (eq_refl id) refl,
      refl,
      refl,
    )

raised-Told :
    (now : ℕ) (f : Fact) (outbox after : List Notice) (n : Notice) (prior : Option Notice)
    → raised_after now f outbox prior ≡ (some n, after)
    → Told (notice_id f.kind f.run_id f.step_id) f after
unfolding raised_after
raised-Told now f outbox after n none e =
    subst (Told (notice_id f.kind f.run_id f.step_id) f)
      (ap (λ (x : Option Notice × List Notice). x.1) e) (written-Told now f outbox)
raised-Told now f outbox after n (some prior) e =
    elim (if-cases (not prior.delivered || is_same_fact f prior) _ _ e) [
      | inl (known, k) ↦ absurd (ground (arith, ap (λ (x : Option Notice × List Notice). x.0) k))
      | inr (news, k) ↦
          subst (Told (notice_id f.kind f.run_id f.step_id) f)
            (ap (λ (x : Option Notice × List Notice). x.1) k) (written-Told now f outbox)
    ]

Told-quiet :
    (now : ℕ) (f : Fact) (outbox : List Notice)
    → Told (notice_id f.kind f.run_id f.step_id) f outbox
    → raise_notice now f outbox ≡ (none, outbox)
unfolding raise_notice raised_after
Told-quiet now f outbox (p, q, s, d) =
    ap (raised_after now f outbox) q
    ∙ rw ((eq_iff p.subject f.subject).1 s, (eq_iff p.detail f.detail).1 d)
        (elim (Bool-cases p.delivered) [ inl k ↦ rw k refl | inr k ↦ rw k refl ])

-- A fact that was written is told once: after any number of deliveries, to whatever commands and whether
-- they accept or refuse it, raising the same fact at any time writes nothing.
pub raise_notice_again :
    (now now' : ℕ) (f : Fact) (outbox after : List Notice) (n : Notice)
    (commands : List (Option Command))
    → raise_notice now f outbox ≡ (some n, after)
    → raise_notice now' f (deliveries commands after) ≡ (none, deliveries commands after)
unfolding raise_notice
raise_notice_again now now' f outbox after n commands e =
    Told-quiet now' f (deliveries commands after) (
      deliveries-Told (notice_id f.kind f.run_id f.step_id) f commands after
        (raised-Told now f outbox after n _ e))
