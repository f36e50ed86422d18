-- ===== src/Notices/Once.antt =====
-- The same fact is told once.
use my_org.Common.{
  String, ◌≡◌, refl, sym, ap, ◌∙◌, inl, inr, true, false, Option, some, List, [], ◌∷◌, ◌++◌,
  if◌then◌else◌, arith, ◌==◌, eq_iff, find_first, Bool-cases,
}
use my_org.Notices.{Notice, set_notice, read_notices, read_all, append, is_notice}

-- What is found after a notice was set.
abbrev looked_up : String → Notice → List Notice → Option Notice
looked_up id n ms = if is_notice id n then some n else find_first (is_notice id) ms

eq_trans : (s t u : String) → (s == t) ≡ true → (s == u) ≡ (t == u)
eq_trans s t u h = ap (λ (x : String). x == u) ((eq_iff s t).0 h)

not-both :
    (id : String) (m n : Notice)
    → (m.id == id) ≡ true
    → (m.id == n.id) ≡ false
    → (n.id == id) ≡ false
not-both id m n here other = elim (Bool-cases (n.id == id)) [
  | inl k ↦
      let same : m.id ≡ n.id = (eq_iff m.id id).0 here ∙ sym ((eq_iff n.id id).0 k) in
      absurd (ground (arith, sym ((eq_iff m.id n.id).1 same) ∙ other))
  | inr k ↦ k
]

find_first-set_notice :
    (id : String) (n : Notice) (ms : List Notice)
    → find_first (is_notice id) (set_notice n ms) ≡ looked_up id n ms
find_first-set_notice id n [] = elim (Bool-cases (n.id == id)) [
  | inl k ↦ rw (k, find_first) refl
  | inr k ↦ rw (k, find_first) refl
]
find_first-set_notice id n (m ∷ ms) =
    let rest = find_first-set_notice id n ms in
    elim (Bool-cases (m.id == n.id)) [
      | inl same ↦
          let both = eq_trans m.id n.id id same in
          elim (Bool-cases (n.id == id)) [
            | inl k ↦ rw (same, find_first, k) refl
            | inr k ↦ rw (same, find_first, both, k) refl
          ]
      | inr other ↦ elim (Bool-cases (m.id == id)) [
        | inl here ↦ rw (other, find_first, here, not-both id m n here other) refl
        | inr gone ↦ rw (other, find_first, gone) rest
      ]
    ]

read_notices-snoc :
    (latest lines : List Notice) (n : Notice)
    → read_notices latest (lines ++ n ∷ []) ≡ set_notice n (read_notices latest lines)
unfolding read_notices
read_notices-snoc latest [] n = refl
read_notices-snoc latest (line ∷ lines) n = read_notices-snoc (set_notice line latest) lines n

-- The outbox is a table: a line written is what is read under its id, and nothing else is touched.
pub read_all-append :
    (id : String) (n : Notice) (outbox : List Notice)
    → find_first (is_notice id) (read_all (append n outbox))
      ≡ (if n.id == id then some n else find_first (is_notice id) (read_all outbox))
unfolding read_all
read_all-append id n outbox =
    rw (read_notices-snoc [] outbox n) (find_first-set_notice id n (read_notices [] outbox))
