-- ===== src/Notices/Unique.antt =====
-- The notices that are read have an id each.
use mathlib.Core.List.{Memᴰ}
use mathlib.Core.List.Memᴰ.{head, tail}
use my_org.Common.{
  String, ◌≡◌, refl, sym, ap, ◌∙◌, inl, inr, true, false, some, List, [], ◌∷◌, arith, ◌==◌, eq_iff,
  find_first, Bool-cases, if_ind, All-Mem, Without, some-injective,
}
use my_org.Notices.{Notice, set_notice, read_notices, is_notice}

other_way : (s t : String) → (s == t) ≡ false → (t == s) ≡ false
other_way s t h = elim (Bool-cases (t == s)) [
  | inl k ↦ absurd (ground (arith, (eq_iff s t).1 (sym ((eq_iff t s).0 k)), h))
  | inr k ↦ k
]

-- No two notices have one id.
abbrev pub Unique : List Notice → Type 0
Unique [] = Unit
Unique (m ∷ ms) = Without (is_notice m.id) ms × Unique ms

set_notice-Without :
    (id : String) (n : Notice) (ms : List Notice)
    → is_notice id n ≡ false
    → Without (is_notice id) ms
    → Without (is_notice id) (set_notice n ms)
set_notice-Without id n [] k h = (k, tt)
set_notice-Without id n (m ∷ ms) k h =
    let rest = set_notice-Without id n ms k h.1 in
    if_ind (Without (is_notice id)) (m.id == n.id) _ _ (λ _. (k, h.1)) (λ _. (h.0, rest))

set_notice-Unique : (n : Notice) (ms : List Notice) → Unique ms → Unique (set_notice n ms)
set_notice-Unique n [] h = (tt, tt)
set_notice-Unique n (m ∷ ms) h =
    let rest = set_notice-Unique n ms h.1 in
    if_ind Unique (m.id == n.id) _ _ (λ same. (rw (sym ((eq_iff m.id n.id).0 same)) h.0, h.1))
      (λ other. (set_notice-Without m.id n ms (other_way m.id n.id other) h.0, rest))

pub read_notices-Unique :
    (latest lines : List Notice) → Unique latest → Unique (read_notices latest lines)
unfolding read_notices
read_notices-Unique latest [] h = h
read_notices-Unique latest (line ∷ lines) h =
    read_notices-Unique (set_notice line latest) lines (set_notice-Unique line latest h)

pub Unique-find :
    (id : String) (n : Notice) (ms : List Notice)
    → Unique ms
    → Memᴰ n ms
    → is_notice id n ≡ true
    → find_first (is_notice id) ms ≡ some n
Unique-find id n [] u m h = elim m [ ]
Unique-find id n (x ∷ ms) u (head e) h =
    rw (ap (is_notice id) (sym e) ∙ h, find_first) (ap some (sym e))
Unique-find id n (x ∷ ms) u (tail m) h = elim (Bool-cases (x.id == id)) [
  | inl k ↦
      let alike = (eq_iff n.id x.id).1 ((eq_iff n.id id).0 h ∙ sym ((eq_iff x.id id).0 k)) in
      absurd (ground (arith, All-Mem (λ y. is_notice x.id y ≡ false) n ms u.0 m, alike))
  | inr k ↦ rw (k, find_first) (Unique-find id n ms u.1 m h)
]

pub find_first-is :
    (id : String) (ms : List Notice) (p : Notice)
    → find_first (is_notice id) ms ≡ some p
    → is_notice id p ≡ true
find_first-is id [] p h = cc
find_first-is id (m ∷ ms) p h = elim (Bool-cases (m.id == id)) [
  | inl k ↦ ap (is_notice id) (some-injective p m (sym h ∙ rw (k, find_first) refl)) ∙ k
  | inr k ↦ find_first-is id ms p (sym (rw (k, find_first) refl) ∙ h)
]
