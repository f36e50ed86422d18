-- ===== src/Audit/Chain.antt =====
-- The chain of runtime/audit.py: what `append` keeps, and what `verify` detects.
use my_org.Common.{
  String, ◌≡◌, refl, sym, ap, ◌∙◌, true, Option, none, some, [], ◌∷◌, ◌++◌, arith, eq_iff, eq_refl,
  last?, length,
}
use my_org.Result.{ok}
use my_org.Audit.{
  Host, Entry, Sealed, Line, plain, sealed, Log, split_chain, anchor, entry_hash_of, hash_or,
  head_hash, seal, append, same_hash, problems_from, verify,
}

-- Every line from here on is chained to the one before it and carries its own digest.
abbrev pub Chained : Host → Option String → Log → Type 0
Chained h previous [] = Unit
Chained h previous (plain s ∷ ls) = ⊥
Chained h previous (sealed e ∷ ls) =
    (e.prev_hash ≡ previous)
    × (e.entry_hash ≡ h.digest e.entry e.ts e.prev_hash)
    × Chained h (some e.entry_hash) ls

pub same_hash→eq : (a b : Option String) → same_hash a b ≡ true → a ≡ b
same_hash→eq none none e = refl
same_hash→eq (some a) (some b) e = ap some ((eq_iff a b).0 e)
same_hash→eq none (some b) e = cc
same_hash→eq (some a) none e = cc

pub same_hash_refl : (a : Option String) → same_hash a a ≡ true
same_hash_refl none = refl
same_hash_refl (some a) = eq_refl a

no_problems→Chained :
    (h : Host) (previous : Option String) (ls : Log)
    → problems_from h previous ls ≡ []
    → Chained h previous ls
unfolding problems_from
no_problems→Chained h previous [] e = tt
no_problems→Chained h previous (plain s ∷ ls) e = cc
no_problems→Chained h previous (sealed r ∷ ls) e = (
  same_hash→eq r.prev_hash previous (ground arith),
  (eq_iff r.entry_hash (h.digest r.entry r.ts r.prev_hash)).0 (ground arith),
  no_problems→Chained h (some r.entry_hash) ls (ground arith),
)

Chained→no_problems :
    (h : Host) (previous : Option String) (ls : Log)
    → Chained h previous ls
    → problems_from h previous ls ≡ []
unfolding problems_from
Chained→no_problems h previous [] c = refl
Chained→no_problems h previous (plain s ∷ ls) c = absurd c
Chained→no_problems h previous (sealed r ∷ ls) (p, d, c) =
    rw (p, same_hash_refl previous, ← p, ← d, eq_refl r.entry_hash)
      (Chained→no_problems h (some r.entry_hash) ls c)

split_chain-snoc :
    (log : Log) (e : Sealed)
    → split_chain (log ++ sealed e ∷ [])
      ≡ ((split_chain log).0, (split_chain log).1 ++ sealed e ∷ [])
unfolding split_chain
split_chain-snoc [] e = refl
split_chain-snoc (plain s ∷ ls) e = rw (split_chain-snoc ls e)
split_chain-snoc (sealed r ∷ ls) e = refl

-- What the next line must name, after a chain that starts from `previous`.
abbrev next_hash : Option String → Log → Option String
next_hash previous [] = previous
next_hash previous (l ∷ ls) = next_hash (entry_hash_of l) ls

-- The default does not matter where there is a last line.
hash_or-cons :
    (p q : Option String) (m : Line) (ls : Log)
    → hash_or p (last? (m ∷ ls)) ≡ hash_or q (last? (m ∷ ls))
hash_or-cons p q m [] = refl
hash_or-cons p q m (l ∷ ls) = hash_or-cons p q l ls

last-eq-next_hash :
    (previous : Option String) (ls : Log) → hash_or previous (last? ls) ≡ next_hash previous ls
last-eq-next_hash previous [] = refl
last-eq-next_hash previous (l ∷ []) = refl
last-eq-next_hash previous (l ∷ m ∷ ls) =
    hash_or-cons previous (entry_hash_of l) m ls ∙ last-eq-next_hash (entry_hash_of l) (m ∷ ls)

Chained-snoc :
    (h : Host) (previous : Option String) (ls : Log) (e : Sealed)
    → Chained h previous ls
    → e.prev_hash ≡ next_hash previous ls
    → e.entry_hash ≡ h.digest e.entry e.ts e.prev_hash
    → Chained h previous (ls ++ sealed e ∷ [])
Chained-snoc h previous [] e c p d = (p, d, tt)
Chained-snoc h previous (plain s ∷ ls) e c p d = absurd c
Chained-snoc h previous (sealed r ∷ ls) e (p', d', c) p d =
    (p', d', Chained-snoc h (some r.entry_hash) ls e c p d)

abbrev IsIntact : Host → Log → Type 0
IsIntact h log = Chained h (anchor h (split_chain log).0) (split_chain log).1

verify→IsIntact : (h : Host) (log : Log) → verify h log ≡ [] → IsIntact h log
unfolding verify
verify→IsIntact h log e = no_problems→Chained h (anchor h (split_chain log).0) (split_chain log).1 e

head_hash-eq-next_hash :
    (h : Host) (log : Log)
    → head_hash h log ≡ next_hash (anchor h (split_chain log).0) (split_chain log).1
unfolding head_hash
head_hash-eq-next_hash h log = last-eq-next_hash (anchor h (split_chain log).0) (split_chain log).1

seal-IsIntact :
    (h : Host) (e : Entry) (log : Log) → IsIntact h log → IsIntact h (log ++ seal h e log ∷ [])
unfolding seal
seal-IsIntact h e log c = rw (split_chain-snoc log _) (
    Chained-snoc h (anchor h (split_chain log).0) (split_chain log).1 _ c
      (head_hash-eq-next_hash h log) refl)

append-eq-ok :
    (h : Host) (e : Entry) (log log' : Log)
    → append h e log ≡ ok log'
    → log' ≡ log ++ seal h e log ∷ []
unfolding append
append-eq-ok h e log log' p = ground arith

-- On a log without problems a successful `append` adds one line at the end and leaves a log in
-- which `verify`, run with the same hash function, finds no problem.
pub verify-append :
    (h : Host) (e : Entry) (log log' : Log)
    → verify h log ≡ []
    → append h e log ≡ ok log'
    → (verify h log' ≡ []) × (log' ≡ log ++ seal h e log ∷ [])
verify-append h e log log' intact p =
    let added = append-eq-ok h e log log' p in
    (
      rw added (
          unfold verify in
          Chained→no_problems h _ _ (seal-IsIntact h e log (verify→IsIntact h log intact))),
      added,
    )

-- The digest does not collide on the lines at the same place of two chains.
abbrev NoCollision : Host → Log → Log → Type 0
NoCollision h (sealed r ∷ xs) (sealed s ∷ ys) =
    (h.digest r.entry r.ts r.prev_hash ≡ h.digest s.entry s.ts s.prev_hash
      → (r.entry ≡ s.entry) × (r.ts ≡ s.ts) × (r.prev_hash ≡ s.prev_hash))
    × NoCollision h xs ys
NoCollision h (plain t ∷ xs) ys = Unit
NoCollision h (sealed r ∷ xs) (plain t ∷ ys) = Unit
NoCollision h (sealed r ∷ xs) [] = Unit
NoCollision h [] ys = Unit

Sealed-path :
    (r s : Sealed)
    → r.entry ≡ s.entry
    → r.ts ≡ s.ts
    → r.prev_hash ≡ s.prev_hash
    → r.entry_hash ≡ s.entry_hash
    → r ≡ s
Sealed-path r s e t p d i = record { entry = e i; ts = t i; prev_hash = p i; entry_hash = d i }

-- One step back along two chains that agree behind.
Chained-cons :
    (h : Host) {p q : Option String} (r s : Sealed) (xs ys : Log)
    → NoCollision h (sealed r ∷ xs) (sealed s ∷ ys)
    → r.entry_hash ≡ h.digest r.entry r.ts r.prev_hash
    → s.entry_hash ≡ h.digest s.entry s.ts s.prev_hash
    → xs ≡ ys
    → some r.entry_hash ≡ some s.entry_hash
    → r.prev_hash ≡ p
    → s.prev_hash ≡ q
    → (sealed r ∷ xs ≡ sealed s ∷ ys) × (p ≡ q)
Chained-cons h r s xs ys inj dr ds l d pr ps =
    let same : (r.entry ≡ s.entry) × (r.ts ≡ s.ts) × (r.prev_hash ≡ s.prev_hash) = inj.0 (cc) in
    (cc (Sealed-path r s same.0 same.1 same.2 (cc)), cc (same.2))

-- Two chains of the same length with the same last hash are the same, if the digest does not collide on them.
Chained-unique :
    (h : Host) (p q : Option String) (xs ys : Log)
    → NoCollision h xs ys
    → Chained h p xs
    → Chained h q ys
    → length xs ≡ length ys
    → next_hash p xs ≡ next_hash q ys
    → (xs ≡ ys) × (p ≡ q)
Chained-unique h p q [] [] inj c c' n e = (refl, e)
Chained-unique h p q [] (y ∷ ys) inj c c' n e = absurd (omega arith)
Chained-unique h p q (x ∷ xs) [] inj c c' n e = absurd (omega arith)
Chained-unique h p q (plain s ∷ xs) (y ∷ ys) inj c c' n e = absurd c
Chained-unique h p q (sealed r ∷ xs) (plain s ∷ ys) inj c c' n e = absurd c'
Chained-unique h p q (sealed r ∷ xs) (sealed s ∷ ys) inj (pr, dr, c) (ps, ds, c') n e =
    let ih : (xs ≡ ys) × (some r.entry_hash ≡ some s.entry_hash) =
      Chained-unique h (some r.entry_hash) (some s.entry_hash) xs ys inj.1 c c' (omega arith) e in
    Chained-cons h r s xs ys inj dr ds ih.0 ih.1 pr ps

-- If the digest does not collide on lines at the same place of the two chains, two logs without problems whose chains have the same length and the
-- same last hash have the same chained lines and the same seal on what stood before them.
pub verify_unique :
    (h : Host) (log log' : Log)
    → NoCollision h (split_chain log).1 (split_chain log').1
    → verify h log ≡ []
    → verify h log' ≡ []
    → length (split_chain log).1 ≡ length (split_chain log').1
    → head_hash h log ≡ head_hash h log'
    → ((split_chain log).1 ≡ (split_chain log').1)
      × (anchor h (split_chain log).0 ≡ anchor h (split_chain log').0)
verify_unique h log log' inj v v' n e =
    Chained-unique h _ _ _ _ inj (verify→IsIntact h log v) (verify→IsIntact h log' v') n
      (sym (head_hash-eq-next_hash h log) ∙ e ∙ head_hash-eq-next_hash h log')
