-- ===== src/Run/Log/Unique.antt =====
-- What the hash chain of a run's file detects.
use my_org.Common.{
  ℕ, suc, ◌+◌, String, ◌≡◌, refl, sym, ap, ◌∙◌, Option, none, some, List, [], ◌∷◌, arith, All,
  All-last, last?, length,
}
use mathlib.Core.Path.{ap₂}
use my_org.Result.{ok}
use my_org.Run.{Payload, Row, Line}
use my_org.Run.World.{World}
use my_org.Run.Log.{read_events}
use my_org.Run.Log.Append.{Linked, next_link, read_events→Reads}

abbrev pub Separates : World → Row → Row → Type 0
Separates w r s = w.revision r.payload ≡ w.revision s.payload → r.payload ≡ s.payload

-- The hash does not collide on a state of one file and a state of the other.
abbrev pub NoCollision : World → List Row → List Row → Type 0
NoCollision w rs ss = All (λ r. All (Separates w r) ss) rs

NoCollision-tail :
    (w : World) (s : Row) (rs ss : List Row) → NoCollision w rs (s ∷ ss) → NoCollision w rs ss
NoCollision-tail w s [] ss h = tt
NoCollision-tail w s (r ∷ rs) ss h = (h.0.1, NoCollision-tail w s rs ss h.1)

pub Linked-last :
    (w : World) (n : ℕ) (previous : Option String) (rs : List Row) (r : Row)
    → Linked w n previous rs
    → last? rs ≡ some r
    → (suc r.seq ≡ n + length rs)
      × (r.event_hash ≡ w.revision r.payload)
      × (next_link previous rs ≡ some r.event_hash)
Linked-last w n previous [] r k e = cc
Linked-last w n previous (x ∷ []) r k e = ground arith
Linked-last w n previous (x ∷ y ∷ rs) r k e =
    ground (arith, Linked-last w (suc n) (some x.event_hash) (y ∷ rs) r)

Row-path : (r s : Row) → r.payload ≡ s.payload → r.event_hash ≡ s.event_hash → r ≡ s
Row-path r s p h i = record { payload = p i; event_hash = h i }

-- One step back along two chains that agree behind.
Linked-cons :
    (w : World) {p q : Option String} (r s : Row) (rs ss : List Row)
    → Separates w r s
    → r.prev_event_hash ≡ p
    → s.prev_event_hash ≡ q
    → r.event_hash ≡ w.revision r.payload
    → s.event_hash ≡ w.revision s.payload
    → (rs ≡ ss) × (some r.event_hash ≡ some s.event_hash)
    → (r ∷ rs ≡ s ∷ ss) × (p ≡ q)
Linked-cons w r s rs ss inj pr ps dr ds (tail, hash) =
    let head : r.event_hash ≡ s.event_hash = cc in
    let same = inj (sym dr ∙ head ∙ ds) in
    (
      ap₂ ◌∷◌ (Row-path r s same head) tail,
      sym pr ∙ ap (λ (a : Payload). a.prev_event_hash) same ∙ ps,
    )

-- Linked states that agree in length and in the last hash agree.
Linked-unique :
    (w : World) (n : ℕ) (p q : Option String) (rs ss : List Row)
    → NoCollision w rs ss
    → Linked w n p rs
    → Linked w n q ss
    → length rs ≡ length ss
    → next_link p rs ≡ next_link q ss
    → (rs ≡ ss) × (p ≡ q)
Linked-unique w n p q [] [] inj k l m e = (refl, e)
Linked-unique w n p q [] (s ∷ ss) inj k l m e = absurd (omega arith)
Linked-unique w n p q (r ∷ rs) [] inj k l m e = absurd (omega arith)
Linked-unique w n p q (r ∷ rs) (s ∷ ss) inj (_, pr, dr, k) (_, ps, ds, l) m e =
    Linked-cons w r s rs ss inj.0.0 pr ps dr ds (
      Linked-unique w (suc n) (some r.event_hash) (some s.event_hash) rs ss
        (NoCollision-tail w s rs ss inj.1) k l (omega arith) e)

-- If the hash does not collide on a state of one and a state of the other, two files that read without error, and whose last states carry the
-- same `event_hash`, hold the same states from the first to the last.
pub read_events_unique :
    (w : World) (run_id : String) (file file' : Option (List Line)) (rs rs' : List Row) (r r' : Row)
    → NoCollision w rs rs'
    → read_events w run_id file ≡ ok rs
    → read_events w run_id file' ≡ ok rs'
    → last? rs ≡ some r
    → last? rs' ≡ some r'
    → r.event_hash ≡ r'.event_hash
    → rs ≡ rs'
read_events_unique w run_id file file' rs rs' r r' inj e e' l l' h =
    let k = (read_events→Reads w run_id file rs e).linked in
    let k' = (read_events→Reads w run_id file' rs' e').linked in
    let (n, d, x) = Linked-last w 1 none rs r k l in
    let (n', d', x') = Linked-last w 1 none rs' r' k' l' in
    let apart =
      All-last (Separates w r) rs' r' (All-last (λ x. All (Separates w x) rs') rs r inj l) l' in
    let same = ap (λ (a : Payload). a.seq) (apart (sym d ∙ h ∙ d')) in
    (Linked-unique w 1 none none rs rs' inj k k' (omega (arith, same)) (x ∙ ap some h ∙ sym x')).0
