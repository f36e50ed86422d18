-- ===== src/Run/Log/Append.antt =====
-- What `append_event` keeps of a file that `read_events` accepts.
use my_org.Common.{
  ℕ, suc, ◌+◌, String, ◌≡◌, refl, ap, ◌∙◌, Bool, true, false, Option, none, some, List, [], ◌∷◌,
  ◌++◌, map, arith, eq_iff, last?, length, is_slug,
}
use my_org.Result.{Result, ok, ◌>>◌, require, >>=-eq-ok, invalid_run_id}
use my_org.Audit.Chain.{same_hash→eq, same_hash_refl}
use my_org.Run.{Payload, Row, Line, unreadable, row}
use my_org.Run.World.{World}
use my_org.Run.Log.{read_from, non_empty, read_events, last_hash, sealed_row, append_event}

-- What `read_from` has checked of the states it returns.
abbrev pub Linked : World → ℕ → Option String → List Row → Type 0
Linked w n previous [] = Unit
Linked w n previous (r ∷ rs) =
    (r.seq ≡ n)
    × (r.prev_event_hash ≡ previous)
    × (r.event_hash ≡ w.revision r.payload)
    × Linked w (suc n) (some r.event_hash) rs

pub read_from→Linked :
    (w : World) (n : ℕ) (previous : Option String) (ls : List Line) (rs : List Row)
    → read_from w n previous ls ≡ ok rs
    → (ls ≡ map row rs) × Linked w n previous rs
unfolding read_from
read_from→Linked w n previous [] [] e = (refl, tt)
read_from→Linked w n previous [] (x ∷ rs) e = cc
read_from→Linked w n previous (unreadable ∷ ls) rs e = cc
read_from→Linked w n previous (row r ∷ ls) [] e = ground arith
read_from→Linked w n previous (row r ∷ ls) (x ∷ rs) e = ground (
  arith,
  same_hash→eq r.prev_event_hash previous,
  eq_iff r.event_hash (w.revision r.payload),
  read_from→Linked w (suc n) (some r.event_hash) ls rs,
)

pub Linked→read_from :
    (w : World) (n : ℕ) (previous : Option String) (rs : List Row)
    → Linked w n previous rs
    → read_from w n previous (map row rs) ≡ ok rs
unfolding read_from
Linked→read_from w n previous [] k = refl
Linked→read_from w n previous (r ∷ rs) (s, p, d, k) = ground (
  arith,
  same_hash_refl previous,
  eq_iff r.event_hash (w.revision r.payload),
  Linked→read_from w (suc n) (some r.event_hash) rs k,
)

-- What the next line must carry, after lines that start from `previous`.
abbrev pub next_link : Option String → List Row → Option String
next_link previous [] = previous
next_link previous (r ∷ rs) = next_link (some r.event_hash) rs

Linked-snoc :
    (w : World) (n : ℕ) (previous : Option String) (rs : List Row) (r : Row)
    → Linked w n previous rs
    → r.seq ≡ n + length rs
    → r.prev_event_hash ≡ next_link previous rs
    → r.event_hash ≡ w.revision r.payload
    → Linked w n previous (rs ++ r ∷ [])
Linked-snoc w n previous [] r k s p d = (omega arith, p, d, tt)
Linked-snoc w n previous (x ∷ rs) r (s', p', d', k) s p d =
    (s', p', d', Linked-snoc w (suc n) (some x.event_hash) rs r k (omega arith) p d)

last_hash-map :
    (previous : Option String) (x : Row) (rs : List Row)
    → last_hash (last? (map row (x ∷ rs))) ≡ ok (next_link previous (x ∷ rs))
last_hash-map previous x [] = refl
last_hash-map previous x (y ∷ rs) = last_hash-map (some x.event_hash) y rs

last_hash-rows : (rs : List Row) → last_hash (last? (map row rs)) ≡ ok (next_link none rs)
last_hash-rows [] = refl
last_hash-rows (x ∷ rs) = last_hash-map none x rs

map-snoc : (rs : List Row) (r : Row) → map row (rs ++ r ∷ []) ≡ map row rs ++ row r ∷ []
map-snoc [] r = refl
map-snoc (x ∷ rs) r = rw (map-snoc rs r)

-- A successful read, taken apart: the slug, the file, and the linked states.
pub record Reads (w : World) (run_id : String) (file : Option (List Line)) (rs : List Row)
    : Type 0 where
  pub slug : is_slug run_id ≡ true
  pub lines : file ≡ some (map row rs)
  pub linked : Linked w 1 none rs
  pub some_row : non_empty rs ≡ ok rs

non_empty-eq-ok :
    (rows rs : List Row) → non_empty rows ≡ ok rs → (rows ≡ rs) × (non_empty rs ≡ ok rs)
non_empty-eq-ok [] rs e = cc
non_empty-eq-ok (x ∷ rows) [] e = cc
non_empty-eq-ok (x ∷ rows) (y ∷ rs) e = (ground arith, refl)

require->> :
    (b : Bool) {B : Type 0} (k : Result B) {v : B}
    → (require b invalid_run_id >> k) ≡ ok v
    → (b ≡ true) × (k ≡ ok v)
require->> true k e = (refl, e)
require->> false k e = cc

pub read_events→Reads :
    (w : World) (run_id : String) (file : Option (List Line)) (rs : List Row)
    → read_events w run_id file ≡ ok rs
    → Reads w run_id file rs
unfolding read_events
read_events→Reads w run_id none rs e = ground arith
read_events→Reads w run_id (some ls) rs e =
    let (slug, e') = require->> (is_slug run_id) _ e in
    let (rows, read, last) = >>=-eq-ok (read_from w 1 none ls) non_empty e' in
    let (same, some_row) = non_empty-eq-ok rows rs last in
    let (lines, linked) = read_from→Linked w 1 none ls rs (read ∙ ap ok same) in
    record { slug = slug; lines = ap some lines; linked = linked; some_row = some_row }

pub Reads→read_events :
    (w : World) (run_id : String) (file : Option (List Line)) (rs : List Row)
    → Reads w run_id file rs
    → read_events w run_id file ≡ ok rs
unfolding read_events
Reads→read_events w run_id file rs k =
    rw (k.slug, k.lines, Linked→read_from w 1 none rs k.linked) k.some_row

non_empty-snoc : (rs : List Row) (r : Row) → non_empty (rs ++ r ∷ []) ≡ ok (rs ++ r ∷ [])
non_empty-snoc [] r = refl
non_empty-snoc (x ∷ rs) r = refl

module _ (w : World) (run_id : String) (file : Option (List Line)) (rs : List Row)
    (state : Payload) where
  -- The line that `append_event` writes to a file with these states.
  abbrev pub next_row : Row
  next_row = sealed_row w state (next_link none rs)

  next_row-Reads :
      Reads w run_id file rs
      → state.seq ≡ 1 + length rs
      → Reads w run_id (some (map row (rs ++ next_row ∷ []))) (rs ++ next_row ∷ [])
  unfolding sealed_row
  next_row-Reads k s = record {
    slug = k.slug;
    lines = refl;
    linked = Linked-snoc w 1 none rs next_row k.linked s refl refl;
    some_row = non_empty-snoc rs next_row;
  }

  next_row-append :
      Reads w run_id file rs
      → append_event w state file ≡ ok (next_row, map row (rs ++ next_row ∷ []))
  unfolding append_event
  next_row-append k = rw (k.lines, last_hash-rows rs, map-snoc rs next_row)

  -- If the file reads as the states `rs` and the new state's `seq` is the next number, then the
  -- append succeeds, and the new file reads as `rs` followed by that state: nothing is lost,
  -- reordered or changed.
  pub append_event-readable :
      read_events w run_id file ≡ ok rs
      → state.seq ≡ 1 + length rs
      → (append_event w state file ≡ ok (next_row, map row (rs ++ next_row ∷ [])))
        × (read_events w run_id (some (map row (rs ++ next_row ∷ []))) ≡ ok (rs ++ next_row ∷ []))
  append_event-readable e s =
      let k = read_events→Reads w run_id file rs e in
      (next_row-append k, Reads→read_events w run_id _ _ (next_row-Reads k s))
