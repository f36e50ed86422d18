-- ===== src/Run/Mutate/Replay.antt =====
-- Idempotence of `mutate`: the same request again, at a later time.
use my_org.Common.{
  ℕ, suc, String, ◌≡◌, refl, sym, ap, ◌∙◌, Bool, true, Option, none, some, List, [], ◌∷◌, ◌++◌,
  arith, last?, last?-snoc, find_first, eq_refl,
}
use mathlib.Core.Path.{subst}
use my_org.Result.{ok}
use my_org.Run.{Payload, Row, Line}
use my_org.Run.World.{World}
use my_org.Run.Log.{read_events, sealed_row}
use my_org.Run.Log.Append.{Linked, read_events→Reads, Reads→read_events}
use my_org.Run.Mutate.{Disk, Request, Verb, Outcome, stamped, same_request, same_mutation, mutate}
use my_org.Run.Mutate.Outcome.{Effect, refuses, replays, stops, commits, line_after, mutate-Effect}

-- Reading depends on the hash function alone.
Linked-revision :
    (w w' : World) (n : ℕ) (previous : Option String) (rs : List Row)
    → w.revision ≡ w'.revision
    → Linked w n previous rs
    → Linked w' n previous rs
Linked-revision w w' n previous [] same k = tt
Linked-revision w w' n previous (r ∷ rs) same (s, p, d, k) = (
  s,
  p,
  d ∙ ap (λ (f : Payload → String). f r.payload) same,
  Linked-revision w w' (suc n) (some r.event_hash) rs same k,
)

pub read_events-revision :
    (w w' : World) (id : String) (file : Option (List Line)) (rs : List Row)
    → w.revision ≡ w'.revision
    → read_events w id file ≡ ok rs
    → read_events w' id file ≡ ok rs
read_events-revision w w' id file rs same e =
    let k = read_events→Reads w id file rs e in
    Reads→read_events w' id file rs (record {
      slug = k.slug;
      lines = k.lines;
      linked = Linked-revision w w' 1 none rs same k.linked;
      some_row = k.some_row;
    })

answers :
    (w : World) (v : Verb) (d : Disk) (rs : List Row) (last prior : Row)
    → w.lock_acquired ≡ true
    → read_events w v.run_id d.file ≡ ok rs
    → last? rs ≡ some last
    → find_first (same_request v.request_id) rs ≡ some prior
    → same_mutation v.request prior ≡ true
    → mutate w v d ≡ (ok last, d)
unfolding mutate
answers w v d rs last prior held e l f m = simp (held, e, l, f, m)

find_first-snoc :
    (p : Row → Bool) (rs : List Row) (r : Row)
    → find_first p rs ≡ none
    → p r ≡ true
    → find_first p (rs ++ r ∷ []) ≡ some r
find_first-snoc p [] r f h = rw h
find_first-snoc p (x ∷ rs) r f h = ground (arith, find_first-snoc p rs r)

stamped-same :
    (w : World) (q : Request) (s : Payload) (rs : List Row) (body : _)
    → (same_request q.request_id (line_after w rs (stamped w q s body)) ≡ true)
      × (same_mutation q (line_after w rs (stamped w q s body)) ≡ true)
unfolding sealed_row stamped
stamped-same w q s rs body = simp eq_refl (refl, refl)

again :
    (w w' : World) (v : Verb) (d : Disk) (rs : List Row) (last r : Row) (o : Outcome)
    → w.revision ≡ w'.revision
    → w'.lock_acquired ≡ true
    → read_events w v.run_id d.file ≡ ok rs
    → last? rs ≡ some last
    → Effect w v d rs last o
    → o.0 ≡ ok r
    → mutate w' v o.1 ≡ o
again w w' v d rs last r o same held e l (refuses x q f) k = cc
again w w' v d rs last r o same held e l (stops a c q adds) k = cc
again w w' v d rs last r o same held e l (replays prior f m x) k =
    rw x (
      answers w' v d rs last prior held (read_events-revision w w' v.run_id d.file rs same e) l f m)
again w w' v d rs last r o same held e l (commits body a c n b u q adds) k =
    let line = line_after w rs (stamped w v.request last.payload body) in
    let (known, mutation) = stamped-same w v.request last.payload rs body in
    answers w' v o.1 (rs ++ line ∷ []) line line held
      (read_events-revision w w' v.run_id o.1.file (rs ++ line ∷ []) same adds.reads)
      (last?-snoc rs line) (find_first-snoc (same_request v.request_id) rs line n known) mutation
    ∙ (λ i. (sym q i, o.1))

-- A mutation that succeeded on a file that reads, asked for again with the same request id, event, actor and target (in
-- whatever later world, with the lock acquired and the same hash function), returns the same state
-- and changes neither the run's file nor the audit log.
pub mutate_again :
    (w w' : World) (v : Verb) (d d' : Disk) (rs : List Row) (last r : Row)
    → w.revision ≡ w'.revision
    → w'.lock_acquired ≡ true
    → read_events w v.run_id d.file ≡ ok rs
    → last? rs ≡ some last
    → mutate w v d ≡ (ok r, d')
    → mutate w' v d' ≡ (ok r, d')
mutate_again w w' v d d' rs last r same held e l m =
    subst (λ (o : Outcome). mutate w' v o.1 ≡ o) m
      (again w w' v d rs last r (mutate w v d) same held e l (mutate-Effect w v d rs last e l)
        (ap (λ (o : Outcome). o.0) m))
