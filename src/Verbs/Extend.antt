-- ===== src/Verbs/Extend.antt =====
-- What `extend_budget` of runtime/run_outcomes.py does to the disk.
use my_org.Common.{
  ℕ, ◌+◌, ◌≤◌, ◌<◌, ◌≡◌, refl, true, not, ◌&&◌, none, some, List, arith, ◌==◌, leb, last?, length,
  some_of, if_ind, leb→lt,
}
use Prim.Native.Nat.{min}
use my_org.Result.{Result, ok, err, Error}
use my_org.Audit
use my_org.Run.{Run, Payload, Row, RunStatus, active}
use my_org.Run as Run
use my_org.Run.World.{World}
use my_org.Run.Log.{read_events}
use my_org.Run.Log.Append.{read_events→Reads}
use my_org.Run.Log.Unique.{Linked-last}
use my_org.Run.Mutate.{Disk, Outcome, same_request}
use my_org.Run.Mutate.Outcome.{line_after, Adds, write_event-Adds}
use my_org.Verbs.{Args}
use my_org.Verbs.Budget.{
  extended, is_out_of_cycles, extend_end, extend_last, extend_read, extend_budget,
}

-- The state that an extension writes: active, with a higher limit that is at most 100, and otherwise what
-- the run was.
pub record Extended (last : Row) (extra : ℕ) (next : Payload) : Type 0 where
  pub revived : next.run_status ≡ active
  pub higher : last.max_cycles < next.max_cycles
  pub at_most : next.max_cycles ≤ 100
  pub as_asked : next.max_cycles ≤ last.max_cycles + extra
  pub otherwise : next.body ≡ record last.body { run_status = active; max_cycles = next.max_cycles }

-- An error and the run's file as it was; or, for a repeated request, the last state and the disk as it was;
-- or one line that makes a run that was out of cycles active again.
pub data Extension (w : World) (a : Args) (extra : ℕ) (d : Disk) (rs : List Row) (last : Row)
    (o : Outcome) : Type 0 where
  refuses : (x : Error) → o.0 ≡ err x → o.1.file ≡ d.file → Extension w a extra d rs last o
  replays :
      some_of (same_request a.request_id) rs ≡ true
      → o ≡ (ok last, d)
      → Extension w a extra d rs last o
  extends :
      (next : Payload)
      → last.run_status ≡ Run.blocked_cycle_limit
      → Extended last extra next
      → o.0 ≡ ok (line_after w rs next)
      → Adds w a.run_id rs next o.1
      → Extension w a extra d rs last o

is_out_of_cycles→eq : (s : RunStatus) → is_out_of_cycles s ≡ true → s ≡ Run.blocked_cycle_limit
is_out_of_cycles→eq s h = ground arith

module _ (w : World) (a : Args) (extra : ℕ) (d : Disk) (rs : List Row) (last : Row)
    (e : read_events w a.run_id d.file ≡ ok rs) (s : last.seq ≡ length rs) where
  extend_end-Extension :
      (ceiling : ℕ) (r : Result Audit.Log)
      → last.run_status ≡ Run.blocked_cycle_limit
      → last.max_cycles < ceiling
      → ceiling ≤ 100
      → ceiling ≤ last.max_cycles + extra
      → Extension w a extra d rs last (extend_end w (extended w a last.payload ceiling) d r)
  unfolding extend_end extended
  extend_end-Extension c (err x) b l h k = refuses _ refl refl
  extend_end-Extension c (ok log) b l h k =
      let (r, adds) =
        write_event-Adds w a.run_id rs (extended w a last.payload c) (record d { audit_log = log })
          e (omega arith) in
      let written : Extended last extra (extended w a last.payload c) = record {
        revived = refl;
        higher = l;
        at_most = h;
        as_asked = k;
        otherwise = refl;
      } in
      extends _ b written r adds

  extend_last-Extension : Extension w a extra d rs last (extend_last w a extra d last)
  unfolding extend_last
  extend_last-Extension =
      if_ind (Extension w a extra d rs last) (not (is_out_of_cycles last.run_status)) _ _
        (λ other. refuses _ refl refl)
        (λ out.
          if_ind (Extension w a extra d rs last)
            (leb (min 100 (last.max_cycles + extra)) last.max_cycles) _ _
            (λ top. refuses _ refl refl)
            (λ room.
              extend_end-Extension (min 100 (last.max_cycles + extra)) _
                (is_out_of_cycles→eq last.run_status (ground arith)) (leb→lt _ _ room) (omega arith)
                (omega arith)))

  extend_read-Extension :
      last? rs ≡ some last → Extension w a extra d rs last (extend_read w a extra d (ok rs))
  unfolding extend_read
  extend_read-Extension l =
      rw (l, extend_read)
        (if_ind (Extension w a extra d rs last) (some_of (same_request a.request_id) rs) _ _
          (λ again. replays again refl) (λ new. extend_last-Extension))

-- On a file that reads as `rs` with last state `last`, `extend_budget` raises and leaves the file as it was, or
-- answers a repeated request and leaves the disk as it was, or takes a run from
-- `blocked_cycle_limit` back to `active`: the state written and returned has a cycle limit above the
-- old one, at most 100 and at most `extra` more, and is otherwise what the run was.
pub extend_budget-Extension :
    (w : World) (a : Args) (extra : ℕ) (d : Disk) (rs : List Row) (last : Row)
    → read_events w a.run_id d.file ≡ ok rs
    → last? rs ≡ some last
    → Extension w a extra d rs last (extend_budget w a extra d)
unfolding extend_budget
extend_budget-Extension w a extra d rs last e l =
    let s : last.seq ≡ length rs = omega (
      arith,
      (Linked-last w 1 none rs last (read_events→Reads w a.run_id d.file rs e).linked l).0,
    ) in
    if_ind (Extension w a extra d rs last) (w.strip a.actor == "") _ _ (λ _. refuses _ refl refl)
      (λ _.
        if_ind (Extension w a extra d rs last) (not (leb 1 extra && leb extra 100)) _ _
          (λ _. refuses _ refl refl)
          (λ _.
            if_ind (Extension w a extra d rs last) (not w.lock_acquired) _ _
              (λ _. refuses _ refl refl)
              (λ _. rw e (extend_read-Extension w a extra d rs last e s l))))
