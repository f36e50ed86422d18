-- ===== src/Run/Mutate/Outcome.antt =====
-- What `mutate` can do to the disk: nothing to the file, one line that ends a run out of cycles, or
-- one line that holds what the change made of the last state.
use my_org.Common.{
  ◌+◌, String, ◌≡◌, refl, ◌⊎◌, inl, inr, true, false, Option, none, some, List, [], ◌∷◌, ◌++◌, map,
  arith, leb, last?, length, find_first, Bool-cases, if_ind,
}
use my_org.Result.{
  lock_timeout, request_id_reused, run_is_terminal, unknown_run_status, Result, ok, err, Error,
  max_cycles_reached,
}
use my_org.Audit
use my_org.Audit.{Entry}
use my_org.Run.{is_active, Run, Payload, Row, row}
use my_org.Run.World.{World}
use my_org.Run.Log.{read_events, sealed_row}
use my_org.Run.Log.Append.{read_events→Reads, next_link, append_event-readable}
use my_org.Run.Log.Unique.{Linked-last}
use my_org.Run.Mutate.{
  Disk, Verb, Outcome, write_event, stamped, commit_end, commit_logged, commit_entry, is_unknown,
  commit, after_change, out_of_cycles, raising, stop_end, fresh, same_request, same_mutation,
  answer, on_last, on_events, mutate,
}

-- The line written for a state after the states `rs`.
abbrev pub line_after : World → List Row → Payload → Row
line_after w rs state = sealed_row w state (next_link none rs)

-- One line was added after the states `rs`, and it reads.
pub record Adds (w : World) (id : String) (rs : List Row) (state : Payload) (d : Disk)
    : Type 0 where
  pub added : d.file ≡ some (map row (rs ++ line_after w rs state ∷ []))
  pub reads : read_events w id d.file ≡ ok (rs ++ line_after w rs state ∷ [])

pub data Effect (w : World) (v : Verb) (d : Disk) (rs : List Row) (last : Row) (o : Outcome)
    : Type 0 where
  refuses : (x : Error) → o.0 ≡ err x → o.1.file ≡ d.file → Effect w v d rs last o
  replays :
      (prior : Row)
      → find_first (same_request v.request_id) rs ≡ some prior
      → same_mutation v.request prior ≡ true
      → o ≡ (ok last, d)
      → Effect w v d rs last o
  stops :
      is_active last.run_status ≡ true
      → leb last.max_cycles last.cycle_count ≡ true
      → o.0 ≡ err max_cycles_reached
      → Adds w v.run_id rs (out_of_cycles w v.request last.payload) o.1
      → Effect w v d rs last o
  commits :
      (body : Run)
      → is_active last.run_status ≡ true
      → leb last.max_cycles last.cycle_count ≡ false
      → find_first (same_request v.request_id) rs ≡ none
      → v.change last.payload ≡ ok body
      → is_unknown body.run_status ≡ false
      → o.0 ≡ ok (line_after w rs (stamped w v.request last.payload body))
      → Adds w v.run_id rs (stamped w v.request last.payload body) o.1
      → Effect w v d rs last o

module _ (w : World) (id : String) (rs : List Row) (state : Payload) (d : Disk) where
  pub write_event-Adds :
      read_events w id d.file ≡ ok rs
      → state.seq ≡ 1 + length rs
      → ((write_event w state d).0 ≡ ok (line_after w rs state))
        × Adds w id rs state (write_event w state d).1
  unfolding write_event
  write_event-Adds e s =
      let (write, read) = append_event-readable w id d.file rs state e s in
      (
        rw (write, write_event),
        record { added = rw (write, write_event); reads = rw (write, write_event) read },
      )

pub raising-err : (x : Error) (o : Outcome) {r : Row} → o.0 ≡ ok r → (raising x o).0 ≡ err x
raising-err x (ok line, d) h = refl
raising-err x (err y, d) h = cc

pub raising-disk : (x : Error) (o : Outcome) → (raising x o).1 ≡ o.1
raising-disk x (ok line, d) = refl
raising-disk x (err y, d) = refl

module _ (w : World) (v : Verb) (d : Disk) (rs : List Row) (last : Row)
    (e : read_events w v.run_id d.file ≡ ok rs) (s : last.seq ≡ length rs) where
  stop_end-Effect :
      (r : Result Audit.Log)
      → is_active last.run_status ≡ true
      → leb last.max_cycles last.cycle_count ≡ true
      → Effect w v d rs last (stop_end w (out_of_cycles w v.request last.payload) d r)
  unfolding stop_end out_of_cycles
  stop_end-Effect (err x) a c = refuses x refl refl
  stop_end-Effect (ok log) a c =
      let (r, adds) =
        write_event-Adds w v.run_id rs (out_of_cycles w v.request last.payload)
          (record d { audit_log = log }) e (omega arith) in
      stops a c (raising-err max_cycles_reached _ r) (rw raising-disk adds)

  module _ (body : Run) (a : is_active last.run_status ≡ true)
      (c : leb last.max_cycles last.cycle_count ≡ false)
      (n : find_first (same_request v.request_id) rs ≡ none) (b : v.change last.payload ≡ ok body)
      (k : is_unknown body.run_status ≡ false) where
    commit_end-Effect :
        (d' : Disk) (r : Result Audit.Log)
        → d'.file ≡ d.file
        → Effect w v d rs last (commit_end w (stamped w v.request last.payload body) d' r)
    unfolding commit_end stamped
    commit_end-Effect d' (err x) f = refuses x refl f
    commit_end-Effect d' (ok log) f =
        let (r, adds) =
          write_event-Adds w v.run_id rs (stamped w v.request last.payload body)
            (record d' { audit_log = log }) (rw f e) (omega arith) in
        commits body a c n b k r adds

    commit_logged-Effect :
        (r : Result Audit.Log)
        → Effect w v d rs last (commit_logged w (stamped w v.request last.payload body) d r)
    unfolding commit_logged
    commit_logged-Effect (err x) = refuses x refl refl
    commit_logged-Effect (ok log) = commit_end-Effect (record d { audit_log = log }) _ refl

    commit_entry-Effect :
        (r : Result (Option Entry))
        → Effect w v d rs last (commit_entry w (stamped w v.request last.payload body) d r)
    unfolding commit_entry
    commit_entry-Effect (err x) = refuses x refl refl
    commit_entry-Effect (ok entry) = commit_logged-Effect _

  module _ (a : is_active last.run_status ≡ true) (c : leb last.max_cycles last.cycle_count ≡ false)
      (n : find_first (same_request v.request_id) rs ≡ none) where
    commit-Effect :
        (body : Run)
        → v.change last.payload ≡ ok body
        → Effect w v d rs last (commit w v last.payload body d)
    unfolding commit
    commit-Effect body b = elim (Bool-cases (is_unknown body.run_status)) [
      | inl bad ↦ rw (bad, commit) (refuses unknown_run_status refl refl)
      | inr k ↦ rw (k, commit) (commit_entry-Effect body a c n b k _)
    ]

    after_change-Effect :
        (r : Result Run)
        → v.change last.payload ≡ r
        → Effect w v d rs last (after_change w v last.payload d r)
    unfolding after_change
    after_change-Effect (err x) b = refuses x refl refl
    after_change-Effect (ok body) b = commit-Effect body b

  fresh-Effect :
      find_first (same_request v.request_id) rs ≡ none
      → Effect w v d rs last (fresh w v last.payload d)
  unfolding fresh
  fresh-Effect n = elim (Bool-cases (is_active last.run_status)) [
    | inr ended ↦ rw (ended, fresh) (refuses run_is_terminal refl refl)
    | inl a ↦ elim (Bool-cases (leb last.max_cycles last.cycle_count)) [
      | inl c ↦ rw (a, c, fresh) (stop_end-Effect _ a c)
      | inr c ↦ rw (a, c, fresh) (after_change-Effect a c n _ refl)
    ]
  ]

  answer-Effect :
      (r : Option Row)
      → find_first (same_request v.request_id) rs ≡ r
      → Effect w v d rs last (answer w v d last r)
  unfolding answer
  answer-Effect none n = fresh-Effect n
  answer-Effect (some prior) n = elim (Bool-cases (same_mutation v.request prior)) [
    | inl same ↦ rw same (replays prior n same refl)
    | inr other ↦ rw other (refuses request_id_reused refl refl)
  ]

-- On a file that reads as `rs` with last state `last`: whatever the verb, the locks and the audit
-- log do, `mutate` raises and leaves the run's file as it was, or answers a repeated request with the last
-- state and leaves the disk as it was, or adds the line that ends the run at its cycle
-- limit and raises, or, for an active run below its limit and a new request id, adds the line of
-- the change's result and returns it. In the last two cases the new file reads.
pub mutate-Effect :
    (w : World) (v : Verb) (d : Disk) (rs : List Row) (last : Row)
    → read_events w v.run_id d.file ≡ ok rs
    → last? rs ≡ some last
    → Effect w v d rs last (mutate w v d)
unfolding mutate
mutate-Effect w v d rs last e l =
    let s : last.seq ≡ length rs = omega (
      arith,
      (Linked-last w 1 none rs last (read_events→Reads w v.run_id d.file rs e).linked l).0,
    ) in
    if_ind (Effect w v d rs last) w.lock_acquired _ _
      (λ held.
        rw (e, on_events, l, on_last)
          (answer-Effect w v d rs last e s (find_first (same_request v.request_id) rs) refl))
      (λ timeout. refuses lock_timeout refl refl)

-- The states that `read_events` returns after a mutation: those before it, and at most one more.
pub record Extends (w : World) (id : String) (rs : List Row) (d : Disk) : Type 0 where
  pub states : List Row
  pub reads : read_events w id d.file ≡ ok states
  pub grown : (states ≡ rs) ⊎ ((r : Row) × (states ≡ rs ++ r ∷ []))

Effect-Extends :
    {w : World} {v : Verb} {d : Disk} {rs : List Row} {last : Row} {o : Outcome}
    → read_events w v.run_id d.file ≡ ok rs
    → Effect w v d rs last o
    → Extends w v.run_id rs o.1
Effect-Extends e (replays prior f m x) = record { states = _; reads = rw x e; grown = inl refl }
Effect-Extends e (refuses y x f) = record { states = _; reads = rw f e; grown = inl refl }
Effect-Extends e (stops a c x adds) = record {
  states = _;
  reads = adds.reads;
  grown = inr (_, refl);
}
Effect-Extends e (commits body a c n b k x adds) = record {
  states = _;
  reads = adds.reads;
  grown = inr (_, refl);
}

-- Whatever the verb and whatever fails, a file that reads still reads after `mutate`, and its states
-- are those that it had, with at most one more at the end.
pub mutate-Extends :
    (w : World) (v : Verb) (d : Disk) (rs : List Row) (last : Row)
    → read_events w v.run_id d.file ≡ ok rs
    → last? rs ≡ some last
    → Extends w v.run_id rs (mutate w v d).1
mutate-Extends w v d rs last e l = Effect-Extends e (mutate-Effect w v d rs last e l)
