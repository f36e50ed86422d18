-- ===== src/Run/Mutate/Keeps.antt =====
-- Invariants of the states of a run: what every verb keeps, every state of the file has.
use my_org.Common.{ℕ, ◌≡◌, true, some, List, last?, All, All-append, All-last}
use my_org.Result.{ok}
use my_org.Run.{blocked_cycle_limit, is_active, Run, Payload, Row}
use my_org.Run.World.{World}
use my_org.Run.Log.{read_events, sealed_row}
use my_org.Run.Mutate.{Disk, Verb, Outcome, stamped, out_of_cycles, mutate}
use my_org.Run.Mutate.Outcome.{Effect, refuses, replays, stops, commits, mutate-Effect}

-- A property that a verb keeps, also where the run ends at its limit and where the cycle is counted.
pub record Keeps (P : Run → Type 0) (v : Verb) : Type 0 where
  pub counted : (r : Run) (n : ℕ) → P r → P (record r { cycle_count = n })
  pub out_of_cycles : (r : Run) → P r → P (record r { run_status = blocked_cycle_limit })
  pub changed :
      (s : Payload) (r : Run) → is_active s.run_status ≡ true → v.change s ≡ ok r → P s.body → P r

abbrev pub AllRuns : (Run → Type 0) → List Row → Type 0
AllRuns P = All (λ r. P r.body)

Effect-Keeps :
    {w : World} {v : Verb} {d : Disk} {rs : List Row} {last : Row} {o : Outcome} (P : Run → Type 0)
    → Keeps P v
    → read_events w v.run_id d.file ≡ ok rs
    → AllRuns P rs
    → P last.body
    → Effect w v d rs last o
    → (rs' : List Row) × (read_events w v.run_id o.1.file ≡ ok rs') × AllRuns P rs'
unfolding sealed_row stamped out_of_cycles
Effect-Keeps P k e h p (refuses y x f) = (_, rw f e, h)
Effect-Keeps P k e h p (replays prior f m x) = (_, rw x e, h)
Effect-Keeps {rs = rs} {last = last} P k e h p (stops a c x adds) =
    (_, adds.reads, All-append (λ r. P r.body) rs _ h (k.out_of_cycles last.body p, tt))
Effect-Keeps {rs = rs} {last = last} P k e h p (commits body a c n b u x adds) = (
  _,
  adds.reads,
  All-append (λ r. P r.body) rs _ h (k.counted body _ (k.changed last.payload body a b p), tt),
)

-- A property that holds of every state of a file that reads, and that the verb keeps, holds of every
-- state of the file after `mutate`, whatever the outcome.
pub mutate-Keeps :
    (P : Run → Type 0) (w : World) (v : Verb) (d : Disk) (rs : List Row) (last : Row)
    → Keeps P v
    → read_events w v.run_id d.file ≡ ok rs
    → last? rs ≡ some last
    → AllRuns P rs
    → (rs' : List Row) × (read_events w v.run_id (mutate w v d).1.file ≡ ok rs') × AllRuns P rs'
mutate-Keeps P w v d rs last k e l h =
    Effect-Keeps P k e h (All-last (λ r. P r.body) rs last h l) (mutate-Effect w v d rs last e l)
