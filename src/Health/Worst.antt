-- ===== src/Health/Worst.antt =====
-- The order in which runs are shown, and which.
use mathlib.Core.List.{Memᴰ}
use mathlib.Core.Path.{subst}
use my_org.Common.{
  ℕ, ◌≤◌, String, ◌≡◌, refl, sym, ap, ◌∙◌, true, false, some, List, [], ◌∷◌, map, arith, Ascending,
  All, All-imp, All-of, select, is_slug, select-Mem, Mem-select, Mem-order_by, map-Mem, Mem-map,
  order_by-Ascending, order_by-Mem,
}
use my_org.Result.{Result, ok, err, Error}
use my_org.Run.{Row, Line}
use my_org.Run.World.{World}
use my_org.Health.{
  Condition, running, waiting, stalled, finished, failed, broken, RunHealth, health, health_of,
  current_state, rank, is_worse, Files, run_files, is_run_file, file_before, all_health,
  readable_run, unreadable_run,
}

-- No better a condition than another: failed, stalled, waiting, running, finished.
pub data NoBetter : Condition → Condition → Type 0 where
  alike : {c : Condition} → NoBetter c c
  failed_first : {c : Condition} → NoBetter failed c
  finished_last : {c : Condition} → NoBetter c finished
  stalled_waiting : NoBetter stalled waiting
  stalled_running : NoBetter stalled running
  waiting_running : NoBetter waiting running

abbrev pub WorstFirst : List RunHealth → Type 0
WorstFirst [] = Unit
WorstFirst (h ∷ hs) = All (λ (g : RunHealth). NoBetter h.state g.state) hs × WorstFirst hs

rank-NoBetter : (c d : Condition) → rank c ≤ rank d → NoBetter c d
rank-NoBetter failed d h = failed_first
rank-NoBetter c finished h = finished_last
rank-NoBetter stalled stalled h = alike
rank-NoBetter stalled waiting h = stalled_waiting
rank-NoBetter stalled running h = stalled_running
rank-NoBetter waiting waiting h = alike
rank-NoBetter waiting running h = waiting_running
rank-NoBetter running running h = alike
rank-NoBetter _ _ h = absurd (omega (arith, h))

Ascending-WorstFirst :
    (hs : List RunHealth) → Ascending (λ (h : RunHealth). rank h.state) hs → WorstFirst hs
Ascending-WorstFirst [] a = tt
Ascending-WorstFirst (h ∷ hs) a = (
  All-imp (λ (g : RunHealth). rank h.state ≤ rank g.state) _ hs
      (λ g le. rank-NoBetter h.state g.state le) a.0,
  Ascending-WorstFirst hs a.1,
)

worse→rank : (a b : RunHealth) → is_worse a b ≡ true → rank a.state ≤ rank b.state
worse→rank a b h = ground (arith, h)

better→rank : (a b : RunHealth) → is_worse a b ≡ false → rank b.state ≤ rank a.state
better→rank a b h = ground (arith, h)

-- What is shown of one run: that it failed where it does not read, else the status it has.
pub data Shows (w : World) (id : String) (lines : List Line) (h : RunHealth) : Type 0 where
  unread :
      (x : Error)
      → current_state w id (some lines) ≡ err x
      → h.state ≡ failed
      → h.detail ≡ broken x
      → Shows w id lines h
  read :
      (state : Row)
      → current_state w id (some lines) ≡ ok state
      → h.runtime_status ≡ some state.run_status
      → h.goal ≡ state.goal
      → Shows w id lines h

-- A line that stands for a file of the directory named like a run.
pub record Listed (w : World) (files : Files) (h : RunHealth) : Type 0 where
  pub lines : List Line
  pub there : Memᴰ (h.run_id, lines) files
  pub named : is_slug h.run_id ≡ true
  pub shows : Shows w h.run_id lines h

health-id :
    (w : World) (now : ℕ) (id : String) (lines : List Line)
    → (health w now id (some lines)).run_id ≡ id
unfolding health
health-id w now id lines = of (current_state w id (some lines))
  where
    of : (r : Result Row) → (health_of id now r).run_id ≡ id
    of (err x) = refl
    of (ok state) = refl

health-Shows :
    (w : World) (now : ℕ) (id : String) (lines : List Line)
    → Shows w id lines (health w now id (some lines))
unfolding health health_of unreadable_run readable_run
health-Shows w now id lines = of (current_state w id (some lines)) refl
  where
    of :
        (r : Result Row)
        → current_state w id (some lines) ≡ r
        → Shows w id lines (health_of id now r)
    of (err x) q = unread x q refl refl
    of (ok state) q = read state q refl refl

Shown-Listed :
    (w : World) (now : ℕ) (files : Files) (h : RunHealth)
    → (f : String × List Line) → Memᴰ f files
    → is_slug f.0 ≡ true
    → h ≡ health w now f.0 (some f.1)
    → Listed w files h
Shown-Listed w now files h (id, lines) m s q = subst (Listed w files) (sym q) (
    let i : id ≡ (health w now id (some lines)).run_id = sym (health-id w now id lines) in
    record {
      lines = lines;
      there = subst (λ (x : String). Memᴰ (x, lines) files) i m;
      named = ap is_slug (sym i) ∙ s;
      shows =
          subst (λ (x : String). Shows w x lines (health w now id (some lines))) i
            (health-Shows w now id lines);
    })

-- `all_health` shows the runs in the order failed, stalled, waiting, running, finished. Each line stands for
-- a file of the directory whose name is a run id, and shows it as failed where it cannot be read;
-- and every such file has its line.
pub all_health-WorstFirst :
    (w : World) (now : ℕ) (files : Files) (id : String) (lines : List Line)
    → Memᴰ (id, lines) files
    → is_slug id ≡ true
    → WorstFirst (all_health w now files)
      × All (Listed w files) (all_health w now files)
      × Memᴰ (health w now id (some lines)) (all_health w now files)
unfolding all_health run_files
all_health-WorstFirst w now files id lines m s =
    let each = λ (f : String × List Line). health w now f.0 (some f.1) in
    let runs = run_files files in
    (
      Ascending-WorstFirst (all_health w now files) (
          order_by-Ascending (λ (h : RunHealth). rank h.state) is_worse worse→rank better→rank
            (map each runs)),
      All-of (Listed w files) (all_health w now files) (λ h n.
          let (f, k, q) = Mem-map each h runs (Mem-order_by is_worse h (map each runs) n) in
          let (k', s') =
            Mem-select is_run_file f files
              (Mem-order_by file_before f (select is_run_file files) k) in
          Shown-Listed w now files h f k' s' q),
      order_by-Mem is_worse _ _ (
          map-Mem each (id, lines) runs
            (order_by-Mem file_before _ _ (select-Mem is_run_file (id, lines) files m s))),
    )
