-- ===== src/Driver/Returns.antt =====
-- What `advance` returns.
use mathlib.Core.Path.{subst}
use mathlib.Core.List.{Memᴰ}
use my_org.Common.{
  ℕ, zero, suc, ◌+◌, ◌<◌, String, ◌≡◌, ◌≢◌, refl, ap, sym, ◌∙◌, ◌⊎◌, inl, inr, Bool, true, false,
  not, ◌||◌, List, [], ◌∷◌, arith, if-cases, Bool-cases, All, All-of, All-zip, Without, eq_iff,
  text_before, order_by-Mem, map-Mem, select-Mem,
}
use my_org.Result.{Result, ok, err, ok-injective}
use my_org.Steps.{
  ready, in_progress, awaiting_check, is_ready, is_in_progress, is_awaiting_check, Step, Steps,
}
use my_org.Run.{Row, active, is_active}
use my_org.Run.Claims.{claim_is_live}
use my_org.Run.Mutate.{Disk}
use my_org.Driver.Sends.{Driver, rereading, state_at}
use my_org.Driver.Work.{Driven}
use my_org.Driver.Loop.{
  Crew, is_elsewhere, can_drive, to_check, names_of, ready_steps, check_steps, no_names,
  then_advance, Advanced, is_idle, drive_pass, on_state, advance_from, advance,
}

-- Nobody has to act on a step for the driver to go on: no check is due, and a step that is ready or in
-- progress is claimed by another holder, whose claim is live.
abbrev pub Untended : Driver → String × Step → Type 0
Untended h e =
    (e.1.status ≢ awaiting_check)
    × (((e.1.status ≢ ready) × (e.1.status ≢ in_progress))
        ⊎ ((claim_is_live (h.at rereading) e.1 ≡ true) × (e.1.holder ≢ h.holder)))

-- Why the driver stopped.
pub data Stopped (c : Crew) (pass : ℕ) (state : Row) : Type 0 where
  suspended : c.halt pass ≡ true → Stopped c pass state
  ended : state.run_status ≢ active → Stopped c pass state
  nothing_left : All (Untended (c.reader pass)) state.steps → Stopped c pass state

-- The end of a drive: in a pass of those allowed, the state on the disk, and why no step was driven.
pub record Returns (c : Crew) (id : String) (until : ℕ) (state : Row) (d : Disk) : Type 0 where
  pub pass : ℕ
  pub allowed : pass < until
  pub on_disk : state_at (c.reader pass) id rereading d ≡ ok state
  pub why : Stopped c pass state

no_names-nil : (c : Crew) (id : String) (ss : List String) → no_names c id ss ≡ true → ss ≡ []
no_names-nil c id [] h = refl
no_names-nil c id (s ∷ ss) h = cc

names_of-none : (p : String × Step → Bool) (steps : Steps) → names_of p steps ≡ [] → Without p steps
names_of-none p steps h =
    All-of (λ e. p e ≡ false) steps
      λ e m. elim (Bool-cases (p e)) [
        | inl k ↦
            let named : Memᴰ e.0 (names_of p steps) =
              order_by-Mem text_before e.0 _
                (map-Mem (λ (x : String × Step). x.0) e _ (select-Mem p e steps m k)) in
            absurd (elim (subst (Memᴰ e.0) h named) [ ])
        | inr k ↦ k
      ]

can_drive-Untended :
    (h : Driver) (e : String × Step) → can_drive h e ≡ false → to_check e ≡ false → Untended h e
can_drive-Untended h e k n = (
  λ q. ground (arith, ap is_awaiting_check q, n),
  elim (Bool-cases (is_elsewhere h e.1)) [
    | inl away ↦
        inr (ground (arith, away), λ q. ground (arith, (eq_iff e.1.holder h.holder).1 q, away))
    | inr here ↦ inl (
      λ q. ground (arith, ap is_ready q, k, here),
      λ q. ground (arith, ap is_in_progress q, k, here),
    )
  ],
)

is_idle-Untended :
    (c : Crew) (id : String) (pass : ℕ) (state : Row)
    → is_idle c id pass state ≡ true
    → All (Untended (c.reader pass)) state.steps
unfolding is_idle ready_steps check_steps
is_idle-Untended c id pass state h =
    let ready =
      names_of-none (can_drive (c.reader pass)) state.steps
        (no_names-nil c id (ready_steps (c.reader pass) state) (ground (arith, h))) in
    let due =
      names_of-none to_check state.steps
        (no_names-nil c id (check_steps state) (ground (arith, h))) in
    All-zip _ _ (Untended (c.reader pass)) state.steps
      (λ e k n. can_drive-Untended (c.reader pass) e k n) ready due

stop-Stopped :
    (c : Crew) (id : String) (pass : ℕ) (state : Row)
    → (not (is_active state.run_status) || is_idle c id pass state) ≡ true
    → Stopped c pass state
stop-Stopped c id pass state h = elim (Bool-cases (is_active state.run_status)) [
  | inl a ↦ nothing_left (is_idle-Untended c id pass state (ground (arith, h, a)))
  | inr n ↦ ended (λ e. ground (arith, ap is_active e, n))
]

module _ (c : Crew) (id : String) (d' : Disk) (state : Row) where
  then_advance-Returns :
      (P : Type 0) (rest : Disk → Advanced c id) (o : Driven)
      → ((d : Disk) → rest d ≡ (ok state, d') → P)
      → then_advance c id rest o ≡ (ok state, d')
      → P
  unfolding then_advance
  then_advance-Returns P rest (err x, d) f e = cc
  then_advance-Returns P rest (ok u, d) f e = f d e

  on_state-Returns :
      (from until : ℕ) (rest : Disk → Advanced c id) (d : Disk) (r : Result Row)
      → from < until
      → state_at (c.reader from) id rereading d ≡ r
      → ((e : Disk) → rest e ≡ (ok state, d') → Returns c id until state d')
      → on_state c id rest from d r ≡ (ok state, d')
      → Returns c id until state d'
  unfolding on_state
  on_state-Returns from until rest d (err x) h q f e = cc
  on_state-Returns from until rest d (ok now) h q f e =
      elim (if-cases (not (is_active now.run_status) || is_idle c id from now) _ _ e) [
        | inl (stop, k) ↦
            let same : now ≡ state = ok-injective now state (ap (λ (o : Advanced c id). o.0) k) in
            let disk : d ≡ d' = ap (λ (o : Advanced c id). o.1) k in
            record {
              pass = from;
              allowed = h;
              on_disk = ap (state_at (c.reader from) id rereading) (sym disk) ∙ q ∙ ap ok same;
              why = subst (Stopped c from) same (stop-Stopped c id from now stop);
            }
        | inr (go, k) ↦
            then_advance-Returns (Returns c id until state d') rest (drive_pass c id from now d) f k
      ]

  advance_from-Returns :
      (left from until : ℕ) (d : Disk)
      → from + left ≡ until
      → advance_from c id left from d ≡ (ok state, d')
      → Returns c id until state d'
  unfolding advance_from
  advance_from-Returns zero from until d h e = cc
  advance_from-Returns (suc left) from until d h e =
      let lt : from < until = omega (arith, h) in
      elim (if-cases (c.halt from) _ _ e) [
        | inl (stop, k) ↦
            let disk : d ≡ d' = ap (λ (o : Advanced c id). o.1) k in
            record {
              pass = from;
              allowed = lt;
              on_disk =
                  ap (state_at (c.reader from) id rereading) (sym disk)
                  ∙ ap (λ (o : Advanced c id). o.0) k;
              why = suspended stop;
            }
        | inr (go, k) ↦
            on_state-Returns from until (advance_from c id left (suc from)) d _ lt refl
              (λ x. advance_from-Returns left (suc from) until x (omega (arith, h))) k
      ]

-- If `advance` returns a state, then that state is what the run's file last says, and the driver stopped in
-- one of the passes allowed, because the organization was suspended, or the run is not active, or of
-- every step: it awaits no check, and it is neither ready nor in progress unless another holder has
-- a live claim on it.
pub advance-Returns :
    (c : Crew) (id : String) (max_iterations : ℕ) (d d' : Disk) (state : Row)
    → advance c id max_iterations d ≡ (ok state, d')
    → Returns c id max_iterations state d'
unfolding advance
advance-Returns c id max_iterations d d' state e =
    advance_from-Returns c id d' state max_iterations 0 max_iterations d (omega arith) e
