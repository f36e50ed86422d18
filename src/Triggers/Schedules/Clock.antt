-- ===== src/Triggers/Schedules/Clock.antt =====
-- When a schedule is next due.
use Prim.Native.Nat.{◌%◌}
use my_org.Common.{
  ℕ, ◌+◌, ◌*◌, ◌≤◌, ◌<◌, String, ◌≡◌, refl, ◌∙◌, sym, inl, inr, Bool, true, false, Option, none,
  some, List, [], ◌∷◌, arith, if◌then◌else◌, if-cases, ltb, ltb→lt, ltb→le, not, codes, ap,
}
use my_org.Result.{
  ok, found, >>=-eq-ok, require->>, found-eq-ok, short_interval, bad_time_of_day, ok-injective,
}
use my_org.Triggers.Schedules.{
  ScheduleKind, interval, daily, other, second, day, stamp, read_time, time_of_day, is_short,
  seconds_of, same_day, next_fire,
}

-- What a due time is, for each kind of schedule.
abbrev pub IsNext : ScheduleKind → ℕ → Option ℕ → Option String → ℕ → Type 0
IsNext interval after interval_seconds daily_at t =
    (n : ℕ) × (interval_seconds ≡ some n) × (60 ≤ n) × (t ≡ after + n * second)
IsNext daily after interval_seconds daily_at t =
    (n : ℕ) × (time_of_day daily_at ≡ some n) × (t % day ≡ n * second) × (t ≤ after + day)
IsNext (other kind) after interval_seconds daily_at t = ⊥

read_time-bound : (cs : List ℕ) (n : ℕ) → read_time cs ≡ some n → n < 86400
read_time-bound [] n e = cc
read_time-bound (a ∷ []) n e = cc
read_time-bound (a ∷ b ∷ []) n e = cc
read_time-bound (a ∷ b ∷ c ∷ []) n e = cc
read_time-bound (a ∷ b ∷ c ∷ d ∷ []) n e = cc
read_time-bound (h ∷ k ∷ c ∷ m ∷ l ∷ []) n e = ground (arith, e)
read_time-bound (a ∷ b ∷ c ∷ d ∷ f ∷ g ∷ rest) n e = cc

time_of_day-bound : (text : Option String) (n : ℕ) → time_of_day text ≡ some n → n < 86400
unfolding time_of_day
time_of_day-bound none n e = cc
time_of_day-bound (some text) n e = read_time-bound (codes text) n e

long_enough : (s : Option ℕ) → is_short s ≡ false → (n : ℕ) × (s ≡ some n) × (60 ≤ n)
long_enough none e = cc
long_enough (some n) e = (n, refl, ground (arith, e))

stamp_mono : (a b : ℕ) → a + second ≤ b → stamp a < stamp b
stamp_mono a b h = omega (arith, h)

same_day-mod : (after n : ℕ) → n < 86400 → same_day after n % day ≡ n * second
same_day-mod after n h = omega (arith, h)

not-true : (b : Bool) → not b ≡ true → b ≡ false
not-true true h = cc
not-true false h = refl

daily-next :
    (after n t : ℕ)
    → n < 86400
    → (if ltb after (same_day after n) then same_day after n else same_day after n + day) ≡ t
    → (t % day ≡ n * second) × (t ≤ after + day) × (after < t) × (stamp after < stamp t)
daily-next after n t h e = elim (if-cases (ltb after (same_day after n)) _ _ e) [
  | inl (later, here) ↦ (
    omega (arith, here, same_day-mod after n h),
    omega (arith, here, h),
    ground (arith, later, here),
    omega (arith, here, h, ltb→lt after (same_day after n) later),
  )
  | inr (passed, here) ↦
      let le = ltb→le after (same_day after n) passed in
      (
        omega (arith, here, same_day-mod after n h),
        omega (arith, here, le),
        omega (arith, here, h),
        omega (arith, here, h),
      )
]

-- The time that `next_fire` returns lies after the moment it was asked at, also once both are cut to
-- the seconds that are stored. For an interval it is that many seconds later, and at least 60;
-- for a daily schedule it is the next time of that hour and minute, at most a day later.
pub next_fire-IsNext :
    (kind : ScheduleKind) (after : ℕ) (interval_seconds : Option ℕ) (daily_at : Option String)
    (t : ℕ)
    → next_fire kind after interval_seconds daily_at ≡ ok t
    → IsNext kind after interval_seconds daily_at t × (after < t) × (stamp after < stamp t)
unfolding next_fire
next_fire-IsNext interval after s d t e =
    let (long, k) = require->> (not (is_short s)) short_interval _ e in
    let (n, q, least) = long_enough s (not-true (is_short s) long) in
    let here : t ≡ after + n * second =
      sym (ok-injective _ t k) ∙ ap (λ (x : Option ℕ). after + seconds_of x * second) q in
    ((n, q, least, here), omega (arith, here, least), omega (arith, here, least))
next_fire-IsNext daily after s d t e =
    let (n, q, k) = >>=-eq-ok (found (time_of_day d) bad_time_of_day) _ e in
    let named = found-eq-ok (time_of_day d) bad_time_of_day q in
    let (at, soon, later, cut) =
      daily-next after n t (time_of_day-bound d n named) (ok-injective _ t k) in
    ((n, named, at, soon), later, cut)
next_fire-IsNext (other kind) after s d t e = cc
