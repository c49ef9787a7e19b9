-- ===== src/Scheduler/Loop.antt =====
-- `run`, `_wait_for_next_tick` and `close` of IdlePreviewScheduler (scheduler.py). What happens in a
-- round of the loop, one tick and the wait after it, is an argument. A cancelled loop is not modelled.
use placegame_mcp.Prelude.{
  ℕ, suc, ◌+◌, ◌≡◌, refl, ap, ◌∙◌, arith, Bool, true, false, ◌||◌, List, [], ◌∷◌, ◌++◌, length, All,
  Bool-cases, inl, inr, if◌then◌else◌,
}
use placegame_mcp.Scheduler.Rows.{Tables}
use placegame_mcp.Scheduler.Tick.{IdlePreviewScheduler, World, tick}

-- Whether `close` has been called, and whether the event `stop` is set.
pub record Signals : Type 0 where
  pub closed : Bool
  pub stop : Bool

-- The signals are those at the end of the tick and of the wait, which either of them cuts short;
-- `others` is what other workers do to the tables in the wait.
pub record Round : Type 0 where
  pub world : World
  pub now : ℕ
  pub after_tick : Signals
  pub after_wait : Signals
  pub others : Tables → Tables

-- The tables, the number of ticks, and whether the loop has ended or goes on after these rounds.
pub record Progress : Type 0 where
  pub tables : Tables
  pub ticks : ℕ
  pub ended : Bool

abbrev pub is_set : Signals → Bool
is_set s = s.closed || s.stop

unfoldable pub close : IdlePreviewScheduler → IdlePreviewScheduler
close scheduler = record scheduler { closed = true }

unfoldable pub signalled : IdlePreviewScheduler → Signals → IdlePreviewScheduler
signalled scheduler s = if s.closed then close scheduler else scheduler

-- `run`, after `ticks` ticks; `stop` is whether the event is set. An error of a tick is logged only.
unfoldable pub run : IdlePreviewScheduler → Bool → List Round → ℕ → Tables → Progress
run scheduler stop [] ticks s = record {
  tables = s;
  ticks = ticks;
  ended = scheduler.closed || stop;
}
run scheduler stop (r ∷ rs) ticks s =
    let s' = (tick scheduler r.world r.now s).0 in
    let rest =
      run (signalled scheduler r.after_wait) r.after_wait.stop rs (ticks + 1) (r.others s') in
    if scheduler.closed || stop
    then record { tables = s; ticks = ticks; ended = true }
    else if is_set r.after_tick
    then record { tables = s'; ticks = ticks + 1; ended = true }
    else rest

abbrev pub IsQuiet : Round → Type 0
IsQuiet r = (is_set r.after_tick ≡ false) × (is_set r.after_wait ≡ false)

or_false : (a b : Bool) → a || b ≡ false → (a ≡ false) × (b ≡ false)
or_false a b h = (ground arith, ground arith)

-- A quiet round is a tick and a wait, and the loop goes on.
run_quiet :
    (scheduler : IdlePreviewScheduler) (r : Round) (rs : List Round) (ticks : ℕ) (s : Tables)
    → scheduler.closed ≡ false
    → IsQuiet r
    → run scheduler false (r ∷ rs) ticks s
      ≡ run scheduler false rs (ticks + 1) (r.others (tick scheduler r.world r.now s).0)
unfolding run signalled
run_quiet scheduler r rs ticks s c (a, b) =
    let (x, y) = or_false r.after_wait.closed r.after_wait.stop b in simp (c, a, x, y)

run_signalled :
    (scheduler : IdlePreviewScheduler) (stop : Bool) (rs : List Round) (ticks : ℕ) (s : Tables)
    → scheduler.closed || stop ≡ true
    → run scheduler stop rs ticks s ≡ record { tables = s; ticks = ticks; ended = true }
unfolding run
run_signalled scheduler stop [] ticks s h = rw h refl
run_signalled scheduler stop (r ∷ rs) ticks s h = rw h refl

signalled_ends :
    (scheduler : IdlePreviewScheduler) (w : Signals)
    → is_set w ≡ true
    → (signalled scheduler w).closed || w.stop ≡ true
unfolding signalled close
signalled_ends scheduler w h = elim (Bool-cases w.closed) [
  | inl e ↦ simp e
  | inr e ↦ let stopped : w.stop ≡ true = ground arith in rw stopped (ground arith)
]

-- The tables after a round that is the last one.
abbrev pub left_by : IdlePreviewScheduler → Round → Tables → Tables
left_by scheduler r s =
    let s' = (tick scheduler r.world r.now s).0 in if is_set r.after_tick then s' else r.others s'

-- A round that is not quiet is the last one.
run_last :
    (scheduler : IdlePreviewScheduler) (r : Round) (rs : List Round) (ticks : ℕ) (s : Tables)
    → scheduler.closed ≡ false
    → is_set r.after_tick || is_set r.after_wait ≡ true
    → run scheduler false (r ∷ rs) ticks s
      ≡ record { tables = left_by scheduler r s; ticks = ticks + 1; ended = true }
unfolding run
run_last scheduler r rs ticks s c h = elim (Bool-cases (is_set r.after_tick)) [
  | inl e ↦ simp (c, e)
  | inr e ↦
      let waited : is_set r.after_wait ≡ true = ground arith in
      simp (c, e)
        (run_signalled (signalled scheduler r.after_wait) r.after_wait.stop rs (ticks + 1)
          (r.others (tick scheduler r.world r.now s).0)
          (signalled_ends scheduler r.after_wait waited))
]

-- The tables after rounds in which nobody closes or stops the loop.
abbrev pub served : IdlePreviewScheduler → List Round → Tables → Tables
served scheduler [] s = s
served scheduler (r ∷ rs) s = served scheduler rs (r.others (tick scheduler r.world r.now s).0)

run_open :
    (scheduler : IdlePreviewScheduler) (ticks : ℕ) (s : Tables)
    → scheduler.closed ≡ false
    → (run scheduler false [] ticks s).ended ≡ false
unfolding run
run_open scheduler ticks s c = simp c

-- The loop goes on, whatever its ticks raise, until the round in which it is closed or stopped, and
-- ends with that one: it has made a tick in each round up to then, and none in a later one.
pub run_ends :
    (scheduler : IdlePreviewScheduler) (xs : List Round) (r : Round) (ys : List Round) (ticks : ℕ)
    (s : Tables)
    → scheduler.closed ≡ false
    → All IsQuiet xs
    → is_set r.after_tick || is_set r.after_wait ≡ true
    → ((run scheduler false xs ticks s).ended ≡ false)
      × (run scheduler false (xs ++ r ∷ ys) ticks s ≡ record {
        tables = left_by scheduler r (served scheduler xs s);
        ticks = ticks + (length xs + 1);
        ended = true;
      })
run_ends scheduler [] r ys ticks s c q h =
    (run_open scheduler ticks s c, run_last scheduler r ys ticks s c h)
run_ends scheduler (x ∷ xs) r ys ticks s c (a, q) h =
    let s' : Tables = x.others (tick scheduler x.world x.now s).0 in
    let (e, f) = run_ends scheduler xs r ys (ticks + 1) s' c q h in
    let last : ℕ → Progress = λ n. record {
      tables = left_by scheduler r (served scheduler xs s');
      ticks = n;
      ended = true;
    } in
    let total : ticks + 1 + (length xs + 1) ≡ ticks + (suc (length xs) + 1) = omega arith in
    rw (run_quiet scheduler x xs ticks s c a, run_quiet scheduler x (xs ++ r ∷ ys) ticks s c a)
      (e, f ∙ ap last total)
