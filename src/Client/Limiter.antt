-- ===== src/Client/Limiter.antt =====
-- AccountRateLimiter (game/client.py), in front of every request of an account. The clock's readings
-- are arguments, in microseconds; the lock makes the entries follow each other.
use placegame_mcp.Prelude.{
  ℕ, ◌+◌, ◌-◌, ◌*◌, ◌≤◌, arith, Option, none, some, List, [], ◌∷◌, ◌++◌, ltb, length, if◌then◌else◌,
}

pub record AccountRateLimiter : Type 0 where
  pub spacing_seconds : ℕ
  pub next_allowed_at : ℕ

abbrev pub limiter : ℕ → AccountRateLimiter
limiter spacing = record { spacing_seconds = spacing; next_allowed_at = 0 }

-- What is given to the sleeper, if it is called.
unfoldable pub delay : AccountRateLimiter → ℕ → Option ℕ
delay l before = if ltb before l.next_allowed_at then some (l.next_allowed_at - before) else none

-- An entry, with the clock's reading before the sleeper is called and the one after.
pub record Entry : Type 0 where
  pub before : ℕ
  pub after : ℕ

unfoldable pub enter : AccountRateLimiter → Entry → AccountRateLimiter
enter l e = record l { next_allowed_at = e.after + l.spacing_seconds }

-- The sleeper lasts for the delay that it is given, and the clock, last read at `now`, goes on.
unfoldable pub slept : Option ℕ → ℕ
slept none = 0
slept (some d) = d

abbrev pub Runs : AccountRateLimiter → ℕ → List Entry → Type 0
Runs l now [] = Unit
Runs l now (e ∷ es) =
    (now ≤ e.before) × (e.before + slept (delay l e.before) ≤ e.after) × Runs (enter l e) e.after es

entry_waits :
    (l : AccountRateLimiter) (e : Entry)
    → e.before + slept (delay l e.before) ≤ e.after
    → l.next_allowed_at ≤ e.after
unfolding delay slept
entry_waits l e h = ground arith

-- The last of the entries, `e` if there is none.
abbrev last : Entry → List Entry → Entry
last e [] = e
last e (f ∷ es) = last f es

spaced_after :
    (l : AccountRateLimiter) (now : ℕ) (e : Entry) (es ys : List Entry)
    → Runs l now (e ∷ (es ++ ys))
    → e.after + length es * l.spacing_seconds ≤ (last e es).after
unfolding enter
spaced_after l now e [] ys r = omega arith
spaced_after l now e (f ∷ es) ys (x, y, (z, w, r)) =
    let waits : e.after + l.spacing_seconds ≤ f.after = entry_waits (enter l e) f w in
    let later : f.after + length es * l.spacing_seconds ≤ (last f es).after =
      spaced_after (enter l e) e.after f es ys (z, w, r) in
    grind arith

-- However often the requests of an account enter, the entry that comes `k` entries after another one
-- is over at least `k` spacings later, if the sleeper lasts for its delay and the clock goes on.
pub entries_spaced :
    (l : AccountRateLimiter) (now : ℕ) (xs : List Entry) (e : Entry) (es ys : List Entry)
    → Runs l now (xs ++ e ∷ (es ++ ys))
    → e.after + length es * l.spacing_seconds ≤ (last e es).after
unfolding enter
entries_spaced l now [] e es ys r = spaced_after l now e es ys r
entries_spaced l now (x ∷ xs) e es ys (g, h, r) = entries_spaced (enter l x) x.after xs e es ys r
