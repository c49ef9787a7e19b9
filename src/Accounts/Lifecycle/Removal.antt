-- ===== src/Accounts/Lifecycle/Removal.antt =====
-- What a removal does to an account and its jobs, and which pause stops it.
use placegame_mcp.Errors.{ok}
use placegame_mcp.Prelude.{
  ℕ, ◌≡◌, refl, subst, arith, true, false, Option, none, some, List, [], ◌∷◌, first, count, update,
  Bool-cases, inl, inr, first-holds, ==_iff,
}
use placegame_mcp.Prelude.Keys.{write_row, first-write_self}
use placegame_mcp.Text.{Text, Actor, codes, strip, is_empty}
use placegame_mcp.Scheduler.Rows.{Job}
use placegame_mcp.Accounts.Rows.{
  GameAccount, Tables, with_id, get_for_update, is_live, stop, disable_jobs, write,
}
use placegame_mcp.Accounts.Lifecycle.{
  is_removed, is_removing, removing_row, removed_row, paused_for, pause, begin_removal,
  finish_removal, disable_drain_remove,
}

-- The account in the tables.
abbrev pub account : ℕ → Tables → Option GameAccount
account n t = first (with_id n) t.accounts

has_own_id : (n : ℕ) (t : Tables) (row : GameAccount) → account n t ≡ some row → row.id ≡ n
has_own_id n t row h = (==_iff row.id n).0 (first-holds (with_id n) t.accounts row h)

-- The rows after the write of a row that was there.
after_write :
    (n : ℕ) (t : Tables) (row after : GameAccount)
    → account n t ≡ some row
    → after.id ≡ n
    → first (with_id n) (write_row (λ a. a.id) after t.accounts) ≡ some after
after_write n t row after h e = first-write_self (λ a. a.id) after row n t.accounts e h

live_jobs : (n : ℕ) (jobs : List Job) → count (is_live n) (update (is_live n) stop jobs) ≡ 0
live_jobs n [] = refl
live_jobs n (j ∷ jobs) = elim (Bool-cases (is_live n j)) [
  | inl h ↦ rw h (ground (arith, live_jobs n jobs))
  | inr h ↦ rw h (rw h (live_jobs n jobs))
]

pub record IsRemoved (n : ℕ) (row : GameAccount) (t : Tables) (u : Tables) : Type 0 where
  pub row_removed : account n u ≡ some (removed_row row)
  pub jobs_stopped : count (is_live n) u.jobs ≡ 0

finish_removes :
    (n : ℕ) (actor : Actor) (t : Tables) (row : GameAccount)
    → account n t ≡ some row
    → ((finish_removal n actor t).1 ≡ ok (count (is_live n) t.jobs))
      × IsRemoved n row t (finish_removal n actor t).0
unfolding finish_removal disable_jobs get_for_update
finish_removes n actor t row h = rw h (
  refl,
  record {
    row_removed = after_write n t row (removed_row row) h (has_own_id n t row h);
    jobs_stopped = live_jobs n t.jobs;
  },
)

begin_marks :
    (n : ℕ) (t : Tables) (row : GameAccount)
    → account n t ≡ some row
    → is_removed row ≡ false
    → begin_removal n t ≡ (write (removing_row row) [] t, ok true)
unfolding begin_removal get_for_update
begin_marks n t row h r = rw h (rw r refl)

-- The removal of an account that is not marked as removed first disables it and marks it as `removing`,
-- with all else as it was. When other transactions have then done what they do, and the account still
-- has a row, it returns the number of the account's jobs that are enabled at that time, and leaves this
-- row disabled and marked as removed, its user name, password, session and expiry erased and all else
-- as the others left it, and none of the jobs enabled.
pub disable_drain_remove-removes :
    (n : ℕ) (actor : Actor) (others : Tables → Tables) (t : Tables) (row later : GameAccount)
    → account n t ≡ some row
    → is_removed row ≡ false
    → account n (others (begin_removal n t).0) ≡ some later
    → (account n (begin_removal n t).0
        ≡ some (record row { enabled = false; paused_reason = some (codes "removing") }))
      × ((disable_drain_remove n actor others t).1
          ≡ ok (count (is_live n) (others (begin_removal n t).0).jobs))
      × (account n (disable_drain_remove n actor others t).0
          ≡ some (record later {
            enabled = false;
            paused_reason = some (codes "removed");
            game_username = none;
            password = none;
            session_token = none;
            session_expires_at = none;
          }))
      × (count (is_live n) (disable_drain_remove n actor others t).0.jobs ≡ 0)
unfolding disable_drain_remove
disable_drain_remove-removes n actor others t row later h r k =
    let found : account n (write (removing_row row) [] t) ≡ some (removing_row row) =
      after_write n t row (removing_row row) h (has_own_id n t row h) in
    let begun = begin_marks n t row h r in
    let done =
      finish_removes n actor (others (write (removing_row row) [] t)) later (rw begun at k) in
    rw begun (found, done.0, done.1.row_removed, done.1.jobs_stopped)

-- What a pause for this reason leaves.
abbrev paused_row : Text → GameAccount → GameAccount
paused_row reason row = record row { paused_reason = some reason }

pause_pauses :
    (n : ℕ) (reason : Text) (actor : Actor) (t : Tables) (row : GameAccount)
    → is_empty (strip reason) ≡ false
    → account n t ≡ some row
    → is_removed row ≡ false
    → is_removing row ≡ false
    → ((pause n reason actor t).1 ≡ ok tt)
      × (account n (pause n reason actor t).0 ≡ some (paused_row (strip reason) row))
unfolding pause get_for_update paused_for
pause_pauses n reason actor t row e h r s =
    rw (e, h)
      (rw (r, s)
        (refl, after_write n t row (paused_row (strip reason) row) h (has_own_id n t row h)))

skips_removed :
    (n : ℕ) (actor : Actor) (others : Tables → Tables) (u : Tables) (row : GameAccount)
    → account n u ≡ some row
    → is_removed row ≡ true
    → disable_drain_remove n actor others u ≡ (u, ok 0)
unfolding disable_drain_remove begin_removal get_for_update
skips_removed n actor others u row h r = rw h (rw r refl)

-- A pause whose reason is `removed`, up to spaces, goes through, and a removal after it reports success
-- with no job disabled and changes nothing: the account is as it was but for the reason, enabled or not,
-- with its user name, password and session.
pub pause-blocks_removal :
    (n : ℕ) (reason : Text) (actor remover : Actor) (others : Tables → Tables) (t : Tables)
    (row : GameAccount)
    → strip reason ≡ codes "removed"
    → account n t ≡ some row
    → is_removed row ≡ false
    → is_removing row ≡ false
    → ((pause n reason actor t).1 ≡ ok tt)
      × (disable_drain_remove n remover others (pause n reason actor t).0
          ≡ ((pause n reason actor t).0, ok 0))
      × (account n (pause n reason actor t).0
          ≡ some (record row { paused_reason = some (codes "removed") }))
pause-blocks_removal n reason actor remover others t row e h r s =
    let paused = pause_pauses n reason actor t row (rw e refl) h r s in
    let found : account n (pause n reason actor t).0 ≡ some (paused_row (codes "removed") row) =
      subst (λ x. account n (pause n reason actor t).0 ≡ some (paused_row x row)) e paused.1 in
    (
      paused.0,
      skips_removed n remover others (pause n reason actor t).0 (paused_row (codes "removed") row)
          found refl,
      found,
    )
