-- ===== src/Scheduler/Rows.antt =====
-- The rows of models.py that scheduler.py reads and writes. Times are microseconds, identifiers
-- are numbers, and a new row takes the next identifier.
use placegame_mcp.Prelude.{
  ℕ, ◌*◌, ◌/◌, ◌≡◌, ◌↔◌, arith, Bool, ◌&&◌, Option, none, List, ◌==◌, String,
}

pub record SchedulerLease : Type 0 where
  pub owner : Option String
  pub lease_expires_at : Option ℕ
  pub updated_at : ℕ

pub record Job : Type 0 where
  pub id : ℕ
  pub account_id : ℕ
  pub kind : String
  pub schedule : ℕ
  pub timezone : String
  pub enabled : Bool
  pub next_run_at : Option ℕ
  pub misfire_policy : String
  pub created_at : ℕ

-- The text `idle_preview:<account>:<slot>`, by the two values that are printed in it.
pub record IdempotencyKey : Type 0 where
  pub account : ℕ
  pub slot : ℕ

pub data RunResult : Type 0 where
  failed : String → RunResult
  succeeded : Bool → Option ℕ → RunResult

pub record JobRun : Type 0 where
  pub id : ℕ
  pub job_id : ℕ
  pub account_id : ℕ
  pub idempotency_key : IdempotencyKey
  pub dispatched_at : ℕ
  pub lease_owner : Option String
  pub lease_expires_at : Option ℕ
  pub attempt : ℕ
  pub result : Option RunResult
  pub completed_at : Option ℕ

pub record Tables : Type 0 where
  pub lease : Option SchedulerLease
  pub jobs : List Job
  pub runs : List JobRun
  pub next_id : ℕ

-- `timedelta(seconds=n)`
abbrev pub seconds : ℕ → ℕ
seconds n = n * 1000000

-- `replace(microsecond=0)` forgets the part below a second.
abbrev pub idle_preview_idempotency_key : ℕ → ℕ → IdempotencyKey
idle_preview_idempotency_key account_id scheduled_for = record {
  account = account_id;
  slot = scheduled_for / 1000000;
}

abbrev pub key_eq : IdempotencyKey → IdempotencyKey → Bool
key_eq a b = a.account == b.account && a.slot == b.slot

pub key_eq_iff : (a b : IdempotencyKey) → (key_eq a b ≡ Bool.true) ↔ (a ≡ b)
key_eq_iff a b = ground arith

abbrev pub empty : Tables
empty = record { lease = none; jobs = List.[]; runs = List.[]; next_id = 0 }
