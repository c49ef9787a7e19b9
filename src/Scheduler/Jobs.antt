-- ===== src/Scheduler/Jobs.antt =====
-- `ensure_jobs` of PostgresIdlePreviewStore (scheduler.py).
use placegame_mcp.Prelude.{
  ℕ, ◌+◌, Bool, true, false, ◌&&◌, ◌||◌, Option, none, some, List, [], ◌∷◌, ltb, ◌==◌, is_none,
  if◌then◌else◌, keep, any, update, String, str_eq,
}
use placegame_mcp.Scheduler.Rows.{Job, Tables}

pub record SchedulerAccount : Type 0 where
  pub id : ℕ
  pub enabled : Bool
  pub paused_reason : Option String

abbrev pub admits : SchedulerAccount → Bool
admits a = a.enabled && is_none a.paused_reason

-- `account_id in known` and `account_id in eligible`
abbrev pub known : List SchedulerAccount → ℕ → Bool
known accounts account_id = any (λ a. a.id == account_id) accounts

abbrev pub eligible : List SchedulerAccount → ℕ → Bool
eligible accounts account_id = any (λ a. a.id == account_id && admits a) accounts

-- The members of `known`, each once. The order in which a set is iterated is left to Python, and
-- is the order of the listing here.
unfoldable pub known_ids : List SchedulerAccount → List ℕ
known_ids [] = []
known_ids (a ∷ rest) = let ids = known_ids rest in if known rest a.id then ids else a.id ∷ ids

-- `order by account_id, created_at`
abbrev pub ordered : Job → Job → Bool
ordered j k =
    ltb j.account_id k.account_id
    || (j.account_id == k.account_id
        && (ltb j.created_at k.created_at || j.created_at == k.created_at))

unfoldable pub insert_ordered : Job → List Job → List Job
insert_ordered j [] = j ∷ []
insert_ordered j (k ∷ ks) =
    let rest = insert_ordered j ks in if ordered j k then j ∷ k ∷ ks else k ∷ rest

unfoldable pub in_order : List Job → List Job
unfolding insert_ordered
in_order [] = []
in_order (j ∷ js) = insert_ordered j (in_order js)

abbrev pub is_preview_of : (ℕ → Bool) → Job → Bool
is_preview_of accounts j = str_eq j.kind "idle_preview" && accounts j.account_id

-- `current`: the job that each account keeps.
abbrev pub Current : Type 0
Current = List (ℕ × ℕ)

abbrev pub current_get : ℕ → Current → Option ℕ
current_get account_id [] = none
current_get account_id ((a, job_id) ∷ m) =
    if a == account_id then some job_id else current_get account_id m

abbrev pub disable : Job → Job
disable j = record j { enabled = false }

abbrev pub with_id : ℕ → Job → Bool
with_id job_id j = j.id == job_id

-- The first loop: an account's first row is kept, and its further rows are disabled.
unfoldable pub pick_current : List Job → Current → List Job → Current × List Job
pick_current [] current jobs = (current, jobs)
pick_current (row ∷ rows) current jobs =
    let fresh = is_none (current_get row.account_id current) in
    pick_current rows (if fresh then (row.account_id, row.id) ∷ current else current)
      (if fresh then jobs else update (with_id row.id) disable jobs)

abbrev pub new_job : ℕ → ℕ → ℕ → ℕ → Job
new_job account_id interval_seconds now id = record {
  id = id;
  account_id = account_id;
  kind = "idle_preview";
  schedule = interval_seconds;
  timezone = "Asia/Shanghai";
  enabled = true;
  next_run_at = some now;
  misfire_policy = "defer";
  created_at = now;
}

abbrev pub or_now : ℕ → Option ℕ → Option ℕ
or_now now none = some now
or_now now (some t) = some t

abbrev pub refresh : ℕ → ℕ → Job → Job
refresh interval_seconds now j = record j {
  schedule = interval_seconds;
  timezone = "Asia/Shanghai";
  misfire_policy = "defer";
  enabled = true;
  next_run_at = or_now now j.next_run_at;
}

-- The body of the second loop, for one account.
unfoldable pub settle : Bool → Option ℕ → ℕ → ℕ → ℕ → Tables → Tables
settle false none account_id interval_seconds now s = s
settle false (some job_id) account_id interval_seconds now s = record s {
  jobs = update (with_id job_id) disable s.jobs;
}
settle true none account_id interval_seconds now s = record s {
  jobs = new_job account_id interval_seconds now s.next_id ∷ s.jobs;
  next_id = s.next_id + 1;
}
settle true (some job_id) account_id interval_seconds now s = record s {
  jobs = update (with_id job_id) (refresh interval_seconds now) s.jobs;
}

unfoldable pub settle_all : (ℕ → Bool) → Current → ℕ → ℕ → List ℕ → Tables → Tables
unfolding settle
settle_all eligible_ids current interval_seconds now [] s = s
settle_all eligible_ids current interval_seconds now (a ∷ rest) s =
    settle_all eligible_ids current interval_seconds now rest
      (settle (eligible_ids a) (current_get a current) a interval_seconds now s)

unfoldable pub ensure_jobs : List SchedulerAccount → ℕ → ℕ → Tables → Tables
unfolding known_ids in_order pick_current settle_all
ensure_jobs [] now interval_seconds s = s
ensure_jobs accounts now interval_seconds s =
    let rows = in_order (keep (is_preview_of (known accounts)) s.jobs) in
    let (current, jobs) = pick_current rows [] s.jobs in
    settle_all (eligible accounts) current interval_seconds now (known_ids accounts)
      (record s { jobs = jobs })
