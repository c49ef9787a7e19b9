-- ===== src/Accounts/Tests.antt =====
-- The account service's theorems at small tables.
use placegame_mcp.Errors
use placegame_mcp.Errors.{Error, Result, ok, raised}
use placegame_mcp.Prelude.{
  ℕ, ◌≡◌, ◌≤◌, refl, arith, true, false, none, some, List, [], ◌∷◌, count, map,
}
use placegame_mcp.Text.{Actor, codes, strip, is_space}
use placegame_mcp.Scheduler.Rows.{Job}
use placegame_mcp.Plans.Rows.{ActionPlan, confirmed, executed, low}
use placegame_mcp.Plans.Store
use placegame_mcp.Plans.Store.{Plans, by_id}
use placegame_mcp.Accounts.Rows.{GameAccount, Tables, token_only, is_live, get_for_update}
use placegame_mcp.Accounts.Session.{Game, bind_or_match, compare_identity}
use placegame_mcp.Accounts.Session.Resolve.{
  Resolution, ensure_locked, ensure_unpaused, after_bootstrap, accept, accept_bound,
}
use placegame_mcp.Accounts.Snapshots.{save_snapshot}
use placegame_mcp.Accounts.Session.Ready.{IsReady, ensure_locked-IsReady}
use placegame_mcp.Accounts.Lifecycle.{pause, begin_removal, disable_drain_remove}
use placegame_mcp.Accounts.Lifecycle.Removal.{
  account, disable_drain_remove-removes, pause-blocks_removal,
}
use placegame_mcp.Accounts.Registry.{Kept}
use placegame_mcp.Accounts.Registry.Changes.{IsValid, at}
use placegame_mcp.Accounts.Registry.Calls
use placegame_mcp.Accounts.Registry.Calls.{AccountCall, calls, calls_unique, calls-Kept}
use placegame_mcp.Accounts.Mutation.{
  Mutation, Progress, returned, raises, prepare, prepare_row, if_mutable, after_session, with_api,
  after_snapshot, check_plan, check_candidate, plan_usable, check_fingerprint,
}
use placegame_mcp.Accounts.Mutation.Handling.{handle, on_value, on_error, succeed, close}
use placegame_mcp.Accounts.Mutation.Loop.{settle, attempts, mutate, send}
use placegame_mcp.Accounts.Mutation.Fate.{IsFate, is_last, settle-handle-IsFate}
use placegame_mcp.Accounts.Mutation.Endings.{is_open_state, plan_state}
use placegame_mcp.Accounts.Mutation.Attempts.{attempts-enough}
use placegame_mcp.Accounts.Mutation.Success.{mutate-executed}

abbrev webui : Actor
webui = record { kind = codes "webui"; actor_id = codes "admin" }

abbrev player : GameAccount
player = record {
  id = 7;
  game_account_id = some (codes "g7");
  label = codes "main";
  game_username = some (codes "ann");
  auth_mode = token_only;
  password = none;
  session_token = some (codes "tok");
  session_expires_at = none;
  enabled = true;
  paused_reason = none;
  last_success_at = none;
  last_error_at = none;
  auth_failure_count = 0;
  auth_failure_window_started_at = none;
}

abbrev job : Job
job = record {
  id = 1;
  account_id = 7;
  kind = "idle_preview";
  schedule = 60;
  timezone = "UTC";
  enabled = true;
  next_run_at = none;
  misfire_policy = "skip";
  created_at = 0;
}

abbrev confirmed_plan : ActionPlan
confirmed_plan = record {
  id = 3;
  account_id = 7;
  state_fingerprint = codes "f";
  policy_version = 1;
  proposed_actions = [];
  estimated_costs = record { material = 0; attempts = 0; currency = 0 };
  risk = low;
  expires_at = 100;
  confirmation_required = false;
  confirmed_at = some 1;
  confirmed_by = none;
  execution_state = confirmed;
  executed_at = none;
  execution_result = none;
  execution_owner = none;
  execution_started_at = none;
  execution_lease_expires_at = none;
  execution_attempt_count = 0;
}

abbrev tables : Tables
tables = record {
  accounts = player ∷ [];
  jobs = job ∷ [];
  plans = record { rows = confirmed_plan ∷ []; next_id = 4 };
  snapshots = [];
  audit = [];
  next_id = 8;
}

abbrev game : Game
game = record {
  login = λ username password attempt. raised Errors.session_rejected;
  bootstrap = λ token attempt. ok (codes "g7");
  idle_summary = raised Errors.game_unavailable;
  token_expiry = λ token. none;
  lost_race = false;
  now = 9;
}

-- Between the two transactions the game's clock is noted in the row.
abbrev finishing : Tables → Tables
finishing t = record t {
  accounts = map {A = GameAccount} (λ a. record a { last_success_at = some 5 }) t.accounts;
}

disable_drain_remove-removes_example :
    (account 7 (begin_removal 7 tables).0
      ≡ some (record player { enabled = false; paused_reason = some (codes "removing") }))
    × ((disable_drain_remove 7 webui finishing tables).1
        ≡ ok (count (is_live 7) (finishing (begin_removal 7 tables).0).jobs))
    × (account 7 (disable_drain_remove 7 webui finishing tables).0
        ≡ some (record player {
          enabled = false;
          paused_reason = some (codes "removed");
          game_username = none;
          password = none;
          session_token = none;
          session_expires_at = none;
          last_success_at = some 5;
        }))
    × (count (is_live 7) (disable_drain_remove 7 webui finishing tables).0.jobs ≡ 0)
unfolding begin_removal get_for_update
disable_drain_remove-removes_example =
    disable_drain_remove-removes 7 webui finishing tables player
      (record player {
        enabled = false;
        paused_reason = some (codes "removing");
        last_success_at = some 5;
      })
      refl refl refl

stripped : strip (codes " removed ") ≡ codes "removed"
unfolding strip is_space
stripped = refl

pause-blocks_removal_example :
    ((pause 7 (codes " removed ") webui tables).1 ≡ ok tt)
    × (disable_drain_remove 7 webui finishing (pause 7 (codes " removed ") webui tables).0
        ≡ ((pause 7 (codes " removed ") webui tables).0, ok 0))
    × (account 7 (pause 7 (codes " removed ") webui tables).0
        ≡ some (record player { paused_reason = some (codes "removed") }))
pause-blocks_removal_example =
    pause-blocks_removal 7 (codes " removed ") webui webui finishing tables player stripped refl
      refl refl

one_account : IsValid tables
one_account = record {
  distinct = (tt, tt);
  fresh = (omega arith, tt);
  unique = λ n m a b g h k i j. ground (arith, h, k);
}

abbrev mutation : Mutation ℕ
mutation = record {
  plan_id = some 3;
  state_fingerprint = some (λ attempt. ok (some (codes "f")));
  operation = λ attempt. returned 5;
  verify = none;
  reread = λ attempt. returned tt;
  policy = λ attempt. ok 1;
  game = λ attempt. record game {
    idle_summary = ok (record { accumulated_seconds = 0; capacity_seconds = some 0 });
  };
  digest = λ state. codes "d";
}

abbrev history : List AccountCall
history =
    Calls.adds_token game (codes "again") (codes "tok") webui
    ∷ Calls.ensures game 7 webui
    ∷ Calls.mutates mutation 9 7 webui
    ∷ Calls.begins_removal 7
    ∷ Calls.resumes 7 webui
    ∷ Calls.finishes_removal 7 webui
    ∷ []

calls_unique_example : IsValid (calls history tables)
calls_unique_example = calls_unique history tables one_account

calls-Kept_example :
    (b : GameAccount) × (at 7 (calls history tables).accounts ≡ some b) × Kept player b
calls-Kept_example = calls-Kept history tables 7 player refl

abbrev sent : Progress
sent = record { tables = tables; account = some 7; plan = some 3; sent = true }

attempts-enough_example :
    (attempts mutation webui 7 5 0 tables ≡ attempts mutation webui 7 3 0 tables)
    × ((attempts mutation webui 7 5 0 tables).0 ≤ 3)
attempts-enough_example = attempts-enough mutation webui 7 5 tables (omega arith)

ambiguous_last : is_last (handle mutation webui 0 sent (raises Errors.ambiguous_mutation)).1 ≡ true
unfolding handle on_error
ambiguous_last = refl

sent_open : is_open_state (plan_state 3 tables) ≡ true
sent_open = refl

settle-handle-IsFate_example :
    IsFate 3
      (settle webui 9 tables (handle mutation webui 0 sent (raises Errors.ambiguous_mutation)))
settle-handle-IsFate_example =
    settle-handle-IsFate mutation webui 0 9 3 tables sent (raises Errors.ambiguous_mutation)
      (record { has_plan = refl; has_sent = refl; has_open = sent_open }) ambiguous_last

returns_value :
    (mutate mutation 9 7 webui tables).1
    ≡ returned (record { applied = true; reconciled = false; result = some 5 })
unfolding mutate settle attempts send handle on_value succeed close prepare prepare_row if_mutable
    after_session with_api after_snapshot check_plan check_candidate plan_usable check_fingerprint
    ensure_locked ensure_unpaused after_bootstrap accept accept_bound bind_or_match compare_identity
    save_snapshot get_for_update Store.finish
returns_value = refl

mutate-executed_example : plan_state 3 (mutate mutation 9 7 webui tables).0 ≡ some executed
mutate-executed_example =
    mutate-executed mutation webui 9 7 3 tables
      (record { applied = true; reconciled = false; result = some 5 }) refl returns_value

abbrev resolution : Resolution
resolution = record {
  work = record { row = record player { last_success_at = some 9 }; events = [] };
  refreshed = false;
  api = some (codes "tok", codes "g7");
}

resolves : ensure_locked game tables webui player ≡ ok resolution
unfolding ensure_locked ensure_unpaused after_bootstrap accept accept_bound bind_or_match
    compare_identity
resolves = refl

ensure_locked-IsReady_example : IsReady game resolution.work.row (codes "tok") (codes "g7")
ensure_locked-IsReady_example =
    ensure_locked-IsReady game tables webui player resolution (codes "tok") (codes "g7") resolves
      refl
