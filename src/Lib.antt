-- ===== src/Lib.antt =====
-- PlaceGame MCP: a service that keeps accounts of a web game and acts for them. An operator or an
-- MCP client previews an action, the preview stores a plan with a fingerprint of the state of the
-- game, and the plan is executed once if that state still holds. A scheduler makes previews by the
-- clock, in several processes that share one PostgreSQL database.
--
-- Which file models which part (paths from the root of the repository):
-- - Errors, Text: src/placegame/errors.py and src/placegame/application/errors.py, the exceptions
--   as values of a sum; Actor of src/placegame/contracts.py with the checks on identifiers of
--   src/placegame/application/idle.py.
-- - Plans: src/placegame/policy/plans.py. Plans.Rows has the actions, decisions and plans with
--   their validators, and the rows of src/placegame/models.py; Plans.Canonical is
--   canonical_fingerprint; Plans.Store is PostgresPlanStore (create, get_for_update, confirm,
--   mark_executing, finish).
-- - Idle: src/placegame/application/idle.py. Idle.Planner is IdlePlanner; Idle.Previews is
--   IdlePreviewStore.save and IdlePlanUseCase.preview; Idle.Claims is IdleExecutionClaims (claim,
--   owned, finish); Idle.Execute is IdleExecuteUseCase (execute, _send_once, _recover).
-- - Scheduler: src/placegame/scheduler.py. Scheduler.Lease, Scheduler.Jobs and Scheduler.Runs are
--   the methods of PostgresIdlePreviewStore on the tables of Scheduler.Rows; Scheduler.Store makes
--   calls of them into histories; Scheduler.Tick is IdlePreviewScheduler.tick with _dispatch and
--   _error_code, and Scheduler.Loop is run with _wait_for_next_tick and close.
-- - Policy: Policy.Rewards is SafeRewardPlanner of src/placegame/rewards.py; Policy.Bosses is
--   BossOptimizer of src/placegame/boss_optimizer.py; Policy.Engine is PolicyEngine of
--   src/placegame/policy/engine.py, with its decisions for the professions and the world boss in
--   Policy.Professions and Policy.Worlds, and the projections of its fingerprints in
--   Policy.Projections; Policy.Versions is get and save of PostgresPolicyService in
--   src/placegame/policy/store.py. Policy.Fitting has lemmas on decisions.
-- - Accounts: src/placegame/accounts/service.py and repository.py. Accounts.Rows has the rows and
--   the queries; Accounts.Session has _login_and_bootstrap and _bind_or_match_identity, and
--   Accounts.Session.Resolve is _ensure_locked; Accounts.Lifecycle, Accounts.Enrolment,
--   Accounts.Secrets and Accounts.Snapshots are the methods of AccountService, by what they change;
--   Accounts.Mutation is mutate up to the sending of the operation, Accounts.Mutation.Handling what
--   its answer does, and Accounts.Mutation.Loop the attempts and the end of the transaction;
--   Accounts.Registry makes calls of the methods into histories.
-- - Client: src/placegame/game/client.py and registry.py. Client.Versions is the pattern of a
--   version and GameClientVersion.adopt; Client.Registry is REGISTRY; Client.Responses is
--   _interpret_response with _public_error; Client.Requests is HttpGameClient (_send_once,
--   _attempt, _request_outcome, _request); Client.Limiter is AccountRateLimiter.
-- - Admin: src/placegame/admin/auth.py, PostgresAdminAuthStore and AdminAuthService; Admin.Sessions
--   makes calls of them into histories.
-- - Redaction: redact of src/placegame/security/redaction.py.
-- - Prelude: lists, tests and tables with a key, as the other modules use them.
--
-- How the parts meet: the scheduler's tick claims a run and asks the idle preview for it; the
-- preview reads the game under the lock of the account, and saves a plan by the planner; an
-- execution claims that plan in the same table, checks it against the planner's fingerprint, and
-- finishes it.
--
-- How the code is modelled. A table is a list of rows, newest first, or in the order of the query
-- that reads it, and a method is one transaction, so a function from tables to tables and a
-- result: the methods lock the rows that they read, but for the plan that the preparation of
-- mutate reads without a lock, and an exception rolls the transaction back, so that a method that
-- raises returns the tables that it was given; only a save of a policy that meets a conflict, and
-- an error that the account service keeps pending, are raised after the transaction, which keeps
-- its writes and audit rows. An HttpGameClient has a GameClientVersion of its own, which the
-- accounts share in the source. Processes interleave as lists of calls, and where a use case has
-- several transactions, what others do in between is an argument of it. Times are microseconds and
-- identifiers are numbers: a new row gets the next number, where the database draws a random UUID.
-- Texts that are walked or cut are lists of code points. What the game, the account service and
-- the clock answer stands in a record World, Session, Game or Mutation, any answer and any
-- exception being possible; the optimizer takes the answers of the game to its previews as a
-- function. SHA-256 with json.dumps is a parameter, sha256_of or digest, and so is the text of a
-- decimal number, format_decimal: the floats of the game are counted in thousandths. The rounds of
-- the scheduler's loop are a list, as long as one likes. The functions recurse on their lists, or
-- on the attempts that are left, three in try_login and in attempts, and one or three in
-- try_request: there is no other fuel.
--
-- Not modelled: a change of a plan between its reading by the preparation of mutate and its
-- execution, which an idle claim could make; of the HTTP client of the game, the waiting before
-- another attempt; the MCP adapter, the administration's routes and web pages, encryption of
-- secrets, configuration, migrations and deployment; of the scheduler, a cancelled tick or loop;
-- of mutate, a cancellation that arrives before the operation is sent, and of the secrets of an
-- account, the sealing: a secret stands for what SecretBox opens. Logging and the wording of
-- messages are left out everywhere.
pub mod Prelude
pub mod Errors
pub mod Text
pub mod Plans
pub mod Scheduler
pub mod Idle
pub mod Policy
pub mod Accounts
pub mod Client
pub mod Admin
pub mod Redaction
