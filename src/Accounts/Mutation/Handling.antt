-- ===== src/Accounts/Mutation/Handling.antt =====
-- `AccountService.mutate` (accounts/service.py): what the answer to the operation does.
use placegame_mcp.Errors
use placegame_mcp.Errors.{Error, Result, ok, raised}
use placegame_mcp.Prelude.{ℕ, Bool, true, false, Option, none, some, [], ◌∷◌, leb, if◌then◌else◌}
use placegame_mcp.Text.{Text, Actor, codes}
use placegame_mcp.Plans.Rows.{
  PlanState, executed, failed, reconciliation_required, ExecutionResult, text, boolean,
}
use placegame_mcp.Plans.Store
use placegame_mcp.Plans.Store.{Plans, by_id, is_terminal}
use placegame_mcp.Accounts.Rows.{GameAccount, Tables, get_for_update, write, event}
use placegame_mcp.Accounts.Session.{is_session_rejected}
use placegame_mcp.Accounts.Mutation.{Reply, returned, raises, cancelled, Mutation, Progress}

pub record MutationOutcome (A : Type 0) : Type 0 where
  pub applied : Bool
  pub reconciled : Bool
  pub result : Option A

-- How an attempt ends: `fails` with whether a cancellation is to be raised, and `aborts` where a
-- cancellation leaves the transaction.
pub data Ending (A : Type 0) : Type 0 where
  succeeds : MutationOutcome A → Ending A
  fails : Bool → Error → Ending A
  cancels aborts retries : Ending A

abbrev pub Ended : Type 0 → Type 0
Ended A = Progress × Ending A

abbrev pub is_conflict : Error → Bool
is_conflict (Errors.game_conflict c) = true
is_conflict _ = false

abbrev pub is_ambiguous : Error → Bool
is_ambiguous Errors.ambiguous_mutation = true
is_ambiguous _ = false

abbrev pub is_schema_mismatch : Error → Bool
is_schema_mismatch Errors.game_schema_mismatch = true
is_schema_mismatch _ = false

abbrev pub is_precondition : Error → Bool
is_precondition Errors.plan_precondition_failed = true
is_precondition _ = false

abbrev pub is_game_error : Error → Bool
is_game_error Errors.session_rejected = true
is_game_error Errors.contract_changed = true
is_game_error Errors.client_version_rejected = true
is_game_error Errors.inventory_full = true
is_game_error Errors.insufficient_resource = true
is_game_error (Errors.game_conflict c) = true
is_game_error Errors.game_rate_limited = true
is_game_error Errors.ambiguous_mutation = true
is_game_error Errors.game_unavailable = true
is_game_error Errors.game_schema_mismatch = true
is_game_error Errors.game_http_error = true
is_game_error _ = false

-- `type(pending).__name__`, of the errors that can be pending.
unfoldable pub error_name : Error → Text
error_name Errors.account_not_found = codes "AccountNotFound"
error_name Errors.account_identity_conflict = codes "AccountIdentityConflict"
error_name Errors.account_disabled = codes "AccountDisabled"
error_name Errors.account_paused = codes "AccountPaused"
error_name Errors.account_removed = codes "AccountRemoved"
error_name Errors.authentication_required = codes "AuthenticationRequired"
error_name Errors.policy_unavailable = codes "PolicyUnavailable"
error_name Errors.plan_precondition_failed = codes "PlanPreconditionFailed"
error_name Errors.session_rejected = codes "SessionRejected"
error_name Errors.contract_changed = codes "ContractChanged"
error_name Errors.client_version_rejected = codes "ClientVersionRejected"
error_name Errors.inventory_full = codes "InventoryFull"
error_name Errors.insufficient_resource = codes "InsufficientResource"
error_name (Errors.game_conflict c) = codes "GameConflict"
error_name Errors.game_rate_limited = codes "GameRateLimited"
error_name Errors.ambiguous_mutation = codes "AmbiguousMutation"
error_name Errors.game_unavailable = codes "GameUnavailable"
error_name Errors.game_schema_mismatch = codes "GameSchemaMismatch"
error_name Errors.game_http_error = codes "GameHttpError"
error_name _ = codes "ReconciliationRequired"

abbrev pub with_plans : Tables → Store.Outcome (Unit {0}) → Tables × Result (Unit {0})
with_plans t (s, r) = (record t { plans = s }, r)

-- `plan_store.finish`, if a plan is validated.
unfoldable pub close :
    Option ℕ → PlanState → ExecutionResult → ℕ → Tables → Tables × Result (Unit {0})
unfolding Store.finish
close none status result now t = (t, ok tt)
close (some plan_id) status result now t =
    with_plans t (Store.finish plan_id status result now t.plans)

abbrev pub log : Actor → Progress → ExecutionResult → Tables → Tables
log actor p result t = record t {
  audit = event actor p.account p.plan (codes "account.mutate") result ∷ t.audit;
}

abbrev pub status : Text → ExecutionResult
status s = (codes "status", text s) ∷ []

-- The audit event and the ending that follow the closing of the plan, unless it raises.
abbrev pub concluded :
    {A : Type 0}
    → Actor
    → Progress
    → ExecutionResult
    → Bool
    → Ending A
    → Tables × Result (Unit {0})
    → Ended A
concluded actor p result c ending (t, ok u) = (record p { tables = log actor p result t }, ending)
concluded actor p result c ending (t, raised e) = (record p { tables = t }, fails c e)

unfoldable pub cancel : {A : Type 0} → Actor → ℕ → Progress → Ended A
unfolding close
cancel actor now p =
    concluded actor p
      ((codes "status", text (codes "cancelled"))
        ∷ (codes "outcome", text (codes "ambiguous"))
        ∷ [])
      true cancels (close p.plan reconciliation_required (status (codes "cancelled")) now p.tables)

abbrev pub stamped : ℕ → Tables → Option GameAccount → Tables
stamped now t none = t
stamped now t (some row) = write (record row { last_success_at = some now }) [] t

unfoldable pub mark_success : Option ℕ → ℕ → Tables → Tables
unfolding get_for_update
mark_success none now t = t
mark_success (some account_id) now t = stamped now t (get_for_update account_id t)

abbrev pub succeeded : Bool → ExecutionResult
succeeded reconciled =
    (codes "status", text (codes "succeeded")) ∷ (codes "reconciled", boolean reconciled) ∷ []

unfoldable pub succeed : {A : Type 0} → Actor → ℕ → Bool → Option A → Progress → Ended A
unfolding close mark_success
succeed actor now reconciled result p =
    concluded actor p (succeeded reconciled) false
      (succeeds (record { applied = true; reconciled = reconciled; result = result }))
      (close p.plan executed (succeeded reconciled) now (mark_success p.account now p.tables))

abbrev pub fail : {A : Type 0} → Error → Progress → Ended A
fail e p = (p, fails false e)

-- Any exception of a check becomes ReconciliationRequired, but a mismatch of the schema.
abbrev pub inconclusive : Error → Error
inconclusive e = if is_schema_mismatch e then e else Errors.reconciliation_required

-- After the closing of the plan of a session that the game rejects.
abbrev pub on_rejected : {A : Type 0} → Progress → Tables × Result (Unit {0}) → Ended A
on_rejected p (t, ok u) = fail Errors.authentication_required (record p { tables = t })
on_rejected p (t, raised x) = fail x (record p { tables = t })

module _ {A : Type 0} (m : Mutation A) (actor : Actor) (attempt : ℕ) where
  -- The answer of `verify`.
  unfoldable pub on_verified : Bool → Option A → Progress → Reply Bool → Ended A
  unfolding succeed cancel
  on_verified reconciled result p (returned true) =
      succeed actor (m.game attempt).now reconciled result p
  on_verified reconciled result p (returned false) = fail Errors.reconciliation_required p
  on_verified reconciled result p (raises e) = fail (inconclusive e) p
  on_verified reconciled result p cancelled = cancel actor (m.game attempt).now p

  -- The bootstrap after an answer that is ambiguous.
  unfoldable pub on_ambiguous : (ℕ → Option A → Reply Bool) → Progress → Reply (Unit {0}) → Ended A
  unfolding on_verified cancel
  on_ambiguous verify p (returned u) = on_verified true none p (verify attempt none)
  on_ambiguous verify p (raises e) = fail (inconclusive e) p
  on_ambiguous verify p cancelled = cancel actor (m.game attempt).now p

  -- The bootstrap after a value.
  unfoldable pub on_value : A → Progress → Reply (Unit {0}) → Ended A
  unfolding on_verified succeed cancel
  on_value value p (returned u) = elim m.verify [
    | none ↦ succeed actor (m.game attempt).now false (some value) p
    | some verify ↦ on_verified false (some value) p (verify attempt (some value))
  ]
  on_value value p (raises e) = fail (if is_game_error e then inconclusive e else e) p
  on_value value p cancelled = cancel actor (m.game attempt).now p

  -- The bootstrap before another attempt.
  unfoldable pub on_conflict : Progress → Reply (Unit {0}) → Ended A
  on_conflict p (returned u) = (p, retries)
  on_conflict p (raises e) = fail e p
  on_conflict p cancelled = (p, aborts)

  unfoldable pub on_error : Error → Progress → Ended A
  unfolding on_conflict on_ambiguous close
  on_error e p =
      if is_conflict e
      then if leb 2 attempt then fail e p else on_conflict p (m.reread attempt)
      else if is_ambiguous e
      then elim m.verify [
        | none ↦ fail Errors.reconciliation_required p
        | some verify ↦ on_ambiguous verify p (m.reread attempt)
      ]
      else if is_session_rejected e
      then on_rejected p
          (close p.plan failed (status (codes "rejected")) (m.game attempt).now p.tables)
      else fail e p

  -- The answer to the operation, once it is sent.
  unfoldable pub handle : Progress → Reply A → Ended A
  unfolding on_value on_error cancel
  handle p (returned value) = on_value value p (m.reread attempt)
  handle p (raises e) = on_error e p
  handle p cancelled = cancel actor (m.game attempt).now p
