-- ===== src/Policy/Versions.antt =====
-- PostgresPolicyService (policy/store.py): the versions of the accounts' policies, on the tables of
-- accounts and of policies.
pub mod Updates
pub mod History
mod Tests
use placegame_mcp.Errors
use placegame_mcp.Errors.{Result, ok, raised}
use placegame_mcp.Prelude.{
  ℕ, ◌+◌, Bool, true, false, ◌&&◌, ◌||◌, not, Option, none, some, List, [], ◌∷◌, leb, ltb, ◌==◌,
  first, update, is_some_and, if◌then◌else◌,
}
use placegame_mcp.Text.{Text, Actor, codes, joined}
use placegame_mcp.Plans.Rows.{AuditEvent, text, integer, ExecutionResult}

-- policy/models.py. A set is a list, and the order of its elements has no meaning.
pub data QualityCeiling : Type 0 where
  white green blue : QualityCeiling

pub record AccountPolicy : Type 0 where
  pub idle_threshold_minutes : ℕ
  pub boss_min_chance : ℕ
  pub personal_paid_attempts : Bool
  pub world_collaboration_enabled : Bool
  pub world_attempts : ℕ
  pub material_reserve : ℕ
  pub profession_food_target : ℕ
  pub profession_potion_target : ℕ
  pub profession_horizon_hours : ℕ
  pub inventory_warning_percent : ℕ
  pub inventory_critical_percent : ℕ
  pub inventory_auto_quality_ceiling : QualityCeiling
  pub inventory_keep_item_ids : List Text
  pub inventory_protected_affixes : List Text
  pub warehouse_auto_deposit_types : List Text
  pub safe_reward_claims : Bool

abbrev pub default_policy : AccountPolicy
default_policy = record {
  idle_threshold_minutes = 690;
  boss_min_chance = 80;
  personal_paid_attempts = false;
  world_collaboration_enabled = true;
  world_attempts = 3;
  material_reserve = 64;
  profession_food_target = 6;
  profession_potion_target = 12;
  profession_horizon_hours = 12;
  inventory_warning_percent = 85;
  inventory_critical_percent = 95;
  inventory_auto_quality_ceiling = blue;
  inventory_keep_item_ids = [];
  inventory_protected_affixes = [];
  warehouse_auto_deposit_types = codes "boss_material" ∷ codes "profession_material" ∷ [];
  safe_reward_claims = true;
}

pub record VersionedPolicy : Type 0 where
  pub version : ℕ
  pub policy : AccountPolicy

-- The columns of GameAccount that are read or written here.
pub record GameAccount : Type 0 where
  pub id : ℕ
  pub policy_version : ℕ

-- `policy` is `none` where the stored JSON does not validate as an AccountPolicy.
pub record AccountPolicyRow : Type 0 where
  pub account_id : ℕ
  pub policy : Option AccountPolicy
  pub policy_version : ℕ

pub record Tables : Type 0 where
  pub accounts : List GameAccount
  pub policies : List AccountPolicyRow
  pub audit : List AuditEvent

abbrev pub with_id : ℕ → GameAccount → Bool
with_id account_id a = a.id == account_id

abbrev pub of_id : ℕ → AccountPolicyRow → Bool
of_id account_id r = r.account_id == account_id

-- `_versioned`, with `none` for PolicyUnavailable.
unfoldable pub versioned : GameAccount → Option AccountPolicyRow → Option VersionedPolicy
versioned account none =
    if account.policy_version == 1
    then some (record { version = 1; policy = default_policy })
    else none
versioned account (some row) =
    if ltb account.policy_version 1 || not (row.policy_version == account.policy_version)
    then none
    else elim row.policy [
      | none ↦ none
      | some p ↦ some (record { version = account.policy_version; policy = p })
    ]

abbrev pub available : Option VersionedPolicy → Result VersionedPolicy
available none = raised Errors.policy_unavailable
available (some v) = ok v

-- The policy of an account, as the two tables have it.
unfoldable pub current : ℕ → Tables → Option VersionedPolicy
unfolding versioned
current account_id s = elim (first (with_id account_id) s.accounts) [
  | none ↦ none
  | some a ↦ versioned a (first (of_id account_id) s.policies)
]

-- `get`; `reachable` is whether the database answers.
unfoldable pub get : ℕ → Bool → Tables → Result VersionedPolicy
unfolding current
get account_id reachable s =
    if reachable then available (current account_id s) else raised Errors.policy_unavailable

abbrev pub save_event : Actor → ℕ → ExecutionResult → AuditEvent
save_event actor account_id result = record {
  actor = joined actor.kind actor.actor_id;
  source = actor.kind;
  account_id = some account_id;
  plan_id = none;
  action = codes "policy.save";
  result = result;
  before = none;
  after = none;
  correlation_id = none;
}

abbrev set_version : ℕ → GameAccount → GameAccount
set_version n a = record a { policy_version = n }

abbrev set_policy : AccountPolicy → ℕ → AccountPolicyRow → AccountPolicyRow
set_policy p n r = record r { policy = some p; policy_version = n }

-- The insert or the update of the policy's row.
unfoldable pub write_policy :
    ℕ → AccountPolicy → ℕ → Option AccountPolicyRow → List AccountPolicyRow → List AccountPolicyRow
write_policy account_id p n none rows =
    record { account_id = account_id; policy = some p; policy_version = n } ∷ rows
write_policy account_id p n (some row) rows = update (of_id account_id) (set_policy p n) rows

abbrev pub written : ℕ → AccountPolicy → ℕ → Actor → Tables → Tables
written account_id p n actor s = record {
  accounts = update (with_id account_id) (set_version n) s.accounts;
  policies = write_policy account_id p n (first (of_id account_id) s.policies) s.policies;
  audit =
      save_event actor account_id
        ((codes "status", text (codes "saved")) ∷ (codes "version", integer n) ∷ [])
      ∷ s.audit;
}

abbrev pub conflicted : ℕ → Actor → Tables → Tables
conflicted account_id actor s = record s {
  audit =
      save_event actor account_id (
        (codes "status", text (codes "conflict"))
        ∷ (codes "error", text (codes "PolicyConflict"))
        ∷ [])
      ∷ s.audit;
}

-- The version that is expected is the one of both rows, if there are two.
abbrev pub expected_here : ℕ → GameAccount → Option AccountPolicyRow → Bool
expected_here n account none = leb 1 n && n == account.policy_version
expected_here n account (some row) =
    leb 1 n && n == account.policy_version && n == row.policy_version

-- `save`. An unavailable policy leaves no audit row; a conflict does.
unfoldable pub save : ℕ → AccountPolicy → ℕ → Actor → Tables → Tables × Result VersionedPolicy
unfolding versioned write_policy
save account_id p expected_version actor s = elim (first (with_id account_id) s.accounts) [
  | none ↦ (s, raised Errors.policy_unavailable)
  | some account ↦ elim (versioned account (first (of_id account_id) s.policies)) [
    | none ↦ (s, raised Errors.policy_unavailable)
    | some v ↦
        if expected_here expected_version account (first (of_id account_id) s.policies)
        then (
          written account_id p (expected_version + 1) actor s,
          ok (record { version = expected_version + 1; policy = p }),
        )
        else (conflicted account_id actor s, raised Errors.policy_conflict)
  ]
]
