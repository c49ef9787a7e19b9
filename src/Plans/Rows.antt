-- ===== src/Plans/Rows.antt =====
-- The plan models of policy/plans.py, and the plan and audit rows of models.py. Times are
-- microseconds and identifiers are numbers.
use placegame_mcp.Prelude.{
  ℕ, Bool, true, false, ◌&&◌, ◌||◌, not, Option, none, some, List, [], ◌∷◌, leb, ◌==◌, length,
  is_none, if◌then◌else◌,
}
use placegame_mcp.Text.{Text, codes, in_range, every}

pub data ActionFamily : Type 0 where
  idle personal_boss ordinary_boss world_boss profession safe_reward : ActionFamily

pub data DecisionState : Type 0 where
  selected skipped blocked : DecisionState

-- The column is a text: `unknown` stands for any that is no PlanState.
pub data PlanState : Type 0 where
  pending confirmed executing executed failed reconciliation_required unknown : PlanState

pub data RiskClass : Type 0 where
  low medium high : RiskClass

pub data Difficulty : Type 0 where
  normal hard nightmare : Difficulty

pub record EstimatedCosts : Type 0 where
  pub material : ℕ
  pub attempts : ℕ
  pub currency : ℕ

pub record BossChallenge : Type 0 where
  pub family : ActionFamily
  pub boss_key : Text
  pub difficulty : Difficulty
  pub selected_skill_keys : List Text
  pub buff_key : Text
  pub affix_key : Option Text
  pub target_slot : Text
  pub use_material_boost : Bool

pub data RegisteredAction : Type 0 where
  idle_collect : RegisteredAction
  boss_challenge : BossChallenge → RegisteredAction
  boss_assist : Text → RegisteredAction
  profession_settle : RegisteredAction
  profession_enqueue : Text → ℕ → RegisteredAction
  profession_supply_equip : Text → Text → RegisteredAction
  daily_claim : ℕ → RegisteredAction
  quest_claim achievement_claim codex_claim mail_claim : Text → RegisteredAction

unfoldable pub action_family : RegisteredAction → ActionFamily
action_family idle_collect = idle
action_family (boss_challenge c) = c.family
action_family (boss_assist k) = world_boss
action_family profession_settle = profession
action_family (profession_enqueue k n) = profession
action_family (profession_supply_equip t k) = profession
action_family _ = safe_reward

pub record Decision : Type 0 where
  pub family : ActionFamily
  pub reason : Text
  pub state : DecisionState
  pub action : Option RegisteredAction

abbrev family_code : ActionFamily → ℕ
family_code idle = 0
family_code personal_boss = 1
family_code ordinary_boss = 2
family_code world_boss = 3
family_code profession = 4
family_code safe_reward = 5

abbrev pub family_eq : ActionFamily → ActionFamily → Bool
family_eq a b = family_code a == family_code b

-- A value of `execution_result`; `negative n` is the integer -(n + 1), and
-- `other` is what is no text, Boolean or integer.
pub data ResultValue : Type 0 where
  text : Text → ResultValue
  boolean : Bool → ResultValue
  integer : ℕ → ResultValue
  negative : ℕ → ResultValue
  other : ResultValue

abbrev pub ExecutionResult : Type 0
ExecutionResult = List (Text × ResultValue)

pub record ActionPlan : Type 0 where
  pub id : ℕ
  pub account_id : ℕ
  pub state_fingerprint : Text
  pub policy_version : ℕ
  pub proposed_actions : List Decision
  pub estimated_costs : EstimatedCosts
  pub risk : RiskClass
  pub expires_at : ℕ
  pub confirmation_required : Bool
  pub confirmed_at : Option ℕ
  pub confirmed_by : Option Text
  pub execution_state : PlanState
  pub executed_at : Option ℕ
  pub execution_result : Option ExecutionResult
  pub execution_owner : Option ℕ
  pub execution_started_at : Option ℕ
  pub execution_lease_expires_at : Option ℕ
  pub execution_attempt_count : ℕ

pub record AuditEvent : Type 0 where
  pub actor : Text
  pub source : Text
  pub account_id : Option ℕ
  pub plan_id : Option ℕ
  pub action : Text
  pub result : ExecutionResult
  pub before : Option ExecutionResult
  pub after : Option ExecutionResult
  pub correlation_id : Option Text

-- `^[a-z][a-z0-9_]{0,127}$`
unfoldable pub is_reason : Text → Bool
is_reason [] = false
is_reason (c ∷ s) =
    in_range 97 122 c
    && leb (length s) 127
    && every (λ d. in_range 97 122 d || in_range 48 57 d || d == 95) s

-- The validators of SelectedDecision, SkippedDecision and BlockedDecision.
unfoldable pub decision_valid : Decision → Bool
unfolding action_family is_reason
decision_valid d = is_reason d.reason && elim d.action [
  | none ↦ elim d.state [ selected ↦ false | _ ↦ true ]
  | some a ↦ family_eq (action_family a) d.family
]

-- `^pgfp:v1:[0-9a-f]{64}$`
unfoldable pub strip_prefix : Text → Text → Option Text
strip_prefix [] s = some s
strip_prefix (c ∷ p) [] = none
strip_prefix (c ∷ p) (d ∷ s) = if c == d then strip_prefix p s else none

unfoldable pub is_fingerprint : Text → Bool
unfolding strip_prefix
is_fingerprint s = elim (strip_prefix (codes "pgfp:v1:") s) [
  | none ↦ false
  | some digest ↦ length digest == 64 && every (λ c. in_range 48 57 c || in_range 97 102 c) digest
]

abbrev pub all_decisions : (Decision → Bool) → List Decision → Bool
all_decisions p [] = true
all_decisions p (d ∷ ds) = p d && all_decisions p ds

-- `len({decision.family ...}) != 1` is the failure of this test.
unfoldable pub one_family : List Decision → Bool
one_family [] = false
one_family (d ∷ ds) = all_decisions (λ e. family_eq e.family d.family) ds

unfoldable pub value_valid : ResultValue → Bool
value_valid (text s) = leb (length s) 256
value_valid other = false
value_valid _ = true

abbrev pub entry_valid : Text × ResultValue → Bool
entry_valid (k, v) = leb (length k) 64 && value_valid v

unfoldable pub entries_valid : ExecutionResult → Bool
unfolding value_valid
entries_valid [] = true
entries_valid (e ∷ es) = entry_valid e && entries_valid es

unfoldable pub result_valid : Option ExecutionResult → Bool
unfolding entries_valid
result_valid none = true
result_valid (some r) = leb (length r) 16 && entries_valid r

abbrev is_confirmed : PlanState → Bool
is_confirmed confirmed = true
is_confirmed _ = false

abbrev is_known : PlanState → Bool
is_known unknown = false
is_known _ = true

-- The fields of _PlanDetails and TypedActionPlan with their constraints and validators.
unfoldable pub plan_valid : ActionPlan → Bool
unfolding is_fingerprint decision_valid one_family result_valid
plan_valid p =
    is_fingerprint p.state_fingerprint
    && leb 1 p.policy_version
    && all_decisions decision_valid p.proposed_actions
    && one_family p.proposed_actions
    && is_known p.execution_state
    && (if is_none p.confirmed_at then is_none p.confirmed_by else not (is_none p.confirmed_by))
    && (not (is_confirmed p.execution_state) || not (is_none p.confirmed_at))
    && result_valid p.execution_result
