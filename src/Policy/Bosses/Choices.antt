-- ===== src/Policy/Bosses/Choices.antt =====
-- The data of boss_optimizer.py, from game/schemas.py, and its orders and tests. Percentages and
-- multipliers, floats of the schema, are counted in thousandths: the code compares them and does not
-- compute with them.
use placegame_mcp.Prelude.{
  ℕ, ◌*◌, Bool, true, false, ◌&&◌, ◌||◌, not, Option, none, some, List, [], ◌∷◌, ◌++◌, leb, ltb,
  any, keep, map, is_none, is_some_and, if◌then◌else◌,
}
use placegame_mcp.Text.{Text, codes, text_eq}
use placegame_mcp.Plans.Rows.{personal_boss, BossChallenge, Difficulty, normal, hard, nightmare}
use placegame_mcp.Plans.Canonical.{text_lt}
use placegame_mcp.Policy.Bosses.Sorting.{sort, take}

pub record BossPreviewRequest : Type 0 where
  pub boss_key : Text
  pub difficulty : Difficulty
  pub selected_skill_keys : List Text
  pub buff_key : Text
  pub affix_key : Option Text
  pub target_slot : Text
  pub use_material_boost : Bool

pub record Preview : Type 0 where
  pub predicted_win : Bool
  pub chance : ℕ
  pub player_hp_remaining_percent : ℕ
  pub boss_hp_remaining_percent : ℕ

pub record BossEntryState : Type 0 where
  pub key : Text
  pub type : Text
  pub required_level : ℕ
  pub attempts : Option ℕ
  pub blocked_reason : Option Text
  pub refresh_key : Option Text
  pub difficulty_options : List Difficulty

pub record EquipmentSlot : Type 0 where
  pub key : Text
  pub score : ℕ
  pub eligible : Bool

pub record BossAffix : Type 0 where
  pub key : Text
  pub multiplier : ℕ

pub record BossState : Type 0 where
  pub entries : List BossEntryState
  pub free_attempts : ℕ
  pub material_balance : ℕ
  pub equipment : List EquipmentSlot
  pub active_key : Option Text
  pub required_key : Option Text
  pub affixes : List BossAffix

pub record BossPolicy : Type 0 where
  pub boss_min_chance : ℕ
  pub material_reserve : ℕ

pub record Candidate : Type 0 where
  pub request : BossPreviewRequest
  pub preview : Preview

pub record BossSelection : Type 0 where
  pub boss_key : Text
  pub difficulty : Difficulty
  pub preview : Preview
  pub action : BossChallenge

-- `",".join(keys)`
abbrev join : List Text → Text
join [] = []
join (k ∷ []) = k
join (k ∷ ks) = k ++ 44 ∷ join ks

abbrev or_empty : Option Text → Text
or_empty none = []
or_empty (some t) = t

-- The order of a tuple by its first part, and by the rest where the first parts are equal.
abbrev then_by : Bool → Bool → Bool → Bool
then_by less more rest = less || (not more && rest)

abbrev number : ℕ → ℕ → Bool → Bool
number m n rest = then_by (ltb m n) (ltb n m) rest

abbrev by_text : Text → Text → Bool → Bool
by_text s t rest = then_by (text_lt s t) (text_lt t s) rest

abbrev win : Candidate → ℕ
win c = if c.preview.predicted_win then 1 else 0

-- The order of the shortlist: the keys that are negated compare the other way.
unfoldable pub better : Candidate → Candidate → Bool
unfolding text_lt
better a b = number (win b) (win a) (
    number b.preview.chance a.preview.chance (
      number b.preview.player_hp_remaining_percent a.preview.player_hp_remaining_percent (
        number a.preview.boss_hp_remaining_percent b.preview.boss_hp_remaining_percent (
          by_text (join a.request.selected_skill_keys) (join b.request.selected_skill_keys) (
            by_text a.request.buff_key b.request.buff_key
              (text_lt (or_empty a.request.affix_key) (or_empty b.request.affix_key)))))))

-- `_eligible`
unfoldable pub eligible : BossPolicy → Preview → Bool
eligible policy p = p.predicted_win && leb (policy.boss_min_chance * 1000) p.chance

abbrev pub slot_before : EquipmentSlot → EquipmentSlot → Bool
slot_before a b = number a.score b.score (text_lt a.key b.key)

abbrev pub head : {A : Type 0} → List A → Option A
head [] = none
head (x ∷ xs) = some x

-- `_target_slot`: the first of the smallest.
unfoldable pub target_slot : List EquipmentSlot → Option EquipmentSlot
unfolding text_lt sort
target_slot slots = head (sort slot_before (keep (λ s. s.eligible) slots))

abbrev skills : List Text
skills = codes "output" ∷ codes "survival" ∷ codes "balanced" ∷ []

abbrev buffs : List Text
buffs = codes "none" ∷ codes "assault" ∷ codes "guard" ∷ codes "focus" ∷ []

abbrev request_of : BossEntryState → Difficulty → EquipmentSlot → Text → Text → BossPreviewRequest
request_of entry difficulty slot skill buff = record {
  boss_key = entry.key;
  difficulty = difficulty;
  selected_skill_keys = skill ∷ [];
  buff_key = buff;
  affix_key = none;
  target_slot = slot.key;
  use_material_boost = false;
}

abbrev pairs : (Text → Text → BossPreviewRequest) → List Text → List BossPreviewRequest
pairs f [] = []
pairs f (s ∷ ss) = map (f s) buffs ++ pairs f ss

unfoldable pub requests : BossEntryState → Difficulty → EquipmentSlot → List BossPreviewRequest
requests entry difficulty slot = pairs (request_of entry difficulty slot) skills

abbrev pub with_affix : BossAffix → BossPreviewRequest → BossPreviewRequest
with_affix affix r = record r { affix_key = some affix.key }

abbrev pub affix_before : BossAffix → BossAffix → Bool
affix_before a b = number b.multiplier a.multiplier (text_lt a.key b.key)

-- `final.request.affix_key == affix.key`
abbrev pub has_affix : BossAffix → Option Candidate → Bool
has_affix affix none = false
has_affix affix (some c) = elim c.request.affix_key [ none ↦ false | some k ↦ text_eq k affix.key ]

abbrev pub is_normal : Difficulty → Bool
is_normal normal = true
is_normal _ = false

-- The action and the preview of the final candidate.
abbrev pub selection :
    BossState → BossPolicy → BossEntryState → Difficulty → EquipmentSlot → Candidate → BossSelection
selection state policy entry difficulty slot final = record {
  boss_key = entry.key;
  difficulty = difficulty;
  preview = final.preview;
  action = record {
    family = personal_boss;
    boss_key = entry.key;
    difficulty = difficulty;
    selected_skill_keys = final.request.selected_skill_keys;
    buff_key = final.request.buff_key;
    affix_key = final.request.affix_key;
    target_slot = slot.key;
    use_material_boost =
        not (is_normal difficulty) && ltb policy.material_reserve state.material_balance;
  };
}

abbrev pub shortlist_of : List Candidate → List Candidate
shortlist_of baseline = take 3 (sort better baseline)

abbrev pub affixes_of : BossState → List BossAffix
affixes_of state = take 12 (sort affix_before state.affixes)

abbrev difficulty_eq : Difficulty → Difficulty → Bool
difficulty_eq normal normal = true
difficulty_eq hard hard = true
difficulty_eq nightmare nightmare = true
difficulty_eq _ _ = false

abbrev pub offers : BossEntryState → Difficulty → Bool
offers entry d = any (difficulty_eq d) entry.difficulty_options

abbrev pub is_open : BossEntryState → Bool
is_open entry = is_none entry.blocked_reason

abbrev pub entry_before : BossEntryState → BossEntryState → Bool
entry_before a b = number b.required_level a.required_level (text_lt a.key b.key)

-- The potion that is wanted is another than the one that is active.
abbrev pub switch_required : BossState → Bool
switch_required state = elim state.required_key [
  | none ↦ false
  | some k ↦ not (is_some_and (λ a. text_eq k a) state.active_key)
]
