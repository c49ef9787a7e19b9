-- ===== src/Policy/Bosses.antt =====
-- BossOptimizer (boss_optimizer.py): the search for a boss that the game predicts to be beaten. What
-- the game answers to a preview is the argument `boss_preview`.
pub mod Sorting
pub mod Choices
pub mod Previewed
pub mod Optimized
pub mod Answered
mod Tests
use placegame_mcp.Errors.{Result, ok, raised, ◌>>=◌}
use placegame_mcp.Prelude.{
  ℕ, zero, suc, ◌+◌, ◌*◌, Bool, true, false, ◌&&◌, ◌||◌, not, Option, none, some, List, [], ◌∷◌,
  ◌++◌, leb, ltb, ◌==◌, first, any, keep, map, is_none, is_some_and, ◌⊎◌, inl, inr, if◌then◌else◌,
}
use placegame_mcp.Text.{Text, codes, text_eq}
use placegame_mcp.Plans.Rows.{
  personal_boss, Decision, selected, blocked, BossChallenge, boss_challenge, Difficulty, normal,
  hard, nightmare,
}
use placegame_mcp.Plans.Canonical.{text_lt}
use placegame_mcp.Policy.Bosses.Sorting.{sort, take}
use placegame_mcp.Policy.Bosses.Choices.{
  BossAffix, BossEntryState, BossPolicy, BossPreviewRequest, BossSelection, BossState, Candidate,
  EquipmentSlot, Preview, affix_before, affixes_of, better, eligible, entry_before, has_affix,
  is_normal, is_open, offers, requests, selection, shortlist_of, slot_before, switch_required,
  target_slot, with_affix,
}

module _ (boss_preview : BossPreviewRequest → Result Preview) where
  unfoldable pub preview_all : List BossPreviewRequest → Result (List Candidate)
  preview_all [] = ok []
  preview_all (r ∷ rs) =
      let rest = preview_all rs in
      boss_preview r >>= λ p. rest >>= λ cs. ok (record { request = r; preview = p } ∷ cs)

  -- The inner loop, with the number of affixes previewed and the final candidate.
  unfoldable pub try_affix :
      BossPolicy → BossAffix → List Candidate → ℕ → Option Candidate → Result (ℕ × Option Candidate)
  unfolding eligible
  try_affix policy affix [] n final = ok (n, final)
  try_affix policy affix (c ∷ cs) n final =
      let rest = try_affix policy affix cs (n + 1) final in
      if leb 12 n
      then ok (n, final)
      else (boss_preview (with_affix affix c.request) >>= λ p.
          if eligible policy p
          then ok (n + 1, some (record { request = with_affix affix c.request; preview = p }))
          else rest)

  unfoldable pub try_affixes :
      BossPolicy
      → List Candidate
      → List BossAffix
      → ℕ
      → Option Candidate
      → Result (ℕ × Option Candidate)
  unfolding try_affix
  try_affixes policy shortlist [] n final = ok (n, final)
  try_affixes policy shortlist (a ∷ more) n final =
      try_affix policy a shortlist n final >>= λ (m, found).
      if has_affix a found then ok (m, found) else try_affixes policy shortlist more m found

  -- `_for_entry`, once the baseline has been previewed.
  unfoldable pub search :
      BossEntryState
      → Difficulty
      → EquipmentSlot
      → BossState
      → BossPolicy
      → List Candidate
      → Result (Option BossSelection)
  unfolding try_affixes better sort take
  search entry difficulty slot state policy baseline =
      let shortlist = shortlist_of baseline in
      let start = first (λ c. eligible policy c.preview) shortlist in
      try_affixes policy shortlist (affixes_of state) 0 start >>= λ (n, final).
      ok (elim final [
        | none ↦ none
        | some c ↦ some (selection state policy entry difficulty slot c)
      ])

  unfoldable pub for_entry :
      BossEntryState
      → Difficulty
      → EquipmentSlot
      → BossState
      → BossPolicy
      → Result (Option BossSelection)
  unfolding search preview_all requests
  for_entry entry difficulty slot state policy =
      preview_all (requests entry difficulty slot) >>= λ baseline.
      search entry difficulty slot state policy baseline

  unfoldable pub try_difficulties :
      BossEntryState
      → EquipmentSlot
      → BossState
      → BossPolicy
      → List Difficulty
      → Result (Option BossSelection)
  unfolding for_entry
  try_difficulties entry slot state policy [] = ok none
  try_difficulties entry slot state policy (d ∷ ds) =
      let rest = try_difficulties entry slot state policy ds in
      if offers entry d
      then (for_entry entry d slot state policy >>= λ found. elim found [
        | none ↦ rest
        | some s ↦ ok (some s)
      ])
      else rest

  unfoldable pub try_entries :
      EquipmentSlot → BossState → BossPolicy → List BossEntryState → Result (Option BossSelection)
  unfolding try_difficulties
  try_entries slot state policy [] = ok none
  try_entries slot state policy (e ∷ es) =
      let rest = try_entries slot state policy es in
      if is_open e
      then (try_difficulties e slot state policy (nightmare ∷ hard ∷ normal ∷ []) >>= λ found.
          elim found [ none ↦ rest | some s ↦ ok (some s) ])
      else rest

  -- `optimize`: a selection, or the reason of the blocked decision.
  unfoldable pub optimize : BossState → BossPolicy → Result (BossSelection ⊎ Text)
  unfolding try_entries target_slot
  optimize state policy =
      if switch_required state
      then ok (inr (codes "combat_potion_switch_required"))
      else elim (target_slot state.equipment) [
        | none ↦ ok (inr (codes "no_eligible_equipment"))
        | some slot ↦ try_entries slot state policy (sort entry_before state.entries) >>= λ found.
            elim found [ none ↦ ok (inr (codes "no_eligible_boss")) | some s ↦ ok (inl s) ]
      ]
