-- ===== src/Policy/Bosses/Previewed/Selected.antt =====
-- What the optimizer selects.
use placegame_mcp.Errors.{Result, ok, Result-cases}
use placegame_mcp.Prelude.{
  ◌*◌, ◌≤◌, ◌<◌, ◌≡◌, refl, subst, arith, true, false, Option, none, some, List, [], ◌∷◌, first,
  first-holds, All, All-first, Bool-cases, inl, inr,
}
use placegame_mcp.Plans.Rows.{Difficulty, normal, hard, nightmare}
use placegame_mcp.Policy.Bosses.Sorting.{sort-All, take-All, sort}
use placegame_mcp.Policy.Bosses.Choices.{
  BossPreviewRequest, Preview, BossEntryState, EquipmentSlot, BossState, BossPolicy, BossSelection,
  Candidate, better, eligible, requests, shortlist_of, affixes_of, selection, is_normal, offers,
  is_open,
}
use placegame_mcp.Policy.Bosses.{
  preview_all, try_affixes, search, for_entry, try_difficulties, try_entries,
}
use placegame_mcp.Policy.Bosses.Previewed.{
  Good, IsFinal, requests-All, preview_all-Good, try_affixes-IsFinal,
}

-- The game gave the preview of the selection for the challenge of the selection, up to the material
-- boost, and the preview satisfies the policy. The boss is an entry of the game that is not blocked and
-- offers the difficulty; the boost is used only above the normal difficulty and the reserve.
pub record Backed (boss_preview : BossPreviewRequest → Result Preview) (P : BossEntryState → Type 0)
    (slot : EquipmentSlot) (state : BossState) (policy : BossPolicy) (s : BossSelection)
    : Type 0 where
  pub request : BossPreviewRequest
  pub entry : BossEntryState
  pub asked : boss_preview request ≡ ok s.preview
  pub same_boss : request.boss_key ≡ s.action.boss_key
  pub same_difficulty : request.difficulty ≡ s.action.difficulty
  pub same_skills : request.selected_skill_keys ≡ s.action.selected_skill_keys
  pub same_buff : request.buff_key ≡ s.action.buff_key
  pub same_affix : request.affix_key ≡ s.action.affix_key
  pub same_slot : request.target_slot ≡ s.action.target_slot
  pub in_slot : s.action.target_slot ≡ slot.key
  pub wins : s.preview.predicted_win ≡ true
  pub likely : policy.boss_min_chance * 1000 ≤ s.preview.chance
  pub known : P entry
  pub opened : is_open entry ≡ true
  pub offered : offers entry s.action.difficulty ≡ true
  pub of_entry : s.action.boss_key ≡ entry.key
  pub boost :
      s.action.use_material_boost ≡ true
      → (is_normal s.action.difficulty ≡ false) × (policy.material_reserve < state.material_balance)

module _ (boss_preview : BossPreviewRequest → Result Preview) (P : BossEntryState → Type 0)
    (slot : EquipmentSlot) (state : BossState) (policy : BossPolicy) where
  abbrev IsBacked : Option BossSelection → Type 0
  IsBacked o = (s : BossSelection) → o ≡ some s → Backed boss_preview P slot state policy s

  selection-Backed :
      (entry : BossEntryState) (d : Difficulty) (c : Candidate)
      → P entry
      → is_open entry ≡ true
      → offers entry d ≡ true
      → Good boss_preview entry d slot c
      → eligible policy c.preview ≡ true
      → Backed boss_preview P slot state policy (selection state policy entry d slot c)
  unfolding eligible
  selection-Backed entry d c p open_entry offer g good = record {
    request = c.request;
    entry = entry;
    asked = g.asked;
    same_boss = g.about.boss;
    same_difficulty = g.about.level;
    same_skills = refl;
    same_buff = refl;
    same_affix = refl;
    same_slot = g.about.place;
    in_slot = refl;
    wins = ground (arith, good);
    likely = ground (arith, good);
    known = p;
    opened = open_entry;
    offered = offer;
    of_entry = refl;
    boost = λ b. ground (arith, b);
  }

  search-Backed :
      (entry : BossEntryState) (d : Difficulty) (baseline : List Candidate)
      (o : Option BossSelection)
      → P entry
      → is_open entry ≡ true
      → offers entry d ≡ true
      → All (Good boss_preview entry d slot) baseline
      → search boss_preview entry d slot state policy baseline ≡ ok o
      → IsBacked o
  unfolding search
  search-Backed entry d baseline o p open_entry offer a =
      let short =
        take-All (Good boss_preview entry d slot) 3 (sort better baseline)
          (sort-All (Good boss_preview entry d slot) better baseline a) in
      let start : IsFinal boss_preview entry d slot policy
          (first (λ c. eligible policy c.preview) (shortlist_of baseline)) =
        λ c e. (
          All-first (Good boss_preview entry d slot) (λ c. eligible policy c.preview)
              (shortlist_of baseline) c short e,
          first-holds (λ c. eligible policy c.preview) (shortlist_of baseline) c e,
        ) in
      elim (Result-cases (
        try_affixes boss_preview policy (shortlist_of baseline) (affixes_of state) 0
          (first (λ c. eligible policy c.preview) (shortlist_of baseline)))) [
            | inr (e, x) ↦ rw (x, search) (λ h. absurd (ground arith))
            | inl ((n, none), x) ↦ rw (x, search) (λ h s e. absurd (ground arith))
            | inl ((n, some c), x) ↦
                let (fin, few) =
                  try_affixes-IsFinal boss_preview entry d slot policy (shortlist_of baseline)
                    (affixes_of state) 0 n
                    (first (λ c. eligible policy c.preview) (shortlist_of baseline)) (some c) short
                    start (omega arith) x in
                let (g, good) = fin c refl in
                rw (x, search)
                  (λ h s e.
                    subst (Backed boss_preview P slot state policy)
                      (same (selection state policy entry d slot c) s o h e)
                      (selection-Backed entry d c p open_entry offer g good))
          ]
    where
      same :
          (x y : BossSelection) (o : Option BossSelection) → ok (some x) ≡ ok o → o ≡ some y → x ≡ y
      same x y o h e = cc

  for_entry-Backed :
      (entry : BossEntryState) (d : Difficulty) (o : Option BossSelection)
      → P entry
      → is_open entry ≡ true
      → offers entry d ≡ true
      → for_entry boss_preview entry d slot state policy ≡ ok o
      → IsBacked o
  unfolding for_entry
  for_entry-Backed entry d o p open_entry offer =
      elim (Result-cases (preview_all boss_preview (requests entry d slot))) [
        | inr (e, x) ↦ rw (x, for_entry) (λ h. absurd (ground arith))
        | inl (cs, x) ↦
            rw (x, for_entry)
              (search-Backed entry d cs o p open_entry offer (
                preview_all-Good boss_preview entry d slot (requests entry d slot) cs
                  (requests-All boss_preview entry d slot) x))
      ]

  kept :
      (s : BossSelection) (o : Option BossSelection)
      → IsBacked (some s)
      → ok (some s) ≡ ok o
      → IsBacked o
  kept s o b h = subst IsBacked (ground arith) b

  try_difficulties-Backed :
      (entry : BossEntryState) (ds : List Difficulty) (o : Option BossSelection)
      → P entry
      → is_open entry ≡ true
      → try_difficulties boss_preview entry slot state policy ds ≡ ok o
      → IsBacked o
  unfolding try_difficulties
  try_difficulties-Backed entry [] o p open_entry = λ h s e. absurd (ground arith)
  try_difficulties-Backed entry (d ∷ ds) o p open_entry = elim (Bool-cases (offers entry d)) [
    | inr other ↦ rw other (try_difficulties-Backed entry ds o p open_entry)
    | inl offer ↦ elim (Result-cases (for_entry boss_preview entry d slot state policy)) [
      | inr (e, x) ↦ rw (offer, x) (λ h. absurd (ground arith))
      | inl (none, x) ↦ rw (offer, x) (try_difficulties-Backed entry ds o p open_entry)
      | inl (some s, x) ↦
          rw (offer, x) (kept s o (for_entry-Backed entry d (some s) p open_entry offer x))
    ]
  ]

  pub try_entries-Backed :
      (es : List BossEntryState) (o : Option BossSelection)
      → All P es
      → try_entries boss_preview slot state policy es ≡ ok o
      → IsBacked o
  unfolding try_entries
  try_entries-Backed [] o a = λ h s e. absurd (ground arith)
  try_entries-Backed (x ∷ es) o (p, a) = elim (Bool-cases (is_open x)) [
    | inr shut ↦ rw shut (try_entries-Backed es o a)
    | inl open_entry ↦
        elim (Result-cases
          (try_difficulties boss_preview x slot state policy (nightmare ∷ hard ∷ normal ∷ []))) [
            | inr (e, y) ↦ rw (open_entry, y) (λ h. absurd (ground arith))
            | inl (none, y) ↦ rw (open_entry, y) (try_entries-Backed es o a)
            | inl (some s, y) ↦
                rw (open_entry, y)
                  (kept s o (
                    try_difficulties-Backed x (nightmare ∷ hard ∷ normal ∷ []) (some s) p open_entry
                      y))
          ]
  ]
