-- ===== src/Policy/Bosses/Answered.antt =====
-- The optimizer (boss_optimizer.py), where the game answers every preview.
use placegame_mcp.Errors.{Result, ok, raised, ◌>>=◌}
use placegame_mcp.Prelude.{
  ℕ, ◌+◌, ◌≡◌, refl, true, Option, none, some, List, [], ◌∷◌, leb, first, ◌⊎◌, inl, inr,
  if◌then◌else◌,
}
use placegame_mcp.Text.{Text, codes}
use placegame_mcp.Plans.Rows.{personal_boss, Difficulty, normal, hard, nightmare, is_reason}
use placegame_mcp.Policy.Fitting.{either}
use placegame_mcp.Policy.Bosses.Choices.{
  BossPreviewRequest, Preview, BossEntryState, EquipmentSlot, BossAffix, BossState, BossPolicy,
  BossSelection, Candidate, affixes_of, eligible, entry_before, has_affix, is_open, offers,
  requests, selection, shortlist_of, switch_required, target_slot, with_affix,
}
use placegame_mcp.Policy.Bosses.Sorting.{sort}
use placegame_mcp.Policy.Bosses.{
  preview_all, try_affix, try_affixes, search, for_entry, try_difficulties, try_entries, optimize,
}

-- The call returns, with a value that satisfies the predicate.
abbrev pub Returns : {A : Type 0} → (A → Type 0) → Result A → Type 0
Returns P (ok a) = P a
Returns P (raised e) = ⊥

pub Returns-bind :
    {A B : Type 0} (P : A → Type 0) (Q : B → Type 0) (m : Result A) (f : A → Result B)
    → Returns P m
    → ((a : A) → P a → Returns Q (f a))
    → Returns Q (m >>= f)
Returns-bind P Q (ok a) f h k = k a h
Returns-bind P Q (raised e) f h k = absurd h

abbrev Anything : {A : Type 0} → A → Type 0
Anything a = Unit

abbrev IsPersonal : Option BossSelection → Type 0
IsPersonal none = Unit
IsPersonal (some s) = s.action.family ≡ personal_boss

-- A selection has an action of the family, and the reason of a blocked decision has the right form.
abbrev pub IsAnswer : BossSelection ⊎ Text → Type 0
IsAnswer (inl s) = s.action.family ≡ personal_boss
IsAnswer (inr reason) = is_reason reason ≡ true

-- A search goes on where nothing was found.
found-Returns :
    (found : Option BossSelection) (rest : Result (Option BossSelection))
    → IsPersonal found
    → Returns IsPersonal rest
    → Returns IsPersonal (elim found [ none ↦ rest | some s ↦ ok (some s) ])
found-Returns none rest p r = r
found-Returns (some s) rest p r = p

module _ (answers : BossPreviewRequest → Preview) where
  abbrev pub answered : BossPreviewRequest → Result Preview
  answered r = ok (answers r)

  preview_all-Returns : (rs : List BossPreviewRequest) → Returns Anything (preview_all answered rs)
  unfolding preview_all
  preview_all-Returns [] = tt
  preview_all-Returns (r ∷ rs) =
      Returns-bind Anything Anything (preview_all answered rs)
        (λ cs. ok (record { request = r; preview = answers r } ∷ cs)) (preview_all-Returns rs)
        (λ cs h. tt)

  try_affix-Returns :
      (policy : BossPolicy) (a : BossAffix) (cs : List Candidate) (n : ℕ) (final : Option Candidate)
      → Returns Anything (try_affix answered policy a cs n final)
  unfolding try_affix
  try_affix-Returns policy a [] n final = tt
  try_affix-Returns policy a (c ∷ cs) n final = either (Returns Anything) (leb 12 n) _ _ tt (
      either (Returns Anything) (eligible policy (answers (with_affix a c.request))) _ _ tt
        (try_affix-Returns policy a cs (n + 1) final))

  try_affixes-Returns :
      (policy : BossPolicy) (shortlist : List Candidate) (more : List BossAffix) (n : ℕ)
      (final : Option Candidate)
      → Returns Anything (try_affixes answered policy shortlist more n final)
  unfolding try_affixes
  try_affixes-Returns policy shortlist [] n final = tt
  try_affixes-Returns policy shortlist (a ∷ more) n final =
      Returns-bind Anything Anything (try_affix answered policy a shortlist n final)
        (λ (m, found).
          if has_affix a found
          then ok (m, found)
          else try_affixes answered policy shortlist more m found)
        (try_affix-Returns policy a shortlist n final)
        (λ (m, found) h.
          either (Returns Anything) (has_affix a found) _ _ tt
            (try_affixes-Returns policy shortlist more m found))

  module _ (slot : EquipmentSlot) (state : BossState) (policy : BossPolicy) where
    selected-IsPersonal :
        (entry : BossEntryState) (d : Difficulty) (final : Option Candidate)
        → IsPersonal
            (elim final [ none ↦ none | some c ↦ some (selection state policy entry d slot c) ])
    selected-IsPersonal entry d none = tt
    selected-IsPersonal entry d (some c) = refl

    search-Returns :
        (entry : BossEntryState) (d : Difficulty) (baseline : List Candidate)
        → Returns IsPersonal (search answered entry d slot state policy baseline)
    unfolding search
    search-Returns entry d baseline =
        let shortlist = shortlist_of baseline in
        let start = first (λ c. eligible policy c.preview) shortlist in
        Returns-bind Anything IsPersonal
          (try_affixes answered policy shortlist (affixes_of state) 0 start)
          (λ (n, final).
            ok (elim final [ none ↦ none | some c ↦ some (selection state policy entry d slot c) ]))
          (try_affixes-Returns policy shortlist (affixes_of state) 0 start)
          (λ (n, final) h. selected-IsPersonal entry d final)

    for_entry-Returns :
        (entry : BossEntryState) (d : Difficulty)
        → Returns IsPersonal (for_entry answered entry d slot state policy)
    unfolding for_entry
    for_entry-Returns entry d =
        Returns-bind Anything IsPersonal (preview_all answered (requests entry d slot))
          (search answered entry d slot state policy) (preview_all-Returns (requests entry d slot))
          (λ baseline h. search-Returns entry d baseline)

    try_difficulties-Returns :
        (entry : BossEntryState) (ds : List Difficulty)
        → Returns IsPersonal (try_difficulties answered entry slot state policy ds)
    unfolding try_difficulties
    try_difficulties-Returns entry [] = tt
    try_difficulties-Returns entry (d ∷ ds) =
        let more = try_difficulties-Returns entry ds in
        let rest = try_difficulties answered entry slot state policy ds in
        either (Returns IsPersonal) (offers entry d) _ _
          (Returns-bind IsPersonal IsPersonal (for_entry answered entry d slot state policy)
            (λ found. elim found [ none ↦ rest | some s ↦ ok (some s) ]) (for_entry-Returns entry d)
            (λ found p. found-Returns found rest p more))
          more

    try_entries-Returns :
        (es : List BossEntryState) → Returns IsPersonal (try_entries answered slot state policy es)
    unfolding try_entries
    try_entries-Returns [] = tt
    try_entries-Returns (e ∷ es) =
        let more = try_entries-Returns es in
        let rest = try_entries answered slot state policy es in
        let ds : List Difficulty = nightmare ∷ hard ∷ normal ∷ [] in
        either (Returns IsPersonal) (is_open e) _ _
          (Returns-bind IsPersonal IsPersonal (try_difficulties answered e slot state policy ds)
            (λ found. elim found [ none ↦ rest | some s ↦ ok (some s) ])
            (try_difficulties-Returns e ds) (λ found p. found-Returns found rest p more))
          more

  found-IsAnswer :
      (found : Option BossSelection)
      → IsPersonal found
      → Returns IsAnswer
          (elim found [ none ↦ ok (inr (codes "no_eligible_boss")) | some s ↦ ok (inl s) ])
  unfolding is_reason
  found-IsAnswer none p = refl
  found-IsAnswer (some s) p = p

  slot-Returns :
      (state : BossState) (policy : BossPolicy) (slot : Option EquipmentSlot)
      → Returns IsAnswer (elim slot [
        | none ↦ ok (inr (codes "no_eligible_equipment"))
        | some slot ↦
            try_entries answered slot state policy (sort entry_before state.entries) >>= λ found.
            elim found [ none ↦ ok (inr (codes "no_eligible_boss")) | some s ↦ ok (inl s) ]
      ])
  unfolding is_reason
  slot-Returns state policy none = refl
  slot-Returns state policy (some slot) =
      let es = sort entry_before state.entries in
      Returns-bind IsPersonal IsAnswer (try_entries answered slot state policy es)
        (λ found. elim found [ none ↦ ok (inr (codes "no_eligible_boss")) | some s ↦ ok (inl s) ])
        (try_entries-Returns slot state policy es) found-IsAnswer

  pub optimize-Returns :
      (state : BossState) (policy : BossPolicy) → Returns IsAnswer (optimize answered state policy)
  unfolding optimize is_reason
  optimize-Returns state policy =
      either (Returns IsAnswer) (switch_required state) _ _ refl
        (slot-Returns state policy (target_slot state.equipment))
