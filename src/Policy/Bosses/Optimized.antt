-- ===== src/Policy/Bosses/Optimized.antt =====
-- The optimizer's answer: the slot, the boss and the preview behind it.
use placegame_mcp.Errors.{Result, ok, Result-cases}
use placegame_mcp.Prelude.{
  ◌≡◌, ◌⊎◌, refl, subst, arith, Bool, true, none, some, List, [], ◌∷◌, any, keep, All, Bool-cases,
  Option-cases, inl, inr,
}
use placegame_mcp.Text.{Text}
use placegame_mcp.Policy.Bosses.Sorting.{sort-All, sort}
use placegame_mcp.Policy.Bosses.Choices.{
  BossPreviewRequest, Preview, EquipmentSlot, BossState, BossPolicy, BossSelection, entry_before,
  switch_required, head, target_slot, slot_before,
}
use placegame_mcp.Policy.Bosses.{try_entries, optimize}
use placegame_mcp.Policy.Bosses.Previewed.Selected.{Backed, try_entries-Backed}

-- The element is in the list: each test that it passes is passed in the list.
abbrev pub IsIn {ℓ} : {A : Type ℓ} → List A → A → Type ℓ
IsIn {A = A} xs x = (q : A → Bool) → q x ≡ true → any q xs ≡ true

All-weaken {ℓ κ μ} :
    {A : Type ℓ} (P : A → Type κ) (Q : A → Type μ) (xs : List A)
    → ((x : A) → P x → Q x)
    → All P xs
    → All Q xs
All-weaken P Q [] f a = tt
All-weaken P Q (x ∷ xs) f (p, a) = (f x p, All-weaken P Q xs f a)

All-IsIn {ℓ} : {A : Type ℓ} (xs : List A) → All (IsIn xs) xs
All-IsIn [] = tt
All-IsIn (x ∷ xs) = (
  λ q e. ground (arith, e),
  All-weaken (IsIn xs) (IsIn (x ∷ xs)) xs (λ y i q e. ground (arith, i q e)) (All-IsIn xs),
)

keep-All {ℓ κ} :
    {A : Type ℓ} (P : A → Type κ) (p : A → Bool) (xs : List A)
    → All P xs
    → All (λ x. P x × (p x ≡ true)) (keep p xs)
keep-All P p [] a = tt
keep-All P p (x ∷ xs) (h, a) = elim (Bool-cases (p x)) [
  | inl e ↦ rw e ((h, e), keep-All P p xs a)
  | inr e ↦ rw e (keep-All P p xs a)
]

head-All {κ} :
    {A : Type 0} (P : A → Type κ) (xs : List A) (x : A) → All P xs → head xs ≡ some x → P x
head-All P [] x a h = absurd (ground arith)
head-All P (y ∷ ys) x (p, a) h = subst P (ground arith) p

-- The slot is one of the eligible slots.
target_slot-IsIn :
    (slots : List EquipmentSlot) (slot : EquipmentSlot)
    → target_slot slots ≡ some slot
    → IsIn slots slot × (slot.eligible ≡ true)
unfolding target_slot
target_slot-IsIn slots slot h =
    let P : EquipmentSlot → Type 0 = λ x. IsIn slots x × (x.eligible ≡ true) in
    let kept : List EquipmentSlot = keep (λ x. x.eligible) slots in
    head-All P (sort slot_before kept) slot
      (sort-All P slot_before kept (keep-All (IsIn slots) (λ x. x.eligible) slots (All-IsIn slots)))
      h

-- Every selection of the optimizer is backed by the game: the game gave its preview for its challenge,
-- up to the material boost; the preview is a win, with the chance that the policy wants; the boss is
-- an entry of the game that is not blocked and offers the difficulty; the slot is an eligible one of
-- the account; and the material boost is used only above the normal difficulty and the reserve of the
-- policy.
pub optimize-Backed :
    (boss_preview : BossPreviewRequest → Result Preview) (state : BossState) (policy : BossPolicy)
    (s : BossSelection)
    → optimize boss_preview state policy ≡ ok (inl s)
    → (slot : EquipmentSlot) × IsIn state.equipment slot
      × (slot.eligible ≡ true)
      × Backed boss_preview (IsIn state.entries) slot state policy s
unfolding optimize
optimize-Backed boss_preview state policy s = elim (Bool-cases (switch_required state)) [
  | inl switch ↦ rw (switch, optimize) (λ h. absurd (ground arith))
  | inr plain ↦ elim (Option-cases (target_slot state.equipment)) [
    | inl e ↦ rw (plain, e, optimize) (λ h. absurd (ground arith))
    | inr (slot, e) ↦
        let (there, good) = target_slot-IsIn state.equipment slot e in
        elim (Result-cases
          (try_entries boss_preview slot state policy (sort entry_before state.entries))) [
            | inr (x, f) ↦ rw (plain, e, f, optimize) (λ h. absurd (ground arith))
            | inl (none, f) ↦ rw (plain, e, f, optimize) (λ h. absurd (ground arith))
            | inl (some t, f) ↦
                let backed =
                  try_entries-Backed boss_preview (IsIn state.entries) slot state policy
                    (sort entry_before state.entries) (some t)
                    (sort-All (IsIn state.entries) entry_before state.entries
                      (All-IsIn state.entries))
                    f t refl in
                rw (plain, e, f, optimize)
                  (λ h. (
                    slot,
                    there,
                    good,
                    subst (Backed boss_preview (IsIn state.entries) slot state policy) (same t s h)
                        backed,
                  ))
          ]
  ]
]
  where
    left : BossSelection → Result (BossSelection ⊎ Text)
    left x = ok (inl x)

    same : (x y : BossSelection) → left x ≡ left y → x ≡ y
    same x y h = cc
