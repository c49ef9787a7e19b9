-- ===== src/Policy/Bosses/Previewed.antt =====
-- What a selection of the optimizer was previewed as.
pub mod Selected
use placegame_mcp.Errors.{Error, Result, ok, raised, ◌>>=◌, Result-cases}
use placegame_mcp.Prelude.{
  ℕ, ◌+◌, ◌*◌, ◌≤◌, ◌≡◌, refl, subst, arith, Bool, true, false, ◌&&◌, not, Option, none, some, List,
  [], ◌∷◌, leb, first, first-holds, All, All-first, Bool-cases, Option-cases, inl, inr,
  if◌then◌else◌,
}
use placegame_mcp.Plans.Rows.{Difficulty}
use placegame_mcp.Policy.Bosses.Sorting.{sort-All, take-All, sort, take}
use placegame_mcp.Policy.Bosses.Choices.{
  BossPreviewRequest, Preview, BossEntryState, EquipmentSlot, BossAffix, BossPolicy, Candidate,
  better, eligible, requests, with_affix, has_affix, shortlist_of,
}
use placegame_mcp.Policy.Bosses.{preview_all, try_affix, try_affixes}

-- A request for one boss, difficulty and slot.
pub record IsFor (entry : BossEntryState) (difficulty : Difficulty) (slot : EquipmentSlot)
    (r : BossPreviewRequest) : Type 0 where
  pub boss : r.boss_key ≡ entry.key
  pub level : r.difficulty ≡ difficulty
  pub place : r.target_slot ≡ slot.key

module _ (boss_preview : BossPreviewRequest → Result Preview) (entry : BossEntryState)
    (difficulty : Difficulty) (slot : EquipmentSlot) where
  -- The game gave this preview for this request.
  pub record Good (c : Candidate) : Type 0 where
    pub asked : boss_preview c.request ≡ ok c.preview
    pub about : IsFor entry difficulty slot c.request

  pub requests-All : All (IsFor entry difficulty slot) (requests entry difficulty slot)
  unfolding requests
  requests-All = (
    record { boss = refl; level = refl; place = refl },
    (
      record { boss = refl; level = refl; place = refl },
      (
        record { boss = refl; level = refl; place = refl },
        (
          record { boss = refl; level = refl; place = refl },
          (
            record { boss = refl; level = refl; place = refl },
            (
              record { boss = refl; level = refl; place = refl },
              (
                record { boss = refl; level = refl; place = refl },
                (
                  record { boss = refl; level = refl; place = refl },
                  (
                    record { boss = refl; level = refl; place = refl },
                    (
                      record { boss = refl; level = refl; place = refl },
                      (
                        record { boss = refl; level = refl; place = refl },
                        (record { boss = refl; level = refl; place = refl }, tt),
                      ),
                    ),
                  ),
                ),
              ),
            ),
          ),
        ),
      ),
    ),
  )

  pub preview_all-Good :
      (rs : List BossPreviewRequest) (cs : List Candidate)
      → All (IsFor entry difficulty slot) rs
      → preview_all boss_preview rs ≡ ok cs
      → All Good cs
  unfolding preview_all
  preview_all-Good [] cs a = λ h. subst (All Good) (unok h) tt
    where
      unok : {x y : List Candidate} → ok x ≡ ok y → x ≡ y
      unok h = cc
  preview_all-Good (r ∷ rs) cs (p, a) = elim (Result-cases (boss_preview r)) [
    | inr (e, x) ↦ rw x (λ h. absurd (ground arith))
    | inl (v, x) ↦ elim (Result-cases (preview_all boss_preview rs)) [
      | inr (e, y) ↦ rw (x, y) (λ h. absurd (ground arith))
      | inl (ds, y) ↦
          rw (x, y)
            (λ h.
              subst (All Good) (unok h)
                (record { asked = x; about = p }, preview_all-Good rs ds a y))
    ]
  ]
    where
      unok : {x y : List Candidate} → ok x ≡ ok y → x ≡ y
      unok h = cc

  module _ (policy : BossPolicy) where
    -- The candidate that is kept is good, and eligible.
    abbrev pub IsFinal : Option Candidate → Type 0
    IsFinal o = (c : Candidate) → o ≡ some c → Good c × (eligible policy c.preview ≡ true)

    affix-Good :
        (affix : BossAffix) (c : Candidate) (p : Preview)
        → Good c
        → boss_preview (with_affix affix c.request) ≡ ok p
        → Good (record { request = with_affix affix c.request; preview = p })
    affix-Good affix c p g e = record {
      asked = e;
      about = record { boss = g.about.boss; level = g.about.level; place = g.about.place };
    }

    pub try_affix-IsFinal :
        (affix : BossAffix) (cs : List Candidate) (n m : ℕ) (final found : Option Candidate)
        → All Good cs
        → IsFinal final
        → n ≤ 12
        → try_affix boss_preview policy affix cs n final ≡ ok (m, found)
        → IsFinal found × (m ≤ 12)
    unfolding try_affix
    try_affix-IsFinal affix [] n m final found a f b =
        λ h. (subst IsFinal (ground arith) f, ground arith)
    try_affix-IsFinal affix (c ∷ cs) n m final found (g, a) f b = elim (Bool-cases (leb 12 n)) [
      | inl done ↦ rw done (λ h. (subst IsFinal (ground arith) f, ground arith))
      | inr room ↦ elim (Result-cases (boss_preview (with_affix affix c.request))) [
        | inr (e, x) ↦ rw (room, x) (λ h. absurd (ground arith))
        | inl (p, x) ↦ elim (Bool-cases (eligible policy p)) [
          | inl good ↦
              let new : Candidate = record { request = with_affix affix c.request; preview = p } in
              let fresh : IsFinal (some new) = λ d e.
                subst (λ z. Good z × (eligible policy z.preview ≡ true)) (same new d e)
                  (affix-Good affix c p g x, good) in
              rw (room, x, good) (λ h. (subst IsFinal (ground arith) fresh, ground arith))
          | inr bad ↦
              rw (room, x, bad)
                (try_affix-IsFinal affix cs (n + 1) m final found a f (ground arith))
        ]
      ]
    ]
      where
        same : (x y : Candidate) → some x ≡ some y → x ≡ y
        same x y h = cc

    -- At most twelve previews are asked for affixes.
    pub try_affixes-IsFinal :
        (cs : List Candidate) (affixes : List BossAffix) (n m : ℕ) (final found : Option Candidate)
        → All Good cs
        → IsFinal final
        → n ≤ 12
        → try_affixes boss_preview policy cs affixes n final ≡ ok (m, found)
        → IsFinal found × (m ≤ 12)
    unfolding try_affixes
    try_affixes-IsFinal cs [] n m final found a f b =
        λ h. (subst IsFinal (ground arith) f, ground arith)
    try_affixes-IsFinal cs (x ∷ more) n m final found a f b =
        elim (Result-cases (try_affix boss_preview policy x cs n final)) [
          | inr (e, y) ↦ rw y (λ h. absurd (ground arith))
          | inl ((k, o), y) ↦
              let (g, l) = try_affix-IsFinal x cs n k final o a f b y in
              elim (Bool-cases (has_affix x o)) [
                | inl hit ↦ rw (y, hit) (λ h. (subst IsFinal (ground arith) g, ground arith))
                | inr miss ↦ rw (y, miss) (try_affixes-IsFinal cs more k m o found a g l)
              ]
        ]
