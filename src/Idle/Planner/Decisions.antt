-- ===== src/Idle/Planner/Decisions.antt =====
-- The decision, and the plan that is drafted for it.
use placegame_mcp.Prelude.{
  ℕ, ◌≤◌, ◌≡◌, ◌⊎◌, refl, arith, true, false, ◌||◌, none, some, ◌++◌, length, Bool-cases,
  Option-cases, inl, inr,
}
use placegame_mcp.Text.{Text, codes, every, in_range}
use placegame_mcp.Plans.Rows.{is_fingerprint}
use placegame_mcp.Plans.Canonical.{Json}
use placegame_mcp.Plans.Store.{draft_valid}
use placegame_mcp.Idle.Planner.{
  IdleSummary, IdlePolicy, collects, fingerprint, collect_draft, draft,
}

abbrev pub IsDigest : Text → Type 0
IsDigest s = (length s ≡ 64) × (every (λ c. in_range 48 57 c || in_range 97 102 c) s ≡ true)

module _ (sha256_of : Json → Text) where
  -- The projection has a canonical form: no TypeError.
  pub fingerprint_total :
      (idle : IdleSummary) (policy : IdlePolicy)
      → (j : Json) × (fingerprint sha256_of idle policy ≡ some (codes "pgfp:v1:" ++ sha256_of j))
  unfolding fingerprint
  fingerprint_total idle policy = elim (Option-cases idle.capacity_seconds) [
    | inl e ↦ rw (e, fingerprint) (_, refl)
    | inr (n, e) ↦ rw (e, fingerprint) (_, refl)
  ]

  -- A plan is drafted exactly when the seconds that the game reports have reached the threshold.
  pub draft_cases :
      (account_id now : ℕ) (idle : IdleSummary) (policy : IdlePolicy)
      → ((collects idle policy ≡ false) × (draft sha256_of account_id idle policy now ≡ none))
        ⊎ ((collects idle policy ≡ true)
            × ((f : Text) × (fingerprint sha256_of idle policy ≡ some f)
                × (draft sha256_of account_id idle policy now
                    ≡ some (collect_draft sha256_of account_id f policy now))))
  unfolding draft
  draft_cases account_id now idle policy = elim (Bool-cases (collects idle policy)) [
    | inr miss ↦ inl (miss, rw (miss, draft) refl)
    | inl hit ↦
        let (j, e) = fingerprint_total idle policy in
        inr (hit, (codes "pgfp:v1:" ++ sha256_of j, e, rw (hit, e, draft) refl))
  ]

  pub prefix_digest : (s : Text) → IsDigest s → is_fingerprint (codes "pgfp:v1:" ++ s) ≡ true
  unfolding is_fingerprint
  prefix_digest s d = ground (arith, d.0, d.1)

  pub collect_draft_valid :
      (account_id now : ℕ) (policy : IdlePolicy) (s : Text)
      → IsDigest s
      → 1 ≤ policy.version
      → draft_valid (collect_draft sha256_of account_id (codes "pgfp:v1:" ++ s) policy now) ≡ true
  unfolding draft_valid
  collect_draft_valid account_id now policy s d v =
      let ok_print = prefix_digest s d in rw (draft_valid, ok_print) (ground (arith, v))
