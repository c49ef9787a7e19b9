-- ===== src/Policy/Versions/History.antt =====
-- No update of a policy is lost, along any history of saves.
use placegame_mcp.Errors.{ok}
use placegame_mcp.Prelude.{
  ℕ, ◌+◌, ◌≤◌, ◌<◌, ◌≡◌, ◌≢◌, sym, subst, ◌∙◌, arith, some, List, [], ◌∷◌, ◌==◌, Bool-cases, inl,
  inr,
}
use placegame_mcp.Text.{Actor}
use placegame_mcp.Policy.Versions.{AccountPolicy, VersionedPolicy, Tables, current, written, save}
use placegame_mcp.Policy.Versions.Updates.{save_cases, current_hit, current_miss, account_of}

-- One call of `save`, by anyone.
pub record Save : Type 0 where
  pub account_id : ℕ
  pub policy : AccountPolicy
  pub expected_version : ℕ
  pub actor : Actor

unfoldable pub saves : List Save → Tables → Tables
saves [] s = s
saves (c ∷ cs) s = saves cs (save c.account_id c.policy c.expected_version c.actor s).0

-- The policy of the account is in a later version.
abbrev Later : ℕ → ℕ → Tables → Type 0
Later i n s = (v : VersionedPolicy) × (current i s ≡ some v) × (n < v.version)

save-Later :
    (i n : ℕ) (c : Save) (s : Tables)
    → Later i n s
    → Later i n (save c.account_id c.policy c.expected_version c.actor s).0
save-Later i n c s (v, at_i, late) =
    save_cases (λ out. Later i n out.0) c.account_id c.policy c.expected_version c.actor s
      (λ e t same. (v, same i ∙ at_i, late))
      (λ old had was. elim (Bool-cases (i == c.account_id)) [
        | inr other ↦ (
          v,
          current_miss c.account_id i (c.expected_version + 1) c.policy c.actor s (ground arith)
              ∙ at_i,
          late,
        )
        | inl here ↦
            let hit : i ≡ c.account_id = ground arith in
            let (a, found) = account_of c.account_id s old had in
            let both : current c.account_id s ≡ some v =
              subst (λ k. current k s ≡ some v) hit at_i in
            (
              record { version = c.expected_version + 1; policy = c.policy },
              subst
                  (λ k.
                    current k (written c.account_id c.policy (c.expected_version + 1) c.actor s)
                    ≡ some (record { version = c.expected_version + 1; policy = c.policy }))
                  (sym hit)
                  (current_hit c.account_id c.expected_version c.policy c.actor s a found),
              ground (arith, late, both, had, was),
            )
      ])

saves-Later : (i n : ℕ) (cs : List Save) (s : Tables) → Later i n s → Later i n (saves cs s)
unfolding saves
saves-Later i n [] s h = h
saves-Later i n (c ∷ cs) s h =
    saves-Later i n cs (save c.account_id c.policy c.expected_version c.actor s).0
      (save-Later i n c s h)

-- No update is lost: once a save that expected a version has succeeded, no save of the same account
-- that expects this version or an earlier one succeeds, whatever saves come between.
pub stale_save_refused :
    (i n m : ℕ) (p q : AccountPolicy) (actor other : Actor) (cs : List Save) (s : Tables)
    (v : VersionedPolicy)
    → (save i p n actor s).1 ≡ ok v
    → m ≤ n
    → (w : VersionedPolicy) → (save i q m other (saves cs (save i p n actor s).0)).1 ≢ ok w
stale_save_refused i n m p q actor other cs s v won older w =
    let mid = saves cs (save i p n actor s).0 in
    let start : Later i n (save i p n actor s).0 =
      save_cases (λ out. out.1 ≡ ok v → Later i n out.0) i p n actor s
        (λ e t same h. absurd (ground arith))
        (λ old had was h.
          let (a, found) = account_of i s old had in
          (record { version = n + 1; policy = p }, current_hit i n p actor s a found, omega arith))
        won in
    let (x, there, late) = saves-Later i n cs (save i p n actor s).0 start in
    save_cases (λ out. out.1 ≢ ok w) i q m other mid (λ e t same h. absurd (ground arith))
      (λ old had was h. absurd (ground (arith, late, there, had, was, older)))
