-- ===== src/Policy/Versions/Tests.antt =====
-- Two writers of one policy.
use placegame_mcp.Errors.{ok, raised, Error}
use placegame_mcp.Prelude.{◌≡◌, ◌≢◌, ℕ, refl, arith, List, [], ◌∷◌, true}
use placegame_mcp.Text.{Actor, codes}
use placegame_mcp.Policy.Versions.{
  AccountPolicy, VersionedPolicy, Tables, default_policy, get, save, versioned,
}
use placegame_mcp.Policy.Versions.Updates.{save-get}
use placegame_mcp.Policy.Versions.History.{stale_save_refused, Save, saves}

abbrev operator : Actor
operator = record { kind = codes "admin"; actor_id = codes "owner" }

abbrev tables : Tables
tables = record { accounts = record { id = 7; policy_version = 1 } ∷ []; policies = []; audit = [] }

abbrev strict : AccountPolicy
strict = record default_policy { boss_min_chance = 95 }

abbrev saved : VersionedPolicy
saved = record { version = 2; policy = strict }

saves_policy : (save 7 strict 1 operator tables).1 ≡ ok saved
unfolding save versioned
saves_policy = refl

save-get_example :
    ((v : VersionedPolicy)
      → (save 7 strict 1 operator tables).1 ≡ ok v
      → ((old : VersionedPolicy) × (get 7 true tables ≡ ok old) × (old.version ≡ 1))
        × (get 7 true (save 7 strict 1 operator tables).0 ≡ ok v)
        × (v ≡ record { version = 2; policy = strict }))
    × ((e : Error)
        → (save 7 strict 1 operator tables).1 ≡ raised e
        → (j : ℕ) → get j true (save 7 strict 1 operator tables).0 ≡ get j true tables)
    × ((j : ℕ) → j ≢ 7 → get j true (save 7 strict 1 operator tables).0 ≡ get j true tables)
save-get_example = save-get 7 strict 1 operator tables

abbrev next : List Save
next =
    record { account_id = 7; policy = default_policy; expected_version = 2; actor = operator } ∷ []

stale_save_refused_example :
    ◌≢◌
      (save 7 default_policy 1 operator (saves next (save 7 strict 1 operator tables).0)).1
      (ok saved)
stale_save_refused_example =
    stale_save_refused 7 1 1 strict default_policy operator operator next tables saved saves_policy
      (omega arith) saved
