-- ===== src/Policy/Versions/Updates.antt =====
-- What one save does to the policies of all accounts.
use placegame_mcp.Errors
use placegame_mcp.Errors.{Error, Result, ok, raised}
use placegame_mcp.Prelude.{
  ℕ, ◌+◌, ◌≡◌, ◌≢◌, refl, ap, ◌∙◌, arith, true, Option, none, some, List, [], ◌∷◌, ◌==◌, first,
  update, Bool-cases, Option-cases, inl, inr,
}
use placegame_mcp.Text.{Actor}
use placegame_mcp.Policy.Versions.{
  AccountPolicy, VersionedPolicy, GameAccount, AccountPolicyRow, Tables, with_id, of_id, versioned,
  available, current, get, write_policy, written, conflicted, expected_here, save,
}

version_here :
    (n : ℕ) (a : GameAccount) (o : Option AccountPolicyRow) (v : VersionedPolicy)
    → versioned a o ≡ some v
    → expected_here n a o ≡ true
    → v.version ≡ n
unfolding versioned
version_here n a none v h e = ground arith
version_here n a (some r) v h e = elim (Option-cases r.policy) [
  | inl x ↦ absurd (ground (arith, x))
  | inr (p, x) ↦ ground (arith, x)
]

module _ {A : Type 0} (key : A → ℕ) (f : A → A) (kept : (x : A) → key (f x) ≡ key x) where
  update_hit :
      (i : ℕ) (xs : List A) (x : A)
      → first (λ y. key y == i) xs ≡ some x
      → first (λ y. key y == i) (update (λ y. key y == i) f xs) ≡ some (f x)
  update_hit i [] x h = absurd (ground arith)
  update_hit i (y ∷ ys) x h = elim (Bool-cases (key y == i)) [
    | inl e ↦ ground (arith, kept y)
    | inr e ↦ ground (arith, kept y, update_hit i ys x (ground arith))
  ]

  update_miss :
      (i j : ℕ) (xs : List A)
      → j ≢ i
      → first (λ y. key y == j) (update (λ y. key y == i) f xs) ≡ first (λ y. key y == j) xs
  update_miss i j [] n = refl
  update_miss i j (y ∷ ys) n = elim (Bool-cases (key y == i)) [
    | inl e ↦ ground (arith, kept y, update_miss i j ys n)
    | inr e ↦ ground (arith, update_miss i j ys n)
  ]

-- The ways in which `save` goes: refused with the policies unchanged, or written over the version
-- that was expected.
pub save_cases {ℓ} :
    (P : Tables × Result VersionedPolicy → Type ℓ) (i : ℕ) (p : AccountPolicy) (n : ℕ)
    (actor : Actor) (s : Tables)
    → ((e : Error) (t : Tables) → ((j : ℕ) → current j t ≡ current j s) → P (t, raised e))
    → ((v : VersionedPolicy)
        → current i s ≡ some v
        → v.version ≡ n
        → P (written i p (n + 1) actor s, ok (record { version = n + 1; policy = p })))
    → P (save i p n actor s)
unfolding save current
save_cases P i p n actor s refused saved = elim (Option-cases (first (with_id i) s.accounts)) [
  | inl e ↦ rw (e, save) (refused Errors.policy_unavailable s (λ j. refl))
  | inr (a, e) ↦ elim (Option-cases (versioned a (first (of_id i) s.policies))) [
    | inl f ↦ rw (e, f, save) (refused Errors.policy_unavailable s (λ j. refl))
    | inr (v, f) ↦ elim (Bool-cases (expected_here n a (first (of_id i) s.policies))) [
      | inr other ↦
          rw (e, f, other, save) (refused Errors.policy_conflict (conflicted i actor s) (λ j. refl))
      | inl here ↦
          rw (e, f, here, save)
            (saved v (rw (e, current) f) (version_here n a (first (of_id i) s.policies) v f here))
    ]
  ]
]

row_hit :
    (i m : ℕ) (p : AccountPolicy) (s : Tables)
    → (r : AccountPolicyRow) × (first
          (of_id i)
          (write_policy i p m (first (of_id i) s.policies) s.policies)
        ≡ some r)
      × (r.policy ≡ some p)
      × (r.policy_version ≡ m)
unfolding write_policy
row_hit i m p s = elim (Option-cases (first (of_id i) s.policies)) [
  | inl e ↦
      rw e
        (record { account_id = i; policy = some p; policy_version = m }, ground arith, refl, refl)
  | inr (r, e) ↦ rw e (
    record r { policy = some p; policy_version = m },
    update_hit (λ x. x.account_id) (λ x. record x { policy = some p; policy_version = m })
        (λ x. refl) i s.policies r e,
    refl,
    refl,
  )
]

versioned_written :
    (a : GameAccount) (r : AccountPolicyRow) (m : ℕ) (p : AccountPolicy)
    → r.policy ≡ some p
    → r.policy_version ≡ m + 1
    → versioned (record a { policy_version = m + 1 }) (some r)
      ≡ some (record { version = m + 1; policy = p })
unfolding versioned
versioned_written a r m p h e = ground (arith, h, e)

pub current_hit :
    (i n : ℕ) (p : AccountPolicy) (actor : Actor) (s : Tables) (a : GameAccount)
    → first (with_id i) s.accounts ≡ some a
    → current i (written i p (n + 1) actor s) ≡ some (record { version = n + 1; policy = p })
unfolding current
current_hit i n p actor s a found =
    let (r, row, x, y) = row_hit i (n + 1) p s in
    rw
      (
        update_hit (λ x. x.id) (λ x. record x { policy_version = n + 1 }) (λ x. refl) i s.accounts a
            found,
        row,
        current,
      )
      (versioned_written a r n p x y)

row_miss :
    (i j m : ℕ) (p : AccountPolicy) (s : Tables)
    → j ≢ i
    → first (of_id j) (write_policy i p m (first (of_id i) s.policies) s.policies)
      ≡ first (of_id j) s.policies
unfolding write_policy
row_miss i j m p s n = elim (Option-cases (first (of_id i) s.policies)) [
  | inl e ↦ rw e (ground arith)
  | inr (r, e) ↦ rw e (
      update_miss (λ x. x.account_id) (λ x. record x { policy = some p; policy_version = m })
        (λ x. refl) i j s.policies n)
]

pub current_miss :
    (i j m : ℕ) (p : AccountPolicy) (actor : Actor) (s : Tables)
    → j ≢ i
    → current j (written i p m actor s) ≡ current j s
unfolding current
current_miss i j m p actor s n =
    let apart =
      update_miss (λ x. x.id) (λ x. record x { policy_version = m }) (λ x. refl) i j s.accounts n in
    elim (Option-cases (first (with_id j) s.accounts)) [
      | inl e ↦ rw (apart, e, current) refl
      | inr (a, e) ↦ rw (apart, e, row_miss i j m p s n, current) refl
    ]

pub account_of :
    (i : ℕ) (s : Tables) (v : VersionedPolicy)
    → current i s ≡ some v
    → (a : GameAccount) × (first (with_id i) s.accounts ≡ some a)
unfolding current
account_of i s v = elim (Option-cases (first (with_id i) s.accounts)) [
  | inl e ↦ rw (e, current) (λ h. absurd (ground arith))
  | inr (a, e) ↦ λ h. (a, e)
]

-- A save that succeeds replaces the policy of its account, which `get` showed in the expected version
-- before, by the given policy in the next version, as `get` shows it then; and one that raises leaves
-- every policy as it was. No save changes the policy of another account.
pub save-get :
    (i : ℕ) (p : AccountPolicy) (n : ℕ) (actor : Actor) (s : Tables)
    → ((v : VersionedPolicy)
        → (save i p n actor s).1 ≡ ok v
        → ((old : VersionedPolicy) × (get i true s ≡ ok old) × (old.version ≡ n))
          × (get i true (save i p n actor s).0 ≡ ok v)
          × (v ≡ record { version = n + 1; policy = p }))
      × ((e : Error)
          → (save i p n actor s).1 ≡ raised e
          → (j : ℕ) → get j true (save i p n actor s).0 ≡ get j true s)
      × ((j : ℕ) → j ≢ i → get j true (save i p n actor s).0 ≡ get j true s)
unfolding get
save-get i p n actor s =
    save_cases
      (λ out.
        ((v : VersionedPolicy)
          → out.1 ≡ ok v
          → ((old : VersionedPolicy) × (available (current i s) ≡ ok old) × (old.version ≡ n))
            × (available (current i out.0) ≡ ok v)
            × (v ≡ record { version = n + 1; policy = p }))
        × ((e : Error)
            → out.1 ≡ raised e
            → (j : ℕ) → available (current j out.0) ≡ available (current j s))
        × ((j : ℕ) → j ≢ i → available (current j out.0) ≡ available (current j s)))
      i p n actor s
      (λ e t same. (
        λ v h. absurd (ground arith),
        λ x h j. ap available (same j),
        λ j other. ap available (same j),
      ))
      (λ old had was.
        let (a, found) = account_of i s old had in
        (
          λ v h. (
            (old, ap available had, was),
            ap available (current_hit i n p actor s a found) ∙ h,
            ground arith,
          ),
          λ e h. absurd (ground arith),
          λ j other. ap available (current_miss i j (n + 1) p actor s other),
        ))
