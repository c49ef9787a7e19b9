-- ===== src/Accounts/Registry/Changes.antt =====
-- The identities of a table of accounts, and what the write of one row does to them.
use placegame_mcp.Prelude.{
  ℕ, ◌<◌, ◌≡◌, ◌≢◌, ◌⊎◌, refl, sym, ap, subst, ◌∙◌, arith, Bool, true, false, Option, some, List,
  [], ◌∷◌, first, All, ◌==◌, is_none, is_some_and, Bool-cases, Option-cases, inl, inr, first-holds,
  All-first,
}
use placegame_mcp.Prelude.Keys.{
  Distinct, first-Distinct, write_row, write-Distinct, All-write, first-write_self,
  first-write_other,
}
use placegame_mcp.Text.{Text, text_eq, text_eq_refl, text_eq_sound}
use placegame_mcp.Accounts.Rows.{
  GameAccount, Tables, with_id, has_identity, find_identity, taken_by_other,
}
use placegame_mcp.Accounts.Session.Identity.{Allowed}

abbrev pub id_of : GameAccount → ℕ
id_of a = a.id

-- The account n of the rows.
abbrev pub at : ℕ → List GameAccount → Option GameAccount
at n rows = first (with_id n) rows

-- No two accounts have one identity.
abbrev pub Unique : List GameAccount → Type 0
Unique rows =
    (n m : ℕ) (a b : GameAccount) (g : Text)
    → at n rows ≡ some a
    → at m rows ≡ some b
    → a.game_account_id ≡ some g
    → b.game_account_id ≡ some g
    → n ≡ m

pub record IsValid (t : Tables) : Type 0 where
  pub distinct : Distinct id_of t.accounts
  pub fresh : All (λ a. a.id < t.next_id) t.accounts
  pub unique : Unique t.accounts

pub first-any :
    (p q : GameAccount → Bool) (rows : List GameAccount) (b : GameAccount)
    → first p rows ≡ some b
    → q b ≡ true
    → is_none (first q rows) ≡ false
first-any p q [] b h k = absurd (ground arith)
first-any p q (a ∷ rows) b h k = elim (Bool-cases (q a)) [
  | inl hit ↦ rw hit refl
  | inr miss ↦ elim (Bool-cases (p a)) [
    | inl here ↦
        let e : a ≡ b = ground arith in absurd (ground (arith, subst (λ x. q x ≡ false) e miss))
    | inr later ↦ rw miss (first-any p q rows b (ground arith) k)
  ]
]

pub has_identity_of :
    (g : Text) (a : GameAccount) → a.game_account_id ≡ some g → has_identity g a ≡ true
has_identity_of g a e = simp e (text_eq_refl g)

identity_found : (g : Text) (a : GameAccount) → has_identity g a ≡ true → a.game_account_id ≡ some g
identity_found g a h = elim (Option-cases a.game_account_id) [
  | inl n ↦ absurd (ground (arith, n, h))
  | inr (mine, m) ↦
      m ∙ ap some (text_eq_sound mine g (subst (λ o. is_some_and (λ x. text_eq x g) o ≡ true) m h))
]

-- An identity that no other account has is at most this one's.
pub free_identity :
    (t : Tables) (g : Text) (i m : ℕ) (b : GameAccount)
    → IsValid t
    → taken_by_other g i t ≡ false
    → at m t.accounts ≡ some b
    → b.game_account_id ≡ some g
    → m ≡ i
unfolding taken_by_other find_identity
free_identity t g i m b v h found e = elim (Option-cases (first (has_identity g) t.accounts)) [
  | inl n ↦ absurd (
      ground (
        arith,
        n,
        first-any (with_id m) (has_identity g) t.accounts b found (has_identity_of g b e),
      ))
  | inr (c, k) ↦
      let same : c.id ≡ i = ground (arith, k, h) in
      v.unique m c.id b c g found (first-Distinct id_of (has_identity g) t.accounts c v.distinct k)
        e (identity_found g c (first-holds (has_identity g) t.accounts c k))
      ∙ same
]

-- An account of the rows after a write is the written one, or it was there.
at_written :
    (r p : GameAccount) (rows : List GameAccount) (n : ℕ) (a : GameAccount)
    → at r.id rows ≡ some p
    → at n (write_row id_of r rows) ≡ some a
    → ((n ≡ r.id) × (a ≡ r)) ⊎ (at n rows ≡ some a)
at_written r p rows n a was h = elim (Bool-cases (r.id == n)) [
  | inl same ↦
      let e : r.id ≡ n = ground arith in
      let k : at r.id (write_row id_of r rows) ≡ some r =
        first-write_self id_of r p r.id rows refl was in
      inl
        ((sym e, ground (arith, subst (λ i. at i (write_row id_of r rows) ≡ some a) (sym e) h, k)))
  | inr differ ↦
      let e : r.id ≢ n = ground arith in inr (sym (first-write_other id_of r n rows e) ∙ h)
]

-- What the changed row and an account that was there have in common.
shared :
    (t : Tables) (row after : GameAccount) (m : ℕ) (b : GameAccount) (g : Text)
    → IsValid t
    → at row.id t.accounts ≡ some row
    → Allowed t row after
    → at m t.accounts ≡ some b
    → after.game_account_id ≡ some g
    → b.game_account_id ≡ some g
    → m ≡ row.id
shared t row after m b g v was ok found e k = elim (ok.free g e) [
  | inl had ↦ v.unique m row.id b row g found was k had
  | inr other ↦ free_identity t g row.id m b v other found k
]

module _ (t : Tables) (row after : GameAccount) (v : IsValid t)
    (was : at row.id t.accounts ≡ some row) (allowed : Allowed t row after) where
  was_after : at after.id t.accounts ≡ some row
  was_after = subst (λ i. at i t.accounts ≡ some row) (sym allowed.same_id) was

  write-Unique : Unique (write_row id_of after t.accounts)
  write-Unique n m a b g x y e k = elim (at_written after row t.accounts n a was_after x) [
    | inl (i, p) ↦ elim (at_written after row t.accounts m b was_after y) [
      | inl (j, q) ↦ i ∙ sym j
      | inr found ↦
          i
          ∙ allowed.same_id
          ∙ sym (
              shared t row after m b g v was allowed found
                (subst (λ z. z.game_account_id ≡ some g) p e) k)
    ]
    | inr here ↦ elim (at_written after row t.accounts m b was_after y) [
      | inl (j, q) ↦
          shared t row after n a g v was allowed here (subst (λ z. z.game_account_id ≡ some g) q k)
            e
          ∙ sym allowed.same_id
          ∙ sym j
      | inr found ↦ v.unique n m a b g here found e k
    ]
  ]

  pub write-IsValid :
      (u : Tables)
      → u.accounts ≡ write_row id_of after t.accounts
      → u.next_id ≡ t.next_id
      → IsValid u
  write-IsValid u e k = record {
    distinct = rw e (write-Distinct id_of after t.accounts v.distinct);
    fresh =
        rw (e, k)
          (All-write id_of (λ a. a.id < t.next_id) after t.accounts
            (rw allowed.same_id
              (All-first (λ a. a.id < t.next_id) (with_id row.id) t.accounts row v.fresh was))
            v.fresh);
    unique = rw e write-Unique;
  }
