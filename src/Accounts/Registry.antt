-- ===== src/Accounts/Registry.antt =====
-- The accounts as the operations of AccountService (accounts/service.py) change them: not at all, in
-- one row, or by a new one.
pub mod Changes
pub mod Resolved
pub mod Operations
pub mod Updates
pub mod Calls
pub mod Mutated
pub mod Sent
use placegame_mcp.Prelude.{
  ℕ, ◌+◌, ◌<◌, ◌≡◌, ◌≢◌, ◌⊎◌, refl, sym, subst, ◌∙◌, arith, Bool, true, false, ◌||◌, Option, none,
  some, List, [], ◌∷◌, ◌++◌, first, All, ◌==◌, any, if◌then◌else◌, is_some_and, is_none, Bool-cases,
  Option-cases, inl, inr, first-append, any-first, first-holds, All-first, All-map, append-All,
}
use placegame_mcp.Prelude.Keys.{
  Distinct, write_row, append-Distinct, first-write_self, first-write_other,
}
use placegame_mcp.Text.{Text, codes}
use placegame_mcp.Accounts.Rows.{GameAccount, Tables, with_id, has_identity, find_identity}
use placegame_mcp.Accounts.Session.Identity.{Allowed, untouched}
use placegame_mcp.Accounts.Lifecycle.{is_removed, is_removing, removed_row}
use placegame_mcp.Accounts.Registry.Changes.{
  id_of, at, Unique, IsValid, write-IsValid, has_identity_of, first-any,
}

-- One of the two markers of the removal.
abbrev pub is_marked : GameAccount → Bool
is_marked row = is_removed row || is_removing row

-- A marker stays one, `removed` stays `removed`, and a row that was removed stays as it is.
pub record Marks (row : GameAccount) (after : GameAccount) : Type 0 where
  pub stays : is_marked row ≡ true → is_marked after ≡ true
  pub ends : is_removed row ≡ true → is_removed after ≡ true
  pub erased : row ≡ removed_row row → after ≡ row

pub unmarked : (row after : GameAccount) → is_marked row ≡ false → Marks row after
unmarked row after m = record {
  stays = λ h. absurd (ground (arith, m, h));
  ends = λ h. absurd (ground (arith, m, h));
  erased = λ e. absurd (ground (arith, subst (λ r. is_marked r ≡ false) e m));
}

pub same : (row : GameAccount) → Marks row row
same row = record { stays = λ h. h; ends = λ h. h; erased = λ e. refl }

-- What stays of an account in any later state of the tables.
pub record Kept (row : GameAccount) (after : GameAccount) : Type 0 where
  pub same_id : after.id ≡ row.id
  pub fixed : (g : Text) → row.game_account_id ≡ some g → after.game_account_id ≡ some g
  pub marks : Marks row after

pub kept : (row : GameAccount) → Kept row row
kept row = record { same_id = refl; fixed = λ g h. h; marks = same row }

pub Kept-trans : (a b c : GameAccount) → Kept a b → Kept b c → Kept a c
Kept-trans a b c p q = record {
  same_id = q.same_id ∙ p.same_id;
  fixed = λ g h. q.fixed g (p.fixed g h);
  marks = record {
    stays = λ h. q.marks.stays (p.marks.stays h);
    ends = λ h. q.marks.ends (p.marks.ends h);
    erased = λ e.
        let f : b ≡ a = p.marks.erased e in
        q.marks.erased (subst (λ r. r ≡ removed_row r) (sym f) e) ∙ f;
  };
}

pub data Change (t : Tables) (u : Tables) : Type 0 where
  nothing : u.accounts ≡ t.accounts → u.next_id ≡ t.next_id → Change t u
  one_row :
      (row after : GameAccount)
      → at row.id t.accounts ≡ some row
      → Allowed t row after
      → Marks row after
      → u.accounts ≡ write_row id_of after t.accounts
      → u.next_id ≡ t.next_id
      → Change t u
  one_more :
      (row : GameAccount) (g : Text)
      → row.id ≡ t.next_id
      → row.game_account_id ≡ some g
      → find_identity g t ≡ none
      → u.accounts ≡ t.accounts ++ row ∷ []
      → u.next_id ≡ t.next_id + 1
      → Change t u

-- An account of the rows with a new one at their end is that one, or it was there.
at_added :
    (row : GameAccount) (rows : List GameAccount) (n : ℕ) (a : GameAccount)
    → at n (rows ++ row ∷ []) ≡ some a
    → ((n ≡ row.id) × (a ≡ row)) ⊎ (at n rows ≡ some a)
at_added row rows n a h = elim (Option-cases (at n rows)) [
  | inl e ↦
      let k : (row.id == n) ≡ true =
        ground (arith, e, h, first-append (with_id n) rows row, any-first (with_id n) rows) in
      inl (
        (
          ground arith,
          ground (arith, e, h, k, first-append (with_id n) rows row, any-first (with_id n) rows),
        ))
  | inr (b, e) ↦
      inr (ground (arith, e, h, first-append (with_id n) rows row, any-first (with_id n) rows))
]

pub at_kept :
    (row : GameAccount) (rows : List GameAccount) (n : ℕ) (a : GameAccount)
    → at n rows ≡ some a
    → at n (rows ++ row ∷ []) ≡ some a
at_kept row rows n a h =
    ground (arith, h, first-append (with_id n) rows row, any-first (with_id n) rows)

module _ (t u : Tables) (v : IsValid t) (row : GameAccount) (g : Text) (new : row.id ≡ t.next_id)
    (has : row.game_account_id ≡ some g) (nobody : find_identity g t ≡ none)
    (e : u.accounts ≡ t.accounts ++ row ∷ []) (k : u.next_id ≡ t.next_id + 1) where
  -- No account that was there has the new identity.
  nobody_has :
      (m : ℕ) (b : GameAccount) (h : Text)
      → at m t.accounts ≡ some b
      → b.game_account_id ≡ some h
      → row.game_account_id ≢ some h
  unfolding find_identity
  nobody_has m b h found i j =
      let p : g ≡ h = ground (arith, has, j) in
      ground (
        arith,
        nobody,
        first-any (with_id m) (has_identity g) t.accounts b found
            (has_identity_of g b (subst (λ x. b.game_account_id ≡ some x) (sym p) i)),
      )

  added-Unique : Unique u.accounts
  added-Unique n m a b h x y i j =
      elim (at_added row t.accounts n a (subst (λ rows. at n rows ≡ some a) e x)) [
        | inl (p, q) ↦ elim (at_added row t.accounts m b (subst (λ rows. at m rows ≡ some b) e y)) [
          | inl (r, s) ↦ p ∙ sym r
          | inr there ↦
              absurd (nobody_has m b h there j (subst (λ z. z.game_account_id ≡ some h) q i))
        ]
        | inr here ↦ elim (at_added row t.accounts m b (subst (λ rows. at m rows ≡ some b) e y)) [
          | inl (r, s) ↦
              absurd (nobody_has n a h here i (subst (λ z. z.game_account_id ≡ some h) s j))
          | inr there ↦ v.unique n m a b h here there i j
        ]
      ]

  added-IsValid : IsValid u
  added-IsValid = record {
    distinct = rw e (
        append-Distinct id_of row t.accounts
          (All-map (λ a. a.id < t.next_id) (λ a. row.id ≢ a.id) t.accounts
            (λ a f. omega (arith, f, new)) v.fresh)
          v.distinct);
    fresh =
        rw (e, k)
          (append-All (λ a. a.id < t.next_id + 1) row t.accounts (omega (arith, new))
            (All-map (λ a. a.id < t.next_id) (λ a. a.id < t.next_id + 1) t.accounts
              (λ a f. omega (arith, f)) v.fresh));
    unique = added-Unique;
  }

pub Change-IsValid : {t u : Tables} → Change t u → IsValid t → IsValid u
Change-IsValid {t} {u} (nothing e k) v = record {
  distinct = rw e v.distinct;
  fresh = rw (e, k) v.fresh;
  unique = rw e v.unique;
}
Change-IsValid {t} {u} (one_row row after was a m e k) v = write-IsValid t row after v was a u e k
Change-IsValid {t} {u} (one_more row g new has nobody e k) v =
    added-IsValid t u v row g new has nobody e k

pub Change-Kept :
    {t u : Tables}
    → Change t u
    → (n : ℕ) (a : GameAccount) → at n t.accounts ≡ some a
    → (b : GameAccount) × (at n u.accounts ≡ some b) × Kept a b
Change-Kept {t} {u} (nothing e k) n a h = (a, rw e h, kept a)
Change-Kept {t} {u} (one_row row after was al m e k) n a h = elim (Bool-cases (after.id == n)) [
  | inl x ↦
      let i : row.id ≡ n = sym al.same_id ∙ ground arith in
      let r : row ≡ a = ground (arith, was, subst (λ j. at j t.accounts ≡ some a) (sym i) h) in
      (
        after,
        rw e (
            first-write_self id_of after row n t.accounts (al.same_id ∙ i)
              (subst (λ j. at j t.accounts ≡ some row) i was)),
        subst (λ z. Kept z after) r (record { same_id = al.same_id; fixed = al.fixed; marks = m }),
      )
  | inr x ↦
      let d : after.id ≢ n = ground arith in
      (a, rw e (first-write_other id_of after n t.accounts d ∙ h), kept a)
]
Change-Kept {t} {u} (one_more row g new has nobody e k) n a h =
    (a, rw e (at_kept row t.accounts n a h), kept a)

-- Any number of changes.
pub data Reach (t : Tables) : Tables → Type 0 where
  start : Reach t t
  later : {u v : Tables} → Reach t u → Change u v → Reach t v

pub Reach-IsValid : {t u : Tables} → Reach t u → IsValid t → IsValid u
Reach-IsValid start v = v
Reach-IsValid (later r c) v = Change-IsValid c (Reach-IsValid r v)

pub Reach-Kept :
    {t u : Tables}
    → Reach t u
    → (n : ℕ) (a : GameAccount) → at n t.accounts ≡ some a
    → (b : GameAccount) × (at n u.accounts ≡ some b) × Kept a b
Reach-Kept start n a h = (a, h, kept a)
Reach-Kept (later r c) n a h =
    let (b, found, k) = Reach-Kept r n a h in
    let (d, there, l) = Change-Kept c n b found in (d, there, Kept-trans a b d k l)
