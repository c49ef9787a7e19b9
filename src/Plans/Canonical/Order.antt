-- ===== src/Plans/Canonical/Order.antt =====
-- The order of texts by code points, and the sorting by it (policy/plans.py), which does not depend
-- on the order in which distinct keys are given.
use placegame_mcp.Prelude.{
  some, ◌≡◌, refl, sym, ap, arith, true, false, List, [], ◌∷◌, ltb, ◌==◌, ◌⊎◌, inl, inr, Bool-cases,
}
use placegame_mcp.Text.{Text, text_eq, text_eq_refl}
use placegame_mcp.Plans.Canonical
use placegame_mcp.Plans.Canonical.{
  get_text, Json, Fields, end, field, odd, text_lt, insert_field, insert_keyed,
}

pub text_lt_trans : (a b c : Text) → text_lt a b ≡ true → text_lt b c ≡ true → text_lt a c ≡ true
unfolding text_lt
text_lt_trans a b [] h k = absurd (lt_empty b k)
  where
    lt_empty : (s : Text) → text_lt s [] ≡ true → ⊥
    lt_empty [] e = ground arith
    lt_empty (c ∷ s) e = ground arith
text_lt_trans [] b (z ∷ c) h k = refl
text_lt_trans (x ∷ a) [] (z ∷ c) h k = absurd (ground arith)
text_lt_trans (x ∷ a) (y ∷ b) (z ∷ c) h k = ground (arith, text_lt_trans a b c)

-- Of two texts that differ, one is before the other, and not the other way.
abbrev pub Ordered : Text → Text → Type 0
Ordered a b =
    ((text_lt a b ≡ true) × (text_lt b a ≡ false)) ⊎ ((text_lt a b ≡ false) × (text_lt b a ≡ true))

pub distinct-Ordered : (a b : Text) → text_eq a b ≡ false → Ordered a b
unfolding text_lt
distinct-Ordered [] [] h = absurd (ground arith)
distinct-Ordered [] (y ∷ b) h = inl (refl, refl)
distinct-Ordered (x ∷ a) [] h = inr (refl, refl)
distinct-Ordered (x ∷ a) (y ∷ b) h = elim (Bool-cases (x == y)) [
  | inl e ↦ elim (distinct-Ordered a b (ground arith)) [
    | inl (p, q) ↦ inl (ground arith, ground arith)
    | inr (p, q) ↦ inr (ground arith, ground arith)
  ]
  | inr e ↦ elim (Bool-cases (ltb x y)) [
    | inl l ↦ inl (ground arith, ground arith)
    | inr l ↦ inr (ground arith, ground arith)
  ]
]

-- What is not after `i` is before what is.
text_lt_between :
    (i j k : Text)
    → text_eq k j ≡ false
    → text_lt i j ≡ true
    → text_lt i k ≡ false
    → text_lt k j ≡ true
text_lt_between i j k d h n = elim (distinct-Ordered k j d) [
  | inl (p, q) ↦ p
  | inr (p, q) ↦ let c : text_lt i k ≡ true = text_lt_trans i j k h q in absurd (ground arith)
]

text_eq_sym : (a b : Text) → text_eq a b ≡ text_eq b a
text_eq_sym [] [] = refl
text_eq_sym [] (y ∷ b) = refl
text_eq_sym (x ∷ a) [] = refl
text_eq_sym (x ∷ a) (y ∷ b) = ground (arith, text_eq_sym a b)

-- Two fields in front of a third that is before neither.
insert_field_front :
    (k j : Text) (v w : Json) (fs : Fields)
    → text_eq k j ≡ false
    → insert_field k v fs ≡ field k v fs
    → insert_field j w fs ≡ field j w fs
    → insert_field k v (insert_field j w fs) ≡ insert_field j w (insert_field k v fs)
unfolding insert_field
insert_field_front k j v w fs d a b = elim (distinct-Ordered k j d) [
  | inl (p, q) ↦ rw (b, a, p, q) (ap (field k v) (sym b))
  | inr (p, q) ↦ rw (b, a, p, q) refl
]

pub insert_field_swap :
    (k j : Text) (v w : Json) (fs : Fields)
    → text_eq k j ≡ false
    → insert_field k v (insert_field j w fs) ≡ insert_field j w (insert_field k v fs)
unfolding insert_field
insert_field_swap k j v w end d = insert_field_front k j v w end d refl refl
insert_field_swap k j v w (odd u r) d = insert_field_front k j v w (odd u r) d refl refl
insert_field_swap k j v w (field i u r) d = elim (Bool-cases (text_lt i k)) [
  | inl a ↦ elim (Bool-cases (text_lt i j)) [
    | inl b ↦ rw (a, b, a) (ap (field i u) (insert_field_swap k j v w r d))
    | inr b ↦
        let c : text_lt j k ≡ true = text_lt_between i k j (rw (text_eq_sym j k) d) a b in
        rw (a, b, c, a) refl
  ]
  | inr a ↦ elim (Bool-cases (text_lt i j)) [
    | inl b ↦ let c : text_lt k j ≡ true = text_lt_between i j k d b a in rw (a, b, c, a) refl
    | inr b ↦ insert_field_front k j v w (field i u r) d (rw a refl) (rw b refl)
  ]
]

insert_keyed_front :
    (k j : Text) (v w : Json) (es : List (Text × Json))
    → text_eq k j ≡ false
    → insert_keyed (k, v) es ≡ (k, v) ∷ es
    → insert_keyed (j, w) es ≡ (j, w) ∷ es
    → insert_keyed (k, v) (insert_keyed (j, w) es) ≡ insert_keyed (j, w) (insert_keyed (k, v) es)
unfolding insert_keyed
insert_keyed_front k j v w es d a b = elim (distinct-Ordered k j d) [
  | inl (p, q) ↦ rw (b, a, p, q) (ap (◌∷◌ (k, v)) (sym b))
  | inr (p, q) ↦ rw (b, a, p, q) refl
]

pub insert_keyed_swap :
    (k j : Text) (v w : Json) (es : List (Text × Json))
    → text_eq k j ≡ false
    → insert_keyed (k, v) (insert_keyed (j, w) es) ≡ insert_keyed (j, w) (insert_keyed (k, v) es)
unfolding insert_keyed
insert_keyed_swap k j v w [] d = insert_keyed_front k j v w [] d refl refl
insert_keyed_swap k j v w ((i, u) ∷ r) d = elim (Bool-cases (text_lt i k)) [
  | inl a ↦ elim (Bool-cases (text_lt i j)) [
    | inl b ↦ rw (a, b, a) (ap (◌∷◌ (i, u)) (insert_keyed_swap k j v w r d))
    | inr b ↦
        let c : text_lt j k ≡ true = text_lt_between i k j (rw (text_eq_sym j k) d) a b in
        rw (a, b, c, a) refl
  ]
  | inr a ↦ elim (Bool-cases (text_lt i j)) [
    | inl b ↦ let c : text_lt k j ≡ true = text_lt_between i j k d b a in rw (a, b, c, a) refl
    | inr b ↦ insert_keyed_front k j v w ((i, u) ∷ r) d (rw a refl) (rw b refl)
  ]
]

before_other : (j k : Text) → text_lt j k ≡ true → text_eq j k ≡ false
unfolding text_lt
before_other [] [] h = absurd (ground arith)
before_other [] (b ∷ t) h = refl
before_other (a ∷ s) [] h = absurd (ground arith)
before_other (a ∷ s) (b ∷ t) h = elim (Bool-cases (a == b)) [
  | inl e ↦ let r : text_eq s t ≡ false = before_other s t (ground arith) in ground arith
  | inr e ↦ ground arith
]

-- A field that is inserted is found.
pub get_text-insert_field :
    (k t : Text) (fs : Fields) → get_text k (insert_field k (Canonical.text t) fs) ≡ some t
unfolding get_text insert_field
get_text-insert_field k t end = rw (text_eq_refl k) refl
get_text-insert_field k t (odd v r) = rw (text_eq_refl k) refl
get_text-insert_field k t (field j w r) = elim (Bool-cases (text_lt j k)) [
  | inl e ↦ rw (e, before_other j k e) (get_text-insert_field k t r)
  | inr e ↦ rw (e, text_eq_refl k) refl
]

-- And another one is left as it was.
pub get_text-insert_other :
    (k j : Text) (v : Json) (fs : Fields)
    → text_eq j k ≡ false
    → get_text k (insert_field j v fs) ≡ get_text k fs
unfolding get_text insert_field
get_text-insert_other k j v end d = rw d refl
get_text-insert_other k j v (odd u r) d = rw d refl
get_text-insert_other k j v (field i u r) d = elim (Bool-cases (text_lt i j)) [
  | inl e ↦ elim (Bool-cases (text_eq i k)) [
    | inl h ↦ rw (e, h) refl
    | inr h ↦ rw (e, h) (get_text-insert_other k j v r d)
  ]
  | inr e ↦ rw (e, d) refl
]
