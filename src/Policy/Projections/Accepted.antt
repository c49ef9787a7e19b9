-- ===== src/Policy/Projections/Accepted.antt =====
-- What `_normalize_projection` accepts, `_normalize` leaves as it is, so that it has a fingerprint
-- (policy/plans.py).
use placegame_mcp.Prelude.{
  ◌≡◌, refl, Option, none, some, List, [], ◌∷◌, ◌++◌, inl, inr, Bool-cases, subst,
}
use placegame_mcp.Text.{Text, codes}
use placegame_mcp.Plans.Rows.{ActionFamily}
use placegame_mcp.Plans.Canonical
use placegame_mcp.Plans.Canonical.{
  Json, Items, nil, cons, Fields, end, field, odd, Keyed, normalize, normalize_items,
  normalize_fields, ◌>>=◌, extend, project, project_items, project_fields, sort_fields,
  insert_field, text_lt, order_items, with_keys, sort_keyed, insert_keyed, items, key_of, key_field,
  family_name, canonical_fingerprint, family_name,
}

-- Without floats, keys that are no text, and values of other types.
mutual
  pub IsPlain : Json → Type 0
  IsPlain Canonical.float = ⊥
  IsPlain Canonical.other = ⊥
  IsPlain (Canonical.array xs) = ArePlain xs
  IsPlain (Canonical.object fs) = AreFieldsPlain fs
  IsPlain _ = Unit

  pub ArePlain : Items → Type 0
  ArePlain nil = Unit
  ArePlain (cons x xs) = IsPlain x × ArePlain xs

  pub AreFieldsPlain : Fields → Type 0
  AreFieldsPlain end = Unit
  AreFieldsPlain (field k v r) = IsPlain v × AreFieldsPlain r
  AreFieldsPlain (odd v r) = ⊥

mutual
  unfolding normalize IsPlain

  normalize_plain : (j : Json) → IsPlain j → normalize j ≡ some j
  normalize_plain Canonical.null p = refl
  normalize_plain (Canonical.boolean b) p = refl
  normalize_plain (Canonical.integer n) p = refl
  normalize_plain (Canonical.negative n) p = refl
  normalize_plain (Canonical.text s) p = refl
  normalize_plain Canonical.float p = absurd p
  normalize_plain (Canonical.array xs) p = rw (normalize_items_plain xs p) refl
  normalize_plain (Canonical.object fs) p = rw (normalize_fields_plain fs p) refl
  normalize_plain Canonical.other p = absurd p

  normalize_items_plain : (xs : Items) → ArePlain xs → normalize_items xs ≡ some xs
  normalize_items_plain nil p = refl
  normalize_items_plain (cons x xs) (p, q) =
      rw (normalize_plain x p, normalize_items_plain xs q) refl

  normalize_fields_plain : (fs : Fields) → AreFieldsPlain fs → normalize_fields fs ≡ some fs
  normalize_fields_plain end p = refl
  normalize_fields_plain (field k v r) (p, q) =
      rw (normalize_plain v p, normalize_fields_plain r q) refl
  normalize_fields_plain (odd v r) p = absurd p

insert_field-AreFieldsPlain :
    (k : Text) (v : Json) (fs : Fields)
    → IsPlain v
    → AreFieldsPlain fs
    → AreFieldsPlain (insert_field k v fs)
unfolding insert_field IsPlain
insert_field-AreFieldsPlain k v end p q = (p, tt)
insert_field-AreFieldsPlain k v (field j w r) p (a, b) = elim (Bool-cases (text_lt j k)) [
  | inl e ↦ rw e (a, insert_field-AreFieldsPlain k v r p b)
  | inr e ↦ rw e (p, (a, b))
]
insert_field-AreFieldsPlain k v (odd w r) p q = absurd q

sort_fields-AreFieldsPlain : (fs : Fields) → AreFieldsPlain fs → AreFieldsPlain (sort_fields fs)
unfolding sort_fields IsPlain
sort_fields-AreFieldsPlain end p = tt
sort_fields-AreFieldsPlain (field k v r) (p, q) =
    insert_field-AreFieldsPlain k v (sort_fields r) p (sort_fields-AreFieldsPlain r q)
sort_fields-AreFieldsPlain (odd v r) p = absurd p

-- A result that is there satisfies the predicate.
abbrev pub OnSome : {A : Type 0} → (A → Type 0) → Option A → Type 0
OnSome P none = Unit
OnSome P (some a) = P a

OnSome-any : {A : Type 0} (m : Option A) → OnSome (λ _. Unit {0}) m
OnSome-any none = tt
OnSome-any (some a) = tt

OnSome-bind :
    {A B : Type 0} (P : A → Type 0) (Q : B → Type 0) (m : Option A) (f : A → Option B)
    → OnSome P m
    → ((a : A) → P a → OnSome Q (f a))
    → OnSome Q (m >>= f)
OnSome-bind P Q none f h k = tt
OnSome-bind P Q (some a) f h k = k a h

-- The same for the items of a keyed array.
abbrev ArePairsPlain : List (Text × Json) → Type 0
ArePairsPlain [] = Unit
ArePairsPlain ((k, v) ∷ es) = IsPlain v × ArePairsPlain es

with_keys-ArePairsPlain :
    (k : Text) (xs : Items) → ArePlain xs → OnSome ArePairsPlain (with_keys k xs)
unfolding with_keys IsPlain
with_keys-ArePairsPlain k nil p = tt
with_keys-ArePairsPlain k (cons x xs) (p, q) =
    OnSome-bind (λ _. Unit) ArePairsPlain (key_of k x)
      (λ key. with_keys k xs >>= λ rest. some ((key, x) ∷ rest)) (OnSome-any (key_of k x))
      (λ key _.
        OnSome-bind ArePairsPlain ArePairsPlain (with_keys k xs) (λ rest. some ((key, x) ∷ rest))
          (with_keys-ArePairsPlain k xs q) (λ rest r. (p, r)))

insert_keyed-ArePairsPlain :
    (k : Text) (v : Json) (es : List (Text × Json))
    → IsPlain v
    → ArePairsPlain es
    → ArePairsPlain (insert_keyed (k, v) es)
unfolding insert_keyed
insert_keyed-ArePairsPlain k v [] p q = (p, tt)
insert_keyed-ArePairsPlain k v ((j, w) ∷ r) p (a, b) = elim (Bool-cases (text_lt j k)) [
  | inl e ↦ rw e (a, insert_keyed-ArePairsPlain k v r p b)
  | inr e ↦ rw e (p, (a, b))
]

sort_keyed-ArePairsPlain :
    (es : List (Text × Json)) → ArePairsPlain es → ArePairsPlain (sort_keyed es)
unfolding sort_keyed
sort_keyed-ArePairsPlain [] p = tt
sort_keyed-ArePairsPlain ((k, v) ∷ es) (p, q) =
    insert_keyed-ArePairsPlain k v (sort_keyed es) p (sort_keyed-ArePairsPlain es q)

items-ArePlain : (es : List (Text × Json)) → ArePairsPlain es → ArePlain (items es)
unfolding items IsPlain
items-ArePlain [] p = tt
items-ArePlain ((k, v) ∷ es) (p, q) = (p, items-ArePlain es q)

order_items-ArePlain :
    (o : Option Text) (xs : Items) → ArePlain xs → OnSome ArePlain (order_items o xs)
unfolding order_items
order_items-ArePlain none xs p = p
order_items-ArePlain (some k) xs p =
    OnSome-bind ArePairsPlain ArePlain (with_keys k xs) (λ es. some (items (sort_keyed es)))
      (with_keys-ArePairsPlain k xs p)
      (λ es q. items-ArePlain (sort_keyed es) (sort_keyed-ArePairsPlain es q))

mutual
  unfolding project IsPlain normalize

  project-IsPlain : (keyed : Keyed) (path : Text) (j : Json) → OnSome IsPlain (project keyed path j)
  project-IsPlain keyed path Canonical.null = tt
  project-IsPlain keyed path (Canonical.boolean b) = tt
  project-IsPlain keyed path (Canonical.integer n) = tt
  project-IsPlain keyed path (Canonical.negative n) = tt
  project-IsPlain keyed path (Canonical.text s) = tt
  project-IsPlain keyed path Canonical.float = tt
  project-IsPlain keyed path Canonical.other = tt
  project-IsPlain keyed path (Canonical.array xs) =
      OnSome-bind ArePlain IsPlain (project_items keyed path xs)
        (λ ys. order_items (key_field keyed path) ys >>= λ zs. some (Canonical.array zs))
        (project_items-ArePlain keyed path xs)
        (λ ys p.
          OnSome-bind ArePlain IsPlain (order_items (key_field keyed path) ys)
            (λ zs. some (Canonical.array zs)) (order_items-ArePlain (key_field keyed path) ys p)
            (λ zs q. q))
  project-IsPlain keyed path (Canonical.object fs) =
      OnSome-bind AreFieldsPlain IsPlain (project_fields keyed path fs)
        (λ gs. some (Canonical.object (sort_fields gs)))
        (project_fields-AreFieldsPlain keyed path fs) (λ gs p. sort_fields-AreFieldsPlain gs p)

  project_items-ArePlain :
      (keyed : Keyed) (path : Text) (xs : Items) → OnSome ArePlain (project_items keyed path xs)
  project_items-ArePlain keyed path nil = tt
  project_items-ArePlain keyed path (cons x xs) =
      OnSome-bind IsPlain ArePlain (project keyed path x)
        (λ y. project_items keyed path xs >>= λ ys. some (cons y ys)) (project-IsPlain keyed path x)
        (λ y p.
          OnSome-bind ArePlain ArePlain (project_items keyed path xs) (λ ys. some (cons y ys))
            (project_items-ArePlain keyed path xs) (λ ys q. (p, q)))

  project_fields-AreFieldsPlain :
      (keyed : Keyed) (path : Text) (fs : Fields)
      → OnSome AreFieldsPlain (project_fields keyed path fs)
  project_fields-AreFieldsPlain keyed path end = tt
  project_fields-AreFieldsPlain keyed path (odd v r) = tt
  project_fields-AreFieldsPlain keyed path (field k v r) =
      OnSome-bind IsPlain AreFieldsPlain (project keyed (extend path k) v)
        (λ w. project_fields keyed path r >>= λ q. some (field k w q))
        (project-IsPlain keyed (extend path k) v)
        (λ w p.
          OnSome-bind AreFieldsPlain AreFieldsPlain (project_fields keyed path r)
            (λ q. some (field k w q)) (project_fields-AreFieldsPlain keyed path r) (λ q h. (p, h)))

-- An accepted projection has a fingerprint, of the digest of a value.
pub project-fingerprint :
    (sha256_of : Json → Text) (family : ActionFamily) (keyed : Keyed) (j p : Json)
    → project keyed [] j ≡ some p
    → (q : Json) × (canonical_fingerprint sha256_of family keyed j
        ≡ some (codes "pgfp:v1:" ++ sha256_of q))
unfolding canonical_fingerprint IsPlain
project-fingerprint sha256_of family keyed j p e =
    let plain : IsPlain p = subst (OnSome IsPlain) e (project-IsPlain keyed [] j) in
    let q : Json = Canonical.object (
      field (codes "family") (Canonical.text (family_name family))
        (field (codes "projection") p end)) in
    let whole : normalize q ≡ some q = normalize_plain q (tt, (plain, tt)) in
    (q, rw (e, whole) refl)
