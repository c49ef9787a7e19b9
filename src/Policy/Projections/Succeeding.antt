-- ===== src/Policy/Projections/Succeeding.antt =====
-- The values of which PolicyEngine makes its projections (policy/engine.py) are accepted by
-- `_normalize_projection`, the keyed arrays by their keys.
use placegame_mcp.Prelude.{ℕ, Bool, ◌≡◌, refl, Option, none, some, List, [], ◌∷◌}
use placegame_mcp.Text.{Text}
use placegame_mcp.Plans.Canonical
use placegame_mcp.Plans.Canonical.{
  Json, Items, Fields, end, field, odd, Keyed, normalize, extend, project, project_items,
  project_fields, sort_fields, insert_field, text_lt, order_items, with_keys, sort_keyed, items,
  key_of, get_text, key_field,
}
use placegame_mcp.Plans.Canonical.Order.{get_text-insert_field}
use placegame_mcp.Policy.Professions.{ℤ, pos, negsuc}
use placegame_mcp.Policy.Projections.{
  fields, dict, items_of, optional_text, optional_number, amount, amounts,
}

module _ (keyed : Keyed) where
  abbrev pub Accepted : Text → Json → Type 0
  Accepted path v = (y : Json) × (project keyed path v ≡ some y)

  abbrev pub AllAccepted : Text → List (Text × Json) → Type 0
  AllAccepted path [] = Unit
  AllAccepted path ((k, v) ∷ r) = Accepted (extend path k) v × AllAccepted path r

  pub text-Accepted : (path s : Text) → Accepted path (Canonical.text s)
  unfolding project normalize
  text-Accepted path s = (_, refl)

  pub integer-Accepted : (path : Text) (n : ℕ) → Accepted path (Canonical.integer n)
  unfolding project normalize
  integer-Accepted path n = (_, refl)

  pub boolean-Accepted : (path : Text) (b : Bool) → Accepted path (Canonical.boolean b)
  unfolding project normalize
  boolean-Accepted path b = (_, refl)

  pub optional_text-Accepted : (path : Text) (o : Option Text) → Accepted path (optional_text o)
  unfolding project normalize
  optional_text-Accepted path none = (_, refl)
  optional_text-Accepted path (some s) = (_, refl)

  pub optional_number-Accepted : (path : Text) (o : Option ℕ) → Accepted path (optional_number o)
  unfolding project normalize
  optional_number-Accepted path none = (_, refl)
  optional_number-Accepted path (some s) = (_, refl)

  amount-Accepted : (path : Text) (n : ℤ) → Accepted path (amount n)
  unfolding project normalize
  amount-Accepted path (pos n) = (_, refl)
  amount-Accepted path (negsuc n) = (_, refl)

  FieldsAccepted : Text → Fields → Type 0
  FieldsAccepted path fs = (q : Fields) × (project_fields keyed path fs ≡ some q)

  object-Accepted :
      (path : Text) (fs : Fields) → FieldsAccepted path fs → Accepted path (Canonical.object fs)
  unfolding FieldsAccepted project
  object-Accepted path fs (q, e) = (Canonical.object (sort_fields q), rw e refl)

  field-FieldsAccepted :
      (path k : Text) (v : Json) (fs : Fields)
      → Accepted (extend path k) v
      → FieldsAccepted path fs
      → FieldsAccepted path (field k v fs)
  unfolding FieldsAccepted project
  field-FieldsAccepted path k v fs (y, e) (q, h) = (field k y q, rw (e, h) refl)

  fields-FieldsAccepted :
      (path : Text) (kvs : List (Text × Json))
      → AllAccepted path kvs
      → FieldsAccepted path (fields kvs)
  unfolding FieldsAccepted project
  fields-FieldsAccepted path [] a = (end, refl)
  fields-FieldsAccepted path ((k, v) ∷ r) (a, b) =
      field-FieldsAccepted path k v (fields r) a (fields-FieldsAccepted path r b)

  pub dict-Accepted :
      (path : Text) (kvs : List (Text × Json)) → AllAccepted path kvs → Accepted path (dict kvs)
  dict-Accepted path kvs a = object-Accepted path (fields kvs) (fields-FieldsAccepted path kvs a)

  amounts-FieldsAccepted : (path : Text) (ns : List (Text × ℤ)) → FieldsAccepted path (amounts ns)
  unfolding FieldsAccepted amounts project
  amounts-FieldsAccepted path [] = (end, refl)
  amounts-FieldsAccepted path ((k, n) ∷ r) =
      field-FieldsAccepted path k (amount n) (amounts r) (amount-Accepted (extend path k) n)
        (amounts-FieldsAccepted path r)

  pub amounts-Accepted :
      (path : Text) (ns : List (Text × ℤ)) → Accepted path (Canonical.object (amounts ns))
  amounts-Accepted path ns = object-Accepted path (amounts ns) (amounts-FieldsAccepted path ns)

  -- An array without a key is accepted with its items.
  module _ {A : Type 0} (f : A → Json) (path : Text) where
    array_items :
        ((x : A) → Accepted path (f x))
        → (xs : List A) → (ys : Items) × (project_items keyed path (items_of f xs) ≡ some ys)
    unfolding items_of project
    array_items a [] = (_, refl)
    array_items a (x ∷ xs) =
        let (y, e) = a x in let (ys, h) = array_items a xs in (Canonical.cons y ys, rw (e, h) refl)

    pub array-Accepted :
        key_field keyed path ≡ none
        → ((x : A) → Accepted path (f x))
        → (xs : List A) → Accepted path (Canonical.array (items_of f xs))
    unfolding project order_items
    array-Accepted k a xs = let (ys, e) = array_items a xs in (Canonical.array ys, rw (e, k) refl)

    -- And a keyed array, if the items also have a text under the key.
    pub IsItem : Text → A → Type 0
    IsItem k x =
        (y : Json) × (t : Text) × (project keyed path (f x) ≡ some y) × (key_of k y ≡ some t)

    keyed_items :
        (k : Text)
        → ((x : A) → IsItem k x)
        → (xs : List A)
        → (ys : Items) × (es : List (Text × Json)) × (project_items keyed path (items_of f xs)
            ≡ some ys)
          × (with_keys k ys ≡ some es)
    unfolding IsItem items_of project with_keys
    keyed_items k a [] = (_, _, refl, refl)
    keyed_items k a (x ∷ xs) =
        let (y, t, e, d) = a x in
        let (ys, es, h, g) = keyed_items k a xs in
        (Canonical.cons y ys, (t, y) ∷ es, rw (e, h) refl, rw (d, g) refl)

    pub keyed_array-Accepted :
        (k : Text)
        → key_field keyed path ≡ some k
        → ((x : A) → IsItem k x)
        → (xs : List A) → Accepted path (Canonical.array (items_of f xs))
    unfolding project order_items
    keyed_array-Accepted k e a xs =
        let (ys, es, h, g) = keyed_items k a xs in
        (Canonical.array (items (sort_keyed es)), rw (h, e, g) refl)

-- A dictionary that begins with its key, a text, can be an item of a keyed array.
pub dict-IsItem :
    {A : Type 0} (keyed : Keyed) (f : A → Json) (path k t : Text) (kvs : List (Text × Json)) (x : A)
    → f x ≡ dict ((k, Canonical.text t) ∷ kvs)
    → AllAccepted keyed path kvs
    → IsItem keyed f path k x
unfolding IsItem key_of project sort_fields normalize FieldsAccepted
dict-IsItem keyed f path k t kvs x s a =
    let (q, e) = fields-FieldsAccepted keyed path kvs a in
    (
      Canonical.object (insert_field k (Canonical.text t) (sort_fields q)),
      t,
      rw (s, e) refl,
      get_text-insert_field k t (sort_fields q),
    )
