-- ===== src/Plans/Canonical.antt =====
-- `_normalize`, `canonical_json`, `_normalize_projection` and `canonical_fingerprint`
-- (policy/plans.py). `none` is a TypeError.
pub mod Order
pub mod Dictionaries
pub mod Arrays
pub mod Same
use placegame_mcp.Prelude.{
  ℕ, Bool, true, false, ◌&&◌, ◌||◌, Option, none, some, List, [], ◌∷◌, ◌++◌, ltb, ◌==◌,
  if◌then◌else◌,
}
use placegame_mcp.Text.{Text, codes, text_eq}
use placegame_mcp.Plans.Rows.{
  ActionFamily, idle, personal_boss, ordinary_boss, world_boss, profession, safe_reward,
}

-- A Python value. `other` is of a type that has no canonical JSON, and `odd` an entry of a mapping
-- whose key is no text.
mutual
  pub data Json : Type 0 where
    null : Json
    boolean : Bool → Json
    integer : ℕ → Json
    negative : ℕ → Json
    text : Text → Json
    float : Json
    array : Items → Json
    object : Fields → Json
    other : Json

  pub data Items : Type 0 where
    nil : Items
    cons : Json → Items → Items

  pub data Fields : Type 0 where
    end : Fields
    field : Text → Json → Fields → Fields
    odd : Json → Fields → Fields

infixl 5 ◌>>=◌
abbrev pub ◌>>=◌ {ℓ κ} : {A : Type ℓ} {B : Type κ} → Option A → (A → Option B) → Option B
none >>= f = none
some a >>= f = f a

-- The order of Python's texts, by code points.
unfoldable pub text_lt : Text → Text → Bool
text_lt s [] = false
text_lt [] (b ∷ t) = true
text_lt (a ∷ s) (b ∷ t) = ltb a b || (a == b && text_lt s t)

-- Sorting by keys, in place of equal keys the order is kept.
unfoldable pub insert_field : Text → Json → Fields → Fields
unfolding text_lt
insert_field k v end = field k v end
insert_field k v (odd w r) = field k v (odd w r)
insert_field k v (field j w r) =
    let rest = insert_field k v r in if text_lt j k then field j w rest else field k v (field j w r)

unfoldable pub sort_fields : Fields → Fields
unfolding insert_field
sort_fields end = end
sort_fields (odd w r) = odd w (sort_fields r)
sort_fields (field k v r) = insert_field k v (sort_fields r)

unfoldable mutual
  pub normalize : Json → Option Json
  normalize null = some null
  normalize (boolean b) = some (boolean b)
  normalize (integer n) = some (integer n)
  normalize (negative n) = some (negative n)
  normalize (text s) = some (text s)
  normalize float = none
  normalize (array xs) = do ys ← normalize_items xs; some (array ys)
  normalize (object fs) = do gs ← normalize_fields fs; some (object gs)
  normalize other = none

  pub normalize_items : Items → Option Items
  normalize_items nil = some nil
  normalize_items (cons x xs) = do y ← normalize x; ys ← normalize_items xs; some (cons y ys)

  pub normalize_fields : Fields → Option Fields
  normalize_fields end = some end
  normalize_fields (field k v r) = do w ← normalize v; q ← normalize_fields r; some (field k w q)
  normalize_fields (odd v r) = none

-- `v.get(field)`, if it is a text.
unfoldable pub get_text : Text → Fields → Option Text
get_text k end = none
get_text k (odd v r) = get_text k r
get_text k (field j v r) =
    if text_eq j k then elim v [ text s ↦ some s | _ ↦ none ] else get_text k r

unfoldable pub key_of : Text → Json → Option Text
unfolding get_text
key_of k (object fs) = get_text k fs
key_of k _ = none

-- The items with their keys, unless one has no text under the key.
unfoldable pub with_keys : Text → Items → Option (List (Text × Json))
unfolding key_of
with_keys k nil = some []
with_keys k (cons x xs) = do key ← key_of k x; rest ← with_keys k xs; some ((key, x) ∷ rest)

unfoldable pub insert_keyed : Text × Json → List (Text × Json) → List (Text × Json)
unfolding text_lt
insert_keyed (k, v) [] = (k, v) ∷ []
insert_keyed (k, v) ((j, w) ∷ r) =
    let rest = insert_keyed (k, v) r in if text_lt j k then (j, w) ∷ rest else (k, v) ∷ (j, w) ∷ r

unfoldable pub sort_keyed : List (Text × Json) → List (Text × Json)
unfolding insert_keyed
sort_keyed [] = []
sort_keyed (e ∷ es) = insert_keyed e (sort_keyed es)

unfoldable pub items : List (Text × Json) → Items
items [] = nil
items ((k, v) ∷ es) = cons v (items es)

-- `keyed`: the key field of each array, by its path or the last part of it.
abbrev pub Keyed : Type 0
Keyed = List (Text × Text)

unfoldable pub keyed_get : Text → Keyed → Option Text
keyed_get k [] = none
keyed_get k ((j, v) ∷ r) = if text_eq j k then some v else keyed_get k r

-- `path.rsplit(".", 1)[-1]`
unfoldable pub last_part : Text → Text → Text
last_part acc [] = acc
last_part acc (c ∷ s) = last_part (if c == 46 then [] else acc ++ c ∷ []) s

abbrev pub or_else : Option Text → Option Text → Option Text
or_else none o = o
or_else (some t) o = some t

unfoldable pub key_field : Keyed → Text → Option Text
unfolding keyed_get last_part
key_field keyed path = or_else (keyed_get path keyed) (keyed_get (last_part [] path) keyed)

unfoldable pub order_items : Option Text → Items → Option Items
unfolding with_keys sort_keyed items
order_items none xs = some xs
order_items (some k) xs = do es ← with_keys k xs; some (items (sort_keyed es))

abbrev pub extend : Text → Text → Text
extend [] k = k
extend (c ∷ path) k = (c ∷ path) ++ 46 ∷ k

unfoldable mutual
  unfolding normalize order_items key_field sort_fields

  pub project : Keyed → Text → Json → Option Json
  project keyed path (object fs) = do
    gs ← project_fields keyed path fs
    some (object (sort_fields gs))
  project keyed path (array xs) = do
    ys ← project_items keyed path xs
    zs ← order_items (key_field keyed path) ys
    some (array zs)
  project keyed path null = normalize null
  project keyed path (boolean b) = normalize (boolean b)
  project keyed path (integer n) = normalize (integer n)
  project keyed path (negative n) = normalize (negative n)
  project keyed path (text s) = normalize (text s)
  project keyed path float = normalize float
  project keyed path other = normalize other

  pub project_items : Keyed → Text → Items → Option Items
  project_items keyed path nil = some nil
  project_items keyed path (cons x xs) = do
    y ← project keyed path x
    ys ← project_items keyed path xs
    some (cons y ys)

  pub project_fields : Keyed → Text → Fields → Option Fields
  project_fields keyed path end = some end
  project_fields keyed path (odd v r) = none
  project_fields keyed path (field k v r) = do
    w ← project keyed (extend path k) v
    q ← project_fields keyed path r
    some (field k w q)

unfoldable pub family_name : ActionFamily → Text
family_name idle = codes "idle"
family_name personal_boss = codes "personal_boss"
family_name ordinary_boss = codes "ordinary_boss"
family_name world_boss = codes "world_boss"
family_name profession = codes "profession"
family_name safe_reward = codes "safe_reward"

-- `sha256_of` is the hexadecimal SHA-256 of `json.dumps` of a value: the two library calls.
module _ (sha256_of : Json → Text) where
  unfoldable pub canonical_fingerprint : ActionFamily → Keyed → Json → Option Text
  unfolding project normalize family_name
  canonical_fingerprint family keyed projection = do
    p ← project keyed [] projection
    q ← normalize (
        object
          (field (codes "family") (text (family_name family)) (field (codes "projection") p end)))
    some (codes "pgfp:v1:" ++ sha256_of q)
