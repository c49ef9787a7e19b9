-- ===== src/Plans/Canonical/Same.antt =====
-- Projections that differ in the order of keys and of keyed items only have one fingerprint
-- (policy/plans.py).
use placegame_mcp.Prelude.{◌≡◌, refl, sym, ap, ◌∙◌, false, Option, some, []}
use placegame_mcp.Text.{Text, text_eq}
use placegame_mcp.Plans.Rows.{ActionFamily}
use placegame_mcp.Plans.Canonical
use placegame_mcp.Plans.Canonical.{
  Json, Items, nil, cons, Fields, end, field, odd, Keyed, ◌>>=◌, extend, text_lt, insert_field,
  insert_keyed, sort_fields, sort_keyed, items, normalize, get_text, key_of, with_keys, key_field,
  order_items, project, project_items, project_fields, canonical_fingerprint,
}
use placegame_mcp.Plans.Canonical.Dictionaries.{
  sorted_fields, sorted_fields-field, insert_both_swap, project-sorted_fields,
}
use placegame_mcp.Plans.Canonical.Arrays.{Reordered, Reordered-sorted_items, project-sorted_items}

-- One value up to the order of the keys in its dictionaries, and of the items in its keyed arrays.
mutual
  pub data Same (keyed : Keyed) : Text → Json → Json → Type 0 where
    same : {path : Text} {x : Json} → Same keyed path x x
    later :
        {path : Text} {x y z : Json}
        → Same keyed path x y
        → Same keyed path y z
        → Same keyed path x z
    object :
        {path : Text} {fs gs : Fields}
        → SameFields keyed path fs gs
        → Same keyed path (Canonical.object fs) (Canonical.object gs)
    array :
        {path : Text} {xs ys : Items}
        → SameItems keyed path xs ys
        → Same keyed path (Canonical.array xs) (Canonical.array ys)
    reordered :
        {path : Text} {k : Text} {xs ys : Items}
        → key_field keyed path ≡ some k
        → Reordered k xs ys
        → Same keyed path (Canonical.array xs) (Canonical.array ys)

  pub data SameFields (keyed : Keyed) : Text → Fields → Fields → Type 0 where
    same_fields : {path : Text} {fs : Fields} → SameFields keyed path fs fs
    later_fields :
        {path : Text} {fs gs hs : Fields}
        → SameFields keyed path fs gs
        → SameFields keyed path gs hs
        → SameFields keyed path fs hs
    next_field :
        {path : Text} (k : Text) {v w : Json} {fs gs : Fields}
        → Same keyed (extend path k) v w
        → SameFields keyed path fs gs
        → SameFields keyed path (field k v fs) (field k w gs)
    swap_fields :
        {path : Text} (k j : Text) (v w : Json) (fs : Fields)
        → text_eq k j ≡ false
        → SameFields keyed path (field k v (field j w fs)) (field j w (field k v fs))

  pub data SameItems (keyed : Keyed) : Text → Items → Items → Type 0 where
    no_items : {path : Text} → SameItems keyed path nil nil
    next_item :
        {path : Text} {x y : Json} {xs ys : Items}
        → Same keyed path x y
        → SameItems keyed path xs ys
        → SameItems keyed path (cons x xs) (cons y ys)

fields_object : Option Fields → Option Json
fields_object s = s >>= λ gs. some (Canonical.object gs)

mutual
  unfolding project fields_object

  project-Same :
      (keyed : Keyed) {path : Text} {x y : Json}
      → Same keyed path x y
      → project keyed path x ≡ project keyed path y
  project-Same keyed same = refl
  project-Same keyed (later a b) = project-Same keyed a ∙ project-Same keyed b
  project-Same keyed (object {path} {fs} {gs} h) =
      project-sorted_fields keyed path fs
      ∙ ap fields_object (sorted_fields-Same keyed h)
      ∙ sym (project-sorted_fields keyed path gs)
  project-Same keyed (array h) = rw (project_items-Same keyed h) refl
  project-Same keyed (reordered {path} {k} {xs} {ys} e h) =
      rw
        (
          project-sorted_items keyed path k xs e,
          project-sorted_items keyed path k ys e,
          Reordered-sorted_items keyed path k h,
        )
        refl

  sorted_fields-Same :
      (keyed : Keyed) {path : Text} {fs gs : Fields}
      → SameFields keyed path fs gs
      → sorted_fields keyed path fs ≡ sorted_fields keyed path gs
  sorted_fields-Same keyed same_fields = refl
  sorted_fields-Same keyed (later_fields a b) =
      sorted_fields-Same keyed a ∙ sorted_fields-Same keyed b
  sorted_fields-Same keyed (next_field {path} k {v} {w} {fs} {gs} a b) =
      rw
        (
          sorted_fields-field keyed path k v fs,
          sorted_fields-field keyed path k w gs,
          project-Same keyed a,
          sorted_fields-Same keyed b,
        )
        refl
  sorted_fields-Same keyed (swap_fields {path} k j v w fs d) =
      rw
        (
          sorted_fields-field keyed path k v (field j w fs),
          sorted_fields-field keyed path j w fs,
          sorted_fields-field keyed path j w (field k v fs),
          sorted_fields-field keyed path k v fs,
        )
        (insert_both_swap keyed path k j (project keyed (extend path k) v)
          (project keyed (extend path j) w) (sorted_fields keyed path fs) d)

  project_items-Same :
      (keyed : Keyed) {path : Text} {xs ys : Items}
      → SameItems keyed path xs ys
      → project_items keyed path xs ≡ project_items keyed path ys
  project_items-Same keyed no_items = refl
  project_items-Same keyed (next_item a b) =
      rw (project-Same keyed a, project_items-Same keyed b) refl

-- A fingerprint does not depend on the order of the keys in a dictionary, at any depth, nor on that
-- of the items in an array with a key field, if the keys that change places differ; and both have no
-- fingerprint where one has none.
pub fingerprint_unordered :
    (sha256_of : Json → Text) (family : ActionFamily) (keyed : Keyed) (x y : Json)
    → Same keyed [] x y
    → canonical_fingerprint sha256_of family keyed x
      ≡ canonical_fingerprint sha256_of family keyed y
unfolding canonical_fingerprint
fingerprint_unordered sha256_of family keyed x y h = rw (project-Same keyed h) refl
