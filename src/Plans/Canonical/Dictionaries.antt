-- ===== src/Plans/Canonical/Dictionaries.antt =====
-- The fields of a dictionary in `_normalize_projection` (policy/plans.py), by their sorted list.
use placegame_mcp.Prelude.{◌≡◌, refl, ap, false, Option, none, some}
use placegame_mcp.Text.{Text, text_eq}
use placegame_mcp.Plans.Canonical
use placegame_mcp.Plans.Canonical.{
  Json, Items, nil, cons, Fields, end, field, odd, Keyed, ◌>>=◌, extend, text_lt, insert_field,
  insert_keyed, sort_fields, sort_keyed, items, normalize, get_text, key_of, with_keys, key_field,
  order_items, project, project_items, project_fields, canonical_fingerprint,
}
use placegame_mcp.Plans.Canonical.Order.{insert_field_swap}

module _ (keyed : Keyed) (path : Text) where
  -- The fields of a dictionary, projected and sorted.
  pub sorted_fields : Fields → Option Fields
  sorted_fields fs = project_fields keyed path fs >>= λ gs. some (sort_fields gs)

  unfoldable pub insert_both : Text → Option Json → Option Fields → Option Fields
  insert_both k none s = none
  insert_both k (some v) none = none
  insert_both k (some v) (some s) = some (insert_field k v s)

  pub sorted_fields-field :
      (k : Text) (v : Json) (fs : Fields)
      → sorted_fields (field k v fs)
        ≡ insert_both k (project keyed (extend path k) v) (sorted_fields fs)
  unfolding sorted_fields insert_both project sort_fields
  sorted_fields-field k v fs = go (project keyed (extend path k) v) (project_fields keyed path fs)
    where
      go :
          (v : Option Json) (s : Option Fields)
          → (v >>= λ w. s >>= λ q. some (field k w q)) >>= (λ gs. some (sort_fields gs))
            ≡ insert_both k v (s >>= λ gs. some (sort_fields gs))
      go none s = refl
      go (some v) none = refl
      go (some v) (some s) = refl

  pub insert_both_swap :
      (k j : Text) (v w : Option Json) (s : Option Fields)
      → text_eq k j ≡ false
      → insert_both k v (insert_both j w s) ≡ insert_both j w (insert_both k v s)
  unfolding insert_both
  insert_both_swap k j none none s d = refl
  insert_both_swap k j none (some w) none d = refl
  insert_both_swap k j none (some w) (some s) d = refl
  insert_both_swap k j (some v) none none d = refl
  insert_both_swap k j (some v) none (some s) d = refl
  insert_both_swap k j (some v) (some w) none d = refl
  insert_both_swap k j (some v) (some w) (some s) d = ap some (insert_field_swap k j v w s d)

  pub odd_dropped : (v : Json) (r : Fields) → sorted_fields (odd v r) ≡ none
  unfolding sorted_fields project
  odd_dropped v r = refl

  pub project-sorted_fields :
      (fs : Fields)
      → project keyed path (Canonical.object fs)
        ≡ sorted_fields fs >>= λ gs. some (Canonical.object gs)
  unfolding project sorted_fields
  project-sorted_fields fs = go (project_fields keyed path fs)
    where
      go :
          (s : Option Fields)
          → (s >>= λ gs. some (Canonical.object (sort_fields gs)))
            ≡ (s >>= λ gs. some (sort_fields gs)) >>= λ gs. some (Canonical.object gs)
      go none = refl
      go (some s) = refl
