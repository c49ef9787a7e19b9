-- ===== src/Plans/Canonical/Arrays.antt =====
-- The items of a keyed array in `_normalize_projection` (policy/plans.py), by their sorted list.
use placegame_mcp.Prelude.{
  ◌≡◌, refl, sym, ap, ◌∙◌, arith, true, false, Option, none, some, List, ◌∷◌, Bool-cases, inl, inr,
}
use placegame_mcp.Text.{Text, text_eq, text_eq_sound}
use placegame_mcp.Plans.Canonical
use placegame_mcp.Plans.Canonical.{
  Json, Items, nil, cons, Fields, end, field, odd, Keyed, ◌>>=◌, extend, text_lt, insert_field,
  insert_keyed, sort_fields, sort_keyed, items, normalize, get_text, key_of, with_keys, key_field,
  order_items, project, project_items, project_fields, canonical_fingerprint,
}
use placegame_mcp.Plans.Canonical.Order.{
  insert_keyed_swap, get_text-insert_field, get_text-insert_other,
}
use placegame_mcp.Plans.Canonical.Dictionaries.{
  sorted_fields, insert_both, sorted_fields-field, odd_dropped, project-sorted_fields,
}

-- The items of an array, in another order if all have texts that differ under the key.
pub data Reordered (k : Text) : Items → Items → Type 0 where
  same_items : {xs : Items} → Reordered k xs xs
  later_items : {xs ys zs : Items} → Reordered k xs ys → Reordered k ys zs → Reordered k xs zs
  next : (x : Json) {xs ys : Items} → Reordered k xs ys → Reordered k (cons x xs) (cons x ys)
  swap_items :
      (x y : Json) (s t : Text) (xs : Items)
      → key_of k x ≡ some s
      → key_of k y ≡ some t
      → text_eq s t ≡ false
      → Reordered k (cons x (cons y xs)) (cons y (cons x xs))

module _ (keyed : Keyed) (path : Text) (k : Text) where
  pub sorted_items : Items → Option (List (Text × Json))
  sorted_items xs =
      project_items keyed path xs >>= λ ys. with_keys k ys >>= λ es. some (sort_keyed es)

  insert_key : Option Text → Json → Option (List (Text × Json)) → Option (List (Text × Json))
  insert_key none y s = none
  insert_key (some t) y none = none
  insert_key (some t) y (some s) = some (insert_keyed (t, y) s)

  insert_item : Option Json → Option (List (Text × Json)) → Option (List (Text × Json))
  insert_item none s = none
  insert_item (some y) s = insert_key (key_of k y) y s

  insert_key-none : (t : Option Text) (y : Json) → insert_key t y none ≡ none
  unfolding insert_key
  insert_key-none none y = refl
  insert_key-none (some t) y = refl

  insert_key_after_keys :
      (t : Option Text) (y : Json) (s : Option (List (Text × Json)))
      → (t >>= λ key. s >>= λ rest. some ((key, y) ∷ rest)) >>= (λ es. some (sort_keyed es))
        ≡ insert_key t y (s >>= λ es. some (sort_keyed es))
  unfolding insert_key sort_keyed
  insert_key_after_keys none y s = refl
  insert_key_after_keys (some t) y none = refl
  insert_key_after_keys (some t) y (some s) = refl

  sorted_items-cons :
      (x : Json) (xs : Items)
      → sorted_items (cons x xs) ≡ insert_item (project keyed path x) (sorted_items xs)
  unfolding sorted_items insert_item project with_keys
  sorted_items-cons x xs = go (project keyed path x) (project_items keyed path xs)
    where
      go :
          (y : Option Json) (ys : Option Items)
          → (y >>= λ y. ys >>= λ ys. some (cons y ys))
              >>= (λ zs. with_keys k zs >>= λ es. some (sort_keyed es))
            ≡ insert_item y (ys >>= λ zs. with_keys k zs >>= λ es. some (sort_keyed es))
      go none ys = refl
      go (some y) none = sym (insert_key-none (key_of k y) y)
      go (some y) (some ys) = insert_key_after_keys (key_of k y) y (with_keys k ys)

  -- The projection keeps the key of an item.
  KeepsText : Text → Option Fields → Type 0
  KeepsText s none = Unit
  KeepsText s (some gs) = get_text k gs ≡ some s

  Keeps : Text → Option Json → Type 0
  Keeps s none = Unit
  Keeps s (some y) = key_of k y ≡ some s

  insert_item_swap :
      (x y : Option Json) (s t : Text) (es : Option (List (Text × Json)))
      → Keeps s x
      → Keeps t y
      → text_eq s t ≡ false
      → insert_item x (insert_item y es) ≡ insert_item y (insert_item x es)
  unfolding insert_item insert_key Keeps
  insert_item_swap none none s t es a b d = refl
  insert_item_swap none (some y) s t es a b d = sym (insert_key-none (key_of k y) y)
  insert_item_swap (some x) none s t es a b d = insert_key-none (key_of k x) x
  insert_item_swap (some x) (some y) s t none a b d = rw (a, b) refl
  insert_item_swap (some x) (some y) s t (some es) a b d =
      rw (a, b) (ap some (insert_keyed_swap s t x y es d))

  insert_both-KeepsText :
      (j s : Text) (v : Option Json) (q : Option Fields)
      → text_eq j k ≡ false
      → KeepsText s q
      → KeepsText s (insert_both keyed path j v q)
  unfolding insert_both KeepsText
  insert_both-KeepsText j s none q d h = tt
  insert_both-KeepsText j s (some v) none d h = tt
  insert_both-KeepsText j s (some v) (some q) d h = get_text-insert_other k j v q d ∙ h

  insert_both-key :
      (s : Text) (q : Option Fields)
      → KeepsText s (insert_both keyed path k (some (Canonical.text s)) q)
  unfolding insert_both KeepsText
  insert_both-key s none = tt
  insert_both-key s (some q) = get_text-insert_field k s q

  -- A value that is a text is one in the projection.
  text_under-key :
      (j s : Text) (v : Json) (q : Option Fields)
      → elim v [ Canonical.text t ↦ some t | _ ↦ none ] ≡ some s
      → text_eq j k ≡ true
      → KeepsText s (insert_both keyed path j (project keyed (extend path j) v) q)
  unfolding project normalize
  text_under-key j s (Canonical.text t) q h d =
      let same_text : t ≡ s = ground arith in
      rw (text_eq_sound j k d, same_text) (insert_both-key s q)
  text_under-key j s Canonical.null q h d = absurd (ground arith)
  text_under-key j s (Canonical.boolean b) q h d = absurd (ground arith)
  text_under-key j s (Canonical.integer n) q h d = absurd (ground arith)
  text_under-key j s (Canonical.negative n) q h d = absurd (ground arith)
  text_under-key j s Canonical.float q h d = absurd (ground arith)
  text_under-key j s (Canonical.array xs) q h d = absurd (ground arith)
  text_under-key j s (Canonical.object fs) q h d = absurd (ground arith)
  text_under-key j s Canonical.other q h d = absurd (ground arith)

  sorted_fields-KeepsText :
      (fs : Fields) (s : Text) → get_text k fs ≡ some s → KeepsText s (sorted_fields keyed path fs)
  unfolding get_text KeepsText
  sorted_fields-KeepsText end s h = absurd (ground arith)
  sorted_fields-KeepsText (odd v r) s h = rw (odd_dropped keyed path v r) tt
  sorted_fields-KeepsText (field j v r) s h =
      rw (sorted_fields-field keyed path j v r) (elim (Bool-cases (text_eq j k)) [
        | inl e ↦ text_under-key j s v (sorted_fields keyed path r) (rw e at h) e
        | inr e ↦
            insert_both-KeepsText j s (project keyed (extend path j) v) (sorted_fields keyed path r)
              e (sorted_fields-KeepsText r s (rw e at h))
      ])

  object-Keeps :
      (s : Text) (q : Option Fields)
      → KeepsText s q
      → Keeps s (q >>= λ gs. some (Canonical.object gs))
  unfolding Keeps KeepsText key_of
  object-Keeps s none h = tt
  object-Keeps s (some q) h = h

  project-Keeps : (x : Json) (s : Text) → key_of k x ≡ some s → Keeps s (project keyed path x)
  unfolding key_of
  project-Keeps (Canonical.object fs) s h =
      rw (project-sorted_fields keyed path fs)
        (object-Keeps s (sorted_fields keyed path fs) (sorted_fields-KeepsText fs s h))
  project-Keeps Canonical.null s h = absurd (ground arith)
  project-Keeps (Canonical.boolean b) s h = absurd (ground arith)
  project-Keeps (Canonical.integer n) s h = absurd (ground arith)
  project-Keeps (Canonical.negative n) s h = absurd (ground arith)
  project-Keeps (Canonical.text t) s h = absurd (ground arith)
  project-Keeps Canonical.float s h = absurd (ground arith)
  project-Keeps (Canonical.array xs) s h = absurd (ground arith)
  project-Keeps Canonical.other s h = absurd (ground arith)

  pub Reordered-sorted_items :
      {xs ys : Items} → Reordered k xs ys → sorted_items xs ≡ sorted_items ys
  Reordered-sorted_items same_items = refl
  Reordered-sorted_items (later_items a b) = Reordered-sorted_items a ∙ Reordered-sorted_items b
  Reordered-sorted_items (next x {xs} {ys} r) =
      rw (sorted_items-cons x xs, sorted_items-cons x ys, Reordered-sorted_items r) refl
  Reordered-sorted_items (swap_items x y s t xs a b d) =
      rw
        (
          sorted_items-cons x (cons y xs),
          sorted_items-cons y xs,
          sorted_items-cons y (cons x xs),
          sorted_items-cons x xs,
        )
        (insert_item_swap (project keyed path x) (project keyed path y) s t (sorted_items xs)
          (project-Keeps x s a) (project-Keeps y t b) d)

  pub project-sorted_items :
      (xs : Items)
      → key_field keyed path ≡ some k
      → project keyed path (Canonical.array xs)
        ≡ sorted_items xs >>= λ es. some (Canonical.array (items es))
  unfolding project sorted_items order_items
  project-sorted_items xs e = rw e (go (project_items keyed path xs))
    where
      again :
          (es : Option (List (Text × Json)))
          → (es >>= λ es. some (items (sort_keyed es))) >>= (λ zs. some (Canonical.array zs))
            ≡ (es >>= λ es. some (sort_keyed es)) >>= λ es. some (Canonical.array (items es))
      again none = refl
      again (some es) = refl

      go :
          (ys : Option Items)
          → ys >>= (λ ys. (with_keys k ys >>= λ es. some (items (sort_keyed es))) >>= λ zs.
              some (Canonical.array zs))
            ≡ (ys >>= λ ys. with_keys k ys >>= λ es. some (sort_keyed es)) >>= λ es.
                some (Canonical.array (items es))
      go none = refl
      go (some ys) = again (with_keys k ys)
