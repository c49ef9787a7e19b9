-- ===== src/Plans/Store/Results.antt =====
-- What the store writes into a plan fits the model that reads it back.
use placegame_mcp.Errors.{ok}
use placegame_mcp.Prelude.{
  ℕ, zero, suc, ◌||◌, not, ◌++◌, first-holds, ◌+◌, ◌≤◌, ◌≡◌, refl, arith, Bool, true, Option, none,
  some, [], ◌∷◌, length, first, Bool-cases, Option-cases, inl, inr, ltb,
}
use placegame_mcp.Prelude.Keys.{first-write_self}
use placegame_mcp.Text.{
  Text, Actor, cut, length-cut, is_identifier, is_identifier_char, every, joined,
}
use placegame_mcp.Plans.Rows.{
  ActionPlan, ResultValue, text, boolean, integer, negative, other, ExecutionResult, value_valid,
  entries_valid, PlanState, result_valid,
}
use placegame_mcp.Plans.Store.{
  Plans, by_id, is_terminal, is_open, put, stored, put_safe, collect_safe, finish, as_finished,
  sanitize, confirmed_by,
}

length-put : (k : Text) (v : ResultValue) (r : ExecutionResult) → length (put k v r) ≤ length r + 1
unfolding put
length-put k v [] = omega arith
length-put k v ((j, w) ∷ r) = ground (arith, length-put k v r)

entries_valid-put :
    (k : Text) (v : ResultValue) (r : ExecutionResult)
    → length k ≤ 64
    → value_valid v ≡ true
    → entries_valid r ≡ true
    → entries_valid (put k v r) ≡ true
unfolding put entries_valid
entries_valid-put k v [] hk hv hr = ground arith
entries_valid-put k v ((j, w) ∷ r) hk hv hr = ground (arith, entries_valid-put k v r)

stored_valid : (v w : ResultValue) → stored v ≡ some w → value_valid w ≡ true
unfolding stored value_valid
stored_valid (text s) w h = ground (arith, length-cut 256 s)
stored_valid (boolean b) w h = ground arith
stored_valid (integer n) w h = ground arith
stored_valid (negative n) w h = ground arith
stored_valid other w h = cc

abbrev Fits : ExecutionResult → Type 0
Fits r = (length r ≤ 16) × (entries_valid r ≡ true)

put_safe-Fits :
    (k : Text) (v : Option ResultValue) (safe : ExecutionResult)
    → ((w : ResultValue) → v ≡ some w → value_valid w ≡ true)
    → Fits safe
    → Fits (put_safe k v safe)
unfolding put_safe
put_safe-Fits k none safe h f = f
put_safe-Fits k (some w) safe h f = elim (Bool-cases (ltb (length safe) 16)) [
  | inr full ↦ rw full f
  | inl room ↦ rw room (
    omega (arith, length-put (cut 64 k) w safe, room_lt (length safe) room),
    entries_valid-put (cut 64 k) w safe (length-cut 64 k) (h w refl) f.1,
  )
]
  where
    room_lt : (n : ℕ) → ltb n 16 ≡ true → n + 1 ≤ 16
    room_lt n e = ground arith

collect_safe-Fits : (r safe : ExecutionResult) → Fits safe → Fits (collect_safe r safe)
unfolding collect_safe
collect_safe-Fits [] safe f = f
collect_safe-Fits ((k, v) ∷ r) safe f =
    collect_safe-Fits r (put_safe k (stored v) safe)
      (put_safe-Fits k (stored v) safe (λ w. stored_valid v w) f)

collect_safe_valid : (r : ExecutionResult) → result_valid (some (collect_safe r [])) ≡ true
unfolding result_valid
collect_safe_valid r =
    ground (arith, collect_safe-Fits r [] (omega arith, unfold entries_valid in refl))

-- When `finish` succeeds, the plan has the status and the time that were given, and the result that
-- it now holds passes the validators of TypedActionPlan, however many entries, however long keys
-- and texts, and whatever other values the given result had.
pub finish-result_valid :
    (i now : ℕ) (status : PlanState) (r : ExecutionResult) (s : Plans)
    → (finish i status r now s).1 ≡ ok tt
    → (p : ActionPlan) × (first (by_id i) (finish i status r now s).0.rows ≡ some p)
      × (p.execution_state ≡ status)
      × (p.executed_at ≡ some now)
      × (result_valid p.execution_result ≡ true)
unfolding finish
finish-result_valid i now status r s h = elim (Bool-cases (is_terminal status)) [
  | inr bad ↦ absurd (ground arith)
  | inl t ↦ elim (Option-cases (first (by_id i) s.rows)) [
    | inl e ↦ absurd (ground arith)
    | inr (p, e) ↦
        elim (Bool-cases (is_terminal p.execution_state || not (is_open p.execution_state))) [
          | inl bad ↦ absurd (ground arith)
          | inr good ↦
              rw (t, e, good, finish)
                (
                  as_finished status r now p,
                  first-write_self (λ q. q.id) (as_finished status r now p) p i s.rows
                      (ground (arith, first-holds (by_id i) s.rows p e)) e,
                  refl,
                  refl,
                  collect_safe_valid r,
                )
        ]
  ]
]

sanitize-identifier : (s : Text) → every is_identifier_char (sanitize s) ≡ true
unfolding sanitize
sanitize-identifier [] = refl
sanitize-identifier (c ∷ s) = ground (arith, sanitize-identifier s)

every-append :
    (p : ℕ → Bool) (s t : Text) → every p s ≡ true → every p t ≡ true → every p (s ++ t) ≡ true
every-append p [] t hs ht = ht
every-append p (c ∷ s) t hs ht = ground (arith, every-append p s t)

every-cut : (p : ℕ → Bool) (n : ℕ) (s : Text) → every p s ≡ true → every p (cut n s) ≡ true
unfolding cut
every-cut p zero s h = refl
every-cut p (suc n) [] h = refl
every-cut p (suc n) (c ∷ s) h = ground (arith, every-cut p n s)

nonempty_cut : (n c : ℕ) (s t : Text) → 1 ≤ length (cut (suc n) (s ++ c ∷ t))
unfolding cut
nonempty_cut n c [] t = omega arith
nonempty_cut n c (d ∷ s) t = omega arith

-- What `confirm` records as the confirming actor is an identifier, whatever the actor's own
-- identifier is, if the kind has only identifier characters: 1 to 128 letters, digits and `_.:@-`.
pub confirmed_by-is_identifier :
    (actor : Actor)
    → every is_identifier_char actor.kind ≡ true
    → is_identifier (confirmed_by actor) ≡ true
unfolding is_identifier confirmed_by
confirmed_by-is_identifier actor h =
    let whole = joined actor.kind (sanitize actor.actor_id) in
    let chars : every is_identifier_char whole ≡ true =
      every-append is_identifier_char actor.kind (58 ∷ sanitize actor.actor_id) h
        (sanitize-identifier actor.actor_id) in
    ground (
      arith,
      length-cut 128 whole,
      every-cut is_identifier_char 128 whole chars,
      nonempty_cut 127 58 actor.kind (sanitize actor.actor_id),
    )
