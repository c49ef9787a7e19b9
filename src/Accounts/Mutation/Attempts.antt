-- ===== src/Accounts/Mutation/Attempts.antt =====
-- The attempts of a mutation together.
use placegame_mcp.Errors.{Error, Result, ok, raised}
use placegame_mcp.Prelude.{
  ℕ, zero, suc, ◌+◌, ◌≤◌, ◌<◌, ◌≡◌, refl, ◌∙◌, arith, Bool, true, false, Option, none, some, List,
  leb, Bool-cases, Option-cases, inl, inr,
}
use placegame_mcp.Text.{Text, Actor}
use placegame_mcp.Plans.Rows.{ResultValue}
use placegame_mcp.Accounts.Rows.{Tables}
use placegame_mcp.Accounts.Session.{is_session_rejected}
use placegame_mcp.Accounts.Mutation.{
  Reply, returned, raises, cancelled, Mutation, Progress, Step, prepare,
}
use placegame_mcp.Accounts.Mutation.Handling.{
  Ending, succeeds, fails, cancels, aborts, retries, Ended, is_conflict, is_ambiguous, concluded,
  on_verified, on_ambiguous, on_value, on_error, on_rejected, handle, cancel, succeed,
}
use placegame_mcp.Accounts.Mutation.Loop.{again, send, attempts}

abbrev pub is_retry : {A : Type 0} → Ended A → Bool
is_retry (p, retries) = true
is_retry (p, succeeds o) = false
is_retry (p, fails c e) = false
is_retry (p, cancels) = false
is_retry (p, aborts) = false

-- An attempt that is made again is one of the first two.
abbrev Early : {A : Type 0} → ℕ → Ended A → Type 0
Early attempt e = is_retry e ≡ true → attempt < 2

module _ {A : Type 0} (m : Mutation A) (actor : Actor) (attempt : ℕ) (p : Progress) where
  concluded-Early :
      (result : List (Text × ResultValue)) (c : Bool) (ending : Ending A)
      (out : Tables × Result (Unit {0}))
      → is_retry (p, ending) ≡ false
      → Early attempt (concluded actor p result c ending out)
  concluded-Early result c (succeeds o) (t, ok u) n h = absurd (ground (arith, h))
  concluded-Early result c (fails d e) (t, ok u) n h = absurd (ground (arith, h))
  concluded-Early result c cancels (t, ok u) n h = absurd (ground (arith, h))
  concluded-Early result c aborts (t, ok u) n h = absurd (ground (arith, h))
  concluded-Early result c retries (t, ok u) n h = absurd (ground (arith, n))
  concluded-Early result c ending (t, raised e) n h = absurd (ground (arith, h))

  cancel-Early : (now : ℕ) → Early {A = A} attempt (cancel actor now p)
  unfolding cancel
  cancel-Early now = concluded-Early _ true cancels _ refl

  succeed-Early : (now : ℕ) (b : Bool) (v : Option A) → Early attempt (succeed actor now b v p)
  unfolding succeed
  succeed-Early now b v =
      concluded-Early _ false (succeeds (record { applied = true; reconciled = b; result = v })) _
        refl

  on_verified-Early :
      (b : Bool) (v : Option A) (r : Reply Bool)
      → Early attempt (on_verified m actor attempt b v p r)
  unfolding on_verified
  on_verified-Early b v (returned true) = succeed-Early (m.game attempt).now b v
  on_verified-Early b v (returned false) = λ h. absurd (ground (arith, h))
  on_verified-Early b v (raises e) = λ h. absurd (ground (arith, h))
  on_verified-Early b v cancelled = cancel-Early (m.game attempt).now

  on_ambiguous-Early :
      (verify : ℕ → Option A → Reply Bool) (r : Reply (Unit {0}))
      → Early attempt (on_ambiguous m actor attempt verify p r)
  unfolding on_ambiguous
  on_ambiguous-Early verify (returned u) = on_verified-Early true none (verify attempt none)
  on_ambiguous-Early verify (raises e) = λ h. absurd (ground (arith, h))
  on_ambiguous-Early verify cancelled = cancel-Early (m.game attempt).now

  on_value-Early : (v : A) (r : Reply (Unit {0})) → Early attempt (on_value m actor attempt v p r)
  unfolding on_value
  on_value-Early v (returned u) = elim (Option-cases m.verify) [
    | inl e ↦ rw e (succeed-Early (m.game attempt).now false (some v))
    | inr (f, e) ↦ rw e (on_verified-Early false (some v) (f attempt (some v)))
  ]
  on_value-Early v (raises e) = λ h. absurd (ground (arith, h))
  on_value-Early v cancelled = cancel-Early (m.game attempt).now

  on_rejected-Early : (out : Tables × Result (Unit {0})) → Early {A = A} attempt (on_rejected p out)
  on_rejected-Early (t, ok u) = λ h. absurd (ground (arith, h))
  on_rejected-Early (t, raised e) = λ h. absurd (ground (arith, h))

  on_error-Early : (e : Error) → Early attempt (on_error m actor attempt e p)
  unfolding on_error
  on_error-Early e = elim (Bool-cases (is_conflict e)) [
    | inl c ↦ elim (Bool-cases (leb 2 attempt)) [
      | inl last ↦ rw (c, last) (λ h. absurd (ground (arith, h)))
      | inr more ↦ λ h. ground (arith, more)
    ]
    | inr c ↦ elim (Bool-cases (is_ambiguous e)) [
      | inl a ↦ elim (Option-cases m.verify) [
        | inl v ↦ rw (c, a, v) (λ h. absurd (ground (arith, h)))
        | inr (f, v) ↦ rw (c, a, v) (on_ambiguous-Early f (m.reread attempt))
      ]
      | inr a ↦ elim (Bool-cases (is_session_rejected e)) [
        | inl r ↦ rw (c, a, r) (on_rejected-Early _)
        | inr r ↦ rw (c, a, r) (λ h. absurd (ground (arith, h)))
      ]
    ]
  ]

  pub handle-Early : (r : Reply A) → Early attempt (handle m actor attempt p r)
  unfolding handle
  handle-Early (returned v) = on_value-Early v (m.reread attempt)
  handle-Early (raises e) = on_error-Early e
  handle-Early cancelled = cancel-Early (m.game attempt).now

module _ {A : Type 0} (m : Mutation A) (actor : Actor) (account_id : ℕ) where
  send-Early : (attempt : ℕ) (s : Step) → Early attempt (send m actor attempt s).1
  unfolding send
  send-Early attempt (p, raised e) = λ h. absurd (ground (arith, h))
  send-Early attempt (p, ok u) =
      handle-Early m actor attempt (record p { sent = true }) (m.operation attempt)

  send_once : (attempt : ℕ) (s : Step) → (send m actor attempt s).0 ≤ 1
  unfolding send
  send_once attempt (p, raised e) = omega arith
  send_once attempt (p, ok u) = omega arith

  again_bound :
      (out : ℕ × Ended A) (next : Tables → ℕ × Ended A) (n : ℕ)
      → out.0 ≤ 1
      → ((t : Tables) → (next t).0 ≤ n)
      → (again out next).0 ≤ suc n
  again_bound (k, (p, retries)) next n h g = omega (arith, h, g p.tables)
  again_bound (k, (p, succeeds o)) next n h g = omega (arith, h)
  again_bound (k, (p, fails c e)) next n h g = omega (arith, h)
  again_bound (k, (p, cancels)) next n h g = omega (arith, h)
  again_bound (k, (p, aborts)) next n h g = omega (arith, h)

  attempts_bound :
      (left attempt : ℕ) (t : Tables) → (attempts m actor account_id left attempt t).0 ≤ left
  unfolding attempts
  attempts_bound zero attempt t = omega arith
  attempts_bound (suc left) attempt t =
      again_bound (send m actor attempt (prepare m actor attempt account_id t))
        (attempts m actor account_id left (attempt + 1)) left
        (send_once attempt (prepare m actor attempt account_id t))
        (attempts_bound left (attempt + 1))

  again_same :
      (out : ℕ × Ended A) (f g : Tables → ℕ × Ended A)
      → (is_retry out.1 ≡ true → (t : Tables) → f t ≡ g t)
      → again out f ≡ again out g
  again_same (k, (p, retries)) f g h = rw (h refl p.tables) refl
  again_same (k, (p, succeeds o)) f g h = refl
  again_same (k, (p, fails c e)) f g h = refl
  again_same (k, (p, cancels)) f g h = refl
  again_same (k, (p, aborts)) f g h = refl

  -- An attempt beyond the third is never made.
  one_more_attempt :
      (left attempt : ℕ) (t : Tables)
      → 3 ≤ suc left + attempt
      → attempts m actor account_id (suc (suc left)) attempt t
        ≡ attempts m actor account_id (suc left) attempt t
  unfolding attempts
  one_more_attempt zero attempt t h =
      again_same (send m actor attempt (prepare m actor attempt account_id t)) _ _
        λ r. absurd (omega (arith, h, send-Early attempt (prepare m actor attempt account_id t) r))
  one_more_attempt (suc left) attempt t h =
      again_same (send m actor attempt (prepare m actor attempt account_id t)) _ _
        λ r u. one_more_attempt left (attempt + 1) u (omega (arith, h))

  enough :
      (extra : ℕ) (t : Tables)
      → attempts m actor account_id (suc (suc (suc extra))) 0 t ≡ attempts m actor account_id 3 0 t
  enough zero t = refl
  enough (suc extra) t = one_more_attempt (suc (suc extra)) 0 t (omega arith) ∙ enough extra t

-- The loop of three attempts always comes to an end of its own, since more attempts would change
-- nothing, and it sends the operation at most three times.
pub attempts-enough :
    {A : Type 0} (m : Mutation A) (actor : Actor) (account_id left : ℕ) (t : Tables)
    → 3 ≤ left
    → (attempts m actor account_id left 0 t ≡ attempts m actor account_id 3 0 t)
      × ((attempts m actor account_id left 0 t).0 ≤ 3)
attempts-enough m actor account_id zero t h = absurd (omega (arith, h))
attempts-enough m actor account_id (suc zero) t h = absurd (omega (arith, h))
attempts-enough m actor account_id (suc (suc zero)) t h = absurd (omega (arith, h))
attempts-enough m actor account_id (suc (suc (suc extra))) t h = (
  enough m actor account_id extra t,
  rw (enough m actor account_id extra t) (attempts_bound m actor account_id 3 0 t),
)
