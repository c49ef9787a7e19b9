-- ===== src/Admin/Sessions.antt =====
-- Sequences of calls of AdminAuthService (admin/auth.py): the sessions that they leave.
pub mod Validity
use placegame_mcp.Prelude.{
  ℕ, ◌+◌, ◌<◌, ◌≡◌, refl, sym, subst, arith, Bool, true, false, ◌&&◌, ◌||◌, not, Option, none, some,
  List, [], ◌∷◌, leb, ◌==◌, first, any, keep, update, All, Bool-cases, Option-cases, inl, inr,
  if◌then◌else◌, is_none, All-first, first-holds,
}
use placegame_mcp.Prelude.Keys.{write_row, All-write}
use placegame_mcp.Text.{Text, text_eq, is_empty, strip}
use placegame_mcp.Admin.{
  Answer, granted, refused, breaks, password_too_short, unauthorized, AdminSession, Tables, Service,
  is_session_token, has_password, of_digest, store_setup, read_password_hash, update_password_hash,
  update_found, AdminCredential, new_session, create_session, expired, without, seen, found_session,
  find_session, delete_found, delete_session, delete_all_sessions, setup, is_current, login,
  drop_after, change_password, validate, logout,
}

-- A login with the token that it draws, if it goes through.
pub data AdminCall : Type 0 where
  sets_up : Text → ℕ → AdminCall
  logs_in : Text → Text → ℕ → AdminCall
  changes : Text → Text → ℕ → AdminCall
  validates : Text → ℕ → AdminCall
  logs_out : Text → AdminCall

module _ {ℓ} (P : AdminSession → Type ℓ) where
  All-keep : (p : AdminSession → Bool) (xs : List AdminSession) → All P xs → All P (keep p xs)
  All-keep p [] a = tt
  All-keep p (x ∷ xs) a = elim (Bool-cases (p x)) [
    | inl h ↦ rw h (a.0, All-keep p xs a.1)
    | inr h ↦ rw h (All-keep p xs a.1)
  ]

module _ (service : Service) where
  unfoldable pub call : AdminCall → Tables → Tables
  unfolding setup login change_password validate logout
  call (sets_up password now) t = (setup service password now t).0
  call (logs_in password token now) t = (login service password token now t).0
  call (changes current new now) t = (change_password service current new now t).0
  call (validates token now) t = (validate service token now t).0
  call (logs_out token) t = logout service token t

  unfoldable pub calls : List AdminCall → Tables → Tables
  unfolding call
  calls [] t = t
  calls (c ∷ cs) t = calls cs (call c t)

  -- Every session is of the property, and what a call may do keeps it so.
  module _ (P : AdminSession → Type 0)
      (keeps_seen : (s : AdminSession) (now : ℕ)
        → P s
        → now < s.absolute_expires_at
        → P (seen now s)) where
    found-All :
        (now idle : ℕ) (t : Tables) (o : Option AdminSession)
        → All P t.sessions
        → ((s : AdminSession) → o ≡ some s → P s)
        → All P (found_session now idle t o).0.sessions
    found-All now idle t none a f = a
    found-All now idle t (some s) a f = elim (Bool-cases (expired now idle s)) [
      | inl h ↦ rw h (All-keep P (λ r. not (r.id == s.id)) t.sessions a)
      | inr h ↦ rw h (
          All-write (λ r. r.id) P (seen now s) t.sessions
            (keeps_seen s now (f s refl) (ground (arith, h))) a)
    ]

    delete-All :
        (t : Tables) (o : Option AdminSession)
        → All P t.sessions
        → All P (delete_found t o).sessions
    delete-All t none a = a
    delete-All t (some s) a = All-keep P (λ r. not (r.id == s.id)) t.sessions a

    create-All :
        (d : Text) (now end : ℕ) (t : Tables)
        → ((i : ℕ) → P (new_session i d now end))
        → All P t.sessions
        → All P (create_session d now end t).0.sessions
    unfolding create_session
    create-All d now end t f a = elim (Bool-cases (any (of_digest d) t.sessions)) [
      | inl h ↦ rw h a
      | inr h ↦ rw h (f t.next_id, a)
    ]

    dropped-All :
        (h : Text) (now : ℕ) (t : Tables) (o : Option AdminCredential)
        → All P t.sessions
        → All P (drop_after service (update_found h now t o)).0.sessions
    unfolding delete_all_sessions
    dropped-All h now t none a = a
    dropped-All h now t (some c) a = tt

    setup-All :
        (password : Text) (now : ℕ) (t : Tables)
        → All P t.sessions
        → All P (setup service password now t).0.sessions
    unfolding setup store_setup
    setup-All password now t a = elim (Bool-cases (has_password password)) [
      | inl h ↦ elim (Bool-cases (is_none t.admin)) [ inl n ↦ rw (h, n) a | inr n ↦ rw (h, n) a ]
      | inr h ↦ rw h a
    ]

    validate-All :
        (token : Text) (now : ℕ) (t : Tables)
        → All P t.sessions
        → All P (validate service token now t).0.sessions
    unfolding validate find_session
    validate-All token now t a = elim (Bool-cases (is_session_token token)) [
      | inl h ↦ rw h (
          found-All now service.idle t (first (of_digest (service.digest token)) t.sessions) a
            (λ s e. All-first P (of_digest (service.digest token)) t.sessions s a e))
      | inr h ↦ rw h a
    ]

    logout-All :
        (token : Text) (t : Tables) → All P t.sessions → All P (logout service token t).sessions
    unfolding logout delete_session
    logout-All token t a = elim (Bool-cases (is_session_token token)) [
      | inl h ↦ rw h (delete-All t (first (of_digest (service.digest token)) t.sessions) a)
      | inr h ↦ rw h a
    ]

    -- Either way of a test.
    either-All :
        {A : Type 0} (x y : Tables × Answer A)
        → All P x.0.sessions
        → All P y.0.sessions
        → (b : Bool) → All P (if b then x else y).0.sessions
    either-All x y p q true = p
    either-All x y p q false = q

    -- A login's session has to have the property.
    abbrev Draws : AdminCall → Type 0
    Draws (logs_in password token now) =
        (i : ℕ) → P (new_session i (service.digest token) now (now + service.absolute))
    Draws _ = Unit

    call-All : (c : AdminCall) (t : Tables) → Draws c → All P t.sessions → All P (call c t).sessions
    unfolding call login change_password read_password_hash has_password update_password_hash
    call-All (sets_up password now) t d a = setup-All password now t a
    call-All (logs_in password token now) t d a =
        either-All _ _ (create-All (service.digest token) now (now + service.absolute) t d a) a
          (is_current service password (read_password_hash t))
    call-All (changes current new now) t d a =
        either-All _ _
          (either-All _ _ (dropped-All (service.hash new) now t t.admin a) a (has_password new)) a
          (is_current service current (read_password_hash t))
    call-All (validates token now) t d a = validate-All token now t a
    call-All (logs_out token) t d a = logout-All token t a

    abbrev AllDraw : List AdminCall → Type 0
    AllDraw [] = Unit
    AllDraw (c ∷ cs) = Draws c × AllDraw cs

    calls-All :
        (cs : List AdminCall) (t : Tables)
        → AllDraw cs
        → All P t.sessions
        → All P (calls cs t).sessions
    unfolding calls
    calls-All [] t d a = a
    calls-All (c ∷ cs) t d a = calls-All cs (call c t) d.1 (call-All c t d.0 a)
