-- ===== src/Admin/Sessions/Validity.antt =====
-- Which tokens are valid after calls of AdminAuthService (admin/auth.py).
use placegame_mcp.Prelude.{
  ℕ, ◌+◌, ◌<◌, ◌≡◌, refl, subst, arith, Bool, true, false, Option, none, some, List, [], ◌∷◌, first,
  All, Bool-cases, inl, inr, if◌then◌else◌, All-first,
}
use placegame_mcp.Text.{Text, text_eq}
use placegame_mcp.Admin.{
  granted, refused, password_too_short, unauthorized, AdminSession, Tables, Service,
  is_session_token, has_password, of_digest, read_password_hash, update_password_hash, update_found,
  AdminCredential, expired, seen, found_session, find_session, delete_all_sessions, is_current,
  drop_after, change_password, validate,
}
use placegame_mcp.Admin.Sessions.{
  AdminCall, sets_up, logs_in, changes, validates, logs_out, calls, AllDraw, calls-All,
}

module _ (service : Service) where
  -- No login draws a token with this digest.
  abbrev pub NoLoginOf : Text → List AdminCall → Type 0
  NoLoginOf d [] = Unit
  NoLoginOf d (logs_in password token now ∷ cs) =
      (text_eq (service.digest token) d ≡ false) × NoLoginOf d cs
  NoLoginOf d (sets_up password now ∷ cs) = NoLoginOf d cs
  NoLoginOf d (changes current new now ∷ cs) = NoLoginOf d cs
  NoLoginOf d (validates token now ∷ cs) = NoLoginOf d cs
  NoLoginOf d (logs_out token ∷ cs) = NoLoginOf d cs

  abbrev Other : Text → AdminSession → Type 0
  Other d s = of_digest d s ≡ false

  none-Draws :
      (d : Text) (cs : List AdminCall)
      → NoLoginOf d cs
      → AllDraw service (Other d) (λ s now o b. o) cs
  none-Draws d [] n = tt
  none-Draws d (logs_in password token now ∷ cs) n = ((λ i. n.0), none-Draws d cs n.1)
  none-Draws d (sets_up password now ∷ cs) n = (tt, none-Draws d cs n)
  none-Draws d (changes current new now ∷ cs) n = (tt, none-Draws d cs n)
  none-Draws d (validates token now ∷ cs) n = (tt, none-Draws d cs n)
  none-Draws d (logs_out token ∷ cs) n = (tt, none-Draws d cs n)

  none_found :
      (d : Text) (xs : List AdminSession) → All (Other d) xs → first (of_digest d) xs ≡ none
  none_found d [] a = refl
  none_found d (x ∷ xs) a = rw a.0 (none_found d xs a.1)

  none_valid :
      (token : Text) (now : ℕ) (t : Tables)
      → All (Other (service.digest token)) t.sessions
      → (validate service token now t).1 ≡ none
  unfolding validate find_session
  none_valid token now t a = elim (Bool-cases (is_session_token token)) [
    | inl h ↦ rw (h, none_found (service.digest token) t.sessions a) refl
    | inr h ↦ rw h refl
  ]

  update_drops :
      (h : Text) (now : ℕ) (t : Tables) (o : Option AdminCredential)
      → (drop_after service (update_found h now t o)).1 ≡ granted tt
      → (drop_after service (update_found h now t o)).0.sessions ≡ []
  unfolding delete_all_sessions
  update_drops h now t none e = ground (arith, e)
  update_drops h now t (some c) e = refl

  change_drops :
      (current new : Text) (now : ℕ) (t : Tables)
      → (change_password service current new now t).1 ≡ granted tt
      → (change_password service current new now t).0.sessions ≡ []
  unfolding change_password read_password_hash has_password update_password_hash
  change_drops current new now t =
      by_test (is_current service current (read_password_hash t)) (has_password new)
    where
      by_test :
          (b c : Bool)
          → (if b
              then if c
                then drop_after service (update_found (service.hash new) now t t.admin)
                else (t, refused password_too_short)
              else (t, refused unauthorized)).1
            ≡ granted tt
          → (if b
              then if c
                then drop_after service (update_found (service.hash new) now t t.admin)
                else (t, refused password_too_short)
              else (t, refused unauthorized)).0.sessions
            ≡ []
      by_test true true e = update_drops (service.hash new) now t t.admin e
      by_test true false e = ground (arith, e)
      by_test false c e = ground (arith, e)

  -- After a change of the password that goes through, no token is valid, along any calls in which no
  -- login draws a token of its digest.
  pub change_password_revokes :
      (current new token : Text) (now later : ℕ) (cs : List AdminCall) (t : Tables)
      → (change_password service current new now t).1 ≡ granted tt
      → NoLoginOf (service.digest token) cs
      → (validate service token later
          (calls service cs (change_password service current new now t).0)).1
        ≡ none
  change_password_revokes current new token now later cs t e n =
      none_valid token later (calls service cs (change_password service current new now t).0) (
        calls-All service (Other (service.digest token)) (λ s m o b. o) cs
          (change_password service current new now t).0 (none-Draws (service.digest token) cs n)
          (rw (change_drops current new now t e) tt))

  -- The time that a session has by its login.
  abbrev pub Limited : AdminSession → Type 0
  Limited s = s.absolute_expires_at ≡ s.created_at + service.absolute

  all-Draws : (cs : List AdminCall) → AllDraw service Limited (λ s now l b. l) cs
  all-Draws [] = tt
  all-Draws (logs_in password token now ∷ cs) = ((λ i. refl), all-Draws cs)
  all-Draws (sets_up password now ∷ cs) = (tt, all-Draws cs)
  all-Draws (changes current new now ∷ cs) = (tt, all-Draws cs)
  all-Draws (validates token now ∷ cs) = (tt, all-Draws cs)
  all-Draws (logs_out token ∷ cs) = (tt, all-Draws cs)

  found-Limited :
      (now idle : ℕ) (t : Tables) (o : Option AdminSession) (s : AdminSession)
      → ((r : AdminSession) → o ≡ some r → Limited r)
      → (found_session now idle t o).1 ≡ some s
      → now < s.created_at + service.absolute
  found-Limited now idle t none s l h = ground (arith, h)
  found-Limited now idle t (some r) s l h = elim (Bool-cases (expired now idle r)) [
    | inl e ↦ ground (arith, e, h)
    | inr e ↦
        let same : seen now r ≡ s = ground (arith, e, h) in
        subst (λ x. now < x.created_at + service.absolute) same (ground (arith, e, l r refl))
  ]

  -- Whatever calls come before, and however often the session is used, a token is valid only within the
  -- absolute lifetime that began with its login.
  pub validate-Limited :
      (token : Text) (now : ℕ) (cs : List AdminCall) (t : Tables) (s : AdminSession)
      → All Limited t.sessions
      → (validate service token now (calls service cs t)).1 ≡ some s
      → now < s.created_at + service.absolute
  unfolding validate find_session
  validate-Limited token now cs t s a = by_token (is_session_token token)
    where
      by_token :
          (b : Bool)
          → (if b
              then found_session now service.idle
                  (calls service cs t)
                  (first (of_digest (service.digest token)) (calls service cs t).sessions)
              else (calls service cs t, none)).1
            ≡ some s
          → now < s.created_at + service.absolute
      by_token true h =
          found-Limited now service.idle (calls service cs t)
            (first (of_digest (service.digest token)) (calls service cs t).sessions) s
            (λ r e.
              All-first Limited (of_digest (service.digest token)) (calls service cs t).sessions r
                (calls-All service Limited (λ s m l b. l) cs t (all-Draws cs) a) e)
            h
      by_token false h = ground (arith, h)
