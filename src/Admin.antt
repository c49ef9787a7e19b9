-- ===== src/Admin.antt =====
-- admin/auth.py: PostgresAdminAuthStore and AdminAuthService on the rows of the administrator and of the
-- sessions. The hash of a password, its check and the digest of a token are arguments, and so is the token
-- that a login draws.
pub mod Sessions
mod Tests
use placegame_mcp.Prelude.{
  ℕ, ◌+◌, Bool, true, false, ◌&&◌, ◌||◌, not, Option, none, some, List, [], ◌∷◌, leb, ltb, ◌==◌,
  length, first, any, keep, is_none, if◌then◌else◌,
}
use placegame_mcp.Prelude.Keys.{write_row}
use placegame_mcp.Text.{Text, in_range, every, strip, is_empty, text_eq}

pub data AdminAuthError : Type 0 where
  password_too_short setup_already_complete unauthorized : AdminAuthError

pub data Answer (A : Type 0) : Type 0 where
  granted : A → Answer A
  refused : AdminAuthError → Answer A
  -- An IntegrityError of the database.
  breaks : Answer A

pub record AdminCredential : Type 0 where
  pub password_hash : Text
  pub created_at : ℕ
  pub updated_at : ℕ

pub record AdminSession : Type 0 where
  pub id : ℕ
  pub token_digest : Text
  pub created_at : ℕ
  pub last_seen_at : ℕ
  pub absolute_expires_at : ℕ

-- The administrator is the row 1, or missing.
pub record Tables : Type 0 where
  pub admin : Option AdminCredential
  pub sessions : List AdminSession
  pub next_id : ℕ

-- argon2's PasswordHasher, where `verify` is false if it raises, and token_digest; the times are in
-- microseconds.
pub record Service : Type 0 where
  pub hash : Text → Text
  pub verify : Text → Text → Bool
  pub digest : Text → Text
  pub idle : ℕ
  pub absolute : ℕ

abbrev pub is_token_char : ℕ → Bool
is_token_char c = in_range 48 57 c || in_range 65 90 c || in_range 97 122 c || c == 95 || c == 45

-- `SESSION_TOKEN_PATTERN.fullmatch`
unfoldable pub is_session_token : Text → Bool
is_session_token s = length s == 43 && every is_token_char s

-- `_require_password`
unfoldable pub has_password : Text → Bool
unfolding strip
has_password password = not (is_empty (strip password))

abbrev pub of_digest : Text → AdminSession → Bool
of_digest d s = text_eq s.token_digest d

-- `PostgresAdminAuthStore.setup`: the primary key refuses a second row.
unfoldable pub store_setup : Text → ℕ → Tables → Tables × Answer (Unit {0})
store_setup password_hash now t =
    if is_none t.admin
    then (
      record t {
        admin = some (record { password_hash = password_hash; created_at = now; updated_at = now });
      },
      granted tt,
    )
    else (t, refused setup_already_complete)

unfoldable pub read_password_hash : Tables → Option Text
read_password_hash t = elim t.admin [ none ↦ none | some a ↦ some a.password_hash ]

abbrev pub update_found : Text → ℕ → Tables → Option AdminCredential → Tables × Answer (Unit {0})
update_found password_hash now t none = (t, refused unauthorized)
update_found password_hash now t (some a) = (
  record t { admin = some (record a { password_hash = password_hash; updated_at = now }) },
  granted tt,
)

unfoldable pub update_password_hash : Text → ℕ → Tables → Tables × Answer (Unit {0})
update_password_hash password_hash now t = update_found password_hash now t t.admin

abbrev pub new_session : ℕ → Text → ℕ → ℕ → AdminSession
new_session id d now absolute_expires_at = record {
  id = id;
  token_digest = d;
  created_at = now;
  last_seen_at = now;
  absolute_expires_at = absolute_expires_at;
}

-- The digests are unique in the database.
unfoldable pub create_session : Text → ℕ → ℕ → Tables → Tables × Answer AdminSession
create_session d now absolute_expires_at t = if any (of_digest d) t.sessions then (t, breaks) else (
  record t {
    sessions = new_session t.next_id d now absolute_expires_at ∷ t.sessions;
    next_id = t.next_id + 1;
  },
  granted (new_session t.next_id d now absolute_expires_at),
)

abbrev pub expired : ℕ → ℕ → AdminSession → Bool
expired now idle s = leb s.absolute_expires_at now || leb (s.last_seen_at + idle) now

abbrev pub without : AdminSession → List AdminSession → List AdminSession
without s = keep (λ r. not (r.id == s.id))

abbrev pub seen : ℕ → AdminSession → AdminSession
seen now s = record s { last_seen_at = now }

abbrev pub found_session : ℕ → ℕ → Tables → Option AdminSession → Tables × Option AdminSession
found_session now idle t none = (t, none)
found_session now idle t (some s) =
    if expired now idle s
    then (record t { sessions = without s t.sessions }, none)
    else (record t { sessions = write_row (λ r. r.id) (seen now s) t.sessions }, some (seen now s))

unfoldable pub find_session : Text → ℕ → ℕ → Tables → Tables × Option AdminSession
find_session d now idle t = found_session now idle t (first (of_digest d) t.sessions)

abbrev pub delete_found : Tables → Option AdminSession → Tables
delete_found t none = t
delete_found t (some s) = record t { sessions = without s t.sessions }

unfoldable pub delete_session : Text → Tables → Tables
delete_session d t = delete_found t (first (of_digest d) t.sessions)

unfoldable pub delete_all_sessions : Tables → Tables
delete_all_sessions t = record t { sessions = [] }

module _ (service : Service) where
  unfoldable pub setup : Text → ℕ → Tables → Tables × Answer (Unit {0})
  unfolding has_password store_setup
  setup password now t =
      if has_password password
      then store_setup (service.hash password) now t
      else (t, refused password_too_short)

  abbrev pub is_current : Text → Option Text → Bool
  is_current password none = false
  is_current password (some h) = service.verify h password

  unfoldable pub login : Text → Text → ℕ → Tables → Tables × Answer AdminSession
  unfolding read_password_hash create_session
  login password token now t =
      if is_current password (read_password_hash t)
      then create_session (service.digest token) now (now + service.absolute) t
      else (t, refused unauthorized)

  abbrev pub drop_after : Tables × Answer (Unit {0}) → Tables × Answer (Unit {0})
  unfolding delete_all_sessions
  drop_after (t, refused e) = (t, refused e)
  drop_after (t, breaks) = (t, breaks)
  drop_after (t, granted u) = (delete_all_sessions t, granted u)

  -- Its two transactions, with nothing between them.
  unfoldable pub change_password : Text → Text → ℕ → Tables → Tables × Answer (Unit {0})
  unfolding read_password_hash has_password update_password_hash delete_all_sessions
  change_password current_password new_password now t =
      if is_current current_password (read_password_hash t)
      then if has_password new_password
        then drop_after (update_password_hash (service.hash new_password) now t)
        else (t, refused password_too_short)
      else (t, refused unauthorized)

  unfoldable pub validate : Text → ℕ → Tables → Tables × Option AdminSession
  unfolding find_session
  validate raw_token now t =
      if is_session_token raw_token
      then find_session (service.digest raw_token) now service.idle t
      else (t, none)

  unfoldable pub logout : Text → Tables → Tables
  unfolding delete_session
  logout raw_token t =
      if is_session_token raw_token then delete_session (service.digest raw_token) t else t
