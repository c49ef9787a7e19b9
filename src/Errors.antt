-- ===== src/Errors.antt =====
-- errors.py and application/errors.py: the exceptions that the services raise. A metadata dictionary
-- is left out: no handler reads one.
use placegame_mcp.Prelude.{Option, String, ◌≡◌, ◌⊎◌, inl, inr, refl}

pub data Error : Type 0 where
  account_not_found account_identity_conflict account_disabled account_paused : Error
  account_removed authentication_required policy_unavailable reconciliation_required : Error
  plan_precondition_failed policy_conflict : Error
  session_rejected contract_changed client_version_rejected inventory_full : Error
  insufficient_resource game_rate_limited game_schema_mismatch game_http_error : Error
  game_conflict : Option String → Error
  ambiguous_mutation game_unavailable : Error
  application_error : String → Error
  value_error : Error
  -- Any other exception, of the database or of a library.
  other_exception : Error

-- A call that may raise.
pub data Result {ℓ} (A : Type ℓ) : Type ℓ where
  ok : A → Result A
  raised : Error → Result A

infixl 5 ◌>>=◌ ◌>>◌
abbrev pub ◌>>=◌ {ℓ κ} : {A : Type ℓ} {B : Type κ} → Result A → (A → Result B) → Result B
ok a >>= f = f a
raised e >>= f = raised e

abbrev pub ◌>>◌ {ℓ} : {B : Type ℓ} → Result (Unit {0}) → Result B → Result B
m >> k = m >>= λ _. k

abbrev pub plan_in_progress : Error
plan_in_progress = application_error "plan_in_progress"

abbrev pub idle_reconciliation_required : Error
idle_reconciliation_required = application_error "reconciliation_required"

pub Result-cases {ℓ} :
    {A : Type ℓ} (r : Result A) → ((a : A) × (r ≡ ok a)) ⊎ ((e : Error) × (r ≡ raised e))
Result-cases (ok a) = inl (a, refl)
Result-cases (raised e) = inr (e, refl)
