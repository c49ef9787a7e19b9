-- ===== src/Client/Responses/Accepted.antt =====
-- Which responses are unavailable, and none is ambiguous by itself.
use placegame_mcp.Prelude.{
  ℕ, ◌≡◌, refl, sym, arith, Bool, true, false, Option, none, some, String, leb, Bool-cases, inl,
  inr,
}
use placegame_mcp.Text.{Text, codes}
use placegame_mcp.Plans.Canonical.{Json, Fields}
use placegame_mcp.Client.Responses.{
  Response, Model, Failure, ambiguous, unavailable, client_version_rejected, conflict,
  schema_mismatch, Outcome, value, failure, find_key, payload_for, of_validation, validated,
  as_fields, is_false, interpret_body, interpret_status, is_success, interpret_response,
  safe_error_code,
}

abbrev pub is_down : Failure → Bool
is_down unavailable = true
is_down _ = false

abbrev pub is_unsure : Failure → Bool
is_unsure ambiguous = true
is_unsure _ = false

pub interpret_status-down :
    (r : Response) (code : Option String)
    → (is_down (interpret_status r code) ≡ leb 500 r.status_code)
      × (is_unsure (interpret_status r code) ≡ false)
unfolding interpret_status
interpret_status-down r code = ground arith

interpret_status-required :
    (r : Response) (code : Option String) (v : Option Text)
    → interpret_status r code ≡ client_version_rejected v
    → r.status_code ≡ 426
unfolding interpret_status
interpret_status-required r code v h = ground (arith, h)

-- An outcome that is the server's answer: a value, or a failure that the answer names.
abbrev pub Named : {A : Type 0} → Response → Outcome A → Type 0
Named r (value a) = leb 500 r.status_code ≡ false
Named r (failure f) =
    (is_down f ≡ leb 500 r.status_code)
    × (is_unsure f ≡ false)
    × ((v : Option Text) → f ≡ client_version_rejected v → r.status_code ≡ 426)

success_up : (n : ℕ) → is_success n ≡ true → leb 500 n ≡ false
success_up n h = ground (arith, h)

module _ {A : Type 0} (model : Model A) (r : Response)
    (ok_status : is_success r.status_code ≡ true) where
  schema_mismatch-Named : Named {A = A} r (failure schema_mismatch)
  schema_mismatch-Named = (sym (success_up r.status_code ok_status), refl, λ v h. ground (arith, h))

  conflict-Named : (code : Option String) → Named {A = A} r (failure (conflict code))
  conflict-Named code = (sym (success_up r.status_code ok_status), refl, λ v h. ground (arith, h))

  of_validation-Named : (o : Option A) → Named r (of_validation o)
  of_validation-Named none = schema_mismatch-Named
  of_validation-Named (some a) = success_up r.status_code ok_status

  validated-Named : (payload : Option Json) → Named r (validated model payload)
  validated-Named none = schema_mismatch-Named
  validated-Named (some payload) = of_validation-Named (model.validate payload)

  interpret_body-Named :
      (code : Option String) (body : Option Fields) → Named r (interpret_body model code body)
  unfolding interpret_body
  interpret_body-Named code none = schema_mismatch-Named
  interpret_body-Named code (some envelope) =
      elim (Bool-cases (is_false (find_key (codes "ok") envelope))) [
        | inl h ↦ rw h (conflict-Named code)
        | inr h ↦ rw h (validated-Named (payload_for model envelope))
      ]

pub interpret_response-Named :
    {A : Type 0} (model : Model A) (r : Response) → Named r (interpret_response model r)
unfolding interpret_response
interpret_response-Named model r = elim (Bool-cases (is_success r.status_code)) [
  | inl h ↦ rw h (interpret_body-Named model r h (safe_error_code r) (as_fields r.body))
  | inr h ↦ rw h (
    (interpret_status-down r (safe_error_code r)).0,
    (interpret_status-down r (safe_error_code r)).1,
    interpret_status-required r (safe_error_code r),
  )
]
