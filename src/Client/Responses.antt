-- ===== src/Client/Responses.antt =====
-- game/client.py: what a response of the game means. The metadata of an error and the time of a
-- Retry-After header are left out.
pub mod Accepted
use placegame_mcp.Errors
use placegame_mcp.Errors.{Error}
use placegame_mcp.Prelude.{
  ℕ, Bool, true, false, ◌&&◌, ◌||◌, not, Option, none, some, String, leb, ltb, ◌==◌, if◌then◌else◌,
  str_eq,
}
use placegame_mcp.Text.{Text, codes, text_eq}
use placegame_mcp.Plans.Canonical.{Json, null, boolean, text, object, Fields, end, field, odd}
use placegame_mcp.Client.Versions.{is_version}

-- `body` is `none` where it is no JSON.
pub record Response : Type 0 where
  pub status_code : ℕ
  pub body : Option Json

-- A response model: what it is validated against, and its validation.
pub record Model (A : Type 0) : Type 0 where
  pub reads_envelope : Bool
  pub validate : Json → Option A

-- `_Failure` by its kind.
pub data Failure : Type 0 where
  ambiguous unavailable session_rejected contract_changed : Failure
  client_version_rejected : Option Text → Failure
  inventory_full insufficient_resource : Failure
  conflict : Option String → Failure
  rate_limited schema_mismatch http_error : Failure

pub data Outcome (A : Type 0) : Type 0 where
  value : A → Outcome A
  failure : Failure → Outcome A

-- `mapping.get(key)`, the keys of a mapping being distinct.
unfoldable pub find_key : Text → Fields → Option Json
find_key key end = none
find_key key (odd v r) = find_key key r
find_key key (field k v r) = if text_eq k key then some v else find_key key r

abbrev get : Text → Option Json → Option Json
unfolding find_key
get key (some (object fields)) = find_key key fields
get key _ = none

abbrev is_object : Option Json → Bool
is_object (some (object fields)) = true
is_object _ = false

-- The texts of `_STABLE_ERROR_CODES`.
unfoldable pub stable_code : Option Json → Option String
stable_code (some (text s)) =
    if text_eq s (codes "conflict")
    then some "conflict"
    else if text_eq s (codes "insufficient_resource")
    then some "insufficient_resource"
    else if text_eq s (codes "inventory_full")
    then some "inventory_full"
    else none
stable_code _ = none

-- `_safe_error_code`
unfoldable pub safe_error_code : Response → Option String
unfolding stable_code find_key
safe_error_code r =
    if is_object (get (codes "error") r.body)
    then stable_code (get (codes "code") (get (codes "error") r.body))
    else stable_code (get (codes "code") r.body)

abbrev plausible : Option Json → Option Text
unfolding is_version
plausible (some (text s)) = if is_version s then some s else none
plausible _ = none

-- `_required_client_version`
unfoldable pub required_client_version : Response → Option Text
unfolding is_version find_key
required_client_version r =
    plausible (get (codes "minimumClientVersion") (get (codes "data") r.body))

-- `candidate in data` for two keys, and the result of a mutation.
abbrev unwrap : Json → Json
unfolding find_key
unwrap whole = elim (get (codes "result") (some whole)) [
  | none ↦ whole
  | some result ↦ elim (get (codes "statePatch") (some whole)) [
    | none ↦ whole
    | some patch ↦ result
  ]
]

-- `_payload_for`; `none` is a KeyError.
unfoldable pub payload_for : {A : Type 0} → Model A → Fields → Option Json
unfolding find_key
payload_for model envelope =
    if model.reads_envelope
    then some (object envelope)
    else elim (find_key (codes "data") envelope) [ none ↦ none | some whole ↦ some (unwrap whole) ]

abbrev pub of_validation : {A : Type 0} → Option A → Outcome A
of_validation none = failure schema_mismatch
of_validation (some a) = value a

abbrev pub validated : {A : Type 0} → Model A → Option Json → Outcome A
validated model none = failure schema_mismatch
validated model (some payload) = of_validation (model.validate payload)

abbrev pub is_false : Option Json → Bool
is_false (some (boolean b)) = not b
is_false _ = false

abbrev pub is_code : String → Option String → Bool
is_code s none = false
is_code s (some t) = str_eq s t

abbrev pub as_fields : Option Json → Option Fields
as_fields (some (object fields)) = some fields
as_fields _ = none

-- The second half of `_interpret_response`, for a status of 2xx.
unfoldable pub interpret_body : {A : Type 0} → Model A → Option String → Option Fields → Outcome A
unfolding payload_for find_key
interpret_body model code none = failure schema_mismatch
interpret_body model code (some envelope) =
    if is_false (find_key (codes "ok") envelope)
    then failure (conflict code)
    else validated model (payload_for model envelope)

-- The first half, for any other status.
unfoldable pub interpret_status : Response → Option String → Failure
unfolding required_client_version
interpret_status r code =
    if r.status_code == 401 || r.status_code == 403
    then session_rejected
    else if r.status_code == 426
    then client_version_rejected (required_client_version r)
    else if leb 500 r.status_code
    then unavailable
    else if is_code "inventory_full" code
    then inventory_full
    else if is_code "insufficient_resource" code
    then insufficient_resource
    else if r.status_code == 409
    then conflict code
    else if r.status_code == 429
    then rate_limited
    else http_error

abbrev pub is_success : ℕ → Bool
is_success status_code = leb 200 status_code && ltb status_code 300

-- `_interpret_response`
unfoldable pub interpret_response : {A : Type 0} → Model A → Response → Outcome A
unfolding interpret_body interpret_status safe_error_code
interpret_response model r =
    if is_success r.status_code
    then interpret_body model (safe_error_code r) (as_fields r.body)
    else failure (interpret_status r (safe_error_code r))

-- `_public_error`
unfoldable pub public_error : Failure → Error
public_error ambiguous = Errors.ambiguous_mutation
public_error unavailable = Errors.game_unavailable
public_error session_rejected = Errors.session_rejected
public_error contract_changed = Errors.contract_changed
public_error (client_version_rejected v) = Errors.client_version_rejected
public_error inventory_full = Errors.inventory_full
public_error insufficient_resource = Errors.insufficient_resource
public_error (conflict code) = Errors.game_conflict code
public_error rate_limited = Errors.game_rate_limited
public_error schema_mismatch = Errors.game_schema_mismatch
public_error http_error = Errors.game_http_error
