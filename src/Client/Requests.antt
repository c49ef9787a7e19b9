-- ===== src/Client/Requests.antt =====
-- HttpGameClient (game/client.py): a request with its attempts and the change of the version. The sent
-- requests are kept, the newest first; the waiting between attempts is left out, and the server's address
-- and the fixed headers with it.
pub mod Mutations
pub mod Headers
use placegame_mcp.Errors
use placegame_mcp.Errors.{Error, Result, ok, raised}
use placegame_mcp.Prelude.{
  ℕ, zero, suc, Bool, true, false, ◌&&◌, not, Option, none, some, List, [], ◌∷◌, length,
  if◌then◌else◌, is_none,
}
use placegame_mcp.Text.{Text}
use placegame_mcp.Plans.Canonical.{Json}
use placegame_mcp.Client.Versions.{adopt}
use placegame_mcp.Client.Registry
use placegame_mcp.Client.Registry.{OperationName, EndpointSpec, registry, is_login}
use placegame_mcp.Client.Responses.{
  Response, Model, Failure, ambiguous, unavailable, client_version_rejected, Outcome, value,
  failure, interpret_response, public_error,
}

pub record Request : Type 0 where
  pub operation : OperationName
  pub client_version : Text
  pub authorization : Option Text
  pub json : Option Json

-- The version is the value of the GameClientVersion that the client was given: another client that
-- shares it does not adopt a version meanwhile here.
pub record HttpGameClient : Type 0 where
  pub session_token : Option Text
  pub client_version : Text
  pub sent : List Request

-- What the server answers to a request, by the number of the requests before it: `none` is an httpx
-- error.
abbrev pub Server : Type 0
Server = ℕ → Request → Option Response

abbrev pub request_of : OperationName → Option Json → HttpGameClient → Request
request_of operation payload c = record {
  operation = operation;
  client_version = c.client_version;
  authorization = if is_login operation then none else c.session_token;
  json = payload;
}

-- `_send_once`
unfoldable pub send_once :
    Server → OperationName → Option Json → HttpGameClient → HttpGameClient × Option Response
send_once server operation payload c = (
  record c { sent = request_of operation payload c ∷ c.sent },
  server (length c.sent) (request_of operation payload c),
)

abbrev pub is_unavailable : {A : Type 0} → Outcome A → Bool
is_unavailable (failure unavailable) = true
is_unavailable _ = false

-- For a mutation an outcome that is not available is ambiguous.
abbrev pub demote : {A : Type 0} → Bool → Outcome A → Outcome A
demote mutation outcome = if mutation && is_unavailable outcome then failure ambiguous else outcome

-- An attempt after its request, with what the next one would give.
unfoldable pub after_send :
    {A : Type 0}
    → Bool
    → Model A
    → Bool
    → HttpGameClient × Option Response
    → (HttpGameClient → HttpGameClient × Outcome A)
    → HttpGameClient × Outcome A
unfolding interpret_response
after_send mutation model last (c, none) next =
    if mutation then (c, failure ambiguous) else if last then (c, failure unavailable) else next c
after_send mutation model last (c, some response) next =
    (c, demote mutation (interpret_response model response))

abbrev pub is_zero : ℕ → Bool
is_zero zero = true
is_zero (suc n) = false

-- The loop of `_attempt`, with the attempts that are left.
unfoldable pub try_request :
    {A : Type 0}
    → Server
    → OperationName
    → Model A
    → Option Json
    → ℕ
    → HttpGameClient
    → HttpGameClient × Outcome A
unfolding send_once after_send
try_request server operation model payload zero c = (c, failure unavailable)
try_request server operation model payload (suc left) c =
    after_send (registry operation).mutation model (is_zero left)
      (send_once server operation payload c) (try_request server operation model payload left)

abbrev pub attempts_of : Bool → ℕ
attempts_of mutation = if mutation then 1 else 3

-- `_attempt`
unfoldable pub attempt :
    {A : Type 0}
    → Server
    → OperationName
    → Model A
    → Option Json
    → HttpGameClient
    → HttpGameClient × Outcome A
unfolding try_request
attempt server operation model payload c =
    try_request server operation model payload (attempts_of (registry operation).mutation) c

abbrev pub required : {A : Type 0} → Outcome A → Option Text
required (failure (client_version_rejected version)) = version
required _ = none

-- The second attempts, where the version that the game requires is news.
abbrev pub after_required :
    {A : Type 0}
    → HttpGameClient × Outcome A
    → (HttpGameClient → HttpGameClient × Outcome A)
    → Option Text
    → HttpGameClient × Outcome A
unfolding adopt
after_required (c, outcome) again none = (c, outcome)
after_required (c, outcome) again (some version) =
    if (adopt c.client_version version).1
    then again (record c { client_version = (adopt c.client_version version).0 })
    else (c, outcome)

abbrev pub after_attempt :
    {A : Type 0}
    → HttpGameClient × Outcome A
    → (HttpGameClient → HttpGameClient × Outcome A)
    → HttpGameClient × Outcome A
unfolding adopt
after_attempt (c, outcome) again = after_required (c, outcome) again (required outcome)

-- `_request_outcome`
unfoldable pub request_outcome :
    {A : Type 0}
    → Server
    → OperationName
    → Model A
    → Option Json
    → HttpGameClient
    → HttpGameClient × Outcome A
unfolding attempt adopt
request_outcome server operation model payload c =
    after_attempt (attempt server operation model payload c)
      (attempt server operation model payload)

abbrev pub public : {A : Type 0} → HttpGameClient × Outcome A → HttpGameClient × Result A
public (c, value a) = (c, ok a)
public (c, failure f) = (c, raised (public_error f))

-- `_request`
unfoldable pub request :
    {A : Type 0}
    → Server
    → OperationName
    → Model A
    → Option Json
    → HttpGameClient
    → HttpGameClient × Result A
unfolding request_outcome public_error
request server operation model payload c = public (request_outcome server operation model payload c)

abbrev pub checked :
    {A B : Type 0} → (A → Option B) → HttpGameClient × Result A → HttpGameClient × Result B
checked f (c, raised e) = (c, raised e)
checked f (c, ok a) = elim (f a) [
  | none ↦ (c, raised Errors.game_schema_mismatch)
  | some b ↦ (c, ok b)
]

-- `view_sections`, with whether the bosses are asked for, and whether a result has them.
unfoldable pub view_sections :
    {A : Type 0}
    → Server
    → Model A
    → (A → Bool)
    → Bool
    → Json
    → HttpGameClient
    → HttpGameClient × Result A
unfolding request
view_sections server model has_bosses asks_bosses sections c =
    checked (λ a. if asks_bosses && not (has_bosses a) then none else some a)
      (request server Registry.view_sections model (some sections) c)

-- `boss_state`, `world_boss_state`, `profession_state` and `reward_state`, each with its part of the
-- result.
unfoldable pub section_state :
    {A B : Type 0}
    → Server
    → Model A
    → (A → Bool)
    → Bool
    → Json
    → (A → Option B)
    → HttpGameClient
    → HttpGameClient × Result B
unfolding view_sections
section_state server model has_bosses asks_bosses sections state c =
    checked state (view_sections server model has_bosses asks_bosses sections c)
