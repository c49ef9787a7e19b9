-- ===== src/Client/Tests.antt =====
-- The client's theorems at a server that asks for a newer version.
use placegame_mcp.Prelude.{
  ℕ, zero, suc, ◌+◌, ◌*◌, ◌≤◌, ◌≡◌, refl, arith, true, false, Option, none, some, List, [], ◌∷◌,
  length, if◌then◌else◌,
}
use placegame_mcp.Text.{codes}
use placegame_mcp.Plans.Canonical.{Json, object, field, end, text}
use placegame_mcp.Client.Limiter.{Entry, limiter, enter, delay, slept, entries_spaced}
use placegame_mcp.Client.Versions.{is_version, number, dot, is_suffix, is_suffix_char, adopt}
use placegame_mcp.Client.Registry
use placegame_mcp.Client.Registry.{registry}
use placegame_mcp.Client.Responses.{
  Response, Model, interpret_response, interpret_status, safe_error_code, stable_code, find_key,
  required_client_version,
}
use placegame_mcp.Client.Requests.{
  HttpGameClient, Server, request, request_outcome, attempt, try_request, after_send, send_once,
}
use placegame_mcp.Client.Requests.Mutations.{
  MutationRun, is_ambiguous, unanswered, request-MutationRun,
}
use placegame_mcp.Client.Requests.Headers.{IsDeclared, request-IsDeclared}

good : is_version (codes "1.20.3-beta") ≡ true
unfolding is_version number dot is_suffix is_suffix_char
good = refl

leading_zero : is_version (codes "01.2.3") ≡ false
unfolding is_version number dot is_suffix is_suffix_char
leading_zero = refl

abbrev client : HttpGameClient
client = record { session_token = some (codes "tok"); client_version = codes "1.0.0"; sent = [] }

abbrev raw : Model Json
raw = record { reads_envelope = true; validate = λ j. some j }

abbrev upgrade : Response
upgrade = record {
  status_code = 426;
  body = some (
      object (
        field (codes "data")
          (object (field (codes "minimumClientVersion") (text (codes "1.1.0")) end)) end));
}

-- The first request is answered by a 426 and the second one by nothing.
abbrev server : Server
server zero q = some upgrade
server (suc n) q = none

sends_twice : length (request server Registry.idle_collect raw none client).0.sent ≡ 2
unfolding request request_outcome attempt try_request after_send send_once adopt registry
    interpret_response interpret_status safe_error_code stable_code find_key required_client_version
    is_version number dot is_suffix is_suffix_char
sends_twice = refl

is_mutation : (registry Registry.idle_collect).mutation ≡ true
unfolding registry
is_mutation = refl

request-MutationRun_example :
    (a : Option Response) × MutationRun server Registry.idle_collect none client
      (request server Registry.idle_collect raw none client).0
      a
    × (is_ambiguous (request server Registry.idle_collect raw none client).1 ≡ unanswered a)
request-MutationRun_example =
    request-MutationRun server Registry.idle_collect raw none client is_mutation

declared : IsDeclared (some (codes "tok")) client
unfolding is_version number dot is_suffix is_suffix_char
declared = record { keeps_token = refl; has_version = refl; declared = tt }

request-IsDeclared_example :
    IsDeclared (some (codes "tok")) (request server Registry.idle_collect raw none client).0
    × (length (request server Registry.idle_collect raw none client).0.sent
        ≤ length client.sent + (if (registry Registry.idle_collect).mutation then 2 else 6))
request-IsDeclared_example =
    request-IsDeclared (some (codes "tok")) server Registry.idle_collect raw none client declared

-- Three entries: the first two wait, the third comes late enough.
abbrev at : ℕ → ℕ → Entry
at before after = record { before = before; after = after }

abbrev later_entries : List Entry
later_entries = at 20 500010 ∷ at 500020 1000100 ∷ []

entries_spaced_example : 10 + 2 * 500000 ≤ 1000100
unfolding delay slept enter
entries_spaced_example =
    entries_spaced (limiter 500000) 0 [] (at 10 10) later_entries (at 3000000 3000000 ∷ []) (
      omega arith,
      omega arith,
      (omega arith, omega arith, (omega arith, omega arith, (omega arith, omega arith, tt))),
    )
