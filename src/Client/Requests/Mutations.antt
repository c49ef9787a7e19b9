-- ===== src/Client/Requests/Mutations.antt =====
-- What a mutation sends, and when it is ambiguous.
use placegame_mcp.Errors
use placegame_mcp.Errors.{Error, Result, ok, raised}
use placegame_mcp.Prelude.{
  ◌≡◌, refl, sym, ◌∙◌, arith, Bool, true, false, Option, none, some, ◌∷◌, length, leb, Bool-cases,
  inl, inr,
}
use placegame_mcp.Text.{Text, text_eq}
use placegame_mcp.Plans.Canonical.{Json}
use placegame_mcp.Client.Versions.{is_version, adopt}
use placegame_mcp.Client.Registry.{OperationName, registry}
use placegame_mcp.Client.Responses.{
  Response, Model, Failure, ambiguous, client_version_rejected, Outcome, value, failure,
  interpret_response, public_error,
}
use placegame_mcp.Client.Responses.Accepted.{is_unsure, Named, interpret_response-Named}
use placegame_mcp.Client.Requests.{
  HttpGameClient, Server, request_of, send_once, is_unavailable, demote, after_send, try_request,
  attempt, required, after_required, request_outcome, public, request,
}

-- The client once it has sent one request more.
abbrev pub sends_one : OperationName → Option Json → HttpGameClient → HttpGameClient
sends_one operation payload c = record c { sent = request_of operation payload c ∷ c.sent }

abbrev pub answer : Server → OperationName → Option Json → HttpGameClient → Option Response
answer server operation payload c = server (length c.sent) (request_of operation payload c)

abbrev pub declaring : Text → HttpGameClient → HttpGameClient
declaring version c = record c { client_version = version }

-- One request; or a second one with another version, where the first is answered by a 426.
pub data MutationRun (server : Server) (operation : OperationName) (payload : Option Json)
    (c : HttpGameClient) : HttpGameClient → Option Response → Type 0 where
  once :
      MutationRun server operation payload c
        (sends_one operation payload c)
        (answer server operation payload c)
  twice :
      (r : Response) (version : Text)
      → answer server operation payload c ≡ some r
      → r.status_code ≡ 426
      → is_version version ≡ true
      → text_eq version c.client_version ≡ false
      → MutationRun server operation payload c
          (sends_one operation payload (declaring version (sends_one operation payload c)))
          (answer server operation payload (declaring version (sends_one operation payload c)))

-- No answer, or a status of 5xx.
abbrev pub unanswered : Option Response → Bool
unanswered none = true
unanswered (some r) = leb 500 r.status_code

abbrev pub is_ambiguous : {A : Type 0} → Result A → Bool
is_ambiguous (raised Errors.ambiguous_mutation) = true
is_ambiguous _ = false

abbrev pub unsure : {A : Type 0} → Outcome A → Bool
unsure (failure f) = is_unsure f
unsure (value a) = false

public-unsure :
    {A : Type 0} (c : HttpGameClient) (o : Outcome A) → is_ambiguous (public (c, o)).1 ≡ unsure o
unfolding public_error
public-unsure c (value a) = refl
public-unsure c (failure f) = ground arith

-- The outcome of an answer to a mutation.
abbrev judged : {A : Type 0} → Model A → Option Response → Outcome A
unfolding interpret_response
judged model none = failure ambiguous
judged model (some r) = demote true (interpret_response model r)

demoted_unsure :
    {A : Type 0} (r : Response) (o : Outcome A)
    → Named r o
    → unsure (demote true o) ≡ leb 500 r.status_code
demoted_unsure r (value a) h = sym h
demoted_unsure {A = A} r (failure f) (d, u, v) =
    elim (Bool-cases (is_unavailable {A = A} (failure f))) [
      | inl e ↦ rw e (ground (arith, e, d))
      | inr e ↦ rw e (ground (arith, e, d, u))
    ]

unsure-judged :
    {A : Type 0} (model : Model A) (a : Option Response) → unsure (judged model a) ≡ unanswered a
unfolding interpret_response
unsure-judged model none = refl
unsure-judged model (some r) =
    demoted_unsure r (interpret_response model r) (interpret_response-Named model r)

requires :
    (A : Type 0) (f : Failure) (version : Text)
    → required {A = A} (demote true (failure f)) ≡ some version
    → f ≡ client_version_rejected (some version)
requires A f version h = ground (arith, h)

outcome_required :
    {A : Type 0} (r : Response) (o : Outcome A) (version : Text)
    → Named r o
    → required (demote true o) ≡ some version
    → r.status_code ≡ 426
outcome_required r (value a) version n h = ground (arith, h)
outcome_required {A = A} r (failure f) version (d, u, n) h =
    n (some version) (requires A f version h)

-- An answer whose outcome requires a version is a 426.
judged-required :
    {A : Type 0} (model : Model A) (a : Option Response) (version : Text)
    → required (judged model a) ≡ some version
    → (r : Response) × (a ≡ some r) × (r.status_code ≡ 426)
unfolding interpret_response
judged-required model none version h = absurd (ground (arith, h))
judged-required model (some r) version h = (
  r,
  refl,
  outcome_required r (interpret_response model r) version (interpret_response-Named model r) h,
)

module _ {A : Type 0} (server : Server) (operation : OperationName) (model : Model A)
    (payload : Option Json) (mutation : (registry operation).mutation ≡ true) where
  sent_judged :
      (b : Bool) (a : Option Response) (c : HttpGameClient)
      (next : HttpGameClient → HttpGameClient × Outcome A)
      → b ≡ true
      → after_send b model true (c, a) next ≡ (c, judged model a)
  unfolding after_send interpret_response
  sent_judged true none c next h = refl
  sent_judged true (some r) c next h = refl
  sent_judged false a c next h = absurd (ground (arith, h))

  try_once :
      (c : HttpGameClient)
      → try_request server operation model payload 1 c
        ≡ (sends_one operation payload c, judged model (answer server operation payload c))
  unfolding try_request send_once
  try_once c =
      sent_judged (registry operation).mutation (answer server operation payload c)
        (sends_one operation payload c) _ mutation

  attempt-judged :
      (c : HttpGameClient)
      → attempt server operation model payload c
        ≡ (sends_one operation payload c, judged model (answer server operation payload c))
  unfolding attempt
  attempt-judged c = rw mutation (try_once c)

  -- The run of the abstract protocol that a request is, with its last answer.
  abbrev Refines : HttpGameClient → HttpGameClient × Outcome A → Type 0
  Refines c (d, o) =
      (a : Option Response) × MutationRun server operation payload c d a × (unsure o ≡ unanswered a)

  once-Refines :
      (c : HttpGameClient)
      → Refines c (sends_one operation payload c, judged model (answer server operation payload c))
  once-Refines c = (
    answer server operation payload c,
    once,
    unsure-judged model (answer server operation payload c),
  )

  adopt-news :
      (current version : Text)
      → (adopt current version).1 ≡ true
      → (is_version version ≡ true)
        × (text_eq version current ≡ false)
        × ((adopt current version).0 ≡ version)
  unfolding adopt
  adopt-news current version h = ground (arith, h)

  after_required-Refines :
      (c : HttpGameClient) (wanted : Option Text)
      → required (judged model (answer server operation payload c)) ≡ wanted
      → Refines c (
          after_required
            (sends_one operation payload c, judged model (answer server operation payload c))
            (attempt server operation model payload)
            wanted)
  unfolding adopt
  after_required-Refines c none h = once-Refines c
  after_required-Refines c (some version) h = elim (Bool-cases (adopt c.client_version version).1) [
    | inl news ↦
        let (r, a, s) = judged-required model (answer server operation payload c) version h in
        let (valid, other, taken) = adopt-news c.client_version version news in
        rw (news, taken)
          (rw (attempt-judged (declaring version (sends_one operation payload c))) (
            answer server operation payload (declaring version (sends_one operation payload c)),
            twice r version a s valid other,
            unsure-judged model (
                answer server operation payload
                  (declaring version (sends_one operation payload c))),
          ))
    | inr old ↦ rw old (once-Refines c)
  ]

-- A request of a mutation is a run of the abstract protocol, in which one request is sent, or a second one
-- that declares another plausible version where the first is answered by a 426. It raises
-- AmbiguousMutation exactly if the last request has no answer or one with a status of 5xx.
pub request-MutationRun :
    {A : Type 0} (server : Server) (operation : OperationName) (model : Model A)
    (payload : Option Json) (c : HttpGameClient)
    → (registry operation).mutation ≡ true
    → (a : Option Response) × MutationRun server operation payload c
        (request server operation model payload c).0
        a
      × (is_ambiguous (request server operation model payload c).1 ≡ unanswered a)
unfolding request request_outcome adopt
request-MutationRun {A = A} server operation model payload c m =
    rw (attempt-judged server operation model payload m c) (
      to_public
        (after_required
          (sends_one operation payload c, judged model (answer server operation payload c))
          (attempt server operation model payload)
          (required (judged model (answer server operation payload c))))
        (after_required-Refines server operation model payload m c
          (required (judged model (answer server operation payload c))) refl))
  where
    to_public :
        (out : HttpGameClient × Outcome A)
        → Refines server operation model payload m c out
        → (a : Option Response) × MutationRun server operation payload c (public out).0 a
          × (is_ambiguous (public out).1 ≡ unanswered a)
    to_public (d, value x) (a, run, u) = (a, run, u)
    to_public (d, failure f) (a, run, u) = (a, run, public-unsure {A = A} d (failure f) ∙ u)
