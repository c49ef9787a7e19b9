-- ===== src/Client/Requests/Headers.antt =====
-- What the requests of a client declare, and how many there are.
use placegame_mcp.Prelude.{
  ℕ, zero, suc, ◌+◌, ◌*◌, ◌≤◌, ◌≡◌, refl, arith, Bool, true, false, Option, none, some, ◌∷◌, All,
  length, if◌then◌else◌, Bool-cases, inl, inr,
}
use placegame_mcp.Text.{Text}
use placegame_mcp.Plans.Canonical.{Json}
use placegame_mcp.Client.Versions.{is_version, adopt}
use placegame_mcp.Client.Registry.{OperationName, registry, is_login}
use placegame_mcp.Client.Responses.{Response, Model, Outcome, value, failure}
use placegame_mcp.Client.Requests.{
  HttpGameClient, Server, Request, request_of, send_once, after_send, is_zero, try_request,
  attempts_of, attempt, required, after_required, after_attempt, request_outcome, public, request,
}

-- A request declares a plausible version, and has the token of the session unless it is the login.
pub record Declares (token : Option Text) (q : Request) : Type 0 where
  pub plausible : is_version q.client_version ≡ true
  pub authorized : q.authorization ≡ (if is_login q.operation then none else token)

-- The token of the client stays.
pub record IsDeclared (token : Option Text) (c : HttpGameClient) : Type 0 where
  pub keeps_token : c.session_token ≡ token
  pub has_version : is_version c.client_version ≡ true
  pub declared : All (Declares token) c.sent

module _ {A : Type 0} (token : Option Text) (server : Server) (operation : OperationName)
    (model : Model A) (payload : Option Json) where
  sent-IsDeclared :
      (c : HttpGameClient)
      → IsDeclared token c
      → IsDeclared token (record c { sent = request_of operation payload c ∷ c.sent })
  sent-IsDeclared c v = record {
    keeps_token = v.keeps_token;
    has_version = v.has_version;
    declared =
        (record { plausible = v.has_version; authorized = rw v.keeps_token refl }, v.declared);
  }

  after_send-IsDeclared :
      (mutation last : Bool) (c : HttpGameClient) (a : Option Response)
      (next : HttpGameClient → HttpGameClient × Outcome A)
      → IsDeclared token c
      → IsDeclared token (next c).0
      → IsDeclared token (after_send mutation model last (c, a) next).0
  unfolding after_send
  after_send-IsDeclared mutation last c (some r) next v w = v
  after_send-IsDeclared true last c none next v w = v
  after_send-IsDeclared false true c none next v w = v
  after_send-IsDeclared false false c none next v w = w

  try_request-IsDeclared :
      (left : ℕ) (c : HttpGameClient)
      → IsDeclared token c
      → IsDeclared token (try_request server operation model payload left c).0
  unfolding try_request send_once
  try_request-IsDeclared zero c v = v
  try_request-IsDeclared (suc left) c v =
      after_send-IsDeclared (registry operation).mutation (is_zero left)
        (record c { sent = request_of operation payload c ∷ c.sent })
        (server (length c.sent) (request_of operation payload c))
        (try_request server operation model payload left) (sent-IsDeclared c v)
        (try_request-IsDeclared left (record c { sent = request_of operation payload c ∷ c.sent })
          (sent-IsDeclared c v))

  adopt-plausible :
      (current version : Text)
      → is_version current ≡ true
      → is_version (adopt current version).0 ≡ true
  unfolding adopt
  adopt-plausible current version h = ground (arith, h)

  after_required-IsDeclared :
      (c : HttpGameClient) (o : Outcome A) (again : HttpGameClient → HttpGameClient × Outcome A)
      (wanted : Option Text)
      → IsDeclared token c
      → ((d : HttpGameClient) → IsDeclared token d → IsDeclared token (again d).0)
      → IsDeclared token (after_required (c, o) again wanted).0
  unfolding adopt
  after_required-IsDeclared c o again none v f = v
  after_required-IsDeclared c o again (some version) v f =
      elim (Bool-cases (adopt c.client_version version).1) [
        | inl h ↦ rw h (
            f (record c { client_version = (adopt c.client_version version).0 })
              (record {
                keeps_token = v.keeps_token;
                has_version = adopt-plausible c.client_version version v.has_version;
                declared = v.declared;
              }))
        | inr h ↦ rw h v
      ]

  attempt-IsDeclared :
      (c : HttpGameClient)
      → IsDeclared token c
      → IsDeclared token (attempt server operation model payload c).0
  unfolding attempt
  attempt-IsDeclared c v = try_request-IsDeclared (attempts_of (registry operation).mutation) c v

  public_same :
      (out : HttpGameClient × Outcome A) → IsDeclared token out.0 → IsDeclared token (public out).0
  public_same (c, value a) v = v
  public_same (c, failure f) v = v

  after_send_bound :
      (mutation last : Bool) (c : HttpGameClient) (a : Option Response)
      (next : HttpGameClient → HttpGameClient × Outcome A) (n : ℕ)
      → length c.sent ≤ n
      → length (next c).0.sent ≤ n
      → length (after_send mutation model last (c, a) next).0.sent ≤ n
  unfolding after_send
  after_send_bound mutation last c (some r) next n h k = h
  after_send_bound true last c none next n h k = h
  after_send_bound false true c none next n h k = h
  after_send_bound false false c none next n h k = k

  try_request_bound :
      (left : ℕ) (c : HttpGameClient)
      → length (try_request server operation model payload left c).0.sent ≤ length c.sent + left
  unfolding try_request send_once
  try_request_bound zero c = omega arith
  try_request_bound (suc left) c =
      after_send_bound (registry operation).mutation (is_zero left)
        (record c { sent = request_of operation payload c ∷ c.sent })
        (server (length c.sent) (request_of operation payload c))
        (try_request server operation model payload left) (length c.sent + suc left) (omega arith)
        (omega (
          arith,
          try_request_bound left (record c { sent = request_of operation payload c ∷ c.sent }),
        ))

  attempt_bound :
      (c : HttpGameClient)
      → length (attempt server operation model payload c).0.sent
        ≤ length c.sent + attempts_of (registry operation).mutation
  unfolding attempt
  attempt_bound c = try_request_bound (attempts_of (registry operation).mutation) c

  after_required_bound :
      (c : HttpGameClient) (o : Outcome A) (n : ℕ) (wanted : Option Text)
      → length c.sent + attempts_of (registry operation).mutation ≤ n
      → length (after_required (c, o) (attempt server operation model payload) wanted).0.sent ≤ n
  unfolding adopt
  after_required_bound c o n none h = omega (arith, h)
  after_required_bound c o n (some version) h =
      elim (Bool-cases (adopt c.client_version version).1) [
        | inl e ↦ rw e (
            omega (
              arith,
              h,
              attempt_bound (record c { client_version = (adopt c.client_version version).0 }),
            ))
        | inr e ↦ rw e (omega (arith, h))
      ]

  length-public :
      (out : HttpGameClient × Outcome A) → length (public out).0.sent ≡ length out.0.sent
  length-public (c, value a) = refl
  length-public (c, failure f) = refl

  request_bound :
      (c : HttpGameClient)
      → length (request server operation model payload c).0.sent
        ≤ length c.sent + 2 * attempts_of (registry operation).mutation
  unfolding request request_outcome adopt
  request_bound c =
      let out = attempt server operation model payload c in
      omega (
        arith,
        length-public (after_attempt out (attempt server operation model payload)),
        attempt_bound c,
        after_required_bound out.0 out.1
            (length c.sent + 2 * attempts_of (registry operation).mutation) (required out.1)
            (omega (arith, attempt_bound c)),
      )

  -- Every request that is sent declares a plausible version and has the token of the session, but a login
  -- has none; the version of the client stays a plausible one. A mutation sends at most two requests, and
  -- another operation at most six.
  pub request-IsDeclared :
      (c : HttpGameClient)
      → IsDeclared token c
      → IsDeclared token (request server operation model payload c).0
        × (length (request server operation model payload c).0.sent
            ≤ length c.sent + (if (registry operation).mutation then 2 else 6))
  unfolding request request_outcome adopt
  request-IsDeclared c v =
      let out = attempt server operation model payload c in
      (
        public_same (after_attempt out (attempt server operation model payload)) (
            after_required-IsDeclared out.0 out.1 (attempt server operation model payload)
              (required out.1) (attempt-IsDeclared c v) attempt-IsDeclared),
        twice (registry operation).mutation (request_bound c),
      )
    where
      twice :
          (b : Bool) {n : ℕ}
          → n ≤ length c.sent + 2 * attempts_of b
          → n ≤ length c.sent + (if b then 2 else 6)
      twice true h = omega (arith, h)
      twice false h = omega (arith, h)
