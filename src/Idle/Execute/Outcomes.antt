-- ===== src/Idle/Execute/Outcomes.antt =====
-- When a collect request is sent, and what an answer of an execution means.
pub mod Meaning
pub mod Answers
use placegame_mcp.Errors
use placegame_mcp.Errors.{Error, Result, ok, raised, Result-cases}
use placegame_mcp.Prelude.{
  ℕ, ◌≤◌, ◌<◌, ◌≡◌, ◌⊎◌, refl, sym, subst, arith, Bool, true, false, ◌&&◌, ◌||◌, not, Option, none,
  some, List, [], ◌∷◌, leb, ◌==◌, first, first-holds, Bool-cases, Option-cases, inl, inr,
  is_some_and, if◌then◌else◌,
}
use placegame_mcp.Prelude.Keys.{first-write_self}
use placegame_mcp.Text.{Text, is_identifier}
use placegame_mcp.Plans.Rows.{ActionPlan, executed}
use placegame_mcp.Plans.Canonical.{Json}
use placegame_mcp.Plans.Store.{by_id}
use placegame_mcp.Idle.Planner.{IdleSummary, IdlePolicy, collects, fingerprint}
use placegame_mcp.Idle.Claims.{Database, Claim, Request, claim, owned, finish, ended}
use placegame_mcp.Idle.Claims.Ownership.{finish_cases}
use placegame_mcp.Idle.Execute.{
  World, Run, Outcome, precondition_failed, done, reconciled, unproven, proven, after_failure,
  after_send, status_of, Status, as_executed, as_reconciled, IdleExecution, conclude, leave,
  stopped, matches, may_send, send_once, recover, execute_claim, execute,
}

leave-sends :
    (w : World) (r : Request) (c : Claim) (n : ℕ) (o : Outcome) (applied : Bool) (db : Database)
    → (leave w r c n o applied db).sends ≡ n
unfolding leave
leave-sends w r c n o applied db = elim (Result-cases w.released) [
  | inr (e, x) ↦ rw (x, leave) refl
  | inl (u, x) ↦ rw (x, leave) refl
]

module _ (sha256_of : Json → Text) where
  -- What holds when a request is sent.
  pub record Sends (w : World) (r : Request) (db : Database) : Type 0 where
    pub claimed : Claim
    pub policy : IdlePolicy
    pub before : IdleSummary
    pub succeeded : (claim r db).1 ≡ ok claimed
    pub first_time : claimed.recovery ≡ false
    pub locked : w.locked ≡ ok policy
    pub seen : w.before ≡ ok before
    pub still_owned :
        owned r.account_id claimed.plan.id claimed.owner (w.others (claim r db).0) ≡ true
    pub same_version : policy.version ≡ claimed.plan.policy_version
    pub same_state :
        matches (fingerprint sha256_of before policy) claimed.plan.state_fingerprint ≡ true

  -- The ways in which an execution goes: stopped before it asks for anything to be recorded, sent,
  -- refused by its last checks, or a recovery.
  module _ {ℓ} (P : Run → Type ℓ) (w : World) (r : Request) (db : Database)
      (stops : (t : Database) (e : Error) → P (stopped t e))
      (sent : (s : Sends w r db)
        → P (
            leave w r s.claimed 1
              (after_send w s.claimed s.policy s.before)
              true
              (w.meanwhile (w.others (claim r db).0))))
      (refused : (c : Claim)
        → (claim r db).1 ≡ ok c
        → P (leave w r c 0 precondition_failed true (w.meanwhile (w.others (claim r db).0))))
      (recovered : (c : Claim) (policy : IdlePolicy) (current : IdleSummary)
        → (claim r db).1 ≡ ok c
        → w.locked ≡ ok policy
        → w.before ≡ ok current
        → P (
            leave w r c 0
              (if proven c policy current then reconciled else unproven)
              false
              (w.meanwhile (w.others (claim r db).0)))) where
    send_cases :
        (c : Claim)
        → (claim r db).1 ≡ ok c
        → c.recovery ≡ false
        → P (send_once sha256_of w r c (claim r db).0)
    unfolding send_once
    send_cases c won fst = elim (Result-cases w.locked) [
      | inr (e, x) ↦ rw (x, send_once) (stops (w.others (claim r db).0) e)
      | inl (policy, x) ↦ elim (Result-cases w.before) [
        | inr (e, y) ↦ rw (x, y, send_once) (stops (w.others (claim r db).0) e)
        | inl (before, y) ↦
            elim (Bool-cases (may_send sha256_of r c policy before (w.others (claim r db).0))) [
              | inr miss ↦ rw (x, y, miss, send_once) (refused c won)
              | inl may ↦
                  let (a, b, d) = allowed c policy before may in
                  rw (x, y, may, send_once)
                    (sent (record {
                      claimed = c;
                      policy = policy;
                      before = before;
                      succeeded = won;
                      first_time = fst;
                      locked = x;
                      seen = y;
                      still_owned = a;
                      same_version = b;
                      same_state = d;
                    }))
            ]
      ]
    ]
      where
        allowed :
            (c : Claim) (policy : IdlePolicy) (before : IdleSummary)
            → may_send sha256_of r c policy before (w.others (claim r db).0) ≡ true
            → (owned r.account_id c.plan.id c.owner (w.others (claim r db).0) ≡ true)
              × (policy.version ≡ c.plan.policy_version)
              × (matches (fingerprint sha256_of before policy) c.plan.state_fingerprint ≡ true)
        allowed c policy before may = unfold may_send in ground arith

    recover_cases : (c : Claim) → (claim r db).1 ≡ ok c → P (recover sha256_of w r c (claim r db).0)
    unfolding recover
    recover_cases c won = elim (Result-cases w.locked) [
      | inr (e, x) ↦ rw (x, recover) (stops (w.others (claim r db).0) e)
      | inl (policy, x) ↦ elim (Result-cases w.before) [
        | inr (e, y) ↦ rw (x, y, recover) (stops (w.others (claim r db).0) e)
        | inl (current, y) ↦ rw (x, y, recover) (recovered c policy current won x y)
      ]
    ]

    execute_claim_cases :
        (c : Claim) → (claim r db).1 ≡ ok c → P (execute_claim sha256_of w r c (claim r db).0)
    unfolding execute_claim
    execute_claim_cases c won = elim (Bool-cases c.recovery) [
      | inl again ↦ simp again (recover_cases c won)
      | inr fst ↦ simp fst (send_cases c won fst)
    ]

    pub execute_cases : P (execute sha256_of w r db)
    unfolding execute
    execute_cases = elim (Bool-cases (is_identifier r.correlation_id)) [
      | inr bad ↦ rw (bad, execute) (stops db Errors.value_error)
      | inl good ↦ elim (Bool-cases w.lock) [
        | inr held ↦ rw (good, held, execute) (stops db Errors.plan_in_progress)
        | inl free ↦ elim (Result-cases (claim r db).1) [
          | inr (e, x) ↦ rw (good, free, x, execute) (stops (claim r db).0 e)
          | inl (c, x) ↦ rw (good, free, x, execute) (execute_claim_cases c x)
        ]
      ]
    ]
