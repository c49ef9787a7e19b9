-- ===== src/Idle/Previews/Lifecycle.antt =====
-- A preview, and the claim of its plan.
use placegame_mcp.Errors.{Error, Result, ok, raised, ◌>>=◌, ◌>>◌, Result-cases}
use placegame_mcp.Prelude.{
  ℕ, ◌+◌, ◌≤◌, ◌<◌, ◌≡◌, ◌⊎◌, refl, ap, ◌∙◌, arith, true, false, Option, none, some, [], ◌∷◌, first,
  inl, inr,
}
use placegame_mcp.Text.{Text, Actor, codes, require_identifier, is_identifier, audit_actor}
use placegame_mcp.Plans.Rows
use placegame_mcp.Plans.Rows.{ActionPlan, selected, idle_collect, pending}
use placegame_mcp.Plans.Canonical.{Json}
use placegame_mcp.Plans.Store.{ActionPlanDraft, of_account, new_plan}
use placegame_mcp.Idle.Claims.{
  Database, Claim, Request, claim, claim_plan, is_fresh, is_executing, idle_decision, taken,
}
use placegame_mcp.Idle.Planner.{
  IdleSummary, IdlePolicy, fingerprint, threshold, collects, collect_draft, draft, five_minutes,
}
use placegame_mcp.Idle.Planner.Decisions.{draft_cases}
use placegame_mcp.Idle.Previews.{
  Session, IdlePreview, save, save_rows, preview_of, preview, read_session, entries, shown,
}

-- A request that names an actor and a correlation as `preview` and `claim` want them.
pub record Named (actor : Actor) (correlation_id : Text) : Type 0 where
  pub correlated : is_identifier correlation_id ≡ true
  pub value : Text
  pub named : audit_actor actor ≡ ok value

claim_plan_fresh :
    (r : Request) (actor : Text) (plan : ActionPlan) (db : Database)
    → is_fresh plan r.now ≡ true
    → (claim_plan r actor plan db).1
      ≡ ok (record { owner = r.owner; plan = taken r.owner r.now plan; recovery = false })
unfolding claim_plan
claim_plan_fresh r actor plan db fresh =
    let idle : is_executing plan.execution_state ≡ false = claimable plan r.now fresh in
    simp (idle, fresh) refl
  where
    claimable :
        (plan : ActionPlan) (now : ℕ)
        → is_fresh plan now ≡ true
        → is_executing plan.execution_state ≡ false
    claimable plan now fresh = unfold is_fresh in ground arith

first_claim :
    (r : Request) (plan : ActionPlan) (db : Database)
    → Named r.actor r.correlation_id
    → first (of_account r.plan_id r.account_id) db.plans ≡ some plan
    → is_fresh plan r.now ≡ true
    → (claim r db).1
      ≡ ok (record { owner = r.owner; plan = taken r.owner r.now plan; recovery = false })
unfolding claim
first_claim r plan db n found fresh =
    rw (n.correlated, n.named, found, claim) (claim_plan_fresh r n.value plan db fresh)

preview_of_cases {ℓ} :
    (P : Database × Result IdlePreview → Type ℓ) (d : Option ActionPlanDraft) (account_id : ℕ)
    (actor : Actor) (correlation_id : Text) (fresh : ℕ) (policy : IdlePolicy) (idle : IdleSummary)
    (db : Database)
    → ((e : Error) → P (db, raised e))
    → ((value : Text)
        → let out =
            save_rows d value actor.kind account_id
              (entries account_id policy idle)
              correlation_id
              fresh
              db in
          P (out.0, ok (shown account_id policy idle d correlation_id out.1)))
    → P (preview_of d account_id actor correlation_id fresh policy idle db)
unfolding preview_of
preview_of_cases P d account_id actor correlation_id fresh policy idle db refused saved =
    elim (Result-cases (require_identifier correlation_id >> audit_actor actor)) [
      | inr (e, x) ↦ rw (x, preview_of, save) (refused e)
      | inl (value, x) ↦ rw (x, preview_of, save) (saved value)
    ]

-- What a preview reads under the lock of the account.
pub record HasRead (session : Session) (policy : IdlePolicy) (idle : IdleSummary) : Type 0 where
  pub policy_read : session.locked ≡ ok policy
  pub idle_read : session.idle_summary ≡ ok idle

ok_pair :
    {p q : IdlePolicy} {i j : IdleSummary}
    → ◌≡◌ {A = Result (IdlePolicy × IdleSummary)} (ok (p, i)) (ok (q, j))
    → (p ≡ q) × (i ≡ j)
ok_pair h = (cc, cc)

abbrev combined :
    Result (Unit {0})
    → Result IdlePolicy
    → Result IdleSummary
    → Result (Unit {0})
    → Result (IdlePolicy × IdleSummary)
combined m locked summary released =
    m >> (locked >>= λ policy. summary >>= λ idle. released >> ok (policy, idle))

reads :
    (correlation_id : Text) (session : Session) (policy : IdlePolicy) (idle : IdleSummary)
    → require_identifier correlation_id >> read_session session ≡ ok (policy, idle)
    → HasRead session policy idle
reads correlation_id session policy idle =
    go (require_identifier correlation_id) session.locked session.idle_summary session.released refl
      refl
  where
    go :
        (m : Result (Unit {0})) (l : Result IdlePolicy) (s : Result IdleSummary)
        (r : Result (Unit {0}))
        → session.locked ≡ l
        → session.idle_summary ≡ s
        → combined m l s r ≡ ok (policy, idle)
        → HasRead session policy idle
    go (ok u) (ok p) (ok i) (ok w) a b h = record {
      policy_read = a ∙ ap ok (ok_pair h).0;
      idle_read = b ∙ ap ok (ok_pair h).1;
    }
    go (raised e) l s r a b h = absurd (ground arith)
    go (ok u) (raised e) s r a b h = absurd (ground arith)
    go (ok u) (ok p) (raised e) r a b h = absurd (ground arith)
    go (ok u) (ok p) (ok i) (raised e) a b h = absurd (ground arith)

module _ (sha256_of : Json → Text) where
  fresh_draft :
      (account_id id t now : ℕ) (f : Text) (policy : IdlePolicy)
      → t < now + five_minutes
      → is_fresh (new_plan (collect_draft sha256_of account_id f policy now) id) t ≡ true
  unfolding is_fresh idle_decision
  fresh_draft account_id id t now f policy before = ground (arith, before)

  -- The ways in which a preview goes: refused, nothing to do, or a new plan.
  module _ {ℓ} (P : Database × Result IdlePreview → Type ℓ) (session : Session) (account_id : ℕ)
      (actor : Actor) (correlation_id : Text) (now fresh : ℕ) (db : Database)
      (refused : (e : Error) → P (db, raised e))
      (waits : (policy : IdlePolicy) (idle : IdleSummary) (value : Text)
        → HasRead session policy idle
        → collects idle policy ≡ false
        → P (
          (save_rows none value actor.kind account_id
              (entries account_id policy idle)
              correlation_id
              fresh
              db).0,
          ok (shown account_id policy idle none correlation_id none),
        ))
      (plans : (policy : IdlePolicy) (idle : IdleSummary) (value f : Text)
        → HasRead session policy idle
        → collects idle policy ≡ true
        → fingerprint sha256_of idle policy ≡ some f
        → P (
          (save_rows
              (some (collect_draft sha256_of account_id f policy now))
              value
              actor.kind
              account_id
              (entries account_id policy idle)
              correlation_id
              fresh
              db).0,
          ok (
              shown account_id policy idle
                (some (collect_draft sha256_of account_id f policy now))
                correlation_id
                (some fresh)),
        )) where
    preview_draft :
        (policy : IdlePolicy) (idle : IdleSummary)
        → HasRead session policy idle
        → P (
            preview_of
              (draft sha256_of account_id idle policy now)
              account_id
              actor
              correlation_id
              fresh
              policy
              idle
              db)
    preview_draft policy idle read = elim (draft_cases sha256_of account_id now idle policy) [
      | inl (miss, d) ↦ rw d (
          preview_of_cases P none account_id actor correlation_id fresh policy idle db refused
            (λ value. unfold save_rows in waits policy idle value read miss))
      | inr (hit, (f, g, d)) ↦ rw d (
          preview_of_cases P (some (collect_draft sha256_of account_id f policy now)) account_id
            actor correlation_id fresh policy idle db refused
            (λ value. unfold save_rows in plans policy idle value f read hit g))
    ]

    pub preview_cases : P (preview sha256_of session account_id actor correlation_id now fresh db)
    unfolding preview
    preview_cases =
        elim (Result-cases (require_identifier correlation_id >> read_session session)) [
          | inr (e, x) ↦ rw (x, preview) (refused e)
          | inl ((policy, idle), x) ↦
              rw (x, preview)
                (preview_draft policy idle (reads correlation_id session policy idle x))
        ]

  -- The plan that a preview stores can be claimed: for five minutes after the preview, a claim of it
  -- by its account, with an actor and a correlation that are identifiers, succeeds as a first
  -- execution, and the claimed plan has the version of the policy that the preview read.
  pub preview_claimable :
      (session : Session) (account_id : ℕ) (actor : Actor) (correlation_id : Text) (now fresh i : ℕ)
      (db : Database) (v : IdlePreview) (r : Request)
      → (preview sha256_of session account_id actor correlation_id now fresh db).1 ≡ ok v
      → v.plan_id ≡ some i
      → r.account_id ≡ account_id
      → r.plan_id ≡ i
      → Named r.actor r.correlation_id
      → r.now < now + five_minutes
      → (c : Claim) × ((claim r
            (preview sha256_of session account_id actor correlation_id now fresh db).0).1
          ≡ ok c)
        × (c.recovery ≡ false)
        × (c.owner ≡ r.owner)
        × ((policy : IdlePolicy) × (session.locked ≡ ok policy)
            × (c.plan.policy_version ≡ policy.version))
  preview_claimable session account_id actor correlation_id now fresh i db v r =
      preview_cases
        (λ out.
          out.1 ≡ ok v
          → v.plan_id ≡ some i
          → r.account_id ≡ account_id
          → r.plan_id ≡ i
          → Named r.actor r.correlation_id
          → r.now < now + five_minutes
          → (c : Claim) × ((claim r out.0).1 ≡ ok c)
            × (c.recovery ≡ false)
            × (c.owner ≡ r.owner)
            × ((policy : IdlePolicy) × (session.locked ≡ ok policy)
                × (c.plan.policy_version ≡ policy.version)))
        session account_id actor correlation_id now fresh db (λ e h. absurd (ground arith))
        (λ policy idle value read miss h p. absurd (ground arith))
        (λ policy idle value f read hit g h p a b n before.
          let plan = new_plan (collect_draft sha256_of account_id f policy now) fresh in
          let rows =
            (save_rows (some (collect_draft sha256_of account_id f policy now)) value actor.kind
              account_id (entries account_id policy idle) correlation_id fresh db).0 in
          let found : first (of_account r.plan_id r.account_id) rows.plans ≡ some plan =
            unfold save_rows in ground arith in
          (
            record { owner = r.owner; plan = taken r.owner r.now plan; recovery = false },
            first_claim r plan rows n found
                (fresh_draft account_id fresh r.now now f policy before),
            refl,
            refl,
            (policy, read.policy_read, refl),
          ))

  -- The row that a preview stores: the account's, drafted from what was read, pending, to be executed
  -- without a confirmation, within five minutes.
  pub record IsStored (session : Session) (account_id now fresh : ℕ) (p : ActionPlan) : Type 0 where
    pub policy : IdlePolicy
    pub idle : IdleSummary
    pub read : HasRead session policy idle
    pub new : p.id ≡ fresh
    pub own : p.account_id ≡ account_id
    pub version : p.policy_version ≡ policy.version
    pub state : fingerprint sha256_of idle policy ≡ some p.state_fingerprint
    pub actions :
        p.proposed_actions
        ≡ record {
          family = Rows.idle;
          reason = codes "idle_threshold_reached";
          state = selected;
          action = some idle_collect;
        }
          ∷ []
    pub expires : p.expires_at ≡ now + 300000000
    pub unconfirmed : p.confirmation_required ≡ false
    pub waiting : p.execution_state ≡ pending

  -- What a preview shows is what it read, and either waits and stores no plan, or stores one.
  abbrev pub Decides : Session → ℕ → ℕ → ℕ → Database → IdlePreview → Database → Type 0
  Decides session account_id now fresh db v after =
      ((v.accumulated_seconds < v.threshold_seconds) × (v.plan_id ≡ none) × (after.plans ≡ db.plans)
        ⊎ (v.threshold_seconds ≤ v.accumulated_seconds)
          × (v.plan_id ≡ some fresh)
          × (v.expires_at ≡ some (now + 300000000))
          × ((p : ActionPlan) × (after.plans ≡ p ∷ db.plans)
              × IsStored session account_id now fresh p))
      × ((capacity : ℕ) → v.capacity_seconds ≡ some capacity → v.threshold_seconds ≤ capacity)
      × ((idle : IdleSummary) × (session.idle_summary ≡ ok idle)
          × (v.accumulated_seconds ≡ idle.accumulated_seconds)
          × (v.capacity_seconds ≡ idle.capacity_seconds))

  -- A preview that returns either shows seconds below the threshold, has no plan and stores none, or
  -- shows seconds that reach the threshold and has a plan, which is the one row that it stores: a
  -- pending collect of the account, with the fingerprint of the summary and the version of the policy
  -- that were read, which expires in five minutes. The seconds and the capacity that are shown are the
  -- game's, and the threshold that is shown is at most the capacity.
  pub preview-Decides :
      (session : Session) (account_id : ℕ) (actor : Actor) (correlation_id : Text) (now fresh : ℕ)
      (db : Database) (v : IdlePreview)
      → (preview sha256_of session account_id actor correlation_id now fresh db).1 ≡ ok v
      → Decides session account_id now fresh db v
          (preview sha256_of session account_id actor correlation_id now fresh db).0
  unfolding collects threshold save_rows
  preview-Decides session account_id actor correlation_id now fresh db v =
      preview_cases (λ out. out.1 ≡ ok v → Decides session account_id now fresh db v out.0) session
        account_id actor correlation_id now fresh db (λ e h. absurd (ground arith))
        (λ policy idle value read miss h.
          let same = unok h in
          rw (← same) (
            inl (ground arith, refl, refl),
            λ capacity e. ground arith,
            (idle, read.idle_read, refl, refl),
          ))
        (λ policy idle value f read hit g h.
          let same = unok h in
          rw (← same) (
            inr (
              ground arith,
              refl,
              refl,
              (
                new_plan (collect_draft sha256_of account_id f policy now) fresh,
                refl,
                record {
                  policy = policy;
                  idle = idle;
                  read = read;
                  new = refl;
                  own = refl;
                  version = refl;
                  state = g;
                  actions = refl;
                  expires = refl;
                  unconfirmed = refl;
                  waiting = refl;
                },
              ),
            ),
            λ capacity e. ground arith,
            (idle, read.idle_read, refl, refl),
          ))
    where
      unok : {x y : IdlePreview} → ok x ≡ ok y → x ≡ y
      unok h = cc
