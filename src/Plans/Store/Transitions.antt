-- ===== src/Plans/Store/Transitions.antt =====
-- The life of a plan under the methods of the store.
use placegame_mcp.Errors.{Result-cases}
use placegame_mcp.Prelude.Keys.{Distinct, first-Distinct}
use placegame_mcp.Prelude.{
  ℕ, ◌+◌, ◌<◌, ◌≡◌, ◌⊎◌, refl, arith, true, false, not, ◌||◌, ◌&&◌, some, List, [], ◌∷◌, leb, first,
  All, Bool-cases, Option-cases, inl, inr,
}
use placegame_mcp.Text.{Actor}
use placegame_mcp.Plans.Rows.{ActionPlan, PlanState, pending, confirmed, executing, ExecutionResult}
use placegame_mcp.Plans.Store.{
  Plans, by_id, of_account, typed, ActionPlanDraft, draft_valid, new_plan, write, create,
  get_for_update, as_confirmed, confirm, is_pending, expects, mark_executing, is_terminal, is_open,
  as_finished, finish,
}

pub data PlanCall : Type 0 where
  creates : ActionPlanDraft → PlanCall
  gets : ℕ → ℕ → PlanCall
  confirms : ℕ → ℕ → Actor → ℕ → PlanCall
  marks : ℕ → PlanState → ℕ → PlanCall
  finishes : ℕ → PlanState → ExecutionResult → ℕ → PlanCall

unfoldable pub call : PlanCall → Plans → Plans
call (creates d) s = (create d s).0
call (gets i a) s = (get_for_update i a s).0
call (confirms i a actor now) s = (confirm i a actor now s).0
call (marks i expected now) s = (mark_executing i expected now s).0
call (finishes i status result now) s = (finish i status result now s).0

unfoldable pub calls : List PlanCall → Plans → Plans
calls [] s = s
calls (c ∷ cs) s = calls cs (call c s)

-- How a call changes the rows: not at all, by one new plan, or by one row that moves on. `Moves`
-- has the guard of each method.
pub data Moves (now : ℕ) (p q : ActionPlan) : Type 0 where
  confirmed_now :
      (actor : Actor)
      → p.execution_state ≡ pending
      → now < p.expires_at
      → q ≡ as_confirmed actor now p
      → Moves now p q
  started :
      (p.execution_state ≡ confirmed)
        ⊎ (p.execution_state ≡ pending) × (p.confirmation_required ≡ false)
      → now < p.expires_at
      → q ≡ record p { execution_state = executing }
      → Moves now p q
  ended :
      (status : PlanState) (result : ExecutionResult)
      → is_open p.execution_state ≡ true
      → is_terminal status ≡ true
      → q ≡ as_finished status result now p
      → Moves now p q

pub data Effect (s : Plans) : Plans → Type 0 where
  same : Effect s s
  added :
      (d : ActionPlanDraft)
      → draft_valid d ≡ true
      → Effect s (record { rows = new_plan d s.next_id ∷ s.rows; next_id = s.next_id + 1 })
  moved :
      (now : ℕ) (p q : ActionPlan)
      → first (by_id p.id) s.rows ≡ some p
      → Moves now p q
      → Effect s (write q s)

pub record IsValid (s : Plans) : Type 0 where
  pub fresh : All (λ p. p.id < s.next_id) s.rows
  pub distinct : Distinct (λ p. p.id) s.rows

-- Each method has one of these effects. One that raises has none.
create-Effect : (d : ActionPlanDraft) (s : Plans) → Effect s (create d s).0
unfolding create
create-Effect d s = elim (Bool-cases (draft_valid d)) [
  | inr bad ↦ rw (bad, create) same
  | inl good ↦ elim (Result-cases (typed (new_plan d s.next_id))) [
    | inl (t, e) ↦ rw (good, e, create) (added d good)
    | inr (x, e) ↦ rw (good, e, create) same
  ]
]

get-Effect : (i a : ℕ) (s : Plans) → Effect s (get_for_update i a s).0
unfolding get_for_update
get-Effect i a s = elim (Option-cases (first (of_account i a) s.rows)) [
  | inl e ↦ rw (e, get_for_update) same
  | inr (p, e) ↦ rw (e, get_for_update) same
]

pending_lem : (x : PlanState) → is_pending x ≡ true → x ≡ pending
pending_lem x h = ground arith

confirm-Effect :
    (i a : ℕ) (actor : Actor) (now : ℕ) (s : Plans)
    → IsValid s
    → Effect s (confirm i a actor now s).0
unfolding confirm
confirm-Effect i a actor now s v = elim (Option-cases (first (of_account i a) s.rows)) [
  | inl e ↦ rw (e, confirm) same
  | inr (p, e) ↦ elim (Bool-cases (not (is_pending p.execution_state) || leb p.expires_at now)) [
    | inl bad ↦ rw (e, bad, confirm) same
    | inr good ↦ elim (Result-cases (typed (as_confirmed actor now p))) [
      | inr (x, f) ↦ rw (e, good, f, confirm) same
      | inl (t, f) ↦
          rw (e, good, f, confirm)
            (moved now p (as_confirmed actor now p)
              (first-Distinct (λ q. q.id) (of_account i a) s.rows p v.distinct e)
              (confirmed_now actor (ground arith) (ground arith) refl))
    ]
  ]
]

mark-Effect :
    (i : ℕ) (x : PlanState) (now : ℕ) (s : Plans)
    → IsValid s
    → Effect s (mark_executing i x now s).0
unfolding mark_executing
mark-Effect i x now s v = elim (Option-cases (first (by_id i) s.rows)) [
  | inl e ↦ rw (e, mark_executing) same
  | inr (p, e) ↦
      elim (Bool-cases (
        not (expects x p.execution_state)
        || leb p.expires_at now
        || (is_pending x && p.confirmation_required))) [
          | inl bad ↦ rw (e, bad, mark_executing) same
          | inr good ↦
              rw (e, good, mark_executing)
                (moved now p (record p { execution_state = executing })
                  (first-Distinct (λ q. q.id) (by_id i) s.rows p v.distinct e)
                  (started (ground arith) (ground arith) refl))
        ]
]

finish-Effect :
    (i : ℕ) (status : PlanState) (r : ExecutionResult) (now : ℕ) (s : Plans)
    → IsValid s
    → Effect s (finish i status r now s).0
unfolding finish
finish-Effect i status r now s v = elim (Bool-cases (is_terminal status)) [
  | inr bad ↦ rw (bad, finish) same
  | inl t ↦ elim (Option-cases (first (by_id i) s.rows)) [
    | inl e ↦ rw (t, e, finish) same
    | inr (p, e) ↦
        elim (Bool-cases (is_terminal p.execution_state || not (is_open p.execution_state))) [
          | inl bad ↦ rw (t, e, bad, finish) same
          | inr good ↦
              rw (t, e, good, finish)
                (moved now p (as_finished status r now p)
                  (first-Distinct (λ q. q.id) (by_id i) s.rows p v.distinct e)
                  (ended status r (ground arith) t refl))
        ]
  ]
]

pub call-Effect : (c : PlanCall) (s : Plans) → IsValid s → Effect s (call c s)
unfolding call
call-Effect (creates d) s v = create-Effect d s
call-Effect (gets i a) s v = get-Effect i a s
call-Effect (confirms i a actor now) s v = confirm-Effect i a actor now s v
call-Effect (marks i x now) s v = mark-Effect i x now s v
call-Effect (finishes i status r now) s v = finish-Effect i status r now s v
