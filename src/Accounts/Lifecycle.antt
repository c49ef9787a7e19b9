-- ===== src/Accounts/Lifecycle.antt =====
-- AccountService (accounts/service.py): the label and the lifecycle of an account, and its removal. An
-- operation is one transaction: where it raises inside, the tables are as they were.
pub mod Removal
use placegame_mcp.Errors
use placegame_mcp.Errors.{Result, ok, raised, ◌>>=◌, ◌>>◌}
use placegame_mcp.Prelude.{
  ℕ, Bool, true, false, ◌&&◌, not, Option, none, some, List, [], ◌∷◌, leb, is_none, is_some_and,
  length, if◌then◌else◌,
}
use placegame_mcp.Text.{Text, Actor, codes, strip, is_empty, text_eq}
use placegame_mcp.Plans.Rows.{AuditEvent, ExecutionResult, text, integer}
use placegame_mcp.Accounts.Rows.{
  GameAccount, AuthMode, Tables, get_for_update, disable_jobs, event, write,
}
use placegame_mcp.Accounts.Session.{Work}

-- Its times of creation and update are left out.
pub record ManagedAccount : Type 0 where
  pub id : ℕ
  pub label : Text
  pub auth_mode : AuthMode
  pub enabled : Bool
  pub paused_reason : Option Text
  pub session_expires_at : Option ℕ

abbrev pub managed : GameAccount → ManagedAccount
managed row = record {
  id = row.id;
  label = row.label;
  auth_mode = row.auth_mode;
  enabled = row.enabled;
  paused_reason = row.paused_reason;
  session_expires_at = row.session_expires_at;
}

abbrev pub Outcome : Type 0 → Type 0
Outcome A = Tables × Result A

-- What a transaction does to its row: nothing if it raises, and else the row is written, and then a
-- pending error is raised or a value returned.
abbrev pub commit : {A : Type 0} → Tables → Result (Work × Result A) → Outcome A
commit t (raised e) = (t, raised e)
commit t (ok (w, out)) = (write w.row w.events t, out)

-- The work on the row that `_require_for_update` finds.
abbrev pub on_found :
    {A : Type 0}
    → Tables
    → (GameAccount → Result (Work × Result A))
    → Option GameAccount
    → Outcome A
on_found t body none = (t, raised Errors.account_not_found)
on_found t body (some row) = commit t (body row)

abbrev pub on_row : {A : Type 0} → ℕ → Tables → (GameAccount → Result (Work × Result A)) → Outcome A
unfolding get_for_update
on_row account_id t body = on_found t body (get_for_update account_id t)

abbrev pub is_removed : GameAccount → Bool
is_removed row = is_some_and (text_eq (codes "removed")) row.paused_reason

abbrev pub is_removing : GameAccount → Bool
is_removing row = is_some_and (text_eq (codes "removing")) row.paused_reason

abbrev pub reject_removed : GameAccount → Result (Unit {0})
reject_removed row = if is_removed row then raised Errors.account_removed else ok tt

abbrev pub reject_removal_marker : GameAccount → Result (Unit {0})
reject_removal_marker row =
    reject_removed row >> (if is_removing row then raised Errors.account_paused else ok tt)

-- `if record.paused_reason:` is false for the empty text too.
abbrev pub is_paused : GameAccount → Bool
is_paused row = is_some_and (λ r. not (is_empty r)) row.paused_reason

abbrev pub require_mutable : GameAccount → Result (Unit {0})
require_mutable row =
    reject_removal_marker row
    >> (if row.enabled
        then if is_paused row then raised Errors.account_paused else ok tt
        else raised Errors.account_disabled)

abbrev pub normalize_label : Text → Result Text
unfolding strip
normalize_label label =
    if leb 1 (length (strip label)) && leb (length (strip label)) 120
    then ok (strip label)
    else raised Errors.value_error

abbrev pub status : Text → ExecutionResult
status s = (codes "status", text s) ∷ []

abbrev pub note : Actor → GameAccount → Text → ExecutionResult → AuditEvent
note actor row action result = event actor (some row.id) none action result

-- The row with one event, and the value that is returned.
abbrev pub done : {A : Type 0} → GameAccount → AuditEvent → A → Result (Work × Result A)
done row e a = ok ((record { row = row; events = e ∷ [] }, ok a))

-- What is done with a value that is computed, or raised, before the transaction.
abbrev pub with_value : {A B : Type 0} → Tables → Result A → (A → Outcome B) → Outcome B
with_value t (raised e) next = (t, raised e)
with_value t (ok a) next = next a

abbrev label_event : Actor → GameAccount → Text → AuditEvent
label_event actor row label =
    record (note actor row (codes "account.label.update") (status (codes "succeeded"))) {
      before = some ((codes "label", text row.label) ∷ []);
      after = some ((codes "label", text label) ∷ []);
    }

unfoldable pub relabelled : Actor → Text → GameAccount → Result (Work × Result ManagedAccount)
relabelled actor label row =
    reject_removal_marker row
    >> done (record row { label = label }) (label_event actor row label)
        (managed (record row { label = label }))

unfoldable pub update_label : ℕ → Text → Actor → Tables → Outcome ManagedAccount
unfolding relabelled strip get_for_update
update_label account_id label actor t =
    with_value t (normalize_label label)
      λ normalized. on_row account_id t (relabelled actor normalized)

unfoldable pub switched : Actor → Bool → GameAccount → Result (Work × Result (Unit {0}))
switched actor enabled row =
    reject_removal_marker row
    >> done (record row { enabled = enabled })
        (note actor row (if enabled then codes "account.enable" else codes "account.disable")
          (status (if enabled then codes "enabled" else codes "disabled")))
        tt

-- `_set_lifecycle` for `enable` and `disable`.
unfoldable pub set_lifecycle : ℕ → Bool → Actor → Tables → Outcome (Unit {0})
unfolding switched get_for_update
set_lifecycle account_id enabled actor t = on_row account_id t (switched actor enabled)

unfoldable pub paused_for : Actor → Text → GameAccount → Result (Work × Result (Unit {0}))
paused_for actor reason row =
    reject_removal_marker row
    >> done (record row { paused_reason = some reason })
        (note actor row (codes "account.pause") (status (codes "paused"))) tt

unfoldable pub pause : ℕ → Text → Actor → Tables → Outcome (Unit {0})
unfolding paused_for strip get_for_update
pause account_id reason actor t =
    if is_empty (strip reason)
    then (t, raised Errors.value_error)
    else on_row account_id t (paused_for actor (strip reason))

unfoldable pub resumed : Actor → GameAccount → Result (Work × Result (Unit {0}))
resumed actor row =
    reject_removed row
    >> (if is_removing row
        then raised Errors.account_paused
        else done (record row { paused_reason = none })
            (note actor row (codes "account.resume") (status (codes "resumed"))) tt)

unfoldable pub resume : ℕ → Actor → Tables → Outcome (Unit {0})
unfolding resumed get_for_update
resume account_id actor t = on_row account_id t (resumed actor)

abbrev pub removing_row : GameAccount → GameAccount
removing_row row = record row { enabled = false; paused_reason = some (codes "removing") }

abbrev pub begin_found : Tables → Option GameAccount → Outcome Bool
begin_found t none = (t, raised Errors.account_not_found)
begin_found t (some row) =
    if is_removed row then (t, ok false) else (write (removing_row row) [] t, ok true)

-- The first transaction of `disable_drain_remove`. It returns whether the second one follows.
unfoldable pub begin_removal : ℕ → Tables → Outcome Bool
unfolding get_for_update
begin_removal account_id t = begin_found t (get_for_update account_id t)

abbrev pub removed_row : GameAccount → GameAccount
removed_row row = record row {
  enabled = false;
  paused_reason = some (codes "removed");
  game_username = none;
  password = none;
  session_token = none;
  session_expires_at = none;
}

abbrev removal_event : Actor → GameAccount → ℕ → AuditEvent
removal_event actor row jobs =
    note actor row (codes "account.remove")
      ((codes "status", text (codes "removed")) ∷ (codes "disabled_jobs", integer jobs) ∷ [])

abbrev pub finish_found : Actor → Tables → Tables × ℕ → Option GameAccount → Outcome ℕ
finish_found actor t (u, jobs) none = (t, raised Errors.account_not_found)
finish_found actor t (u, jobs) (some row) =
    (write (removed_row row) (removal_event actor row jobs ∷ []) u, ok jobs)

-- The second transaction. It returns the number of the jobs that it disabled.
unfoldable pub finish_removal : ℕ → Actor → Tables → Outcome ℕ
unfolding get_for_update disable_jobs
finish_removal account_id actor t =
    finish_found actor t (disable_jobs account_id t) (get_for_update account_id t)

-- The second transaction, where the first one has gone through.
abbrev pub after_begin : ℕ → Actor → (Tables → Tables) → Outcome Bool → Outcome ℕ
unfolding finish_removal
after_begin account_id actor others (t, raised e) = (t, raised e)
after_begin account_id actor others (t, ok false) = (t, ok 0)
after_begin account_id actor others (t, ok true) = finish_removal account_id actor (others t)

-- The two; `others` is what other transactions do between them, such as the work that finishes there.
unfoldable pub disable_drain_remove : ℕ → Actor → (Tables → Tables) → Tables → Outcome ℕ
unfolding begin_removal finish_removal
disable_drain_remove account_id actor others t =
    after_begin account_id actor others (begin_removal account_id t)
