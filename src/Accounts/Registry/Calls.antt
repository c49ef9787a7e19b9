-- ===== src/Accounts/Registry/Calls.antt =====
-- Sequences of operations of AccountService (accounts/service.py), in any order and with any answers of
-- the game.
use placegame_mcp.Errors.{Result}
use placegame_mcp.Prelude.{ℕ, ◌≡◌, Bool, Option, some, List, [], ◌∷◌}
use placegame_mcp.Text.{Text, Actor}
use placegame_mcp.Idle.Planner.{IdleSummary}
use placegame_mcp.Accounts.Rows.{GameAccount, AccountSnapshot, Tables}
use placegame_mcp.Accounts.Session.{Game}
use placegame_mcp.Accounts.Lifecycle.{
  update_label, set_lifecycle, pause, resume, begin_removal, finish_removal,
}
use placegame_mcp.Accounts.Enrolment.{add_credentials, add_token_only}
use placegame_mcp.Accounts.Secrets.{update_credentials, update_token_only}
use placegame_mcp.Accounts.Snapshots.{ensure_session, snapshot, locked}
use placegame_mcp.Accounts.Registry.{Kept, Reach, start, later, Reach-IsValid, Reach-Kept}
use placegame_mcp.Accounts.Registry.Sent.{Reach-append, mutate-Reach}
use placegame_mcp.Accounts.Mutation.{Mutation}
use placegame_mcp.Accounts.Mutation.Loop.{mutate}
use placegame_mcp.Accounts.Registry.Changes.{IsValid, at}
use placegame_mcp.Accounts.Registry.Operations.{
  update_label-Change, set_lifecycle-Change, pause-Change, resume-Change, begin_removal-Change,
  finish_removal-Change, add_credentials-Change, add_token_only-Change,
}
use placegame_mcp.Accounts.Registry.Updates.{update_credentials-Change, update_token_only-Change}
use placegame_mcp.Accounts.Registry.Resolved.{ensure_session-Change, snapshot-Change, locked-Change}

-- The two transactions of a removal are two calls, since others can come between them.
pub data AccountCall : Type 1 where
  adds_credentials : Game → Text → Text → Text → Actor → AccountCall
  adds_token : Game → Text → Text → Actor → AccountCall
  labels : ℕ → Text → Actor → AccountCall
  switches : ℕ → Bool → Actor → AccountCall
  pauses : ℕ → Text → Actor → AccountCall
  resumes : ℕ → Actor → AccountCall
  begins_removal : ℕ → AccountCall
  finishes_removal : ℕ → Actor → AccountCall
  updates_credentials : Game → ℕ → Option Text → Text → Actor → AccountCall
  updates_token : Game → ℕ → Text → Actor → AccountCall
  ensures : Game → ℕ → Actor → AccountCall
  takes_snapshot : (Option (Text × IdleSummary) → Text) → Game → ℕ → Actor → AccountCall
  locks :
      (Option (Text × IdleSummary) → Text)
      → Game
      → Result ℕ
      → (Text → ℕ → AccountSnapshot → Result (Unit {0}))
      → ℕ
      → Actor
      → AccountCall
  mutates : {A : Type 0} → Mutation A → ℕ → ℕ → Actor → AccountCall

unfoldable pub call : AccountCall → Tables → Tables
unfolding mutate update_label set_lifecycle pause resume begin_removal finish_removal
    add_credentials add_token_only update_credentials update_token_only ensure_session snapshot
    locked
call (adds_credentials game label username password actor) t =
    (add_credentials game label username password actor t).0
call (adds_token game label token actor) t = (add_token_only game label token actor t).0
call (labels i label actor) t = (update_label i label actor t).0
call (switches i enabled actor) t = (set_lifecycle i enabled actor t).0
call (pauses i reason actor) t = (pause i reason actor t).0
call (resumes i actor) t = (resume i actor t).0
call (begins_removal i) t = (begin_removal i t).0
call (finishes_removal i actor) t = (finish_removal i actor t).0
call (updates_credentials game i username password actor) t =
    (update_credentials game i username password actor t).0
call (updates_token game i token actor) t = (update_token_only game i token actor t).0
call (ensures game i actor) t = (ensure_session game i actor t).0
call (takes_snapshot digest game i actor) t = (snapshot digest game i actor t).0
call (locks digest game policy body i actor) t = (locked digest game policy body i actor t).0
call (mutates m now i actor) t = (mutate m now i actor t).0

unfoldable pub calls : List AccountCall → Tables → Tables
unfolding call
calls [] t = t
calls (c ∷ cs) t = calls cs (call c t)

call-Reach : (c : AccountCall) (t : Tables) → Reach t (call c t)
unfolding call
call-Reach (adds_credentials game label username password actor) t =
    later start (add_credentials-Change game label username password actor t)
call-Reach (adds_token game label token actor) t =
    later start (add_token_only-Change game label token actor t)
call-Reach (labels i label actor) t = later start (update_label-Change i label actor t)
call-Reach (switches i enabled actor) t = later start (set_lifecycle-Change i enabled actor t)
call-Reach (pauses i reason actor) t = later start (pause-Change i reason actor t)
call-Reach (resumes i actor) t = later start (resume-Change i actor t)
call-Reach (begins_removal i) t = later start (begin_removal-Change i t)
call-Reach (finishes_removal i actor) t = later start (finish_removal-Change i actor t)
call-Reach (updates_credentials game i username password actor) t =
    later start (update_credentials-Change game i username password actor t)
call-Reach (updates_token game i token actor) t =
    later start (update_token_only-Change game i token actor t)
call-Reach (ensures game i actor) t = later start (ensure_session-Change game i actor t)
call-Reach (takes_snapshot digest game i actor) t =
    later start (snapshot-Change digest game i actor t)
call-Reach (locks digest game policy body i actor) t =
    later start (locked-Change digest game policy body i actor t)
call-Reach (mutates m now i actor) t = mutate-Reach m now i actor t

calls-Reach : (cs : List AccountCall) (s t : Tables) → Reach s t → Reach s (calls cs t)
unfolding calls
calls-Reach [] s t r = r
calls-Reach (c ∷ cs) s t r = calls-Reach cs s (call c t) (Reach-append r (call-Reach c t))

-- However the operations follow each other, and whatever the game answers, no two accounts have one
-- game identity, and the identifiers of the accounts are distinct and below the next one, if it was so
-- before.
pub calls_unique : (cs : List AccountCall) (t : Tables) → IsValid t → IsValid (calls cs t)
calls_unique cs t v = Reach-IsValid (calls-Reach cs t t start) v

-- An account stays: after any operations it has its identifier, and the game identity that it had, if
-- any. If it has a marker of the removal it keeps one, and a row that was removed, its secrets erased, is
-- as it was.
pub calls-Kept :
    (cs : List AccountCall) (t : Tables) (n : ℕ) (a : GameAccount)
    → at n t.accounts ≡ some a
    → (b : GameAccount) × (at n (calls cs t).accounts ≡ some b) × Kept a b
calls-Kept cs t n a h = Reach-Kept (calls-Reach cs t t start) n a h
