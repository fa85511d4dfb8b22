-- ===== src/Initialization/Graph/Transitions.antt =====
-- The methods of `InitializationGraph` without side effects, as one action by a data type of
-- operations, and what they compute on a single checkpoint, apart from the store. Diagram holds the
-- methods against the diagram of Steps.
use local_skill_orchestrator.Prelude.{
  ◌+◌, String, ◌≡◌, refl, Bool, Option, none, some, if◌then◌else◌, arith, not, Dict, Option-cases,
  inl, inr, ◌==◌, string_Eq, lookup, insert,
}
use local_skill_orchestrator.Prelude.Json.{Json}
use local_skill_orchestrator.Initialization.State.{
  InitStage, verify, running, paused, failed, cancelled, completed, InitCheckpoint, InitError,
  not_found, wrong_stage, wrong_status, cannot_complete, digest_changed, Result, ok, err, stage_Eq,
  status_Eq,
}
use local_skill_orchestrator.Initialization.Store.{Table, Row, from_row, overwrite}
use local_skill_orchestrator.Initialization.Store.Laws.{IsUnique, replace_lem, load-some, load-none}
use local_skill_orchestrator.Initialization.Graph.{
  Exec, next_stage, is_terminal, is_expected, merge, load, replace, advance, revise, pause, resume,
  fail, retry, cancel, complete,
}

pub data Op : Type 0 where
  advancing : InitStage → Option (Dict Json) → Op
  revising : Dict Json → Op
  pausing : Op
  resuming : String → Op
  failing : String → Op
  retrying : Op
  cancelling : String → Op
  completing : Option (Dict Json) → Op

unfoldable pub perform : String → Op → Exec InitCheckpoint
perform run_id (advancing stage confirmed) = advance run_id stage confirmed none
perform run_id (revising confirmed) = revise run_id confirmed
perform run_id pausing = pause run_id
perform run_id (resuming digest) = resume run_id digest
perform run_id (failing error) = fail run_id error
perform run_id retrying = retry run_id
perform run_id (cancelling reason) = cancel run_id reason
perform run_id (completing confirmed) = complete run_id confirmed

abbrev pub guarded : Bool → InitError → InitCheckpoint → Result InitCheckpoint
guarded test e c = if test then ok c else err e

-- What an operation computes of the run's checkpoint, or why it is rejected: the methods' code without
-- the store.
unfoldable pub transition : Op → InitCheckpoint → Result InitCheckpoint
transition (advancing stage confirmed) c =
    if c.status == running
    then guarded (is_expected stage (next_stage c.stage)) (wrong_stage c.stage stage)
        (record c { stage = stage; confirmed = merge c confirmed; revision = c.revision + 1 })
    else err (wrong_status c.run_id c.status)
transition (revising confirmed) c =
    guarded (c.status == running) (wrong_status c.run_id c.status)
      (record c { confirmed = merge c (some confirmed); revision = c.revision + 1 })
transition pausing c =
    guarded (c.status == running) (wrong_status c.run_id c.status)
      (record c { status = paused; revision = c.revision + 1 })
transition (resuming digest) c =
    if c.status == paused
    then guarded (digest == c.repository_digest) digest_changed
        (record c { status = running; revision = c.revision + 1 })
    else err (wrong_status c.run_id c.status)
transition (failing error) c =
    guarded (c.status == running) (wrong_status c.run_id c.status)
      (record c { status = failed; error = some error; revision = c.revision + 1 })
transition retrying c = guarded (c.status == failed) (wrong_status c.run_id c.status) (record c {
  status = running;
  attempt = c.attempt + 1;
  error = none;
  revision = c.revision + 1;
})
transition (cancelling reason) c =
    guarded (not (is_terminal c.status)) (wrong_status c.run_id c.status) (record c {
      status = cancelled;
      cancellation_reason = some reason;
      revision = c.revision + 1;
    })
transition (completing confirmed) c =
    if c.status == running
    then guarded (c.stage == verify) (cannot_complete c.stage)
        (record c { status = completed; confirmed = merge c confirmed; revision = c.revision + 1 })
    else err (wrong_status c.run_id c.status)

-- The result and the table of a transition that was computed.
abbrev pub commit : String → Row → Table → Result InitCheckpoint → Result InitCheckpoint × Table
commit run_id r t (ok c) = (ok c, insert run_id (overwrite r c) t)
commit run_id r t (err e) = (err e, t)

replace-commit :
    (c : InitCheckpoint) (r : Row) (t : Table)
    → IsUnique t
    → lookup c.run_id t ≡ some r
    → r.checkpoint_id ≡ c.checkpoint_id
    → replace (from_row c.run_id r) c t ≡ commit c.run_id r t (ok c)
unfolding replace
replace-commit c r t u found kept =
    rw (replace_lem (from_row c.run_id r) c r t u found refl kept) refl

load-found :
    (run_id : String) (r : Row) (t : Table)
    → lookup run_id t ≡ some r
    → load run_id t ≡ (ok (from_row run_id r), t)
unfolding load
load-found run_id r t found = rw (load-some run_id r t found) refl

module _ (run_id : String) (r : Row) (t : Table) (u : IsUnique t)
    (found : lookup run_id t ≡ some r) where
  abbrev before : InitCheckpoint
  before = from_row run_id r

  pause-found : pause run_id t ≡ commit run_id r t (transition pausing before)
  unfolding pause transition
  pause-found = ground (
    arith,
    load-some run_id r t found,
    replace-commit (record before { status = paused; revision = r.revision + 1 }) r t u found refl,
  )

  advance-found :
      (stage : InitStage) (confirmed : Option (Dict Json))
      → advance run_id stage confirmed none t
        ≡ commit run_id r t (transition (advancing stage confirmed) before)
  unfolding advance transition
  advance-found stage confirmed = ground (
    arith,
    load-some run_id r t found,
    replace-commit
        (record before {
          stage = stage;
          confirmed = merge before confirmed;
          revision = r.revision + 1;
        })
        r t u found refl,
  )

  revise-found :
      (confirmed : Dict Json)
      → revise run_id confirmed t ≡ commit run_id r t (transition (revising confirmed) before)
  unfolding revise transition
  revise-found confirmed = ground (
    arith,
    load-some run_id r t found,
    replace-commit
        (record before { confirmed = merge before (some confirmed); revision = r.revision + 1 }) r t
        u found refl,
  )

  resume-found :
      (digest : String)
      → resume run_id digest t ≡ commit run_id r t (transition (resuming digest) before)
  unfolding resume transition
  resume-found digest = ground (
    arith,
    load-some run_id r t found,
    replace-commit (record before { status = running; revision = r.revision + 1 }) r t u found refl,
  )

  fail-found :
      (error : String) → fail run_id error t ≡ commit run_id r t (transition (failing error) before)
  unfolding fail transition
  fail-found error = ground (
    arith,
    load-some run_id r t found,
    replace-commit
        (record before { status = failed; error = some error; revision = r.revision + 1 }) r t u
        found refl,
  )

  retry-found : retry run_id t ≡ commit run_id r t (transition (retrying) before)
  unfolding retry transition
  retry-found = ground (
    arith,
    load-some run_id r t found,
    replace-commit
        (record before {
          status = running;
          attempt = r.attempt + 1;
          error = none;
          revision = r.revision + 1;
        })
        r t u found refl,
  )

  cancel-found :
      (reason : String)
      → cancel run_id reason t ≡ commit run_id r t (transition (cancelling reason) before)
  unfolding cancel transition
  cancel-found reason = ground (
    arith,
    load-some run_id r t found,
    replace-commit
        (record before {
          status = cancelled;
          cancellation_reason = some reason;
          revision = r.revision + 1;
        })
        r t u found refl,
  )

  complete-found :
      (confirmed : Option (Dict Json))
      → complete run_id confirmed t ≡ commit run_id r t (transition (completing confirmed) before)
  unfolding complete transition
  complete-found confirmed = ground (
    arith,
    load-some run_id r t found,
    replace-commit
        (record before {
          status = completed;
          confirmed = merge before confirmed;
          revision = r.revision + 1;
        })
        r t u found refl,
  )

  perform-found : (op : Op) → perform run_id op t ≡ commit run_id r t (transition op before)
  unfolding perform
  perform-found (advancing stage confirmed) = advance-found stage confirmed
  perform-found (revising confirmed) = revise-found confirmed
  perform-found pausing = pause-found
  perform-found (resuming digest) = resume-found digest
  perform-found (failing error) = fail-found error
  perform-found retrying = retry-found
  perform-found (cancelling reason) = cancel-found reason
  perform-found (completing confirmed) = complete-found confirmed

perform-missing :
    (run_id : String) (t : Table)
    → lookup run_id t ≡ none
    → (op : Op) → perform run_id op t ≡ (err (not_found run_id), t)
unfolding perform advance revise pause resume fail retry cancel complete
perform-missing run_id t missing (advancing stage confirmed) =
    ground (arith, load-none run_id t missing)
perform-missing run_id t missing _ = ground (arith, load-none run_id t missing)

-- What an operation does to a table: the transition of the run's row, or an error.
abbrev pub specified : String → Op → Table → Option Row → Result InitCheckpoint × Table
specified run_id op t none = (err (not_found run_id), t)
specified run_id op t (some r) = commit run_id r t (transition op (from_row run_id r))

-- Over a table with unique identifiers an operation loads the run, computes the next checkpoint and writes
-- its row, without a conflict; where the run is missing or the operation is rejected, nothing is written.
pub perform_lem :
    (run_id : String) (op : Op) (t : Table)
    → IsUnique t
    → perform run_id op t ≡ specified run_id op t (lookup run_id t)
perform_lem run_id op t u = elim (Option-cases (lookup run_id t)) [
  | inl missing ↦ rw missing (perform-missing run_id t missing op)
  | inr (r, found) ↦ rw found (perform-found run_id r t u found op)
]
