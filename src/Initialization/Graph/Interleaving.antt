-- ===== src/Initialization/Graph/Interleaving.antt =====
-- `advance` with a side effect, which runs between the load and the replacement and may itself use
-- the store, as another client may at that point.
use local_skill_orchestrator.Prelude.{
  String, ◌+◌, ◌≡◌, ◌≢◌, Option, some, arith, Dict, lookup, ==_refl,
}
use local_skill_orchestrator.Prelude.Json.{Json}
use local_skill_orchestrator.Initialization.State.{
  InitStage, running, InitError, conflict, ok, err, stage_Eq, status_Eq,
}
use local_skill_orchestrator.Initialization.Store.{Table, Row, from_row}
use local_skill_orchestrator.Initialization.Store.Laws.{load-some, replace-stale}
use local_skill_orchestrator.Initialization.Graph.{Exec, advance, next_stage, merge}

module _ (run_id : String) (stage : InitStage) (confirmed : Option (Dict Json))
    (effect : Exec (Unit {0})) (t u : Table) (r : Row) where
  -- Where the side effect, or a client beside it, leaves the run at another revision, `advance`
  -- reports a conflict and does not overwrite what was written.
  pub advance_conflict :
      (s : Row)
      → lookup run_id t ≡ some r
      → r.status ≡ running
      → next_stage r.stage ≡ some stage
      → effect t ≡ (ok tt, u)
      → lookup run_id u ≡ some s
      → s.revision ≢ r.revision
      → advance run_id stage confirmed (some effect) t ≡ (err (conflict run_id), u)
  unfolding advance
  advance_conflict s found status next ran changed newer = ground (
    arith,
    load-some run_id r t found,
    ==_refl stage,
    replace-stale (from_row run_id r)
        (record (from_row run_id r) {
          stage = stage;
          confirmed = merge (from_row run_id r) confirmed;
          revision = r.revision + 1;
        })
        s u changed newer,
  )

  -- A side effect that raises ends the advance with its error; nothing is written after it.
  pub advance_raises :
      (e : InitError)
      → lookup run_id t ≡ some r
      → r.status ≡ running
      → next_stage r.stage ≡ some stage
      → effect t ≡ (err e, u)
      → advance run_id stage confirmed (some effect) t ≡ (err e, u)
  unfolding advance
  advance_raises e found status next ran = ground (arith, load-some run_id r t found, ==_refl stage)
