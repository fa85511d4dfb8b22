-- ===== src/Initialization/Examples.antt =====
-- Concrete runs of the initialization graph, at which its theorems are applied.
use local_skill_orchestrator.Initialization.Graph.{is_terminal}
use local_skill_orchestrator.Initialization.Graph.{start}
use local_skill_orchestrator.Prelude.{
  inl, String, ◌≡◌, refl, ◌≢◌, false, ◌||◌, Option, none, some, List, [], ◌∷◌, Dict, if◌then◌else◌,
  is_some, lookup, ◌==◌, ◌⊎◌, string_Eq, arith, ==_false→ne,
}
use local_skill_orchestrator.Prelude.Json.{Json, boolean, encode}
use local_skill_orchestrator.Initialization.State.{
  inventory, running, cancelled, InitCheckpoint, conflict, ok, err,
}
use local_skill_orchestrator.Initialization.Store.{Table, values, create, load, replace}
use local_skill_orchestrator.Initialization.Graph.{Exec, advance, next_stage, raise, revise}
use local_skill_orchestrator.Initialization.Graph.Transitions.{
  Op, advancing, pausing, cancelling, perform,
}
use local_skill_orchestrator.Initialization.Graph.Steps.{position, forward, IsConsistent}
use local_skill_orchestrator.Initialization.Graph.Diagram.{IsStep, perform-IsStep, ⟶-perform}
use local_skill_orchestrator.Initialization.Graph.Runs.{
  Call, starting, performing, after_all, IsSound, after_all-IsSound, empty-IsSound,
  loaded-IsConsistent, fresh,
}
use local_skill_orchestrator.Initialization.Graph.Terminal.{terminal_absorbs}
use local_skill_orchestrator.Initialization.Graph.Interleaving.{advance_conflict}

abbrev first_run : InitCheckpoint
first_run = fresh "checkpoint-1" "run-1" "digest"

abbrev second_run : InitCheckpoint
second_run = fresh "checkpoint-2" "run-2" "digest"

abbrev answers : Dict Json
answers = ("language", boolean false) ∷ []

-- Two runs were started, and the first was cancelled.
abbrev calls : List Call
calls =
    starting "checkpoint-1" "run-1" "digest"
    ∷ starting "checkpoint-2" "run-2" "digest"
    ∷ performing "run-1" (advancing inventory (some answers))
    ∷ performing "run-1" (cancelling "stop")
    ∷ []

unfoldable table : Table
unfolding after_all
table = after_all calls []

table-IsSound : IsSound table
unfolding table
table-IsSound = after_all-IsSound calls [] empty-IsSound

abbrev stopped : InitCheckpoint
stopped = record {
  checkpoint_id = "checkpoint-1";
  run_id = "run-1";
  repository_digest = "digest";
  stage = inventory;
  status = cancelled;
  confirmed = answers;
  attempt = 1;
  revision = 3;
  error = none;
  cancellation_reason = some "stop";
}

table-stopped : load "run-1" table ≡ ok stopped
unfolding table load lookup perform local_skill_orchestrator.Initialization.Graph.cancel advance
    local_skill_orchestrator.Initialization.Graph.start create
    local_skill_orchestrator.Prelude.insert next_stage replace encode
    local_skill_orchestrator.Prelude.sort_by local_skill_orchestrator.Prelude.update
    local_skill_orchestrator.Prelude.Json.normalize
table-stopped = refl

terminal_absorbs_example :
    load "run-1" (after_all (performing "run-1" pausing ∷ []) table) ≡ ok stopped
unfolding local_skill_orchestrator.Initialization.Graph.is_terminal
terminal_absorbs_example =
    terminal_absorbs "run-1" stopped (performing "run-1" pausing ∷ []) table (inl refl)
      table-IsSound table-stopped

perform-IsStep_example :
    ((◌≡◌ {A = String} "run-2" "run-1")
      ⊎ (load "run-1" (perform "run-2" (advancing inventory none) table).1 ≡ load "run-1" table))
    × IsStep "run-2"
        (advancing inventory none)
        table
        (perform "run-2" (advancing inventory none) table).0
        (perform "run-2" (advancing inventory none) table).1
perform-IsStep_example =
    perform-IsStep "run-2" "run-1" (advancing inventory none) table table-IsSound.unique

table-second : load "run-2" table ≡ ok second_run
unfolding table load lookup perform local_skill_orchestrator.Initialization.Graph.cancel advance
    local_skill_orchestrator.Initialization.Graph.start create
    local_skill_orchestrator.Prelude.insert next_stage replace encode
    local_skill_orchestrator.Prelude.sort_by local_skill_orchestrator.Prelude.update
    local_skill_orchestrator.Prelude.Json.normalize
table-second = refl

⟶-perform_example :
    (op : Op) × (c' : InitCheckpoint) × ((perform "run-2" op table).0 ≡ ok c')
    × (position c' ≡ (inventory, running))
unfolding next_stage
⟶-perform_example =
    ⟶-perform "run-2" table second_run (inventory, running) table-IsSound.unique table-second
      (forward refl)

loaded-IsConsistent_example : IsConsistent stopped
unfolding after_all table
loaded-IsConsistent_example = loaded-IsConsistent calls "run-1" stopped table-stopped

abbrev one_run : Table
one_run = ("run-1", values first_run) ∷ []

abbrev revised : InitCheckpoint
revised = record first_run { confirmed = answers; revision = 2 }

-- The side effect revises the run that is being advanced.
abbrev revising_effect : Exec (Unit {0})
revising_effect t = (ok tt, (revise "run-1" answers t).1)

advance_conflict_example :
    advance "run-1" inventory none (some revising_effect) one_run
    ≡ (err (conflict "run-1"), (revise "run-1" answers one_run).1)
unfolding lookup values next_stage revise load replace local_skill_orchestrator.Prelude.insert
    encode local_skill_orchestrator.Prelude.sort_by local_skill_orchestrator.Prelude.update
    local_skill_orchestrator.Prelude.Json.normalize
advance_conflict_example =
    advance_conflict "run-1" inventory none revising_effect one_run
      (revise "run-1" answers one_run).1 (values first_run)
      (record (values first_run) { confirmed_json = answers; revision = 2 }) refl refl refl refl
      refl (λ e. ground arith)
