-- ===== src/Runner/Run/Approval.antt =====
-- No phase that needs an approval is executed without one.
use local_skill_orchestrator.Prelude.Results.{Result-cases, Result}
use local_skill_orchestrator.Prelude.{
  refl, arith, ℕ, ◌+◌, String, ◌≡◌, sym, subst, ◌⊎◌, Bool, true, false, List, [], ◌∷◌, In, drop,
  Option, none, some, Bool-cases, ◌==◌, string_Eq, inl, inr,
}
use local_skill_orchestrator.Planning.TaskGraph.{TaskPhase}
use local_skill_orchestrator.Runner.State.{TaskRunCheckpoint}
use local_skill_orchestrator.Runner.World.{
  bind_result-keeps, Environment, Event, approval_asked, executed, saved, recorded, World, Exec,
  save,
}
use local_skill_orchestrator.Runner.Run.{
  RunError, Outside, finally_close, proceed, continue_with, Task, Turn, returned, advanced, execute,
  turn, loop, resumed, started, opened, run_open, run,
}

-- The phase needs no approval, or it was given one.
abbrev pub IsCleared : TaskPhase → List Event → Type 0
IsCleared p log = (p.requires_approval ≡ false) ⊎ In (approval_asked p true) log

-- Every phase that was executed was cleared before, in the log with the latest event first.
abbrev pub IsGated : List Event → Type 0
IsGated [] = Unit
IsGated (executed p ∷ log) = IsCleared p log × IsGated log
IsGated (approval_asked p a ∷ log) = IsGated log
IsGated (saved c ∷ log) = IsGated log
IsGated (recorded o ∷ log) = IsGated log

module _ {W : Type 0} (sha256 : String → String) (env : Environment W) (task : Task) where
  abbrev Gated : World W → Type 0
  Gated w = IsGated w.log

  execute-IsGated :
      (index : ℕ) (phase : TaskPhase) (rest : List TaskPhase) (head : String)
      (c : TaskRunCheckpoint) (thread : String) (w : World W)
      → IsCleared phase w.log
      → IsGated w.log
      → IsGated (execute sha256 env task index phase rest head c thread w).1.log
  unfolding execute
  execute-IsGated index phase rest head c thread w cleared gated = ground arith

  turn-IsGated :
      (index : ℕ) (phase : TaskPhase) (rest : List TaskPhase) (c : TaskRunCheckpoint)
      (thread : String) (w : World W)
      → IsGated w.log
      → IsGated (turn sha256 env task index phase rest c thread w).1.log
  unfolding turn
  turn-IsGated index phase rest c thread w gated = ground (arith, execute-IsGated index phase rest)

  continue-IsGated :
      (next : TaskRunCheckpoint → String → Exec W TaskRunCheckpoint)
      → ((c : TaskRunCheckpoint) (thread : String) (v : World W)
          → Gated v
          → Gated (next c thread v).1)
      → (t : Turn) (v : World W) → Gated v
      → Gated (continue_with sha256 env task next t v).1
  continue-IsGated next keeps (returned c) v g = g
  continue-IsGated next keeps (advanced c thread) v g = keeps c thread v g

  loop-IsGated :
      (phases : List TaskPhase) (index : ℕ) (c : TaskRunCheckpoint) (thread : String) (w : World W)
      → IsGated w.log
      → IsGated (loop sha256 env task phases index c thread w).1.log
  unfolding loop
  loop-IsGated [] index c thread w gated = ground arith
  loop-IsGated (phase ∷ rest) index c thread w gated =
      bind_result-keeps Gated (turn sha256 env task index phase rest c thread w).0
        (continue_with sha256 env task (loop sha256 env task rest (index + 1)))
        (turn sha256 env task index phase rest c thread w).1
        (turn-IsGated index phase rest c thread w gated)
        (continue-IsGated (loop sha256 env task rest (index + 1)) (loop-IsGated rest (index + 1)))

  opened-log :
      (resume : Bool) (head blueprint : String) (w : World W)
      → (opened sha256 env task resume head blueprint w).1.log ≡ w.log
  unfolding resumed started
  opened-log resume head blueprint w = ground arith

  run_open-IsGated :
      (resume : Bool) (w : World W)
      → IsGated w.log
      → IsGated (run_open sha256 env task resume w).1.log
  unfolding run_open
  run_open-IsGated resume w gated =
      let asked = env.head_provider w.outside in
      let checked = env.blueprint_digest_provider asked.1 in
      let v : World W = record w { outside = checked.1 } in
      elim (Result-cases asked.0) [
        | inr (e, bad) ↦ rw bad gated
        | inl (head, good) ↦ elim (Result-cases checked.0) [
          | inr (e, bad) ↦ rw (good, bad) gated
          | inl (blueprint, fine) ↦
              rw (good, fine)
                (bind_result-keeps Gated (opened sha256 env task resume head blueprint v).0
                  (proceed sha256 env task) (opened sha256 env task resume head blueprint v).1
                  (subst IsGated (sym (opened-log resume head blueprint v)) gated)
                  (λ c u g.
                    loop-IsGated (drop c.next_phase_index task.plan.phases) c.next_phase_index c
                      c.codex_thread_id (save c u).1 g))
        ]
      ]

  closed-log :
      (close : Option (Outside W (Unit {0}))) (r : Result RunError TaskRunCheckpoint) (w : World W)
      → (finally_close sha256 env task close r w).1.log ≡ w.log
  closed-log none r w = refl
  closed-log (some close) r w = elim (Result-cases (close w.outside).0) [
    | inr (e, bad) ↦ rw bad refl
    | inl (u, good) ↦ rw good refl
  ]

  -- In a run, every phase that needs an approval is executed only after the provider approved it in this
  -- run.
  pub run-IsGated :
      (resume : Bool) (w : World W) → w.log ≡ [] → IsGated (run sha256 env task resume w).1.log
  unfolding run
  run-IsGated resume w fresh =
      let gated : IsGated w.log = subst IsGated (sym fresh) tt in
      elim (Bool-cases (task.intent.task_id == task.plan.task_id)) [
        | inr f ↦ rw f gated
        | inl t ↦ rw t (
            subst IsGated
              (sym (
                closed-log env.close (run_open sha256 env task resume w).0
                  (run_open sha256 env task resume w).1))
              (run_open-IsGated resume w gated))
      ]
