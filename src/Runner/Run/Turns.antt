-- ===== src/Runner/Run/Turns.antt =====
-- The checkpoint's file over the turns of the loop.
use local_skill_orchestrator.Prelude.{
  inr, inl, length-append, ℕ, ◌+◌, String, ◌≡◌, refl, sym, ap, subst, ◌∙◌, Bool, true, false,
  Option, none, some, List, [], ◌∷◌, ◌++◌, drop, length, arith, string_Eq,
}
use local_skill_orchestrator.Prelude.Results.{Result, ok, err, Result-cases}
use local_skill_orchestrator.Planning.TaskGraph.{TaskPhase}
use local_skill_orchestrator.Runner.State.{TaskRunCheckpoint, running, completed, RunError}
use local_skill_orchestrator.Runner.World.{Environment, World, Exec, ◌>>=◌, ◌>>◌, pure, bind_result}
use local_skill_orchestrator.Runner.Run.{
  Outside, TaskOutcome, Task, Turn, returned, advanced, pause, approved, approve_by, approve_turn,
  live_turn, turn, finish, continue_with, loop, proceed, outcome_of, record_by,
}
use local_skill_orchestrator.Runner.Run.Progress.{
  Fits, IsProgress, FileFits, Ends, Begins, execute-Ends, running-IsProgress, drop-append,
}

module _ {W : Type 0} (sha256 : String → String) (env : Environment W) (task : Task) where
  module _ (before : List TaskPhase) (phase : TaskPhase) (rest : List TaskPhase) where
    abbrev EndsAt : Result RunError Turn × World W → Type 0
    EndsAt p = Ends sha256 env task before phase rest p.0 p.1

    approve-Ends :
        (answer : Bool) (index : ℕ) (head : String) (c : TaskRunCheckpoint) (thread : String)
        (w : World W)
        → Begins sha256 env task before phase rest index c w
        → EndsAt (approve_turn sha256 env task answer index phase rest head c thread w)
    unfolding pause
    approve-Ends true index head c thread w begins =
        execute-Ends sha256 env task before phase rest index head c thread w begins
    approve-Ends false index head c thread w (fits, status, at, file) = (
      record {
        before = before;
        after = phase ∷ rest;
        fits = (fits.0, fits.1, fits.2, at ∙ fits.3);
        finished = tt;
      },
      refl,
    )

    by_approval-Ends :
        (needed : Bool) (index : ℕ) (head : String) (c : TaskRunCheckpoint) (thread : String)
        (w : World W)
        → Begins sha256 env task before phase rest index c w
        → EndsAt (
            (approve_by sha256 env task needed phase >>= λ answer.
            approve_turn sha256 env task answer index phase rest head c thread)
              w)
    by_approval-Ends false index head c thread w begins =
        approve-Ends true index head c thread w begins
    by_approval-Ends true index head c thread w begins =
        elim (Result-cases (env.approval_provider phase w.outside).0) [
          | inr (e, bad) ↦ rw bad begins.3
          | inl (answer, good) ↦ rw good (approve-Ends answer index head c thread _ begins)
        ]

    live-Ends :
        (live : Bool) (index : ℕ) (head : String) (c : TaskRunCheckpoint) (thread : String)
        (w : World W)
        → Begins sha256 env task before phase rest index c w
        → EndsAt (live_turn sha256 env task live index phase rest head c thread w)
    unfolding pause approved
    live-Ends false index head c thread w (fits, status, at, file) = (
      record {
        before = before;
        after = phase ∷ rest;
        fits = (fits.0, fits.1, fits.2, at ∙ fits.3);
        finished = tt;
      },
      refl,
    )
    live-Ends true index head c thread w begins =
        by_approval-Ends phase.requires_approval index head c thread w begins

    turn-Ends :
        (index : ℕ) (c : TaskRunCheckpoint) (thread : String) (w : World W)
        → Begins sha256 env task before phase rest index c w
        → EndsAt (turn sha256 env task index phase rest c thread w)
    unfolding turn
    turn-Ends index c thread w begins = elim (Result-cases (env.head_provider w.outside).0) [
      | inr (e, bad) ↦ rw bad begins.3
      | inl (head, good) ↦
          elim (Result-cases (env.blueprint_digest_provider (env.head_provider w.outside).1).0) [
            | inr (e, bad) ↦ rw (good, bad) begins.3
            | inl (blueprint, fine) ↦ rw (good, fine) (live-Ends _ index _ c thread _ begins)
          ]
    ]

  -- How a run ends: what it returns is what the file holds.
  abbrev pub Returns : Result RunError TaskRunCheckpoint → World W → Type 0
  Returns (ok c) v = IsProgress task.plan.phases c × (v.file ≡ some c)
  Returns (err e) v = FileFits task.plan.phases v.file

  record-Returns :
      (recorder : Option (String → TaskOutcome → Outside W (Unit {0}))) (c : TaskRunCheckpoint)
      (w : World W)
      → IsProgress task.plan.phases c
      → w.file ≡ some c
      → Returns
          ((record_by sha256 env task recorder c >> pure c) w).0
          ((record_by sha256 env task recorder c >> pure c) w).1
  record-Returns none c w progress file = (progress, file)
  record-Returns (some recorder) c w progress file =
      elim (Result-cases (recorder task.intent.task_id (outcome_of task c) w.outside).0) [
        | inr (e, bad) ↦ rw bad (rw file progress)
        | inl (u, good) ↦ rw good (progress, file)
      ]

  finish-Returns :
      (before : List TaskPhase) (c : TaskRunCheckpoint) (w : World W)
      → Fits task.plan.phases before [] c
      → Returns (finish sha256 env task c w).0 (finish sha256 env task c w).1
  unfolding finish
  finish-Returns before c w fits =
      record-Returns env.outcome_recorder (record c { status = completed }) _
        (record { before = before; after = []; fits = fits; finished = refl }) refl

  continue-Returns :
      (before : List TaskPhase) (phase : TaskPhase) (rest : List TaskPhase)
      (next : TaskRunCheckpoint → String → Exec W TaskRunCheckpoint)
      → ((c : TaskRunCheckpoint) (thread : String) (v : World W)
          → Fits task.plan.phases (before ++ (phase ∷ [])) rest c
          → c.status ≡ running
          → v.file ≡ some c
          → Returns (next c thread v).0 (next c thread v).1)
      → (r : Result RunError Turn) (v : World W) → Ends sha256 env task before phase rest r v
      → Returns
          (bind_result r (continue_with sha256 env task next) v).0
          (bind_result r (continue_with sha256 env task next) v).1
  continue-Returns before phase rest next k (ok (returned c)) v h = h
  continue-Returns before phase rest next k (ok (advanced c thread)) v h = k c thread v h.0 h.1 h.2
  continue-Returns before phase rest next k (err e) v h = h

  loop-Returns :
      (before after : List TaskPhase) (index : ℕ) (c : TaskRunCheckpoint) (thread : String)
      (w : World W)
      → Fits task.plan.phases before after c
      → c.status ≡ running
      → index ≡ c.next_phase_index
      → FileFits task.plan.phases w.file
      → Returns
          (loop sha256 env task after index c thread w).0
          (loop sha256 env task after index c thread w).1
  unfolding loop
  loop-Returns before [] index c thread w fits status at file = finish-Returns before c w fits
  loop-Returns before (phase ∷ rest) index c thread w fits status at file =
      continue-Returns before phase rest (loop sha256 env task rest (index + 1))
        (λ c' thread' v fits' status' file'.
          loop-Returns (before ++ (phase ∷ [])) rest (index + 1) c' thread' v fits' status'
            (omega (arith, fits.3, at, fits'.3, length-append before (phase ∷ [])))
            (subst (FileFits task.plan.phases) (sym file')
              (running-IsProgress task.plan.phases (before ++ (phase ∷ [])) rest c' fits' status')))
        (turn sha256 env task index phase rest c thread w).0
        (turn sha256 env task index phase rest c thread w).1
        (turn-Ends before phase rest index c thread w (fits, status, at, file))

  pub proceed-Returns :
      (before after : List TaskPhase) (c : TaskRunCheckpoint) (w : World W)
      → Fits task.plan.phases before after c
      → c.status ≡ running
      → Returns (proceed sha256 env task c w).0 (proceed sha256 env task c w).1
  proceed-Returns before after c w fits status =
      let rest : drop c.next_phase_index task.plan.phases ≡ after =
        ap (λ i. drop i task.plan.phases) fits.3
        ∙ (ap (drop (length before)) fits.0 ∙ drop-append before after) in
      rw rest (
        loop-Returns before after c.next_phase_index c c.codex_thread_id _ fits status refl
          (running-IsProgress task.plan.phases before after c fits status))
