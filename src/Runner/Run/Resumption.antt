-- ===== src/Runner/Run/Resumption.antt =====
-- The checkpoint's file over whole runs and any number of resumptions.
use local_skill_orchestrator.Prelude.{
  append-nil, inr, inl, String, ◌≡◌, refl, sym, ap, subst, ◌∙◌, Bool, true, false, Option, none,
  some, List, [], ◌∷◌, ◌++◌, map, Bool-cases, ◌==◌, string_Eq,
}
use local_skill_orchestrator.Prelude.Results.{Result, ok, err, Result-cases}
use local_skill_orchestrator.Planning.TaskGraph.{TaskPhase}
use local_skill_orchestrator.Runner.State.{TaskRunCheckpoint, running, completed, RunError}
use local_skill_orchestrator.Runner.World.{Environment, World, ◌>>=◌, bind_result}
use local_skill_orchestrator.Runner.Run.{
  Event, first_thread, reopened, at_first, ExposedPhase, Outside, Task, load, resumed, started,
  opened, proceed, run_open, finally_close, run,
}
use local_skill_orchestrator.Runner.Run.Progress.{Verified, Fits, Finished, IsProgress, FileFits}
use local_skill_orchestrator.Runner.Run.Turns.{Returns, proceed-Returns}

module _ {W : Type 0} (sha256 : String → String) (env : Environment W) (task : Task) where
  abbrev Opens : Result RunError TaskRunCheckpoint → World W → Type 0
  Opens (ok c) v =
      (before : List TaskPhase) × (after : List TaskPhase) × Fits task.plan.phases before after c
      × (c.status ≡ running)
  Opens (err e) v = FileFits task.plan.phases v.file

  bind-Returns :
      (r : Result RunError TaskRunCheckpoint) (v : World W)
      → Opens r v
      → Returns sha256 env task
          (bind_result r (proceed sha256 env task) v).0
          (bind_result r (proceed sha256 env task) v).1
  bind-Returns (ok c) v h = proceed-Returns sha256 env task h.0 h.1 c v h.2 h.3
  bind-Returns (err e) v h = h

  -- A checkpoint of the file is opened at its place in the plan.
  thread-Opens :
      (exposure : Option (String → List String → Outside W ExposedPhase)) (c : TaskRunCheckpoint)
      (head blueprint : String) (w : World W)
      → IsProgress task.plan.phases c
      → FileFits task.plan.phases w.file
      → Opens
          (reopened sha256 env task exposure c head blueprint w).0
          (reopened sha256 env task exposure c head blueprint w).1
  thread-Opens (some expose) c head blueprint w p file = (p.before, p.after, p.fits, refl)
  thread-Opens none c head blueprint w p file =
      elim (Result-cases (env.resume_thread c.codex_thread_id w.outside).0) [
        | inr (e, bad) ↦ rw bad file
        | inl (thread, good) ↦ rw good (p.before, p.after, p.fits, refl)
      ]

  load-Opens :
      (file : Option TaskRunCheckpoint) (head blueprint : String) (outside : W) (log : List Event)
      → FileFits task.plan.phases file
      → Opens
          (resumed sha256 env task head blueprint
            (record { outside = outside; file = file; log = log })).0
          (resumed sha256 env task head blueprint
            (record { outside = outside; file = file; log = log })).1
  unfolding resumed load
  load-Opens none head blueprint outside log fits = fits
  load-Opens (some c) head blueprint outside log fits =
      elim (Bool-cases (c.task_id == task.plan.task_id)) [
        | inr f ↦ rw f fits
        | inl t ↦ rw t (
            thread-Opens env.expose c head blueprint
              (record { outside = outside; file = some c; log = log }) fits fits)
      ]

  first-Opens :
      (phases : List TaskPhase) (thread head blueprint : String) (w : World W)
      → task.plan.phases ≡ phases
      → FileFits task.plan.phases w.file
      → Opens
          (at_first sha256 env task phases thread head blueprint w).0
          (at_first sha256 env task phases thread head blueprint w).1
  first-Opens [] thread head blueprint w e file = file
  first-Opens (p ∷ ps) thread head blueprint w e file = ([], p ∷ ps, (e, refl, tt, refl), refl)

  start-Opens :
      (exposure : Option (String → List String → Outside W ExposedPhase)) (head blueprint : String)
      (w : World W)
      → FileFits task.plan.phases w.file
      → Opens
          ((first_thread sha256 env task exposure >>= λ thread.
              at_first sha256 env task task.plan.phases thread head blueprint)
            w).0
          ((first_thread sha256 env task exposure >>= λ thread.
              at_first sha256 env task task.plan.phases thread head blueprint)
            w).1
  start-Opens (some expose) head blueprint w file =
      first-Opens task.plan.phases "" head blueprint w refl file
  start-Opens none head blueprint w file = elim (Result-cases (env.start_thread w.outside).0) [
    | inr (e, bad) ↦ rw bad file
    | inl (thread, good) ↦ rw good (first-Opens task.plan.phases thread head blueprint _ refl file)
  ]

  opened-Opens :
      (resume : Bool) (head blueprint : String) (w : World W)
      → FileFits task.plan.phases w.file
      → Opens
          (opened sha256 env task resume head blueprint w).0
          (opened sha256 env task resume head blueprint w).1
  unfolding started
  opened-Opens true head blueprint w file = load-Opens w.file head blueprint w.outside w.log file
  opened-Opens false head blueprint w file = start-Opens env.expose head blueprint w file

  run_open-Returns :
      (resume : Bool) (w : World W)
      → FileFits task.plan.phases w.file
      → Returns sha256 env task
          (run_open sha256 env task resume w).0
          (run_open sha256 env task resume w).1
  unfolding run_open
  run_open-Returns resume w file =
      let asked = env.head_provider w.outside in
      let checked = env.blueprint_digest_provider asked.1 in
      let v : World W = record w { outside = checked.1 } in
      elim (Result-cases asked.0) [
        | inr (e, bad) ↦ rw bad file
        | inl (head, good) ↦ elim (Result-cases checked.0) [
          | inr (e, bad) ↦ rw (good, bad) file
          | inl (blueprint, fine) ↦
              rw (good, fine)
                (bind-Returns (opened sha256 env task resume head blueprint v).0
                  (opened sha256 env task resume head blueprint v).1
                  (opened-Opens resume head blueprint v file))
        ]
      ]

  Returns-FileFits :
      (r : Result RunError TaskRunCheckpoint) (v : World W)
      → Returns sha256 env task r v
      → FileFits task.plan.phases v.file
  Returns-FileFits (ok c) v h = subst (FileFits task.plan.phases) (sym h.1) h.0
  Returns-FileFits (err e) v h = h

  moved-Returns :
      (r : Result RunError TaskRunCheckpoint) (v : World W) (outside : W)
      → Returns sha256 env task r v
      → Returns sha256 env task r (record v { outside = outside })
  moved-Returns (ok c) v outside h = h
  moved-Returns (err e) v outside h = h

  closed-Returns :
      (close : Option (Outside W (Unit {0}))) (r : Result RunError TaskRunCheckpoint) (v : World W)
      → Returns sha256 env task r v
      → Returns sha256 env task
          (finally_close sha256 env task close r v).0
          (finally_close sha256 env task close r v).1
  closed-Returns none r v h = h
  closed-Returns (some close) r v h = elim (Result-cases (close v.outside).0) [
    | inr (e, bad) ↦ rw bad (Returns-FileFits r v h)
    | inl (u, good) ↦ rw good (moved-Returns r v (close v.outside).1 h)
  ]

  run-Returns :
      (resume : Bool) (w : World W)
      → FileFits task.plan.phases w.file
      → Returns sha256 env task (run sha256 env task resume w).0 (run sha256 env task resume w).1
  unfolding run
  run-Returns resume w file = elim (Bool-cases (task.intent.task_id == task.plan.task_id)) [
    | inr f ↦ rw f file
    | inl t ↦ rw t (
        closed-Returns env.close (run_open sha256 env task resume w).0
          (run_open sha256 env task resume w).1 (run_open-Returns resume w file))
  ]

  -- What a run returns is durable: the file holds the checkpoint that it returned.
  pub run-file :
      (resume : Bool) (w : World W) (c : TaskRunCheckpoint)
      → FileFits task.plan.phases w.file
      → (run sha256 env task resume w).0 ≡ ok c
      → (run sha256 env task resume w).1.file ≡ some c
  run-file resume w c file h =
      (subst (λ r. Returns sha256 env task r (run sha256 env task resume w).1) h
        (run-Returns resume w file)).1

  -- The world after some runs, each of them fresh or resumed, whatever they returned.
  unfoldable pub after_runs : List Bool → World W → World W
  after_runs [] w = w
  after_runs (resume ∷ resumes) w = after_runs resumes (run sha256 env task resume w).1

  after_runs-FileFits :
      (resumes : List Bool) (w : World W)
      → FileFits task.plan.phases w.file
      → FileFits task.plan.phases (after_runs resumes w).file
  unfolding after_runs
  after_runs-FileFits [] w file = file
  after_runs-FileFits (resume ∷ resumes) w file =
      after_runs-FileFits resumes (run sha256 env task resume w).1 (
        Returns-FileFits (run sha256 env task resume w).0 (run sha256 env task resume w).1
          (run-Returns resume w file))

  -- Where all runs are given the same task, plan, candidates and sources, and no checkpoint is in the
  -- file at first: after any number of runs and resumptions, whatever the providers and the app server
  -- answered and wherever they raised, a checkpoint in the file lists exactly the plan's phases up to
  -- its next index, in order, each with a result that verifies it.
  pub after_runs-IsProgress :
      (resumes : List Bool) (w : World W) (c : TaskRunCheckpoint)
      → w.file ≡ none
      → (after_runs resumes w).file ≡ some c
      → IsProgress task.plan.phases c
  after_runs-IsProgress resumes w c fresh h =
      subst (FileFits task.plan.phases) h
        (after_runs-FileFits resumes w (subst (FileFits task.plan.phases) (sym fresh) tt))

  progress-completed :
      (c : TaskRunCheckpoint)
      → c.status ≡ completed
      → IsProgress task.plan.phases c
      → (c.completed_phase_ids ≡ map (λ (p : TaskPhase). p.phase_id) task.plan.phases)
        × Verified task.plan.phases c.phase_results
  progress-completed c done p =
      let none_left : p.after ≡ [] = subst (λ s. Finished s p.after) done p.finished in
      let all : task.plan.phases ≡ p.before =
        p.fits.0 ∙ (ap (λ a. p.before ++ a) none_left ∙ append-nil p.before) in
      (
        p.fits.1 ∙ ap (map (λ (q : TaskPhase). q.phase_id)) (sym all),
        subst (λ ps. Verified ps c.phase_results) (sym all) p.fits.2,
      )

  -- Where all runs are given the same task, plan, candidates and sources, and no checkpoint is in the
  -- file at first: after any number of runs and resumptions, whatever the providers and the app server
  -- answered and wherever they raised, a completed checkpoint in the file lists exactly the plan's
  -- phases, in order, and has for each of them a result that verifies it.
  pub after_runs-completed :
      (resumes : List Bool) (w : World W) (c : TaskRunCheckpoint)
      → w.file ≡ none
      → (after_runs resumes w).file ≡ some c
      → c.status ≡ completed
      → (c.completed_phase_ids ≡ map (λ (p : TaskPhase). p.phase_id) task.plan.phases)
        × Verified task.plan.phases c.phase_results
  after_runs-completed resumes w c fresh h done =
      progress-completed c done (after_runs-IsProgress resumes w c fresh h)
