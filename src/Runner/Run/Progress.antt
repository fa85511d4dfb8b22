-- ===== src/Runner/Run/Progress.antt =====
-- What a checkpoint says of the plan, through any runs, resumptions and failures.
use local_skill_orchestrator.Prelude.{
  is_text, ℕ, String, ◌≡◌, refl, sym, ap, subst, ◌∙◌, inl, inr, true, not, ◌&&◌, Option, none, some,
  List, [], ◌∷◌, ◌++◌, map, Dict, if◌then◌else◌, Bool-cases, drop, length, Nowhere, arith,
  length-append, is_nonempty, ◌==◌, string_Eq,
}
use local_skill_orchestrator.Prelude.Json.{Json}
use local_skill_orchestrator.Prelude.Results.{Result, ok, err, Result-cases}
use local_skill_orchestrator.Planning.TaskGraph.{TaskPhase}
use local_skill_orchestrator.Compiler.Context.{ContextCapsule, compile_context_capsule}
use local_skill_orchestrator.Runner.State.{
  TaskRunCheckpoint, TaskRunStatus, running, completed, PhaseExecutionResult, RunError,
}
use local_skill_orchestrator.Runner.World.{ExposedPhase, Outside, Environment, World, bind_result}
use local_skill_orchestrator.Runner.Run.{
  executed, phase_prompt, Task, Turn, returned, advanced, is_verified, missing_conditions,
  expose_by, settle, perform, execute, after_phase,
}

-- Each phase has a result that verifies it.
abbrev pub Verified : List TaskPhase → List PhaseExecutionResult → Type 0
Verified [] [] = Unit
Verified (p ∷ ps) (r ∷ rs) = (is_verified p r ≡ true) × Verified ps rs
Verified _ _ = Nowhere

abbrev pub Finished : TaskRunStatus → List TaskPhase → Type 0
Finished completed after = after ≡ []
Finished _ after = Unit

-- The checkpoint stands between the phases `before`, which are done, and `after`.
abbrev pub Fits : List TaskPhase → List TaskPhase → List TaskPhase → TaskRunCheckpoint → Type 0
Fits phases before after c =
    (phases ≡ before ++ after)
    × (c.completed_phase_ids ≡ map (λ (p : TaskPhase). p.phase_id) before)
    × Verified before c.phase_results
    × (c.next_phase_index ≡ length before)

pub record IsProgress (phases : List TaskPhase) (c : TaskRunCheckpoint) : Type 0 where
  pub before : List TaskPhase
  pub after : List TaskPhase
  pub fits : Fits phases before after c
  pub finished : Finished c.status after

abbrev pub FileFits : List TaskPhase → Option TaskRunCheckpoint → Type 0
FileFits phases none = Unit
FileFits phases (some c) = IsProgress phases c

Verified-append :
    (ps : List TaskPhase) (rs : List PhaseExecutionResult) (p : TaskPhase)
    (r : PhaseExecutionResult)
    → Verified ps rs
    → is_verified p r ≡ true
    → Verified (ps ++ (p ∷ [])) (rs ++ (r ∷ []))
Verified-append [] [] p r h v = (v, tt)
Verified-append [] (s ∷ rs) p r h v = elim h [ ]
Verified-append (q ∷ ps) [] p r h v = elim h [ ]
Verified-append (q ∷ ps) (s ∷ rs) p r h v = (h.0, Verified-append ps rs p r h.1 v)

map-append :
    (ps : List TaskPhase) (p : TaskPhase)
    → map (λ (q : TaskPhase). q.phase_id) (ps ++ (p ∷ []))
      ≡ map (λ (q : TaskPhase). q.phase_id) ps ++ (p.phase_id ∷ [])
map-append [] p = refl
map-append (q ∷ ps) p = ap (λ ids. q.phase_id ∷ ids) (map-append ps p)

pub append-append :
    (ps : List TaskPhase) (p : TaskPhase) (rest : List TaskPhase)
    → (ps ++ (p ∷ [])) ++ rest ≡ ps ++ (p ∷ rest)
append-append [] p rest = refl
append-append (q ∷ ps) p rest = ap (λ qs. q ∷ qs) (append-append ps p rest)

pub drop-append : (before after : List TaskPhase) → drop (length before) (before ++ after) ≡ after
drop-append [] after = refl
drop-append (p ∷ before) after = drop-append before after

-- A verified phase moves the checkpoint by one.
after_phase-Fits :
    (phases before rest : List TaskPhase) (index : ℕ) (phase : TaskPhase)
    (result : PhaseExecutionResult) (c : TaskRunCheckpoint)
    → Fits phases before (phase ∷ rest) c
    → index ≡ c.next_phase_index
    → is_verified phase result ≡ true
    → Fits phases (before ++ (phase ∷ [])) rest (after_phase index phase rest result c)
unfolding after_phase
after_phase-Fits phases before rest index phase result c (split, ids, ver, at) e v = (
  split ∙ sym (append-append before phase rest),
  ap (λ xs. xs ++ (phase.phase_id ∷ [])) ids ∙ sym (map-append before phase),
  Verified-append before c.phase_results phase result ver v,
  omega (arith, length-append before (phase ∷ [])),
)

pub running-IsProgress :
    (phases before after : List TaskPhase) (c : TaskRunCheckpoint)
    → Fits phases before after c
    → c.status ≡ running
    → IsProgress phases c
running-IsProgress phases before after c fits status = record {
  before = before;
  after = after;
  fits = fits;
  finished = subst (λ s. Finished s after) (sym status) tt;
}

module _ {W : Type 0} (sha256 : String → String) (env : Environment W) (task : Task)
    (before : List TaskPhase) (phase : TaskPhase) (rest : List TaskPhase) where
  -- How a turn at `phase` ends, with the world that it leaves.
  abbrev pub TurnFits : Turn → World W → Type 0
  TurnFits (returned c) v = IsProgress task.plan.phases c × (v.file ≡ some c)
  TurnFits (advanced c thread) v =
      Fits task.plan.phases (before ++ (phase ∷ [])) rest c
      × (c.status ≡ running)
      × (v.file ≡ some c)

  abbrev pub Ends : Result RunError Turn → World W → Type 0
  Ends (ok t) v = TurnFits t v
  Ends (err e) v = FileFits task.plan.phases v.file

  -- Where a turn begins.
  abbrev pub Begins : ℕ → TaskRunCheckpoint → World W → Type 0
  Begins index c w =
      Fits task.plan.phases before (phase ∷ rest) c
      × (c.status ≡ running)
      × (index ≡ c.next_phase_index)
      × FileFits task.plan.phases w.file

  settle-Ends :
      (index : ℕ) (c : TaskRunCheckpoint) (thread : String) (result : PhaseExecutionResult)
      (w : World W)
      → Begins index c w
      → Ends
          (settle sha256 env task index phase rest (c, thread) result w).0
          (settle sha256 env task index phase rest (c, thread) result w).1
  unfolding settle is_verified
  settle-Ends index c thread result w (fits, status, at, file) =
      elim (Bool-cases (result.phase_id == phase.phase_id)) [
        | inr f ↦ rw f file
        | inl t ↦
            elim (Bool-cases
              (result.completed && not (is_nonempty (missing_conditions phase result)))) [
                | inr f ↦ rw (t, f) file
                | inl g ↦
                    rw (t, g)
                      (
                        after_phase-Fits task.plan.phases before rest index phase result c fits at
                            (rw (t, g) refl),
                        status,
                        refl,
                      )
              ]
      ]

  perform-Ends :
      (index : ℕ) (capsule : ContextCapsule) (c : TaskRunCheckpoint) (thread : String) (w : World W)
      → Begins index c w
      → Ends
          (perform sha256 env task index phase rest capsule (c, thread) w).0
          (perform sha256 env task index phase rest capsule (c, thread) w).1
  unfolding perform
  perform-Ends index capsule c thread w begins =
      elim (Result-cases
        (env.execute_phase thread (phase_prompt capsule c task.candidates) w.outside).0) [
          | inr (e, bad) ↦ rw bad begins.3
          | inl (result, good) ↦ rw good (
              settle-Ends index c thread result
                (record w {
                  outside =
                      (env.execute_phase thread (phase_prompt capsule c task.candidates)
                        w.outside).1;
                  log = executed phase ∷ w.log;
                })
                begins)
        ]

  abbrev Exposed : ℕ → Result RunError (TaskRunCheckpoint × String) → World W → Type 0
  Exposed index (ok (c, thread)) v = Begins index c v
  Exposed index (err e) v = FileFits task.plan.phases v.file

  expose-Exposed :
      (exposure : Option (String → List String → Outside W ExposedPhase))
      (start : Option (Option String → Dict Json → Outside W String)) (index : ℕ)
      (capsule : ContextCapsule) (c : TaskRunCheckpoint) (thread : String) (w : World W)
      → Begins index c w
      → Exposed index
          (expose_by sha256 env task exposure start phase capsule c thread w).0
          (expose_by sha256 env task exposure start phase capsule c thread w).1
  expose-Exposed none start index capsule c thread w begins = begins
  expose-Exposed (some expose) none index capsule c thread w begins =
      elim (Result-cases (expose phase.phase_id capsule.selected_capability_ids w.outside).0) [
        | inr (e, bad) ↦ rw bad begins.3
        | inl (exposure, good) ↦ rw good begins.3
      ]
  expose-Exposed (some expose) (some start) index capsule c thread w begins =
      let exposing = expose phase.phase_id capsule.selected_capability_ids w.outside in
      elim (Result-cases exposing.0) [
        | inr (e, bad) ↦ rw bad begins.3
        | inl (exposure, good) ↦
            elim (Result-cases
              (start (if is_text thread then some thread else none) exposure.thread_config
                exposing.1).0) [
                  | inr (e, bad) ↦ rw (good, bad) begins.3
                  | inl (next, fine) ↦
                      rw (good, fine)
                        (
                          begins.0,
                          begins.1,
                          begins.2,
                          running-IsProgress task.plan.phases before (phase ∷ rest)
                              (record c {
                                codex_thread_id = next;
                                exposure_digest = some exposure.exposure_digest;
                              })
                              begins.0 begins.1,
                        )
                ]
      ]

  pub execute-Ends :
      (index : ℕ) (head : String) (c : TaskRunCheckpoint) (thread : String) (w : World W)
      → Begins index c w
      → Ends
          (execute sha256 env task index phase rest head c thread w).0
          (execute sha256 env task index phase rest head c thread w).1
  unfolding execute
  execute-Ends index head c thread w begins =
      elim (Result-cases (
        compile_context_capsule sha256 task.intent task.plan phase.phase_id task.candidates
          task.sources head task.user_scope_digest 4096)) [
            | inr (e, bad) ↦ rw bad begins.3
            | inl (capsule, good) ↦ rw good (
                by_exposed capsule
                  (expose_by sha256 env task env.expose env.start_phase_thread phase capsule c
                    thread w).0
                  (expose_by sha256 env task env.expose env.start_phase_thread phase capsule c
                    thread w).1
                  (expose-Exposed env.expose env.start_phase_thread index capsule c thread w
                    begins))
          ]
    where
      by_exposed :
          (capsule : ContextCapsule) (r : Result RunError (TaskRunCheckpoint × String))
          (v : World W)
          → Exposed index r v
          → Ends
              (bind_result r (perform sha256 env task index phase rest capsule) v).0
              (bind_result r (perform sha256 env task index phase rest capsule) v).1
      by_exposed capsule (ok (c', thread')) v h = perform-Ends index capsule c' thread' v h
      by_exposed capsule (err e) v h = h
