-- ===== src/Runner/Run.antt =====
-- The methods of `TaskRunner`.
pub mod Approval
pub mod Progress
pub mod Turns
pub mod Resumption
pub mod Outcome
use local_skill_orchestrator.Prelude.{
  ℕ, ◌+◌, String, Bool, true, false, not, ◌&&◌, ◌||◌, Option, none, some, List, [], ◌∷◌, ◌++◌, map,
  if◌then◌else◌, filter, drop, flat_map, member, ◌==◌, string_Eq, string_Ord, dedup, sorted_set,
  Dict, update, is_nonempty, is_text,
}
use local_skill_orchestrator.Prelude.Json.{Json}
use local_skill_orchestrator.Prelude.Results.{Result, ok, err}
use local_skill_orchestrator.Planning.Scenarios.{scenario_value, mode_value}
use local_skill_orchestrator.Planning.TaskGraph.{TaskPhase, TaskPlan}
use local_skill_orchestrator.Compiler.Intent.{TaskIntent}
use local_skill_orchestrator.Compiler.Context.{
  CapabilityCandidate, ContextSource, ContextCapsule, compile_context_capsule,
}
use local_skill_orchestrator.Runner.State.{
  TaskRunStatus, running, awaiting_approval, invalidated, completed, PhaseExecutionResult,
  TaskRunCheckpoint, TaskOutcome, Prompt, RunError, task_mismatch, checkpoint_missing,
  checkpoint_mismatch, index_error, compile_error, no_phase_threads, wrong_phase, incomplete,
}
use local_skill_orchestrator.Runner.World.{
  ExposedPhase, Outside, Environment, Event, approval_asked, executed, recorded, World, Exec, ◌>>=◌,
  ◌>>◌, pure, raise, ensure, lift, call, note, save,
}

-- The arguments of `run` that stay the same through a run.
pub record Task : Type 0 where
  pub intent : TaskIntent
  pub plan : TaskPlan
  pub candidates : List CapabilityCandidate
  pub sources : List ContextSource
  pub user_scope_digest : String

-- set(phase.completion_conditions) - set(result.completion_conditions_met)
unfoldable pub missing_conditions : TaskPhase → PhaseExecutionResult → List String
missing_conditions phase result =
    filter (λ c. not (member c result.completion_conditions_met)) phase.completion_conditions

unfoldable pub is_verified : TaskPhase → PhaseExecutionResult → Bool
unfolding missing_conditions
is_verified phase result =
    result.phase_id == phase.phase_id
    && (result.completed && not (is_nonempty (missing_conditions phase result)))

-- {candidate.capability_id: list(candidate.provides) for candidate in candidates if … in selected}
unfoldable pub capability_content : List String → List CapabilityCandidate → Dict (List String)
unfolding update
capability_content selected candidates = update [] (
    map (λ (c : CapabilityCandidate). (c.capability_id, c.provides))
      (filter (λ (c : CapabilityCandidate). member c.capability_id selected) candidates))

unfoldable pub phase_prompt : ContextCapsule → TaskRunCheckpoint → List CapabilityCandidate → Prompt
unfolding capability_content
phase_prompt capsule checkpoint candidates = record {
  context_capsule = capsule;
  confirmed_state = checkpoint.confirmed_facts;
  capability_content = capability_content capsule.selected_capability_ids candidates;
}

-- The outcome of a run, with `recommended` and `used` as lists before they are sorted.
unfoldable pub outcome_of : Task → TaskRunCheckpoint → TaskOutcome
unfolding scenario_value mode_value sorted_set
outcome_of task checkpoint =
    let recommended = flat_map (λ (p : TaskPhase). p.capability_ids) task.plan.phases in
    let used =
      flat_map (λ (r : PhaseExecutionResult). r.capabilities_used) checkpoint.phase_results in
    record {
      task_type = scenario_value task.intent.scenario;
      workflow = mode_value task.plan.workflow_mode;
      capabilities_used = sorted_set used;
      verification_passed = true;
      user_rework = false;
      unused_recommendations = sorted_set (filter (λ c. not (member c used)) recommended);
    }

-- The checkpoint after a phase: `rest` are the phases that follow it.
unfoldable pub after_phase :
    ℕ → TaskPhase → List TaskPhase → PhaseExecutionResult → TaskRunCheckpoint → TaskRunCheckpoint
unfolding dedup
after_phase index phase rest result checkpoint = record checkpoint {
  completed_phase_ids = checkpoint.completed_phase_ids ++ (phase.phase_id ∷ []);
  phase_results = checkpoint.phase_results ++ (result ∷ []);
  confirmed_facts = dedup (checkpoint.confirmed_facts ++ result.confirmed_facts);
  next_phase_index = index + 1;
  next_phase_id = elim rest [ [] ↦ none | p ∷ ps ↦ some p.phase_id ];
}

-- What a turn of the loop ends with: a return, or the loop's variables.
pub data Turn : Type 0 where
  returned : TaskRunCheckpoint → Turn
  advanced : TaskRunCheckpoint → String → Turn

module _ {W : Type 0} (sha256 : String → String) (env : Environment W) (task : Task) where
  -- `_verify_phase`
  unfoldable pub verify_phase : TaskPhase → PhaseExecutionResult → Exec W (Unit {0})
  unfolding missing_conditions
  verify_phase phase result = do
    ensure (result.phase_id == phase.phase_id) (wrong_phase result.phase_id phase.phase_id)
    ensure (result.completed && not (is_nonempty (missing_conditions phase result)))
        (incomplete phase.phase_id (missing_conditions phase result))

  -- `_pause`
  unfoldable pub pause :
      TaskRunCheckpoint → TaskRunStatus → ℕ → String → Option String → Exec W Turn
  pause checkpoint status next_phase_index next_phase_id error =
      let paused : TaskRunCheckpoint = record checkpoint {
        status = status;
        next_phase_index = next_phase_index;
        next_phase_id = some next_phase_id;
        error = error;
      } in
      do save paused; pure (returned paused)

  -- phase.requires_approval and not self.approval_provider(phase), as whether the phase may run
  abbrev pub approve_by : Bool → TaskPhase → Exec W Bool
  approve_by false phase = pure true
  approve_by true phase = do
    answer ← call (env.approval_provider phase)
    note (approval_asked phase answer)
    pure answer

  unfoldable pub approved : TaskPhase → Exec W Bool
  approved phase = approve_by phase.requires_approval phase

  -- The thread and the checkpoint of a phase that is exposed.
  abbrev pub expose_by :
      Option (String → List String → Outside W ExposedPhase)
      → Option (Option String → Dict Json → Outside W String)
      → TaskPhase
      → ContextCapsule
      → TaskRunCheckpoint
      → String
      → Exec W (TaskRunCheckpoint × String)
  expose_by none start phase capsule checkpoint thread = pure (checkpoint, thread)
  expose_by (some expose) none phase capsule checkpoint thread = do
    exposure ← call (expose phase.phase_id capsule.selected_capability_ids)
    raise no_phase_threads
  expose_by (some expose) (some start) phase capsule checkpoint thread = do
    exposure ← call (expose phase.phase_id capsule.selected_capability_ids)
    next_thread ← call (start (if is_text thread then some thread else none) exposure.thread_config)
    let exposed : TaskRunCheckpoint = record checkpoint {
      codex_thread_id = next_thread;
      exposure_digest = some exposure.exposure_digest;
    }
    save exposed
    pure (exposed, next_thread)

  -- What is left of a turn once the phase has a result.
  unfoldable pub settle :
      ℕ
      → TaskPhase
      → List TaskPhase
      → TaskRunCheckpoint × String
      → PhaseExecutionResult
      → Exec W Turn
  unfolding verify_phase after_phase
  settle index phase rest exposed result = do
    verify_phase phase result
    save (after_phase index phase rest result exposed.0)
    pure (advanced (after_phase index phase rest result exposed.0) exposed.1)

  unfoldable pub perform :
      ℕ → TaskPhase → List TaskPhase → ContextCapsule → TaskRunCheckpoint × String → Exec W Turn
  unfolding phase_prompt settle
  perform index phase rest capsule exposed = do
    note (executed phase)
    result ← call (env.execute_phase exposed.1 (phase_prompt capsule exposed.0 task.candidates))
    settle index phase rest exposed result

  unfoldable pub execute :
      ℕ → TaskPhase → List TaskPhase → String → TaskRunCheckpoint → String → Exec W Turn
  unfolding perform compile_context_capsule
  execute index phase rest head checkpoint thread = do
    capsule ← lift compile_error (
        compile_context_capsule sha256 task.intent task.plan phase.phase_id task.candidates
          task.sources head task.user_scope_digest 4096)
    exposed ← expose_by env.expose env.start_phase_thread phase capsule checkpoint thread
    perform index phase rest capsule exposed

  abbrev pub approve_turn :
      Bool → ℕ → TaskPhase → List TaskPhase → String → TaskRunCheckpoint → String → Exec W Turn
  approve_turn true index phase rest head checkpoint thread =
      execute index phase rest head checkpoint thread
  approve_turn false index phase rest head checkpoint thread =
      pause checkpoint awaiting_approval index phase.phase_id none

  abbrev pub live_turn :
      Bool → ℕ → TaskPhase → List TaskPhase → String → TaskRunCheckpoint → String → Exec W Turn
  live_turn true index phase rest head checkpoint thread = do
    answer ← approved phase
    approve_turn answer index phase rest head checkpoint thread
  live_turn false index phase rest head checkpoint thread =
      pause checkpoint invalidated index phase.phase_id
        (some "Context inputs changed; resume to recompile from the durable checkpoint.")

  -- One turn of the loop, at a phase with the phases that follow it.
  unfoldable pub turn : ℕ → TaskPhase → List TaskPhase → TaskRunCheckpoint → String → Exec W Turn
  unfolding approved execute pause
  turn index phase rest checkpoint thread = do
    head ← call env.head_provider
    blueprint ← call env.blueprint_digest_provider
    live_turn (head == checkpoint.source_head && blueprint == checkpoint.blueprint_digest) index
        phase rest head checkpoint thread

  -- `_record_outcome`
  abbrev pub record_by :
      Option (String → TaskOutcome → Outside W (Unit {0})) → TaskRunCheckpoint → Exec W (Unit {0})
  record_by none checkpoint = pure tt
  record_by (some recorder) checkpoint = do
    note (recorded (outcome_of task checkpoint))
    call (recorder task.intent.task_id (outcome_of task checkpoint))

  unfoldable pub finish : TaskRunCheckpoint → Exec W TaskRunCheckpoint
  unfolding outcome_of
  finish checkpoint = do
    save (record checkpoint { status = completed })
    record_by env.outcome_recorder (record checkpoint { status = completed })
    pure (record checkpoint { status = completed })

  abbrev pub continue_with :
      (TaskRunCheckpoint → String → Exec W TaskRunCheckpoint) → Turn → Exec W TaskRunCheckpoint
  continue_with next (returned c) = pure c
  continue_with next (advanced c thread) = next c thread

  -- The loop over the phases from `index` on.
  unfoldable pub loop : List TaskPhase → ℕ → TaskRunCheckpoint → String → Exec W TaskRunCheckpoint
  unfolding turn finish
  loop [] index checkpoint thread = finish checkpoint
  loop (phase ∷ rest) index checkpoint thread = do
    t ← turn index phase rest checkpoint thread
    continue_with (loop rest (index + 1)) t

  -- A new thread, unless every phase gets one of its own.
  abbrev pub first_thread : Option (String → List String → Outside W ExposedPhase) → Exec W String
  first_thread none = call env.start_thread
  first_thread (some expose) = pure ""

  abbrev pub same_thread :
      Option (String → List String → Outside W ExposedPhase) → String → Exec W String
  same_thread none thread = call (env.resume_thread thread)
  same_thread (some expose) thread = pure thread

  -- `_load`
  unfoldable pub load : Exec W TaskRunCheckpoint
  load w = elim w.file [ none ↦ (err checkpoint_missing, w) | some c ↦ (ok c, w) ]

  abbrev pub reopened :
      Option (String → List String → Outside W ExposedPhase)
      → TaskRunCheckpoint
      → String
      → String
      → Exec W TaskRunCheckpoint
  reopened exposure checkpoint head blueprint = do
    thread ← same_thread exposure checkpoint.codex_thread_id
    pure (record checkpoint {
      status = running;
      codex_thread_id = thread;
      source_head = head;
      blueprint_digest = blueprint;
      error = none;
    })

  unfoldable pub resumed : String → String → Exec W TaskRunCheckpoint
  unfolding load
  resumed head blueprint = do
    checkpoint ← load
    ensure (checkpoint.task_id == task.plan.task_id) checkpoint_mismatch
    reopened env.expose checkpoint head blueprint

  abbrev pub at_first : List TaskPhase → String → String → String → Exec W TaskRunCheckpoint
  at_first [] thread head blueprint = raise index_error
  at_first (phase ∷ rest) thread head blueprint = pure (record {
    task_id = task.plan.task_id;
    status = running;
    codex_thread_id = thread;
    source_head = head;
    blueprint_digest = blueprint;
    next_phase_index = 0;
    next_phase_id = some phase.phase_id;
    completed_phase_ids = [];
    phase_results = [];
    confirmed_facts = [];
    exposure_digest = none;
    error = none;
  })

  unfoldable pub started : String → String → Exec W TaskRunCheckpoint
  started head blueprint = do
    thread ← first_thread env.expose
    at_first task.plan.phases thread head blueprint

  abbrev pub opened : Bool → String → String → Exec W TaskRunCheckpoint
  opened true head blueprint = resumed head blueprint
  opened false head blueprint = started head blueprint

  abbrev pub proceed : TaskRunCheckpoint → Exec W TaskRunCheckpoint
  proceed checkpoint = do
    save checkpoint
    loop (drop checkpoint.next_phase_index task.plan.phases) checkpoint.next_phase_index checkpoint
        checkpoint.codex_thread_id

  -- `_run_open`
  unfoldable pub run_open : Bool → Exec W TaskRunCheckpoint
  unfolding resumed started loop
  run_open resume = do
    head ← call env.head_provider
    blueprint ← call env.blueprint_digest_provider
    checkpoint ← opened resume head blueprint
    proceed checkpoint

  -- The `finally` of `_run`: an exception of the close replaces what the run returned or raised.
  abbrev pub finally_close :
      Option (Outside W (Unit {0})) → Result RunError TaskRunCheckpoint → Exec W TaskRunCheckpoint
  finally_close none r w = (r, w)
  finally_close (some close) r w = (call close >> λ v. (r, v)) w

  -- `run` with `_run`, which closes the app server whatever happens
  unfoldable pub run : Bool → Exec W TaskRunCheckpoint
  unfolding run_open
  run resume w =
      if task.intent.task_id == task.plan.task_id
      then finally_close env.close (run_open resume w).0 (run_open resume w).1
      else (err task_mismatch, w)
