-- ===== src/Runner/Run/Outcome.antt =====
-- The outcome that is recorded of a completed run.
use local_skill_orchestrator.Prelude.{
  arith, String, ◌≡◌, refl, ◌↔◌, false, not, List, In, filter, filter-In, In-filter, flat_map,
  flat_map-In, In-flat_map, member, sorted_set-In, In-sorted_set, string_Eq, string_Ord,
}
use local_skill_orchestrator.Planning.TaskGraph.{TaskPhase}
use local_skill_orchestrator.Runner.State.{TaskRunCheckpoint, PhaseExecutionResult}
use local_skill_orchestrator.Runner.Run.{Task, outcome_of}

module _ (task : Task) (c : TaskRunCheckpoint) where
  abbrev used : List String
  used = flat_map (λ (r : PhaseExecutionResult). r.capabilities_used) c.phase_results

  abbrev recommended : List String
  recommended = flat_map (λ (p : TaskPhase). p.capability_ids) task.plan.phases

  -- The unused recommendations of an outcome are exactly the capabilities that some phase of the plan
  -- binds and that no phase's result names.
  pub outcome_of-unused :
      (id : String)
      → In id (outcome_of task c).unused_recommendations ↔ (
          ((p : TaskPhase) × In p task.plan.phases × In id p.capability_ids)
          × (member id
                (flat_map (λ (r : PhaseExecutionResult). r.capabilities_used) c.phase_results)
              ≡ false))
  unfolding outcome_of
  outcome_of-unused id = (
    λ h.
        let (i, out) =
          filter-In (λ x. not (member x used)) id recommended
            (sorted_set-In id (filter (λ x. not (member x used)) recommended) h) in
        (flat_map-In (λ (p : TaskPhase). p.capability_ids) id task.plan.phases i, ground arith),
    λ h.
        let ((p, i, k), out) = h in
        In-sorted_set id (filter (λ x. not (member x used)) recommended) (
          In-filter (λ x. not (member x used)) id recommended
            (In-flat_map (λ (p : TaskPhase). p.capability_ids) id p task.plan.phases i k)
            (rw out refl)),
  )
