-- ===== src/Initialization/Graph/Diagram.antt =====
-- The methods of `InitializationGraph` over the store, against the diagram of Steps: each of them is an
-- arrow, and each arrow is one of them.
use local_skill_orchestrator.Prelude.{
  ◌+◌, String, ◌≡◌, refl, ◌⊎◌, inl, inr, ◌&&◌, false, Option, none, some, [], arith, ◌==◌,
  string_Eq, lookup, Bool-cases, ==→eq, ==_false→ne, ==_refl, ap,
}
use local_skill_orchestrator.Prelude.Json.{encode}
use local_skill_orchestrator.Initialization.State.{
  InitStage, InitStatus, running, paused, InitCheckpoint, Result, ok, err, stage_Eq, status_Eq,
}
use local_skill_orchestrator.Initialization.Store.{Row, Table, from_row, overwrite, load}
use local_skill_orchestrator.Initialization.Store.Laws.{IsUnique, load-insert, load-some}
use local_skill_orchestrator.Initialization.Graph.{is_terminal, is_expected}
use local_skill_orchestrator.Initialization.Graph.Transitions.{
  Op, advancing, revising, pausing, resuming, failing, retrying, cancelling, completing, transition,
  perform, perform_lem, specified, commit,
}
use local_skill_orchestrator.Initialization.Graph.Steps.{
  position, ◌⟶◌, forward, amend, hold, continue, break, again, abandon, finish, transition-⟶,
  transition-revision,
}
use local_skill_orchestrator.Initialization.Graph.Runs.{load→row}
use local_skill_orchestrator.Initialization.Graph.Terminal.{perform-other}

-- What an operation on a run has done to the table `t`, by its result and the table `v` after it.
abbrev pub IsStep : String → Op → Table → Result InitCheckpoint → Table → Type 0
IsStep run_id op t (err e) v = v ≡ t
IsStep run_id op t (ok c') v =
    (c : InitCheckpoint) × (load run_id t ≡ ok c)
    × (load run_id v ≡ ok (record c' { confirmed = encode c'.confirmed }))
    × (position c ⟶ position c')
    × (c'.run_id ≡ c.run_id)
    × (c'.checkpoint_id ≡ c.checkpoint_id)
    × (c'.repository_digest ≡ c.repository_digest)
    × (c'.revision ≡ c.revision + 1)
    × (((c.status == paused && c'.status == running) ≡ false) ⊎ (op ≡ resuming c.repository_digest))

transition-resumes :
    (c c' : InitCheckpoint) (op : Op)
    → transition op c ≡ ok c'
    → ((c.status == paused && c'.status == running) ≡ false) ⊎ (op ≡ resuming c.repository_digest)
unfolding transition is_terminal
transition-resumes c c' (resuming digest) done = elim (Bool-cases (digest == c.repository_digest)) [
  | inl same ↦ inr (ap resuming (==→eq digest c.repository_digest same))
  | inr other ↦ ground (arith, other)
]
transition-resumes c c' _ done = inl (ground arith)

commit-IsStep :
    (run_id : String) (op : Op) (t : Table) (r : Row) (x : Result InitCheckpoint)
    → lookup run_id t ≡ some r
    → transition op (from_row run_id r) ≡ x
    → IsStep run_id op t (commit run_id r t x).0 (commit run_id r t x).1
commit-IsStep run_id op t r (err e) found done = refl
commit-IsStep run_id op t r (ok c') found done =
    let c = from_row run_id r in
    let (same_run, same_id, same_digest, next) = transition-revision c c' op done in
    (
      c,
      load-some run_id r t found,
      rw (load-insert run_id run_id (overwrite r c') t) (rw (==_refl run_id, same_run) refl),
      transition-⟶ c c' op done,
      same_run,
      same_id,
      same_digest,
      next,
      transition-resumes c c' op done,
    )

specified-IsStep :
    (run_id : String) (op : Op) (t : Table) (o : Option Row)
    → lookup run_id t ≡ o
    → IsStep run_id op t (specified run_id op t o).0 (specified run_id op t o).1
specified-IsStep run_id op t none found = refl
specified-IsStep run_id op t (some r) found =
    commit-IsStep run_id op t r (transition op (from_row run_id r)) found refl

-- Over a table with unique identifiers, every method but `start`, `advance` without a side effect among
-- them: what is read of another run stays; where the method raises, the table is as it was; where it
-- returns, the run was there, the step from its stage and status to the returned ones is an arrow of the
-- diagram, the run, its identifier and its repository's digest are the same, the revision is the next one,
-- the run is read back as it was returned, with the keys of its confirmed values sorted, and a paused run
-- that is running again was resumed with the digest that it has.
pub perform-IsStep :
    (run_id other : String) (op : Op) (t : Table)
    → IsUnique t
    → ((run_id ≡ other) ⊎ (load other (perform run_id op t).1 ≡ load other t))
      × IsStep run_id op t (perform run_id op t).0 (perform run_id op t).1
perform-IsStep run_id other op t u = (
  elim (Bool-cases (run_id == other)) [
    | inl e ↦ inl (==→eq run_id other e)
    | inr n ↦ inr (perform-other run_id other op t u (==_false→ne run_id other n))
  ],
  rw (perform_lem run_id op t u) (specified-IsStep run_id op t (lookup run_id t) refl),
)

abbrev Lands : InitStage × InitStatus → Result InitCheckpoint → Type 0
Lands q (ok c) = position c ≡ q
Lands q (err e) = ⊥

landed :
    (q : InitStage × InitStatus) (x : Result InitCheckpoint)
    → Lands q x
    → (c : InitCheckpoint) × (x ≡ ok c) × (position c ≡ q)
landed q (ok c) h = (c, refl, h)
landed q (err e) h = absurd h

-- The operation of an arrow.
arrow-transition :
    (p q : InitStage × InitStatus) (c : InitCheckpoint)
    → p ⟶ q
    → position c ≡ p
    → (op : Op) × Lands q (transition op c)
unfolding transition is_expected
arrow-transition p q c (forward {s} {u} h) e = (advancing u none, grind (arith, h, ==_refl u))
arrow-transition p q c (amend {s}) e = (revising [], ground arith)
arrow-transition p q c (hold {s}) e = (pausing, ground arith)
arrow-transition p q c (continue {s}) e =
    (resuming c.repository_digest, ground (arith, ==_refl c.repository_digest))
arrow-transition p q c (break {s}) e = (failing "", ground arith)
arrow-transition p q c (again {s}) e = (retrying, ground arith)
arrow-transition p q c (abandon {s} {a} h) e = (cancelling "", ground (arith, h))
arrow-transition p q c finish e = (completing none, ground arith)

-- Over a table with unique identifiers, each arrow of the diagram from where a run stands can be taken:
-- some method, called on that run, returns a checkpoint at the arrow's end.
pub ⟶-perform :
    (run_id : String) (t : Table) (c : InitCheckpoint) (q : InitStage × InitStatus)
    → IsUnique t
    → load run_id t ≡ ok c
    → position c ⟶ q
    → (op : Op) × (c' : InitCheckpoint) × ((perform run_id op t).0 ≡ ok c') × (position c' ≡ q)
⟶-perform run_id t c q u h arrow =
    let (r, found, same) = load→row run_id t c h in
    let (op, lands) = arrow-transition (position c) q c arrow refl in
    let (c', done, at) = landed q (transition op c) lands in
    (op, c', rw (perform_lem run_id op t u) (rw found (rw same (rw done refl))), at)
