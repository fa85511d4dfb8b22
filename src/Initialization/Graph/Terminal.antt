-- ===== src/Initialization/Graph/Terminal.antt =====
-- Cancelled and completed runs, and the independence of runs from one another.
use local_skill_orchestrator.Prelude.{
  ◌⊎◌, String, ◌≡◌, ◌≢◌, refl, ap, ◌∙◌, inl, inr, true, Option, none, some, List, [], ◌∷◌, arith,
  ◌==◌, eq_iff, string_Eq, Bool-cases, Option-cases, ==→eq, ==_false→ne, ne→==_false, lookup,
}
use local_skill_orchestrator.Initialization.State.{InitCheckpoint, Result, ok, err}
use local_skill_orchestrator.Initialization.Store.{
  Row, Table, InterviewProgress, from_row, overwrite, load, create, save_interview_progress,
  with_progress,
}
use local_skill_orchestrator.Initialization.Store.Laws.{
  IsUnique, load-insert, load-some, create_lem,
}
use local_skill_orchestrator.Initialization.State.{InitStatus, cancelled, completed}
use local_skill_orchestrator.Initialization.Graph.{is_terminal}
use local_skill_orchestrator.Initialization.Graph.Transitions.{
  Op, advancing, transition, perform, perform_lem, specified, commit,
}
use local_skill_orchestrator.Initialization.Graph.Runs.{
  Call, starting, performing, saving, after, after_all, IsSound, after-IsSound, load→row,
  start-create, fresh,
}

transition-terminal :
    (op : Op) (c : InitCheckpoint) {c' : InitCheckpoint}
    → is_terminal c.status ≡ true
    → transition op c ≢ ok c'
unfolding transition is_terminal
transition-terminal (advancing stage confirmed) c terminal done = ground arith
transition-terminal _ c terminal done = ground arith

-- The table after an operation, at another run: nothing changes.
commit-other :
    (k j : String) (r : Row) (t : Table) (x : Result InitCheckpoint)
    → k ≢ j
    → load j (commit k r t x).1 ≡ load j t
commit-other k j r t (err e) n = refl
commit-other k j r t (ok c) n = rw (load-insert k j (overwrite r c) t) (rw (ne→==_false k j n) refl)

specified-other :
    (k j : String) (op : Op) (t : Table) (o : Option Row)
    → k ≢ j
    → load j (specified k op t o).1 ≡ load j t
specified-other k j op t none n = refl
specified-other k j op t (some r) n = commit-other k j r t (transition op (from_row k r)) n

-- No operation on one run changes what is read of another.
pub perform-other :
    (k j : String) (op : Op) (t : Table) → IsUnique t → k ≢ j → load j (perform k op t).1 ≡ load j t
perform-other k j op t u n = rw (perform_lem k op t u) (specified-other k j op t (lookup k t) n)

commit-terminal :
    (j : String) (r : Row) (t : Table) (op : Op) (x : Result InitCheckpoint)
    → transition op (from_row j r) ≡ x
    → is_terminal r.status ≡ true
    → (commit j r t x).1 ≡ t
commit-terminal j r t op (err e) h terminal = refl
commit-terminal j r t op (ok c) h terminal =
    absurd (transition-terminal op (from_row j r) terminal h)

module _ (j : String) (c : InitCheckpoint) (terminal : is_terminal c.status ≡ true) where
  perform-terminal :
      (k : String) (op : Op) (t : Table)
      → IsUnique t
      → load j t ≡ ok c
      → load j (perform k op t).1 ≡ ok c
  perform-terminal k op t u h = elim (Bool-cases (k == j)) [
    | inr other ↦ perform-other k j op t u (==_false→ne k j other) ∙ h
    | inl e ↦
        let (r, found, same) = load→row j t c h in
        let status : is_terminal r.status ≡ true = ap (λ x. is_terminal x.status) same ∙ terminal in
        rw (==→eq k j e, perform_lem j op t u, found)
          (rw (commit-terminal j r t op (transition op (from_row j r)) refl status) h)
  ]

  starting-terminal :
      (i k d : String) (t : Table) → load j t ≡ ok c → load j (create (fresh i k d) t).1 ≡ ok c
  starting-terminal i k d t h =
      let (r, found, same) = load→row j t c h in
      (create_lem (fresh i k d) t j).1 ∙ ground (arith, eq_iff k j)

  saving-terminal :
      (k : String) (p : InterviewProgress) (t : Table)
      → load j t ≡ ok c
      → load j (save_interview_progress k p t).1 ≡ ok c
  unfolding save_interview_progress
  saving-terminal k p t h = elim (Option-cases (lookup k t)) [
    | inl missing ↦ rw (missing, save_interview_progress) h
    | inr (r, found) ↦
        rw (found, save_interview_progress)
          (rw (load-insert k j (with_progress r p) t)
            (ground (arith, eq_iff k j, load-some k r t found)))
  ]

  after-terminal :
      (call : Call) (t : Table) → IsSound t → load j t ≡ ok c → load j (after call t) ≡ ok c
  unfolding after
  after-terminal (starting i k d) t sound h =
      rw (start-create i k d t) (starting-terminal i k d t h)
  after-terminal (performing k op) t sound h = perform-terminal k op t sound.unique h
  after-terminal (saving k p) t sound h = saving-terminal k p t h

  calls-terminal :
      (calls : List Call) (t : Table)
      → IsSound t
      → load j t ≡ ok c
      → load j (after_all calls t) ≡ ok c
  unfolding after_all
  calls-terminal [] t sound h = h
  calls-terminal (call ∷ calls) t sound h =
      calls-terminal calls (after call t) (after-IsSound call t sound)
        (after-terminal call t sound h)

closed-is_terminal : (s : InitStatus) → (s ≡ cancelled) ⊎ (s ≡ completed) → is_terminal s ≡ true
unfolding is_terminal
closed-is_terminal s h = ground arith

-- A cancelled or completed run stays as it is, whatever is called: in a sound table its checkpoint is
-- read the same after any calls by any clients.
pub terminal_absorbs :
    (j : String) (c : InitCheckpoint) (calls : List Call) (t : Table)
    → (c.status ≡ cancelled) ⊎ (c.status ≡ completed)
    → IsSound t
    → load j t ≡ ok c
    → load j (after_all calls t) ≡ ok c
terminal_absorbs j c calls t closed sound h =
    calls-terminal j c (closed-is_terminal c.status closed) calls t sound h
