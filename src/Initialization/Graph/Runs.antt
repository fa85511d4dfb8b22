-- ===== src/Initialization/Graph/Runs.antt =====
-- Any sequence of calls on one store, by any number of runs and clients: what holds of every run.
use local_skill_orchestrator.Prelude.{
  String, ◌≡◌, refl, sym, ◌∙◌, subst, inl, inr, Option, none, some, List, [], ◌∷◌, arith, is_some,
  ◌==◌, string_Eq, Bool-cases, Option-cases, ==→eq, ==_false→ne, lookup, insert, ◌||◌,
}
use local_skill_orchestrator.Initialization.State.{
  InitCheckpoint, Result, ok, err, running, inspect,
}
use local_skill_orchestrator.Initialization.Store.{
  Row, Table, InterviewProgress, from_row, overwrite, load, create, values, save_interview_progress,
  with_progress, has_checkpoint_id,
}
use local_skill_orchestrator.Initialization.Store.Laws.{
  IsUnique, insert_same-IsUnique, create-IsUnique, lookup-same, lookup-other, load-some, load-none,
}
use local_skill_orchestrator.Initialization.Graph.{start}
use local_skill_orchestrator.Initialization.Graph.Transitions.{
  Op, transition, perform, perform_lem, specified, commit,
}
use local_skill_orchestrator.Initialization.Graph.Steps.{
  IsConsistent, transition-IsConsistent, transition-revision,
}

pub data Call : Type 0 where
  starting : String → String → String → Call
  performing : String → Op → Call
  saving : String → InterviewProgress → Call

-- A call that raises ends with its client, and leaves the table to the next call.
unfoldable pub after : Call → Table → Table
after (starting checkpoint_id run_id digest) t = (start checkpoint_id run_id digest t).1
after (performing run_id op) t = (perform run_id op t).1
after (saving run_id progress) t = (save_interview_progress run_id progress t).1

unfoldable pub after_all : List Call → Table → Table
unfolding after
after_all [] t = t
after_all (call ∷ calls) t = after_all calls (after call t)

pub record IsSound (t : Table) : Type 0 where
  pub unique : IsUnique t
  pub consistent : (j : String) (r : Row) → lookup j t ≡ some r → IsConsistent (from_row j r)

-- The invariant reads no field that a row lacks, and not the run's name.
IsConsistent-cong :
    (k j : String) (r : Row) → IsConsistent (from_row k r) → IsConsistent (from_row j r)
IsConsistent-cong k j r c = record {
  error_fits = c.error_fits;
  stage_fits = c.stage_fits;
  reason_fits = c.reason_fits;
  counted = c.counted;
}

-- A write of a consistent row that keeps the identifiers unique.
insert-IsSound :
    (k : String) (s : Row) (t : Table)
    → IsSound t
    → IsUnique (insert k s t)
    → IsConsistent (from_row k s)
    → IsSound (insert k s t)
insert-IsSound k s t sound u c = record {
  unique = u;
  consistent = λ j r found. elim (Bool-cases (k == j)) [
    | inl e ↦ at_key j r (==→eq k j e) found
    | inr f ↦ sound.consistent j r (sym (lookup-other k j s t (==_false→ne k j f)) ∙ found)
  ];
}
  where
    at_key :
        (j : String) (r : Row)
        → k ≡ j
        → lookup j (insert k s t) ≡ some r
        → IsConsistent (from_row j r)
    at_key j r e found =
        let same : s ≡ r = cc (lookup-same k s t, e) in
        IsConsistent-cong k j r (subst (λ x. IsConsistent (from_row k x)) same c)

IsConsistent-overwrite :
    (k : String) (r : Row) (c : InitCheckpoint)
    → IsConsistent c
    → IsConsistent (from_row k (overwrite r c))
IsConsistent-overwrite k r c h = record {
  error_fits = h.error_fits;
  stage_fits = h.stage_fits;
  reason_fits = h.reason_fits;
  counted = h.counted;
}

specified-IsSound :
    (run_id : String) (op : Op) (t : Table) (o : Option Row)
    → lookup run_id t ≡ o
    → IsSound t
    → IsSound (specified run_id op t o).1
specified-IsSound run_id op t none found sound = sound
specified-IsSound run_id op t (some r) found sound =
    by_result (transition op (from_row run_id r)) refl
  where
    by_result :
        (x : Result InitCheckpoint)
        → transition op (from_row run_id r) ≡ x
        → IsSound (commit run_id r t x).1
    by_result (err e) h = sound
    by_result (ok c) h =
        let (same_run, same_id, same_digest, next) =
          transition-revision (from_row run_id r) c op h in
        insert-IsSound run_id (overwrite r c) t sound
          (insert_same-IsUnique run_id r (overwrite r c) t sound.unique found same_id)
          (IsConsistent-overwrite run_id r c
            (transition-IsConsistent (from_row run_id r) c op h (sound.consistent run_id r found)))

perform-IsSound :
    (run_id : String) (op : Op) (t : Table) → IsSound t → IsSound (perform run_id op t).1
perform-IsSound run_id op t sound =
    rw (perform_lem run_id op t sound.unique)
      (specified-IsSound run_id op t (lookup run_id t) refl sound)

abbrev pub fresh : String → String → String → InitCheckpoint
fresh checkpoint_id run_id digest = record {
  checkpoint_id = checkpoint_id;
  run_id = run_id;
  repository_digest = digest;
  stage = inspect;
  status = running;
  confirmed = [];
  attempt = 1;
  revision = 1;
  error = none;
  cancellation_reason = none;
}

pub start-create : (i k d : String) (t : Table) → (start i k d t).1 ≡ (create (fresh i k d) t).1
unfolding start
start-create i k d t = ground arith

create-IsSound : (i k d : String) (t : Table) → IsSound t → IsSound (create (fresh i k d) t).1
unfolding create values
create-IsSound i k d t sound =
    let unique = create-IsUnique (fresh i k d) t sound.unique in
    elim (Bool-cases (is_some (lookup k t) || has_checkpoint_id i t)) [
      | inl clash ↦ rw clash sound
      | inr free ↦
          rw free
            (insert-IsSound k (values (fresh i k d)) t sound (rw free at unique) (ground arith))
    ]

saving-IsSound :
    (k : String) (p : InterviewProgress) (t : Table)
    → IsSound t
    → IsSound (save_interview_progress k p t).1
unfolding save_interview_progress
saving-IsSound k p t sound = elim (Option-cases (lookup k t)) [
  | inl missing ↦ rw (missing, save_interview_progress) sound
  | inr (r, found) ↦
      rw (found, save_interview_progress)
        (insert-IsSound k (with_progress r p) t sound
          (insert_same-IsUnique k r (with_progress r p) t sound.unique found refl)
          (sound.consistent k r found))
]

pub after-IsSound : (call : Call) (t : Table) → IsSound t → IsSound (after call t)
unfolding after
after-IsSound (starting i k d) t sound = rw (start-create i k d t) (create-IsSound i k d t sound)
after-IsSound (performing k op) t sound = perform-IsSound k op t sound
after-IsSound (saving k p) t sound = saving-IsSound k p t sound

pub after_all-IsSound : (calls : List Call) (t : Table) → IsSound t → IsSound (after_all calls t)
unfolding after_all
after_all-IsSound [] t sound = sound
after_all-IsSound (call ∷ calls) t sound =
    after_all-IsSound calls (after call t) (after-IsSound call t sound)

pub empty-IsSound : IsSound []
unfolding lookup
empty-IsSound = record {
  unique = record { one_run = λ p q i j h. elim i [ ] };
  consistent = λ j r found. cc;
}

pub load→row :
    (j : String) (t : Table) (c : InitCheckpoint)
    → load j t ≡ ok c
    → (r : Row) × (lookup j t ≡ some r) × (from_row j r ≡ c)
load→row j t c h = elim (Option-cases (lookup j t)) [
  | inl missing ↦ cc (load-none j t missing)
  | inr (r, found) ↦ (r, found, cc (load-some j r t found))
]

-- After any calls on a new store, by any clients for any runs, a checkpoint that is read is
-- consistent: an error is there in a failed run, and otherwise at most in a cancelled one; a completed
-- run stands at `verify`; exactly the cancelled runs have a reason; and the revision is at least the
-- stage's index plus the attempts, plus one for a run that is not running.
pub loaded-IsConsistent :
    (calls : List Call) (j : String) (c : InitCheckpoint)
    → load j (after_all calls []) ≡ ok c
    → IsConsistent c
loaded-IsConsistent calls j c h =
    let (r, found, same) = load→row j (after_all calls []) c h in
    subst IsConsistent same ((after_all-IsSound calls [] empty-IsSound).consistent j r found)
