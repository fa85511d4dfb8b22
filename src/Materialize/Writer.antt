-- ===== src/Materialize/Writer.antt =====
-- `apply_changeset` of src/vibe/materialize/writer.py. The directories that are made for new files, and
-- removed again by a rollback, are not part of the tree; making one is a call that may fail. Two paths
-- are two places: links by which paths within the root share a file are left out.
pub mod Progress
pub mod Rollback
pub mod Success
pub mod Verify
pub mod Atomic
use local_skill_orchestrator.Prelude.{
  suc, ℕ, String, Bool, true, false, not, ◌&&◌, ◌||◌, Option, none, some, List, [], ◌∷◌, ◌++◌, map,
  filter, is_nonempty, if◌then◌else◌, ◌==◌, string_Eq, Dict, lookup, insert, remove,
}
use local_skill_orchestrator.Prelude.Json.{Json}
use local_skill_orchestrator.Prelude.Results.{Result, ok, err}
use local_skill_orchestrator.Materialize.Changeset.{
  ChangeOperation, CommandOperation, ChangeSet, is_unchanged, content_digest, absent_digest,
}
use local_skill_orchestrator.Materialize.Disk.{
  Entry, file, other, World, ApplyError, not_a_directory, path_escapes, cannot_verify,
  concurrent_change, command_failed, os_error, rolled_back, Exec, ◌>>=◌, ◌>>◌, pure, raise, ensure,
  System, call, move_out, move_in, remove_backup, remove_stage,
}

pub record ApplyResult : Type 0 where
  pub changeset_digest : String
  pub applied_paths : List String

abbrev pub mutable_of : List ChangeOperation → List ChangeOperation
mutable_of = filter (λ (o : ChangeOperation). not (is_unchanged o.kind))

-- The contents that are staged for an operation.
unfoldable pub stage_one : System → String → Option String → Exec (Unit {0})
unfolding insert
stage_one s path none = pure tt
stage_one s path (some content) = do
  call s (λ w. w)
  call s (λ w. record w { stage = insert path (file content) w.stage })

-- `_stage_contents`
unfoldable pub stage_contents : System → List ChangeOperation → Exec (Unit {0})
unfolding stage_one
stage_contents s [] = pure tt
stage_contents s (o ∷ os) = do stage_one s o.path o.after_content; stage_contents s os

-- The target is looked up again, and what exists there moves to the backup.
unfoldable pub back_up : System → String → Exec (Unit {0})
unfolding insert remove lookup
back_up s path w =
    if s.strays w.calls path then (err (path_escapes path), w) else elim (lookup path w.tree) [
      | none ↦ (ok tt, w)
      | some e ↦ (do call s (λ v. v); call s (move_out path e)) w
    ]

-- The staged content moves to the target; without a staged file, `replace` raises.
unfoldable pub install : System → String → Option String → Exec (Unit {0})
unfolding insert remove lookup
install s path none w = (ok tt, w)
install s path (some content) w = elim (lookup path w.stage) [
  | none ↦ (err os_error, w)
  | some e ↦ (do call s (λ v. v); call s (move_in path e)) w
]

-- The loop over the operations.
unfoldable pub move_all : System → List ChangeOperation → Exec (Unit {0})
unfolding back_up install
move_all s [] = pure tt
move_all s (o ∷ os) = do back_up s o.path; install s o.path o.after_content; move_all s os

-- The body of the `try`.
unfoldable pub write_all : System → List ChangeOperation → Exec (Unit {0})
unfolding stage_contents move_all
write_all s operations = do
  stage_contents s operations
  move_all s operations
  remove_backup s
  remove_stage s

-- A step of a rollback that may fail, and then adds an error.
abbrev attempt : System → String → (World → World) → World → List String × World
attempt s path effect w =
    if s.fails w.calls
    then (path ∷ [], record w { calls = suc w.calls })
    else ([], effect (record w { calls = suc w.calls }))

-- target.unlink(missing_ok=True), for each
unfoldable pub unlink_all : System → List String → World → List String × World
unfolding remove
unlink_all s [] w = ([], w)
unlink_all s (path ∷ paths) w =
    let (errors, v) = attempt s path (λ v. record v { tree = remove path v.tree }) w in
    let (more, u) = unlink_all s paths v in (errors ++ more, u)

-- The directory of the target, and then the file from the backup, if it is there.
unfoldable pub restore : System → String → World → List String × World
unfolding insert remove lookup
restore s path w = elim (lookup path w.backup) [
  | none ↦ (path ∷ [], w)
  | some e ↦
      if s.fails w.calls
      then (path ∷ [], record w { calls = suc w.calls })
      else attempt s path
          (λ u. record u { tree = insert path e u.tree; backup = remove path u.backup })
          (record w { calls = suc w.calls })
]

unfoldable pub restore_all : System → List String → World → List String × World
unfolding restore
restore_all s [] w = ([], w)
restore_all s (path ∷ paths) w =
    let (errors, v) = restore s path w in
    let (more, u) = restore_all s paths v in (errors ++ more, u)

-- `_rollback`
unfoldable pub rollback : System → World → List String × World
unfolding unlink_all restore_all
rollback s w =
    let (errors, v) = unlink_all s w.installed w in
    let (more, u) = restore_all s v.backed_up v in (errors ++ more, u)

-- The `except` branch; the two directories are removed with their errors ignored.
unfoldable pub guarded :
    System
    → ApplyResult
    → Result ApplyError (Unit {0}) × World
    → Result ApplyError ApplyResult × World
unfolding rollback
guarded s result (ok u, w) = (ok result, w)
guarded s result (err e, w) =
    let (errors, v) = rollback s w in
    (err (rolled_back errors), record v { stage = []; backup = [] })

-- The tree that the commands leave, whether or not one of them fails.
abbrev pub tree_after : System → List CommandOperation → Dict Entry → Dict Entry
tree_after s [] tree = tree
tree_after s (c ∷ cs) tree =
    let rest = tree_after s cs (s.command c.argv tree).1 in
    if (s.command c.argv tree).0 then rest else (s.command c.argv tree).1

-- The commands run one after the other until one fails.
unfoldable pub run_commands : System → List CommandOperation → Exec (Unit {0})
run_commands s [] w = (ok tt, w)
run_commands s (c ∷ cs) w =
    let (succeeds, tree) = s.command c.argv w.tree in
    let rest = run_commands s cs (record w { tree = tree }) in
    if succeeds then rest else (err command_failed, record w { tree = tree })

-- mkdtemp, for both directories
unfoldable pub make_directories : System → Exec (Unit {0})
make_directories s = do
  call s (λ w. record w { stage = [] })
  call s (λ w. record w { backup = []; installed = []; backed_up = [] })

abbrev pub result_of : ChangeSet → ApplyResult
result_of c = record {
  changeset_digest = c.digest;
  applied_paths = map (λ (o : ChangeOperation). o.path) (mutable_of c.operations);
}

-- After the commands: nothing more without an operation that changes a file.
unfoldable pub write_changes : System → ChangeSet → Exec ApplyResult
unfolding write_all make_directories guarded
write_changes s c w =
    let mutable = mutable_of c.operations in
    let written = (do make_directories s; λ v. guarded s (result_of c) (write_all s mutable v)) in
    if is_nonempty mutable then written w else (ok (result_of c), w)

module _ (sha256 : String → String) (escapes : String → Bool) (s : System) where
  -- The digest of what stands at a path. A file that cannot be read is refused.
  unfoldable pub current_digest : String → Option Entry → Exec String
  unfolding content_digest
  current_digest path none w = (ok (content_digest sha256 none), w)
  current_digest path (some (other x)) w = (ok "not-a-file", w)
  current_digest path (some (file content)) w =
      if s.fails w.calls
      then (err (cannot_verify path), record w { calls = suc w.calls })
      else (ok (content_digest sha256 (some content)), record w { calls = suc w.calls })

  -- The paths whose digest is another than the one that was reviewed.
  unfoldable pub conflicts_of : List ChangeOperation → Exec (List String)
  unfolding current_digest lookup
  conflicts_of [] = pure []
  conflicts_of (o ∷ os) = do
    ensure (not (escapes o.path)) (path_escapes o.path)
    digest ← (λ v. current_digest o.path (lookup o.path v.tree) v)
    rest ← conflicts_of os
    pure (if digest == o.before_digest then rest else o.path ∷ rest)

  -- `_verify_before_digests`
  unfoldable pub verify_before_digests : List ChangeOperation → Exec (Unit {0})
  unfolding conflicts_of
  verify_before_digests operations = do
    conflicts ← conflicts_of operations
    ensure (not (is_nonempty conflicts)) (concurrent_change conflicts)

  unfoldable pub apply_changeset : ChangeSet → Exec ApplyResult
  unfolding verify_before_digests run_commands write_changes
  apply_changeset c w =
      (do
        ensure w.has_root not_a_directory
        verify_before_digests c.operations
        run_commands s c.commands
        write_changes s c)
        w
