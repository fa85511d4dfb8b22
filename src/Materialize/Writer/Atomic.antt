-- ===== src/Materialize/Writer/Atomic.antt =====
-- A change set is applied as a whole, or the tree is as it was.
use local_skill_orchestrator.Prelude.{
  sym, ap, ◌∙◌, subst, ==→eq, String, ◌≡◌, refl, inl, inr, Bool, true, false, Option, none, List,
  [], ◌∷◌, filter, member, is_distinct, is_nonempty, if◌then◌else◌, ◌==◌, string_Eq, Dict, lookup,
  arith, Bool-cases,
}
use local_skill_orchestrator.Prelude.Results.{Result, ok, err}
use local_skill_orchestrator.Materialize.Changeset.{
  path_escapes, ChangeOperation, CommandOperation, ChangeSet,
}
use local_skill_orchestrator.Materialize.Disk.{
  not_a_directory, path_escapes, cannot_verify, concurrent_change, ensure, ◌>>=◌, concurrent_change,
  cannot_verify, continue, Exec, Entry, World, System, ApplyError, rolled_back, command_failed,
  os_error,
}
use local_skill_orchestrator.Materialize.Writer.{
  result_of, ApplyResult, mutable_of, tree_after, verify_before_digests, run_commands,
  stage_contents, move_all, write_all, guarded, rollback, make_directories, write_changes,
  apply_changeset,
}
use local_skill_orchestrator.Materialize.Writer.Progress.{paths, IsUntouched, move_all-Recoverable}
use local_skill_orchestrator.Materialize.Writer.Rollback.{IsRecoverable, rollback-lookup}
use local_skill_orchestrator.Materialize.Writer.Verify.{is_early, verify-tree, verify-early}
use local_skill_orchestrator.Materialize.Writer.Success.{
  content_at, entry_after, stage_contents-SameTree, stage_contents-IsStaged, move_all-tree,
}

run_commands-error :
    (s : System) (cs : List CommandOperation) (w : World) (e : ApplyError)
    → (run_commands s cs w).0 ≡ err e
    → e ≡ command_failed
unfolding run_commands
run_commands-error s [] w e h = cc
run_commands-error s (c ∷ cs) w e h =
    ground (arith, run_commands-error s cs (record w { tree = (s.command c.argv w.tree).1 }) e)

run_commands-tree :
    (s : System) (cs : List CommandOperation) (w : World)
    → (run_commands s cs w).1.tree ≡ tree_after s cs w.tree
unfolding run_commands
run_commands-tree s [] w = refl
run_commands-tree s (c ∷ cs) w =
    ground (arith, run_commands-tree s cs (record w { tree = (s.command c.argv w.tree).1 }))

-- What a failed removal leaves, at a path.
lookup-left :
    (p : String) (g : String → Bool) (d : Dict Entry)
    → lookup p (filter (λ q. g q.0) d) ≡ (if g p then lookup p d else none)
unfolding lookup
lookup-left p g [] = ground arith
lookup-left p g ((k, v) ∷ d) = elim (Bool-cases (k == p)) [
  | inl t ↦
      let same = ==→eq k p t in
      elim (Bool-cases (g k)) [
        | inl y ↦ let z : g p ≡ true = subst (λ q. g q ≡ true) same y in rw (y, z, t) refl
        | inr y ↦
            let z : g p ≡ false = subst (λ q. g q ≡ false) same y in
            ground (arith, lookup-left p g d)
      ]
  | inr f ↦ ground (arith, lookup-left p g d)
]

write_all-Recoverable :
    (s : System) (p : String) (e : Option Entry) (os : List ChangeOperation) (w : World)
    → is_distinct (paths os) ≡ true
    → IsUntouched p e w
    → (x : ApplyError) → (write_all s os w).0 ≡ err x
    → IsRecoverable p e (write_all s os w).1
unfolding write_all
write_all-Recoverable s p e os w d h x failed =
    let v = (stage_contents s os w).1 in
    let u = (move_all s os v).1 in
    ground (
      arith,
      stage_contents-SameTree s os w,
      move_all-Recoverable s p e os v d,
      lookup-left p (s.leaves u.calls) u.backup,
    )

write_all-tree :
    (s : System) (p : String) (os : List ChangeOperation) (w : World)
    → is_distinct (paths os) ≡ true
    → (write_all s os w).0 ≡ ok tt
    → lookup p (write_all s os w).1.tree ≡ entry_after (content_at os p) (lookup p w.tree)
unfolding write_all
write_all-tree s p os w d h =
    let v = (stage_contents s os w).1 in
    let first : (stage_contents s os w).0 ≡ ok tt = ground arith in
    let second : (move_all s os v).0 ≡ ok tt = ground arith in
    ground (
      arith,
      stage_contents-SameTree s os w,
      move_all-tree s p os v second d (stage_contents-IsStaged s p os w first d),
    )

-- What a result says of a path: with `start` and `before` its entry before and after the commands, and
-- `after` what the operations say.
abbrev pub Outcome :
    Option Entry
    → Option Entry
    → Option Entry
    → Option Entry
    → Result ApplyError ApplyResult
    → Type 0
Outcome start before after now (ok r) = now ≡ after
Outcome start before after now (err (rolled_back [])) = now ≡ before
Outcome start before after now (err (rolled_back (x ∷ xs))) = Unit
Outcome start before after now (err command_failed) = now ≡ before
Outcome start before after now (err os_error) = now ≡ before
Outcome start before after now (err _) = now ≡ start

early-Outcome :
    (start before after : Option Entry) (e : ApplyError)
    → is_early e ≡ true
    → Outcome start before after start (err e)
early-Outcome start before after not_a_directory h = refl
early-Outcome start before after (path_escapes q) h = refl
early-Outcome start before after (cannot_verify q) h = refl
early-Outcome start before after (concurrent_change qs) h = refl
early-Outcome start before after command_failed h = absurd (cc)
early-Outcome start before after os_error h = absurd (cc)
early-Outcome start before after (rolled_back xs) h = absurd (cc)

os-Outcome :
    (start before after now : Option Entry) (e : ApplyError)
    → e ≡ os_error
    → now ≡ before
    → Outcome start before after now (err e)
os-Outcome start before after now e same h =
    subst (λ x. Outcome start before after now (err x)) (sym same) h

command-Outcome :
    (start before after now : Option Entry) (e : ApplyError)
    → e ≡ command_failed
    → now ≡ before
    → Outcome start before after now (err e)
command-Outcome start before after now e same h =
    subst (λ x. Outcome start before after now (err x)) (sym same) h

ensure-Outcome :
    (p : String) (start before after : Option Entry) (test : Bool) (e : ApplyError)
    (f : Unit {0} → Exec ApplyResult) (w : World)
    → Outcome start before after (lookup p (f tt w).1.tree) (f tt w).0
    → Outcome start before after (lookup p w.tree) (err e)
    → Outcome start before after
        (lookup p ((ensure test e >>= f) w).1.tree)
        ((ensure test e >>= f) w).0
ensure-Outcome p start before after true e f w h k = h
ensure-Outcome p start before after false e f w h k = k

-- The outcome of a step and what follows it.
bind-Outcome :
    {A : Type 0} (p : String) (start before after : Option Entry) (m : Result ApplyError A)
    (f : A → Exec ApplyResult) (w : World)
    → ((a : A) → m ≡ ok a → Outcome start before after (lookup p (f a w).1.tree) (f a w).0)
    → ((e : ApplyError) → m ≡ err e → Outcome start before after (lookup p w.tree) (err e))
    → Outcome start before after (lookup p (continue m f w).1.tree) (continue m f w).0
bind-Outcome p start before after (ok a) f w h k = h a refl
bind-Outcome p start before after (err e) f w h k = k e refl

rolled_back-Outcome :
    (start before after now : Option Entry) (errors : List String)
    → (errors ≡ [] → now ≡ before)
    → Outcome start before after now (err (rolled_back errors))
rolled_back-Outcome start before after now [] h = h refl
rolled_back-Outcome start before after now (x ∷ xs) h = tt

guarded-Outcome :
    (s : System) (p : String) (start before after : Option Entry) (r : ApplyResult)
    (out : Result ApplyError (Unit {0}) × World)
    → (out.0 ≡ ok tt → lookup p out.1.tree ≡ after)
    → ((x : ApplyError) → out.0 ≡ err x → IsRecoverable p before out.1)
    → Outcome start before after (lookup p (guarded s r out).1.tree) (guarded s r out).0
unfolding guarded
guarded-Outcome s p start before after r (ok u, w) fine failed = fine refl
guarded-Outcome s p start before after r (err x, w) fine failed =
    rolled_back-Outcome start before after (lookup p (rollback s w).1.tree) (rollback s w).0
      (rollback-lookup s p before w (failed x refl))

IsUntouched-made :
    (s : System) (p : String) (w : World)
    → (make_directories s w).0 ≡ ok tt
    → IsUntouched p (lookup p (make_directories s w).1.tree) (make_directories s w).1
unfolding make_directories
IsUntouched-made s p w h = ground arith

make-tree : (s : System) (w : World) → (make_directories s w).1.tree ≡ w.tree
unfolding make_directories
make-tree s w = ground arith

make-error :
    (s : System) (w : World) (e : ApplyError) → (make_directories s w).0 ≡ err e → e ≡ os_error
unfolding make_directories
make-error s w e h = ground arith

nothing-Outcome :
    (start e : Option Entry) (p : String) (os : List ChangeOperation) (r : ApplyResult)
    → is_nonempty os ≡ false
    → Outcome start e (entry_after (content_at os p) e) e (ok r)
nothing-Outcome start e p [] r h = refl
nothing-Outcome start e p (o ∷ os) r h = absurd (cc)

write_changes-Outcome :
    (s : System) (p : String) (start : Option Entry) (c : ChangeSet) (w : World)
    → is_distinct (paths (mutable_of c.operations)) ≡ true
    → Outcome start
        (lookup p w.tree)
        (entry_after (content_at (mutable_of c.operations) p) (lookup p w.tree))
        (lookup p (write_changes s c w).1.tree)
        (write_changes s c w).0
unfolding write_changes
write_changes-Outcome s p start c w d = elim (Bool-cases (is_nonempty (mutable_of c.operations))) [
  | inr f ↦
      rw f (nothing-Outcome start (lookup p w.tree) p (mutable_of c.operations) (result_of c) f)
  | inl t ↦ rw t (
      bind-Outcome p start (lookup p w.tree) _ (make_directories s w).0 _ (make_directories s w).1
        (λ u made.
          let v = (make_directories s w).1 in
          let same = make-tree s w in
          guarded-Outcome s p start (lookup p w.tree) _ _ (write_all s (mutable_of c.operations) v)
            (λ fine.
              write_all-tree s p (mutable_of c.operations) v d fine
              ∙ ap
                  (λ (x : Dict Entry).
                    entry_after (content_at (mutable_of c.operations) p) (lookup p x))
                  same)
            (write_all-Recoverable s p (lookup p w.tree) (mutable_of c.operations) v d (
              subst (λ (x : Dict Entry). IsUntouched p (lookup p x) v) same
                (IsUntouched-made s p w made))))
        (λ e failed.
          os-Outcome start (lookup p w.tree)
            (entry_after (content_at (mutable_of c.operations) p) (lookup p w.tree))
            (lookup p (make_directories s w).1.tree) e (make-error s w e failed)
            (ap (λ (x : Dict Entry). lookup p x) (make-tree s w))))
]

member-mutable :
    (p : String) (os : List ChangeOperation)
    → member p (paths os) ≡ false
    → member p (paths (mutable_of os)) ≡ false
member-mutable p [] h = h
member-mutable p (o ∷ os) h = ground (arith, member-mutable p os)

distinct-mutable :
    (os : List ChangeOperation)
    → is_distinct (paths os) ≡ true
    → is_distinct (paths (mutable_of os)) ≡ true
unfolding is_distinct
distinct-mutable [] h = h
distinct-mutable (o ∷ os) h = ground (arith, member-mutable o.path os, distinct-mutable os)

module _ (sha256 : String → String) (escapes : String → Bool) (s : System) where
  -- Whatever calls fail and whatever paths links lead out of the root: a change set with distinct paths is
  -- applied as a whole, so that every path holds what its operation says and all others are as the commands
  -- left them; or it is not applied at all, and the tree is as the commands left it, or as it was where they
  -- did not run; or the error names paths that the rollback could not remove or restore.
  pub apply_changeset-Outcome :
      (c : ChangeSet) (w : World) (p : String)
      → is_distinct (paths c.operations) ≡ true
      → Outcome
          (lookup p w.tree)
          (lookup p (tree_after s c.commands w.tree))
          (entry_after
            (content_at (mutable_of c.operations) p)
            (lookup p (tree_after s c.commands w.tree)))
          (lookup p (apply_changeset sha256 escapes s c w).1.tree)
          (apply_changeset sha256 escapes s c w).0
  unfolding apply_changeset
  apply_changeset-Outcome c w p d =
      let start = lookup p w.tree in
      let before = lookup p (tree_after s c.commands w.tree) in
      let after = entry_after (content_at (mutable_of c.operations) p) before in
      let v = (verify_before_digests sha256 escapes s c.operations w).1 in
      let u = (run_commands s c.commands v).1 in
      let ran : u.tree ≡ tree_after s c.commands w.tree =
        run_commands-tree s c.commands v
        ∙ ap (tree_after s c.commands) (verify-tree sha256 escapes s c.operations w) in
      ensure-Outcome p start before after w.has_root not_a_directory _ w
        (bind-Outcome p start before after (verify_before_digests sha256 escapes s c.operations w).0
          _ v
          (λ a verified.
            bind-Outcome p start before after (run_commands s c.commands v).0 _ u
              (λ b done.
                subst
                  (λ (x : Dict Entry).
                    Outcome start (lookup p x)
                      (entry_after (content_at (mutable_of c.operations) p) (lookup p x))
                      (lookup p (write_changes s c u).1.tree) (write_changes s c u).0)
                  ran (write_changes-Outcome s p start c u (distinct-mutable c.operations d)))
              (λ e failed.
                command-Outcome start before after (lookup p u.tree) e
                  (run_commands-error s c.commands v e failed)
                  (ap (λ (x : Dict Entry). lookup p x) ran)))
          (λ e failed.
            subst (λ (x : Dict Entry). Outcome start before after (lookup p x) (err e))
              (sym (verify-tree sha256 escapes s c.operations w))
              (early-Outcome start before after e
                (verify-early sha256 escapes s c.operations w e failed))))
        refl
