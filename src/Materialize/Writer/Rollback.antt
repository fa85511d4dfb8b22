-- ===== src/Materialize/Writer/Rollback.antt =====
-- A rollback without an error brings back what was there.
use local_skill_orchestrator.Prelude.{
  suc, String, ◌≡◌, refl, ◌⊎◌, inl, inr, Bool, true, false, Option, none, is_some, List, [], ◌∷◌,
  ◌++◌, member, if◌then◌else◌, ◌==◌, string_Eq, lookup, remove, lookup-insert, lookup-remove, arith,
  eq_iff, Bool-cases, Option-cases,
}
use local_skill_orchestrator.Materialize.Disk.{Entry, World, System}
use local_skill_orchestrator.Materialize.Writer.{unlink_all, restore, restore_all, rollback}

-- What is known of a path where something may have been moved: with `o` what stood there at first, `b`
-- and `i` whether it was backed up and installed, `tree` and `kept` what stands there and in the backup.
abbrev pub Recoverable : Option Entry → Bool → Bool → Option Entry → Option Entry → Type 0
Recoverable o true i tree kept = (is_some o ≡ true) × ((kept ≡ o) ⊎ (kept ≡ none))
Recoverable o false true tree kept = o ≡ none
Recoverable o false false tree kept = tree ≡ o

abbrev pub IsRecoverable : String → Option Entry → World → Type 0
IsRecoverable p o w =
    Recoverable o (member p w.backed_up) (member p w.installed) (lookup p w.tree)
      (lookup p w.backup)

unlink_all-lookup :
    (s : System) (p : String) (paths : List String) (w : World)
    → (unlink_all s paths w).0 ≡ []
    → (lookup p (unlink_all s paths w).1.tree ≡ (if member p paths then none else lookup p w.tree))
      × ((unlink_all s paths w).1.backup ≡ w.backup)
      × ((unlink_all s paths w).1.backed_up ≡ w.backed_up)
unfolding unlink_all
unlink_all-lookup s p [] w h = (refl, refl, refl)
unlink_all-lookup s p (x ∷ paths) w h = elim (Bool-cases (s.fails w.calls)) [
  | inl t ↦ ground (arith)
  | inr f ↦ ground (
    arith,
    eq_iff x p,
    eq_iff p x,
    lookup-remove x p w.tree,
    unlink_all-lookup s p paths (record w { calls = suc w.calls; tree = remove x w.tree }),
  )
]

restore-lookup :
    (s : System) (p x : String) (w : World)
    → (restore s x w).0 ≡ []
    → (lookup p (restore s x w).1.tree ≡ (if x == p then lookup p w.backup else lookup p w.tree))
      × (lookup p (restore s x w).1.backup ≡ (if x == p then none else lookup p w.backup))
      × (is_some (lookup x w.backup) ≡ true)
unfolding restore
restore-lookup s p x w h = elim (Option-cases (lookup x w.backup)) [
  | inl e ↦ ground (arith)
  | inr (v, e) ↦ ground (arith, eq_iff x p, lookup-insert x p v w.tree, lookup-remove x p w.backup)
]

append_empty : (xs ys : List String) → xs ++ ys ≡ [] → (xs ≡ []) × (ys ≡ [])
append_empty [] ys h = (refl, h)
append_empty (x ∷ xs) ys h = absurd (cc)

restore_all-lookup :
    (s : System) (p : String) (paths : List String) (w : World)
    → (restore_all s paths w).0 ≡ []
    → (lookup p (restore_all s paths w).1.tree
        ≡ (if member p paths then lookup p w.backup else lookup p w.tree))
      × (member p paths ≡ true → is_some (lookup p w.backup) ≡ true)
unfolding restore_all
restore_all-lookup s p [] w h = (refl, λ e. cc)
restore_all-lookup s p (x ∷ paths) w h =
    let (first, later) =
      append_empty (restore s x w).0 (restore_all s paths (restore s x w).1).0 h in
    (
      ground (
        arith,
        eq_iff x p,
        eq_iff p x,
        restore-lookup s p x w first,
        restore_all-lookup s p paths (restore s x w).1 later,
      ),
      λ m. ground (
        arith,
        eq_iff x p,
        eq_iff p x,
        restore-lookup s p x w first,
        restore_all-lookup s p paths (restore s x w).1 later,
      ),
    )

-- A rollback with no error leaves, at a path that can be recovered, what stood there at first.
pub rollback-lookup :
    (s : System) (p : String) (o : Option Entry) (w : World)
    → IsRecoverable p o w
    → (rollback s w).0 ≡ []
    → lookup p (rollback s w).1.tree ≡ o
unfolding rollback
rollback-lookup s p o w inv h =
    let v = (unlink_all s w.installed w).1 in
    let (first, later) =
      append_empty (unlink_all s w.installed w).0 (restore_all s v.backed_up v).0 h in
    let (tree, same_backup, same_list) = unlink_all-lookup s p w.installed w first in
    let (restored, there) = restore_all-lookup s p v.backed_up v later in
    ground (arith, tree, same_backup, same_list, restored, there)
