-- ===== src/Materialize/Writer/Progress.antt =====
-- While the operations are made, every path stays recoverable.
use local_skill_orchestrator.Prelude.{
  sym, subst, String, ◌≡◌, refl, inl, inr, true, false, Option, none, some, List, [], ◌∷◌, map,
  member, is_distinct, ◌==◌, string_Eq, lookup, lookup-insert, lookup-remove, arith, eq_iff,
  Bool-cases, Option-cases, ==→eq,
}
use local_skill_orchestrator.Prelude.Results.{ok}
use local_skill_orchestrator.Materialize.Changeset.{ChangeOperation}
use local_skill_orchestrator.Materialize.Disk.{Entry, World, System}
use local_skill_orchestrator.Materialize.Writer.{back_up, install, move_all}
use local_skill_orchestrator.Materialize.Writer.Rollback.{IsRecoverable}

-- A path at which nothing was moved yet.
abbrev pub IsUntouched : String → Option Entry → World → Type 0
IsUntouched p o w =
    (member p w.backed_up ≡ false) × (member p w.installed ≡ false) × (lookup p w.tree ≡ o)

-- A path whose old entry, if there was one, stands in the backup.
abbrev IsSaved : String → Option Entry → World → Type 0
IsSaved p none w =
    (member p w.backed_up ≡ false) × (member p w.installed ≡ false) × (lookup p w.tree ≡ none)
IsSaved p (some e) w =
    (member p w.backed_up ≡ true)
    × (member p w.installed ≡ false)
    × (lookup p w.tree ≡ none)
    × (lookup p w.backup ≡ some e)

-- The same path in two worlds.
abbrev pub SameAt : String → World → World → Type 0
SameAt p w v =
    (member p v.backed_up ≡ member p w.backed_up)
    × (member p v.installed ≡ member p w.installed)
    × (lookup p v.tree ≡ lookup p w.tree)
    × (lookup p v.backup ≡ lookup p w.backup)
    × (lookup p v.stage ≡ lookup p w.stage)

pub back_up-SameAt :
    (s : System) (p x : String) (w : World) → (x == p) ≡ false → SameAt p w (back_up s x w).1
unfolding back_up
back_up-SameAt s p x w d = elim (Option-cases (lookup x w.tree)) [
  | inl e ↦ ground arith
  | inr (v, e) ↦
      ground (arith, eq_iff x p, eq_iff p x, lookup-insert x p v w.backup, lookup-remove x p w.tree)
]

pub install-SameAt :
    (s : System) (p x : String) (after : Option String) (w : World)
    → (x == p) ≡ false
    → SameAt p w (install s x after w).1
unfolding install
install-SameAt s p x none w d = (refl, refl, refl, refl, refl)
install-SameAt s p x (some c) w d = elim (Option-cases (lookup x w.stage)) [
  | inl e ↦ ground arith
  | inr (v, e) ↦
      ground (arith, eq_iff x p, eq_iff p x, lookup-insert x p v w.tree, lookup-remove x p w.stage)
]

back_up-Recoverable :
    (s : System) (p : String) (o : Option Entry) (w : World)
    → IsUntouched p o w
    → IsRecoverable p o (back_up s p w).1
unfolding back_up
back_up-Recoverable s p o w h = elim (Option-cases (lookup p w.tree)) [
  | inl e ↦ ground arith
  | inr (v, e) ↦ ground (arith, eq_iff p p, lookup-insert p p v w.backup, lookup-remove p p w.tree)
]

back_up-Saved :
    (s : System) (p : String) (o : Option Entry) (w : World)
    → IsUntouched p o w
    → (back_up s p w).0 ≡ ok tt
    → IsSaved p o (back_up s p w).1
unfolding back_up
back_up-Saved s p none w h fine = elim (Option-cases (lookup p w.tree)) [
  | inl e ↦ ground arith
  | inr (v, e) ↦ ground arith
]
back_up-Saved s p (some x) w h fine = elim (Option-cases (lookup p w.tree)) [
  | inl e ↦ ground arith
  | inr (v, e) ↦ ground (arith, eq_iff p p, lookup-insert p p v w.backup, lookup-remove p p w.tree)
]

install-Recoverable :
    (s : System) (p : String) (o : Option Entry) (after : Option String) (w : World)
    → IsSaved p o w
    → IsRecoverable p o (install s p after w).1
unfolding install
install-Recoverable s p none none w h = ground arith
install-Recoverable s p (some x) none w h = ground arith
install-Recoverable s p none (some c) w h = elim (Option-cases (lookup p w.stage)) [
  | inl e ↦ ground arith
  | inr (v, e) ↦ ground (arith, eq_iff p p, lookup-insert p p v w.tree)
]
install-Recoverable s p (some x) (some c) w h = elim (Option-cases (lookup p w.stage)) [
  | inl e ↦ ground arith
  | inr (v, e) ↦ ground (arith, eq_iff p p, lookup-insert p p v w.tree)
]

abbrev pub paths : List ChangeOperation → List String
paths os = map (λ (o : ChangeOperation). o.path) os

-- At the paths of no operation nothing is moved.
pub move_all-SameAt :
    (s : System) (p : String) (os : List ChangeOperation) (w : World)
    → member p (paths os) ≡ false
    → SameAt p w (move_all s os w).1
unfolding move_all
move_all-SameAt s p [] w h = (refl, refl, refl, refl, refl)
move_all-SameAt s p (o ∷ os) w h =
    let v = (back_up s o.path w).1 in
    let u = (install s o.path o.after_content v).1 in
    ground (
      arith,
      eq_iff o.path p,
      eq_iff p o.path,
      back_up-SameAt s p o.path w,
      install-SameAt s p o.path o.after_content v,
      move_all-SameAt s p os u,
    )

-- The steps at the path itself.
move_one-Recoverable :
    (s : System) (e : Option Entry) (o : ChangeOperation) (os : List ChangeOperation) (w : World)
    → member o.path (paths os) ≡ false
    → IsUntouched o.path e w
    → IsRecoverable o.path e (move_all s (o ∷ os) w).1
unfolding move_all
move_one-Recoverable s e o os w d h =
    let v = (back_up s o.path w).1 in
    let u = (install s o.path o.after_content v).1 in
    ground (
      arith,
      back_up-Recoverable s o.path e w h,
      back_up-Saved s o.path e w h,
      install-Recoverable s o.path e o.after_content v,
      move_all-SameAt s o.path os u,
    )

-- Over distinct paths, a path where nothing was moved before is recoverable afterwards.
pub move_all-Recoverable :
    (s : System) (p : String) (e : Option Entry) (os : List ChangeOperation) (w : World)
    → is_distinct (paths os) ≡ true
    → IsUntouched p e w
    → IsRecoverable p e (move_all s os w).1
unfolding move_all is_distinct
move_all-Recoverable s p e [] w d h = ground arith
move_all-Recoverable s p e (o ∷ os) w d h =
    let v = (back_up s o.path w).1 in
    let u = (install s o.path o.after_content v).1 in
    elim (Bool-cases (o.path == p)) [
      | inl t ↦
          let same = ==→eq o.path p t in
          subst (λ q. IsRecoverable q e (move_all s (o ∷ os) w).1) same
            (move_one-Recoverable s e o os w (ground arith)
              (subst (λ q. IsUntouched q e w) (sym same) h))
      | inr f ↦ ground (
        arith,
        back_up-SameAt s p o.path w,
        install-SameAt s p o.path o.after_content v,
        move_all-Recoverable s p e os u,
      )
    ]
