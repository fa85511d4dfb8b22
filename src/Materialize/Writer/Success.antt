-- ===== src/Materialize/Writer/Success.antt =====
-- Where no call fails, every operation's path holds what the operation says.
use local_skill_orchestrator.Prelude.{
  ◌∙◌, sym, subst, String, ◌≡◌, refl, inl, inr, true, false, Option, none, some, List, [], ◌∷◌,
  member, is_distinct, if◌then◌else◌, ◌==◌, string_Eq, lookup, lookup-insert, lookup-remove, arith,
  eq_iff, Bool-cases, Option-cases, ==→eq,
}
use local_skill_orchestrator.Prelude.Results.{ok}
use local_skill_orchestrator.Materialize.Changeset.{ChangeOperation}
use local_skill_orchestrator.Materialize.Disk.{Entry, file, World, System}
use local_skill_orchestrator.Materialize.Writer.{
  stage_one, stage_contents, back_up, install, move_all,
}
use local_skill_orchestrator.Materialize.Writer.Progress.{
  paths, move_all-SameAt, back_up-SameAt, install-SameAt,
}

-- What the first operation of a path leaves there.
abbrev pub content_at : List ChangeOperation → String → Option (Option String)
content_at [] p = none
content_at (o ∷ os) p = if o.path == p then some o.after_content else content_at os p

abbrev pub entry_after : Option (Option String) → Option Entry → Option Entry
entry_after none old = old
entry_after (some none) old = none
entry_after (some (some c)) old = some (file c)

-- The stage holds what is to be installed.
abbrev pub IsStaged : Option (Option String) → Option Entry → Type 0
IsStaged none e = Unit
IsStaged (some none) e = Unit
IsStaged (some (some c)) e = e ≡ some (file c)

abbrev pub SameTree : World → World → Type 0
SameTree w v =
    (v.tree ≡ w.tree)
    × (v.backup ≡ w.backup)
    × (v.installed ≡ w.installed)
    × (v.backed_up ≡ w.backed_up)

content_at-none :
    (os : List ChangeOperation) (p : String) → member p (paths os) ≡ false → content_at os p ≡ none
content_at-none [] p h = refl
content_at-none (o ∷ os) p h =
    ground (arith, eq_iff o.path p, eq_iff p o.path, content_at-none os p)

stage_one-SameTree :
    (s : System) (x : String) (after : Option String) (w : World)
    → SameTree w (stage_one s x after w).1
unfolding stage_one
stage_one-SameTree s x none w = (refl, refl, refl, refl)
stage_one-SameTree s x (some c) w = ground arith

-- Staging moves nothing in the tree.
pub stage_contents-SameTree :
    (s : System) (os : List ChangeOperation) (w : World) → SameTree w (stage_contents s os w).1
unfolding stage_contents
stage_contents-SameTree s [] w = (refl, refl, refl, refl)
stage_contents-SameTree s (o ∷ os) w = ground (
  arith,
  stage_one-SameTree s o.path o.after_content w,
  stage_contents-SameTree s os (stage_one s o.path o.after_content w).1,
)

stage_one-stage :
    (s : System) (p x : String) (after : Option String) (w : World)
    → (stage_one s x after w).0 ≡ ok tt
    → (x == p) ≡ false
    → lookup p (stage_one s x after w).1.stage ≡ lookup p w.stage
unfolding stage_one
stage_one-stage s p x none w h d = refl
stage_one-stage s p x (some c) w h d = ground (arith, lookup-insert x p (file c) w.stage)

stage_one-IsStaged :
    (s : System) (p : String) (after : Option String) (w : World)
    → (stage_one s p after w).0 ≡ ok tt
    → IsStaged (some after) (lookup p (stage_one s p after w).1.stage)
unfolding stage_one
stage_one-IsStaged s p none w h = tt
stage_one-IsStaged s p (some c) w h = ground (arith, eq_iff p p, lookup-insert p p (file c) w.stage)

stage_contents-stage :
    (s : System) (p : String) (os : List ChangeOperation) (w : World)
    → (stage_contents s os w).0 ≡ ok tt
    → member p (paths os) ≡ false
    → lookup p (stage_contents s os w).1.stage ≡ lookup p w.stage
unfolding stage_contents
stage_contents-stage s p [] w h d = refl
stage_contents-stage s p (o ∷ os) w h d = ground (
  arith,
  eq_iff o.path p,
  eq_iff p o.path,
  stage_one-stage s p o.path o.after_content w,
  stage_contents-stage s p os (stage_one s o.path o.after_content w).1,
)

stage_first :
    (s : System) (o : ChangeOperation) (os : List ChangeOperation) (w : World)
    → (stage_contents s (o ∷ os) w).0 ≡ ok tt
    → member o.path (paths os) ≡ false
    → IsStaged (some o.after_content) (lookup o.path (stage_contents s (o ∷ os) w).1.stage)
unfolding stage_contents
stage_first s o os w h d =
    let v = (stage_one s o.path o.after_content w).1 in
    let first : (stage_one s o.path o.after_content w).0 ≡ ok tt = ground arith in
    let rest : (stage_contents s os v).0 ≡ ok tt = ground arith in
    let run : (stage_contents s (o ∷ os) w).1 ≡ (stage_contents s os v).1 = ground arith in
    rw run (
      subst (IsStaged (some o.after_content)) (sym (stage_contents-stage s o.path os v rest d))
        (stage_one-IsStaged s o.path o.after_content w first))

-- What is to be installed is staged.
pub stage_contents-IsStaged :
    (s : System) (p : String) (os : List ChangeOperation) (w : World)
    → (stage_contents s os w).0 ≡ ok tt
    → is_distinct (paths os) ≡ true
    → IsStaged (content_at os p) (lookup p (stage_contents s os w).1.stage)
unfolding stage_contents is_distinct
stage_contents-IsStaged s p [] w h d = tt
stage_contents-IsStaged s p (o ∷ os) w h d =
    let v = (stage_one s o.path o.after_content w).1 in
    elim (Bool-cases (o.path == p)) [
      | inl t ↦ rw t (
          subst
            (λ q. IsStaged (some o.after_content) (lookup q (stage_contents s (o ∷ os) w).1.stage))
            (==→eq o.path p t) (stage_first s o os w h (ground arith)))
      | inr f ↦
          let run : (stage_contents s (o ∷ os) w).1 ≡ (stage_contents s os v).1 = ground arith in
          rw (f, run) (stage_contents-IsStaged s p os v (ground arith) (ground arith))
    ]

install-tree :
    (s : System) (p : String) (after : Option String) (w : World)
    → (install s p after w).0 ≡ ok tt
    → lookup p w.tree ≡ none
    → IsStaged (some after) (lookup p w.stage)
    → lookup p (install s p after w).1.tree ≡ entry_after (some after) none
unfolding install
install-tree s p none w h e i = e
install-tree s p (some c) w h e i = ground (arith, eq_iff p p, lookup-insert p p (file c) w.tree)

back_up-tree :
    (s : System) (p : String) (w : World)
    → (back_up s p w).0 ≡ ok tt
    → (lookup p (back_up s p w).1.tree ≡ none)
      × (lookup p (back_up s p w).1.stage ≡ lookup p w.stage)
unfolding back_up
back_up-tree s p w h = elim (Option-cases (lookup p w.tree)) [
  | inl e ↦ ground arith
  | inr (v, e) ↦ ground (arith, eq_iff p p, lookup-remove p p w.tree)
]

entry_after_old :
    (after : Option String) (a b : Option Entry)
    → entry_after (some after) a ≡ entry_after (some after) b
entry_after_old none a b = refl
entry_after_old (some c) a b = refl

move_first :
    (s : System) (o : ChangeOperation) (os : List ChangeOperation) (w : World)
    → (move_all s (o ∷ os) w).0 ≡ ok tt
    → member o.path (paths os) ≡ false
    → IsStaged (some o.after_content) (lookup o.path w.stage)
    → lookup o.path (move_all s (o ∷ os) w).1.tree ≡ entry_after (some o.after_content) none
unfolding move_all
move_first s o os w h d i =
    let v = (back_up s o.path w).1 in
    let u = (install s o.path o.after_content v).1 in
    let first : (back_up s o.path w).0 ≡ ok tt = ground arith in
    let second : (install s o.path o.after_content v).0 ≡ ok tt = ground arith in
    let (gone, kept) = back_up-tree s o.path w first in
    ground (
      arith,
      move_all-SameAt s o.path os u,
      install-tree s o.path o.after_content v second gone
          (subst (IsStaged (some o.after_content)) (sym kept) i),
    )

-- The moves leave at every path what its operation says.
pub move_all-tree :
    (s : System) (p : String) (os : List ChangeOperation) (w : World)
    → (move_all s os w).0 ≡ ok tt
    → is_distinct (paths os) ≡ true
    → IsStaged (content_at os p) (lookup p w.stage)
    → lookup p (move_all s os w).1.tree ≡ entry_after (content_at os p) (lookup p w.tree)
unfolding move_all is_distinct
move_all-tree s p [] w h d i = refl
move_all-tree s p (o ∷ os) w h d i =
    let v = (back_up s o.path w).1 in
    let u = (install s o.path o.after_content v).1 in
    elim (Bool-cases (o.path == p)) [
      | inl t ↦
          let same = ==→eq o.path p t in
          rw t (
            subst
              (λ q.
                lookup q (move_all s (o ∷ os) w).1.tree
                ≡ entry_after (some o.after_content) (lookup p w.tree))
              same
              (move_first s o os w h (ground arith) (
                  subst (λ q. IsStaged (some o.after_content) (lookup q w.stage)) (sym same)
                    (rw t at i))
                ∙ entry_after_old o.after_content none (lookup p w.tree)))
      | inr f ↦
          let there = back_up-SameAt s p o.path w f in
          let later = install-SameAt s p o.path o.after_content v f in
          let stage : lookup p u.stage ≡ lookup p w.stage = ground (arith, there, later) in
          let tree : lookup p u.tree ≡ lookup p w.tree = ground (arith, there, later) in
          let run : (move_all s (o ∷ os) w).1 ≡ (move_all s os u).1 = ground arith in
          rw (f, run)
            (subst (λ e. lookup p (move_all s os u).1.tree ≡ entry_after (content_at os p) e) tree
              (move_all-tree s p os u (ground arith) (ground arith)
                (subst (IsStaged (content_at os p)) (sym stage) (rw f at i))))
    ]
