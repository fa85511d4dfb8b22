-- ===== src/Materialize/Writer/Verify.antt =====
-- The check of the digests changes nothing, and passes only for a tree that was reviewed.
use local_skill_orchestrator.Prelude.{
  sym, subst, eq_iff, String, ◌≡◌, refl, inl, inr, Bool, true, false, Option, none, some, List, [],
  ◌∷◌, In, string_Eq, Dict, lookup, arith,
}
use local_skill_orchestrator.Prelude.Results.{ok, err, Result-cases}
use local_skill_orchestrator.Materialize.Changeset.{ChangeOperation, content_digest, ChangeSet}
use local_skill_orchestrator.Materialize.Disk.{
  Entry, file, other, World, System, ApplyError, rolled_back, command_failed, os_error,
}
use local_skill_orchestrator.Materialize.Writer.{
  ApplyResult, current_digest, conflicts_of, verify_before_digests, apply_changeset,
}

abbrev pub is_early : ApplyError → Bool
is_early (rolled_back xs) = false
is_early command_failed = false
is_early os_error = false
is_early _ = true

module _ (sha256 : String → String) (escapes : String → Bool) (s : System) where
  current_digest-tree :
      (path : String) (e : Option Entry) (w : World)
      → (current_digest sha256 escapes s path e w).1.tree ≡ w.tree
  unfolding current_digest
  current_digest-tree path none w = refl
  current_digest-tree path (some (file c)) w = ground arith
  current_digest-tree path (some (other x)) w = refl

  conflicts_of-tree :
      (os : List ChangeOperation) (w : World) → (conflicts_of sha256 escapes s os w).1.tree ≡ w.tree
  unfolding conflicts_of
  conflicts_of-tree [] w = refl
  conflicts_of-tree (o ∷ os) w =
      let v = (current_digest sha256 escapes s o.path (lookup o.path w.tree) w).1 in
      ground (arith, current_digest-tree o.path (lookup o.path w.tree) w, conflicts_of-tree os v)

  current_digest-early :
      (path : String) (e : Option Entry) (w : World) (x : ApplyError)
      → (current_digest sha256 escapes s path e w).0 ≡ err x
      → is_early x ≡ true
  unfolding current_digest
  current_digest-early path none w x h = cc
  current_digest-early path (some (file c)) w x h = ground arith
  current_digest-early path (some (other y)) w x h = cc

  conflicts_of-early :
      (os : List ChangeOperation) (w : World) (x : ApplyError)
      → (conflicts_of sha256 escapes s os w).0 ≡ err x
      → is_early x ≡ true
  unfolding conflicts_of
  conflicts_of-early [] w x h = cc
  conflicts_of-early (o ∷ os) w x h =
      let v = (current_digest sha256 escapes s o.path (lookup o.path w.tree) w).1 in
      ground
        (arith, current_digest-early o.path (lookup o.path w.tree) w x, conflicts_of-early os v x)

  pub verify-tree :
      (os : List ChangeOperation) (w : World)
      → (verify_before_digests sha256 escapes s os w).1.tree ≡ w.tree
  unfolding verify_before_digests
  verify-tree os w = ground (arith, conflicts_of-tree os w)

  pub verify-early :
      (os : List ChangeOperation) (w : World) (x : ApplyError)
      → (verify_before_digests sha256 escapes s os w).0 ≡ err x
      → is_early x ≡ true
  unfolding verify_before_digests
  verify-early os w x h = ground (arith, conflicts_of-early os w x)

  -- The digest of an entry of the tree.
  abbrev pub digest_of : Option Entry → String
  unfolding content_digest
  digest_of none = content_digest sha256 none
  digest_of (some (file content)) = content_digest sha256 (some content)
  digest_of (some (other x)) = "not-a-file"

  current_digest-ok :
      (path : String) (e : Option Entry) (w : World) (d : String)
      → (current_digest sha256 escapes s path e w).0 ≡ ok d
      → d ≡ digest_of e
  unfolding current_digest digest_of
  current_digest-ok path none w d h = ground arith
  current_digest-ok path (some (file c)) w d h = ground arith
  current_digest-ok path (some (other x)) w d h = ground arith

  conflicts_of-first :
      (q : ChangeOperation) (os : List ChangeOperation) (w : World)
      → (conflicts_of sha256 escapes s (q ∷ os) w).0 ≡ ok []
      → (escapes q.path ≡ false)
        × ((current_digest sha256 escapes s q.path (lookup q.path w.tree) w).0 ≡ ok q.before_digest)
        × (digest_of (lookup q.path w.tree) ≡ q.before_digest)
        × ((conflicts_of sha256 escapes s os
              (current_digest sha256 escapes s q.path (lookup q.path w.tree) w).1).0
            ≡ ok [])
  unfolding conflicts_of
  conflicts_of-first q os w h =
      let v = (current_digest sha256 escapes s q.path (lookup q.path w.tree) w).1 in
      elim (Result-cases (current_digest sha256 escapes s q.path (lookup q.path w.tree) w).0) [
        | inr (e, failed) ↦ ground arith
        | inl (d, known) ↦ elim (Result-cases (conflicts_of sha256 escapes s os v).0) [
          | inr (e, failed) ↦ ground arith
          | inl (rest, found) ↦
              let digest = current_digest-ok q.path (lookup q.path w.tree) w d known in
              (
                ground arith,
                ground (arith, eq_iff d q.before_digest),
                ground (arith, eq_iff d q.before_digest, digest),
                ground arith,
              )
        ]
      ]

  conflicts_of-fresh :
      (os : List ChangeOperation) (w : World) (o : ChangeOperation)
      → (conflicts_of sha256 escapes s os w).0 ≡ ok []
      → In o os
      → (escapes o.path ≡ false) × (digest_of (lookup o.path w.tree) ≡ o.before_digest)
  unfolding conflicts_of
  conflicts_of-fresh [] w o h i = elim i [ ]
  conflicts_of-fresh (q ∷ os) w o h i =
      let v = (current_digest sha256 escapes s q.path (lookup q.path w.tree) w).1 in
      let (inside, known, same, rest) = conflicts_of-first q os w h in
      elim i [
        | inl e ↦
            subst
              (λ (x : ChangeOperation).
                (escapes x.path ≡ false) × (digest_of (lookup x.path w.tree) ≡ x.before_digest))
              (sym e) (inside, same)
        | inr j ↦
            subst
              (λ (t : Dict Entry).
                (escapes o.path ≡ false) × (digest_of (lookup o.path t) ≡ o.before_digest))
              (current_digest-tree q.path (lookup q.path w.tree) w)
              (conflicts_of-fresh os v o rest j)
      ]

  -- A change set is applied only to the tree that was reviewed: no path leads out of the root, and what
  -- stands at each path, unchanged operations included, has the digest of its operation's old content.
  pub apply_changeset-fresh :
      (c : ChangeSet) (w : World) (r : ApplyResult) (o : ChangeOperation)
      → (apply_changeset sha256 escapes s c w).0 ≡ ok r
      → In o c.operations
      → (escapes o.path ≡ false) × (digest_of (lookup o.path w.tree) ≡ o.before_digest)
  unfolding apply_changeset verify_before_digests
  apply_changeset-fresh c w r o h i =
      elim (Result-cases (conflicts_of sha256 escapes s c.operations w).0) [
        | inr (e, failed) ↦ ground arith
        | inl ([], found) ↦ conflicts_of-fresh c.operations w o found i
        | inl (x ∷ xs, found) ↦ ground arith
      ]
