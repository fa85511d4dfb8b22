-- ===== src/Materialize/Changeset/Build.antt =====
-- A change set is built from all proposals that the ownership of files allows.
use local_skill_orchestrator.Prelude.{
  String, ◌≡◌, refl, ap, inl, inr, Bool, true, false, not, ◌&&◌, ◌||◌, Option, none, some, is_some,
  List, [], ◌∷◌, map, all, In, In-map, In-sort_by, sort_by-In, all-In, member, is_distinct,
  if◌then◌else◌, ◌==◌, string_Eq, ==_refl, Dict, lookup, insert_by, sort_by, IsSorted,
  sort_by-IsSorted, str_leb, str_leb-IsTotal, on, on-IsTotal, arith, eq_iff,
}
use local_skill_orchestrator.Prelude.Json.{Json}
use local_skill_orchestrator.Prelude.Results.{Result, ok, map_result}
use local_skill_orchestrator.Materialize.Changeset.{
  kind_value, ChangeProposal, CommandOperation, ChangeOperation, ChangeSet, is_observed, is_managed,
  is_unchanged, change_kind, content_digest, changeset_payload, is_sorted, duplicate_of,
  operation_of, build_operation, new_changeset, by_path, build_changeset,
}

-- The content that a proposal asks for, where it may.
abbrev pub wanted : Dict String → ChangeProposal → Option String
unfolding lookup
wanted files p = if is_observed p.ownership then lookup p.path files else p.desired_content

-- A proposal that the root, the file that is there and the ownership allow.
unfoldable pub is_allowed : (String → Bool) → (String → Bool) → Dict String → ChangeProposal → Bool
unfolding lookup
is_allowed escapes unreadable files p =
    not (escapes p.path)
    && (not (is_some (lookup p.path files) && unreadable p.path)
        && not (
            is_managed p.ownership
            && (is_some (lookup p.path files) && not (is_some p.desired_content))))

map_result-ok :
    {E A B : Type 0} (f : A → Result E B) (g : A → B) (xs : List A)
    → ((x : A) → In x xs → f x ≡ ok (g x))
    → map_result f xs ≡ ok (map g xs)
map_result-ok f g [] h = refl
map_result-ok f g (x ∷ xs) h = rw (h x (inl refl), map_result-ok f g xs (λ y i. h y (inr i))) refl

abbrev proposal_path : ChangeProposal → String
proposal_path p = p.path

duplicate_of-member :
    (seen : List String) (ps : List ChangeProposal) (x : String)
    → duplicate_of seen ps ≡ none
    → member x seen ≡ true
    → member x (map proposal_path ps) ≡ false
unfolding duplicate_of
duplicate_of-member seen [] x h i = refl
duplicate_of-member seen (p ∷ ps) x h i =
    ground (arith, eq_iff x p.path, duplicate_of-member (p.path ∷ seen) ps x)

duplicate_of-is_distinct :
    (seen : List String) (ps : List ChangeProposal)
    → duplicate_of seen ps ≡ none
    → is_distinct (map proposal_path ps) ≡ true
unfolding duplicate_of is_distinct
duplicate_of-is_distinct seen [] h = refl
duplicate_of-is_distinct seen (p ∷ ps) h = ground (
  arith,
  ==_refl p.path,
  duplicate_of-is_distinct (p.path ∷ seen) ps,
  duplicate_of-member (p.path ∷ seen) ps p.path,
)

abbrev path_leb : ChangeProposal → ChangeProposal → Bool
path_leb = on proposal_path str_leb

member-insert_by :
    (x : String) (p : ChangeProposal) (ps : List ChangeProposal)
    → member x (map proposal_path (insert_by path_leb p ps))
      ≡ (x == p.path || member x (map proposal_path ps))
unfolding insert_by
member-insert_by x p [] = refl
member-insert_by x p (q ∷ ps) = ground (arith, member-insert_by x p ps)

insert_by-is_distinct :
    (p : ChangeProposal) (ps : List ChangeProposal)
    → is_distinct (map proposal_path ps) ≡ true
    → member p.path (map proposal_path ps) ≡ false
    → is_distinct (map proposal_path (insert_by path_leb p ps)) ≡ true
unfolding insert_by is_distinct
insert_by-is_distinct p [] d m = refl
insert_by-is_distinct p (q ∷ ps) d m = ground (
  arith,
  eq_iff p.path q.path,
  eq_iff q.path p.path,
  member-insert_by q.path p ps,
  insert_by-is_distinct p ps,
)

member-sort_by :
    (x : String) (ps : List ChangeProposal)
    → member x (map proposal_path (sort_by path_leb ps)) ≡ member x (map proposal_path ps)
unfolding sort_by
member-sort_by x [] = refl
member-sort_by x (p ∷ ps) =
    rw (member-insert_by x p (sort_by path_leb ps), member-sort_by x ps) refl

sort_by-is_distinct :
    (ps : List ChangeProposal)
    → is_distinct (map proposal_path ps) ≡ true
    → is_distinct (map proposal_path (sort_by path_leb ps)) ≡ true
unfolding sort_by is_distinct
sort_by-is_distinct [] d = refl
sort_by-is_distinct (p ∷ ps) d =
    insert_by-is_distinct p (sort_by path_leb ps) (sort_by-is_distinct ps (ground arith))
      (rw member-sort_by (ground arith))

IsSorted-is_sorted :
    (ps : List ChangeProposal) → IsSorted path_leb ps → is_sorted (map proposal_path ps) ≡ true
unfolding is_sorted
IsSorted-is_sorted [] s = refl
IsSorted-is_sorted (p ∷ []) s = refl
IsSorted-is_sorted (p ∷ q ∷ ps) s = rw (s.0.0, IsSorted-is_sorted (q ∷ ps) s.1) refl

module _ (sha256 : String → String) (json_digest : Json → String) (escapes : String → Bool)
    (unreadable : String → Bool) (files : Dict String) where
  abbrev operation_for : ChangeProposal → ChangeOperation
  unfolding lookup
  operation_for p = operation_of sha256 p (lookup p.path files) (wanted files p)

  change_kind_self : (e : Option String) → is_unchanged (change_kind e e) ≡ true
  unfolding change_kind
  change_kind_self none = refl
  change_kind_self (some s) = rw (==_refl s) refl

  build_operation-ok :
      (p : ChangeProposal)
      → is_allowed escapes unreadable files p ≡ true
      → build_operation sha256 escapes unreadable files p ≡ ok (operation_for p)
  unfolding build_operation is_allowed
  build_operation-ok p h =
      let before = lookup p.path files in
      let after = p.desired_content in
      ground (
        arith,
        ==_refl (content_digest sha256 before),
        ==_refl (content_digest sha256 after),
        ==_refl (kind_value (change_kind before before)),
        ==_refl (kind_value (change_kind before after)),
        change_kind_self before,
      )

  operations_of-paths :
      (ps : List ChangeProposal)
      → map (λ (o : ChangeOperation). o.path) (map operation_for ps) ≡ map proposal_path ps
  unfolding operation_for operation_of
  operations_of-paths [] = refl
  operations_of-paths (p ∷ ps) = ap (λ xs. p.path ∷ xs) (operations_of-paths ps)

  abbrev changeset_for : List ChangeProposal → List CommandOperation → ChangeSet
  unfolding changeset_payload
  changeset_for ps commands = record {
    operations = map operation_for (by_path ps);
    commands = commands;
    digest = json_digest (changeset_payload (map operation_for (by_path ps)) commands);
  }

  new_changeset-ok :
      (ps : List ChangeProposal) (commands : List CommandOperation)
      → duplicate_of [] ps ≡ none
      → new_changeset json_digest (changeset_for ps commands) ≡ ok (changeset_for ps commands)
  unfolding new_changeset
  new_changeset-ok ps commands h =
      rw
        (
          operations_of-paths (by_path ps),
          IsSorted-is_sorted (by_path ps)
              (sort_by-IsSorted path_leb (on-IsTotal proposal_path str_leb str_leb-IsTotal) ps),
          sort_by-is_distinct ps (duplicate_of-is_distinct [] ps h),
          ==_refl (json_digest (changeset_payload (map operation_for (by_path ps)) commands)),
        )
        refl

  -- Over proposals for different paths, each of which stays in the root, has no file that cannot be read
  -- there, and does not delete a managed file: the change set is built and passes its own validation; its
  -- operations have different paths; and it has for each proposal an operation at its path, from the content
  -- that the file has to the one that is wanted, which for an observed file is the same.
  pub build_changeset-ok :
      (ps : List ChangeProposal) (commands : List CommandOperation)
      → duplicate_of [] ps ≡ none
      → all (is_allowed escapes unreadable files) ps ≡ true
      → (c : ChangeSet) × (build_changeset sha256 json_digest escapes unreadable files ps commands
          ≡ ok c)
        × (is_distinct (map (λ (o : ChangeOperation). o.path) c.operations) ≡ true)
        × ((p : ChangeProposal)
            → In p ps
            → (o : ChangeOperation) × In o c.operations
              × (o.path ≡ p.path)
              × (o.before_content ≡ lookup p.path files)
              × (o.after_content ≡ wanted files p))
  unfolding build_changeset operation_for operation_of
  build_changeset-ok ps commands h allowed =
      let built : map_result (build_operation sha256 escapes unreadable files) (by_path ps)
          ≡ ok (map operation_for (by_path ps)) =
        map_result-ok (build_operation sha256 escapes unreadable files) operation_for (by_path ps)
          (λ p i. build_operation-ok p (
            all-In (is_allowed escapes unreadable files) p ps allowed
              (sort_by-In path_leb p ps i))) in
      (
        changeset_for ps commands,
        rw (h, built) (new_changeset-ok ps commands h),
        rw (operations_of-paths (by_path ps))
            (sort_by-is_distinct ps (duplicate_of-is_distinct [] ps h)),
        λ p i. (
          operation_for p,
          In-map operation_for p (by_path ps) (In-sort_by path_leb p ps i),
          refl,
          refl,
          refl,
        ),
      )
