-- ===== src/Materialize/Examples.antt =====
-- A concrete change of a project, at which the theorems of the writer are applied.
use local_skill_orchestrator.Prelude.{
  ◌==◌, ℕ, String, str_append, ◌≡◌, refl, inl, Bool, true, false, Option, none, some, List, [], ◌∷◌,
  map, In, is_distinct, string_Eq, nat_eq, Dict, lookup,
}
use local_skill_orchestrator.Prelude.Json.{Json}
use local_skill_orchestrator.Prelude.Results.{ok}
use local_skill_orchestrator.Materialize.Changeset.{
  FileOwnership, owned, managed, observed, normal, ChangeProposal, ChangeOperation, ChangeSet,
  duplicate_of, build_changeset, update,
}
use local_skill_orchestrator.Materialize.Changeset.Build.{wanted, is_allowed, build_changeset-ok}
use local_skill_orchestrator.Materialize.Disk.{file, World, System}
use local_skill_orchestrator.Materialize.Writer.{
  ApplyResult, apply_changeset, mutable_of, tree_after,
}
use local_skill_orchestrator.Materialize.Writer.Verify.{digest_of, apply_changeset-fresh}
use local_skill_orchestrator.Materialize.Writer.Success.{content_at, entry_after}
use local_skill_orchestrator.Materialize.Writer.Atomic.{Outcome, apply_changeset-Outcome}

abbrev hash : String → String
hash s = str_append "#" s

abbrev json_hash : Json → String
json_hash j = "0123"

abbrev inside : String → Bool
inside path = false

-- One file that is not text, at another path.
abbrev no_text : String → Bool
no_text path = path == "logo.png"

abbrev proposal : String → FileOwnership → Option String → ChangeProposal
proposal path ownership content = record {
  path = path;
  desired_content = content;
  ownership = ownership;
  source = "template";
  reason = "set up";
  sensitivity = normal;
}

abbrev proposed : List ChangeProposal
proposed = proposal "b.md" managed (some "new") ∷ proposal "a.md" observed none ∷ []

abbrev on_disk : Dict String
on_disk = ("a.md", "kept") ∷ []

build_changeset-ok_example :
    (c : ChangeSet) × (build_changeset hash json_hash inside no_text on_disk proposed [] ≡ ok c)
    × (is_distinct (map (λ (o : ChangeOperation). o.path) c.operations) ≡ true)
    × ((p : ChangeProposal)
        → In p proposed
        → (o : ChangeOperation) × In o c.operations
          × (o.path ≡ p.path)
          × (o.before_content ≡ lookup p.path on_disk)
          × (o.after_content ≡ wanted on_disk p))
unfolding duplicate_of is_allowed
build_changeset-ok_example =
    build_changeset-ok hash json_hash inside no_text on_disk proposed [] refl refl

abbrev operation : String → Option String → String → ChangeOperation
operation path before after = record {
  path = path;
  kind = update;
  ownership = owned;
  before_content = before;
  after_content = some after;
  before_digest = elim before [ none ↦ "#<absent>" | some s ↦ hash s ];
  after_digest = hash after;
  source = "template";
  reason = "set up";
  sensitivity = normal;
}

abbrev changes : ChangeSet
changes = record {
  operations = operation "a.md" (some "old") "new" ∷ operation "b.md" none "more" ∷ [];
  commands = [];
  digest = "0123";
}

abbrev world : World
world = record {
  has_root = true;
  tree = ("a.md", file "old") ∷ [];
  stage = [];
  backup = [];
  installed = [];
  backed_up = [];
  calls = 0;
}

-- The call with the number `n` fails.
abbrev failing : ℕ → System
failing n = record {
  fails = nat_eq n;
  strays = λ m path. false;
  leaves = λ m path. true;
  command = λ argv tree. (true, tree);
}

apply_changeset-Outcome_example :
    Outcome
      (lookup "a.md" world.tree)
      (lookup "a.md" (tree_after (failing 11) changes.commands world.tree))
      (entry_after
        (content_at (mutable_of changes.operations) "a.md")
        (lookup "a.md" (tree_after (failing 11) changes.commands world.tree)))
      (lookup "a.md" (apply_changeset hash inside (failing 11) changes world).1.tree)
      (apply_changeset hash inside (failing 11) changes world).0
unfolding is_distinct
apply_changeset-Outcome_example =
    apply_changeset-Outcome hash inside (failing 11) changes world "a.md" refl

abbrev applied : ApplyResult
applied = record { changeset_digest = "0123"; applied_paths = "a.md" ∷ "b.md" ∷ [] }

apply_changeset-fresh_example :
    (inside "a.md" ≡ false)
    × (digest_of hash inside (failing 99) (lookup "a.md" world.tree) ≡ "#old")
unfolding apply_changeset
apply_changeset-fresh_example =
    apply_changeset-fresh hash inside (failing 99) changes world applied
      (operation "a.md" (some "old") "new") refl (inl refl)
