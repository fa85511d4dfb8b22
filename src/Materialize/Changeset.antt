-- ===== src/Materialize/Changeset.antt =====
-- src/vibe/materialize/changeset.py with ownership.py: the change set of a project's files. The files
-- are a dictionary by path; the root of a change set, which is the same directory in all calls, is left
-- out. `escapes` says which paths the symbolic links of the file system lead out of the root, and
-- `unreadable` which files cannot be opened or are not UTF-8 text.
pub mod Build
use local_skill_orchestrator.Prelude.{
  ℕ, String, Bool, true, false, not, ◌&&◌, ◌||◌, Option, none, some, is_some, List, [], ◌∷◌, map,
  any, all, member, is_nonempty, is_distinct, if◌then◌else◌, ◌==◌, string_Eq, Dict, lookup, sort_by,
  str_leb, on,
}
use local_skill_orchestrator.Prelude.Json.{
  Json, null, string, array, object, Items, nil, cons, end, field,
}
use local_skill_orchestrator.Prelude.Results.{Result, ok, err, ◌>>=◌, ◌>>◌, require, map_result}

pub data FileOwnership : Type 0 where
  owned managed observed : FileOwnership

pub data ChangeKind : Type 0 where
  create update delete unchanged : ChangeKind

pub data Sensitivity : Type 0 where
  normal sensitive : Sensitivity

pub record ChangeProposal : Type 0 where
  pub path : String
  pub desired_content : Option String
  pub ownership : FileOwnership
  pub source : String
  pub reason : String
  pub sensitivity : Sensitivity

-- `CommandProposal`, and `CommandOperation`, which has the same fields
pub record CommandOperation : Type 0 where
  pub argv : List String
  pub source : String
  pub reason : String

pub record ChangeOperation : Type 0 where
  pub path : String
  pub kind : ChangeKind
  pub ownership : FileOwnership
  pub before_content : Option String
  pub after_content : Option String
  pub before_digest : String
  pub after_digest : String
  pub source : String
  pub reason : String
  pub sensitivity : Sensitivity

pub record ChangeSet : Type 0 where
  pub operations : List ChangeOperation
  pub commands : List CommandOperation
  pub digest : String

pub data ChangeError : Type 0 where
  duplicate_path : String → ChangeError
  path_escapes : String → ChangeError
  ownership_violation : String → ChangeError
  -- the OSError or UnicodeDecodeError of a file's read
  read_error : String → ChangeError
  validation_error : ChangeError

abbrev pub ownership_value : FileOwnership → String
ownership_value owned = "owned"
ownership_value managed = "managed"
ownership_value observed = "observed"

abbrev pub kind_value : ChangeKind → String
kind_value create = "create"
kind_value update = "update"
kind_value delete = "delete"
kind_value unchanged = "unchanged"

abbrev pub sensitivity_value : Sensitivity → String
sensitivity_value normal = "normal"
sensitivity_value sensitive = "sensitive"

abbrev pub is_observed : FileOwnership → Bool
is_observed observed = true
is_observed _ = false

abbrev pub is_managed : FileOwnership → Bool
is_managed managed = true
is_managed _ = false

abbrev pub is_unchanged : ChangeKind → Bool
is_unchanged unchanged = true
is_unchanged _ = false

abbrev pub same_kind : ChangeKind → ChangeKind → Bool
same_kind a b = kind_value a == kind_value b

-- `_change_kind`
unfoldable pub change_kind : Option String → Option String → ChangeKind
change_kind none none = unchanged
change_kind none (some after) = create
change_kind (some before) none = delete
change_kind (some before) (some after) = if before == after then unchanged else update

abbrev text_or_null : Option String → Json
text_or_null none = null
text_or_null (some s) = string s

abbrev texts : List String → Items
texts [] = nil
texts (s ∷ ss) = cons (string s) (texts ss)

-- operation.model_dump(mode="json")
abbrev operation_json : ChangeOperation → Json
operation_json o = object (
    field "schema_version" (string "1") (
      field "path" (string o.path) (
        field "kind" (string (kind_value o.kind)) (
          field "ownership" (string (ownership_value o.ownership)) (
            field "before_content" (text_or_null o.before_content) (
              field "after_content" (text_or_null o.after_content) (
                field "before_digest" (string o.before_digest) (
                  field "after_digest" (string o.after_digest) (
                    field "source" (string o.source) (
                      field "reason" (string o.reason) (
                        field "sensitivity" (string (sensitivity_value o.sensitivity))
                          end)))))))))))

abbrev command_json : CommandOperation → Json
command_json c = object (
    field "schema_version" (string "1") (
      field "argv" (array (texts c.argv))
        (field "source" (string c.source) (field "reason" (string c.reason) end))))

abbrev items : List Json → Items
items [] = nil
items (x ∷ xs) = cons x (items xs)

-- The value that `_changeset_digest` writes and hashes.
unfoldable pub changeset_payload : List ChangeOperation → List CommandOperation → Json
changeset_payload operations commands = object (
    field "operations" (array (items (map operation_json operations)))
      (field "commands" (array (items (map command_json commands))) end))

-- `paths != sorted(paths)`
unfoldable pub is_sorted : List String → Bool
is_sorted [] = true
is_sorted (p ∷ []) = true
is_sorted (p ∷ q ∷ ps) = str_leb p q && is_sorted (q ∷ ps)

-- The first proposal whose path an earlier one has.
unfoldable pub duplicate_of : List String → List ChangeProposal → Option String
duplicate_of seen [] = none
duplicate_of seen (p ∷ ps) =
    let rest = duplicate_of (p.path ∷ seen) ps in if member p.path seen then some p.path else rest

module _ (sha256 : String → String) where
  unfoldable pub absent_digest : String
  absent_digest = sha256 "<absent>"

  -- `_content_digest`
  unfoldable pub content_digest : Option String → String
  unfolding absent_digest
  content_digest none = absent_digest
  content_digest (some content) = sha256 content

  -- `content_and_digests_are_consistent`
  unfoldable pub operation_is_consistent : ChangeOperation → Bool
  unfolding content_digest change_kind
  operation_is_consistent o =
      o.before_digest == content_digest o.before_content
      && (o.after_digest == content_digest o.after_content
          && (same_kind o.kind (change_kind o.before_content o.after_content)
              && not (is_observed o.ownership && not (is_unchanged o.kind))))

  abbrev operation_of : ChangeProposal → Option String → Option String → ChangeOperation
  unfolding content_digest change_kind
  operation_of p before after = record {
    path = p.path;
    kind = change_kind before after;
    ownership = p.ownership;
    before_content = before;
    after_content = after;
    before_digest = content_digest before;
    after_digest = content_digest after;
    source = p.source;
    reason = p.reason;
    sensitivity = p.sensitivity;
  }

  -- ChangeOperation(...), with the validator
  unfoldable pub new_operation : ChangeOperation → Result ChangeError ChangeOperation
  unfolding operation_is_consistent
  new_operation o = if operation_is_consistent o then ok o else err validation_error

module _ (json_digest : Json → String) where
  -- `operations_are_unique_sorted_and_digest_matches`
  unfoldable pub changeset_is_valid : ChangeSet → Bool
  unfolding is_sorted is_distinct changeset_payload
  changeset_is_valid c =
      let paths = map (λ (o : ChangeOperation). o.path) c.operations in
      is_sorted paths
      && (is_distinct paths && c.digest == json_digest (changeset_payload c.operations c.commands))

  unfoldable pub new_changeset : ChangeSet → Result ChangeError ChangeSet
  unfolding changeset_is_valid
  new_changeset c = if changeset_is_valid c then ok c else err validation_error

module _ (sha256 : String → String) (escapes unreadable : String → Bool) where
  -- `_build_operation`
  unfoldable pub build_operation : Dict String → ChangeProposal → Result ChangeError ChangeOperation
  unfolding lookup new_operation
  build_operation files p =
      let before = lookup p.path files in
      if escapes p.path
      then err (path_escapes p.path)
      else if is_some before && unreadable p.path
      then err (read_error p.path)
      else if is_observed p.ownership
      then new_operation sha256 (operation_of sha256 p before before)
      else if is_managed p.ownership && (is_some before && not (is_some p.desired_content))
      then err (ownership_violation p.path)
      else new_operation sha256 (operation_of sha256 p before p.desired_content)

abbrev checked : Option String → Result ChangeError (Unit {0})
checked none = ok tt
checked (some path) = err (duplicate_path path)

abbrev by_path : List ChangeProposal → List ChangeProposal
by_path = sort_by (on (λ (p : ChangeProposal). p.path) str_leb)

unfoldable pub build_changeset :
    (sha256 : String → String) (json_digest : Json → String) (escapes unreadable : String → Bool)
    → Dict String
    → List ChangeProposal
    → List CommandOperation
    → Result ChangeError ChangeSet
unfolding duplicate_of build_operation new_changeset changeset_payload
build_changeset sha256 json_digest escapes unreadable files proposals commands = do
  checked (duplicate_of [] proposals)
  operations ← map_result (build_operation sha256 escapes unreadable files) (by_path proposals)
  new_changeset json_digest (record {
    operations = operations;
    commands = commands;
    digest = json_digest (changeset_payload operations commands);
  })
