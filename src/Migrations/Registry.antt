-- ===== src/Migrations/Registry.antt =====
-- `MigrationRegistry` of src/vibe/migrations/registry.py. A payload is the fields of a YAML mapping; the
-- digest of a payload is an argument. A migration is a function that may raise and may return anything.
pub mod Chains
pub mod Trails
use local_skill_orchestrator.Prelude.{
  ℕ, zero, suc, ◌+◌, String, ◌≡◌, refl, Bool, true, false, not, ◌&&◌, ◌||◌, Option, none, some,
  is_some, List, [], ◌∷◌, ◌++◌, if◌then◌else◌, ◌==◌, string_Eq, Dict, lookup, insert, values,
  nat_eq, ltb, max,
}
use local_skill_orchestrator.Prelude.Json.{Json, string, object, Fields, end, field, get_field}
use local_skill_orchestrator.Prelude.Results.{Result, ok, err, ◌>>=◌, ◌>>◌, require}
use local_skill_orchestrator.Migrations.Versions.{is_numeric, number, show}

pub data ArtifactKind : Type 0 where
  practice_pack capability_manifest generated_config : ArtifactKind

abbrev pub kind_value : ArtifactKind → String
kind_value practice_pack = "practice-pack"
kind_value capability_manifest = "capability-manifest"
kind_value generated_config = "generated-config"

-- The errors of a migration, and `raised`, what a migration's own code raises.
pub data MigrationError : Type 0 where
  not_numeric : MigrationError
  future_version : String → String → MigrationError
  missing_migration : String → String → MigrationError
  not_a_mapping : MigrationError
  wrong_version : String → String → MigrationError
  raised : String → MigrationError

-- The errors of a registration.
pub data RegisterError : Type 0 where
  bad_version : RegisterError
  not_contiguous : RegisterError
  duplicate_migration : RegisterError

abbrev pub Migration : Type 0
Migration = Fields → Result MigrationError Json

pub record Step : Type 0 where
  pub to_version : String
  pub migration : Migration

-- `_migrations`, by the value of the kind and the version a step starts from
abbrev pub Registry : Type 0
Registry = Dict (Dict Step)

pub record MigrationProvenance : Type 0 where
  pub from_version : String
  pub to_version : String
  pub digest_before : String
  pub digest_after : String

pub record MigrationResult : Type 0 where
  pub payload : Fields
  pub from_version : String
  pub to_version : String
  pub provenance : List MigrationProvenance

abbrev pub steps_of : Option (Dict Step) → Dict Step
steps_of none = []
steps_of (some steps) = steps

-- `register`
unfoldable pub register :
    ArtifactKind → String → String → Migration → Registry → Result RegisterError Registry
unfolding lookup insert is_numeric number
register kind from to migration registry = do
  require (is_numeric from && is_numeric to) bad_version
  require (nat_eq (number to) (number from + 1)) not_contiguous
  require (not (is_some (lookup from (steps_of (lookup (kind_value kind) registry)))))
      duplicate_migration
  ok (
      insert (kind_value kind)
        (insert from (record { to_version = to; migration = migration })
          (steps_of (lookup (kind_value kind) registry)))
        registry)

abbrev pub highest : Dict Step → ℕ
unfolding number
highest [] = 0
highest ((from, step) ∷ steps) = max (number step.to_version) (highest steps)

-- `latest_version`
unfoldable pub latest_version : Dict Step → Option String
unfolding show
latest_version [] = none
latest_version (s ∷ steps) = some (show (highest (s ∷ steps)))

abbrev version_text : Option Json → Result MigrationError String
unfolding is_numeric
version_text (some (string version)) = if is_numeric version then ok version else err not_numeric
version_text _ = err not_numeric

-- `_schema_version`
unfoldable pub schema_version : Fields → Result MigrationError String
unfolding is_numeric get_field
schema_version payload = version_text (get_field "schema_version" payload)

abbrev mapping : Json → Result MigrationError Fields
mapping (object fields) = ok fields
mapping _ = err not_a_mapping

abbrev found : String → String → Option Step → Result MigrationError Step
found current latest none = err (missing_migration current latest)
found current latest (some step) = ok step

module _ (digest : Fields → String) where
  -- One round of the loop: the migrated payload and its provenance.
  unfoldable pub migrate_once :
      String → Step → Fields → Result MigrationError (Fields × MigrationProvenance)
  unfolding schema_version
  migrate_once current step payload = do
    value ← step.migration payload
    migrated ← mapping value
    version ← schema_version migrated
    require (version == step.to_version) (wrong_version current step.to_version)
    ok (
      migrated,
      record {
        from_version = current;
        to_version = step.to_version;
        digest_before = digest payload;
        digest_after = digest migrated;
      },
    )

  abbrev after_once :
      (String → Fields → MigrationProvenance → Option (Result MigrationError MigrationResult))
      → Step
      → Result MigrationError (Fields × MigrationProvenance)
      → Option (Result MigrationError MigrationResult)
  after_once next step (err e) = some (err e)
  after_once next step (ok (migrated, made)) = next step.to_version migrated made

  abbrev after_found :
      (String → Fields → MigrationProvenance → Option (Result MigrationError MigrationResult))
      → String
      → Fields
      → Result MigrationError Step
      → Option (Result MigrationError MigrationResult)
  unfolding migrate_once
  after_found next current payload (err e) = some (err e)
  after_found next current payload (ok step) =
      after_once next step (migrate_once current step payload)

  -- `while current != latest`, on fuel: `none` means that the fuel ran out.
  unfoldable pub migrate_loop :
      ℕ
      → Dict Step
      → String
      → String
      → String
      → Fields
      → List MigrationProvenance
      → Option (Result MigrationError MigrationResult)
  unfolding lookup migrate_once after_found
  migrate_loop zero steps latest original current payload provenance = none
  migrate_loop (suc fuel) steps latest original current payload provenance =
      let next = λ (version : String) (migrated : Fields) (made : MigrationProvenance).
        migrate_loop fuel steps latest original version migrated (provenance ++ (made ∷ [])) in
      let continue =
        after_found next current payload (found current latest (lookup current steps)) in
      let finished : MigrationResult = record {
        payload = payload;
        from_version = original;
        to_version = current;
        provenance = provenance;
      } in
      if current == latest then some (ok finished) else continue

  abbrev from_latest :
      Option String → Dict Step → String → Fields → Option (Result MigrationError MigrationResult)
  unfolding migrate_loop number
  from_latest none steps original payload = some (
      ok (record {
        payload = payload;
        from_version = original;
        to_version = original;
        provenance = [];
      }))
  from_latest (some latest) steps original payload =
      let run = migrate_loop (suc (number latest)) steps latest original original payload [] in
      if ltb (number latest) (number original)
      then some (err (future_version original latest))
      else run

  abbrev versioned :
      Result MigrationError String
      → Dict Step
      → Fields
      → Option (Result MigrationError MigrationResult)
  unfolding from_latest latest_version
  versioned (err e) steps payload = some (err e)
  versioned (ok original) steps payload = from_latest (latest_version steps) steps original payload

  -- `migrate`
  unfoldable pub migrate :
      ArtifactKind → Fields → Registry → Option (Result MigrationError MigrationResult)
  unfolding schema_version versioned lookup
  migrate kind payload registry =
      versioned (schema_version payload) (steps_of (lookup (kind_value kind) registry)) payload

-- migrated[k] = v
abbrev set_field : String → Json → Fields → Fields
set_field k v end = field k v end
set_field k v (field j w fs) = if j == k then field j v fs else field j w (set_field k v fs)

-- `version_bump`
unfoldable pub version_bump : String → Result RegisterError Migration
unfolding is_numeric
version_bump to =
    if is_numeric to
    then ok (λ payload. ok (object (set_field "schema_version" (string to) payload)))
    else err bad_version
