-- ===== src/Migrations/Examples.antt =====
-- Migrations of src/vibe/migrations/registry.py, run.
use local_skill_orchestrator.Migrations.Versions.{number}
use local_skill_orchestrator.Prelude.{true, String, ◌≡◌, refl, some, lookup, is_some, [], ◌∷◌}
use local_skill_orchestrator.Prelude.Json.{string, object, Fields, end, field}
use local_skill_orchestrator.Prelude.Results.{ok, err}
use local_skill_orchestrator.Migrations.Registry.{
  generated_config, kind_value, not_contiguous, missing_migration, future_version, Migration,
  Registry, MigrationResult, steps_of, register, latest_version, migrate,
}
use local_skill_orchestrator.Migrations.Registry.Chains.{IsContiguous, register-IsContiguous}
use local_skill_orchestrator.Migrations.Registry.Trails.{
  migrate-is_some, IsMigration, migrate-IsMigration,
}

abbrev digest : Fields → String
digest end = ""
digest (field k (string v) fs) = v
digest (field k v fs) = k

abbrev versioned : String → Fields
versioned v = field "schema_version" (string v) (field "name" (string "demo") end)

abbrev bump : String → Migration
bump to payload = ok (object (versioned to))

abbrev first_step : Registry
first_step =
    ("generated-config", ("1", record { to_version = "2"; migration = bump "2" }) ∷ []) ∷ []

abbrev two_steps : Registry
two_steps =
    (
      "generated-config",
      ("1", record { to_version = "2"; migration = bump "2" })
          ∷ ("2", record { to_version = "3"; migration = bump "3" })
          ∷ [],
    )
    ∷ []

abbrev migrated : MigrationResult
migrated = record {
  payload = versioned "3";
  from_version = "1";
  to_version = "3";
  provenance =
      record { from_version = "1"; to_version = "2"; digest_before = "1"; digest_after = "2" }
      ∷ record { from_version = "2"; to_version = "3"; digest_before = "2"; digest_after = "3" }
      ∷ [];
}

second_registered : register generated_config "2" "3" (bump "3") first_step ≡ ok two_steps
unfolding register
second_registered = refl

skip_refused : register generated_config "2" "4" (bump "4") first_step ≡ err not_contiguous
unfolding register
skip_refused = refl

two_migrated : migrate digest generated_config (versioned "1") two_steps ≡ some (ok migrated)
unfolding migrate
two_migrated = refl

future_refused :
    migrate digest generated_config (versioned "7") two_steps ≡ some (err (future_version "7" "3"))
unfolding migrate
future_refused = refl

-- A version spelled with a zero before it is not that of a step.
spelling_refused :
    migrate digest generated_config (versioned "01") two_steps
    ≡ some (err (missing_migration "01" "3"))
unfolding migrate
spelling_refused = refl

first_step-IsContiguous : IsContiguous first_step
unfolding local_skill_orchestrator.Migrations.Versions.number
first_step-IsContiguous = ((refl, tt), tt)

two_steps-IsContiguous : IsContiguous two_steps
unfolding local_skill_orchestrator.Migrations.Versions.number
two_steps-IsContiguous = ((refl, (refl, tt)), tt)

register-IsContiguous_example : IsContiguous two_steps
register-IsContiguous_example =
    register-IsContiguous generated_config "2" "3" (bump "3") first_step two_steps second_registered
      first_step-IsContiguous

migrate-is_some_example : is_some (migrate digest generated_config (versioned "1") two_steps) ≡ true
migrate-is_some_example =
    migrate-is_some digest generated_config (versioned "1") two_steps two_steps-IsContiguous

migrate-IsMigration_example :
    IsMigration digest
      (latest_version (steps_of (lookup (kind_value generated_config) two_steps)))
      (versioned "1")
      migrated
migrate-IsMigration_example =
    migrate-IsMigration digest generated_config (versioned "1") two_steps migrated two_migrated
      two_steps-IsContiguous
