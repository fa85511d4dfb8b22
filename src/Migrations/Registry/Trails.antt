-- ===== src/Migrations/Registry/Trails.antt =====
-- The termination of `migrate`, and the trail that its provenance is.
use local_skill_orchestrator.Prelude.{
  append_assoc, append-nil, some_inj, ℕ, zero, suc, ◌+◌, String, ◌≡◌, refl, sym, ap, subst, ◌∙◌,
  ◌⊎◌, inl, inr, true, Option, none, some, is_some, List, [], ◌∷◌, ◌++◌, ◌==◌, string_Eq, ==→eq,
  lookup, ltb, arith, Bool-cases, Option-cases, Dict, All, All-In, lookup→In,
}
use local_skill_orchestrator.Prelude.Json.{Fields}
use local_skill_orchestrator.Prelude.Results.{ok, Result-cases, ok_inj}
use local_skill_orchestrator.Migrations.Versions.{number, number-show}
use local_skill_orchestrator.Migrations.Registry.{
  ArtifactKind, kind_value, Step, Registry, MigrationProvenance, MigrationResult, steps_of, highest,
  latest_version, schema_version, migrate_once, migrate_loop, migrate,
}
use local_skill_orchestrator.Migrations.Registry.Chains.{
  IsStep, IsContiguous, steps_of-IsStep, loop-is_some, migrate_once-version,
}

latest-highest :
    (steps : Dict Step) (latest : String)
    → latest_version steps ≡ some latest
    → number latest ≡ highest steps
unfolding latest_version
latest-highest [] latest h = ground (arith, h)
latest-highest (s ∷ steps) latest h =
    ap number (sym (some_inj h)) ∙ number-show (highest (s ∷ steps))

module _ (digest : Fields → String) where
  -- Migrating ends on every payload where the registrations made the registry.
  pub migrate-is_some :
      (kind : ArtifactKind) (payload : Fields) (registry : Registry)
      → IsContiguous registry
      → is_some (migrate digest kind payload registry) ≡ true
  unfolding migrate
  migrate-is_some kind payload registry c =
      let steps = steps_of (lookup (kind_value kind) registry) in
      elim (Result-cases (schema_version payload)) [
        | inr (e, bad) ↦ rw bad
        | inl (original, read) ↦ elim (Option-cases (latest_version steps)) [
          | inl empty ↦ rw read (rw empty)
          | inr (latest, top) ↦ elim (Bool-cases (ltb (number latest) (number original))) [
            | inl future ↦ rw read (rw top (rw future))
            | inr known ↦ rw read (
                rw top (
                  rw known (
                    loop-is_some digest (suc (number latest)) steps latest original original payload
                      [] (steps_of-IsStep (kind_value kind) registry c)
                      (latest-highest steps latest top) (ground (arith, known)) (omega arith))))
          ]
        ]
      ]

  -- The provenance leads from a version and a digest to the result's, one version at a time.
  abbrev pub IsTrail : String → String → List MigrationProvenance → MigrationResult → Type 0
  IsTrail version before [] result =
      (version ≡ result.to_version) × (before ≡ digest result.payload)
  IsTrail version before (p ∷ ps) result =
      (p.from_version ≡ version)
      × (number p.to_version ≡ number version + 1)
      × (p.digest_before ≡ before)
      × IsTrail p.to_version p.digest_after ps result

  -- What a run of the loop gives from a version, a payload and the provenance before.
  abbrev IsRun :
      String → String → String → Fields → List MigrationProvenance → MigrationResult → Type 0
  IsRun latest original current payload provenance result =
      (result.from_version ≡ original)
      × (result.to_version ≡ latest)
      × (schema_version result.payload ≡ ok result.to_version)
      × ((rest : List MigrationProvenance) × (result.provenance ≡ provenance ++ rest)
          × IsTrail current (digest payload) rest result)

  loop-IsRun :
      (fuel : ℕ) (steps : Dict Step) (latest original current : String) (payload : Fields)
      (provenance : List MigrationProvenance) (result : MigrationResult)
      → All IsStep steps
      → schema_version payload ≡ ok current
      → migrate_loop digest fuel steps latest original current payload provenance ≡ some (ok result)
      → IsRun latest original current payload provenance result
  unfolding migrate_loop
  loop-IsRun zero steps latest original current payload provenance result c read h =
      ground (arith, h)
  loop-IsRun (suc fuel) steps latest original current payload provenance result c read h =
      elim (Bool-cases (current == latest)) [
        | inl same ↦
            subst (IsRun latest original current payload provenance)
              (ok_inj (some_inj (rw same at h)))
              (
                refl,
                ==→eq current latest same,
                read,
                ([], sym (append-nil provenance), (refl, refl)),
              )
        | inr differ ↦ elim (Option-cases (lookup current steps)) [
          | inl missing ↦ ground (arith, rw missing at (rw differ at h))
          | inr (step, there) ↦
              let next : number step.to_version ≡ number current + 1 =
                All-In IsStep (current, step) steps c (lookup→In current step steps there) in
              elim (Result-cases (migrate_once digest current step payload)) [
                | inr (e, failed) ↦ ground (arith, rw failed at (rw there at (rw differ at h)))
                | inl ((migrated, made), done) ↦
                    let (version, written) =
                      migrate_once-version digest current step payload migrated made done in
                    let (started, ended, valid, (rest, split, trail)) =
                      loop-IsRun fuel steps latest original step.to_version migrated
                        (provenance ++ (made ∷ [])) result c version
                        (rw done at (rw there at (rw differ at h))) in
                    (
                      started,
                      ended,
                      valid,
                      (
                        made ∷ rest,
                        split ∙ append_assoc provenance (made ∷ []) rest,
                        subst (λ p. IsTrail current (digest payload) (p ∷ rest) result)
                            (sym written) (refl, next, refl, trail),
                      ),
                    )
              ]
        ]
      ]

  -- What a migration that returns promises, for the latest version that the registry knows.
  abbrev pub IsMigration : Option String → Fields → MigrationResult → Type 0
  IsMigration latest payload result =
      (schema_version payload ≡ ok result.from_version)
      × (schema_version result.payload ≡ ok result.to_version)
      × ((latest ≡ none) ⊎ (latest ≡ some result.to_version))
      × IsTrail result.from_version (digest payload) result.provenance result

  -- A migration that returns has reached the latest version, or the kind has no migration.
  pub migrate-IsMigration :
      (kind : ArtifactKind) (payload : Fields) (registry : Registry) (result : MigrationResult)
      → migrate digest kind payload registry ≡ some (ok result)
      → IsContiguous registry
      → IsMigration (latest_version (steps_of (lookup (kind_value kind) registry))) payload result
  unfolding migrate
  migrate-IsMigration kind payload registry result h c =
      let steps = steps_of (lookup (kind_value kind) registry) in
      elim (Result-cases (schema_version payload)) [
        | inr (e, bad) ↦ ground (arith, rw bad at h)
        | inl (original, read) ↦ elim (Option-cases (latest_version steps)) [
          | inl empty ↦
              subst (IsMigration (latest_version steps) payload)
                (ok_inj (some_inj (rw empty at (rw read at h))))
                (read, read, inl empty, (refl, refl))
          | inr (latest, top) ↦ elim (Bool-cases (ltb (number latest) (number original))) [
            | inl future ↦ ground (arith, rw future at (rw top at (rw read at h)))
            | inr known ↦
                let (started, ended, valid, (rest, split, trail)) =
                  loop-IsRun (suc (number latest)) steps latest original original payload [] result
                    (steps_of-IsStep (kind_value kind) registry c) read
                    (rw known at (rw top at (rw read at h))) in
                (
                  read ∙ ap ok (sym started),
                  valid,
                  inr (top ∙ ap some (sym ended)),
                  subst (λ v. IsTrail v (digest payload) result.provenance result) (sym started)
                      (subst (λ ps. IsTrail original (digest payload) ps result) (sym split) trail),
                )
          ]
        ]
      ]
