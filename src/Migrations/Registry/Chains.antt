-- ===== src/Migrations/Registry/Chains.antt =====
-- A migration ends, and takes one version after the other.
use local_skill_orchestrator.Prelude.{
  ℕ, zero, suc, ◌+◌, ◌≤◌, ◌<◌, String, ◌≡◌, refl, ◌∙◌, sym, ap, subst, inl, inr, true, not, ◌&&◌,
  is_some, List, [], ◌∷◌, ◌++◌, All, In, All-In, ◌==◌, string_Eq, ==→eq, Dict, lookup, insert,
  lookup→In, insert-In, nat_eq, arith, Bool-cases, Option-cases,
}
use local_skill_orchestrator.Prelude.Json.{Fields}
use local_skill_orchestrator.Prelude.Results.{ok_inj, bind-ok, require-ok, ok, Result-cases}
use local_skill_orchestrator.Migrations.Versions.{is_numeric, number}
use local_skill_orchestrator.Migrations.Registry.{
  duplicate_migration, wrong_version, not_contiguous, mapping, bad_version, ArtifactKind,
  kind_value, Migration, Step, Registry, MigrationProvenance, steps_of, register, highest,
  schema_version, migrate_once, migrate_loop,
}

-- A step goes from one number to the next.
abbrev pub IsStep : String × Step → Type 0
IsStep (from, step) = number step.to_version ≡ number from + 1

abbrev AreContiguous : String × Dict Step → Type 0
AreContiguous (kind, steps) = All IsStep steps

-- The registries that registrations make.
abbrev pub IsContiguous : Registry → Type 0
IsContiguous registry = All AreContiguous registry

In-All : {A : Type 0} {P : A → Type 0} (xs : List A) → ((a : A) → In a xs → P a) → All P xs
In-All [] h = tt
In-All (x ∷ xs) h = (h x (inl refl), In-All xs (λ a i. h a (inr i)))

pub steps_of-IsStep :
    (kind : String) (registry : Registry)
    → IsContiguous registry
    → All IsStep (steps_of (lookup kind registry))
steps_of-IsStep kind registry h = elim (Option-cases (lookup kind registry)) [
  | inl e ↦ rw e tt
  | inr (steps, e) ↦
      rw e (All-In AreContiguous (kind, steps) registry h (lookup→In kind steps registry e))
]

insert-All :
    {V : Type 0} (P : String × V → Type 0) (k : String) (v : V) (d : Dict V)
    → P (k, v)
    → All P d
    → All P (insert k v d)
insert-All P k v d p h =
    In-All (insert k v d)
      (λ x i. elim (insert-In k v d x i) [ inl e ↦ subst P (sym e) p | inr j ↦ All-In P x d h j ])

-- A registration that succeeds keeps the registry contiguous: every step of every kind leads to the version
-- that follows its own.
pub register-IsContiguous :
    (kind : ArtifactKind) (from to : String) (m : Migration) (registry after : Registry)
    → register kind from to m registry ≡ ok after
    → IsContiguous registry
    → IsContiguous after
unfolding register
register-IsContiguous kind from to m registry after h c =
    let steps = steps_of (lookup (kind_value kind) registry) in
    let step : Step = record { to_version = to; migration = m } in
    let (numeric, h1) = require-ok (is_numeric from && is_numeric to) bad_version _ h in
    let (next, h2) = require-ok (nat_eq (number to) (number from + 1)) not_contiguous _ h1 in
    let (free, h3) = require-ok (not (is_some (lookup from steps))) duplicate_migration _ h2 in
    let grown : All IsStep (insert from step steps) =
      insert-All IsStep from step steps (ground (arith, next))
        (steps_of-IsStep (kind_value kind) registry c) in
    subst IsContiguous (ok_inj h3)
      (insert-All AreContiguous (kind_value kind) (insert from step steps) registry grown c)

-- No step leads beyond the highest version.
highest-le :
    (steps : Dict Step) (from : String) (step : Step)
    → In (from, step) steps
    → number step.to_version ≤ highest steps
unfolding number highest
highest-le [] from step i = elim i [ ]
highest-le ((k, s) ∷ steps) from step (inl e) =
    let same : number step.to_version ≡ number s.to_version = ap (λ p. number p.1.to_version) e in
    omega (arith, same)
highest-le ((k, s) ∷ steps) from step (inr i) = omega (arith, highest-le steps from step i)

module _ (digest : Fields → String) where
  abbrev pub provenance_of : String → Step → Fields → Fields → MigrationProvenance
  provenance_of current step payload migrated = record {
    from_version = current;
    to_version = step.to_version;
    digest_before = digest payload;
    digest_after = digest migrated;
  }

  pub migrate_once-version :
      (current : String) (step : Step) (payload migrated : Fields) (made : MigrationProvenance)
      → migrate_once digest current step payload ≡ ok (migrated, made)
      → (schema_version migrated ≡ ok step.to_version)
        × (made ≡ provenance_of current step payload migrated)
  unfolding migrate_once
  migrate_once-version current step payload migrated made h =
      let (value, ran, h1) = bind-ok (step.migration payload) _ h in
      let (fields, shaped, h2) = bind-ok (mapping value) _ h1 in
      let (version, read, h3) = bind-ok (schema_version fields) _ h2 in
      let (same, h4) =
        require-ok (version == step.to_version) (wrong_version current step.to_version) _ h3 in
      let equal : version ≡ step.to_version = ==→eq version step.to_version same in
      subst
        (λ r.
          (schema_version r.0 ≡ ok step.to_version)
          × (r.1 ≡ provenance_of current step payload r.0))
        (ok_inj h4) (read ∙ ap ok equal, refl)

  -- The loop ends before its fuel does.
  pub loop-is_some :
      (fuel : ℕ) (steps : Dict Step) (latest original current : String) (payload : Fields)
      (provenance : List MigrationProvenance)
      → All IsStep steps
      → number latest ≡ highest steps
      → number current ≤ number latest
      → number latest < number current + fuel
      → is_some (migrate_loop digest fuel steps latest original current payload provenance) ≡ true
  unfolding migrate_loop
  loop-is_some zero steps latest original current payload provenance c top le enough =
      absurd (omega arith)
  loop-is_some (suc fuel) steps latest original current payload provenance c top le enough =
      elim (Bool-cases (current == latest)) [
        | inl same ↦ rw same
        | inr differ ↦ elim (Option-cases (lookup current steps)) [
          | inl missing ↦ rw differ (rw missing)
          | inr (step, there) ↦
              let member : In (current, step) steps = lookup→In current step steps there in
              let next : number step.to_version ≡ number current + 1 =
                All-In IsStep (current, step) steps c member in
              let high : number step.to_version ≤ highest steps =
                highest-le steps current step member in
              elim (Result-cases (migrate_once digest current step payload)) [
                | inr (e, failed) ↦ rw differ (rw there (rw failed))
                | inl ((migrated, made), done) ↦ rw differ (
                    rw there (
                      rw done (
                        loop-is_some fuel steps latest original step.to_version migrated
                          (provenance ++ (made ∷ [])) c top (omega (arith, high, top))
                          (omega (arith, next, enough)))))
              ]
        ]
      ]
