-- ===== src/Resolver/Plan/Answers.antt =====
-- Every requirement of a plan is answered, and so is every requirement of a mandatory pack.
use local_skill_orchestrator.Prelude.{
  String, ◌≡◌, refl, sym, ap, subst, ◌∙◌, inl, inr, Bool, true, ◌&&◌, Option, some, some_inj, List,
  [], ◌∷◌, In, In-append_right, sort_by, In-sort_by, on, str_leb, arith, Bool-cases, Option-cases,
  is_nonempty, all, In-flat_map, filter, member, string_Eq,
}
use local_skill_orchestrator.Prelude.Results.{Result, ok, bind-ok, ok_inj}
use local_skill_orchestrator.Practices.Packs.{
  CapabilityRequirement, PracticePack, AbstractCapabilityRequirement,
}
use local_skill_orchestrator.Resolver.Policy.{
  AdapterScanResult, OrgPolicy, ResolverPolicy, hard_filter_reason,
}
use local_skill_orchestrator.Resolver.Local.{
  ContextValue, Reason, CapabilityResolution, Scored, resolution, by_resolution,
  contextually_ineligible, refused, rejected_of, eligible_of, ranking, gap_of, chosen,
  resolve_requirement, is_deferred,
}
use local_skill_orchestrator.Resolver.Plan.{
  with_mandatory_practice_packs, resolutions_of, resolve_local_capabilities,
}
use local_skill_orchestrator.Resolver.Plan.Mandatory.{IsUpheld, mandatory-IsUpheld}

-- A resolution of a capability is among the resolutions.
abbrev pub Answers : {R : Type 0} → String → List (CapabilityResolution R) → Type 0
Answers {R} capability resolutions =
    (x : CapabilityResolution R) × In x resolutions × (x.requirement ≡ capability)

module _ {R : Type 0} (context_of : AdapterScanResult → String → ContextValue)
    (reason_leb : Reason → Reason → Bool) (requirement : String) (platforms : List String)
    (policy : ResolverPolicy) where
  refused-requirement :
      (c : AdapterScanResult) (x : CapabilityResolution R)
      → refused R context_of reason_leb requirement platforms policy c ≡ some x
      → x.requirement ≡ requirement
  unfolding refused resolution
  refused-requirement c x h = elim (Option-cases (hard_filter_reason c platforms policy)) [
    | inr (reason, e) ↦ sym (ap (λ r. r.requirement) (some_inj (rw e at h)))
    | inl passed ↦ elim (Bool-cases (contextually_ineligible c (context_of c requirement))) [
      | inl out ↦ sym (ap (λ r. r.requirement) (some_inj (rw out at (rw passed at h))))
      | inr within ↦ ground (arith, rw within at (rw passed at h))
    ]
  ]

  rejected_of-Answers :
      (cs : List AdapterScanResult)
      → is_nonempty (rejected_of R context_of reason_leb requirement platforms policy cs) ≡ true
      → Answers requirement (rejected_of R context_of reason_leb requirement platforms policy cs)
  unfolding rejected_of
  rejected_of-Answers [] h = ground (arith, h)
  rejected_of-Answers (c ∷ cs) h =
      elim (Option-cases (refused R context_of reason_leb requirement platforms policy c)) [
        | inl free ↦ rw free (rejected_of-Answers cs (rw free at h))
        | inr (x, e) ↦ rw e (x, inl refl, refused-requirement c x e)
      ]

  chosen-Answers :
      (ws : List Scored) (rs : List (CapabilityResolution R)) (packs : List String)
      (recommendation : Option R)
      → (is_nonempty rs ≡ true → Answers requirement rs)
      → Answers requirement
          (chosen R context_of reason_leb requirement platforms policy ws rs packs recommendation)
  unfolding chosen resolution
  chosen-Answers (w ∷ ws) rs packs recommendation h = (_, inl refl, refl)
  chosen-Answers [] rs packs recommendation h =
      let order = by_resolution R context_of reason_leb in
      elim (Bool-cases
        (is_nonempty rs && all (λ (r : CapabilityResolution R). is_deferred r.status) rs)) [
          | inl deferred_all ↦
              let (x, i, e) = h (ground (arith, deferred_all)) in
              rw deferred_all (x, In-sort_by order x rs i, e)
          | inr others ↦ rw others (
            gap_of R context_of reason_leb requirement platforms policy packs recommendation,
            In-append_right _ (sort_by order rs) _ (inl refl),
            refl,
          )
        ]

  resolve_requirement-Answers :
      (cs : List AdapterScanResult) (packs : List String) (recommendation : Option R)
      → Answers requirement (
          resolve_requirement R context_of reason_leb requirement platforms policy cs packs
            recommendation)
  unfolding resolve_requirement
  resolve_requirement-Answers cs packs recommendation =
      chosen-Answers
        (sort_by ranking (eligible_of R context_of reason_leb requirement platforms policy cs))
        (rejected_of R context_of reason_leb requirement platforms policy cs) packs recommendation
        (rejected_of-Answers cs)

module _ {E R : Type 0} (load : String → Result E PracticePack)
    (context_of : AdapterScanResult → String → ContextValue) (reason_leb : Reason → Reason → Bool)
    (recommend : AbstractCapabilityRequirement → Option R) where
  -- A plan has a resolution, be it a gap, for every requirement of every pack that the organization makes
  -- mandatory, and the requirement that it answers is at least as strong as the pack's and names the pack.
  pub plan-Answers :
      (requirements : List AbstractCapabilityRequirement) (inventory : List AdapterScanResult)
      (platforms : List String) (policy : ResolverPolicy) (plan : List (CapabilityResolution R))
      (org : OrgPolicy) (id : String) (pack : PracticePack) (item : CapabilityRequirement)
      → resolve_local_capabilities load R context_of reason_leb recommend requirements inventory
          platforms policy
        ≡ ok plan
      → policy.org_policy ≡ some org
      → In id org.mandatory_practice_packs
      → load id ≡ ok pack
      → In item pack.requirements
      → Answers item.capability plan
        × ((effective : List AbstractCapabilityRequirement) × (with_mandatory_practice_packs load
                requirements policy
              ≡ ok effective)
            × IsUpheld load id item effective)
  unfolding resolve_local_capabilities resolutions_of
  plan-Answers requirements inventory platforms policy plan org id pack item h o i l m =
      let order = on (λ (r : AbstractCapabilityRequirement). r.capability) str_leb in
      let (effective, made, planned) =
        bind-ok (with_mandatory_practice_packs load requirements policy) _ h in
      let (r, there, upheld) =
        mandatory-IsUpheld load requirements effective policy org id pack item made o i l m in
      let (x, j, e) =
        resolve_requirement-Answers context_of reason_leb r.capability platforms policy
          (sort_by (on (λ (c : AdapterScanResult). c.manifest.capability_id) str_leb)
            (filter (λ (c : AdapterScanResult). member r.capability c.manifest.provides) inventory))
          r.originating_packs (recommend r) in
      (
        (
          x,
          subst (In x) (ok_inj planned) (
              In-flat_map
                (resolutions_of load R context_of reason_leb recommend inventory platforms policy) x
                r (sort_by order effective) (In-sort_by order r effective there) j),
          e ∙ upheld.0,
        ),
        (effective, made, (r, there, upheld)),
      )
