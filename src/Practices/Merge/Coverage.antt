-- ===== src/Practices/Merge/Coverage.antt =====
-- No contribution of a pack is lost in the merge.
use local_skill_orchestrator.Prelude.{
  ==_refl, ==→eq, String, ◌≡◌, refl, sym, subst, ◌⊎◌, inl, inr, true, false, Option, none, some,
  List, [], ◌∷◌, ◌++◌, In, In-map, In-sort_by, In-append_left, In-append_right, if◌then◌else◌, ◌==◌,
  string_Eq, Dict, lookup, lookup→In, lookup-insert, insert, keys, sort_by, str_leb, lex, on, leb,
  ltb, arith, Bool-cases, Option-cases,
}
use local_skill_orchestrator.Prelude.Results.{ok, Result-cases}
use local_skill_orchestrator.Practices.Packs.{
  Fact, RequirementStrength, PracticePack, RequirementOverride, AbstractCapabilityRequirement,
}
use local_skill_orchestrator.Practices.Evaluator.{
  Contribution, strength_rank, applicable_packs, apply_pack_conflicts,
}
use local_skill_orchestrator.Practices.Merge.{
  cons_some, all_contributions, or_nothing, grouped, normalize_overrides, strongest,
  override_strength, is_disabled, ordered, merge_ordered, merge_requirement, merge_all,
  evaluate_practice_packs,
}

strongest-start :
    (s : RequirementStrength) (cs : List Contribution)
    → leb (strength_rank s) (strength_rank (strongest s cs)) ≡ true
unfolding strongest
strongest-start s [] = ground arith
strongest-start s (c ∷ cs) = elim (Bool-cases (ltb (strength_rank s) (strength_rank c.strength))) [
  | inl t ↦ rw t (ground (arith, strongest-start c.strength cs))
  | inr f ↦ rw f (strongest-start s cs)
]

strongest-In :
    (s : RequirementStrength) (c : Contribution) (cs : List Contribution)
    → In c cs
    → leb (strength_rank c.strength) (strength_rank (strongest s cs)) ≡ true
unfolding strongest
strongest-In s c [] i = elim i [ ]
strongest-In s c (d ∷ cs) (inr i) =
    strongest-In (if ltb (strength_rank s) (strength_rank d.strength) then d.strength else s) c cs i
strongest-In s c (d ∷ cs) (inl e) =
    subst
      (λ (z : Contribution).
        leb (strength_rank z.strength) (
          strength_rank (
            strongest (if ltb (strength_rank s) (strength_rank d.strength) then d.strength else s)
              cs))
        ≡ true)
      (sym e)
      (elim (Bool-cases (ltb (strength_rank s) (strength_rank d.strength))) [
        | inl t ↦ rw t (strongest-start d.strength cs)
        | inr f ↦ rw f (ground (arith, strongest-start s cs))
      ])

-- A requirement that holds what a contribution asks for.
abbrev pub Covers :
    Option RequirementOverride → Contribution → AbstractCapabilityRequirement → Type 0
Covers override c r =
    (r.capability ≡ c.capability)
    × In c.pack_id r.originating_packs
    × In c.requirement_id r.originating_requirements
    × (leb (strength_rank (override_strength override c.strength)) (strength_rank r.strength)
        ≡ true)

override_strength_mono :
    (override : Option RequirementOverride) (s t : RequirementStrength)
    → leb (strength_rank s) (strength_rank t) ≡ true
    → leb
        (strength_rank (override_strength override s))
        (strength_rank (override_strength override t))
      ≡ true
override_strength_mono none s t h = h
override_strength_mono (some o) s t h = elim (Option-cases o.strength) [
  | inl e ↦ rw e h
  | inr (u, e) ↦ rw e (ground arith)
]

merge_ordered-Covers :
    (c : Contribution) (cs : List Contribution) (override : Option RequirementOverride)
    → In c cs
    → (r : AbstractCapabilityRequirement) × (merge_ordered c.capability cs override ≡ ok (some r))
      × Covers override c r
unfolding merge_ordered
merge_ordered-Covers c [] override i = elim i [ ]
merge_ordered-Covers c (d ∷ cs) override i = (
  _,
  refl,
  (
    refl,
    In-map (λ (x : Contribution). x.pack_id) c (d ∷ cs) i,
    In-map (λ (x : Contribution). x.requirement_id) c (d ∷ cs) i,
    override_strength_mono override c.strength (strongest d.strength cs) (at_head i),
  ),
)
  where
    at_head :
        In c (d ∷ cs)
        → leb (strength_rank c.strength) (strength_rank (strongest d.strength cs)) ≡ true
    at_head (inl e) =
        subst
          (λ (z : Contribution).
            leb (strength_rank z.strength) (strength_rank (strongest d.strength cs)) ≡ true)
          (sym e) (strongest-start d.strength cs)
    at_head (inr j) = strongest-In d.strength c cs j

merge_requirement-Covers :
    (c : Contribution) (cs : List Contribution) (override : Option RequirementOverride)
    → In c cs
    → is_disabled override ≡ false
    → (r : AbstractCapabilityRequirement) × (merge_requirement c.capability cs override
        ≡ ok (some r))
      × Covers override c r
unfolding merge_requirement
merge_requirement-Covers c cs override i enabled = rw enabled (
    merge_ordered-Covers c (ordered cs) override (
      In-sort_by
        (lex (on (λ (c : Contribution). c.pack_id) str_leb)
          (on (λ (c : Contribution). c.requirement_id) str_leb))
        c cs i))

grouped-kept :
    (c : Contribution) (cs : List Contribution) (k : String) (found : Dict (List Contribution))
    → In c (or_nothing (lookup k found))
    → In c (or_nothing (lookup k (grouped cs found)))
unfolding grouped
grouped-kept c [] k found i = i
grouped-kept c (d ∷ cs) k found i =
    grouped-kept c cs k
      (insert d.capability (or_nothing (lookup d.capability found) ++ (d ∷ [])) found)
      (rw (lookup-insert d.capability k (or_nothing (lookup d.capability found) ++ (d ∷ [])) found)
        (elim (Bool-cases (d.capability == k)) [
          | inl t ↦ rw t (
              In-append_left c (or_nothing (lookup d.capability found)) (d ∷ [])
                (subst (λ j. In c (or_nothing (lookup j found))) (sym (==→eq d.capability k t)) i))
          | inr f ↦ rw f i
        ]))

grouped-In :
    (c : Contribution) (cs : List Contribution) (found : Dict (List Contribution))
    → In c cs
    → In c (or_nothing (lookup c.capability (grouped cs found)))
unfolding grouped
grouped-In c [] found i = elim i [ ]
grouped-In c (d ∷ cs) found (inr i) =
    grouped-In c cs (insert d.capability (or_nothing (lookup d.capability found) ++ (d ∷ [])) found)
      i
grouped-In c (d ∷ cs) found (inl e) =
    subst
      (λ (z : Contribution). In z (
        or_nothing (
          lookup z.capability (
            grouped cs
              (insert d.capability (or_nothing (lookup d.capability found) ++ (d ∷ [])) found)))))
      (sym e)
      (grouped-kept d cs d.capability
        (insert d.capability (or_nothing (lookup d.capability found) ++ (d ∷ [])) found)
        (rw
          (
            lookup-insert d.capability d.capability
                (or_nothing (lookup d.capability found) ++ (d ∷ [])) found,
            ==_refl d.capability,
          )
          (In-append_right d (or_nothing (lookup d.capability found)) (d ∷ []) (inl refl))))

In-keys :
    (c : Contribution) (k : String) (found : Dict (List Contribution))
    → In c (or_nothing (lookup k found))
    → In k (keys found)
In-keys c k found i = elim (Option-cases (lookup k found)) [
  | inl e ↦ elim (rw e at i) [ ]
  | inr (cs, e) ↦ In-map (λ p. p.0) (k, cs) found (lookup→In k cs found e)
]

In-cons_some :
    (o : Option AbstractCapabilityRequirement) (r : AbstractCapabilityRequirement)
    (rs : List AbstractCapabilityRequirement)
    → (o ≡ some r) ⊎ In r rs
    → In r (cons_some o rs)
In-cons_some none r rs (inl e) = cc
In-cons_some (some q) r rs (inl e) = inl (ground arith)
In-cons_some none r rs (inr i) = i
In-cons_some (some q) r rs (inr i) = inr i

merge_all-In :
    (found : Dict (List Contribution)) (overrides : Dict RequirementOverride)
    (capabilities : List String) (rs : List AbstractCapabilityRequirement) (k : String)
    (r : AbstractCapabilityRequirement)
    → merge_all found overrides capabilities ≡ ok rs
    → In k capabilities
    → merge_requirement k (or_nothing (lookup k found)) (lookup k overrides) ≡ ok (some r)
    → In r rs
unfolding merge_all
merge_all-In found overrides [] rs k r h i m = elim i [ ]
merge_all-In found overrides (j ∷ js) rs k r h i m =
    elim (Result-cases (merge_requirement j (or_nothing (lookup j found)) (lookup j overrides))) [
      | inr (x, raised) ↦ ground arith
      | inl (o, step) ↦ elim (Result-cases (merge_all found overrides js)) [
        | inr (x, raised) ↦ ground arith
        | inl (rest, tail) ↦
            let same : rs ≡ cons_some o rest = ground arith in
            rw same (
              In-cons_some o r rest (elim i [
                | inl e ↦ inl (ground (arith, m, step))
                | inr l ↦ inr (merge_all-In found overrides js rest k r tail l m)
              ]))
      ]
    ]

-- Where the packs are evaluated without an error, no contribution of a pack that is left after the
-- conflicts is lost: its capability is disabled by an override, or a requirement of the result has its
-- capability, names its pack and its requirement among the origins, and is at least as strong, or as
-- strong as the override says.
pub evaluate-Covers :
    (packs : List PracticePack) (facts : Dict Fact) (overrides : List RequirementOverride)
    (selected : Dict PracticePack) (override_map : Dict RequirementOverride)
    (rs : List AbstractCapabilityRequirement) (c : Contribution)
    → apply_pack_conflicts (applicable_packs facts packs []) ≡ ok selected
    → normalize_overrides overrides [] ≡ ok override_map
    → evaluate_practice_packs packs facts overrides ≡ ok rs
    → In c (all_contributions facts selected)
    → (is_disabled (lookup c.capability override_map) ≡ true)
      ⊎ ((r : AbstractCapabilityRequirement) × In r rs
          × Covers (lookup c.capability override_map) c r)
unfolding evaluate_practice_packs
evaluate-Covers packs facts overrides selected override_map rs c settled normal h i =
    elim (Bool-cases (is_disabled (lookup c.capability override_map))) [
      | inl t ↦ inl t
      | inr f ↦
          let found = grouped (all_contributions facts selected) [] in
          let j = grouped-In c (all_contributions facts selected) [] i in
          let (r, m, covers) =
            merge_requirement-Covers c (or_nothing (lookup c.capability found))
              (lookup c.capability override_map) j f in
          inr (
            r,
            merge_all-In found override_map (sort_by str_leb (keys found)) rs c.capability r
                (rw (settled, normal) at h)
                (In-sort_by str_leb c.capability (keys found) (In-keys c c.capability found j)) m,
            covers,
          )
    ]
