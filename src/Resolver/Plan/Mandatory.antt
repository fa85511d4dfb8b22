-- ===== src/Resolver/Plan/Mandatory.antt =====
-- What an organization makes mandatory is required, and answered in the plan.
use local_skill_orchestrator.Prelude.{
  ◌≤◌, String, ◌≡◌, refl, sym, ap, subst, ◌∙◌, inl, inr, false, Option, none, some, List, [], ◌∷◌,
  ◌++◌, In, In-append_right, In-append_left, In-sorted_set, sorted_set, ◌==◌, string_Eq, string_Ord,
  ==→eq, ==_refl, lookup, insert, lookup-insert, lookup→In, insert-In, values, In-map, arith,
  Bool-cases, Option-cases, is_nonempty,
}
use local_skill_orchestrator.Prelude.Results.{Result, ok, bind-ok, ok_inj}
use local_skill_orchestrator.Practices.Packs.{
  CapabilityRequirement, PracticePack, AbstractCapabilityRequirement,
}
use local_skill_orchestrator.Resolver.Policy.{OrgPolicy, ResolverPolicy}
use local_skill_orchestrator.Resolver.Plan.{
  strength_order, added, Requirements, add_item, add_items, by_capability, add_packs,
  with_mandatory_practice_packs,
}

-- A requirement answers for the item of a pack.
abbrev pub Upholds : String → CapabilityRequirement → AbstractCapabilityRequirement → Type 0
Upholds pack_id item r =
    (r.capability ≡ item.capability)
    × (strength_order item.strength ≤ strength_order r.strength)
    × In pack_id r.originating_packs

-- Every requirement stands under its capability.
abbrev AreNamed : Requirements → Type 0
AreNamed d = (p : String × AbstractCapabilityRequirement) → In p d → p.1.capability ≡ p.0

abbrev Demands : String → CapabilityRequirement → Requirements → Type 0
Demands pack_id item d =
    (r : AbstractCapabilityRequirement) × (lookup item.capability d ≡ some r)
    × Upholds pack_id item r

insert-AreNamed :
    (r : AbstractCapabilityRequirement) (k : String) (d : Requirements)
    → r.capability ≡ k
    → AreNamed d
    → AreNamed (insert k r d)
insert-AreNamed r k d e h p i = elim (insert-In k r d p i) [
  | inl q ↦ ap (λ x. x.1.capability) q ∙ (e ∙ sym (ap (λ x. x.0) q))
  | inr j ↦ h p j
]

added-capability :
    (pack_id : String) (item : CapabilityRequirement) (d : Requirements)
    → AreNamed d
    → (added pack_id item (lookup item.capability d)).capability ≡ item.capability
unfolding added
added-capability pack_id item d h = elim (Option-cases (lookup item.capability d)) [
  | inl missing ↦ rw missing refl
  | inr (r, there) ↦ rw there (h (item.capability, r) (lookup→In item.capability r d there))
]

add_item-AreNamed :
    (pack_id : String) (item : CapabilityRequirement) (d : Requirements)
    → AreNamed d
    → AreNamed (add_item pack_id item d)
unfolding add_item
add_item-AreNamed pack_id item d h =
    insert-AreNamed (added pack_id item (lookup item.capability d)) item.capability d
      (added-capability pack_id item d h) h

add_items-AreNamed :
    (pack_id : String) (items : List CapabilityRequirement) (d : Requirements)
    → AreNamed d
    → AreNamed (add_items pack_id items d)
unfolding add_items
add_items-AreNamed pack_id [] d h = h
add_items-AreNamed pack_id (item ∷ items) d h =
    add_items-AreNamed pack_id items (add_item pack_id item d) (add_item-AreNamed pack_id item d h)

by_capability-AreNamed :
    (rs : List AbstractCapabilityRequirement) (d : Requirements)
    → AreNamed d
    → AreNamed (by_capability rs d)
unfolding by_capability
by_capability-AreNamed [] d h = h
by_capability-AreNamed (r ∷ rs) d h =
    by_capability-AreNamed rs (insert r.capability r d) (insert-AreNamed r r.capability d refl h)

added-Upholds :
    (pack_id id : String) (item other : CapabilityRequirement) (r : AbstractCapabilityRequirement)
    → Upholds id other r
    → Upholds id other (added pack_id item (some r))
unfolding added
added-Upholds pack_id id item other r (named, strong, origin) = (
  named,
  ground (arith, strong),
  In-sorted_set id (r.originating_packs ++ (pack_id ∷ []))
      (In-append_left id r.originating_packs (pack_id ∷ []) origin),
)

-- Adding an item keeps what is demanded.
add_item-Demands :
    (pack_id id : String) (item other : CapabilityRequirement) (d : Requirements)
    → Demands id other d
    → Demands id other (add_item pack_id item d)
unfolding add_item
add_item-Demands pack_id id item other d (r, there, upheld) =
    elim (Bool-cases (item.capability == other.capability)) [
      | inl same ↦
          let at_item : lookup item.capability d ≡ some r =
            rw (==→eq item.capability other.capability same) there in
          rw at_item (
            added pack_id item (some r),
            lookup-insert item.capability other.capability (added pack_id item (some r)) d
                ∙ rw same refl,
            added-Upholds pack_id id item other r upheld,
          )
      | inr differ ↦ (
        r,
        lookup-insert item.capability other.capability
              (added pack_id item (lookup item.capability d)) d
            ∙ rw differ there,
        upheld,
      )
    ]

new-Upholds :
    (pack_id : String) (item : CapabilityRequirement) (o : Option AbstractCapabilityRequirement)
    → (added pack_id item o).capability ≡ item.capability
    → Upholds pack_id item (added pack_id item o)
unfolding added
new-Upholds pack_id item none e = (refl, omega arith, inl refl)
new-Upholds pack_id item (some r) e = (
  e,
  ground (arith),
  In-sorted_set pack_id (r.originating_packs ++ (pack_id ∷ []))
      (In-append_right pack_id r.originating_packs (pack_id ∷ []) (inl refl)),
)

added_item-Demands :
    (pack_id : String) (item : CapabilityRequirement) (d : Requirements)
    → AreNamed d
    → Demands pack_id item (add_item pack_id item d)
unfolding add_item
added_item-Demands pack_id item d h =
    let new = added pack_id item (lookup item.capability d) in
    (
      new,
      lookup-insert item.capability item.capability new d ∙ rw (==_refl item.capability) refl,
      new-Upholds pack_id item (lookup item.capability d) (added-capability pack_id item d h),
    )

add_items-Demands :
    (pack_id id : String) (items : List CapabilityRequirement) (other : CapabilityRequirement)
    (d : Requirements)
    → Demands id other d
    → Demands id other (add_items pack_id items d)
unfolding add_items
add_items-Demands pack_id id [] other d h = h
add_items-Demands pack_id id (item ∷ items) other d h =
    add_items-Demands pack_id id items other (add_item pack_id item d)
      (add_item-Demands pack_id id item other d h)

added_items-Demands :
    (id : String) (items : List CapabilityRequirement) (item : CapabilityRequirement)
    (d : Requirements)
    → AreNamed d
    → In item items
    → Demands id item (add_items id items d)
unfolding add_items
added_items-Demands id [] item d h i = elim i [ ]
added_items-Demands id (x ∷ xs) item d h (inl e) =
    add_items-Demands id id xs item (add_item id x d)
      (subst (λ y. Demands id y (add_item id x d)) (sym e) (added_item-Demands id x d h))
added_items-Demands id (x ∷ xs) item d h (inr i) =
    added_items-Demands id xs item (add_item id x d) (add_item-AreNamed id x d h) i

module _ {E : Type 0} (load : String → Result E PracticePack) where
  add_packs-Demands :
      (id : String) (ids : List String) (other : CapabilityRequirement) (d after : Requirements)
      → add_packs load ids d ≡ ok after
      → Demands id other d
      → Demands id other after
  unfolding add_packs
  add_packs-Demands id [] other d after h k = subst (Demands id other) (ok_inj h) k
  add_packs-Demands id (x ∷ ids) other d after h k =
      let (pack, loaded, rest) =
        bind-ok (load x) (λ p. add_packs load ids (add_items x p.requirements d)) h in
      add_packs-Demands id ids other (add_items x pack.requirements d) after rest
        (add_items-Demands x id pack.requirements other d k)

  added_packs-Demands :
      (id : String) (ids : List String) (pack : PracticePack) (item : CapabilityRequirement)
      (d after : Requirements)
      → add_packs load ids d ≡ ok after
      → In id ids
      → load id ≡ ok pack
      → In item pack.requirements
      → AreNamed d
      → Demands id item after
  unfolding add_packs
  added_packs-Demands id [] pack item d after h i l m n = elim i [ ]
  added_packs-Demands id (x ∷ ids) pack item d after h i l m n =
      let (read, loaded, rest) =
        bind-ok (load x) (λ p. add_packs load ids (add_items x p.requirements d)) h in
      elim i [
        | inl e ↦
            let same : read ≡ pack = ok_inj (sym loaded ∙ (ap load (sym e) ∙ l)) in
            let there : In item read.requirements =
              subst (λ p. In item p.requirements) (sym same) m in
            add_packs-Demands id ids item (add_items x read.requirements d) after rest (
              subst (λ y. Demands y item (add_items x read.requirements d)) (sym e)
                (added_items-Demands x read.requirements item d n there))
        | inr j ↦
            added_packs-Demands id ids pack item (add_items x read.requirements d) after rest j l m
              (add_items-AreNamed x read.requirements d n)
      ]

  -- A requirement of a mandatory pack that is upheld.
  abbrev pub IsUpheld : String → CapabilityRequirement → List AbstractCapabilityRequirement → Type 0
  IsUpheld id item requirements =
      (r : AbstractCapabilityRequirement) × In r requirements × Upholds id item r

  pub mandatory-IsUpheld :
      (requirements effective : List AbstractCapabilityRequirement) (policy : ResolverPolicy)
      (org : OrgPolicy) (id : String) (pack : PracticePack) (item : CapabilityRequirement)
      → with_mandatory_practice_packs load requirements policy ≡ ok effective
      → policy.org_policy ≡ some org
      → In id org.mandatory_practice_packs
      → load id ≡ ok pack
      → In item pack.requirements
      → IsUpheld id item effective
  unfolding with_mandatory_practice_packs
  mandatory-IsUpheld requirements effective policy org id pack item h o i l m =
      elim (Bool-cases (is_nonempty org.mandatory_practice_packs)) [
        | inr none_there ↦ absurd (no_member id org.mandatory_practice_packs none_there i)
        | inl some_there ↦
            let h1 = rw some_there at (rw o at h) in
            let (d, built, taken) =
              bind-ok
                (add_packs load (sorted_set org.mandatory_practice_packs)
                  (by_capability requirements []))
                (λ d. ok (values d)) h1 in
            let (r, there, upheld) =
              added_packs-Demands id (sorted_set org.mandatory_practice_packs) pack item
                (by_capability requirements []) d built
                (In-sorted_set id org.mandatory_practice_packs i) l m
                (by_capability-AreNamed requirements [] (λ p j. elim j [ ])) in
            (
              r,
              subst (In r) (ok_inj taken)
                  (In-map (λ p. p.1) (item.capability, r) d (lookup→In item.capability r d there)),
              upheld,
            )
      ]
    where
      no_member : (a : String) (xs : List String) → is_nonempty xs ≡ false → In a xs → ⊥
      no_member a [] e j = elim j [ ]
      no_member a (x ∷ xs) e j = cc
