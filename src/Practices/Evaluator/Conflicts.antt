-- ===== src/Practices/Evaluator/Conflicts.antt =====
-- The packs that are left after the conflicts.
use local_skill_orchestrator.Prelude.{
  String, ◌≡◌, sym, subst, ◌⊎◌, inl, inr, true, false, ◌&&◌, none, some, List, [], ◌∷◌, map, filter,
  In, In-map, In-filter, In-flat_map, In-sort_by, string_Eq, Dict, lookup, lookup→In, lookup-remove,
  keys, sort_by, str_leb, arith, Bool-cases, ==_refl,
}
use local_skill_orchestrator.Prelude.Results.{ok, Result-cases}
use local_skill_orchestrator.Practices.Packs.{PackConflict, PracticePack}
use local_skill_orchestrator.Practices.Evaluator.{
  Directive, directive, has, directives_of, apply_directive, apply_directives, apply_pack_conflicts,
  conflicts_of,
}

apply_directive-kept :
    (d : Directive) (selected left : Dict PracticePack) (x : String)
    → apply_directive d selected ≡ ok left
    → (lookup x left ≡ lookup x selected) ⊎ (lookup x left ≡ none)
unfolding apply_directive
apply_directive-kept d selected left x h =
    ground (arith, lookup-remove d.source x selected, lookup-remove d.target x selected)

apply_directive-apart :
    (d : Directive) (selected left : Dict PracticePack)
    → apply_directive d selected ≡ ok left
    → (has d.source left && has d.target left) ≡ false
unfolding apply_directive
apply_directive-apart d selected left h = ground (
  arith,
  lookup-remove d.source d.source selected,
  lookup-remove d.target d.target selected,
  ==_refl d.source,
  ==_refl d.target,
)

apply_directives-kept :
    (ds : List Directive) (selected left : Dict PracticePack) (x : String)
    → apply_directives ds selected ≡ ok left
    → (lookup x left ≡ lookup x selected) ⊎ (lookup x left ≡ none)
unfolding apply_directives
apply_directives-kept [] selected left x h = ground arith
apply_directives-kept (d ∷ ds) selected left x h =
    elim (Result-cases (apply_directive d selected)) [
      | inr (e, raised) ↦ ground arith
      | inl (middle, step) ↦ ground (
        arith,
        apply_directive-kept d selected middle x step,
        apply_directives-kept ds middle left x (rw step at h),
      )
    ]

apply_directives-apart :
    (ds : List Directive) (selected left : Dict PracticePack) (d : Directive)
    → apply_directives ds selected ≡ ok left
    → In d ds
    → (has d.source left && has d.target left) ≡ false
unfolding apply_directives
apply_directives-apart [] selected left d h i = elim i [ ]
apply_directives-apart (e ∷ ds) selected left d h i =
    elim (Result-cases (apply_directive e selected)) [
      | inr (x, raised) ↦ ground arith
      | inl (middle, step) ↦ elim i [
        | inr j ↦ apply_directives-apart ds middle left d (rw step at h) j
        | inl same ↦
            subst (λ (z : Directive). (has z.source left && has z.target left) ≡ false) (sym same)
              (ground (
                arith,
                apply_directive-apart e selected middle step,
                apply_directives-kept ds middle left e.source (rw step at h),
                apply_directives-kept ds middle left e.target (rw step at h),
              ))
      ]
    ]

In-directives_of :
    (applicable : Dict PracticePack) (id : String) (pack : PracticePack) (c : PackConflict)
    → lookup id applicable ≡ some pack
    → In c pack.conflicts
    → has c.pack_id applicable ≡ true
    → In (directive id c) (directives_of applicable)
unfolding directives_of
In-directives_of applicable id pack c here i there =
    In-flat_map
      (λ id. map (directive id) (
        filter (λ (c : PackConflict). has c.pack_id applicable)
          (conflicts_of (lookup id applicable))))
      (directive id c) id (sort_by str_leb (keys applicable))
      (In-sort_by str_leb id (keys applicable)
        (In-map (λ p. p.0) (id, pack) applicable (lookup→In id pack applicable here)))
      (In-map (directive id) c
        (filter (λ (c : PackConflict). has c.pack_id applicable)
          (conflicts_of (lookup id applicable)))
        (In-filter (λ (c : PackConflict). has c.pack_id applicable) c
          (conflicts_of (lookup id applicable)) (rw here i) there))

-- Where the conflicts of the applicable packs are settled without an error, every pack that is left is
-- the applicable pack of its identifier, and no pack that is left stands beside one with which it
-- declares a conflict.
pub apply_pack_conflicts-settled :
    (applicable left : Dict PracticePack) (id : String) (pack : PracticePack)
    → apply_pack_conflicts applicable ≡ ok left
    → lookup id left ≡ some pack
    → (lookup id applicable ≡ some pack)
      × ((c : PackConflict) → In c pack.conflicts → has c.pack_id left ≡ false)
unfolding apply_pack_conflicts
apply_pack_conflicts-settled applicable left id pack h here =
    let there : lookup id applicable ≡ some pack =
      ground (arith, apply_directives-kept (directives_of applicable) applicable left id h) in
    (
      there,
      λ c i. elim (Bool-cases (has c.pack_id applicable)) [
        | inl t ↦ ground (
          arith,
          apply_directives-apart (directives_of applicable) applicable left (directive id c) h
              (In-directives_of applicable id pack c there i t),
        )
        | inr f ↦
            ground
              (arith, apply_directives-kept (directives_of applicable) applicable left c.pack_id h)
      ],
    )
