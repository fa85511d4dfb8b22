-- ===== src/Remote/Discovery/Unique.antt =====
-- What deduplication leaves: one candidate for each identity, which stands for all of that identity.
use local_skill_orchestrator.Prelude.{
  String, ◌≡◌, ◌≢◌, refl, sym, ap, ap₂, subst, ◌∙◌, inl, inr, Option, none, some, some_inj, List,
  [], ◌∷◌, ◌++◌, In, All, All-In, All-of_In, In-map, map-In, append-In, In-append_left,
  In-append_right, In-sort_by, sort_by-In, on, str_leb, sort_by, ◌==◌, string_Eq, ==→eq, ==_refl,
  ==_false→ne, Dict, lookup, insert, values, lookup→In, insert-In, lookup-insert, arith, Bool-cases,
  Option-cases,
}
use local_skill_orchestrator.Remote.Models.{RemoteCandidate}
use local_skill_orchestrator.Remote.Discovery.{
  merge, identity, Groups, place, group, deduplicate, merged_with,
}
use local_skill_orchestrator.Remote.Discovery.Merged.{merge-identity, merge-IsAtLeast, IsAtLeast}

-- No key stands twice.
abbrev IsKeyed : {V : Type 0} → Dict V → Type 0
IsKeyed [] = Unit
IsKeyed ((j, w) ∷ d) = All (λ p. p.0 ≢ j) d × IsKeyed d

insert-IsKeyed : {V : Type 0} (k : String) (v : V) (d : Dict V) → IsKeyed d → IsKeyed (insert k v d)
unfolding insert
insert-IsKeyed k v [] h = (tt, tt)
insert-IsKeyed k v ((j, w) ∷ d) h = elim (Bool-cases (j == k)) [
  | inl same ↦ rw same h
  | inr differ ↦ rw differ (
    All-of_In (insert k v d) (λ p i. elim (insert-In k v d p i) [
      | inl e ↦ λ q. ==_false→ne j k differ (sym q ∙ ap (λ r. r.0) e)
      | inr l ↦ All-In (λ r. r.0 ≢ j) p d h.0 l
    ]),
    insert-IsKeyed k v d h.1,
  )
]

IsKeyed-eq :
    {V : Type 0} (k : String) (v w : V) (d : Dict V) → IsKeyed d → In (k, v) d → In (k, w) d → v ≡ w
IsKeyed-eq k v w [] h i j = elim i [ ]
IsKeyed-eq k v w (p ∷ d) h (inl e) (inl f) = ap (λ r. r.1) (e ∙ sym f)
IsKeyed-eq k v w (p ∷ d) h (inl e) (inr j) =
    absurd (All-In (λ r. r.0 ≢ p.0) (k, w) d h.0 j (ap (λ r. r.0) e))
IsKeyed-eq k v w (p ∷ d) h (inr i) (inl f) =
    absurd (All-In (λ r. r.0 ≢ p.0) (k, v) d h.0 i (ap (λ r. r.0) f))
IsKeyed-eq k v w (p ∷ d) h (inr i) (inr j) = IsKeyed-eq k v w d h.1 i j

IsAtLeast-refl : (a : RemoteCandidate) → IsAtLeast a a
IsAtLeast-refl a = ground (arith)

IsAtLeast-trans : (a b c : RemoteCandidate) → IsAtLeast a b → IsAtLeast b c → IsAtLeast a c
IsAtLeast-trans a b c h k = ground (arith, h, k)

module _ (casefold : String → String) where
  abbrev IsEntry : String × RemoteCandidate → Type 0
  IsEntry (i, c) = identity casefold c ≡ some i

  -- Every candidate of the groups stands under its identity.
  abbrev IsGrouped : Groups → Type 0
  IsGrouped g =
      IsKeyed g.by_identity
      × All IsEntry g.by_identity
      × All (λ c. identity casefold c ≡ none) g.unkeyed

  merged-IsEntry :
      (i : String) (c : RemoteCandidate) (d : Dict RemoteCandidate)
      → identity casefold c ≡ some i
      → All IsEntry d
      → identity casefold (merged_with (lookup i d) c) ≡ some i
  unfolding merged_with
  merged-IsEntry i c d e h = elim (Option-cases (lookup i d)) [
    | inl missing ↦ rw missing e
    | inr (b, there) ↦
        rw there
          (merge-identity casefold b c i (All-In IsEntry (i, b) d h (lookup→In i b d there)) e)
  ]

  place-IsGrouped :
      (o : Option String) (c : RemoteCandidate) (g : Groups)
      → identity casefold c ≡ o
      → IsGrouped g
      → IsGrouped (place o c g)
  unfolding place
  place-IsGrouped none c g e (keyed, entries, free) = (
    keyed,
    entries,
    All-of_In (g.unkeyed ++ (c ∷ [])) (λ b i. elim (append-In b g.unkeyed (c ∷ []) i) [
      | inl l ↦ All-In (λ x. identity casefold x ≡ none) b g.unkeyed free l
      | inr (inl q) ↦ ap (identity casefold) q ∙ e
      | inr (inr l) ↦ elim l [ ]
    ]),
  )
  place-IsGrouped (some i) c g e (keyed, entries, free) =
      let new = merged_with (lookup i g.by_identity) c in
      (
        insert-IsKeyed i new g.by_identity keyed,
        All-of_In (insert i new g.by_identity) (λ p l. elim (insert-In i new g.by_identity p l) [
          | inl q ↦ subst IsEntry (sym q) (merged-IsEntry i c g.by_identity e entries)
          | inr m ↦ All-In IsEntry p g.by_identity entries m
        ]),
        free,
      )

  group-IsGrouped :
      (cs : List RemoteCandidate) (g : Groups) → IsGrouped g → IsGrouped (group casefold cs g)
  unfolding group
  group-IsGrouped [] g h = h
  group-IsGrouped (c ∷ cs) g h =
      group-IsGrouped cs (place (identity casefold c) c g)
        (place-IsGrouped (identity casefold c) c g refl h)

  grouped-In :
      (g : Groups) (a : RemoteCandidate) (i : String)
      → IsGrouped g
      → In a (values g.by_identity ++ g.unkeyed)
      → identity casefold a ≡ some i
      → In (i, a) g.by_identity
  grouped-In g a i (keyed, entries, free) l e =
      elim (append-In a (values g.by_identity) g.unkeyed l) [
        | inr m ↦
            absurd (ground (arith, All-In (λ x. identity casefold x ≡ none) a g.unkeyed free m, e))
        | inl m ↦
            let (p, n, q) = map-In (λ r. r.1) a g.by_identity m in
            let entry : identity casefold p.1 ≡ some p.0 =
              All-In IsEntry p g.by_identity entries n in
            let key : p.0 ≡ i = some_inj (sym entry ∙ (ap (identity casefold) (sym q) ∙ e)) in
            subst (λ r. In r g.by_identity)
              (ap₂ (λ (x : String) (y : RemoteCandidate). (x, y)) key (sym q)) n
      ]

  abbrev no_groups : Groups
  no_groups = record { by_identity = []; unkeyed = [] }

  -- No two of the candidates that deduplication leaves have one identity.
  pub deduplicate-is_unique :
      (candidates : List RemoteCandidate) (a b : RemoteCandidate) (i : String)
      → In a (deduplicate casefold candidates)
      → In b (deduplicate casefold candidates)
      → identity casefold a ≡ some i
      → identity casefold b ≡ some i
      → a ≡ b
  unfolding deduplicate
  deduplicate-is_unique candidates a b i l m e f =
      let g = group casefold candidates no_groups in
      let leq = on (λ (c : RemoteCandidate). c.candidate_ref) str_leb in
      let h : IsGrouped g = group-IsGrouped candidates no_groups (tt, tt, tt) in
      IsKeyed-eq i a b g.by_identity h.0
        (grouped-In g a i h (sort_by-In leq a (values g.by_identity ++ g.unkeyed) l) e)
        (grouped-In g b i h (sort_by-In leq b (values g.by_identity ++ g.unkeyed) m) f)

  -- The candidate of an identity stands for another of that identity.
  abbrev Stands : Dict RemoteCandidate → RemoteCandidate → String → Type 0
  Stands d c i = (r : RemoteCandidate) × (lookup i d ≡ some r) × IsAtLeast r c

  insert-Stands :
      (d : Dict RemoteCandidate) (b c : RemoteCandidate) (i k : String)
      → Stands d c i
      → Stands (insert k (merged_with (lookup k d) b) d) c i
  unfolding merged_with
  insert-Stands d b c i k (r, there, least) = elim (Bool-cases (k == i)) [
    | inl same ↦
        let at_k : lookup k d ≡ some r = rw (==→eq k i same) there in
        rw at_k (
          merge r b,
          lookup-insert k i (merge r b) d ∙ rw same refl,
          IsAtLeast-trans (merge r b) r c (merge-IsAtLeast r b).0 least,
        )
    | inr differ ↦ (r, lookup-insert k i (merged_with (lookup k d) b) d ∙ rw differ there, least)
  ]

  -- A candidate is in the groups as it is, or another of its identity stands for it.
  abbrev Covers : Groups → RemoteCandidate → Option String → Type 0
  Covers g c none = In c g.unkeyed
  Covers g c (some i) = Stands g.by_identity c i

  place-Covers :
      (o w : Option String) (b c : RemoteCandidate) (g : Groups)
      → Covers g c w
      → Covers (place o b g) c w
  unfolding place
  place-Covers none none b c g h = In-append_left c g.unkeyed (b ∷ []) h
  place-Covers none (some i) b c g h = h
  place-Covers (some k) none b c g h = h
  place-Covers (some k) (some i) b c g h = insert-Stands g.by_identity b c i k h

  placed-Covers : (o : Option String) (c : RemoteCandidate) (g : Groups) → Covers (place o c g) c o
  unfolding place merged_with
  placed-Covers none c g = In-append_right c g.unkeyed (c ∷ []) (inl refl)
  placed-Covers (some i) c g = elim (Option-cases (lookup i g.by_identity)) [
    | inl missing ↦
        rw missing (c, lookup-insert i i c g.by_identity ∙ rw (==_refl i) refl, IsAtLeast-refl c)
    | inr (r, there) ↦ rw there (
      merge r c,
      lookup-insert i i (merge r c) g.by_identity ∙ rw (==_refl i) refl,
      (merge-IsAtLeast r c).1,
    )
  ]

  group-Covers :
      (cs : List RemoteCandidate) (c : RemoteCandidate) (w : Option String) (g : Groups)
      → Covers g c w
      → Covers (group casefold cs g) c w
  unfolding group
  group-Covers [] c w g h = h
  group-Covers (b ∷ cs) c w g h =
      group-Covers cs c w (place (identity casefold b) b g)
        (place-Covers (identity casefold b) w b c g h)

  grouped-Covers :
      (cs : List RemoteCandidate) (c : RemoteCandidate) (g : Groups)
      → In c cs
      → Covers (group casefold cs g) c (identity casefold c)
  unfolding group
  grouped-Covers [] c g i = elim i [ ]
  grouped-Covers (b ∷ cs) c g (inl e) = rw e (
      group-Covers cs b (identity casefold b) (place (identity casefold b) b g)
        (placed-Covers (identity casefold b) b g))
  grouped-Covers (b ∷ cs) c g (inr i) = grouped-Covers cs c (place (identity casefold b) b g) i

  -- The candidate in a list that stands for one of an identity, or the candidate itself where it has none.
  abbrev pub Represents : List RemoteCandidate → RemoteCandidate → Option String → Type 0
  Represents cs c none = In c cs
  Represents cs c (some i) =
      (r : RemoteCandidate) × In r cs × (identity casefold r ≡ some i) × IsAtLeast r c

  Covers-Represents :
      (g : Groups) (c : RemoteCandidate) (w : Option String)
      → IsGrouped g
      → Covers g c w
      → Represents
          (sort_by (on (λ x. x.candidate_ref) str_leb) (values g.by_identity ++ g.unkeyed))
          c
          w
  Covers-Represents g c none h i =
      In-sort_by _ c _ (In-append_right c (values g.by_identity) g.unkeyed i)
  Covers-Represents g c (some i) h (r, there, least) =
      let entry : In (i, r) g.by_identity = lookup→In i r g.by_identity there in
      (
        r,
        In-sort_by (on (λ x. x.candidate_ref) str_leb) r (values g.by_identity ++ g.unkeyed) (
            In-append_left r (values g.by_identity) g.unkeyed
              (In-map (λ p. p.1) (i, r) g.by_identity entry)),
        All-In IsEntry (i, r) g.by_identity h.1 entry,
        least,
      )

  -- Deduplication loses no candidate: one of its identity, with at least its numbers, is left.
  pub deduplicate-Represents :
      (candidates : List RemoteCandidate) (c : RemoteCandidate)
      → In c candidates
      → Represents (deduplicate casefold candidates) c (identity casefold c)
  unfolding deduplicate
  deduplicate-Represents candidates c i =
      Covers-Represents (group casefold candidates no_groups) c (identity casefold c)
        (group-IsGrouped candidates no_groups (tt, tt, tt))
        (grouped-Covers candidates c no_groups i)
