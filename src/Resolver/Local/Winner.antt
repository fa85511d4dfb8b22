-- ===== src/Resolver/Local/Winner.antt =====
-- The provider that is selected, and that every candidate is accounted for.
use local_skill_orchestrator.Prelude.{
  String, ◌≡◌, refl, sym, ap, subst, ◌∙◌, ◌≢◌, ◌⊎◌, inl, inr, Bool, true, false, not, ◌&&◌, Option,
  none, some, List, [], ◌∷◌, ◌++◌, map, filter, In, filter-In, In-filter, map-In, In-map, append-In,
  length, sort_by, sort_by-In, sort_by-head, is_some, is_nonempty, all, Bool-cases, Option-cases,
  arith, lex, lex-IsTotal, on, on-IsTotal, IsTotal, str_leb, str_leb-IsTotal, leb, leb_ℤ,
  leb_ℤ-IsTotal,
}
use local_skill_orchestrator.Resolver.Policy.{AdapterScanResult, ResolverPolicy, hard_filter_reason}
use local_skill_orchestrator.Resolver.Local.{
  ContextValue, selected, Reason, CapabilityResolution, Scored, points, ranking, resolution,
  by_resolution, refused, rejected_of, scored, eligible_of, lower, chosen, resolve_requirement,
  contextually_ineligible, is_deferred,
}

List-cases : {A : Type 0} (xs : List A) → (xs ≡ []) ⊎ ((x : A) × (ys : List A) × (xs ≡ x ∷ ys))
List-cases [] = inl refl
List-cases (x ∷ xs) = inr (x, xs, refl)

leb-IsTotal : IsTotal leb
leb-IsTotal = record { total = λ a b. ground arith; trans = λ a b c h k. ground arith }

ranking-IsTotal : IsTotal ranking
ranking-IsTotal =
    lex-IsTotal (λ a b. leb_ℤ (points b) (points a))
      (lex (on (λ (s : Scored). length s.candidate.manifest.permissions) leb)
        (on (λ (s : Scored). s.candidate.manifest.capability_id) str_leb))
      (record {
        total = λ a b. leb_ℤ-IsTotal.total (points b) (points a);
        trans = λ a b c h k. leb_ℤ-IsTotal.trans (points c) (points b) (points a) k h;
      })
      (lex-IsTotal (on (λ (s : Scored). length s.candidate.manifest.permissions) leb)
        (on (λ (s : Scored). s.candidate.manifest.capability_id) str_leb)
        (on-IsTotal (λ (s : Scored). length s.candidate.manifest.permissions) leb leb-IsTotal)
        (on-IsTotal (λ (s : Scored). s.candidate.manifest.capability_id) str_leb str_leb-IsTotal))

module _ (R : Type 0) (context_of : AdapterScanResult → String → ContextValue)
    (reason_leb : Reason → Reason → Bool) (requirement : String) (platforms : List String)
    (policy : ResolverPolicy) where
  -- A candidate that is not refused passes the hard filter and is in its context.
  refused-none :
      (c : AdapterScanResult)
      → refused R context_of reason_leb requirement platforms policy c ≡ none
      → (hard_filter_reason c platforms policy ≡ none)
        × (contextually_ineligible c (context_of c requirement) ≡ false)
  unfolding refused
  refused-none c h = ground arith

  refused-not-selected :
      (c : AdapterScanResult) (r : CapabilityResolution R)
      → refused R context_of reason_leb requirement platforms policy c ≡ some r
      → r.status ≢ selected
  unfolding refused resolution
  refused-not-selected c r h e = ground arith

  rejected_of-not-selected :
      (cs : List AdapterScanResult) (r : CapabilityResolution R)
      → In r (rejected_of R context_of reason_leb requirement platforms policy cs)
      → r.status ≢ selected
  unfolding rejected_of
  rejected_of-not-selected [] r h = elim h [ ]
  rejected_of-not-selected (c ∷ cs) r h =
      elim (Option-cases (refused R context_of reason_leb requirement platforms policy c)) [
        | inl kept ↦ rejected_of-not-selected cs r (rw kept at h)
        | inr (s, out) ↦ elim (rw out at h) [
          | inl e ↦ subst (λ x. x.status ≢ selected) (sym e) (refused-not-selected c s out)
          | inr k ↦ rejected_of-not-selected cs r k
        ]
      ]

  eligible_of-In :
      (cs : List AdapterScanResult) (s : Scored)
      → In s (eligible_of R context_of reason_leb requirement platforms policy cs)
      → (c : AdapterScanResult) × In c cs
        × (refused R context_of reason_leb requirement platforms policy c ≡ none)
        × (s ≡ scored R context_of reason_leb requirement platforms policy c)
  unfolding eligible_of
  eligible_of-In cs s h =
      let (c, i, e) =
        map-In (scored R context_of reason_leb requirement platforms policy) s
          (filter
            (λ c. not (is_some (refused R context_of reason_leb requirement platforms policy c)))
            cs)
          h in
      let (j, t) =
        filter-In
          (λ c. not (is_some (refused R context_of reason_leb requirement platforms policy c))) c cs
          i in
      (c, j, none_of (refused R context_of reason_leb requirement platforms policy c) t, e)
    where
      none_of : (o : Option (CapabilityResolution R)) → not (is_some o) ≡ true → o ≡ none
      none_of none t = refl
      none_of (some r) t = cc

  In-eligible_of :
      (cs : List AdapterScanResult) (d : AdapterScanResult)
      → In d cs
      → refused R context_of reason_leb requirement platforms policy d ≡ none
      → In
          (scored R context_of reason_leb requirement platforms policy d)
          (eligible_of R context_of reason_leb requirement platforms policy cs)
  unfolding eligible_of
  In-eligible_of cs d i e =
      In-map (scored R context_of reason_leb requirement platforms policy) d
        (filter
          (λ c. not (is_some (refused R context_of reason_leb requirement platforms policy c))) cs)
        (In-filter
          (λ c. not (is_some (refused R context_of reason_leb requirement platforms policy c))) d cs
          i (rw e refl))

  abbrev eligible : List AdapterScanResult → List Scored
  eligible cs = eligible_of R context_of reason_leb requirement platforms policy cs

  abbrev refusals : List AdapterScanResult → List (CapabilityResolution R)
  refusals cs = rejected_of R context_of reason_leb requirement platforms policy cs

  -- Behind the selected resolution there is none that is selected.
  rest-not-selected :
      (cs : List AdapterScanResult) (w : Scored) (ws : List Scored) (r : CapabilityResolution R)
      → In r (
          sort_by
            (by_resolution R context_of reason_leb)
            (refusals cs ++ map (lower R context_of reason_leb requirement platforms policy w) ws))
      → r.status ≢ selected
  unfolding lower resolution
  rest-not-selected cs w ws r h =
      elim (append-In r (refusals cs)
        (map (lower R context_of reason_leb requirement platforms policy w) ws)
        (sort_by-In (by_resolution R context_of reason_leb) r
          (refusals cs ++ map (lower R context_of reason_leb requirement platforms policy w) ws)
          h)) [
            | inl l ↦ rejected_of-not-selected cs r l
            | inr k ↦
                let (s, i, e) =
                  map-In (lower R context_of reason_leb requirement platforms policy w) r ws k in
                λ p. ground arith
          ]

  -- Without an eligible candidate nothing is selected.
  none-not-selected :
      (cs : List AdapterScanResult) (packs : List String) (recommendation : Option R)
      (r : CapabilityResolution R)
      → In r (
          chosen R context_of reason_leb requirement platforms policy []
            (refusals cs)
            packs
            recommendation)
      → r.status ≢ selected
  unfolding chosen
  none-not-selected cs packs recommendation r h =
      elim (Bool-cases (
        is_nonempty (refusals cs)
        && all (λ (x : CapabilityResolution R). is_deferred x.status) (refusals cs))) [
          | inl t ↦
              rejected_of-not-selected cs r
                (sort_by-In (by_resolution R context_of reason_leb) r (refusals cs) (rw t at h))
          | inr f ↦
              elim (append-In r (sort_by (by_resolution R context_of reason_leb) (refusals cs)) _
                (rw f at h)) [
                  | inl l ↦
                      rejected_of-not-selected cs r
                        (sort_by-In (by_resolution R context_of reason_leb) r (refusals cs) l)
                  | inr (inl e) ↦ λ p. ground arith
                  | inr (inr k) ↦ elim k [ ]
                ]
        ]

  chosen-selected :
      (cs : List AdapterScanResult) (w : Scored) (ws : List Scored) (packs : List String)
      (recommendation : Option R) (r : CapabilityResolution R)
      → r.status ≡ selected
      → In r (
          chosen R context_of reason_leb requirement platforms policy
            (w ∷ ws)
            (refusals cs)
            packs
            recommendation)
      → r.capability_id ≡ some w.candidate.manifest.capability_id
  unfolding chosen resolution
  chosen-selected cs w ws packs recommendation r status (inl e) =
      ap (λ (x : CapabilityResolution R). x.capability_id) e
  chosen-selected cs w ws packs recommendation r status (inr m) =
      absurd (rest-not-selected cs w ws r m status)

  winner-In :
      (cs : List AdapterScanResult) (w : Scored) (ws : List Scored)
      → sort_by ranking (eligible cs) ≡ w ∷ ws
      → In w (eligible cs)
  winner-In cs w ws e = sort_by-In ranking w (eligible cs) (subst (In w) (sym e) (inl refl))

  -- A selected resolution names a candidate that passes the hard filter and is in its context, and no
  -- candidate `d` that does so too is ranked before it: by points, then by fewer permissions, then by
  -- the identifier.
  pub resolve_requirement-selected :
      (candidates : List AdapterScanResult) (packs : List String) (recommendation : Option R)
      (r : CapabilityResolution R) (d : AdapterScanResult)
      → In r (
          resolve_requirement R context_of reason_leb requirement platforms policy candidates packs
            recommendation)
      → r.status ≡ selected
      → In d candidates
      → refused R context_of reason_leb requirement platforms policy d ≡ none
      → (c : AdapterScanResult) × In c candidates
        × (r.capability_id ≡ some c.manifest.capability_id)
        × (hard_filter_reason c platforms policy ≡ none)
        × (contextually_ineligible c (context_of c requirement) ≡ false)
        × (ranking
              (scored R context_of reason_leb requirement platforms policy c)
              (scored R context_of reason_leb requirement platforms policy d)
            ≡ true)
  unfolding resolve_requirement
  resolve_requirement-selected cs packs recommendation r d h status i fine =
      elim (List-cases (sort_by ranking (eligible cs))) [
        | inl none_left ↦
            absurd (none-not-selected cs packs recommendation r (rw none_left at h) status)
        | inr (w, ws, e) ↦
            let (c, j, kept, same) = eligible_of-In cs w (winner-In cs w ws e) in
            let (passes, fits) = refused-none c kept in
            (
              c,
              j,
              chosen-selected cs w ws packs recommendation r status (rw e at h)
                  ∙ ap (λ (s : Scored). some s.candidate.manifest.capability_id) same,
              passes,
              fits,
              subst
                  (λ s.
                    ranking s (scored R context_of reason_leb requirement platforms policy d)
                    ≡ true)
                  same
                  (sort_by-head ranking ranking-IsTotal w ws (eligible cs) e
                    (scored R context_of reason_leb requirement platforms policy d)
                    (In-eligible_of cs d i fine)),
            )
      ]

  -- A selected resolution names a candidate that passes the hard filter and is in its context.
  pub selected-eligible :
      (candidates : List AdapterScanResult) (packs : List String) (recommendation : Option R)
      (r : CapabilityResolution R)
      → In r (
          resolve_requirement R context_of reason_leb requirement platforms policy candidates packs
            recommendation)
      → r.status ≡ selected
      → (c : AdapterScanResult) × In c candidates
        × (r.capability_id ≡ some c.manifest.capability_id)
        × (contextually_ineligible c (context_of c requirement) ≡ false)
  unfolding resolve_requirement
  selected-eligible cs packs recommendation r h status =
      elim (List-cases (sort_by ranking (eligible cs))) [
        | inl none_left ↦
            absurd (none-not-selected cs packs recommendation r (rw none_left at h) status)
        | inr (w, ws, e) ↦
            let (c, j, kept, same) = eligible_of-In cs w (winner-In cs w ws e) in
            (
              c,
              j,
              chosen-selected cs w ws packs recommendation r status (rw e at h)
                  ∙ ap (λ (s : Scored). some s.candidate.manifest.capability_id) same,
              (refused-none c kept).1,
            )
      ]
