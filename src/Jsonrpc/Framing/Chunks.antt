-- ===== src/Jsonrpc/Framing/Chunks.antt =====
-- How the bytes are cut into chunks does not matter.
use local_skill_orchestrator.Prelude.{
  append_assoc, append-nil, ap₂, ℕ, zero, suc, ◌≤◌, ◌<◌, ◌≡◌, refl, sym, ap, ◌∙◌, inl, inr, Option,
  none, some, List, [], ◌∷◌, ◌++◌, length, nat_eq, if◌then◌else◌, Bool-cases, Option-cases, arith,
}
use local_skill_orchestrator.Prelude.Results.{Result, ok, err, Result-cases}
use local_skill_orchestrator.Jsonrpc.Framing.{
  newline, partition, routed, drain, ended, then_read, read_stdout,
}

abbrev pub concat : List (List ℕ) → List ℕ
concat [] = []
concat (x ∷ xs) = x ++ concat xs

abbrev to_first : ℕ → List (List ℕ) → List (List ℕ)
to_first b [] = (b ∷ []) ∷ []
to_first b (line ∷ lines) = (b ∷ line) ∷ lines

-- The lines of a stream, the last one without its newline.
abbrev pub lines_of : List ℕ → List (List ℕ)
lines_of [] = [] ∷ []
lines_of (b ∷ bs) = if nat_eq b newline then [] ∷ lines_of bs else to_first b (lines_of bs)

module _ {S E : Type 0} (route : List ℕ → S → Result E S) where
  abbrev next_lines : (S → Result E (Unit {0}) × S) → Result E S → S → Result E (Unit {0}) × S
  next_lines more (ok t) s = more t
  next_lines more (err e) s = (err e, s)

  -- The lines one by one, until one raises.
  abbrev pub route_lines : List (List ℕ) → S → Result E (Unit {0}) × S
  route_lines [] s = (ok tt, s)
  route_lines (line ∷ lines) s = next_lines (route_lines lines) (routed route line s) s

some_pair :
    (a b c d : List ℕ)
    → ◌≡◌ {A = Option (List ℕ × List ℕ)} (some (a, b)) (some (c, d))
    → (a ≡ c) × (b ≡ d)
some_pair a b c d h = ground arith

none-some : {A : Type 0} {a : A} → none ≡ some a → ⊥
none-some h = cc

some-none : {A : Type 0} {a : A} → some a ≡ none → ⊥
some-none h = cc

lines_of-partition :
    (buffer line rest tail : List ℕ)
    → partition buffer ≡ some (line, rest)
    → lines_of (buffer ++ tail) ≡ line ∷ lines_of (rest ++ tail)
unfolding partition
lines_of-partition [] line rest tail h = cc
lines_of-partition (b ∷ bs) line rest tail h = elim (Bool-cases (nat_eq b newline)) [
  | inl t ↦
      let (l, r) = some_pair [] bs line rest (rw t at h) in
      rw t (ap₂ (λ x y. x ∷ lines_of (y ++ tail)) l r)
  | inr f ↦ elim (Option-cases (partition bs)) [
    | inl e ↦ absurd (none-some (rw (f, e) at h))
    | inr ((line', rest'), e) ↦
        let (l, r) = some_pair (b ∷ line') rest' line rest (rw (f, e) at h) in
        rw (f, lines_of-partition bs line' rest' tail e) (ap₂ (λ x y. x ∷ lines_of (y ++ tail)) l r)
  ]
]

partition-length :
    (buffer line rest : List ℕ) → partition buffer ≡ some (line, rest) → length rest < length buffer
unfolding partition
partition-length [] line rest h = cc
partition-length (b ∷ bs) line rest h = elim (Bool-cases (nat_eq b newline)) [
  | inl t ↦ let (l, r) = some_pair [] bs line rest (rw t at h) in omega (arith, ap length r)
  | inr f ↦ elim (Option-cases (partition bs)) [
    | inl e ↦ absurd (none-some (rw (f, e) at h))
    | inr ((line', rest'), e) ↦
        let (l, r) = some_pair (b ∷ line') rest' line rest (rw (f, e) at h) in
        omega (arith, ap length r, partition-length bs line' rest' e)
  ]
]

lines_of-none : (buffer : List ℕ) → partition buffer ≡ none → lines_of buffer ≡ buffer ∷ []
unfolding partition
lines_of-none [] h = refl
lines_of-none (b ∷ bs) h = elim (Bool-cases (nat_eq b newline)) [
  | inl t ↦ absurd (some-none (rw t at h))
  | inr f ↦ elim (Option-cases (partition bs)) [
    | inl e ↦ rw (f, lines_of-none bs e) refl
    | inr ((line', rest'), e) ↦ absurd (some-none (rw (f, e) at h))
  ]
]

module _ {S E : Type 0} (route : List ℕ → S → Result E S) where
  -- What a drained buffer has to do with the routing of all lines, `all`.
  abbrev Drained : List ℕ → Result E (Unit {0}) × S → Result E (List ℕ) × S → Type 0
  Drained tail all (ok rest, t) =
      (partition rest ≡ none) × (all ≡ route_lines route (lines_of (rest ++ tail)) t)
  Drained tail all (err e, t) = all ≡ (err e, t)

  drain_lem :
      (n : ℕ) (buffer tail : List ℕ) (s : S)
      → length buffer ≤ n
      → Drained tail (route_lines route (lines_of (buffer ++ tail)) s) (drain route n buffer s)
  unfolding drain partition
  drain_lem zero [] tail s h = (refl, refl)
  drain_lem zero (b ∷ bs) tail s h = absurd (omega arith)
  drain_lem (suc n) buffer tail s h = elim (Option-cases (partition buffer)) [
    | inl e ↦ rw e (e, refl)
    | inr ((line, rest), e) ↦ elim (Result-cases (routed route line s)) [
      | inl (t, fine) ↦
          rw (e, fine, lines_of-partition buffer line rest tail e, fine)
            (drain_lem n rest tail t (omega (arith, partition-length buffer line rest e)))
      | inr (x, raised) ↦ rw (e, raised, lines_of-partition buffer line rest tail e, raised) refl
    ]
  ]

  last_line : (r : Result E S) (s : S) → ended r s ≡ next_lines route (λ t. (ok tt, t)) r s
  last_line (ok t) s = refl
  last_line (err e) s = refl

  then_read-Drained :
      (tail : List ℕ) (all : Result E (Unit {0}) × S) (next : List ℕ → S → Result E (Unit {0}) × S)
      (d : Result E (List ℕ) × S)
      → Drained tail all d
      → ((rest : List ℕ) (t : S)
          → partition rest ≡ none
          → next rest t ≡ route_lines route (lines_of (rest ++ tail)) t)
      → then_read next d ≡ all
  then_read-Drained tail all next (ok rest, t) h k = k rest t h.0 ∙ sym h.1
  then_read-Drained tail all next (err e, t) h k = sym h

  read_stdout_lem :
      (chunks : List (List ℕ)) (buffer : List ℕ) (s : S)
      → partition buffer ≡ none
      → read_stdout route chunks buffer s ≡ route_lines route (lines_of (buffer ++ concat chunks)) s
  unfolding read_stdout
  read_stdout_lem [] buffer s h =
      rw (append-nil buffer, lines_of-none buffer h) (last_line (routed route buffer s) s)
  read_stdout_lem (chunk ∷ chunks) buffer s h = rw (← append_assoc buffer chunk (concat chunks)) (
      then_read-Drained (concat chunks) _ (read_stdout route chunks)
        (drain route (length (buffer ++ chunk)) (buffer ++ chunk) s)
        (drain_lem (length (buffer ++ chunk)) (buffer ++ chunk) (concat chunks) s (omega arith))
        (λ rest t e. read_stdout_lem chunks rest t e))

  -- The result and the state do not depend on how the bytes are cut into chunks: the lines of the whole
  -- stream are routed in their order, those that hold no more than white space left out, until one of
  -- them raises.
  pub read_stdout-lines :
      (chunks : List (List ℕ)) (s : S)
      → read_stdout route chunks [] s ≡ route_lines route (lines_of (concat chunks)) s
  unfolding partition
  read_stdout-lines chunks s = read_stdout_lem chunks [] s refl
