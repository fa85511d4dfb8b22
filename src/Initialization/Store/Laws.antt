-- ===== src/Initialization/Store/Laws.antt =====
-- What `SqliteCheckpointStore` promises: rows round trip, replacement is a compare-and-swap on the
-- revision, and the identifiers stay unique.
use local_skill_orchestrator.Prelude.{
  String, ◌≡◌, refl, sym, ap, ◌∙◌, ◌≢◌, ◌⊎◌, inl, inr, true, false, Option, none, some, [], ◌∷◌,
  arith, In, any-In, any_of_In, nat_eq, if◌then◌else◌, Bool-cases, not, ◌&&◌, ◌||◌, is_some, ◌==◌,
  string_Eq, eq_iff, ==→eq, ==_false→ne, ==_refl, lookup, insert, lookup-insert, lookup→In,
  insert-In,
}
use local_skill_orchestrator.Prelude.Json.{encode}
use local_skill_orchestrator.Initialization.State.{InitCheckpoint, conflict, not_found, ok, err}
use local_skill_orchestrator.Initialization.Store.{
  Row, Table, values, create, load, replace, replace_row, from_row, overwrite, has_checkpoint_id,
  taken_by_other,
}

-- Entries that share a checkpoint identifier belong to one run.
pub record IsUnique (t : Table) : Type 0 where
  pub one_run :
      (p q : String × Row) → In p t → In q t → p.1.checkpoint_id ≡ q.1.checkpoint_id → p.0 ≡ q.0

not-taken :
    (t : Table) (k : String) (r : Row)
    → IsUnique t
    → lookup k t ≡ some r
    → taken_by_other k r.checkpoint_id t ≡ false
not-taken t k r u h = elim (Bool-cases (taken_by_other k r.checkpoint_id t)) [
  | inl taken ↦
      let (p, i, e) =
        any-In (λ (p : String × Row). not (p.0 == k) && p.1.checkpoint_id == r.checkpoint_id) t
          taken in
      absurd (other p e (u.one_run p (k, r) i (lookup→In k r t h)))
  | inr free ↦ free
]
  where
    other :
        (p : String × Row)
        → (not (p.0 == k) && p.1.checkpoint_id == r.checkpoint_id) ≡ true
        → (p.1.checkpoint_id ≡ r.checkpoint_id → p.0 ≡ k)
        → ⊥
    other p e f = ground (arith, eq_iff p.0 k, eq_iff p.1.checkpoint_id r.checkpoint_id)

-- The keys' rows after a write to one of them.
pub lookup-other :
    (k j : String) (r : Row) (t : Table) → k ≢ j → lookup j (insert k r t) ≡ lookup j t
lookup-other k j r t n = rw (lookup-insert k j r t) (ground (arith, eq_iff k j))

pub lookup-same : (k : String) (r : Row) (t : Table) → lookup k (insert k r t) ≡ some r
lookup-same k r t = rw (lookup-insert k k r t) (ground (arith, eq_iff k k))

load-eq : (j : String) (t u : Table) → lookup j t ≡ lookup j u → load j t ≡ load j u
unfolding load
load-eq j t u h = rw (h, load) refl

pub load-some :
    (j : String) (r : Row) (t : Table) → lookup j t ≡ some r → load j t ≡ ok (from_row j r)
unfolding load
load-some j r t h = rw (h, load) refl

pub load-none : (j : String) (t : Table) → lookup j t ≡ none → load j t ≡ err (not_found j)
unfolding load
load-none j t h = rw (h, load) refl

pub load-insert :
    (k j : String) (r : Row) (t : Table)
    → load j (insert k r t) ≡ (if k == j then ok (from_row k r) else load j t)
load-insert k j r t = elim (Bool-cases (k == j)) [
  | inl e ↦ rw (e, ==→eq k j e) (load-some j r (insert j r t) (lookup-same j r t))
  | inr f ↦ rw f (load-eq j (insert k r t) t (lookup-other k j r t (==_false→ne k j f)))
]

-- A checkpoint of a new run and identifier is stored: it is read back with the keys of its confirmed
-- values sorted, and every other run is read as before. A run or an identifier that is there already
-- is a conflict, and every run is read as before.
pub create_lem :
    (c : InitCheckpoint) (t : Table) (j : String)
    → let clash = is_some (lookup c.run_id t) || has_checkpoint_id c.checkpoint_id t in
      ((create c t).0 ≡ (if clash then err (conflict c.run_id) else ok tt))
      × (load j (create c t).1 ≡ (
          if clash
          then load j t
          else if c.run_id == j
          then ok (record c { confirmed = encode c.confirmed })
          else load j t))
unfolding create values
create_lem c t j =
    elim (Bool-cases (is_some (lookup c.run_id t) || has_checkpoint_id c.checkpoint_id t)) [
      | inl clash ↦ rw clash (refl, refl)
      | inr free ↦ rw free (refl, load-insert c.run_id j (values c) t)
    ]

-- What a successful replacement found and did.
pub replace-eq-ok :
    (p c : InitCheckpoint) (t : Table)
    → (replace p c t).0 ≡ ok tt
    → (r : Row) × (lookup c.run_id t ≡ some r)
      × (r.revision ≡ p.revision)
      × ((replace p c t).1 ≡ insert c.run_id (overwrite r c) t)
unfolding replace replace_row
replace-eq-ok p c t done = by_row (lookup c.run_id t) done
  where
    by_row :
        (o : Option Row)
        → (replace_row o p c t).0 ≡ ok tt
        → (r : Row) × (o ≡ some r)
          × (r.revision ≡ p.revision)
          × ((replace_row o p c t).1 ≡ insert c.run_id (overwrite r c) t)
    by_row none h = cc
    by_row (some r) h = (r, refl, ground arith, ground arith)

pub replace-stale :
    (p c : InitCheckpoint) (r : Row) (t : Table)
    → lookup c.run_id t ≡ some r
    → r.revision ≢ p.revision
    → replace p c t ≡ (err (conflict c.run_id), t)
unfolding replace replace_row
replace-stale p c r t h n = rw h (ground arith)

-- The second of two writers that read one revision finds another revision, and changes nothing.
pub replace-replace :
    (p a b : InitCheckpoint) (t : Table)
    → (replace p a t).0 ≡ ok tt
    → a.run_id ≡ b.run_id
    → a.revision ≢ p.revision
    → replace p b (replace p a t).1 ≡ (err (conflict b.run_id), (replace p a t).1)
replace-replace p a b t done same newer =
    let (r, found, old, wrote) = replace-eq-ok p a t done in
    rw wrote (
      replace-stale p b (overwrite r a) (insert a.run_id (overwrite r a) t)
        (rw (← same) (lookup-same a.run_id (overwrite r a) t)) newer)

held_by_run :
    (k : String) (r : Row) (t : Table) (q : String × Row)
    → taken_by_other k r.checkpoint_id t ≡ false
    → In q t
    → q.1.checkpoint_id ≡ r.checkpoint_id
    → q.0 ≡ k
held_by_run k r t q free i h = elim (Bool-cases (q.0 == k)) [
  | inl e ↦ ==→eq q.0 k e
  | inr f ↦
      let taken : taken_by_other k r.checkpoint_id t ≡ true =
        any_of_In (λ (p : String × Row). not (p.0 == k) && p.1.checkpoint_id == r.checkpoint_id) q t
          i (rw (f, h) (==_refl r.checkpoint_id)) in
      cc
]

-- A write of an identifier that no other run holds keeps the identifiers unique.
insert-one_run :
    (k : String) (r : Row) (t : Table) (p q : String × Row)
    → IsUnique t
    → taken_by_other k r.checkpoint_id t ≡ false
    → (p ≡ (k, r)) ⊎ In p t
    → (q ≡ (k, r)) ⊎ In q t
    → p.1.checkpoint_id ≡ q.1.checkpoint_id
    → p.0 ≡ q.0
insert-one_run k r t p q u free (inl e) (inl f) h = cc
insert-one_run k r t p q u free (inl e) (inr j) h =
    ap (λ x. x.0) e ∙ sym (held_by_run k r t q free j (sym h ∙ ap (λ x. x.1.checkpoint_id) e))
insert-one_run k r t p q u free (inr i) (inl f) h =
    held_by_run k r t p free i (h ∙ ap (λ x. x.1.checkpoint_id) f) ∙ sym (ap (λ x. x.0) f)
insert-one_run k r t p q u free (inr i) (inr j) h = u.one_run p q i j h

insert-IsUnique :
    (k : String) (r : Row) (t : Table)
    → IsUnique t
    → taken_by_other k r.checkpoint_id t ≡ false
    → IsUnique (insert k r t)
insert-IsUnique k r t u free = record {
  one_run =
      λ p q i j h. insert-one_run k r t p q u free (insert-In k r t p i) (insert-In k r t q j) h;
}

not-taken_of_not-there :
    (k i : String) (t : Table) → has_checkpoint_id i t ≡ false → taken_by_other k i t ≡ false
not-taken_of_not-there k i [] h = refl
not-taken_of_not-there k i (p ∷ t) h = ground (arith, not-taken_of_not-there k i t)

pub create-IsUnique : (c : InitCheckpoint) (t : Table) → IsUnique t → IsUnique (create c t).1
unfolding create values
create-IsUnique c t u = elim (Bool-cases (is_some (lookup c.run_id t))) [
  | inl old ↦ rw old u
  | inr new ↦ elim (Bool-cases (has_checkpoint_id c.checkpoint_id t)) [
    | inl there ↦ rw (new, there) u
    | inr free ↦
        rw (new, free)
          (insert-IsUnique c.run_id (values c) t u
            (not-taken_of_not-there c.run_id c.checkpoint_id t free))
  ]
]

replace_row-IsUnique :
    (o : Option Row) (p c : InitCheckpoint) (t : Table)
    → IsUnique t
    → IsUnique (replace_row o p c t).1
unfolding replace_row
replace_row-IsUnique none p c t u = u
replace_row-IsUnique (some r) p c t u = elim (Bool-cases (nat_eq r.revision p.revision)) [
  | inr stale ↦ rw stale u
  | inl fresh ↦ elim (Bool-cases (taken_by_other c.run_id c.checkpoint_id t)) [
    | inl taken ↦ rw (fresh, taken) u
    | inr free ↦ rw (fresh, free) (insert-IsUnique c.run_id (overwrite r c) t u free)
  ]
]

pub replace-IsUnique : (p c : InitCheckpoint) (t : Table) → IsUnique t → IsUnique (replace p c t).1
unfolding replace
replace-IsUnique p c t u = replace_row-IsUnique (lookup c.run_id t) p c t u

-- A replacement that read the row's revision and keeps the row's identifier goes through.
pub replace_lem :
    (p c : InitCheckpoint) (r : Row) (t : Table)
    → IsUnique t
    → lookup c.run_id t ≡ some r
    → r.revision ≡ p.revision
    → r.checkpoint_id ≡ c.checkpoint_id
    → replace p c t ≡ (ok tt, insert c.run_id (overwrite r c) t)
unfolding replace replace_row
replace_lem p c r t u found same kept =
    rw found
      (ground (arith, not-taken t c.run_id r u found, ap (λ i. taken_by_other c.run_id i t) kept))

-- A write to a run's row that keeps the identifier keeps the identifiers unique.
pub insert_same-IsUnique :
    (k : String) (r s : Row) (t : Table)
    → IsUnique t
    → lookup k t ≡ some r
    → s.checkpoint_id ≡ r.checkpoint_id
    → IsUnique (insert k s t)
insert_same-IsUnique k r s t u found kept =
    insert-IsUnique k s t u (rw kept (not-taken t k r u found))
