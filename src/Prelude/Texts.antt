-- ===== src/Prelude/Texts.antt =====
-- `str.strip` and `str.replace` of one character, and that they keep apart.
use Prim.Native.Char.{Char, code}
use Prim.Native.String.{String, [], ◌∷◌}
use mathlib.Core.Path.{◌≡◌, refl, ap, ap₂, ◌∙◌}
use mathlib.Core.Logic.{inl, inr}
use mathlib.Core.Bool.{Bool, true, false, not, ◌&&◌, ◌||◌}
use native.Mathlib.Omega.{arith}
use local_skill_orchestrator.Prelude.Tests.{leb, nat_eq, if◌then◌else◌, Bool-cases}

-- The characters that `strip` takes off.
abbrev pub is_space : Char → Bool
is_space c =
    let n = code c in
    leb 9 n && leb n 13
    || leb 28 n && leb n 32
    || nat_eq n 133
    || nat_eq n 160
    || nat_eq n 5760
    || leb 8192 n && leb n 8202
    || leb 8232 n && leb n 8233
    || nat_eq n 8239
    || nat_eq n 8287
    || nat_eq n 12288

abbrev is_blank : String → Bool
is_blank [] = true
is_blank (c ∷ s) = false

unfoldable pub lstrip : String → String
lstrip [] = []
lstrip (c ∷ s) = if is_space c then lstrip s else c ∷ s

unfoldable pub rstrip : String → String
rstrip [] = []
rstrip (c ∷ s) = let rest = rstrip s in if is_blank rest && is_space c then [] else c ∷ rest

unfoldable pub strip : String → String
unfolding lstrip rstrip
strip s = rstrip (lstrip s)

abbrev slash : Char → Char
slash c = if nat_eq (code c) 92 then "/" else c

-- s.replace("\\", "/")
unfoldable pub slashes : String → String
slashes [] = []
slashes (c ∷ s) = slash c ∷ slashes s

slash-slash : (c : Char) → slash (slash c) ≡ slash c
slash-slash c = elim (Bool-cases (nat_eq (code c) 92)) [
  | inl t ↦ rw t refl
  | inr f ↦ rw (f, f) refl
]

space-slash : (c : Char) → is_space (slash c) ≡ is_space c
space-slash c = elim (Bool-cases (nat_eq (code c) 92)) [
  | inl t ↦ let e : code c ≡ 92 = ground arith in rw (t, e) refl
  | inr f ↦ rw f refl
]

slashes-slashes : (s : String) → slashes (slashes s) ≡ slashes s
unfolding slashes
slashes-slashes [] = refl
slashes-slashes (c ∷ s) = ap₂ ◌∷◌ (slash-slash c) (slashes-slashes s)

lstrip-slashes : (s : String) → lstrip (slashes s) ≡ slashes (lstrip s)
unfolding slashes lstrip
lstrip-slashes [] = refl
lstrip-slashes (c ∷ s) = elim (Bool-cases (is_space c)) [
  | inl t ↦ rw (space-slash c, t) (lstrip-slashes s)
  | inr f ↦ rw (space-slash c, f) refl
]

is_blank-slashes : (s : String) → is_blank (slashes s) ≡ is_blank s
unfolding slashes
is_blank-slashes [] = refl
is_blank-slashes (c ∷ s) = refl

rstrip-slashes : (s : String) → rstrip (slashes s) ≡ slashes (rstrip s)
unfolding slashes rstrip
rstrip-slashes [] = refl
rstrip-slashes (c ∷ s) =
    rw (rstrip-slashes s, is_blank-slashes (rstrip s), space-slash c)
      (elim (Bool-cases (is_blank (rstrip s) && is_space c)) [
        | inl t ↦ rw t refl
        | inr f ↦ rw f refl
      ])

rstrip-rstrip : (s : String) → rstrip (rstrip s) ≡ rstrip s
unfolding rstrip
rstrip-rstrip [] = refl
rstrip-rstrip (c ∷ s) = elim (Bool-cases (is_blank (rstrip s) && is_space c)) [
  | inl t ↦ rw t refl
  | inr f ↦ rw (f, rstrip-rstrip s, f) refl
]

abbrev starts_clean : String → Bool
starts_clean [] = true
starts_clean (c ∷ s) = not (is_space c)

lstrip-starts_clean : (s : String) → starts_clean (lstrip s) ≡ true
unfolding lstrip
lstrip-starts_clean [] = refl
lstrip-starts_clean (c ∷ s) = elim (Bool-cases (is_space c)) [
  | inl t ↦ rw t (lstrip-starts_clean s)
  | inr f ↦ rw (f, f) refl
]

-- A text that starts with no space keeps its start.
lstrip-rstrip : (s : String) → starts_clean s ≡ true → lstrip (rstrip s) ≡ rstrip s
unfolding lstrip rstrip
lstrip-rstrip [] h = refl
lstrip-rstrip (c ∷ s) h = elim (Bool-cases (is_space c)) [
  | inl t ↦ absurd (clash (is_space c) t h)
  | inr f ↦ elim (Bool-cases (is_blank (rstrip s))) [
    | inl b ↦ rw (b, f, f) refl
    | inr b ↦ rw (b, f) refl
  ]
]
  where
    clash : (b : Bool) → b ≡ true → not b ≡ true → ⊥
    clash b p q = cc

pub strip-strip : (s : String) → strip (strip s) ≡ strip s
unfolding strip
strip-strip s =
    ap rstrip (lstrip-rstrip (lstrip s) (lstrip-starts_clean s)) ∙ rstrip-rstrip (lstrip s)

-- The name of a path as the program compares it: stripped, with slashes.
unfoldable pub normalize_path : String → String
unfolding strip slashes
normalize_path s = slashes (strip s)

pub normalize_path_idem : (s : String) → normalize_path (normalize_path s) ≡ normalize_path s
unfolding normalize_path strip
normalize_path_idem s =
    ap (λ t. slashes (rstrip t)) (lstrip-slashes (strip s))
    ∙ (ap slashes (rstrip-slashes (lstrip (strip s)))
        ∙ (slashes-slashes (rstrip (lstrip (strip s))) ∙ ap slashes (strip-strip s)))

pub slashes-eq_nil : (s : String) → slashes s ≡ [] → s ≡ []
unfolding slashes
slashes-eq_nil [] h = refl
slashes-eq_nil (c ∷ s) h = cc

-- What `strip` takes off is not changed by the slashes.
pub strip-normalize_path : (s : String) → strip (normalize_path s) ≡ slashes (strip s)
unfolding normalize_path strip
strip-normalize_path s =
    ap rstrip (lstrip-slashes (strip s))
    ∙ (rstrip-slashes (lstrip (strip s)) ∙ ap slashes (strip-strip s))

-- s.rstrip("/")
unfoldable pub strip_slashes : String → String
strip_slashes [] = []
strip_slashes (c ∷ s) =
    let rest = strip_slashes s in if is_blank rest && nat_eq (code c) 47 then [] else c ∷ rest
