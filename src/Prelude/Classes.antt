-- ===== src/Prelude/Classes.antt =====
-- Equality and order as interfaces: for texts, and for enumerations through a rank or a text.
use Prim.Native.String.{String}
use mathlib.Core.Path.{◌≡◌, refl, sym, ◌∙◌}
use mathlib.Core.Logic.{◌⊎◌, inl, inr, ◌↔◌, ◌≢◌}
use mathlib.Core.Bool.{Bool, true, false, not, ◌&&◌, ◌||◌}
use mathlib.Core.List.{List, [], ◌∷◌}
use native.Mathlib.Omega.{arith}
use text.Mathlib.Text.{◌==◌ as str_eq}
use text.Mathlib.TextEquality.{eq_iff}
use local_skill_orchestrator.Prelude.Tests.{Bool-cases}
use local_skill_orchestrator.Prelude.Lists.{In}
use local_skill_orchestrator.Prelude.Strings.{
  str_leb, str_leb-total, str_leb_trans, str_leb_antisym,
}

pub record Eq {ℓ} (A : Type ℓ) : Type ℓ where
  pub equal : A → A → Bool
  pub equal_iff : (x y : A) → (equal x y ≡ true) ↔ (x ≡ y)

-- A total order as a test, by which lists are sorted.
pub record IsTotal {ℓ} {A : Type ℓ} (leq : A → A → Bool) : Type ℓ where
  pub total : (a b : A) → (leq a b ≡ true) ⊎ (leq b a ≡ true)
  pub trans : (a b c : A) → leq a b ≡ true → leq b c ≡ true → leq a c ≡ true

infix 50 ◌==◌
abbrev pub ◌==◌ {ℓ} : {A : Type ℓ} ⦃eq : Eq A⦄ → A → A → Bool
◌==◌ ⦃eq⦄ x y = eq.equal x y

instance abbrev pub string_Eq : Eq String
string_Eq = record { equal = str_eq; equal_iff = eq_iff }

pub record Ord {ℓ} (A : Type ℓ) : Type ℓ where
  pub leq : A → A → Bool
  pub order : IsTotal leq
  pub antisym : (a b : A) → leq a b ≡ true → leq b a ≡ true → a ≡ b

pub str_leb-IsTotal : IsTotal str_leb
str_leb-IsTotal = record { total = str_leb-total; trans = str_leb_trans }

instance abbrev pub string_Ord : Ord String
string_Ord = record { leq = str_leb; order = str_leb-IsTotal; antisym = str_leb_antisym }

-- min_length=1, on a text
abbrev pub is_text : String → Bool
is_text s = not (s == "")

-- sorted(key=...)
abbrev pub on {ℓ κ} : {A : Type ℓ} {K : Type κ} → (A → K) → (K → K → Bool) → A → A → Bool
on key leq a b = leq (key a) (key b)

pub on-IsTotal {ℓ κ} :
    {A : Type ℓ} {K : Type κ} (key : A → K) (leq : K → K → Bool)
    → IsTotal leq
    → IsTotal (on key leq)
on-IsTotal key leq t = record {
  total = λ a b. t.total (key a) (key b);
  trans = λ a b c. t.trans (key a) (key b) (key c);
}

-- The order of pairs of keys: by the first, and where they agree by the second.
abbrev pub lex {ℓ} : {A : Type ℓ} → (A → A → Bool) → (A → A → Bool) → A → A → Bool
lex first second a b = first a b && (not (first b a) || second a b)

pub lex-IsTotal {ℓ} :
    {A : Type ℓ} (first second : A → A → Bool)
    → IsTotal first
    → IsTotal second
    → IsTotal (lex first second)
lex-IsTotal first second f s = record {
  total = λ a b. ground (arith, f.total a b, s.total a b);
  trans = λ a b c h k. ground (arith, f.trans a b c, f.trans b c a, f.trans c a b, s.trans a b c);
}

module _ {ℓ} {A : Type ℓ} ⦃e : Eq A⦄ where
  pub ==_refl : (a : A) → (a == a) ≡ true
  ==_refl a = (e.equal_iff a a).1 refl

  pub ==→eq : (a b : A) → (a == b) ≡ true → a ≡ b
  ==→eq a b h = (e.equal_iff a b).0 h

  pub ==_false→ne : (a b : A) → (a == b) ≡ false → a ≢ b
  ==_false→ne a b h p = false_not_true (sym h ∙ (e.equal_iff a b).1 p)
    where
      false_not_true : false ≡ true → ⊥
      false_not_true q = cc

  pub ne→==_false : (a b : A) → a ≢ b → (a == b) ≡ false
  ne→==_false a b h = elim (Bool-cases (a == b)) [ inl t ↦ absurd (h (==→eq a b t)) | inr f ↦ f ]

  -- a in xs
  abbrev pub member : A → List A → Bool
  member a [] = false
  member a (x ∷ xs) = a == x || member a xs

  pub member→In : (a : A) (xs : List A) → member a xs ≡ true → In a xs
  member→In a [] h = cc
  member→In a (x ∷ xs) h = elim (Bool-cases (a == x)) [
    | inl t ↦ inl (==→eq a x t)
    | inr f ↦ inr (member→In a xs (rw f at h))
  ]

  pub In→member : (a : A) (xs : List A) → In a xs → member a xs ≡ true
  In→member a [] h = elim h [ ]
  In→member a (x ∷ xs) (inl p) = rw p (rw ==_refl)
  In→member a (x ∷ xs) (inr h) = ground (arith, In→member a xs h)

  pub member_iff : (a : A) (xs : List A) → (member a xs ≡ true) ↔ In a xs
  member_iff a xs = (member→In a xs, In→member a xs)
