-- ===== src/Migrations/Versions.antt =====
-- Schema versions are texts of digits: `str.isdigit`, `int` and `str`, where the digits are ASCII.
use Prim.Native.Char.{Char, code}
use Prim.Native.String.{String, [], ◌∷◌}
use Prim.Native.Nat.{◌%◌}
use local_skill_orchestrator.Prelude.{
  ap, inr, inl, ℕ, zero, suc, ◌+◌, ◌-◌, ◌*◌, ◌/◌, ◌<◌, ◌≡◌, refl, ◌∙◌, Bool, true, false, ◌&&◌,
  if◌then◌else◌, leb, ltb, arith, Bool-cases,
}

abbrev is_digit : Char → Bool
is_digit c = leb 48 (code c) && leb (code c) 57

all_digits : String → Bool
all_digits [] = true
all_digits (c ∷ s) = is_digit c && all_digits s

abbrev is_filled : String → Bool
is_filled [] = false
is_filled (c ∷ s) = true

-- version.isdigit()
unfoldable pub is_numeric : String → Bool
unfolding all_digits
is_numeric s = is_filled s && all_digits s

number_from : ℕ → String → ℕ
number_from n [] = n
number_from n (c ∷ s) = number_from (n * 10 + (code c - 48)) s

-- int(version)
unfoldable pub number : String → ℕ
unfolding number_from
number s = number_from 0 s

abbrev digit : ℕ → Char
digit zero = "0"
digit (suc zero) = "1"
digit (suc (suc zero)) = "2"
digit (suc (suc (suc zero))) = "3"
digit (suc (suc (suc (suc zero)))) = "4"
digit (suc (suc (suc (suc (suc zero))))) = "5"
digit (suc (suc (suc (suc (suc (suc zero)))))) = "6"
digit (suc (suc (suc (suc (suc (suc (suc zero))))))) = "7"
digit (suc (suc (suc (suc (suc (suc (suc (suc zero)))))))) = "8"
digit n = "9"

-- The digits of a number before those of `rest`; a number has at most as many digits as its value and one.
show_before : ℕ → ℕ → String → String
show_before zero n rest = rest
show_before (suc fuel) n rest =
    let more = show_before fuel (n / 10) (digit (n % 10) ∷ rest) in
    if ltb n 10 then digit n ∷ rest else more

-- str(n)
unfoldable pub show : ℕ → String
unfolding show_before
show n = show_before (suc n) n []

code-digit : (n : ℕ) → n < 10 → code (digit n) ≡ 48 + n
code-digit zero h = refl
code-digit (suc zero) h = refl
code-digit (suc (suc zero)) h = refl
code-digit (suc (suc (suc zero))) h = refl
code-digit (suc (suc (suc (suc zero)))) h = refl
code-digit (suc (suc (suc (suc (suc zero))))) h = refl
code-digit (suc (suc (suc (suc (suc (suc zero)))))) h = refl
code-digit (suc (suc (suc (suc (suc (suc (suc zero))))))) h = refl
code-digit (suc (suc (suc (suc (suc (suc (suc (suc zero)))))))) h = refl
code-digit (suc (suc (suc (suc (suc (suc (suc (suc (suc zero))))))))) h = refl
code-digit (suc (suc (suc (suc (suc (suc (suc (suc (suc (suc n)))))))))) h = absurd (omega arith)

number-show_before :
    (fuel n : ℕ) (rest : String)
    → n < fuel
    → number_from 0 (show_before fuel n rest) ≡ number_from n rest
unfolding show_before number_from
number-show_before zero n rest h = absurd (omega arith)
number-show_before (suc fuel) n rest h = elim (Bool-cases (ltb n 10)) [
  | inl small ↦
      let value : 0 * 10 + (code (digit n) - 48) ≡ n = ground (arith, code-digit n) in
      rw small (ap (λ k. number_from k rest) value)
  | inr large ↦
      let below : n % 10 < 10 = omega arith in
      let value : n / 10 * 10 + (code (digit (n % 10)) - 48) ≡ n =
        omega (arith, code-digit (n % 10) below) in
      rw large (
        number-show_before fuel (n / 10) (digit (n % 10) ∷ rest) (ground arith)
        ∙ ap (λ k. number_from k rest) value)
]

pub number-show : (n : ℕ) → number (show n) ≡ n
unfolding number show number_from
number-show n = number-show_before (suc n) n [] (omega arith)

all_digits-show_before :
    (fuel n : ℕ) (rest : String)
    → all_digits rest ≡ true
    → all_digits (show_before fuel n rest) ≡ true
unfolding show_before all_digits
all_digits-show_before zero n rest h = h
all_digits-show_before (suc fuel) n rest h = elim (Bool-cases (ltb n 10)) [
  | inl small ↦ rw small (ground (arith, code-digit n))
  | inr large ↦
      let below : n % 10 < 10 = omega arith in
      rw large (
        all_digits-show_before fuel (n / 10) (digit (n % 10) ∷ rest)
          (ground (arith, code-digit (n % 10) below)))
]

is_filled-show_before :
    (fuel n : ℕ) (rest : String)
    → is_filled rest ≡ true
    → is_filled (show_before fuel n rest) ≡ true
unfolding show_before
is_filled-show_before zero n rest h = h
is_filled-show_before (suc fuel) n rest h = elim (Bool-cases (ltb n 10)) [
  | inl small ↦ rw small refl
  | inr large ↦ rw large (is_filled-show_before fuel (n / 10) (digit (n % 10) ∷ rest) refl)
]
