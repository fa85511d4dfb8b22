-- ===== src/Practices/Matcher.antt =====
-- src/vibe/practices/matcher.py: the rules of a pack against a project's facts.
use text.Mathlib.Text.{find?}
use local_skill_orchestrator.Prelude.{
  nat_eq, ℤ, pos, negsuc, String, Bool, true, false, not, ◌&&◌, ◌||◌, Option, none, some, is_some,
  List, [], ◌∷◌, all, any, member, is_nonempty, is_text, ◌==◌, string_Eq, Dict, lookup,
}
use local_skill_orchestrator.Practices.Packs.{
  Fact, text_fact, flag_fact, number_fact, tuple_fact, list_fact, MatchOperator, equals, contains,
  in_tuple, exists, MatchValue, a_text, a_flag, a_tuple, MatchCondition, MatchRule,
}

abbrev bool_eq : Bool → Bool → Bool
bool_eq true b = b
bool_eq false b = not b

-- An integer equals a Boolean where it is 1 or 0.
abbrev is_flag : ℤ → Bool → Bool
is_flag (pos n) true = nat_eq n 1
is_flag (pos n) false = nat_eq n 0
is_flag (negsuc n) b = false

abbrev texts_eq : List String → List String → Bool
texts_eq [] [] = true
texts_eq (x ∷ xs) (y ∷ ys) = (x == y) && texts_eq xs ys
texts_eq _ _ = false

-- actual == expected: a list is never equal to a tuple
unfoldable pub fact_eq : Fact → MatchValue → Bool
fact_eq (text_fact s) (a_text t) = s == t
fact_eq (flag_fact b) (a_flag c) = bool_eq b c
fact_eq (number_fact n) (a_flag c) = is_flag n c
fact_eq (tuple_fact xs) (a_tuple ys) = texts_eq xs ys
fact_eq _ _ = false

unfoldable pub fact_contains : Fact → MatchValue → Bool
fact_contains (text_fact s) (a_text t) = is_some (find? s t)
fact_contains (tuple_fact xs) (a_text t) = member t xs
fact_contains (list_fact xs) (a_text t) = member t xs
fact_contains _ _ = false

unfoldable pub fact_in : Fact → MatchValue → Bool
fact_in (text_fact s) (a_tuple ys) = member s ys
fact_in _ _ = false

-- bool(expected)
abbrev truth : MatchValue → Bool
truth (a_text s) = is_text s
truth (a_flag b) = b
truth (a_tuple xs) = is_nonempty xs

abbrev present_matches : MatchOperator → Option Fact → MatchValue → Bool
unfolding fact_eq fact_contains fact_in
present_matches exists actual expected = bool_eq (is_some actual) (truth expected)
present_matches _ none expected = false
present_matches equals (some actual) expected = fact_eq actual expected
present_matches contains (some actual) expected = fact_contains actual expected
present_matches in_tuple (some actual) expected = fact_in actual expected

-- No fact is None.
unfoldable pub condition_matches : Dict Fact → MatchCondition → Bool
unfolding fact_eq fact_contains fact_in lookup
condition_matches facts c = present_matches c.operator (lookup c.field_name facts) c.value

unfoldable pub matches : MatchRule → Dict Fact → Bool
unfolding condition_matches
matches rule facts =
    all (condition_matches facts) rule.all_of
    && (not (is_nonempty rule.any_of) || any (condition_matches facts) rule.any_of)
    && not (any (condition_matches facts) rule.none_of)
