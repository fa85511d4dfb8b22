-- ===== src/Prelude/Json.antt =====
-- The values of Python's `json`. A text of JSON is represented by the tree that it parses to, so
-- `json.dumps(..., sort_keys=True)` is `normalize` and `json.loads` of its result is the identity.
use Prim.Native.String.{String}
use mathlib.Core.Path.{◌≡◌, refl}
use mathlib.Core.Bool.{Bool}
use mathlib.Core.Option
use mathlib.Core.Option.{Option, none, some}
use mathlib.Core.List.{List, [], ◌∷◌, map}
use native.Mathlib.Omega.{arith}
use text.Mathlib.TextEquality.{eq_iff}
use local_skill_orchestrator.Prelude.Tests.{if◌then◌else◌}
use local_skill_orchestrator.Prelude.Strings.{str_leb, str_leb_refl}
use local_skill_orchestrator.Prelude.Classes.{◌==◌, string_Eq, on}
use local_skill_orchestrator.Prelude.Sorting.{insert_by, sort_by}
use local_skill_orchestrator.Prelude.Dicts.{Dict, lookup}
use local_skill_orchestrator.Prelude.Int.{ℤ}

mutual
  pub data Json : Type 0 where
    null : Json
    boolean : Bool → Json
    integer : ℤ → Json
    -- a float, by its `repr`
    float : String → Json
    string : String → Json
    array : Items → Json
    object : Fields → Json

  pub data Items : Type 0 where
    nil : Items
    cons : Json → Items → Items

  pub data Fields : Type 0 where
    end : Fields
    field : String → Json → Fields → Fields

insert_field : String → Json → Fields → Fields
insert_field k v end = field k v end
insert_field k v (field j w fs) =
    if str_leb k j then field k v (field j w fs) else field j w (insert_field k v fs)

-- The keys of every object are sorted, as `sort_keys=True` does.
unfoldable mutual
  unfolding insert_field

  pub normalize : Json → Json
  normalize null = null
  normalize (boolean b) = boolean b
  normalize (integer n) = integer n
  normalize (float r) = float r
  normalize (string s) = string s
  normalize (array xs) = array (normalize_items xs)
  normalize (object fs) = object (normalize_fields fs)

  pub normalize_items : Items → Items
  normalize_items nil = nil
  normalize_items (cons x xs) = cons (normalize x) (normalize_items xs)

  pub normalize_fields : Fields → Fields
  normalize_fields end = end
  normalize_fields (field k v fs) = insert_field k (normalize v) (normalize_fields fs)

-- obj.get(key)
unfoldable pub get_field : String → Fields → Option Json
get_field k end = none
get_field k (field j v fs) = if j == k then some v else get_field k fs

unfoldable pub elements : Items → List Json
elements nil = []
elements (cons x xs) = x ∷ elements xs

by_key : String × Json → String × Json → Bool
by_key = on (λ p. p.0) str_leb

-- A `dict` with JSON values, written with sorted keys and read back.
unfoldable pub encode : Dict Json → Dict Json
unfolding by_key
encode d = sort_by by_key (map (λ p. (p.0, normalize p.1)) d)

lookup-insert_by :
    (k j : String) (v : Json) (d : Dict Json)
    → lookup k (insert_by by_key (j, v) d) ≡ (if j == k then some v else lookup k d)
unfolding lookup insert_by by_key
lookup-insert_by k j v [] = refl
lookup-insert_by k j v ((i, w) ∷ d) =
    ground (arith, eq_iff i k, eq_iff j k, eq_iff j i, str_leb_refl i, lookup-insert_by k j v d)

-- A value that was written is read back under its key, with its own keys sorted.
pub lookup-encode :
    (k : String) (d : Dict Json) → lookup k (encode d) ≡ Option.map normalize (lookup k d)
unfolding lookup encode sort_by
lookup-encode k [] = refl
lookup-encode k ((j, v) ∷ d) =
    rw (lookup-insert_by k j (normalize v) (encode d)) (ground (arith, lookup-encode k d))
