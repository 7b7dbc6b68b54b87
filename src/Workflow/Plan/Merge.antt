-- ===== src/Workflow/Plan/Merge.antt =====
-- Python's operations on dicts and values that boring_agent/workflows.py uses to narrow a root's
-- authority: update, pop, in, comparison and truth.
use text.Mathlib.TextEquality.{eq_iff}
use boring_orch_agent.Base.{
  ◌≡◌, refl, String, Bool, true, false, Option, none, some, if◌then◌else◌, ◌&&◌, not, ◌==◌, str_eq,
  is_none, arith, one_if,
}
use boring_orch_agent.Schema.{Result, ok, err, uncaught}
use boring_orch_agent.Document.Json.{
  Number, whole, float, Json, null, bool, num, str, arr, obj, nil, Fields, end, field, get,
  is_at_most,
}

-- d[k] = v
unfoldable pub set_field : String → Json → Fields → Fields
set_field k v end = field k v end
set_field k v (field j w fs) =
    let rest = set_field k v fs in if str_eq j k then field k v fs else field j w rest

-- {**base, **new}
unfoldable pub overlay : Fields → Fields → Fields
unfolding set_field
overlay base end = base
overlay base (field k v fs) = set_field k v (overlay base fs)

-- d.pop(k, None)
unfoldable pub without : String → Fields → Fields
without k end = end
without k (field j v fs) = let rest = without k fs in if str_eq j k then rest else field j v rest

-- k in d
abbrev pub has : String → Fields → Bool
has k fs = not (is_none (get k fs))

-- bool(value)
abbrev pub is_true : Json → Bool
is_true null = false
is_true (bool b) = b
is_true (num (whole n)) = not (n == 0)
is_true (num (float m e)) = not (m == 0)
is_true (num x) = true
is_true (str s) = not (str_eq s "")
is_true (arr nil) = false
is_true (arr xs) = true
is_true (obj end) = false
is_true (obj fs) = true

-- a == b, where b is None, a text, a truth value or a number that is not negative; True is 1 and False
-- is 0.
unfoldable pub is_same : Json → Json → Bool
unfolding is_at_most
is_same null null = true
is_same (str s) (str t) = str_eq s t
is_same (bool a) (bool b) = one_if a == one_if b
is_same (bool a) (num y) = is_at_most (whole (one_if a)) y && is_at_most y (whole (one_if a))
is_same (num x) (bool b) = is_at_most x (whole (one_if b)) && is_at_most (whole (one_if b)) x
is_same (num x) (num y) = is_at_most x y && is_at_most y x
is_same _ _ = false

-- x > ceiling, where the ceiling is not negative; NaN is greater than nothing. An infinity is taken
-- like NaN here: `number` refuses it afterwards.
unfoldable pub exceeds_number : Number → Number → Bool
unfolding is_at_most
exceeds_number (whole n) ceiling = not (is_at_most (whole n) ceiling)
exceeds_number (float m e) ceiling = not (is_at_most (float m e) ceiling)
exceeds_number _ ceiling = false

-- value > ceiling of a value of any type: other than for numbers and truth values, a TypeError.
unfoldable pub exceeds_value : Json → Number → Result Bool
unfolding exceeds_number
exceeds_value (num x) ceiling = ok (exceeds_number x ceiling)
exceeds_value (bool b) ceiling = ok (exceeds_number (whole (one_if b)) ceiling)
exceeds_value _ ceiling = err uncaught

pub get-set_field :
    (j k : String) (v : Json) (fs : Fields)
    → get j (set_field k v fs) ≡ (if str_eq k j then some v else get j fs)
unfolding get set_field
get-set_field j k v end = refl
get-set_field j k v (field i w fs) =
    ground (arith, eq_iff i k, eq_iff i j, eq_iff k j, get-set_field j k v fs)

-- The value under a key of the merge.
abbrev pub first_of : Option Json → Option Json → Option Json
first_of none b = b
first_of (some v) b = some v

pub get-overlay :
    (j : String) (base new : Fields) → get j (overlay base new) ≡ first_of (get j new) (get j base)
unfolding get overlay
get-overlay j base end = refl
get-overlay j base (field k v fs) =
    ground (arith, get-set_field j k v (overlay base fs), get-overlay j base fs)

pub get-without :
    (j k : String) (fs : Fields) → get j (without k fs) ≡ (if str_eq k j then none else get j fs)
unfolding get without
get-without j k end = ground arith
get-without j k (field i w fs) =
    ground (arith, eq_iff i k, eq_iff i j, eq_iff k j, get-without j k fs)
