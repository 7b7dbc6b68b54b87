-- ===== src/Document/Json.antt =====
-- The values that json.loads gives to boring_agent/model.py, and the ways its code looks into them.
-- An object is its fields in order, without a key twice (strict_json refuses a repeated key).
use Prim.Native.String.{compare}
use Prim.Native.Nat.{Ordering}
use boring_orch_agent.Base.{
  ℕ, ◌*◌, ◌^◌, String, Bool, true, false, Option, none, some, List, [], ◌∷◌, if◌then◌else◌, ◌||◌,
  ◌&&◌, not, leb, str_eq, get_or,
}

-- An int is `whole n` or `negative n`, which is -(n + 1); a finite float is exactly `float m e`,
-- which is m / 2 ^ e, or the negative of one; the rest are the infinities and NaN.
pub data Number : Type 0 where
  whole : ℕ → Number
  negative : ℕ → Number
  float : ℕ → ℕ → Number
  negative_float : ℕ → ℕ → Number
  non_finite : Number

mutual
  pub data Json : Type 0 where
    null : Json
    bool : Bool → Json
    num : Number → Json
    str : String → Json
    arr : Items → Json
    obj : Fields → Json

  pub data Items : Type 0 where
    nil : Items
    cons : Json → Items → Items

  pub data Fields : Type 0 where
    end : Fields
    field : String → Json → Fields → Fields

-- a <= b, for numbers that are not negative; false where either is no such number.
unfoldable pub is_at_most : Number → Number → Bool
is_at_most (whole a) (whole b) = leb a b
is_at_most (whole a) (float n f) = leb (a * 2 ^ f) n
is_at_most (float m e) (whole b) = leb m (b * 2 ^ e)
is_at_most (float m e) (float n f) = leb (m * 2 ^ f) (n * 2 ^ e)
is_at_most _ _ = false

-- value.get(key)
unfoldable pub get : String → Fields → Option Json
get k end = none
get k (field j v fs) = if str_eq j k then some v else get k fs

-- value.get(key, default)
abbrev pub field_or : String → Json → Fields → Json
field_or k d fs = get_or (get k fs) d

unfoldable pub keys : Fields → List String
keys end = []
keys (field k v fs) = k ∷ keys fs

abbrev pub is_null : Json → Bool
is_null null = true
is_null _ = false

-- value in (…)
unfoldable pub mem : String → List String → Bool
mem s [] = false
mem s (t ∷ ts) = str_eq t s || mem s ts

unfoldable pub is_subset : List String → List String → Bool
unfolding mem
is_subset [] ts = true
is_subset (s ∷ ss) ts = mem s ts && is_subset ss ts

-- len(set(values)) == len(values)
unfoldable pub is_distinct : List String → Bool
unfolding mem
is_distinct [] = true
is_distinct (s ∷ ss) = not (mem s ss) && is_distinct ss

unfoldable pub insert_once : String → List String → List String
insert_once s [] = s ∷ []
insert_once s (t ∷ ts) =
    let rest = insert_once s ts in
    elim (compare s t) [ Ordering.lt ↦ s ∷ t ∷ ts | Ordering.eq ↦ t ∷ ts | Ordering.gt ↦ t ∷ rest ]

-- sorted(set(values))
unfoldable pub sorted_set : List String → List String
unfolding insert_once
sorted_set [] = []
sorted_set (s ∷ ss) = insert_once s (sorted_set ss)
