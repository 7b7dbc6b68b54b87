-- ===== src/Document/Checks.antt =====
-- fields, number and the session mentions of boring_agent/model.py.
use Prim.Native.String.{len, slice, count as count_chars, ◌++◌ as append}
use text.Mathlib.Text.{starts_with}
use boring_orch_agent.Base.{
  ℕ, String, Bool, Option, none, some, List, [], ◌∷◌, if◌then◌else◌, ◌&&◌, not, ltb,
}
use boring_orch_agent.Schema.{Result, ok, err, invalid_request, ◌>>=◌, ◌>>◌, raise_if}
use boring_orch_agent.Document.Json.{
  Number, whole, Json, null, bool, num, str, arr, obj, Items, nil, cons, Fields, is_at_most, keys,
  is_subset,
}
use boring_orch_agent.Document.Text.{is_blank, is_session_id, is_coddy_session_id}

-- `if not accepted: raise Invalid(…)`
abbrev pub demand : Bool → Result (Unit {0})
demand accepted = raise_if (not accepted) invalid_request

unfoldable pub fields : List String → Json → Result Fields
unfolding is_subset keys
fields allowed (obj fs) = if is_subset (keys fs) allowed then ok fs else err invalid_request
fields allowed _ = err invalid_request

-- number(value, label, low, high), for bounds that are finite and not negative
unfoldable pub number_in : Number → Number → Json → Result Number
unfolding is_at_most
number_in low high (num x) =
    if is_at_most low x && is_at_most x high then ok x else err invalid_request
number_in low high _ = err invalid_request

-- isinstance(value, int), of a number that is not negative
abbrev pub as_int : Number → Result ℕ
as_int (whole n) = ok n
as_int _ = err invalid_request

-- number(value, label, low, high, True)
unfoldable pub integer : ℕ → ℕ → Json → Result ℕ
unfolding number_in
integer low high value = do x ← number_in (whole low) (whole high) value; as_int x

abbrev pub as_bool : Json → Result Bool
as_bool (bool b) = ok b
as_bool _ = err invalid_request

abbrev pub as_text : Json → Result String
as_text (str s) = ok s
as_text _ = err invalid_request

abbrev pub as_object : Json → Result Fields
as_object (obj fs) = ok fs
as_object _ = err invalid_request

abbrev pub as_list : Json → Result Items
as_list (arr xs) = ok xs
as_list _ = err invalid_request

-- value in (…), for a list of values that are all tested
unfoldable pub texts : Items → Result (List String)
texts nil = ok []
texts (cons x xs) = do s ← as_text x; rest ← texts xs; ok (s ∷ rest)

-- A check that applies where the value is not None.
unfoldable pub optional {ℓ} : {A : Type ℓ} → (Json → Result A) → Json → Result (Option A)
optional check null = ok none
optional check value = do a ← check value; ok (some a)

-- not isinstance(value, str) or not value.strip() or len(value) > limit
unfoldable pub bounded_text : ℕ → Json → Result String
unfolding is_blank
bounded_text limit value = do
  s ← as_text value
  demand (not (is_blank s) && not (ltb limit (count_chars s)))
  ok s

-- What follows the nine characters of "@session:".
abbrev pub mentioned : String → String
mentioned s = slice s 9 (len s)

-- SESSION_MENTION_RE
abbrev pub is_mention : String → Bool
is_mention s = starts_with s "@session:" && is_session_id (mentioned s)

unfoldable pub session_id_from_mention : Json → Result (Option String)
unfolding is_session_id
session_id_from_mention null = ok none
session_id_from_mention (str s) =
    if is_mention s then ok (some (mentioned s)) else err invalid_request
session_id_from_mention _ = err invalid_request

unfoldable pub session_mention : String → Result String
unfolding is_session_id
session_mention session_id =
    let mention = append "@session:" session_id in
    if is_mention mention then ok mention else err invalid_request

check_coddy_id : Option String → Result (Option String)
unfolding is_coddy_session_id
check_coddy_id none = ok none
check_coddy_id (some session_id) =
    if is_coddy_session_id session_id then ok (some session_id) else err invalid_request

unfoldable pub coddy_session_id_from_mention : Json → Result (Option String)
unfolding session_id_from_mention check_coddy_id
coddy_session_id_from_mention value = do
  session_id ← session_id_from_mention value
  check_coddy_id session_id
