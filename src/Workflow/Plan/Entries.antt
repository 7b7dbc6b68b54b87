-- ===== src/Workflow/Plan/Entries.antt =====
-- The children of a plan as PLAN_SCHEMA of boring_agent/workflows.py admits them.
use Prim.Native.Nat.{◌/◌, ◌%◌}
use Prim.Native.String.{count as count_chars}
use boring_orch_agent.Base.{
  ℕ, suc, ◌^◌, String, Bool, true, false, Option, none, some, List, [], ◌∷◌, if◌then◌else◌, ◌&&◌,
  ◌||◌, not, leb, ◌==◌, str_eq,
}
use boring_orch_agent.Schema.{Result, ok, err, invalid_request, ◌>>=◌, ◌>>◌, Delivery}
use boring_orch_agent.Document.Json.{
  whole, float, Json, null, bool, num, str, arr, obj, Items, nil, cons, Fields, end, field, get,
  field_or, mem,
}
use boring_orch_agent.Document.Checks.{fields, as_text, as_object, as_list, as_bool, texts, demand}

-- One child as the planner wrote it: `own` holds the task fields at its top.
pub record PlanEntry : Type 0 where
  pub id : String
  pub order : Option ℕ
  pub task : Fields
  pub own : Fields
  pub dependencies : List String
  pub delivery : Delivery

abbrev pub own_fields : List String
own_fields =
    "objective" ∷ "runtime" ∷ "workspace" ∷ "model" ∷ "sandbox" ∷ "tools" ∷ "output_schema"
    ∷ "budget" ∷ "retry" ∷ "demo" ∷ "expect_files" ∷ []

abbrev entry_fields : List String
entry_fields = "id" ∷ "order" ∷ "task" ∷ "dependencies" ∷ "deliver" ∷ own_fields

is_text : Json → Bool
is_text (str s) = true
is_text _ = false

is_one_of : List String → Json → Bool
unfolding mem
is_one_of choices (str s) = mem s choices
is_one_of choices _ = false

is_filled : Json → Bool
is_filled (str s) = leb 1 (count_chars s)
is_filled _ = false

is_text_or_null : Json → Bool
is_text_or_null null = true
is_text_or_null (str s) = true
is_text_or_null _ = false

is_object : Json → Bool
is_object (obj fs) = true
is_object _ = false

all_texts : Items → Bool
unfolding is_text
all_texts nil = true
all_texts (cons x xs) = is_text x && all_texts xs

is_text_list : Json → Bool
unfolding all_texts
is_text_list (arr xs) = all_texts xs
is_text_list _ = false

-- The schema of one of the task fields at a child's top.
conforms : String → Json → Bool
unfolding is_one_of is_filled is_text_or_null is_object is_text_list is_text
conforms k v =
    if str_eq k "objective"
    then is_filled v
    else if str_eq k "runtime"
    then is_one_of ("demo" ∷ "llm" ∷ []) v
    else if str_eq k "workspace"
    then is_text v
    else if str_eq k "model"
    then is_text_or_null v
    else if str_eq k "sandbox"
    then is_one_of ("read-only" ∷ "workspace-write" ∷ []) v
    else if str_eq k "tools" || str_eq k "expect_files"
    then is_text_list v
    else is_object v

-- The task fields at a child's top, which PLAN_SCHEMA must admit one by one.
own_of : Fields → Result Fields
unfolding conforms mem
own_of end = ok end
own_of (field k v fs) = do
  rest ← own_of fs
  if not (mem k own_fields)
      then ok rest
      else if conforms k v
      then ok (field k v rest)
      else err invalid_request

-- {"type": "integer", "minimum": 0}: a float without a fraction is an integer of JSON Schema.
natural : Json → Result ℕ
natural (num (whole n)) = ok n
natural (num (float m e)) = do demand (m % 2 ^ e == 0); ok (m / 2 ^ e)
natural _ = err invalid_request

order_of : Option Json → Result (Option ℕ)
unfolding natural
order_of none = ok none
order_of (some v) = do n ← natural v; ok (some n)

texts_of : Json → Result (List String)
unfolding texts
texts_of v = do items ← as_list v; texts items

delivery_of : Json → Result Delivery
unfolding fields get texts_of
delivery_of v = do
  raw ← fields ("result" ∷ "files" ∷ []) v
  result ← as_bool (field_or "result" (bool false) raw)
  files ← texts_of (field_or "files" (arr nil) raw)
  ok (record { result = result; files = files })

unfoldable pub entry_of : Json → Result PlanEntry
unfolding fields get own_of order_of texts_of delivery_of
entry_of value = do
  raw ← fields entry_fields value
  id ← as_text (field_or "id" null raw)
  demand (leb 1 (count_chars id) && leb (count_chars id) 200)
  order ← order_of (get "order" raw)
  task ← as_object (field_or "task" (obj end) raw)
  own ← own_of raw
  dependencies ← texts_of (field_or "dependencies" (arr nil) raw)
  delivery ← delivery_of (field_or "deliver" (obj end) raw)
  ok (record {
    id = id;
    order = order;
    task = task;
    own = own;
    dependencies = dependencies;
    delivery = delivery;
  })

entries : Items → Result (List PlanEntry)
unfolding entry_of
entries nil = ok []
entries (cons x xs) = do e ← entry_of x; rest ← entries xs; ok (e ∷ rest)

entry_count : List PlanEntry → ℕ
entry_count [] = 0
entry_count (e ∷ es) = suc (entry_count es)

-- The plan as a whole against PLAN_SCHEMA.
unfoldable pub plan_entries : Json → Result (List PlanEntry)
unfolding fields get entries entry_count
plan_entries value = do
  raw ← fields ("children" ∷ "metadata" ∷ []) value
  metadata ← as_object (field_or "metadata" (obj end) raw)
  items ← as_list (field_or "children" null raw)
  es ← entries items
  demand (leb 1 (entry_count es) && leb (entry_count es) 1000)
  ok es
