-- ===== src/Document/Parts.antt =====
-- The parts of a task document that validate_spec of boring_agent/model.py checks one by one: budget,
-- retry, demo, expect_files and workflow. A record holds what the part holds once it is accepted.
use Prim.Native.String.{count as count_chars}
use text.Mathlib.Text.{starts_with}
use boring_orch_agent.Base.{
  ℕ, suc, String, Bool, true, false, Option, none, some, List, [], ◌∷◌, not, ◌||◌, ◌&&◌, ltb, leb,
  str_eq,
}
use boring_orch_agent.Schema.{Runtime, Result, ok, invalid_request, ◌>>=◌, ◌>>◌, raise_if}
use boring_orch_agent.Document.Json.{
  Number, whole, Json, null, bool, num, str, arr, obj, Items, nil, cons, Fields, end, field,
  field_or, get, mem, is_subset, sorted_set,
}
use boring_orch_agent.Document.Text.{representable_path}
use boring_orch_agent.Document.Checks.{
  fields, number_in, integer, as_bool, as_text, as_object, as_list, optional, texts, demand,
}
use boring_orch_agent.Document.Coddy.{tenth, hundredth, is_llm}

pub record Budget : Type 0 where
  pub deadline_seconds : Number
  pub attempt_seconds : Number
  pub max_output_bytes : ℕ
  pub max_tokens : Option ℕ
  pub max_steps : ℕ
  pub request_seconds : Number
  pub output_tokens : ℕ

pub record RetryPolicy : Type 0 where
  pub max_attempts : ℕ
  pub replay_safe : Bool
  pub backoff_seconds : Number
  pub on : List String

pub record Demo : Type 0 where
  pub delay_seconds : Number
  pub fail_attempts : ℕ
  pub failure_kind : String
  pub result : Option Json

pub record WorkflowOptions : Type 0 where
  pub enabled : Bool
  pub max_children : Option ℕ
  pub max_tokens : Option ℕ
  pub max_attempts : Option ℕ
  pub planner_context_threshold : Option ℕ
  pub planner : Fields
  pub authority : Fields

-- any(x not in allowed for x in value) of a list; what is no text is in no list of texts.
unfoldable pub texts_in : List String → Json → Result (List String)
unfolding texts is_subset
texts_in allowed value = do
  items ← as_list value
  chosen ← texts items
  demand (is_subset chosen allowed)
  ok chosen

abbrev pub budget_fields : List String
budget_fields =
    "deadline_seconds" ∷ "attempt_seconds" ∷ "max_output_bytes" ∷ "max_tokens" ∷ "max_steps"
    ∷ "request_seconds" ∷ "output_tokens" ∷ []

unfoldable pub budget_of : Json → Result Budget
unfolding fields number_in integer optional get
budget_of value = do
  raw ← fields budget_fields value
  deadline ← number_in tenth (whole 86400) (field_or "deadline_seconds" (num (whole 600)) raw)
  attempt ← number_in tenth (whole 86400) (field_or "attempt_seconds" (num (whole 300)) raw)
  bytes ← integer 64 10485760 (field_or "max_output_bytes" (num (whole 1048576)) raw)
  tokens ← optional (integer 1 1000000000) (field_or "max_tokens" null raw)
  steps ← integer 1 100 (field_or "max_steps" (num (whole 12)) raw)
  request ← number_in tenth (whole 300) (field_or "request_seconds" (num (whole 60)) raw)
  output ← integer 1 65536 (field_or "output_tokens" (num (whole 2048)) raw)
  ok (record {
    deadline_seconds = deadline;
    attempt_seconds = attempt;
    max_output_bytes = bytes;
    max_tokens = tokens;
    max_steps = steps;
    request_seconds = request;
    output_tokens = output;
  })

abbrev pub retry_fields : List String
retry_fields = "max_attempts" ∷ "replay_safe" ∷ "backoff_seconds" ∷ "on" ∷ []

unfoldable pub retry_of : Json → Result RetryPolicy
unfolding fields number_in integer texts_in get
retry_of value = do
  raw ← fields retry_fields value
  attempts ← integer 1 10 (field_or "max_attempts" (num (whole 1)) raw)
  backoff ← number_in hundredth (whole 3600) (field_or "backoff_seconds" (num (whole 1)) raw)
  replay ← as_bool (field_or "replay_safe" (bool false) raw)
  kinds ←
      texts_in ("transient" ∷ "validation" ∷ [])
        (field_or "on" (arr (cons (str "transient") nil)) raw)
  ok (record {
    max_attempts = attempts;
    replay_safe = replay;
    backoff_seconds = backoff;
    on = kinds;
  })

abbrev pub has_no_fields : Fields → Bool
has_no_fields end = true
has_no_fields (field k v fs) = false

-- .1, the default delay, is the float `tenth`.
unfoldable pub demo_of : Runtime → Json → Result Demo
unfolding fields number_in integer mem get
demo_of runtime value = do
  raw ← fields ("delay_seconds" ∷ "fail_attempts" ∷ "failure_kind" ∷ "result" ∷ []) value
  raise_if (not (has_no_fields raw) && is_llm runtime) invalid_request
  delay ← number_in (whole 0) (whole 3600) (field_or "delay_seconds" (num tenth) raw)
  failures ← integer 0 10 (field_or "fail_attempts" (num (whole 0)) raw)
  kind ← as_text (field_or "failure_kind" (str "transient") raw)
  demand (mem kind ("transient" ∷ "permanent" ∷ []))
  ok (record {
    delay_seconds = delay;
    fail_attempts = failures;
    failure_kind = kind;
    result = get "result" raw;
  })

-- What pathlib answers of a relative path.
pub record Paths : Type 0 where
  pub is_absolute : String → Bool
  pub parts : String → List String

any_hidden : List String → Bool
any_hidden [] = false
any_hidden (p ∷ ps) = starts_with p "." || any_hidden ps

module _ (paths : Paths) where
  unfoldable pub is_visible : String → Bool
  unfolding representable_path any_hidden
  is_visible s =
      not (str_eq s "")
      && not (ltb 4096 (count_chars s))
      && representable_path s
      && not (paths.is_absolute s)
      && not (any_hidden (paths.parts s))

  all_visible : List String → Bool
  unfolding is_visible
  all_visible [] = true
  all_visible (s ∷ ss) = is_visible s && all_visible ss

  item_count : Items → ℕ
  item_count nil = 0
  item_count (cons x xs) = suc (item_count xs)

  unfoldable pub expect_files_of : Json → Result (List String)
  unfolding texts all_visible item_count sorted_set
  expect_files_of value = do
    items ← as_list value
    demand (leb (item_count items) 50)
    files ← texts items
    demand (all_visible files)
    ok (sorted_set files)

abbrev pub workflow_fields : List String
workflow_fields =
    "enabled" ∷ "max_children" ∷ "max_tokens" ∷ "max_attempts" ∷ "planner_context_threshold"
    ∷ "planner" ∷ "authority" ∷ []

-- A limit that is absent has its default; one that is null is checked no further and stays null.
unfoldable pub limit_of : ℕ → Option ℕ → Option Json → Result (Option ℕ)
unfolding optional integer
limit_of high default none = ok default
limit_of high default (some value) = optional (integer 1 high) value

unfoldable pub workflow_of : Budget → RetryPolicy → Json → Result WorkflowOptions
unfolding fields limit_of get
workflow_of budget retry value = do
  raw ← fields workflow_fields value
  enabled ← as_bool (field_or "enabled" (bool true) raw)
  children ← limit_of 1000 (some 100) (get "max_children" raw)
  tokens ← limit_of 1000000000 budget.max_tokens (get "max_tokens" raw)
  attempts ← limit_of 1000 (some retry.max_attempts) (get "max_attempts" raw)
  threshold ← limit_of 1000000000 none (get "planner_context_threshold" raw)
  planner ← as_object (field_or "planner" (obj end) raw)
  plan ← fields ("objective" ∷ "runtime" ∷ "demo" ∷ "budget" ∷ "model" ∷ "tools" ∷ []) (obj planner)
  authority ← as_object (field_or "authority" (obj end) raw)
  ok (record {
    enabled = enabled;
    max_children = children;
    max_tokens = tokens;
    max_attempts = attempts;
    planner_context_threshold = threshold;
    planner = plan;
    authority = authority;
  })
