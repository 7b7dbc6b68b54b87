-- ===== src/Document/NativeJob.antt =====
-- validate_native_job of boring_agent/model.py.
use Prim.Native.String.{count as count_chars, len, ◌++◌ as append}
use boring_orch_agent.Base.{
  ℕ, String, Bool, false, Option, none, some, List, [], ◌∷◌, if◌then◌else◌, not, ◌||◌, ◌&&◌, ltb,
  leb, str_eq,
}
use boring_orch_agent.Schema.{Result, ok, err, invalid_request, ◌>>=◌, ◌>>◌, raise_if}
use boring_orch_agent.Document.Json.{
  Number, whole, Json, null, num, str, arr, obj, nil, Fields, end, field, field_or, get,
  is_distinct, sorted_set,
}
use boring_orch_agent.Document.Text.{is_blank}
use boring_orch_agent.Document.Checks.{
  fields, number_in, integer, as_text, as_object, as_list, optional, texts, bounded_text, demand,
  session_id_from_mention,
}
use boring_orch_agent.Document.Coddy.{tenth}
use boring_orch_agent.Document.Written.{or_null, of_int, of_texts}

pub data NativeRuntime : Type 0 where
  acp coddy_native : NativeRuntime

pub record NativeBudget : Type 0 where
  pub deadline_seconds : Number
  pub attempt_seconds : Number
  pub max_steps : Option ℕ
  pub max_tokens : Option ℕ

pub record NativeJob : Type 0 where
  pub id : String
  pub objective : String
  pub runtime : NativeRuntime
  pub model : String
  pub session : Option String
  pub dependencies : List String
  pub budget : NativeBudget
  pub workspace : String
  pub output_schema : Json
  pub expect_files : Json
  pub metadata : Json

abbrev job_fields : List String
job_fields =
    "id" ∷ "job_id" ∷ "objective" ∷ "runtime" ∷ "model" ∷ "session" ∷ "dependencies" ∷ "budget"
    ∷ "workspace" ∷ "output_schema" ∷ "expect_files" ∷ "metadata" ∷ []

job_id_of : Json → Result String
job_id_of value = do
  s ← as_text value
  demand (leb 1 (count_chars s) && leb (count_chars s) 200)
  ok s

native_runtime_of : Json → Result NativeRuntime
native_runtime_of value = do
  s ← as_text value
  if str_eq s "acp"
      then ok acp
      else if str_eq s "coddy_native"
      then ok coddy_native
      else err invalid_request

any_blank : List String → Bool
unfolding is_blank
any_blank [] = false
any_blank (s ∷ ss) = is_blank s || any_blank ss

dependencies_of : Json → Result (List String)
unfolding texts any_blank is_distinct
dependencies_of value = do
  items ← as_list value
  names ← texts items
  raise_if (any_blank names) invalid_request
  demand (is_distinct names)
  ok names

native_budget_of : Json → Result NativeBudget
unfolding fields number_in integer optional get
native_budget_of value = do
  given ← as_object value
  raw ←
      fields ("deadline_seconds" ∷ "attempt_seconds" ∷ "max_steps" ∷ "max_tokens" ∷ []) (obj given)
  deadline ← number_in tenth (whole 86400) (field_or "deadline_seconds" (num (whole 1800)) raw)
  attempt ← number_in tenth (whole 86400) (field_or "attempt_seconds" (num (whole 1800)) raw)
  steps ← optional (integer 1 100) (field_or "max_steps" null raw)
  tokens ← optional (integer 1 1000000000) (field_or "max_tokens" null raw)
  ok (record {
    deadline_seconds = deadline;
    attempt_seconds = attempt;
    max_steps = steps;
    max_tokens = tokens;
  })

native_workspace_of : Json → Result String
unfolding is_blank
native_workspace_of value = do s ← as_text value; raise_if (is_blank s) invalid_request; ok s

-- "@session:" + mentioned_session if mentioned_session else None
abbrev mention_text : Option String → Option String
mention_text none = none
mention_text (some s) = if str_eq s "" then none else some (append "@session:" s)

abbrev of_native_runtime : NativeRuntime → Json
of_native_runtime acp = str "acp"
of_native_runtime coddy_native = str "coddy_native"

of_native_budget : NativeBudget → Json
of_native_budget b = obj (
    field "deadline_seconds" (num b.deadline_seconds) (
      field "attempt_seconds" (num b.attempt_seconds) (
        field "max_steps" (or_null of_int b.max_steps)
          (field "max_tokens" (or_null of_int b.max_tokens) end))))

unfoldable pub job_document : NativeJob → Json
unfolding of_native_budget of_texts
job_document j = obj (
    field "id" (str j.id) (
      field "objective" (str j.objective) (
        field "runtime" (of_native_runtime j.runtime) (
          field "model" (str j.model) (
            field "session" (or_null str j.session) (
              field "dependencies" (arr (of_texts j.dependencies)) (
                field "budget" (of_native_budget j.budget) (
                  field "workspace" (str j.workspace) (
                    field "output_schema" j.output_schema (
                      field "expect_files" j.expect_files
                        (field "metadata" j.metadata end)))))))))))

accept_job : Fields → Result NativeJob
unfolding job_id_of bounded_text native_runtime_of session_id_from_mention dependencies_of
    native_budget_of native_workspace_of sorted_set get
accept_job raw = do
  id ← job_id_of (field_or "job_id" (field_or "id" null raw) raw)
  objective ← bounded_text 100000 (field_or "objective" (str "") raw)
  runtime ← native_runtime_of (field_or "runtime" null raw)
  model ← bounded_text 200 (field_or "model" null raw)
  mentioned_session ← session_id_from_mention (field_or "session" null raw)
  dependencies ← dependencies_of (field_or "dependencies" (arr nil) raw)
  budget ← native_budget_of (field_or "budget" (obj end) raw)
  workspace ← native_workspace_of (field_or "workspace" null raw)
  ok (record {
    id = id;
    objective = objective;
    runtime = runtime;
    model = model;
    session = mention_text mentioned_session;
    dependencies = sorted_set dependencies;
    budget = budget;
    workspace = workspace;
    output_schema = field_or "output_schema" null raw;
    expect_files = field_or "expect_files" (arr nil) raw;
    metadata = field_or "metadata" (obj end) raw;
  })

-- `canonical` prints JSON, or raises at a number that is not finite.
unfoldable pub validate_native_job : (Json → Result String) → Json → Result NativeJob
unfolding fields accept_job job_document
validate_native_job canonical value = do
  raw ← fields job_fields value
  job ← accept_job raw
  printed ← canonical (job_document job)
  demand (not (ltb 256000 (len printed)))
  ok job
