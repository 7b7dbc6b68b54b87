-- ===== src/Document/Coddy.antt =====
-- validate_coddy of boring_agent/model.py.
use Prim.Native.String.{len}
use boring_orch_agent.Base.{
  String, Bool, true, false, Option, none, some, List, [], ◌∷◌, if◌then◌else◌, not, ◌&&◌, ltb,
  str_eq, is_none,
}
use boring_orch_agent.Schema.{
  Runtime, llm, demo, Result, ok, err, invalid_request, uncaught, ◌>>=◌, ◌>>◌, raise_if,
}
use boring_orch_agent.Document.Json.{
  Number, whole, float, Json, null, bool, str, arr, obj, Fields, field_or, get,
}
use boring_orch_agent.Document.Text.{is_agent_name, is_blank}
use boring_orch_agent.Document.Checks.{
  fields, number_in, as_bool, as_text, optional, bounded_text, demand,
  coddy_session_id_from_mention, session_mention,
}

-- PERMISSION_MODES
pub data PermissionMode : Type 0 where
  ask accept_edits bypass : PermissionMode

unfoldable pub permission_mode_of : String → Option PermissionMode
permission_mode_of s =
    if str_eq s "ask"
    then some ask
    else if str_eq s "accept_edits"
    then some accept_edits
    else if str_eq s "bypass"
    then some bypass
    else none

unfoldable pub known_mode : Option PermissionMode → Result (Option PermissionMode)
known_mode none = err invalid_request
known_mode (some m) = ok (some m)

-- value is not None and value not in PERMISSION_MODES; a list or an object is not hashable, so the
-- test itself raises a TypeError.
unfoldable pub permission_mode : Json → Result (Option PermissionMode)
unfolding permission_mode_of known_mode
permission_mode null = ok none
permission_mode (str s) = known_mode (permission_mode_of s)
permission_mode (arr xs) = err uncaught
permission_mode (obj fs) = err uncaught
permission_mode _ = err invalid_request

pub record Mention : Type 0 where
  pub agent : String
  pub prompt : String
  pub description : Option String
  pub model : Option String
  pub reasoning : Option String
  pub background : Bool
  pub notify_on_finish : Bool
  pub expected_seconds : Option Number
  pub timeout_seconds : Option Number
  pub permission : Option PermissionMode

pub record Coddy : Type 0 where
  pub session : Option String
  pub permission : Option PermissionMode
  pub stream : Bool
  pub mention : Option Mention

-- The floats .1 and .01 of Python.
abbrev pub tenth : Number
tenth = float 3602879701896397 55

abbrev pub hundredth : Number
hundredth = float 5764607523034235 59

abbrev pub mention_fields : List String
mention_fields =
    "agent" ∷ "prompt" ∷ "description" ∷ "background" ∷ "expected_seconds" ∷ "timeout_seconds"
    ∷ "model" ∷ "reasoning" ∷ "notify_on_finish" ∷ "permission_mode" ∷ []

unfoldable pub agent_of : Json → Result String
unfolding is_agent_name
agent_of value = do agent ← as_text value; demand (is_agent_name agent); ok agent

unfoldable pub prompt_of : Json → Result String
unfolding is_blank
prompt_of value = do
  prompt ← as_text value
  demand (not (is_blank prompt) && not (ltb 32768 (len prompt)))
  ok prompt

unfoldable pub mention_of : String → Json → Result Mention
unfolding fields agent_of prompt_of optional bounded_text number_in permission_mode get
mention_of objective value = do
  raw ← fields mention_fields value
  agent ← agent_of (field_or "agent" null raw)
  prompt ← prompt_of (field_or "prompt" (str objective) raw)
  description ← optional (bounded_text 200) (field_or "description" null raw)
  model ← optional (bounded_text 200) (field_or "model" null raw)
  reasoning ← optional (bounded_text 200) (field_or "reasoning" null raw)
  background ← as_bool (field_or "background" (bool false) raw)
  notify ← as_bool (field_or "notify_on_finish" (bool false) raw)
  expected ← optional (number_in tenth (whole 86400)) (field_or "expected_seconds" null raw)
  timeout ← optional (number_in tenth (whole 86400)) (field_or "timeout_seconds" null raw)
  permission ← permission_mode (field_or "permission_mode" null raw)
  ok (record {
    agent = agent;
    prompt = prompt;
    description = description;
    model = model;
    reasoning = reasoning;
    background = background;
    notify_on_finish = notify;
    expected_seconds = expected;
    timeout_seconds = timeout;
    permission = permission;
  })

abbrev pub is_llm : Runtime → Bool
is_llm llm = true
is_llm demo = false

abbrev pub is_bypass : Option PermissionMode → Bool
is_bypass (some bypass) = true
is_bypass _ = false

-- session_mention(session_id) if session_id else None
unfoldable pub written_session : Option String → Result (Option String)
unfolding session_mention
written_session none = ok none
written_session (some session_id) = do mention ← session_mention session_id; ok (some mention)

unfoldable pub coddy_of : String → Fields → Result Coddy
unfolding coddy_session_id_from_mention permission_mode mention_of optional written_session get
coddy_of objective raw = do
  session_id ← coddy_session_id_from_mention (field_or "session" null raw)
  permission ← permission_mode (field_or "permission_mode" null raw)
  raise_if (is_bypass permission && is_none session_id) invalid_request
  stream ← as_bool (field_or "stream" (bool true) raw)
  mention ← optional (mention_of objective) (field_or "mention" null raw)
  session ← written_session session_id
  ok (record { session = session; permission = permission; stream = stream; mention = mention })

unfoldable pub validate_coddy : Json → String → Runtime → Result (Option Coddy)
unfolding fields coddy_of
validate_coddy null objective runtime = ok none
validate_coddy value objective runtime = do
  demand (is_llm runtime)
  raw ← fields ("session" ∷ "permission_mode" ∷ "stream" ∷ "mention" ∷ []) value
  coddy ← coddy_of objective raw
  ok (some coddy)
