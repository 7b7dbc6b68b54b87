-- ===== src/Tests/Document.antt =====
-- The validation of a small task document.
use boring_orch_agent.Base.{◌≡◌, ◌↔◌, refl, false, true, some}
use boring_orch_agent.Schema.{ok, err, invalid_request, uncaught, Runtime}
use boring_orch_agent.Document.Json.{num, str, arr, obj, nil, end, field, whole, keys, mem}
use boring_orch_agent.Document.Checks.{session_id_from_mention, session_mention}
use boring_orch_agent.Document.Mentions.{session_mention_round_trip}
use boring_orch_agent.Document.Coddy.{validate_coddy}
use boring_orch_agent.Document.Validate.{validate_spec}
use boring_orch_agent.Tests.Documents.{plain_host, small_fields, small_document}
use boring_orch_agent.Document.Accepted.{
  validate_spec-IsBounded, validate_spec-IsPermitted, validate_spec-IsSupervised, IsBounded,
  IsPermitted, IsSupervised, unknown_field_refused,
}

small_accepted : validate_spec plain_host (obj small_fields) "/work" true ≡ ok small_document
unfolding validate_spec
small_accepted = refl

validate_spec-IsBounded_example : IsBounded small_document
validate_spec-IsBounded_example =
    validate_spec-IsBounded plain_host "/work" true (obj small_fields) small_document small_accepted

validate_spec-IsPermitted_example : IsPermitted plain_host "/work" true small_document
validate_spec-IsPermitted_example =
    validate_spec-IsPermitted plain_host "/work" true (obj small_fields) small_document
      small_accepted

validate_spec-IsSupervised_example : IsSupervised plain_host "/work" true small_document
validate_spec-IsSupervised_example =
    validate_spec-IsSupervised plain_host "/work" true (obj small_fields) small_document
      small_accepted

unknown_field_refused_example :
    validate_spec plain_host (obj (field "prioriy" (num (whole 1)) small_fields)) "/work" true
    ≡ err invalid_request
unfolding mem keys
unknown_field_refused_example =
    unknown_field_refused plain_host (field "prioriy" (num (whole 1)) small_fields) "/work" true
      "prioriy" refl refl

session_mention_round_trip_example :
    (session_mention "run-7.b" ≡ ok "@session:run-7.b")
    ↔ (session_id_from_mention (str "@session:run-7.b") ≡ ok (some "run-7.b"))
session_mention_round_trip_example = session_mention_round_trip "run-7.b" "@session:run-7.b"

-- Without the permission of the installation the sandbox is refused.
write_refused : validate_spec plain_host (obj small_fields) "/work" false ≡ err invalid_request
unfolding validate_spec
write_refused = refl

-- A list as a permission mode raises a TypeError.
unhashable_mode :
    validate_coddy (obj (field "permission_mode" (arr nil) end)) "x" Runtime.llm ≡ err uncaught
unfolding validate_coddy
unhashable_mode = refl
