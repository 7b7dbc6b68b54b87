-- ===== src/Artifacts.antt =====
-- boring_agent/artifacts.py: bounded reads of result artifacts and their content checks.
-- The file system, hashing, JSON and the schema validator are the parameter `Files`.
pub mod Reads
use boring_orch_agent.Base.{
  ℕ, String, Bool, false, Option, none, some, List, if◌then◌else◌, not, ltb, str_eq,
}
use boring_orch_agent.Schema.{
  Attempt, Spec, Action, Result, ok, err, AgentError, invalid_request, gone, ◌>>=◌, ◌>>◌, raise_if,
}

-- The bytes of a file by what is asked of them: `loads` is the value that json.loads reads, in
-- canonical text, `strict` that of strict_json, `text` its UTF-8 text; none where these fail.
pub record File : Type 0 where
  pub size : ℕ
  pub sha256 : String
  pub loads : Option String
  pub strict : Option String
  pub text : Option String

pub data Read : Type 0 where
  missing unreadable : Read
  contents : File → Read

-- What a result delivered to another task holds.
pub record Payload : Type 0 where
  pub source_task_id : ℕ
  pub result : Option String
  pub files : List (String × String)

pub record Files : Type 0 where
  -- the text f"artifacts/{id}.json"
  pub artifact_path : ℕ → String
  -- a symbolic link, or a path that resolves outside of the artifact directory
  pub escapes : String → Bool
  pub read : String → Read
  -- jsonschema: the value (second) satisfies the schema (first)
  pub conforms : String → String → Bool
  -- digest of a specification
  pub digest : Spec → String
  -- pathlib on relative paths, and the file that a workspace (first) has there, inside of it
  pub is_absolute : String → Bool
  pub parts : String → List String
  pub workspace_file : String → String → Option File
  pub canonical : Payload → String

unfoldable pub is_path : Option String → String → Bool
is_path none p = false
is_path (some q) p = str_eq q p

pub record ResultVerdict : Type 0 where
  pub attempt_id : ℕ
  pub result_path : Option String
  pub result_sha256 : Option String
  pub spec_sha256 : String
  pub desired_action : Action
  pub result : Option String
  pub error : Option String

-- str(exc), by the kind of the exception
abbrev pub error_text : AgentError → String
error_text gone = "Result artifact has expired"
error_text _ = "Result validation failed"

module _ (fs : Files) where
  bounded : ℕ → Read → Result File
  bounded limit missing = err gone
  bounded limit unreadable = err invalid_request
  bounded limit (contents f) = if ltb limit f.size then err invalid_request else ok f

  -- _artifact_data
  unfoldable pub artifact_data : Attempt → Spec → Result File
  unfolding is_path bounded
  artifact_data a spec = do
    raise_if (not (is_path a.result_path (fs.artifact_path a.id))) invalid_request
    raise_if (fs.escapes (fs.artifact_path a.id)) invalid_request
    bounded spec.max_output_bytes (fs.read (fs.artifact_path a.id))

  unfoldable pub artifact_checksum : Attempt → Spec → Result String
  unfolding artifact_data
  artifact_checksum a spec = do f ← artifact_data a spec; ok f.sha256

  conforming : Spec → Option String → Result String
  conforming spec none = err invalid_request
  conforming spec (some value) =
      if fs.conforms spec.output_schema value then ok value else err invalid_request

  -- read_result with validate=True
  unfoldable pub read_result : Attempt → Spec → Result String
  unfolding artifact_data conforming is_path
  read_result a spec = do
    f ← artifact_data a spec
    raise_if (not (is_path a.result_sha256 f.sha256)) invalid_request
    conforming spec f.strict

  unfoldable pub prevalidate_result : Attempt → Spec → Action → Result ResultVerdict
  unfolding read_result
  prevalidate_result a spec desired = do
    value ← read_result a spec
    ok (record {
      attempt_id = a.id;
      result_path = a.result_path;
      result_sha256 = a.result_sha256;
      spec_sha256 = fs.digest spec;
      desired_action = desired;
      result = some value;
      error = none;
    })
