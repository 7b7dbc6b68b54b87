-- ===== src/Artifacts/Reads.antt =====
-- What a read of a result artifact has checked (boring_agent/artifacts.py).
use boring_orch_agent.Base.{◌≡◌, ◌≤◌, String, true, Option, none, some, arith, not}
use boring_orch_agent.Schema.{Attempt, Spec, ok, invalid_request, bind_ok, raise_if, raise_if_ok}
use boring_orch_agent.Artifacts.{
  File, Files, is_path, artifact_data, artifact_checksum, bounded, conforming, read_result,
}

-- The artifact of the attempt: read whole within the contract's size, with the recorded checksum.
pub record IsIntact (fs : Files) (a : Attempt) (spec : Spec) (f : File) : Type 0 where
  pub bytes : artifact_data fs a spec ≡ ok f
  pub checksum : is_path a.result_sha256 f.sha256 ≡ true
  pub within : f.size ≤ spec.max_output_bytes

artifact_data-within :
    (fs : Files) (a : Attempt) (spec : Spec) (f : File)
    → artifact_data fs a spec ≡ ok f
    → f.size ≤ spec.max_output_bytes
unfolding artifact_data bounded
artifact_data-within fs a spec f h = ground (arith, h)

conforming_ok :
    (fs : Files) (spec : Spec) (o : Option String) (value : String)
    → conforming fs spec o ≡ ok value
    → (o ≡ some value) × (fs.conforms spec.output_schema value ≡ true)
unfolding conforming
conforming_ok fs spec none value h = cc h
conforming_ok fs spec (some v) value h = ground (arith, h)

pub read_result-IsIntact :
    (fs : Files) (a : Attempt) (spec : Spec) (value : String)
    → read_result fs a spec ≡ ok value
    → (f : File) × IsIntact fs a spec f
      × (f.strict ≡ some value)
      × (fs.conforms spec.output_schema value ≡ true)
unfolding read_result
read_result-IsIntact fs a spec value h =
    let (f, bytes, h₁) = bind_ok (artifact_data fs a spec) _ value h in
    let (u, clean, h₂) =
      bind_ok (raise_if (not (is_path a.result_sha256 f.sha256)) invalid_request) _ value h₁ in
    let matches = raise_if_ok _ _ u clean in
    let (content, conforms) = conforming_ok fs spec f.strict value h₂ in
    (
      f,
      record {
        bytes = bytes;
        checksum = ground (arith, matches);
        within = artifact_data-within fs a spec f bytes;
      },
      content,
      conforms,
    )

pub artifact_checksum-IsIntact :
    (fs : Files) (a : Attempt) (spec : Spec) (checksum : String)
    → artifact_checksum fs a spec ≡ ok checksum
    → is_path a.result_sha256 checksum ≡ true
    → (f : File) × IsIntact fs a spec f
unfolding artifact_checksum
artifact_checksum-IsIntact fs a spec checksum h same =
    let (f, bytes, h₁) = bind_ok (artifact_data fs a spec) _ checksum h in
    (
      f,
      record {
        bytes = bytes;
        checksum = ground (arith, same, h₁);
        within = artifact_data-within fs a spec f bytes;
      },
    )
