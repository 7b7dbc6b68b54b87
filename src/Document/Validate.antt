-- ===== src/Document/Validate.antt =====
-- validate_spec of boring_agent/model.py as a whole, and what the store reads of its result.
use Prim.Native.String.{len}
use boring_orch_agent.Base.{ℕ, String, Bool, not, ltb}
use boring_orch_agent.Schema.{Spec, Result, ok, ◌>>=◌, ◌>>◌}
use boring_orch_agent.Document.Json.{Json, Number, obj}
use boring_orch_agent.Document.Checks.{fields, demand}
use boring_orch_agent.Document.Task.{Host, TaskDocument, task_fields, accept_task}
use boring_orch_agent.Document.Written.{document}

module _ (h : Host) where
  -- A document whose print is within 256000 bytes.
  unfoldable pub printable : TaskDocument → Result TaskDocument
  printable t = do printed ← h.canonical (document t); demand (not (ltb 256000 (len printed))); ok t

  unfoldable pub validate_spec : Json → String → Bool → Result TaskDocument
  unfolding fields accept_task printable
  validate_spec value root allow_write = do
    raw ← fields task_fields value
    t ← accept_task h root allow_write raw
    printable t

-- A validated document as the store and the manager read it; `ticks` is the unit of time and `schema`
-- the print of the output schema.
unfoldable pub spec_of : (Number → ℕ) → (Json → String) → TaskDocument → Spec
spec_of ticks schema t = record {
  runtime = t.runtime;
  sandbox = t.sandbox;
  workspace = t.workspace;
  output_schema = schema (obj t.output_schema);
  deadline_seconds = ticks t.budget.deadline_seconds;
  max_output_bytes = t.budget.max_output_bytes;
  max_tokens = t.budget.max_tokens;
  retry = record {
    max_attempts = t.retry.max_attempts;
    replay_safe = t.retry.replay_safe;
    backoff_seconds = ticks t.retry.backoff_seconds;
    on = t.retry.on;
  };
}
