-- ===== src/Workflow/Plan/Child/Checked.antt =====
-- What the comparisons of _child_spec in boring_agent/workflows.py rule out.
use text.Mathlib.TextEquality.{eq_iff}
use boring_orch_agent.Document.Checks.{texts, optional, bounded_text}
use boring_orch_agent.Document.Task.{runtime_of, sandbox_of, may_write}
use boring_orch_agent.Document.Written.{of_runtime, of_sandbox, or_null}
use boring_orch_agent.Base.{
  ◌≤◌, ◌≡◌, refl, ap, get_or, sym, inl, inr, and_true, ◌≢◌, sym, inl, inr, and_true, ◌≢◌, Bool,
  true, false, Option, none, some, List, ◌∷◌, String, arith, not, ◌&&◌, ◌||◌,
}
use boring_orch_agent.Schema.{ok, Runtime, Sandbox, read_only, workspace_write, Result-cases}
use boring_orch_agent.Document.Json.{
  Json, null, bool, num, str, arr, obj, Items, nil, cons, is_subset, Fields, mem, is_at_most,
}
use boring_orch_agent.Document.Parts.{RetryPolicy}
use boring_orch_agent.Document.Ensures.{Ensures, Post-Ensures}
use boring_orch_agent.Document.Reads.{ReadsRetry}
use boring_orch_agent.Workflow.Plan.Merge.{is_same, exceeds_number, exceeds_value}
use boring_orch_agent.Workflow.Plan.Child.{check_retry, all_among}

-- The retry policy `r` is within `root`.
abbrev pub IsWithinRetry : RetryPolicy → RetryPolicy → Type 0
IsWithinRetry root r =
    (r.max_attempts ≤ root.max_attempts) × ((r.replay_safe && not root.replay_safe) ≡ false)

pub check_retry-IsWithinRetry :
    (root r : RetryPolicy) (fs : Fields)
    → ReadsRetry fs r
    → Ensures (λ _. IsWithinRetry root r) (check_retry root fs)
unfolding check_retry exceeds_value exceeds_number is_at_most
check_retry-IsWithinRetry root r fs h =
    Post-Ensures (λ _. IsWithinRetry root r) (check_retry root fs) (rw (h.0, h.1) (ground arith))

is_same-str : (j : Json) (s : String) → is_same j (str s) ≡ true → j ≡ str s
unfolding is_same
is_same-str (str t) s h = ap str ((eq_iff t s).0 h)
is_same-str null s h = cc h
is_same-str (bool b) s h = cc h
is_same-str (num x) s h = cc h
is_same-str (arr xs) s h = cc h
is_same-str (obj fs) s h = cc h

is_same-null : (j : Json) → is_same j null ≡ true → j ≡ null
unfolding is_same
is_same-null null h = refl
is_same-null (bool b) h = cc h
is_same-null (num x) h = cc h
is_same-null (str s) h = cc h
is_same-null (arr xs) h = cc h
is_same-null (obj fs) h = cc h

is_same-or_null :
    (j : Json) (o : Option String) → is_same j (or_null str o) ≡ true → j ≡ or_null str o
is_same-or_null j (some s) h = is_same-str j s h
is_same-or_null j none h = is_same-null j h

is_same-of_runtime : (j : Json) (r : Runtime) → is_same j (of_runtime r) ≡ true → j ≡ of_runtime r
is_same-of_runtime j Runtime.llm h = is_same-str j "llm" h
is_same-of_runtime j Runtime.demo h = is_same-str j "demo" h

runtime_of-of_runtime : (r : Runtime) → runtime_of (of_runtime r) ≡ ok r
unfolding runtime_of
runtime_of-of_runtime Runtime.llm = refl
runtime_of-of_runtime Runtime.demo = refl

null_differs : (r : Runtime) → null ≢ of_runtime r
null_differs Runtime.llm e = cc e
null_differs Runtime.demo e = cc e

-- The runtime that is read is the one that was compared, whatever the default.
pub kept_runtime :
    (o : Option Json) (root r : Runtime)
    → is_same (get_or o null) (of_runtime root) ≡ true
    → runtime_of (get_or o (str "llm")) ≡ ok r
    → r ≡ root
kept_runtime none root r same reads = absurd (null_differs root (is_same-of_runtime null root same))
kept_runtime (some v) root r same reads =
    cc (rw (is_same-of_runtime v root same) at reads, runtime_of-of_runtime root)

sandbox_of-write : (j : Json) → sandbox_of j ≡ ok workspace_write → j ≡ str "workspace-write"
unfolding sandbox_of
sandbox_of-write (str s) h = ground (arith, h, eq_iff s "read-only", eq_iff s "workspace-write")
sandbox_of-write null h = cc h
sandbox_of-write (bool b) h = cc h
sandbox_of-write (num x) h = cc h
sandbox_of-write (arr xs) h = cc h
sandbox_of-write (obj fs) h = cc h

-- A sandbox that may write is the root's, and the root has the tool that writes.
pub narrower_sandbox :
    (o : Option Json) (root s : Sandbox) (has_tool : Bool)
    → (may_write root || is_same (get_or o (str "read-only")) (str "read-only")) ≡ true
    → (is_same (get_or o (of_sandbox root)) (str "workspace-write") && not has_tool) ≡ false
    → sandbox_of (get_or o (of_sandbox root)) ≡ ok s
    → ((may_write s && not (may_write root)) ≡ false) × ((may_write s && not has_tool) ≡ false)
unfolding is_same
narrower_sandbox o root read_only has_tool kept tool reads = (refl, refl)
narrower_sandbox none read_only workspace_write has_tool kept tool reads =
    cc (sandbox_of-write (str "read-only") reads)
narrower_sandbox none workspace_write workspace_write has_tool kept tool reads = (refl, tool)
narrower_sandbox (some v) root workspace_write has_tool kept tool reads =
    let v_eq = sandbox_of-write v reads in
    let granted : (may_write root || false) ≡ true = rw v_eq at kept in
    (ground (arith, granted), rw v_eq at tool)

pub texts-all_among :
    (allowed : List String) (xs : Items) (ss : List String)
    → texts xs ≡ ok ss
    → all_among allowed xs ≡ true
    → is_subset ss allowed ≡ true
unfolding texts all_among is_subset
texts-all_among allowed nil ss reads among = ground (arith, reads)
texts-all_among allowed (cons (str s) xs) ss reads among = elim (Result-cases (texts xs)) [
  | inl (rest, e) ↦
      let split = and_true (mem s allowed) (all_among allowed xs) among in
      let whole_list : s ∷ rest ≡ ss = ground (arith, e, reads) in
      rw (sym whole_list) (rw split.0 (texts-all_among allowed xs rest e split.1))
  | inr (x, e) ↦ absurd (ground (arith, e, reads))
]
texts-all_among allowed (cons null xs) ss reads among = cc among
texts-all_among allowed (cons (bool b) xs) ss reads among = cc among
texts-all_among allowed (cons (num x) xs) ss reads among = cc among
texts-all_among allowed (cons (arr x) xs) ss reads among = cc among
texts-all_among allowed (cons (obj x) xs) ss reads among = cc among

kept_model :
    (root m : Option String) → optional (bounded_text 200) (or_null str root) ≡ ok m → m ≡ root
unfolding optional bounded_text
kept_model none m h = cc h
kept_model (some s) m h = ground (arith, h)

pub same_model :
    (j : Json) (root m : Option String)
    → is_same j (or_null str root) ≡ true
    → optional (bounded_text 200) j ≡ ok m
    → m ≡ root
same_model j root m same reads = kept_model root m (rw (is_same-or_null j root same) at reads)
