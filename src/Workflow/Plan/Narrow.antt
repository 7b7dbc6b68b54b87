-- ===== src/Workflow/Plan/Narrow.antt =====
-- _narrow_coddy of boring_agent/workflows.py.
pub mod Kept
use boring_orch_agent.Base.{
  ℕ, String, Bool, true, false, Option, none, some, List, [], ◌∷◌, if◌then◌else◌, ◌&&◌, ◌||◌, not,
  leb,
}
use boring_orch_agent.Schema.{Result, ok, err, invalid_request, uncaught, ◌>>=◌, ◌>>◌, raise_if}
use boring_orch_agent.Document.Json.{
  Json, null, bool, num, str, arr, obj, Fields, end, field, get, field_or, mem, keys, is_null,
}
use boring_orch_agent.Document.Checks.{demand, as_object}
use boring_orch_agent.Document.Coddy.{
  Coddy, Mention, PermissionMode, ask, accept_edits, bypass, permission_mode_of,
}
use boring_orch_agent.Document.Written.{
  of_coddy, of_mention, of_mode, or_null, coddy_fields, mention_entries,
}
use boring_orch_agent.Workflow.Plan.Merge.{set_field, overlay, has, is_same}

-- PERMISSION_RANK
abbrev pub rank : PermissionMode → ℕ
rank ask = 0
rank accept_edits = 1
rank bypass = 2

-- PERMISSION_RANK[mode] if mode else 0
abbrev pub limit_rank : Option PermissionMode → ℕ
limit_rank none = 0
limit_rank (some m) = rank m

unfoldable pub check_rank : ℕ → Option PermissionMode → Result (Unit {0})
check_rank limit none = err invalid_request
check_rank limit (some m) = demand (leb (rank m) limit)

-- mode is not None and (mode not in PERMISSION_RANK or PERMISSION_RANK[mode] > limit)
unfoldable pub check_mode : ℕ → Json → Result (Unit {0})
unfolding check_rank permission_mode_of
check_mode limit null = ok tt
check_mode limit (str s) = check_rank limit (permission_mode_of s)
check_mode limit (arr xs) = err uncaught
check_mode limit (obj fs) = err uncaught
check_mode limit _ = err invalid_request

-- The coddy block of a root that has none.
abbrev pub no_coddy : Coddy
no_coddy = record { session = none; permission = none; stream = true; mention = none }

abbrev pub root_or_default : Option Coddy → Coddy
root_or_default none = no_coddy
root_or_default (some c) = c

abbrev pub narrowable : List String
narrowable = "prompt" ∷ "description" ∷ "permission_mode" ∷ []

-- Every field but the narrowable ones equals the root's.
unfoldable pub keeps_fixed : List String → Fields → Fields → Bool
unfolding mem is_same get
keeps_fixed [] mention root = true
keeps_fixed (k ∷ ks) mention root =
    (mem k narrowable || is_same (field_or k null mention) (field_or k null root))
    && keeps_fixed ks mention root

abbrev pub or_else : Option PermissionMode → Option PermissionMode → Option PermissionMode
or_else none b = b
or_else (some a) b = some a

unfoldable pub narrow_mention : Coddy → Mention → Json → Result Fields
unfolding overlay keys keeps_fixed check_mode mention_entries
narrow_mention root root_mention requested = do
  given ← as_object requested
  demand (
      keeps_fixed (keys (overlay (mention_entries root_mention) given))
        (overlay (mention_entries root_mention) given) (mention_entries root_mention))
  check_mode (limit_rank (or_else root_mention.permission root.permission))
      (field_or "permission_mode" null (overlay (mention_entries root_mention) given))
  ok (overlay (mention_entries root_mention) given)

-- The mention of the merged block, where the child asks for one.
unfoldable pub merged_mention : Coddy → Fields → Fields → Result Fields
unfolding narrow_mention set_field get
merged_mention root requested merged =
    if is_null (field_or "mention" null requested) then ok merged else elim root.mention [
      | none ↦ err invalid_request
      | some root_mention ↦ do
        mention ← narrow_mention root root_mention (field_or "mention" null requested)
        ok (set_field "mention" (obj mention) merged)
    ]

-- merged.get("session") is not None and merged.get("session") != root["session"]
abbrev pub is_other_session : Json → Option String → Bool
is_other_session j session = not (is_null j) && not (is_same j (or_null str session))

unfoldable pub narrow_requested : Coddy → Fields → Result Fields
unfolding overlay merged_mention check_mode is_same get coddy_fields
narrow_requested root requested = do
  raise_if
      (is_other_session (field_or "session" null (overlay (coddy_fields root) requested))
        root.session)
      invalid_request
  check_mode (limit_rank root.permission)
      (field_or "permission_mode" null (overlay (coddy_fields root) requested))
  merged_mention root requested (overlay (coddy_fields root) requested)

-- None is a block that the child drops.
unfoldable pub narrow_given : Option Coddy → Json → Result (Option Json)
unfolding narrow_requested
narrow_given root null = ok none
narrow_given root (obj requested) = do
  merged ← narrow_requested (root_or_default root) requested
  ok (some (obj merged))
narrow_given root _ = err invalid_request

abbrev pub inherited : Option Coddy → Option Json
inherited none = none
inherited (some c) = some (of_coddy c)

unfoldable pub narrow_coddy : Option Coddy → Fields → Result (Option Json)
unfolding narrow_given of_coddy get
narrow_coddy root child_task = elim (get "coddy" child_task) [
  | none ↦ ok (inherited root)
  | some requested ↦ narrow_given root requested
]
