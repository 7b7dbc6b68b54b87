-- ===== src/Document/Mentions.antt =====
-- session_mention and session_id_from_mention of boring_agent/model.py read each other back.
use Prim.Native.String.{◌++◌ as append}
use text.Mathlib.TextEquality.{starts_with_iff}
use text.Mathlib.TextPositions.{slice-append_right, len-append}
use boring_orch_agent.Base.{
  String, ◌≡◌, ◌↔◌, ◌∙◌, sym, ap, some, inl, inr, Bool-cases, and_true, arith,
}
use boring_orch_agent.Schema.{ok}
use boring_orch_agent.Document.Json.{str}
use boring_orch_agent.Document.Checks.{
  mentioned, is_mention, session_id_from_mention, session_mention,
}

mentioned-append : (id : String) → mentioned (append "@session:" id) ≡ id
mentioned-append id = rw (len-append "@session:" id) (slice-append_right "@session:" id)

written_reads :
    (id m : String) → session_mention id ≡ ok m → session_id_from_mention (str m) ≡ ok (some id)
unfolding session_mention session_id_from_mention
written_reads id m w = elim (Bool-cases (is_mention (append "@session:" id))) [
  | inl e ↦
      let same : append "@session:" id ≡ m = ground (arith, e, w) in
      rw (sym same) (ground (arith, e, mentioned-append id))
  | inr e ↦ absurd (ground (arith, e, w))
]

read_writes :
    (id m : String) → session_id_from_mention (str m) ≡ ok (some id) → session_mention id ≡ ok m
unfolding session_mention session_id_from_mention
read_writes id m r = elim (Bool-cases (is_mention m)) [
  | inl e ↦
      let (rest, splits) = (starts_with_iff m "@session:").0 (and_true _ _ e).0 in
      let named : mentioned m ≡ id = ground (arith, e, r) in
      let tail : rest ≡ id = sym (mentioned-append rest) ∙ ap mentioned splits ∙ named in
      let m_eq : append "@session:" id ≡ m = ap (append "@session:") (sym tail) ∙ splits in
      rw (m_eq, e)
  | inr e ↦ absurd (ground (arith, e, r))
]

-- session_mention writes a session id as a mention exactly where session_id_from_mention reads that
-- id from the mention; in particular every mention that is written reads back as its id.
pub session_mention_round_trip :
    (id m : String) → (session_mention id ≡ ok m) ↔ (session_id_from_mention (str m) ≡ ok (some id))
unfolding session_mention session_id_from_mention
session_mention_round_trip id m = (λ w. written_reads id m w, λ r. read_writes id m r)
