-- ===== src/Document/Authority.antt =====
-- What validate_coddy of boring_agent/model.py lets through.
use boring_orch_agent.Base.{
  String, ◌≡◌, refl, ap, ◌∙◌, Bool, true, false, Option, none, some, [], ◌∷◌, ◌&&◌, is_none,
}
use boring_orch_agent.Schema.{Runtime, raise_if, invalid_request}
use boring_orch_agent.Document.Json.{whole, Json, null, bool, str, Fields, field_or}
use boring_orch_agent.Document.Text.{is_agent_name}
use boring_orch_agent.Document.Checks.{
  fields, number_in, as_bool, as_text, optional, bounded_text, session_mention,
  coddy_session_id_from_mention,
}
use boring_orch_agent.Document.Coddy.{
  Coddy, Mention, tenth, mention_of, mention_fields, agent_of, prompt_of, permission_mode, coddy_of,
  validate_coddy, is_llm, is_bypass, written_session,
}
use boring_orch_agent.Document.Ensures.{Ensures, raises, returns, step, any}
use boring_orch_agent.Document.Numbers.{Within, Given, number_in-Within, optional-Given, demanded}

pub never_raised : (b : Bool) → Ensures (λ _. b ≡ false) (raise_if b invalid_request)
never_raised true = raises invalid_request
never_raised false = returns tt refl

abbrev pub IsMention : Mention → Type 0
IsMention m =
    (is_agent_name m.agent ≡ true)
    × Given (Within tenth (whole 86400)) m.expected_seconds
    × Given (Within tenth (whole 86400)) m.timeout_seconds

agent_of-name : (j : Json) → Ensures (λ a. is_agent_name a ≡ true) (agent_of j)
unfolding agent_of
agent_of-name j = step (any (as_text j)) λ a _. step (demanded (is_agent_name a)) λ _ h. returns a h

mention_of-IsMention : (objective : String) (j : Json) → Ensures IsMention (mention_of objective j)
unfolding mention_of
mention_of-IsMention objective j = step (any (fields mention_fields j)) λ raw _.
    step (agent_of-name (field_or "agent" null raw)) λ a ha.
      step (any (prompt_of (field_or "prompt" (str objective) raw))) λ p _.
        step (any (optional (bounded_text 200) (field_or "description" null raw))) λ d _.
          step (any (optional (bounded_text 200) (field_or "model" null raw))) λ m _.
            step (any (optional (bounded_text 200) (field_or "reasoning" null raw))) λ r _.
              step (any (as_bool (field_or "background" (bool false) raw))) λ b _.
                step (any (as_bool (field_or "notify_on_finish" (bool false) raw))) λ n _.
                  step (seconds (field_or "expected_seconds" null raw)) λ e he.
                    step (seconds (field_or "timeout_seconds" null raw)) λ t ht.
                      step (any (permission_mode (field_or "permission_mode" null raw)))
                        λ q _. returns _ (ha, he, ht)
  where
    seconds :
        (j' : Json)
        → Ensures (Given (Within tenth (whole 86400))) (optional (number_in tenth (whole 86400)) j')
    seconds =
        optional-Given (Within tenth (whole 86400)) (number_in tenth (whole 86400))
          (number_in-Within tenth (whole 86400))

-- A permission mode of bypass belongs to a session that is resumed.
abbrev pub IsCoddy : Coddy → Type 0
IsCoddy c = ((is_bypass c.permission && is_none c.session) ≡ false) × Given IsMention c.mention

written_session_some :
    (s : Option String) → Ensures (λ m. is_none m ≡ is_none s) (written_session s)
unfolding written_session
written_session_some none = returns none refl
written_session_some (some s) = step (any (session_mention s)) λ m _. returns (some m) refl

coddy_of-IsCoddy : (objective : String) (raw : Fields) → Ensures IsCoddy (coddy_of objective raw)
unfolding coddy_of
coddy_of-IsCoddy objective raw =
    step (any (coddy_session_id_from_mention (field_or "session" null raw))) λ s _.
      step (any (permission_mode (field_or "permission_mode" null raw))) λ p _.
        step (never_raised (is_bypass p && is_none s)) λ _ h.
          step (any (as_bool (field_or "stream" (bool true) raw))) λ b _.
            step
              (optional-Given IsMention (mention_of objective) (mention_of-IsMention objective)
                (field_or "mention" null raw))
              λ m hm.
                step (written_session_some s)
                  λ w hw. returns _ (ap (λ b. is_bypass p && b) hw ∙ h, hm)

pub validate_coddy-IsCoddy :
    (j : Json) (objective : String) (runtime : Runtime)
    → Ensures
        (Given (λ c. (is_llm runtime ≡ true) × IsCoddy c))
        (validate_coddy j objective runtime)
unfolding validate_coddy
validate_coddy-IsCoddy null objective runtime = returns none tt
validate_coddy-IsCoddy j objective runtime = step (demanded (is_llm runtime)) λ _ h.
    step (any (fields ("session" ∷ "permission_mode" ∷ "stream" ∷ "mention" ∷ []) j))
      λ raw _. step (coddy_of-IsCoddy objective raw) λ c hc. returns (some c) (h, hc)
