-- ===== src/Audit/Evaluation.antt =====
-- crates/ssh-core/src/audit.rs: evaluations of recorded decisions.
use mcp_ssh_rs.Prelude.{
  ℕ, Bool, not, ◌&&◌, ◌||◌, List, [], ◌∷◌, length, ltb, nat_beq, all, ok, Result, guard, ◌>>◌,
}
use mcp_ssh_rs.Text.{Text, text, text_eq, bytes, is_whitespace, is_alphanumeric, is_lower_hex}
use mcp_ssh_rs.Audit.{EvaluationArtifact, EvaluationVerdict}

-- `EvaluationDraft`.
pub record EvaluationDraft : Type 0 where
  pub evaluation_id : Text
  pub decision_digest : Text
  pub model : Text
  pub prompt_version : Text
  pub verdict : EvaluationVerdict
  pub confidence : ℕ
  pub rationale : Text
  pub side_effects : List Text

pub data EvaluationError : Type 0 where
  blank : Text → EvaluationError
  too_long : Text → ℕ → EvaluationError
  invalid_id invalid_digest invalid_confidence too_many_side_effects : EvaluationError

-- `value.trim().is_empty()`, then `value.len() > max`.
unfoldable pub bounded : Text → Text → ℕ → Result EvaluationError (Unit {0})
bounded field value max = do
  guard (not (all is_whitespace value)) (blank field)
  guard (not (ltb max (bytes value))) (too_long field max)

-- A byte of an identifier; a character that is not ASCII has none.
abbrev is_id_byte : ℕ → Bool
is_id_byte c =
    is_alphanumeric c || nat_beq c b'-' || nat_beq c b'_' || nat_beq c b'.' || nat_beq c b':'

unfoldable pub bounded_effects : List Text → Result EvaluationError (Unit {0})
bounded_effects [] = ok tt
bounded_effects (effect ∷ effects) = do
  bounded (text "side_effect") effect 256
  bounded_effects effects

-- `EvaluationArtifact::from_draft`.
unfoldable pub from_draft : EvaluationDraft → Text → Result EvaluationError EvaluationArtifact
unfolding bounded bounded_effects
from_draft draft evaluator = do
  bounded (text "evaluation_id") draft.evaluation_id 128
  guard (all is_id_byte draft.evaluation_id) invalid_id
  guard (nat_beq (bytes draft.decision_digest) 64 && all is_lower_hex draft.decision_digest)
      invalid_digest
  bounded (text "evaluator") evaluator 128
  bounded (text "model") draft.model 128
  bounded (text "prompt_version") draft.prompt_version 128
  bounded (text "rationale") draft.rationale 2048
  guard (not (ltb 100 draft.confidence)) invalid_confidence
  guard (not (ltb 16 (length draft.side_effects))) too_many_side_effects
  bounded_effects draft.side_effects
  ok (record {
    evaluation_id = draft.evaluation_id;
    decision_digest = draft.decision_digest;
    evaluator = evaluator;
    model = draft.model;
    prompt_version = draft.prompt_version;
    verdict = draft.verdict;
    confidence = draft.confidence;
    rationale = draft.rationale;
    side_effects = draft.side_effects;
  })
