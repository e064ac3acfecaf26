-- ===== src/Audit/Assessing.antt =====
-- crates/ssh-core/src/audit.rs: an evaluation joins the record.
use mcp_ssh_rs.Prelude.{
  ℕ, Bool, true, false, ◌&&◌, Option, none, some, List, [], ◌∷◌, length, leb, nat_beq, any,
  if◌then◌else◌, Result, ok, err, ◌==◌,
}
use mcp_ssh_rs.Text.{Text, text_eq}
use mcp_ssh_rs.Dict.{get, insert}
use mcp_ssh_rs.Audit.{AuditError, Entry, EvaluationArtifact, EvaluationVerdict, Event}
use mcp_ssh_rs.Audit.State
use mcp_ssh_rs.Audit.State.{
  State, Limits, ReadableDecision, EvaluationIndex, pure, fail, ◌>>=◌, ◌>>◌, gets, modify, fail_if,
  lift, entry_at,
}
use mcp_ssh_rs.Audit.Retention.{Codec, is_readable, reclaim}
use mcp_ssh_rs.Audit.Ledger.{append_to}

abbrev pub is_member : Text → List Text → Bool
is_member a xs = any (λ x. x == a) xs

abbrev same_verdict : EvaluationVerdict → EvaluationVerdict → Bool
same_verdict EvaluationVerdict.supports_intent EvaluationVerdict.supports_intent = true
same_verdict EvaluationVerdict.does_not_support_intent EvaluationVerdict.does_not_support_intent =
    true
same_verdict EvaluationVerdict.uncertain EvaluationVerdict.uncertain = true
same_verdict _ _ = false

abbrev same_texts : List Text → List Text → Bool
same_texts [] [] = true
same_texts (x ∷ xs) (y ∷ ys) = x == y && same_texts xs ys
same_texts _ _ = false

-- The derived `PartialEq` of `EvaluationArtifact`.
unfoldable pub same_artifact : EvaluationArtifact → EvaluationArtifact → Bool
same_artifact a b =
    a.evaluation_id == b.evaluation_id
    && a.decision_digest == b.decision_digest
    && a.evaluator == b.evaluator
    && a.model == b.model
    && a.prompt_version == b.prompt_version
    && same_verdict a.verdict b.verdict
    && nat_beq a.confidence b.confidence
    && a.rationale == b.rationale
    && same_texts a.side_effects b.side_effects

abbrev holds_artifact : EvaluationArtifact → Event → Bool
holds_artifact artifact (Event.evaluated what) = same_artifact what.artifact artifact
holds_artifact artifact _ = false

-- A retry of an identifier that was used.
abbrev pub retried : EvaluationArtifact → Option Entry → Result AuditError Entry
retried artifact none = err (AuditError.evaluation_conflict artifact.evaluation_id)
retried artifact (some entry) =
    if holds_artifact artifact entry.event
    then ok entry
    else err (AuditError.evaluation_conflict artifact.evaluation_id)

-- The event of an evaluation, with what the record repeats of its decision.
abbrev pub evaluated_event : EvaluationArtifact → ReadableDecision → Event
evaluated_event artifact decision = Event.evaluated (record {
  operation = decision.operation;
  artifact = artifact;
  decided = decision.sequence;
  argv = decision.argv;
  agent_intent = decision.agent_intent;
  purpose = decision.purpose;
  access_class = decision.access_class;
})

-- What the index keeps of an evaluation that was written.
unfoldable pub index_evaluation : EvaluationArtifact → Entry → State → State
index_evaluation artifact entry s = record s {
  evaluations = record s.evaluations {
    issued_ids = artifact.evaluation_id ∷ s.evaluations.issued_ids;
    evaluated_decisions = artifact.decision_digest ∷ s.evaluations.evaluated_decisions;
    readable_artifacts =
        if is_readable (entry_at entry.sequence s)
        then insert artifact.evaluation_id entry s.evaluations.readable_artifacts
        else s.evaluations.readable_artifacts;
  };
}

module _ (codec : Codec) (accepts : Entry → Bool) (genesis : Text) (limits : Limits) where
  -- The end of `record_evaluation`, of a decision that can be read.
  abbrev pub write_evaluation :
      EvaluationArtifact → ℕ → ℕ → Option ReadableDecision → State.Action Entry
  write_evaluation artifact at address none =
      fail (AuditError.evaluation_decision_unknown artifact.decision_digest)
  write_evaluation artifact at address (some decision) = do
    written ←
        append_to codec accepts genesis limits decision.attribution
          (evaluated_event artifact decision) at address
    modify (index_evaluation artifact written.entry)
    pure written.entry

  -- The part of `record_evaluation` for an identifier that is new.
  unfoldable pub record_new : EvaluationArtifact → ℕ → ℕ → State.Action Entry
  unfolding append_to index_evaluation
  record_new artifact at address = do
    fail_if (← gets (λ s. is_member artifact.decision_digest s.evaluations.evaluated_decisions))
        (AuditError.decision_already_evaluated artifact.decision_digest)
    fail_if (← gets (λ s. leb limits.evaluation_ids (length s.evaluations.issued_ids)))
        AuditError.evaluation_full
    decision ← gets (λ s. get artifact.decision_digest s.evaluations.readable_decisions)
    write_evaluation artifact at address decision

  -- `Ledger::record_evaluation`; `now` is the time of its `reclaim`.
  unfoldable pub record_evaluation : EvaluationArtifact → ℕ → ℕ → ℕ → State.Action Entry
  unfolding reclaim record_new
  record_evaluation artifact now at address = do
    reclaim codec now limits
    used ← gets (λ s. is_member artifact.evaluation_id s.evaluations.issued_ids)
    again ← gets (λ s. get artifact.evaluation_id s.evaluations.readable_artifacts)
    if used then lift (retried artifact again) else record_new artifact at address
