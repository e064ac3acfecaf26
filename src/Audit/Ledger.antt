-- ===== src/Audit/Ledger.antt =====
-- crates/ssh-core/src/audit.rs: what the ledger writes, and what it hands out for it.
mod Events
mod Checks
unfoldable pub use Events.*
unfoldable pub use Checks.*
use mcp_ssh_rs.Prelude.{
  ℕ, Bool, true, false, not, ◌&&◌, Option, none, some, nat_beq, if◌then◌else◌, Result, ok, err,
  ◌==◌, nat_eq,
}
use mcp_ssh_rs.Text.{Text, text_eq}
use mcp_ssh_rs.Dict.{Dict, get, insert}
use mcp_ssh_rs.Action.{kind}
use mcp_ssh_rs.Command.{program}
use mcp_ssh_rs.Policy.{Decision, Verdict, permit, needs_approval, deny}
use mcp_ssh_rs.Session.{Session}
use mcp_ssh_rs.Digest.{digest_action}
use mcp_ssh_rs.Approval.{Approver, Asked, Answer, Grant, human, override, session_standing}
use mcp_ssh_rs.Run.{Outcome, still_running, record_output, moved_file, debug_state}
use mcp_ssh_rs.Audit.{
  Answerer, ApprovalMode, Attribution, AuditError, Authorization, Entry, Event, Held, Proof,
  Receipt, attribution_of, intact, sealed, digest_of_held,
}
use mcp_ssh_rs.Audit.State.{
  State, Limits, ReadableDecision, EvaluationIndex, pure, fail, ◌>>=◌, ◌>>◌, gets, modify, fail_if,
  lift, get_at, back, entry_at, active_proof,
}
use mcp_ssh_rs.Audit.State
use mcp_ssh_rs.Audit.Retention.{Codec, Written, digest_of, digest_or, prepare, commit, is_readable}

-- The parameters of a ledger: how entries are written, whether the recording boundary takes an entry,
-- the digest that its chain starts from, and its limits.
module _ (codec : Codec) (accepts : Entry → Bool) (genesis : Text) (limits : Limits) where
  -- The end of `append_to`, of a hashed entry.
  unfoldable pub append_hashed : Entry → ℕ → State.Action Written
  append_hashed entry address = do
    prepared ← prepare codec entry.at limits entry (pins entry.event)
    fail_if (not (accepts entry)) AuditError.not_recorded
    commit entry prepared (pins entry.event) address

  -- `Ledger::append_to` at a time; a proof that it makes is at `address`.
  unfoldable pub append_to : Attribution → Event → ℕ → ℕ → State.Action Written
  unfolding append_hashed
  append_to who event at address = do
    entry ← gets (λ s. draft s genesis who event at)
    digest ← lift (digest_of codec entry)
    append_hashed (record entry { digest = digest }) address

  abbrev append : Attribution → Event → ℕ → ℕ → State.Action Entry
  append who event at address = do written ← append_to who event at address; pure written.entry

  -- `Ledger::record_intent`.
  unfoldable pub record_intent : Decision → Text → ℕ → ℕ → State.Action Intent
  unfolding append_to
  record_intent decision agent_intent at address = do
    written ←
        append_to (attribution_of decision.session) (decided_event decision agent_intent) at address
    modify (index_decision decision agent_intent written.entry)
    receipt ←
        lift
          (if is_permit decision.verdict then some_of (receipt_for decision written) else ok none)
    pure (record {
      entry = written.entry;
      decision = decision;
      agent_intent = agent_intent;
      receipt = receipt;
      proof = written.proof;
    })

  -- `Ledger::record_approval`.
  unfoldable pub record_approval : Intent → Grant → ℕ → ℕ → State.Action (Receipt × Approver)
  unfolding append_to this_deliberation
  record_approval intended grant at address = do
    fail_if (not (is_needs_approval intended.decision.verdict))
        (AuditError.not_held_for_approval grant.decided)
    fail_if
        (not (
          grant.action
          == digest_action codec.sha256 intended.decision.action intended.agent_intent))
        (AuditError.not_its_approval grant.decided)
    fail_if (not (grant.session == intended.decision.session.id))
        (AuditError.not_its_approval grant.decided)
    this_deliberation grant.decided grant.decided_digest intended.decision.session.id
    written ←
        append_to (attribution_of intended.decision.session)
          (Event.approved grant.decided grant.request (answerer_of grant.approver)) at address
    receipt ← lift (receipt_for intended.decision written)
    pure (receipt, grant.approver)

  -- `Ledger::record_answer`.
  unfoldable pub record_answer : Answer → ℕ → ℕ → State.Action Entry
  unfolding append_to this_deliberation
  record_answer answer at address = do
    this_deliberation answer.asked.decided answer.asked.decided_digest answer.asked.session
    append (about answer.asked)
        (Event.answered answer.asked.decided answer.asked.id (answerer_of answer.approver)
          answer.agreed)
        at address

  -- `Ledger::record_outcome`, which gives back the entry of the `Accounted` outcome.
  unfoldable pub record_outcome : Outcome → ℕ → ℕ → State.Action Entry
  unfolding append_to this_records_decision complete
  record_outcome outcome at address = do
    fail_if (still_running outcome) (AuditError.still_running outcome.run)
    this_records_decision outcome.authorization
    fail_if (← gets (is_completed outcome.authorization.proof))
        (AuditError.already_completed outcome.run)
    written ← append_to outcome.authorization.who (completion_of outcome) at address
    modify (complete outcome.authorization.proof)
    pure written.entry

  -- `Ledger::record_cancellation`.
  unfoldable pub record_cancellation : Text → Authorization → ℕ → ℕ → State.Action Entry
  unfolding append_to this_records_decision
  record_cancellation run authorization at address = do
    this_records_decision authorization
    append authorization.who (Event.cancellation_requested run authorization.sequence) at address

  unfoldable pub record_session_opened : Session → ℕ → ℕ → State.Action Entry
  unfolding append_to
  record_session_opened held at address =
      append (attribution_of held) (Event.session_opened held.purpose held.access_class) at address

  unfoldable pub record_session_closed : Session → ℕ → ℕ → State.Action Entry
  unfolding append_to
  record_session_closed held at address =
      append (attribution_of held) Event.session_closed at address

  unfoldable pub record_session_terminated : Session → Text → ℕ → ℕ → State.Action Entry
  unfolding append_to
  record_session_terminated held operator at address =
      append (attribution_of held) (Event.session_terminated operator) at address
