-- ===== src/Audit/Moves.antt =====
-- crates/ssh-core/src/audit.rs: the calls on a ledger as moves of its state.
use mcp_ssh_rs.Prelude.{ℕ, ◌≡◌, ◌≢◌, Bool, none, nat_eq}
use mcp_ssh_rs.Text.{Text}
use mcp_ssh_rs.Dict.{get, remove}
use mcp_ssh_rs.Session.{Session}
use mcp_ssh_rs.Policy.{Decision}
use mcp_ssh_rs.Approval.{Grant, Answer}
use mcp_ssh_rs.Run.{Outcome}
use mcp_ssh_rs.Audit.{Authorization, Entry, EvaluationArtifact}
use mcp_ssh_rs.Audit.State.{State, Limits}
use mcp_ssh_rs.Audit.Retention.{Codec, reclaim}
use mcp_ssh_rs.Audit.Ledger.{
  Intent, record_intent, record_approval, record_answer, record_outcome, record_cancellation,
  record_session_opened, record_session_closed, record_session_terminated,
}
use mcp_ssh_rs.Audit.Assessing.{record_evaluation}
use mcp_ssh_rs.Audit.Verify.{seal_before}

pub data Call : Type 0 where
  intent : Decision → Text → Call
  approval : Intent → Grant → Call
  answer : Answer → Call
  outcome : Outcome → Call
  cancellation : Text → Authorization → Call
  opened closed : Session → Call
  terminated : Session → Text → Call
  -- An evaluation, and the time of its first reclaim.
  evaluation : EvaluationArtifact → ℕ → Call
  sealing : ℕ → Call
  reclaiming : Call

module _ (codec : Codec) (accepts : Entry → Bool) (genesis : Text) (limits : Limits) where
  -- The state that a call leaves, whether it succeeds or not.
  unfoldable pub apply : Call → ℕ → ℕ → State → State
  apply (Call.intent decision intended) at address s =
      (record_intent codec accepts genesis limits decision intended at address s).0
  apply (Call.approval intended grant) at address s =
      (record_approval codec accepts genesis limits intended grant at address s).0
  apply (Call.answer given) at address s =
      (record_answer codec accepts genesis limits given at address s).0
  apply (Call.outcome what) at address s =
      (record_outcome codec accepts genesis limits what at address s).0
  apply (Call.cancellation run authorization) at address s =
      (record_cancellation codec accepts genesis limits run authorization at address s).0
  apply (Call.opened held) at address s =
      (record_session_opened codec accepts genesis limits held at address s).0
  apply (Call.closed held) at address s =
      (record_session_closed codec accepts genesis limits held at address s).0
  apply (Call.terminated held operator) at address s =
      (record_session_terminated codec accepts genesis limits held operator at address s).0
  apply (Call.evaluation artifact now) at address s =
      (record_evaluation codec accepts genesis limits artifact now at address s).0
  apply (Call.sealing sequence) at address s = seal_before codec sequence s
  apply Call.reclaiming at address s = (reclaim codec at limits s).0

  -- What can happen to a ledger while somebody holds the proof at an address: a call, whose proof goes
  -- where there is none, or the end of another proof.
  pub data Move (kept : ℕ) : State → State → Type 0 where
    called :
        {s : State}
        → (call : Call) → (at address : ℕ) → get address s.heap ≡ none
        → Move kept s (apply call at address s)
    dropped :
        {s : State}
        → (address : ℕ) → address ≢ kept
        → Move kept s (record s { heap = remove address s.heap })

  pub data Moves (kept : ℕ) : State → State → Type 0 where
    stayed : {s : State} → Moves kept s s
    moved : {s t u : State} → Moves kept s t → Move kept t u → Moves kept s u
