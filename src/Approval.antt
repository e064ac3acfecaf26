-- ===== src/Approval.antt =====
-- crates/ssh-core/src/approval.rs: requests for a human's approval, the answers, and the grants.
pub mod Agreements
pub mod Asking
pub mod Redeeming
pub mod Answering
pub mod Calls
pub mod Grants
pub mod Evolution
pub mod Changes
pub mod Transitions
pub mod Once
pub mod Queue
pub mod Refusal
pub mod Consent
pub mod Stated
use mcp_ssh_rs.Prelude.{ℕ, Bool, true, false, not, ◌&&◌, Option, none, some, List, [], leb, all}
use mcp_ssh_rs.Text.{Text, is_whitespace}
use mcp_ssh_rs.Dict.{Dict}
use mcp_ssh_rs.Ids.{AccessClass}
use mcp_ssh_rs.Action.{ActionKind}
use mcp_ssh_rs.Policy.{Decision}

pub data Approver : Type 0 where
  human : Text → Approver
  override : Text → Text → Approver
  -- Who agreed, and the agreement that answers for them.
  session_standing : Text → Text → Approver

-- `trim().is_empty()`.
abbrev is_blank : Text → Bool
is_blank s = all is_whitespace s

-- `Approver::is_stated`.
unfoldable pub is_stated : Approver → Bool
is_stated (human who) = not (is_blank who)
is_stated (override who because) = not (is_blank who) && not (is_blank because)
is_stated (session_standing who agreement) = not (is_blank who)

pub record Asked : Type 0 where
  pub operation : ActionKind
  pub id : Text
  pub session : Text
  pub principal : Text
  pub host : Text
  pub role : Text
  pub purpose : Text
  pub access_class : AccessClass
  pub command : List Text
  pub agent_intent : Text
  pub decided : ℕ
  pub decided_digest : Text
  pub why : Text
  pub asked_at : ℕ
  pub decide_by : ℕ

pub data Ask : Type 0 where
  new pending : Asked → Ask

-- `DecisionProof`, which two values share exactly if they name the same entry.
pub record DecisionProof : Type 0 where
  pub sequence : ℕ
  pub digest : Text

-- What `Intended` of audit.rs carries: a recorded decision, and the entry that recorded it.
pub record Intended : Type 0 where
  pub decision : Decision
  pub agent_intent : Text
  pub sequence : ℕ
  pub digest : Text
  pub proof : Option DecisionProof

pub record Answer : Type 0 where
  pub asked : Asked
  pub approver : Approver
  pub agreed : Bool
  pub proof : Option DecisionProof

pub record Grant : Type 0 where
  pub proof : Option DecisionProof
  pub request : Text
  pub session : Text
  pub approver : Approver
  pub action : Text
  pub decided : ℕ
  pub decided_digest : Text

pub data Standing (R : Type 0) : Type 0 where
  ready : R → Standing R
  waiting : Ask → Standing R
  lapsed : Ask → Approver → Standing R
  refused : Approver → Standing R

pub data State : Type 0 where
  waiting : State
  -- Who agreed, and whether the answer has crossed the recording boundary.
  approved : Approver → Bool → State
  refused : Approver → State
  redeemed : State

pub record Held : Type 0 where
  pub proof : Option DecisionProof
  pub asked : Asked
  pub action : Text
  pub state : State
  pub redeem_by : ℕ

pub record Windows : Type 0 where
  pub decide_within : ℕ
  pub redeem_within : ℕ

-- `StandingApproval`; its coverage, `StandingCoverage`, has the one value `Session`.
pub record StandingApproval : Type 0 where
  pub id : Text
  pub session : Text
  pub who : Text
  pub until : ℕ

pub data ApprovalError : Type 0 where
  unknown still_waiting refused already_redeemed different_action lapsed : ApprovalError
  unrecorded already_decided unattributed not_held too_many_waiting : ApprovalError

abbrev forgettable_in : State → ℕ → ℕ → ℕ → Bool
forgettable_in State.waiting decide_by redeem_by now = leb decide_by now
forgettable_in (State.approved by true) decide_by redeem_by now = false
forgettable_in (State.approved by false) decide_by redeem_by now = leb redeem_by now
forgettable_in (State.refused by) decide_by redeem_by now = false
forgettable_in State.redeemed decide_by redeem_by now = true

-- `Held::forgettable`.
unfoldable pub is_forgettable : Held → ℕ → Bool
is_forgettable held now = forgettable_in held.state held.asked.decide_by held.redeem_by now

-- `Approvals`, without its clock.
pub record Approvals : Type 0 where
  pub waiting_per_session : ℕ
  pub windows : Windows
  pub requests : Dict Text Held
  pub standing : Dict Text StandingApproval

unfoldable pub create : Windows → ℕ → Approvals
create windows waiting_per_session = record {
  waiting_per_session = waiting_per_session;
  windows = windows;
  requests = [];
  standing = [];
}
