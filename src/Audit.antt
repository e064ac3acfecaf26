-- ===== src/Audit.antt =====
-- crates/ssh-core/src/audit.rs: the entries of the record, and what the record hands out.
pub mod Secrets
pub mod State
pub mod Retention
pub mod Ledger
pub mod Verify
pub mod Evaluation
pub mod Assessing
pub mod Chain
pub mod Soundness
pub mod Room
pub mod Append
pub mod Moves
pub mod Kept
pub mod Calls
pub mod Checking
pub mod Record
pub mod Completion
pub mod Places
pub mod Enough
pub mod Expiry
pub mod Always
pub mod Receipts
pub mod Granting
pub mod Questions
pub mod Pinned
pub mod Reviewed
use mcp_ssh_rs.Prelude.{ℕ, Bool, Option, List}
use mcp_ssh_rs.Text.{Text}
use mcp_ssh_rs.Ids.{AccessClass}
use mcp_ssh_rs.Action.{Action, ActionKind, FileIdentity}
use mcp_ssh_rs.Policy.{Decision, Verdict}
use mcp_ssh_rs.Session.{Session}
use mcp_ssh_rs.Files.Info.{FileInfo}

pub data Recorded : Type 0 where
  -- The text, whether it is short of what the target produced, and how much that was.
  kept : Text → Bool → ℕ → Recorded
  -- How much the target produced, and what it looked like.
  withheld : ℕ → Text → Recorded

pub data ApprovalMode : Type 0 where
  direct override session : ApprovalMode

pub data EvaluationVerdict : Type 0 where
  supports_intent does_not_support_intent uncertain : EvaluationVerdict

pub record EvaluationArtifact : Type 0 where
  pub evaluation_id : Text
  pub decision_digest : Text
  pub evaluator : Text
  pub model : Text
  pub prompt_version : Text
  pub verdict : EvaluationVerdict
  pub confidence : ℕ
  pub rationale : Text
  pub side_effects : List Text

-- The fields of `Event::Decided`, `Approved`, `Answered`, `Completed` and `Evaluated`.
pub record Decided : Type 0 where
  pub operation : ActionKind
  pub agent_intent : Text
  pub argv : List Text
  pub program : Text
  pub access_class : AccessClass
  pub purpose : Text
  pub verdict : Verdict
  pub policies : List Text

-- Who answered, and how.
pub record Answerer : Type 0 where
  pub approver : Text
  pub override_of : Option Text
  pub standing : Bool
  pub mode : ApprovalMode
  pub agreement : Option Text

pub record Completed : Type 0 where
  pub run : Text
  pub decided : ℕ
  pub state : Text
  pub stdout : Recorded
  pub stderr : Recorded
  pub file : Option FileIdentity
  pub info : Option FileInfo

pub record Evaluated : Type 0 where
  pub operation : ActionKind
  pub artifact : EvaluationArtifact
  pub decided : ℕ
  pub argv : List Text
  pub agent_intent : Text
  pub purpose : Text
  pub access_class : AccessClass

pub data Event : Type 0 where
  session_opened : Text → AccessClass → Event
  decided : Decided → Event
  -- The entry that asked, the request, and who answered.
  approved : ℕ → Text → Answerer → Event
  answered : ℕ → Text → Answerer → Bool → Event
  completed : Completed → Event
  cancellation_requested : Text → ℕ → Event
  session_closed : Event
  session_terminated : Text → Event
  evaluated : Evaluated → Event

pub record Attribution : Type 0 where
  pub session : Text
  pub principal : Text
  pub host : Text
  pub role : Text

-- `Attribution::of`.
abbrev pub attribution_of : Session → Attribution
attribution_of held = record {
  session = held.id;
  principal = held.principal;
  host = held.host;
  role = held.role;
}

-- A digest is the text that it wraps.
pub record Entry : Type 0 where
  pub sequence : ℕ
  pub at : ℕ
  pub session : Text
  pub principal : Text
  pub host : Text
  pub role : Text
  pub event : Event
  pub previous : Text
  pub digest : Text

-- What an `Arc<Proof>` points to.
pub record Proof : Type 0 where
  pub entry : Entry
  pub bytes : ℕ
  pub completed : Bool

-- `proof` is the address of the shared proof.
pub record Authorization : Type 0 where
  pub sequence : ℕ
  pub digest : Text
  pub who : Attribution
  pub proof : ℕ

pub record Receipt : Type 0 where
  pub authorization : Authorization
  pub action : Action

-- An entry as the ledger holds it: whole, or its place and its two digests.
pub data Held : Type 0 where
  intact : Entry → Held
  sealed : ℕ → Text → Text → Held

abbrev pub sequence_of : Held → ℕ
sequence_of (intact entry) = entry.sequence
sequence_of (sealed sequence previous digest) = sequence

abbrev pub previous_of : Held → Text
previous_of (intact entry) = entry.previous
previous_of (sealed sequence previous digest) = previous

abbrev pub digest_of_held : Held → Text
digest_of_held (intact entry) = entry.digest
digest_of_held (sealed sequence previous digest) = digest

pub data AuditError : Type 0 where
  not_recorded : AuditError
  unserializable : Text → AuditError
  full retention_corrupt evaluation_full : AuditError
  not_held_for_approval not_its_approval no_such_decision not_its_decision : ℕ → AuditError
  still_running already_completed : Text → AuditError
  evaluation_decision_unknown evaluation_conflict decision_already_evaluated : Text → AuditError

pub data Broken : Type 0 where
  link_mismatch content_altered : ℕ → Broken
  out_of_order : ℕ → ℕ → Broken
  unreadable : ℕ → Broken
  entries_missing : ℕ → ℕ → Broken
  head_mismatch : Broken

pub record Verified : Type 0 where
  pub entries : ℕ
  pub sealed : ℕ
  pub retired : ℕ
