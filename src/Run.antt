-- ===== src/Run.antt =====
-- crates/ssh-core/src/run.rs: where an execution has got to, and what a caller learns about it.
pub mod Collected
pub mod Shapes
pub mod Streams
pub mod Reader
pub mod Store
pub mod Service
pub mod Answers
pub mod Name
pub mod Unfinished
use mcp_ssh_rs.Prelude.{ℕ, Bool, true, false, Option, none, some, List, [], ◌∷◌, ◌++◌}
use mcp_ssh_rs.Text.{Text, text}
use mcp_ssh_rs.Action.{FileIdentity, decimal}
use mcp_ssh_rs.Transfer.{Failure}
use mcp_ssh_rs.Files.Info.{FileInfo}
use mcp_ssh_rs.Audit.{Authorization, Recorded, kept, withheld}

pub record Stream : Type 0 where
  pub text : Text
  pub truncated : Bool
  pub bytes : ℕ
  pub matched : Option Text

pub data RunState : Type 0 where
  running : RunState
  exited : ℕ → RunState
  ended refused indeterminate : RunState
  -- The cause, and whether a remote write may be partial.
  transfer_failed : Failure → Bool → RunState

-- `RunState::what_happened`.
unfoldable pub what_happened : RunState → Text
what_happened RunState.running = text "is still running"
what_happened (RunState.exited code) = text "ran"
what_happened RunState.ended = text "ran"
what_happened RunState.refused = text "did not run"
what_happened RunState.indeterminate = text "may or may not have run"
what_happened (RunState.transfer_failed cause partial) = text "failed to transfer"

abbrev debug_failure : Failure → Text
debug_failure Failure.not_found = text "NotFound"
debug_failure Failure.permission_denied = text "PermissionDenied"
debug_failure Failure.too_large = text "TooLarge"
debug_failure Failure.symbolic_link = text "SymbolicLink"
debug_failure Failure.sftp_unavailable = text "SftpUnavailable"
debug_failure Failure.remote_io = text "RemoteIo"
debug_failure Failure.publication_unavailable = text "PublicationUnavailable"
debug_failure Failure.timed_out = text "TimedOut"
debug_failure Failure.worker_stopped = text "WorkerStopped"
debug_failure Failure.cancelled = text "Cancelled"
debug_failure Failure.unsupported_operation = text "UnsupportedOperation"
debug_failure Failure.replacement_unknown = text "ReplacementUnknown"
debug_failure Failure.staging_cleanup_failed = text "StagingCleanupFailed"

abbrev debug_bool : Bool → Text
debug_bool true = text "true"
debug_bool false = text "false"

-- `format!("{:?}", state)`, by the derived `Debug`.
unfoldable pub debug_state : RunState → Text
debug_state RunState.running = text "Running"
debug_state (RunState.exited code) = text "Exited { code: " ++ (decimal code ++ text " }")
debug_state RunState.ended = text "Ended"
debug_state RunState.refused = text "Refused"
debug_state RunState.indeterminate = text "Indeterminate"
debug_state (RunState.transfer_failed cause partial) =
    text "TransferFailed { cause: "
    ++ (debug_failure cause
        ++ (text ", remote_write_may_be_partial: " ++ (debug_bool partial ++ text " }")))

pub data Transferred : Type 0 where
  output source : FileIdentity → Transferred

-- `Outcome`, without the shared output bytes.
pub record Outcome : Type 0 where
  pub run : Text
  pub authorization : Authorization
  pub state : RunState
  pub stdout : Stream
  pub stderr : Stream
  pub file : Option Transferred
  pub info : Option FileInfo

abbrev produced_of : Option Transferred → Option FileIdentity
produced_of (some (output identity)) = some identity
produced_of (some (source identity)) = none
produced_of none = none

abbrev moved_of : Option Transferred → Option FileIdentity
moved_of (some (output identity)) = some identity
moved_of (some (source identity)) = some identity
moved_of none = none

-- `Outcome::file`, and `Outcome::moved_file`.
unfoldable pub file_of : Outcome → Option FileIdentity
file_of outcome = produced_of outcome.file

unfoldable pub moved_file : Outcome → Option FileIdentity
moved_file outcome = moved_of outcome.file

abbrev is_running : RunState → Bool
is_running RunState.running = true
is_running _ = false

-- `Outcome::still_running`.
abbrev pub still_running : Outcome → Bool
still_running outcome = is_running outcome.state

abbrev recorded_as : Option Text → Stream → Recorded
recorded_as (some what) stream = withheld stream.bytes what
recorded_as none stream = kept stream.text stream.truncated stream.bytes

-- `record_output` of audit.rs.
unfoldable pub record_output : Stream → Recorded
record_output stream = recorded_as stream.matched stream
