-- ===== src/Transfer.antt =====
-- crates/ssh-core/src/transfer.rs: the categories of a failed transfer, with their codes and messages.
use mcp_ssh_rs.Prelude.{Bool, true, false}
use mcp_ssh_rs.Text.{Text, text}

pub data Failure : Type 0 where
  not_found permission_denied too_large symbolic_link sftp_unavailable remote_io : Failure
  publication_unavailable timed_out worker_stopped cancelled unsupported_operation : Failure
  replacement_unknown staging_cleanup_failed : Failure

-- `Failure::code`.
unfoldable pub code : Failure → Text
code Failure.not_found = text "not_found"
code Failure.permission_denied = text "permission_denied"
code Failure.too_large = text "too_large"
code Failure.symbolic_link = text "symbolic_link"
code Failure.sftp_unavailable = text "sftp_unavailable"
code Failure.remote_io = text "remote_io"
code Failure.publication_unavailable = text "publication_unavailable"
code Failure.timed_out = text "timed_out"
code Failure.worker_stopped = text "worker_stopped"
code Failure.cancelled = text "cancelled"
code Failure.unsupported_operation = text "unsupported_operation"
code Failure.replacement_unknown = text "replacement_unknown"
code Failure.staging_cleanup_failed = text "staging_cleanup_failed"

-- `Failure::message`.
unfoldable pub message : Failure → Text
message Failure.not_found = text "The remote file or directory was not found."
message Failure.permission_denied = text "The remote account was denied file access."
message Failure.too_large = text "The file exceeds the configured transfer size limit."
message Failure.symbolic_link = text "The remote path resolves through a symbolic link."
message Failure.sftp_unavailable = text "The remote SFTP service is unavailable."
message Failure.remote_io = text "The remote file operation failed."
message Failure.publication_unavailable =
    text "The download could not be published to local output storage."
message Failure.timed_out = text "The transfer exceeded its time limit."
message Failure.worker_stopped = text "The transfer worker ended unexpectedly."
message Failure.cancelled =
    text "The transfer was cancelled locally; remote work may be incomplete."
message Failure.unsupported_operation =
    text "The SFTP peer does not support the requested operation."
message Failure.replacement_unknown =
    text
      "The replacement outcome is unknown; the destination may have been replaced. Investigate before retrying."
message Failure.staging_cleanup_failed =
    text
      "The staged operation failed and temporary file removal was not confirmed; inspect both named paths before retrying."

abbrev pub is_unsupported : Failure → Bool
is_unsupported Failure.unsupported_operation = true
is_unsupported _ = false
