-- ===== src/Action.antt =====
-- crates/ssh-core/src/action.rs: what a request asks for, and the arguments that show it. A remote
-- path is the text that it wraps.
pub mod Binding
use mcp_ssh_rs.Prelude.{
  ℕ, zero, suc, ◌+◌, ◌*◌, ◌/◌, ◌%◌, Bool, true, false, Option, none, some, List, [], ◌∷◌, ◌++◌, ltb,
  if◌then◌else◌, Result, ok, err, ◌>>=◌,
}
use mcp_ssh_rs.Text.{Text, text}
use mcp_ssh_rs.Command
use mcp_ssh_rs.Command.{Command, CommandError}

pub data ActionKind : Type 0 where
  execute download upload stat list checksum : ActionKind

pub data InfoOperation : Type 0 where
  stat list checksum : InfoOperation

-- `ActionKind::as_str`.
unfoldable pub as_str : ActionKind → Text
as_str ActionKind.execute = text "execute"
as_str ActionKind.download = text "download"
as_str ActionKind.upload = text "upload"
as_str ActionKind.stat = text "stat"
as_str ActionKind.list = text "list"
as_str ActionKind.checksum = text "checksum"

pub record FileIdentity : Type 0 where
  pub uri : Text
  pub bytes : ℕ
  pub sha256 : Text

pub data Operation : Type 0 where
  execute : Operation
  download : Text → Operation
  file_info : Text → InfoOperation → Operation
  -- The path, the source, whether to overwrite, and the staging path.
  upload : Text → FileIdentity → Bool → Option Text → Operation

pub record Action : Type 0 where
  pub operation : Operation
  pub command : Command

-- `u64::to_string`: a `u64` has at most twenty digits.
decimal_digits : ℕ → ℕ → Text → Text
decimal_digits zero n out = out
decimal_digits (suc fuel) n out =
    let digits = (b'0' + n % 10) ∷ out in
    let rest = decimal_digits fuel (n / 10) digits in if ltb n 10 then digits else rest

unfoldable pub decimal : ℕ → Text
unfolding decimal_digits
decimal n = decimal_digits 20 n []

unfoldable pub execute_action : Command → Action
execute_action command = record { operation = Operation.execute; command = command }

-- `Action::download`.
unfoldable pub download_action : Text → Result CommandError Action
download_action path = do
  command ← Command.new (text "file.download" ∷ path ∷ [])
  ok (record { operation = Operation.download path; command = command })

abbrev pub info_program : InfoOperation → Text
info_program InfoOperation.stat = text "file.stat"
info_program InfoOperation.list = text "file.list"
info_program InfoOperation.checksum = text "file.checksum"

-- `Action::file_info`.
unfoldable pub file_info_action : Text → InfoOperation → Result CommandError Action
file_info_action path operation = do
  command ← Command.new (info_program operation ∷ path ∷ [])
  ok (record { operation = Operation.file_info path operation; command = command })

abbrev pub stage_arguments : Option Text → List Text
stage_arguments none = []
stage_arguments (some stage) = text "staged" ∷ stage ∷ []

abbrev pub upload_arguments : Text → FileIdentity → Bool → Option Text → List Text
upload_arguments path source overwrite staging_path =
    text "file.upload"
    ∷ path
    ∷ decimal source.bytes
    ∷ source.sha256
    ∷ (if overwrite then text "replace" else text "create_new")
    ∷ stage_arguments staging_path

-- `Action::upload_with_staging`; `Action::upload` passes no staging path.
unfoldable pub upload_action : Text → FileIdentity → Bool → Option Text → Result CommandError Action
upload_action path source overwrite staging_path = do
  command ← Command.new (upload_arguments path source overwrite staging_path)
  ok (record { operation = Operation.upload path source overwrite staging_path; command = command })

abbrev info_kind : InfoOperation → ActionKind
info_kind InfoOperation.stat = ActionKind.stat
info_kind InfoOperation.list = ActionKind.list
info_kind InfoOperation.checksum = ActionKind.checksum

abbrev kind_of : Operation → ActionKind
kind_of Operation.execute = ActionKind.execute
kind_of (Operation.download path) = ActionKind.download
kind_of (Operation.upload path source overwrite staging_path) = ActionKind.upload
kind_of (Operation.file_info path operation) = info_kind operation

-- `Action::kind`.
unfoldable pub kind : Action → ActionKind
kind action = kind_of action.operation
