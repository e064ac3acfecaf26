-- ===== src/Action/Binding.antt =====
-- The arguments that are shown, digested and recorded determine what an action does.
use mcp_ssh_rs.Prelude.{
  ℕ, zero, suc, ◌+◌, ◌-◌, ◌*◌, ◌/◌, ◌%◌, ◌^◌, ◌<◌, ◌≡◌, refl, sym, ap, ◌∙◌, Bool, true, false,
  Option, none, some, List, [], ◌∷◌, arith, ltb, Bool-cases, inl, inr, ok, Result-cases, ◌>>=◌,
  ◌==◌,
}
use native.Mathlib.Nat.{pow-suc}
use mcp_ssh_rs.Text.{Text, text, text_eq}
use mcp_ssh_rs.Command
use mcp_ssh_rs.Command.Bounds.{new-IsCommand}
use mcp_ssh_rs.Command.{Command}
use mcp_ssh_rs.Action.{
  Action, ActionKind, Operation, FileIdentity, InfoOperation, decimal, decimal_digits,
  upload_action, download_action, file_info_action, kind, execute_action, upload_arguments,
}

read_decimal : ℕ → Text → ℕ
read_decimal n [] = n
read_decimal n (d ∷ ds) = read_decimal (n * 10 + (d - b'0')) ds

read-decimal_digits :
    (fuel n : ℕ) (out : Text)
    → n < 10 ^ fuel
    → read_decimal 0 (decimal_digits fuel n out) ≡ read_decimal n out
unfolding decimal_digits read_decimal
read-decimal_digits zero n out h = ap (λ k. read_decimal k out) (omega arith)
read-decimal_digits (suc fuel) n out h = elim (Bool-cases (ltb n 10)) [
  | inl small ↦ rw small (ap (λ k. read_decimal k out) (ground arith))
  | inr large ↦ rw large (
      read-decimal_digits fuel (n / 10) ((b'0' + n % 10) ∷ out) (omega (arith, pow-suc 10 fuel))
      ∙ ap (λ k. read_decimal k out) (omega arith))
]

-- Twenty digits are enough for a `u64`, and they can be read back.
read-decimal : (n : ℕ) → n < 2 ^ 64 → read_decimal 0 (decimal n) ≡ n
unfolding decimal
read-decimal n h = read-decimal_digits 20 n [] (omega arith) ∙ unfold read_decimal in refl

-- An operation, but for the URI from which an upload's content came.
abbrev pub forget_uri : Operation → Operation
forget_uri (Operation.upload path source overwrite stage) =
    Operation.upload path (record source { uri = [] }) overwrite stage
forget_uri operation = operation

-- The actions that the program makes; the size of a source is a `u64`.
pub data Built : Action → Type 0 where
  executed : (c : Command) → Built (execute_action c)
  downloaded : (path : Text) (a : Action) → download_action path ≡ ok a → Built a
  inspected :
      (path : Text) (operation : InfoOperation) (a : Action)
      → file_info_action path operation ≡ ok a
      → Built a
  uploaded :
      (path : Text) (source : FileIdentity) (overwrite : Bool) (stage : Option Text) (a : Action)
      → source.bytes < 2 ^ 64
      → upload_action path source overwrite stage ≡ ok a
      → Built a

read_stage : List Text → Option Text
read_stage (word ∷ stage ∷ rest) = some stage
read_stage _ = none

-- Reads an operation from what is shown of it.
read_operation : ActionKind → List Text → Operation
unfolding read_stage
read_operation ActionKind.execute argv = Operation.execute
read_operation ActionKind.download (word ∷ path ∷ rest) = Operation.download path
read_operation ActionKind.stat (word ∷ path ∷ rest) = Operation.file_info path InfoOperation.stat
read_operation ActionKind.list (word ∷ path ∷ rest) = Operation.file_info path InfoOperation.list
read_operation ActionKind.checksum (word ∷ path ∷ rest) =
    Operation.file_info path InfoOperation.checksum
read_operation ActionKind.upload (word ∷ path ∷ size ∷ digest ∷ mode ∷ rest) =
    Operation.upload path (record { uri = []; bytes = read_decimal 0 size; sha256 = digest })
      (mode == text "replace") (read_stage rest)
read_operation _ _ = Operation.execute

-- A command made for an action, and what it shows.
shown :
    (argv : List Text) (operation : Operation) (a : Action)
    → (Command.new argv >>= λ command. ok (record { operation = operation; command = command }))
      ≡ ok a
    → (a.operation ≡ operation) × (a.command.argv ≡ argv)
shown argv operation a h = elim (Result-cases (Command.new argv)) [
  | inl (e, refused) ↦ absurd (ground (arith, h, refused))
  | inr (c, made) ↦ let (same, valid) = new-IsCommand argv c made in ground (arith, h, made, same)
]

read_uploaded :
    (path : Text) (source : FileIdentity) (overwrite : Bool) (stage : Option Text)
    → source.bytes < 2 ^ 64
    → read_operation ActionKind.upload (upload_arguments path source overwrite stage)
      ≡ Operation.upload path (record source { uri = [] }) overwrite stage
unfolding read_operation
read_uploaded path source true none small = rw (read-decimal source.bytes small)
read_uploaded path source true (some stage) small = rw (read-decimal source.bytes small)
read_uploaded path source false none small = rw (read-decimal source.bytes small)
read_uploaded path source false (some stage) small = rw (read-decimal source.bytes small)

read-Built :
    (a : Action) → Built a → read_operation (kind a) a.command.argv ≡ forget_uri a.operation
unfolding read_operation kind execute_action download_action file_info_action upload_action
read-Built _ (executed c) = refl
read-Built _ (downloaded path a h) =
    let (op, argv) = shown (text "file.download" ∷ path ∷ []) (Operation.download path) a h in
    rw (op, argv)
read-Built _ (inspected path InfoOperation.stat a h) =
    let (op, argv) =
      shown (text "file.stat" ∷ path ∷ []) (Operation.file_info path InfoOperation.stat) a h in
    rw (op, argv)
read-Built _ (inspected path InfoOperation.list a h) =
    let (op, argv) =
      shown (text "file.list" ∷ path ∷ []) (Operation.file_info path InfoOperation.list) a h in
    rw (op, argv)
read-Built _ (inspected path InfoOperation.checksum a h) =
    let (op, argv) =
      shown (text "file.checksum" ∷ path ∷ []) (Operation.file_info path InfoOperation.checksum) a
        h in
    rw (op, argv)
read-Built _ (uploaded path source overwrite stage a small h) =
    let (op, argv) =
      shown (upload_arguments path source overwrite stage)
        (Operation.upload path source overwrite stage) a h in
    rw (op, argv) (read_uploaded path source overwrite stage small)

-- Two actions of the same kind that show the same arguments are the same operation: the same remote
-- path, and for an upload the same size, digest, replacement choice and staging path. Only the URI
-- of an upload's source may differ.
pub operation_of_command :
    (a b : Action)
    → Built a
    → Built b
    → kind a ≡ kind b
    → a.command.argv ≡ b.command.argv
    → forget_uri a.operation ≡ forget_uri b.operation
operation_of_command a b p q k argv = sym (read-Built a p) ∙ cc (k, argv) ∙ read-Built b q
