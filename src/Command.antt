-- ===== src/Command.antt =====
-- crates/ssh-core/src/command.rs: commands as argument vectors, and the string that crosses the wire.
pub mod Bounds
pub mod Shell
use mcp_ssh_rs.Prelude.{
  ℕ, ◌+◌, ◌-◌, ◌*◌, ◌/◌, Bool, not, List, [], ◌∷◌, ◌++◌, map, ltb, nat_beq, if◌then◌else◌, all, any,
  length, Result, ok, err, ◌>>=◌, ◌>>◌, guard,
}
use mcp_ssh_rs.Text.{Text, text, bytes, is_whitespace}
use mcp_ssh_rs.Ids.{is_empty}

abbrev pub max_args : ℕ
max_args = 1024

abbrev pub max_intent_bytes : ℕ
max_intent_bytes = 512

abbrev pub max_wire_bytes : ℕ
max_wire_bytes = 128 * 1024

abbrev pub max_bytes : ℕ
max_bytes = max_wire_bytes / 4 - max_args * 3

pub data CommandIntentError : Type 0 where
  blank : CommandIntentError
  too_long : ℕ → CommandIntentError

pub data CommandError : Type 0 where
  empty empty_program : CommandError
  too_many_arguments : ℕ → CommandError
  too_large : ℕ → CommandError
  interior_nul : CommandError

-- `CommandIntent::parse`; an intent is the text that it wraps.
unfoldable pub parse_intent : Text → Result CommandIntentError Text
parse_intent raw = do
  guard (not (all is_whitespace raw)) blank
  guard (not (ltb max_intent_bytes (bytes raw))) (too_long max_intent_bytes)
  ok raw

pub record Command : Type 0 where
  pub argv : List Text

-- `argv.iter().map(String::len).sum()`. A vector in memory holds fewer than 2^63 bytes, so that the
-- sum does not wrap.
unfoldable pub total_bytes : List Text → ℕ
total_bytes [] = 0
total_bytes (arg ∷ argv) = bytes arg + total_bytes argv

-- `arg.contains('\0')`.
abbrev pub has_nul : Text → Bool
has_nul arg = any (λ c. nat_beq c 0) arg

-- The checks that follow the one for a first argument.
abbrev check_argv : Text → List Text → Result CommandError Command
check_argv program argv = do
  guard (not (is_empty program)) empty_program
  guard (not (ltb max_args (length argv))) (too_many_arguments max_args)
  guard (not (ltb max_bytes (total_bytes argv))) (too_large max_bytes)
  guard (not (any has_nul argv)) interior_nul
  ok (record { argv = argv })

-- `Command::new`.
unfoldable pub new : List Text → Result CommandError Command
new [] = err empty
new (program ∷ args) = check_argv program (program ∷ args)

unfoldable pub program : Command → Text
program c = elim c.argv [ [] ↦ [] | arg ∷ rest ↦ arg ]

unfoldable pub args : Command → List Text
args c = elim c.argv [ [] ↦ [] | arg ∷ rest ↦ rest ]

abbrev pub quote : ℕ
quote = b'\''

abbrev pub backslash : ℕ
backslash = b'\\'

abbrev pub space : ℕ
space = b' '

-- The characters of an argument between the outer quotes: a quote becomes `'\''`.
pub escape : Text → Text
escape [] = []
escape (ch ∷ arg) =
    let rest = escape arg in
    if nat_beq ch quote then quote ∷ backslash ∷ quote ∷ quote ∷ rest else ch ∷ rest

pub shell_quote : Text → Text
shell_quote arg = quote ∷ (escape arg ++ (quote ∷ []))

-- `join(" ")`.
pub join_spaces : List Text → Text
join_spaces [] = []
join_spaces (w ∷ []) = w
join_spaces (w ∷ v ∷ ws) = w ++ (space ∷ join_spaces (v ∷ ws))

unfoldable pub to_wire : Command → Text
unfolding shell_quote escape join_spaces
to_wire c = join_spaces (map shell_quote c.argv)
