-- ===== src/Digest.antt =====
-- The digest of an approval: `digest_action` and `digest_parts` of crates/ssh-core/src/approval.rs.
-- SHA-256 is a parameter, from the bytes that it is fed to the bytes of the digest.
pub mod Injective
use mcp_ssh_rs.Prelude.{
  ℕ, zero, suc, ◌+◌, ◌-◌, ◌*◌, ◌/◌, ◌%◌, List, [], ◌∷◌, ◌++◌, ltb, if◌then◌else◌, length, map,
}
use mcp_ssh_rs.Text.{Text, text, bytes}
use mcp_ssh_rs.Action.{Action, ActionKind, as_str, kind}

-- `str::as_bytes`: the UTF-8 form of a character, and of a text.
unfoldable pub utf8_char : ℕ → List ℕ
utf8_char c =
    if ltb c 0x80
    then c ∷ []
    else (if ltb c 0x800
        then (0xc0 + c / 64) ∷ (0x80 + c % 64) ∷ []
        else (if ltb c 0x10000
            then (0xe0 + c / 4096) ∷ (0x80 + c / 64 % 64) ∷ (0x80 + c % 64) ∷ []
            else (0xf0 + c / 262144)
              ∷ (0x80 + c / 4096 % 64)
              ∷ (0x80 + c / 64 % 64)
              ∷ (0x80 + c % 64)
              ∷ []))

unfoldable pub as_bytes : Text → List ℕ
unfolding utf8_char
as_bytes [] = []
as_bytes (c ∷ s) = utf8_char c ++ as_bytes s

-- `to_le_bytes` of a number in `width` bytes; a `usize` has eight.
unfoldable pub le_bytes : ℕ → ℕ → List ℕ
le_bytes zero n = []
le_bytes (suc width) n = (n % 256) ∷ le_bytes width (n / 256)

-- A text behind its length.
abbrev pub delimited : Text → List ℕ
delimited s = le_bytes 8 (bytes s) ++ as_bytes s

unfoldable pub arguments : List Text → List ℕ
unfolding le_bytes as_bytes
arguments [] = []
arguments (argument ∷ argv) = delimited argument ++ arguments argv

-- All that `digest_parts` feeds to the hasher.
unfoldable pub preimage : ActionKind → List Text → Text → List ℕ
unfolding arguments
preimage kind argv agent_intent =
    as_bytes (text "mcp-ssh-action-v3")
    ++ (delimited (as_str kind) ++ (delimited agent_intent ++ arguments argv))

abbrev pub hex_digit : ℕ → ℕ
hex_digit n = if ltb n 10 then b'0' + n else b'a' + n - 10

-- `format!("{byte:02x}")` of each byte.
unfoldable pub hex : List ℕ → Text
hex [] = []
hex (byte ∷ rest) = hex_digit (byte / 16) ∷ hex_digit (byte % 16) ∷ hex rest

unfoldable pub digest_parts : (List ℕ → List ℕ) → ActionKind → List Text → Text → Text
digest_parts sha256 kind argv agent_intent = hex (sha256 (preimage kind argv agent_intent))

unfoldable pub digest_action : (List ℕ → List ℕ) → Action → Text → Text
unfolding digest_parts
digest_action sha256 action agent_intent =
    digest_parts sha256 (kind action) action.command.argv agent_intent
