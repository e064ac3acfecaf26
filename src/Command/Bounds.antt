-- ===== src/Command/Bounds.antt =====
-- The size limits of a command, and what they say of the string that is sent.
use mcp_ssh_rs.Prelude.{◌+◌, ◌*◌, ◌≤◌, ◌≡◌, false, List, [], ◌∷◌, map, arith, length, ok, any, ◌≢◌}
use mcp_ssh_rs.Text.{Text, bytes, bytes-append, char_bytes}
use mcp_ssh_rs.Command.{
  Command, new, total_bytes, has_nul, max_args, max_bytes, max_wire_bytes, escape, shell_quote,
  join_spaces, to_wire, quote,
}

-- What holds of every command that `new` makes.
pub record IsCommand (c : Command) : Type 0 where
  pub has_program : c.argv ≢ []
  pub few : length c.argv ≤ max_args
  pub small : total_bytes c.argv ≤ max_bytes
  pub nul_free : any has_nul c.argv ≡ false

pub new-IsCommand :
    (argv : List Text) (c : Command) → new argv ≡ ok c → (c.argv ≡ argv) × IsCommand c
unfolding new
new-IsCommand [] c h = cc
new-IsCommand (p ∷ argv) c h = ground arith

bytes-escape-le : (arg : Text) → bytes (escape arg) ≤ 4 * bytes arg
unfolding bytes escape char_bytes
bytes-escape-le [] = omega arith
bytes-escape-le (c ∷ arg) = ground (arith, bytes-escape-le arg)

bytes-quote-le : (arg : Text) → bytes (shell_quote arg) ≤ 4 * bytes arg + 2
unfolding bytes shell_quote char_bytes
bytes-quote-le arg = omega (arith, bytes-escape-le arg, bytes-append (escape arg) (quote ∷ []))

bytes-join-le :
    (argv : List Text)
    → bytes (join_spaces (map shell_quote argv)) ≤ 4 * total_bytes argv + 3 * length argv
unfolding bytes join_spaces total_bytes char_bytes
bytes-join-le [] = omega arith
bytes-join-le (w ∷ []) = omega (arith, bytes-quote-le w)
bytes-join-le (w ∷ v ∷ ws) = omega (
  arith,
  bytes-quote-le w,
  bytes-join-le (v ∷ ws),
  bytes-append (shell_quote w) (32 ∷ join_spaces (map shell_quote (v ∷ ws))),
)

-- The wire string of every command that `new` accepts has at most `MAX_WIRE_BYTES` bytes.
pub to_wire_bound :
    (argv : List Text) (c : Command) → new argv ≡ ok c → bytes (to_wire c) ≤ max_wire_bytes
unfolding to_wire
to_wire_bound argv c h =
    let (same, valid) = new-IsCommand argv c h in
    omega (arith, bytes-join-le c.argv, valid.few, valid.small)
