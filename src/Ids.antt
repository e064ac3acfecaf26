-- ===== src/Ids.antt =====
-- crates/ssh-core/src/lib.rs: access classes and the identifiers of hosts, roles and principals.
-- An identifier is the text it wraps; the parse functions are the only way the program makes one.
pub mod Components
use mcp_ssh_rs.Prelude.{
  ℕ, ◌≡◌, refl, Bool, true, false, ◌&&◌, ◌||◌, not, List, [], ◌∷◌, ◌++◌, arith, ltb, nat_beq,
  if◌then◌else◌, Eq, all, any, Result, ok, err, ◌>>=◌, ◌>>◌, guard, ◌↔◌,
}
use mcp_ssh_rs.Text.{Text, text, bytes, is_control, is_alphanumeric, is_blank}

pub data AccessClass : Type 0 where
  read_only privileged : AccessClass

-- `&'static str` naming the identifier in an error.
pub data What : Type 0 where
  host role principal : What

pub data IdError : Type 0 where
  empty : What → IdError
  too_long : What → ℕ → IdError
  charset : What → IdError
  traversal : What → IdError

abbrev pub dot : ℕ
dot = b'.'

unfoldable pub is_id_char : ℕ → Bool
unfolding is_alphanumeric
is_id_char c = is_alphanumeric c || nat_beq c b'-' || nat_beq c b'_' || nat_beq c dot

-- The part before the first dot, and the rest of the components, `str::split('.')`.
abbrev grow : ℕ → List Text → List Text
grow c [] = (c ∷ []) ∷ []
grow c (w ∷ ws) = (c ∷ w) ∷ ws

unfoldable pub split_dots : Text → List Text
split_dots [] = [] ∷ []
split_dots (c ∷ s) = let rest = split_dots s in if nat_beq c dot then [] ∷ rest else grow c rest

abbrev pub is_empty : Text → Bool
is_empty [] = true
is_empty (c ∷ s) = false

unfoldable pub validate : Text → What → ℕ → Result IdError (Unit {0})
unfolding split_dots is_id_char
validate raw what max = do
  guard (not (is_empty raw)) (empty what)
  guard (not (ltb max (bytes raw))) (too_long what max)
  guard (all is_id_char raw) (charset what)
  guard (not (any is_empty (split_dots raw) || all (λ c. nat_beq c dot) raw)) (traversal what)

unfoldable pub parse_host : Text → Result IdError Text
unfolding validate
parse_host raw = do validate raw host 253; ok raw

unfoldable pub parse_role : Text → Result IdError Text
unfolding validate
parse_role raw = do validate raw role 64; ok raw

unfoldable pub parse_principal : Text → Result IdError Text
parse_principal raw = do
  guard (not (is_empty raw)) (empty principal)
  guard (not (ltb 256 (bytes raw))) (too_long principal 256)
  guard (not (any is_control raw)) (charset principal)
  ok raw
