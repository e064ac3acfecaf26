-- ===== src/Files.antt =====
-- crates/ssh-core/src/files.rs: paths on a target. A remote path is the text that it wraps.
pub mod Spelling
pub mod Info
use mcp_ssh_rs.Prelude.{
  ℕ, Bool, true, false, not, ◌&&◌, Option, none, some, List, [], ◌∷◌, ◌==◌, ltb, nat_beq, any,
  if◌then◌else◌, Result, ok, err, ◌>>=◌, ◌>>◌, guard,
}
use mcp_ssh_rs.Text.{Text, text, text_eq, bytes}
use mcp_ssh_rs.Ids.{is_empty}

abbrev pub path_max : ℕ
path_max = 4096

pub data PathError : Type 0 where
  empty : PathError
  too_long : ℕ → PathError
  not_absolute traversal interior_nul not_one_spelling : PathError

abbrev pub slash : ℕ
slash = b'/'

-- `split('/')`: the part before the first slash, and the rest.
abbrev pub grow : ℕ → List Text → List Text
grow c [] = (c ∷ []) ∷ []
grow c (w ∷ ws) = (c ∷ w) ∷ ws

unfoldable pub split_slashes : Text → List Text
split_slashes [] = [] ∷ []
split_slashes (c ∷ s) =
    let rest = split_slashes s in if nat_beq c slash then [] ∷ rest else grow c rest

-- One round of the loop of `RemotePath::parse`; `excused` is its `last && raw == "/"`.
unfoldable pub check_component : Bool → Text → Result PathError (Unit {0})
check_component excused component =
    if component == text ".."
    then err traversal
    else (if component == text "."
        then err not_one_spelling
        else (if is_empty component && not excused then err not_one_spelling else ok tt))

-- The loop over the components.
unfoldable pub check_components : Bool → List Text → Result PathError (Unit {0})
check_components is_root [] = ok tt
check_components is_root (c ∷ []) = check_component is_root c
check_components is_root (c ∷ d ∷ cs) = check_component false c >> check_components is_root (d ∷ cs)

abbrev starts_with_slash : Text → Bool
starts_with_slash [] = false
starts_with_slash (c ∷ s) = nat_beq c slash

-- `components.next()`.
abbrev pub skip_first : List Text → List Text
skip_first [] = []
skip_first (c ∷ cs) = cs

-- `RemotePath::parse`.
unfoldable pub parse_path : Text → Result PathError Text
parse_path raw = do
  guard (not (is_empty raw)) empty
  guard (not (ltb path_max (bytes raw))) (too_long path_max)
  guard (starts_with_slash raw) not_absolute
  guard (not (any (λ c. nat_beq c 0) raw)) interior_nul
  check_components (raw == text "/") (skip_first (split_slashes raw))
  ok raw
