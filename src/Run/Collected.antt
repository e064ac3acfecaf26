-- ===== src/Run/Collected.antt =====
-- crates/ssh-core/src/run.rs: `Collected`, what is kept of a stream of output.
use mcp_ssh_rs.Prelude.{
  ℕ, zero, suc, ◌-◌, min, Option, none, some, List, [], ◌∷◌, ◌++◌, length, ltb,
}
use mcp_ssh_rs.Text.{Text}
use mcp_ssh_rs.Clock.{saturating_add}
use mcp_ssh_rs.Run.{Stream}
use mcp_ssh_rs.Audit.Secrets.{secret_shape, longest_secret_shape}

pub record Collected : Type 0 where
  pub kept : List ℕ
  pub seen : ℕ
  pub limit : ℕ
  pub matched : Option Text
  pub carried : List ℕ

-- `Collected::new`.
abbrev pub new : ℕ → Collected
new limit = record { kept = []; seen = 0; limit = limit; matched = none; carried = [] }

-- What is left of a list from an index on, and what comes before: `split_off` and a slice.
module _ {A : Type 0} where
  abbrev pub split_off : ℕ → List A → List A
  split_off zero xs = xs
  split_off (suc n) [] = []
  split_off (suc n) (x ∷ xs) = split_off n xs

  abbrev pub take : ℕ → List A → List A
  take zero xs = []
  take (suc n) [] = []
  take (suc n) (x ∷ xs) = x ∷ take n xs

-- The part of `push` that looks at the bytes.
unfoldable pub look : List ℕ → Collected → Collected
look piece c = elim c.matched [
  | some what ↦ c
  | none ↦
      let window = c.carried ++ piece in
      record c {
        matched = secret_shape window;
        carried = split_off (min (length window - longest_secret_shape) (length window)) window;
      }
]

-- The part of `push` that keeps them; where there is no room, nothing is taken.
unfoldable pub keep : List ℕ → Collected → Collected
keep piece c = record c { kept = c.kept ++ take (c.limit - length c.kept) piece }

-- `Collected::push`.
unfoldable pub push : Collected → List ℕ → Collected
unfolding look keep
push c piece = keep piece (look piece (record c { seen = saturating_add c.seen (length piece) }))

-- `Collected::snapshot`.
unfoldable pub snapshot : Collected → Stream
snapshot c = record {
  text = [];
  truncated = ltb (length c.kept) c.seen;
  bytes = c.seen;
  matched = c.matched;
}

-- The pieces of a stream as they come in, and the whole of it.
abbrev pub push_all : Collected → List (List ℕ) → Collected
push_all c [] = c
push_all c (piece ∷ pieces) = push_all (push c piece) pieces

abbrev pub whole : List (List ℕ) → List ℕ
whole [] = []
whole (piece ∷ pieces) = piece ++ whole pieces
