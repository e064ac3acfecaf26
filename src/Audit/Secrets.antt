-- ===== src/Audit/Secrets.antt =====
-- crates/ssh-core/src/audit.rs: `SECRET_SHAPES` and `secret_shape`.
use mcp_ssh_rs.Prelude.{
  ℕ, Bool, true, false, ◌&&◌, ◌||◌, Option, none, some, List, [], ◌∷◌, nat_beq, if◌then◌else◌,
}
use mcp_ssh_rs.Text.{Text, text}

-- `str::contains` of a text: it starts here, or further on.
unfoldable pub starts_with : List ℕ → List ℕ → Bool
starts_with [] s = true
starts_with (c ∷ needle) [] = false
starts_with (c ∷ needle) (d ∷ s) = nat_beq c d && starts_with needle s

unfoldable pub contains : List ℕ → List ℕ → Bool
contains needle [] = starts_with needle []
contains needle (c ∷ s) = starts_with needle (c ∷ s) || contains needle s

-- The needles, with what each means.
abbrev pub secret_shapes : List (Text × Text)
secret_shapes =
    (text "-----BEGIN", text "a PEM private key block")
    ∷ (text "ssh-rsa AAAA", text "an SSH public key line")
    ∷ (text "ssh-ed25519 AAAA", text "an SSH public key line")
    ∷ (text "PRIVATE KEY", text "private key material")
    ∷ (text "aws_secret_access_key", text "an AWS credential")
    ∷ []

abbrev pub longest_secret_shape : ℕ
longest_secret_shape = 21

abbrev pub is_matched : {A : Type 0} → Option A → Bool
is_matched none = false
is_matched (some what) = true

abbrev pub first_shape : List (Text × Text) → List ℕ → Option Text
first_shape [] s = none
first_shape ((needle, what) ∷ shapes) s =
    if contains needle s then some what else first_shape shapes s

-- `secret_shape`. The needles are ASCII, so that the UTF-8 bytes of a text contain one exactly if the
-- text does; `from_utf8_lossy` neither makes nor removes an ASCII byte.
unfoldable pub secret_shape : List ℕ → Option Text
unfolding contains
secret_shape s = first_shape secret_shapes s
