-- ===== src/Run/Name.antt =====
-- crates/ssh-core/src/run.rs: `RunId`, how the store names a run and how a name is read. The random
-- bytes are arguments.
use mcp_ssh_rs.Prelude.{
  ◌≡◌, refl, ℕ, ◌*◌, ◌/◌, ◌%◌, ◌<◌, Bool, true, false, ◌&&◌, Option, none, some, List, [], ◌∷◌,
  ◌++◌, arith, nat_beq, length, all, if◌then◌else◌, Result, ok, err, guard, ◌>>◌,
}
use mcp_ssh_rs.Text.{Text, bytes, char_bytes, is_lower_hex}
use mcp_ssh_rs.Digest.{hex, hex_digit}

abbrev store_chars : ℕ
store_chars = 16

abbrev run_chars : ℕ
run_chars = 32

pub data MalformedRunId : Type 0 where
  malformed_run_id : MalformedRunId

-- The text before a character and the text after it, if it occurs.
unfoldable pub split_once : ℕ → Text → Option (Text × Text)
split_once sep [] = none
split_once sep (c ∷ s) =
    if nat_beq c sep
    then some ([], s)
    else elim (split_once sep s) [ none ↦ none | some parts ↦ some (c ∷ parts.0, parts.1) ]

abbrev is_hex : Text → ℕ → Bool
is_hex part chars = nat_beq (bytes part) chars && all is_lower_hex part

abbrev check_parts : Text → Option (Text × Text) → Result MalformedRunId Text
check_parts raw none = err malformed_run_id
check_parts raw (some (store, run)) = do
  guard (is_hex store store_chars && is_hex run run_chars) malformed_run_id
  ok raw

-- `RunId::parse`.
unfoldable pub parse : Text → Result MalformedRunId Text
unfolding split_once
parse raw = check_parts raw (split_once b'-' raw)

-- `Runs::mint`, of what the store was named by and of what the run is.
unfoldable pub mint : List ℕ → List ℕ → Text
unfolding hex
mint store run = hex store ++ (b'-' ∷ hex run)

-- Every byte is below 256.
abbrev pub AreBytes : List ℕ → Type 0
AreBytes [] = Unit {0}
AreBytes (n ∷ ns) = (n < 256) × AreBytes ns

hex_digit_lem :
    (n : ℕ)
    → n < 16
    → (is_lower_hex (hex_digit n) ≡ true)
      × (char_bytes (hex_digit n) ≡ 1)
      × (nat_beq (hex_digit n) b'-' ≡ false)
unfolding is_lower_hex char_bytes
hex_digit_lem n h = (ground arith, ground arith, ground arith)

high : (n : ℕ) → n < 256 → n / 16 < 16
high n h = omega arith

low : (n : ℕ) → n % 16 < 16
low n = omega arith

bytes-hex : (ns : List ℕ) → AreBytes ns → bytes (hex ns) ≡ 2 * length ns
unfolding bytes hex
bytes-hex [] h = refl
bytes-hex (n ∷ ns) h = omega (
  arith,
  bytes-hex ns h.1,
  (hex_digit_lem (n / 16) (high n h.0)).1,
  (hex_digit_lem (n % 16) (low n)).1,
)

all-hex : (ns : List ℕ) → AreBytes ns → all is_lower_hex (hex ns) ≡ true
unfolding hex
all-hex [] h = refl
all-hex (n ∷ ns) h =
    rw ((hex_digit_lem (n / 16) (high n h.0)).0, (hex_digit_lem (n % 16) (low n)).0, all-hex ns h.1)

split_once-hex :
    (ns : List ℕ) (s : Text)
    → AreBytes ns
    → split_once b'-' (hex ns ++ (b'-' ∷ s)) ≡ some (hex ns, s)
unfolding split_once hex
split_once-hex [] s h = refl
split_once-hex (n ∷ ns) s h = rw (
  (hex_digit_lem (n / 16) (high n h.0)).2,
  (hex_digit_lem (n % 16) (low n)).2,
  split_once-hex ns s h.1,
)

-- Every name that the store mints, of eight random bytes for the store and sixteen for the run, is
-- read back as itself.
pub parse-mint :
    (store run : List ℕ)
    → AreBytes store
    → AreBytes run
    → length store ≡ 8
    → length run ≡ 16
    → parse (mint store run) ≡ ok (mint store run)
unfolding parse mint
parse-mint store run hs hr ls lr = rw (
  split_once-hex store (hex run) hs,
  bytes-hex store hs,
  bytes-hex run hr,
  all-hex store hs,
  all-hex run hr,
  ls,
  lr,
)
