-- ===== src/Text.antt =====
-- Rust's `str`: the list of its Unicode scalar values, with its length in bytes of UTF-8.
use mcp_ssh_rs.Prelude.{
  ℕ, ◌+◌, ◌≤◌, ◌≡◌, Bool, ◌&&◌, ◌||◌, List, [], ◌∷◌, ◌++◌, arith, leb, ltb, nat_beq, if◌then◌else◌,
  Eq, list_beq, list_beq_iff, all, length, not, nat_eq,
}
use Prim.Native.Char.{code}
use Prim.Native.String.{String}

abbrev pub Text : Type 0
Text = List ℕ

instance abbrev pub text_eq : Eq Text
text_eq = record { beq = list_beq; beq_iff = list_beq_iff }

-- A literal of the source.
abbrev pub text : String → Text
text String.[] = []
text (String.◌∷◌ c s) = code c ∷ text s

-- `char::len_utf8`.
unfoldable pub char_bytes : ℕ → ℕ
char_bytes c = if ltb c 0x80 then 1 else if ltb c 0x800 then 2 else if ltb c 0x10000 then 3 else 4

-- `str::len`.
unfoldable pub bytes : Text → ℕ
bytes [] = 0
bytes (c ∷ s) = char_bytes c + bytes s

-- `char::is_whitespace`: the characters with the property White_Space.
unfoldable pub is_whitespace : ℕ → Bool
is_whitespace c =
    leb 9 c && leb c 13
    || nat_beq c 32
    || nat_beq c 0x85
    || nat_beq c 0xa0
    || nat_beq c 0x1680
    || leb 0x2000 c && leb c 0x200a
    || nat_beq c 0x2028
    || nat_beq c 0x2029
    || nat_beq c 0x202f
    || nat_beq c 0x205f
    || nat_beq c 0x3000

-- `str::trim().is_empty()`: nothing but white space.
abbrev pub is_blank : Text → Bool
is_blank s = all is_whitespace s

-- `char::is_control`: the general category Cc.
unfoldable pub is_control : ℕ → Bool
is_control c = ltb c 32 || leb 127 c && leb c 159

abbrev pub is_digit : ℕ → Bool
is_digit c = leb b'0' c && leb c b'9'

-- `char::is_ascii_alphanumeric`.
unfoldable pub is_alphanumeric : ℕ → Bool
is_alphanumeric c = is_digit c || leb b'a' c && leb c b'z' || leb b'A' c && leb c b'Z'

-- `u8::is_ascii_hexdigit() && !u8::is_ascii_uppercase()`.
unfoldable pub is_lower_hex : ℕ → Bool
is_lower_hex c =
    (is_digit c || leb b'a' c && leb c b'f' || leb b'A' c && leb c b'F')
    && not (leb b'A' c && leb c b'Z')

pub char_bytes_bounds : (c : ℕ) → (1 ≤ char_bytes c) × (char_bytes c ≤ 4)
unfolding char_bytes
char_bytes_bounds c = ground arith

pub bytes-append : (s t : Text) → bytes (s ++ t) ≡ bytes s + bytes t
unfolding bytes
bytes-append [] t = omega arith
bytes-append (c ∷ s) t = omega (arith, bytes-append s t)

pub length-le-bytes : (s : Text) → length s ≤ bytes s
unfolding bytes
length-le-bytes [] = omega arith
length-le-bytes (c ∷ s) = omega (arith, length-le-bytes s, char_bytes_bounds c)
