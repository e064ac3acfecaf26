-- ===== src/Digest/Injective.antt =====
-- No two actions with their intents are fed to the hasher as the same bytes.
use mcp_ssh_rs.Prelude.{
  ℕ, zero, suc, ◌/◌, ◌^◌, ◌<◌, ◌≡◌, refl, List, [], ◌∷◌, ◌++◌, arith, append_assoc, ap, ◌∙◌, sym,
  All,
}
use mcp_ssh_rs.Text.{Text, text, bytes, char_bytes, char_bytes_bounds}
use native.Mathlib.Nat.{pow-suc}
use mcp_ssh_rs.Action.{ActionKind, as_str}
use mcp_ssh_rs.Digest.{utf8_char, as_bytes, le_bytes, arguments, preimage, delimited}

utf8_char-injective :
    (c d : ℕ) (s t : List ℕ) → utf8_char c ++ s ≡ utf8_char d ++ t → (c ≡ d) × (s ≡ t)
unfolding utf8_char
utf8_char-injective c d s t h = ground arith

as_bytes-injective :
    (s t : Text) (x y : List ℕ)
    → bytes s ≡ bytes t
    → as_bytes s ++ x ≡ as_bytes t ++ y
    → (s ≡ t) × (x ≡ y)
unfolding as_bytes bytes
as_bytes-injective [] [] x y e h = (refl, h)
as_bytes-injective [] (d ∷ t) x y e h = absurd (omega (arith, char_bytes_bounds d))
as_bytes-injective (c ∷ s) [] x y e h = absurd (omega (arith, char_bytes_bounds c))
as_bytes-injective (c ∷ s) (d ∷ t) x y e h =
    let (same, rest) = utf8_char-injective c d (as_bytes s ++ x) (as_bytes t ++ y) (
      sym (append_assoc (utf8_char c) (as_bytes s) x)
      ∙ h
      ∙ append_assoc (utf8_char d) (as_bytes t) y) in
    let (tails, ends) = as_bytes-injective s t x y (omega (arith, e, ap char_bytes same)) rest in
    (cc (same, tails), ends)

le_bytes-injective :
    (width n m : ℕ) (x y : List ℕ)
    → n < 256 ^ width
    → m < 256 ^ width
    → le_bytes width n ++ x ≡ le_bytes width m ++ y
    → (n ≡ m) × (x ≡ y)
unfolding le_bytes
le_bytes-injective zero n m x y p q h = (omega arith, h)
le_bytes-injective (suc width) n m x y p q h =
    let (high, rest) =
      le_bytes-injective width (n / 256) (m / 256) x y (omega (arith, pow-suc 256 width))
        (omega (arith, pow-suc 256 width)) (ap tail h) in
    (omega (arith, high, ap head h), rest)
  where
    tail : List ℕ → List ℕ
    tail [] = []
    tail (b ∷ bs) = bs

    head : List ℕ → ℕ
    head [] = 0
    head (b ∷ bs) = b

-- The length of a text in memory is a `usize`.
abbrev pub Fits : Text → Type 0
Fits s = bytes s < 2 ^ 64

delimited-injective :
    (s t : Text) (x y : List ℕ)
    → Fits s
    → Fits t
    → delimited s ++ x ≡ delimited t ++ y
    → (s ≡ t) × (x ≡ y)
delimited-injective s t x y p q h =
    let (sizes, rest) =
      le_bytes-injective 8 (bytes s) (bytes t) (as_bytes s ++ x) (as_bytes t ++ y) p q (
        sym (append_assoc (le_bytes 8 (bytes s)) (as_bytes s) x)
        ∙ h
        ∙ append_assoc (le_bytes 8 (bytes t)) (as_bytes t) y) in
    as_bytes-injective s t x y sizes rest

arguments-injective :
    (xs ys : List Text) → All Fits xs → All Fits ys → arguments xs ≡ arguments ys → xs ≡ ys
unfolding arguments
arguments-injective [] [] p q h = refl
arguments-injective [] (y ∷ ys) p q h = cc
arguments-injective (x ∷ xs) [] p q h = cc
arguments-injective (x ∷ xs) (y ∷ ys) p q h =
    let (same, rest) = delimited-injective x y (arguments xs) (arguments ys) p.0 q.0 h in
    cc (same, arguments-injective xs ys p.1 q.1 rest)

as_str-injective : (k l : ActionKind) → as_str k ≡ as_str l → k ≡ l
unfolding as_str
as_str-injective k l h = ground arith

as_str-Fits : (k : ActionKind) → Fits (as_str k)
unfolding as_str bytes char_bytes
as_str-Fits ActionKind.execute = omega arith
as_str-Fits ActionKind.download = omega arith
as_str-Fits ActionKind.upload = omega arith
as_str-Fits ActionKind.stat = omega arith
as_str-Fits ActionKind.list = omega arith
as_str-Fits ActionKind.checksum = omega arith

-- The bytes that are hashed for an approval determine the kind of the action, its exact argument
-- vector, with the boundaries between the arguments, and the agent's intent, for texts whose lengths
-- are 64-bit numbers.
pub preimage-injective :
    (k l : ActionKind) (xs ys : List Text) (i j : Text)
    → All Fits (i ∷ xs)
    → All Fits (j ∷ ys)
    → preimage k xs i ≡ preimage l ys j
    → (k ≡ l) × (xs ≡ ys) × (i ≡ j)
unfolding preimage
preimage-injective k l xs ys i j p q h =
    let (kinds, rest) =
      delimited-injective (as_str k) (as_str l) (delimited i ++ arguments xs)
        (delimited j ++ arguments ys) (as_str-Fits k) (as_str-Fits l)
        (as_bytes-injective label label _ _ refl h).1 in
    let (intents, argvs) = delimited-injective i j (arguments xs) (arguments ys) p.0 q.0 rest in
    (as_str-injective k l kinds, arguments-injective xs ys p.1 q.1 argvs, intents)
  where
    label : Text
    label = text "mcp-ssh-action-v3"
