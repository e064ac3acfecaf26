-- ===== src/Examples/Words.antt =====
-- Identifiers, commands, actions, decisions, digests and the clock.
use mcp_ssh_rs.Prelude.{
  ℕ, ◌≡◌, err, ◌≢◌, ◌≤◌, ◌↔◌, ◌++◌, refl, true, List, [], ◌∷◌, Option, none, some, ok, nat_beq,
  arith, if◌then◌else◌, All,
}
use mcp_ssh_rs.Text.{Text, text, bytes, char_bytes}
use mcp_ssh_rs.Clock.{SystemClock}
use mcp_ssh_rs.Run.Name
use mcp_ssh_rs.Run.Name.{parse-mint}
use mcp_ssh_rs.Clock.Monotone.{NonDecreasing, answers, answers-NonDecreasing}
use mcp_ssh_rs.Ids.{host, validate}
use mcp_ssh_rs.Ids.Components.{IsIdentifier, validate_iff}
use mcp_ssh_rs.Command.{Command, new, to_wire, quote, backslash, space, max_wire_bytes, total_bytes}
use mcp_ssh_rs.Command.Bounds.{to_wire_bound}
use mcp_ssh_rs.Command.Shell.{Shell, words-to_wire}
use mcp_ssh_rs.Action.{ActionKind, Action, FileIdentity, Operation, kind, upload_action, decimal}
use mcp_ssh_rs.Action.Binding.{uploaded, operation_of_command, forget_uri}
use mcp_ssh_rs.Files.{
  parse_path, split_slashes, check_components, check_component, not_one_spelling,
}
use mcp_ssh_rs.Files.Spelling.{spell, resolve, spell-resolve}
use mcp_ssh_rs.Digest.Injective.{Fits, preimage-injective}

validate_iff_example :
    (validate (text "web-1.prod") host 253 ≡ ok tt) ↔ IsIdentifier 253 (text "web-1.prod")
validate_iff_example = validate_iff (text "web-1.prod") host 253

-- How a POSIX shell reads: where it is, the words so far, and the current word.
data Place : Type 0 where
  between plain quoted escaped : Place

abbrev read : Place → List Text → Text → Text → Option (List Text)
read between ws w [] = some ws
read plain ws w [] = some (ws ++ (w ∷ []))
read quoted ws w [] = none
read escaped ws w [] = none
read between ws w (c ∷ s) =
    let start = read quoted ws [] s in
    let skip = read between ws w s in
    if nat_beq c quote then start else (if nat_beq c space then skip else none)
read plain ws w (c ∷ s) =
    let enter = read quoted ws w s in
    let end = read between (ws ++ (w ∷ [])) [] s in
    let keep = read escaped ws w s in
    let more = read plain ws (w ++ (c ∷ [])) s in
    if nat_beq c quote
    then enter
    else (if nat_beq c space then end else (if nat_beq c backslash then keep else more))
read quoted ws w (c ∷ s) =
    let leave = read plain ws w s in
    let more = read quoted ws (w ++ (c ∷ [])) s in if nat_beq c quote then leave else more
read escaped ws w (c ∷ s) = read plain ws (w ++ (c ∷ [])) s

read_other :
    (ws : List Text) (w : Text) (c : ℕ) (s : Text)
    → c ≢ quote
    → read quoted ws w (c ∷ s) ≡ read quoted ws (w ++ (c ∷ [])) s
read_other ws w c s h = ground arith

abbrev shell : Shell
shell = record {
  words = read between [] [];
  between = λ ws. read between ws [];
  plain = read plain;
  quoted = read quoted;
  words_whole = λ s h. refl;
  between_quote = λ ws s. refl;
  plain_quote = λ ws w s. refl;
  quoted_char = read_other;
  quoted_quote = λ ws w s. refl;
  plain_backslash = λ ws w s. refl;
  plain_space = λ ws w s. refl;
  plain_end = λ ws w. refl;
}

abbrev argv : List Text
argv = text "echo" ∷ text "it's; rm -rf" ∷ text "" ∷ []

abbrev echo : Command
echo = record { argv = argv }

new-echo : new argv ≡ ok echo
unfolding new total_bytes bytes char_bytes
new-echo = refl

words-to_wire_example : shell.words (to_wire echo) ≡ some argv
words-to_wire_example = words-to_wire shell argv echo new-echo

to_wire_bound_example : bytes (to_wire echo) ≤ max_wire_bytes
to_wire_bound_example = to_wire_bound argv echo new-echo

abbrev source : FileIdentity
source = record { uri = text "local://a"; bytes = 40960; sha256 = text "00ff" }

abbrev arguments_of_upload : List Text
arguments_of_upload =
    text "file.upload" ∷ text "/srv/a" ∷ text "40960" ∷ text "00ff" ∷ text "replace" ∷ []

abbrev upload : Action
upload = record {
  operation = Operation.upload (text "/srv/a") source true none;
  command = record { argv = arguments_of_upload };
}

-- The same content under another URI.
abbrev upload_elsewhere : Action
upload_elsewhere = record upload {
  operation = Operation.upload (text "/srv/a") (record source { uri = text "local://b" }) true none;
}

upload_built : upload_action (text "/srv/a") source true none ≡ ok upload
unfolding upload_action new total_bytes decimal bytes char_bytes
upload_built = refl

upload_elsewhere_built :
    upload_action (text "/srv/a") (record source { uri = text "local://b" }) true none
    ≡ ok upload_elsewhere
unfolding upload_action new total_bytes decimal bytes char_bytes
upload_elsewhere_built = refl

operation_of_command_example : forget_uri upload.operation ≡ forget_uri upload_elsewhere.operation
unfolding kind
operation_of_command_example =
    operation_of_command upload upload_elsewhere
      (uploaded (text "/srv/a") source true none upload (omega arith) upload_built)
      (uploaded (text "/srv/a") (record source { uri = text "local://b" }) true none
        upload_elsewhere (omega arith) upload_elsewhere_built)
      refl refl

abbrev ls : List Text
ls = text "ls" ∷ text "-l" ∷ []

fits : All Fits (text "look" ∷ ls)
unfolding bytes char_bytes
fits = (omega arith, (omega arith, (omega arith, tt)))

preimage-injective_example :
    (ActionKind.execute ≡ ActionKind.execute) × (ls ≡ ls) × (text "look" ≡ text "look")
preimage-injective_example =
    preimage-injective ActionKind.execute ActionKind.execute ls ls (text "look") (text "look") fits
      fits refl

abbrev clock : SystemClock
clock = record { origin = 100; last_good = 20 }

abbrev readings : List (Option ℕ)
readings = some 130 ∷ none ∷ some 130 ∷ some 190 ∷ []

answers-NonDecreasing_example : NonDecreasing 20 (answers clock readings)
answers-NonDecreasing_example =
    answers-NonDecreasing clock readings (omega arith, (omega arith, (omega arith, tt)))

abbrev path : Text
path = text "/etc/app.d/a.conf"

parse_path-path : parse_path path ≡ ok path
unfolding parse_path split_slashes check_components check_component bytes char_bytes
parse_path-path = refl

spell-resolve_example : (path ≡ path) × (spell (resolve path) ≡ path)
spell-resolve_example = spell-resolve path path parse_path-path

-- What is refused because it would name the same file as another text.
parse_path-dots : parse_path (text "/etc/./shadow") ≡ err not_one_spelling
unfolding parse_path split_slashes check_components check_component bytes char_bytes
parse_path-dots = refl

-- The random bytes of a store and of a run.
abbrev store_bytes : List ℕ
store_bytes = 0 ∷ 255 ∷ 16 ∷ 1 ∷ 171 ∷ 9 ∷ 90 ∷ 7 ∷ []

abbrev run_bytes : List ℕ
run_bytes = store_bytes ++ store_bytes

parse-mint_example :
    Name.parse (Name.mint store_bytes run_bytes) ≡ ok (Name.mint store_bytes run_bytes)
parse-mint_example = parse-mint store_bytes run_bytes (ground arith) (ground arith) refl refl
