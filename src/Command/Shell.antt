-- ===== src/Command/Shell.antt =====
-- The target's POSIX shell, as a parameter, reads the wire string back into the argument vector.
use mcp_ssh_rs.Prelude.{
  ℕ, ◌≡◌, refl, false, List, [], ◌∷◌, ◌++◌, map, arith, Option, some, ok, any, nat_beq, ◌≢◌,
  Bool-cases, inl, inr, append_assoc, append-nil, ap, ◌∙◌, sym,
}
use mcp_ssh_rs.Text.{Text}
use mcp_ssh_rs.Command.{
  Command, new, has_nul, escape, shell_quote, join_spaces, to_wire, quote, backslash, space,
}
use mcp_ssh_rs.Command.Bounds.{new-IsCommand}

-- What the program relies on of the login shell: `read` runs on from a state, with the words so far
-- and the characters of the current one, as the POSIX rules on quoting and field splitting say.
pub record Shell : Type 0 where
  -- The words that the target runs for an exec request.
  pub words : Text → Option (List Text)
  -- Outside a word, in the unquoted part of a word, and inside single quotes.
  pub between : List Text → Text → Option (List Text)
  pub plain : List Text → Text → Text → Option (List Text)
  pub quoted : List Text → Text → Text → Option (List Text)
  -- A C string without a NUL reaches the shell whole.
  pub words_whole : (s : Text) → has_nul s ≡ false → words s ≡ between [] s
  -- A quote begins a word, and inside a word a quoted part.
  pub between_quote : (ws : List Text) (s : Text) → between ws (quote ∷ s) ≡ quoted ws [] s
  pub plain_quote : (ws : List Text) (w s : Text) → plain ws w (quote ∷ s) ≡ quoted ws w s
  -- Inside single quotes each character stands for itself, up to the closing quote.
  pub quoted_char :
      (ws : List Text) (w : Text) (c : ℕ) (s : Text)
      → c ≢ quote
      → quoted ws w (c ∷ s) ≡ quoted ws (w ++ (c ∷ [])) s
  pub quoted_quote : (ws : List Text) (w s : Text) → quoted ws w (quote ∷ s) ≡ plain ws w s
  -- A backslash keeps the quote that follows it.
  pub plain_backslash :
      (ws : List Text) (w s : Text)
      → plain ws w (backslash ∷ quote ∷ s) ≡ plain ws (w ++ (quote ∷ [])) s
  -- A blank, or the end, ends a word.
  pub plain_space :
      (ws : List Text) (w s : Text) → plain ws w (space ∷ s) ≡ between (ws ++ (w ∷ [])) s
  pub plain_end : (ws : List Text) (w : Text) → plain ws w [] ≡ some (ws ++ (w ∷ []))

module _ (shell : Shell) where
  open shell use {words, between, plain, quoted}

  read-escape :
      (ws : List Text) (w arg s : Text)
      → quoted ws w (escape arg ++ (quote ∷ s)) ≡ plain ws (w ++ arg) s
  unfolding escape
  read-escape ws w [] s = rw append-nil (shell.quoted_quote ws w s)
  read-escape ws w (c ∷ arg) s = elim (Bool-cases (nat_beq c quote)) [
    | inl e ↦ rw e (
        ground (
          arith,
          shell.quoted_quote ws w (backslash ∷ quote ∷ quote ∷ (escape arg ++ (quote ∷ s))),
          shell.plain_backslash ws w (quote ∷ (escape arg ++ (quote ∷ s))),
          shell.plain_quote ws (w ++ (quote ∷ [])) (escape arg ++ (quote ∷ s)),
          read-escape ws (w ++ (quote ∷ [])) arg s,
          append_assoc w (quote ∷ []) arg,
        ))
    | inr e ↦ rw e (
        ground (
          arith,
          shell.quoted_char ws w c (escape arg ++ (quote ∷ s)),
          read-escape ws (w ++ (c ∷ [])) arg s,
          append_assoc w (c ∷ []) arg,
        ))
  ]

  read-quote : (ws : List Text) (arg s : Text) → between ws (shell_quote arg ++ s) ≡ plain ws arg s
  unfolding shell_quote
  read-quote ws arg s =
      rw (append_assoc (escape arg) (quote ∷ []) s)
        (shell.between_quote ws (escape arg ++ (quote ∷ s)) ∙ read-escape ws [] arg s)

  read-join :
      (ws : List Text) (w : Text) (argv : List Text)
      → between ws (join_spaces (map shell_quote (w ∷ argv))) ≡ some (ws ++ (w ∷ argv))
  unfolding join_spaces
  read-join ws w [] =
      ap (between ws) (sym (append-nil (shell_quote w))) ∙ read-quote ws w [] ∙ shell.plain_end ws w
  read-join ws w (v ∷ argv) =
      read-quote ws w (space ∷ join_spaces (map shell_quote (v ∷ argv)))
      ∙ shell.plain_space ws w (join_spaces (map shell_quote (v ∷ argv)))
      ∙ read-join (ws ++ (w ∷ [])) v argv
      ∙ ap some (append_assoc ws (w ∷ []) (v ∷ argv))

  read-argv :
      (argv : List Text) → argv ≢ [] → between [] (join_spaces (map shell_quote argv)) ≡ some argv
  read-argv [] h = absurd (h refl)
  read-argv (w ∷ argv) h = read-join [] w argv

has_nul-append : (s t : Text) → has_nul s ≡ false → has_nul t ≡ false → has_nul (s ++ t) ≡ false
has_nul-append [] t h k = k
has_nul-append (c ∷ s) t h k = ground (arith, has_nul-append s t)

has_nul-escape : (arg : Text) → has_nul arg ≡ false → has_nul (escape arg) ≡ false
unfolding escape
has_nul-escape [] h = refl
has_nul-escape (c ∷ arg) h = ground (arith, has_nul-escape arg)

has_nul-quote : (arg : Text) → has_nul arg ≡ false → has_nul (shell_quote arg) ≡ false
unfolding shell_quote
has_nul-quote arg h = has_nul-append (escape arg) (quote ∷ []) (has_nul-escape arg h) refl

has_nul-join :
    (argv : List Text)
    → any has_nul argv ≡ false
    → has_nul (join_spaces (map shell_quote argv)) ≡ false
unfolding join_spaces
has_nul-join [] h = refl
has_nul-join (w ∷ []) h = has_nul-quote w (ground arith)
has_nul-join (w ∷ v ∷ ws) h =
    has_nul-append (shell_quote w) _ (has_nul-quote w (ground arith))
      (has_nul-join (v ∷ ws) (ground arith))

-- For every command that `new` accepts, a shell that keeps the POSIX rules of `Shell` reads the wire
-- string as exactly the argument vector of the command.
pub words-to_wire :
    (shell : Shell) (argv : List Text) (c : Command)
    → new argv ≡ ok c
    → shell.words (to_wire c) ≡ some argv
unfolding to_wire
words-to_wire shell argv c h =
    let (same, valid) = new-IsCommand argv c h in
    shell.words_whole (to_wire c) (has_nul-join c.argv valid.nul_free)
    ∙ read-argv shell c.argv valid.has_program
    ∙ ap some same
