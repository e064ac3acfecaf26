-- ===== src/Files/Spelling.antt =====
-- An accepted path is the one spelling of what the target resolves it to.
use mcp_ssh_rs.Prelude.{
  ℕ, Bool, true, false, not, List, [], ◌∷◌, ◌++◌, ◌≡◌, refl, sym, ap, ◌∙◌, arith, ◌==◌, ltb,
  nat_beq, any, if◌then◌else◌, Result, ok, err, ◌>>◌, guard, Bool-cases, inl, inr, append_assoc,
  append-nil, All, nat_beq_iff, subst,
}
use mcp_ssh_rs.Text.{Text, text, text_eq, bytes}
use mcp_ssh_rs.Ids.{is_empty}
use mcp_ssh_rs.Files.{
  empty, too_long, not_absolute, interior_nul, path_max, slash, grow, split_slashes,
  check_component, check_components, skip_first, parse_path,
}

-- What a target does with the components of an absolute path, as POSIX pathname resolution says but for
-- symbolic links: an empty component and `.` stay, `..` leaves the last directory, a name enters.
abbrev leave : List Text → List Text
leave [] = []
leave (c ∷ []) = []
leave (c ∷ d ∷ cs) = c ∷ leave (d ∷ cs)

unfoldable pub walk : List Text → List Text → List Text
walk at [] = at
walk at (c ∷ cs) =
    let stays = walk at cs in
    let leaves = walk (leave at) cs in
    let enters = walk (at ++ (c ∷ [])) cs in
    if is_empty c
    then stays
    else (if c == text "." then stays else (if c == text ".." then leaves else enters))

-- The names from the root to what a path names.
unfoldable pub resolve : Text → List Text
resolve raw = walk [] (split_slashes raw)

-- The absolute path of names from the root.
abbrev join : List Text → Text
join [] = []
join (c ∷ cs) = slash ∷ (c ++ join cs)

abbrev pub spell : List Text → Text
spell [] = text "/"
spell (c ∷ cs) = join (c ∷ cs)

join-grow :
    (c : ℕ) (s : Text) (ws : List Text) → join ws ≡ slash ∷ s → join (grow c ws) ≡ slash ∷ c ∷ s
join-grow c s [] h = cc
join-grow c s (w ∷ ws) h = cc

join-split : (s : Text) → join (split_slashes s) ≡ slash ∷ s
unfolding split_slashes
join-split [] = refl
join-split (c ∷ s) = elim (Bool-cases (nat_beq c slash)) [
  | inl e ↦ rw (e, (nat_beq_iff c slash).0 e, join-split s)
  | inr e ↦ rw e (join-grow c s (split_slashes s) (join-split s))
]

-- A name: not empty, `.` or `..`.
abbrev IsName : Text → Type 0
IsName c = (is_empty c ≡ false) × ((c == text ".") ≡ false) × ((c == text "..") ≡ false)

check_component-IsName : (c : Text) → check_component false c ≡ ok tt → IsName c
unfolding check_component
check_component-IsName c h = ground arith

walk-names : (at cs : List Text) → All IsName cs → walk at cs ≡ at ++ cs
unfolding walk
walk-names at [] h = rw append-nil refl
walk-names at (c ∷ cs) h =
    rw (h.0.0, h.0.1, h.0.2, walk-names (at ++ (c ∷ [])) cs h.1) (append_assoc at (c ∷ []) cs)

then-ok :
    {E A : Type 0} (first : Result E (Unit {0})) (next : Result E A) (a : A)
    → (first >> next) ≡ ok a
    → (first ≡ ok tt) × (next ≡ ok a)
then-ok (ok tt) next a h = (refl, h)
then-ok (err e) next a h = cc

guard-ok : {E : Type 0} (b : Bool) (e : E) → guard b e ≡ ok tt → b ≡ true
guard-ok true e h = refl
guard-ok false e h = cc

check_components-IsName : (cs : List Text) → check_components false cs ≡ ok tt → All IsName cs
unfolding check_components
check_components-IsName [] h = tt
check_components-IsName (c ∷ []) h = (check_component-IsName c h, tt)
check_components-IsName (c ∷ d ∷ cs) h =
    let (first, rest) = then-ok (check_component false c) (check_components false (d ∷ cs)) tt h in
    (check_component-IsName c first, check_components-IsName (d ∷ cs) rest)

spell-join : (ws : List Text) (s : Text) → join ws ≡ slash ∷ s → spell ws ≡ slash ∷ s
spell-join [] s h = cc
spell-join (c ∷ cs) s h = h

spell-resolve_absolute :
    (s : Text)
    → check_components (slash ∷ s == text "/") (split_slashes s) ≡ ok tt
    → spell (resolve (slash ∷ s)) ≡ slash ∷ s
unfolding resolve walk split_slashes
spell-resolve_absolute [] h = refl
spell-resolve_absolute (c ∷ s) h =
    let names = check_components-IsName (split_slashes (c ∷ s)) h in
    ap spell (walk-names [] (split_slashes (c ∷ s)) names)
    ∙ spell-join (split_slashes (c ∷ s)) (c ∷ s) (join-split (c ∷ s))

parse_path-facts :
    (raw p : Text)
    → parse_path raw ≡ ok p
    → (p ≡ raw)
      × (s : Text) × (raw ≡ slash ∷ s)
      × (check_components (slash ∷ s == text "/") (split_slashes s) ≡ ok tt)
unfolding parse_path split_slashes
parse_path-facts [] p h = cc
parse_path-facts (c ∷ s) p h =
    let (some_text, a) = then-ok (guard (not (is_empty (c ∷ s))) empty) _ p h in
    let (small, b) =
      then-ok (guard (not (ltb path_max (bytes (c ∷ s)))) (too_long path_max)) _ p a in
    let (absolute, d) = then-ok (guard (nat_beq c slash) not_absolute) _ p b in
    let (no_nul, f) = then-ok (guard (not (any (λ x. nat_beq x 0) (c ∷ s))) interior_nul) _ p d in
    let (checked, g) =
      then-ok (check_components (c ∷ s == text "/") (skip_first (split_slashes (c ∷ s))))
        (ok (c ∷ s)) p f in
    let same = (nat_beq_iff c slash).0 (guard-ok _ not_absolute absolute) in
    (
      ground (arith, g),
      s,
      ap (λ x. x ∷ s) same,
      subst (λ x. check_components (x ∷ s == text "/") (skip_first (split_slashes (x ∷ s))) ≡ ok tt)
          same checked,
    )

-- An accepted path is returned as it was written, and it is the spelling of the names that the target
-- resolves it to.
pub spell-resolve : (raw p : Text) → parse_path raw ≡ ok p → (p ≡ raw) × (spell (resolve raw) ≡ raw)
spell-resolve raw p h =
    let (same, s, absolute, checked) = parse_path-facts raw p h in
    (
      same,
      subst (λ path. spell (resolve path) ≡ path) (sym absolute) (spell-resolve_absolute s checked),
    )

-- Two accepted paths that the target resolves to the same names are the same text.
pub one_spelling :
    (raw other p q : Text)
    → parse_path raw ≡ ok p
    → parse_path other ≡ ok q
    → resolve raw ≡ resolve other
    → raw ≡ other
one_spelling raw other p q a b same =
    sym (spell-resolve raw p a).1 ∙ ap spell same ∙ (spell-resolve other q b).1
