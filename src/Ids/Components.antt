-- ===== src/Ids/Components.antt =====
-- What `validate` accepts: one or more components of letters, digits, `-` and `_`, joined by dots.
use mcp_ssh_rs.Prelude.{
  ℕ, ◌≡◌, refl, ◌≢◌, Bool, true, false, List, [], ◌∷◌, ◌++◌, arith, nat_beq, all, any, All, ok, ◌↔◌,
  ◌≤◌, Bool-cases, inl, inr, and-parts, ◌∙◌, ap, nat_beq_iff,
}
use mcp_ssh_rs.Text.{Text, bytes}
use mcp_ssh_rs.Ids.{What, dot, is_id_char, split_dots, grow, is_empty, validate}

-- A component has at least one character, and no dot among them.
abbrev pub IsComponent : Text → Type 0
IsComponent w = (w ≢ []) × All (λ c. (is_id_char c ≡ true) × (nat_beq c dot ≡ false)) w

abbrev pub join_dots : List Text → Text
join_dots [] = []
join_dots (w ∷ []) = w
join_dots (w ∷ v ∷ ws) = w ++ (dot ∷ join_dots (v ∷ ws))

-- The form of an identifier, told without reference to how it is tested.
pub record IsIdentifier (max : ℕ) (raw : Text) : Type 0 where
  pub first : Text
  pub others : List Text
  pub joined : raw ≡ join_dots (first ∷ others)
  pub components : All IsComponent (first ∷ others)
  pub short : bytes raw ≤ max

abbrev Splits : Text → List Text → Type 0
Splits s [] = ⊥
Splits s (w ∷ ws) = s ≡ join_dots (w ∷ ws)

Splits-grow : (c : ℕ) (s : Text) (ws : List Text) → Splits s ws → Splits (c ∷ s) (grow c ws)
Splits-grow c s [] h = absurd h
Splits-grow c s (w ∷ []) h = rw h
Splits-grow c s (w ∷ v ∷ ws) h = rw h

Splits-start :
    (c : ℕ) (s : Text) (ws : List Text) → c ≡ dot → Splits s ws → Splits (c ∷ s) ([] ∷ ws)
Splits-start c s [] e h = absurd h
Splits-start c s (w ∷ ws) e h = cc

Splits-split : (s : Text) → Splits s (split_dots s)
unfolding split_dots
Splits-split [] = refl
Splits-split (c ∷ s) = elim (Bool-cases (nat_beq c dot)) [
  | inl e ↦ rw e (Splits-start c s (split_dots s) ((nat_beq_iff c dot).0 e) (Splits-split s))
  | inr e ↦ rw e (Splits-grow c s (split_dots s) (Splits-split s))
]

abbrev IsGood : ℕ → Type 0
IsGood c = (is_id_char c ≡ true) × (nat_beq c dot ≡ false)

grow-IsGood :
    (c : ℕ) (ws : List Text)
    → IsGood c
    → All (λ w. All IsGood w) ws
    → All (λ w. All IsGood w) (grow c ws)
grow-IsGood c [] g h = ((g, tt), tt)
grow-IsGood c (w ∷ ws) g h = ((g, h.0), h.1)

split-IsGood : (s : Text) → all is_id_char s ≡ true → All (λ w. All IsGood w) (split_dots s)
unfolding split_dots
split-IsGood [] h = (tt, tt)
split-IsGood (c ∷ s) h =
    let (here, there) = and-parts (is_id_char c) (all is_id_char s) h in
    elim (Bool-cases (nat_beq c dot)) [
      | inl e ↦ rw e (tt, split-IsGood s there)
      | inr e ↦ rw e (grow-IsGood c (split_dots s) (here, e) (split-IsGood s there))
    ]

components-good :
    (ws : List Text) → any is_empty ws ≡ false → All (λ w. All IsGood w) ws → All IsComponent ws
components-good [] h g = tt
components-good ([] ∷ ws) h g = cc
components-good ((c ∷ w) ∷ ws) h g = (((λ e. cc), g.0), components-good ws h g.1)

split-first : (w t : Text) → All IsGood w → split_dots (w ++ (dot ∷ t)) ≡ w ∷ split_dots t
unfolding split_dots
split-first [] t h = refl
split-first (c ∷ w) t h = rw (h.0.1, split-first w t h.1)

split-last : (w : Text) → All IsGood w → split_dots w ≡ w ∷ []
unfolding split_dots
split-last [] h = refl
split-last (c ∷ w) h = rw (h.0.1, split-last w h.1)

split-join :
    (w : Text) (ws : List Text)
    → All IsComponent (w ∷ ws)
    → split_dots (join_dots (w ∷ ws)) ≡ w ∷ ws
split-join w [] h = split-last w h.0.1
split-join w (v ∷ ws) h = split-first w _ h.0.1 ∙ ap (◌∷◌ w) (split-join v ws h.1)

none-empty : (ws : List Text) → All IsComponent ws → any is_empty ws ≡ false
none-empty [] h = refl
none-empty ([] ∷ ws) h = absurd (h.0.0 refl)
none-empty ((c ∷ w) ∷ ws) h = none-empty ws h.1

all-append : (p : ℕ → Bool) (s t : Text) → all p s ≡ true → all p t ≡ true → all p (s ++ t) ≡ true
all-append p [] t h k = k
all-append p (c ∷ s) t h k =
    let (here, there) = and-parts (p c) (all p s) h in rw (here, all-append p s t there k)

good-chars : (w : Text) → All IsGood w → all is_id_char w ≡ true
good-chars [] h = refl
good-chars (c ∷ w) h = rw (h.0.0, good-chars w h.1)

dot-good : is_id_char dot ≡ true
unfolding is_id_char
dot-good = refl

join-chars : (ws : List Text) → All IsComponent ws → all is_id_char (join_dots ws) ≡ true
join-chars [] h = refl
join-chars (w ∷ []) h = good-chars w h.0.1
join-chars (w ∷ v ∷ ws) h =
    all-append _ w _ (good-chars w h.0.1) (rw (dot-good) (join-chars (v ∷ ws) h.1))

-- The first character of an identifier is no dot.
starts-good :
    (w : Text) (ws : List Text)
    → All IsComponent (w ∷ ws)
    → (c : ℕ) × (s : Text) × (join_dots (w ∷ ws) ≡ c ∷ s) × (nat_beq c dot ≡ false)
starts-good [] ws h = absurd (h.0.0 refl)
starts-good (c ∷ w) [] h = (c, w, refl, h.0.1.0.1)
starts-good (c ∷ w) (v ∷ ws) h = (c, w ++ (dot ∷ join_dots (v ∷ ws)), refl, h.0.1.0.1)

IsIdentifier-of :
    (max : ℕ) (raw : Text) (ws : List Text)
    → Splits raw ws
    → All IsComponent ws
    → bytes raw ≤ max
    → IsIdentifier max raw
IsIdentifier-of max raw [] s c b = absurd s
IsIdentifier-of max raw (w ∷ ws) s c b = record {
  first = w;
  others = ws;
  joined = s;
  components = c;
  short = b;
}

-- The four tests, read as the facts that they establish.
validate-facts :
    (raw : Text) (what : What) (max : ℕ)
    → validate raw what max ≡ ok tt
    → (bytes raw ≤ max) × (all is_id_char raw ≡ true) × (any is_empty (split_dots raw) ≡ false)
validate-facts raw what max h = unfold validate in ground arith

pub validate_sound :
    (raw : Text) (what : What) (max : ℕ) → validate raw what max ≡ ok tt → IsIdentifier max raw
validate_sound raw what max h =
    let (short, chars, full) = validate-facts raw what max h in
    IsIdentifier-of max raw (split_dots raw) (Splits-split raw)
      (components-good (split_dots raw) full (split-IsGood raw chars)) short

pub validate_complete :
    (raw : Text) (what : What) (max : ℕ) → IsIdentifier max raw → validate raw what max ≡ ok tt
unfolding validate
validate_complete raw what max h = ground (
  arith,
  h.joined,
  starts-good h.first h.others h.components,
  join-chars (h.first ∷ h.others) h.components,
  none-empty (h.first ∷ h.others) h.components,
  split-join h.first h.others h.components,
)

-- `validate` accepts a text exactly when it is one or more non-empty components of letters, digits,
-- `-` and `_`, joined by single dots, and at most `max` bytes long.
pub validate_iff :
    (raw : Text) (what : What) (max : ℕ) → (validate raw what max ≡ ok tt) ↔ IsIdentifier max raw
validate_iff raw what max = (validate_sound raw what max, validate_complete raw what max)
