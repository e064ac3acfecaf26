-- ===== src/Run/Shapes.antt =====
-- Secret shapes of crates/ssh-core/src/audit.rs in a text that comes in pieces.
use mcp_ssh_rs.Prelude.{
  ℕ, ◌≤◌, ◌≡◌, ◌⊎◌, refl, sym, ap, ◌∙◌, Bool, true, false, ◌&&◌, Option, some, List, [], ◌∷◌, ◌++◌,
  length, length-append, arith, nat_beq, if◌then◌else◌, Bool-cases, inl, inr,
}
use mcp_ssh_rs.Text.{Text}
use mcp_ssh_rs.Audit.Secrets.{starts_with, contains, first_shape, is_matched}

-- A needle that fits in a text starts it or not, whatever follows.
starts_with-append :
    (needle s d : List ℕ)
    → length needle ≤ length s
    → starts_with needle (s ++ d) ≡ starts_with needle s
unfolding starts_with
starts_with-append [] s d l = refl
starts_with-append (c ∷ needle) [] d l = absurd (omega (arith, l))
starts_with-append (c ∷ needle) (x ∷ s) d l =
    ap (λ b. nat_beq c x && b) (starts_with-append needle s d (omega (arith, l)))

starts_with-more :
    (needle s d : List ℕ) → starts_with needle s ≡ true → starts_with needle (s ++ d) ≡ true
unfolding starts_with
starts_with-more [] s d h = refl
starts_with-more (c ∷ needle) [] d h = absurd (cc h)
starts_with-more (c ∷ needle) (x ∷ s) d h = ground (arith, h, starts_with-more needle s d)

-- What is in a text is in what goes on from it, and in what ends in it.
contains-more : (needle s d : List ℕ) → contains needle s ≡ true → contains needle (s ++ d) ≡ true
unfolding contains
contains-more needle [] [] h = h
contains-more needle [] (x ∷ d) h = ground (arith, starts_with-more needle [] (x ∷ d) h)
contains-more needle (x ∷ s) d h =
    ground (arith, h, starts_with-more needle (x ∷ s) d, contains-more needle s d)

contains-before : (needle p s : List ℕ) → contains needle s ≡ true → contains needle (p ++ s) ≡ true
unfolding contains
contains-before needle [] s h = h
contains-before needle (x ∷ p) s h = ground (arith, h, contains-before needle p s h)

-- Where a needle is not in a text, and is no longer than the end of it that is carried, it is in what
-- goes on from the text exactly if it is in what goes on from the carried end.
contains-carried :
    (needle p c d : List ℕ)
    → contains needle (p ++ c) ≡ false
    → (length p ≡ 0) ⊎ (length needle ≤ length c)
    → contains needle ((p ++ c) ++ d) ≡ contains needle (c ++ d)
unfolding contains
contains-carried needle [] c d h l = refl
contains-carried needle (x ∷ p) c d h (inl l) = absurd (omega (arith, l))
contains-carried needle (x ∷ p) c d h (inr l) =
    let rest = contains-carried needle p c d (ground (arith, h)) (inr l) in
    let here = starts_with-append needle (x ∷ (p ++ c)) d (omega (arith, l, length-append p c)) in
    ground (arith, h, rest, here)

-- Each shape is no longer than what is carried.
unfoldable pub AllFit : ℕ → List (Text × Text) → Type 0
AllFit n [] = Unit {0}
AllFit n ((needle, what) ∷ shapes) = (length needle ≤ n) × AllFit n shapes

fits :
    (needle : Text) (n : ℕ) (p c : List ℕ)
    → length needle ≤ n
    → (length p ≡ 0) ⊎ (n ≤ length c)
    → (length p ≡ 0) ⊎ (length needle ≤ length c)
fits needle n p c l (inl e) = inl e
fits needle n p c l (inr e) = inr (omega (arith, l, e))

-- Whether any shape is found.
pub found-carried :
    (shapes : List (Text × Text)) (n : ℕ) (p c d : List ℕ)
    → AllFit n shapes
    → (length p ≡ 0) ⊎ (n ≤ length c)
    → is_matched (first_shape shapes (p ++ c)) ≡ false
    → first_shape shapes ((p ++ c) ++ d) ≡ first_shape shapes (c ++ d)
unfolding AllFit
found-carried [] n p c d fit l h = refl
found-carried ((needle, what) ∷ shapes) n p c d fit l h =
    elim (Bool-cases (contains needle (p ++ c))) [
      | inl e ↦ absurd (
          cc (
            sym (ap (λ b. is_matched (if b then some what else first_shape shapes (p ++ c))) e)
            ∙ h))
      | inr e ↦
          let rest =
            sym (ap (λ b. is_matched (if b then some what else first_shape shapes (p ++ c))) e)
            ∙ h in
          ap (λ b. if b then some what else first_shape shapes ((p ++ c) ++ d))
            (contains-carried needle p c d e (fits needle n p c fit.0 l))
          ∙ ap (λ r. if contains needle (c ++ d) then some what else r)
              (found-carried shapes n p c d fit.1 l rest)
    ]

matched_else :
    (b : Bool) (what : Text) (r : Option Text)
    → is_matched r ≡ true
    → is_matched (if b then some what else r) ≡ true
matched_else true what r h = refl
matched_else false what r h = h

pub found-more :
    (shapes : List (Text × Text)) (s d : List ℕ)
    → is_matched (first_shape shapes s) ≡ true
    → is_matched (first_shape shapes (s ++ d)) ≡ true
found-more [] s d h = h
found-more ((needle, what) ∷ shapes) s d h = elim (Bool-cases (contains needle s)) [
  | inl e ↦ rw (contains-more needle s d e) refl
  | inr e ↦ matched_else (contains needle (s ++ d)) what (first_shape shapes (s ++ d)) (
      found-more shapes s d
        (sym (ap (λ b. is_matched (if b then some what else first_shape shapes s)) e) ∙ h))
]
