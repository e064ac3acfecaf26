-- ===== src/Run/Streams.antt =====
-- What `Collected` of crates/ssh-core/src/run.rs knows of a stream, however it comes in pieces.
use mcp_ssh_rs.Prelude.{
  ℕ, zero, suc, ◌+◌, ◌-◌, min, ◌≤◌, ◌≡◌, ◌⊎◌, refl, sym, subst, ap, ◌∙◌, false, Option, none, some,
  List, [], ◌∷◌, ◌++◌, length, length-append, append_assoc, append-nil, arith, leb, Bool-cases, inl,
  inr,
}
use mcp_ssh_rs.Text.{Text}
use mcp_ssh_rs.Clock.{u64_max}
use mcp_ssh_rs.Audit.Secrets.{
  starts_with, contains, first_shape, secret_shape, secret_shapes, is_matched, longest_secret_shape,
}
use mcp_ssh_rs.Run.Collected.{Collected, new, push, push_all, whole, look, keep, split_off, take}
use mcp_ssh_rs.Run.Shapes.{AllFit, found-carried, found-more}

-- The end that `push` carries.
length-split_off : (n : ℕ) (xs : List ℕ) → length (split_off n xs) ≡ length xs - n
length-split_off zero xs = omega arith
length-split_off (suc n) [] = omega arith
length-split_off (suc n) (x ∷ xs) = omega (arith, length-split_off n xs)

take-split_off : (n : ℕ) (xs : List ℕ) → take n xs ++ split_off n xs ≡ xs
take-split_off zero xs = refl
take-split_off (suc n) [] = refl
take-split_off (suc n) (x ∷ xs) = ap (λ r. x ∷ r) (take-split_off n xs)

length-take : (n : ℕ) (xs : List ℕ) → length (take n xs) ≡ min n (length xs)
length-take zero xs = omega arith
length-take (suc n) [] = omega arith
length-take (suc n) (x ∷ xs) = omega (arith, length-take n xs)

take-nil : (n : ℕ) → [] ≡ take {A = ℕ} n []
take-nil zero = refl
take-nil (suc n) = refl

take-append : (n : ℕ) (xs ys : List ℕ) → take n (xs ++ ys) ≡ take n xs ++ take (n - length xs) ys
take-append zero [] ys = ap (λ m. take m ys) none_left
  where
    none_left : zero ≡ zero - length {A = ℕ} []
    none_left = omega arith
take-append (suc n) [] ys = ap (λ m. take m ys) (all_left n)
  where
    all_left : (n : ℕ) → suc n ≡ suc n - length {A = ℕ} []
    all_left n = omega arith
take-append zero (x ∷ xs) ys = ap (λ m. take m ys) zero_left
  where
    zero_left : zero ≡ zero - length (x ∷ xs)
    zero_left = omega arith
take-append (suc n) (x ∷ xs) ys =
    ap (λ r. x ∷ r) (take-append n xs ys ∙ ap (λ m. take n xs ++ take m ys) (one_less n xs))
  where
    one_less : (n : ℕ) (xs : List ℕ) → n - length xs ≡ suc n - length (x ∷ xs)
    one_less n xs = omega arith

shapes-AllFit : AllFit longest_secret_shape secret_shapes
unfolding AllFit
shapes-AllFit = (omega arith, (omega arith, (omega arith, (omega arith, (omega arith, tt)))))

-- What is known of a stream that has come in so far.
pub record Knows (limit : ℕ) (stream : List ℕ) (c : Collected) : Type 0 where
  pub limited : c.limit ≡ limit
  pub seen : c.seen ≡ min (length stream) u64_max
  pub kept : c.kept ≡ take limit stream
  pub matched : is_matched c.matched ≡ is_matched (secret_shape stream)
  pub before : List ℕ
  pub carries : is_matched c.matched ≡ false → stream ≡ before ++ c.carried
  pub enough :
      is_matched c.matched ≡ false → (length before ≡ 0) ⊎ (longest_secret_shape ≤ length c.carried)

kept-push :
    (limit : ℕ) (stream piece kept : List ℕ)
    → kept ≡ take limit stream
    → kept ++ take (limit - length kept) piece ≡ take limit (stream ++ piece)
kept-push limit stream piece kept h =
    let room : limit - length kept ≡ limit - length stream =
      omega (arith, ap length h, length-take limit stream) in
    ap (λ m. kept ++ take m piece) room
    ∙ ap (λ k. k ++ take (limit - length stream) piece) h
    ∙ sym (take-append limit stream piece)

-- What is carried on from a window is its end, as long as a shape or all of it.
carried_enough :
    (before window : List ℕ) (n : ℕ)
    → n ≡ min (length window - longest_secret_shape) (length window)
    → (length before ≡ 0) ⊎ (longest_secret_shape ≤ length window)
    → (length (before ++ take n window) ≡ 0) ⊎ (longest_secret_shape ≤ length (split_off n window))
carried_enough before window n e (inr l) = inr (omega (arith, e, l, length-split_off n window))
carried_enough before window n e (inl l) =
    elim (Bool-cases (leb longest_secret_shape (length window))) [
      | inl b ↦ inr (ground (arith, b, e, length-split_off n window))
      | inr b ↦
          inl (ground (arith, b, e, l, length-append before (take n window), length-take n window))
    ]

longer : (a b : ℕ) (P : Type 0) → P ⊎ (a ≤ b) → (c : ℕ) → P ⊎ (a ≤ b + c)
longer a b P (inl p) c = inl p
longer a b P (inr l) c = inr (omega (arith, l))

Knows-push :
    (limit : ℕ) (stream piece kept : List ℕ) (seen room : ℕ) (matched : Option Text)
    (carried : List ℕ)
    → Knows limit stream
        (record { kept = kept; seen = seen; limit = room; matched = matched; carried = carried })
    → Knows limit (stream ++ piece) (
        push
          (record { kept = kept; seen = seen; limit = room; matched = matched; carried = carried })
          piece)
unfolding push look keep secret_shape
Knows-push limit stream piece kept seen room (some what) carried k = record {
  limited = k.limited;
  seen = omega (arith, k.seen, length-append stream piece);
  kept =
      ap (λ r. kept ++ take (r - length kept) piece) k.limited
      ∙ kept-push limit stream piece kept k.kept;
  matched = sym (found-more secret_shapes stream piece (sym k.matched));
  before = [];
  carries = λ h. absurd (cc h);
  enough = λ h. absurd (cc h);
}
Knows-push limit stream piece kept seen room none carried k =
    let window = carried ++ piece in
    let n = min (length window - longest_secret_shape) (length window) in
    let whole : stream ≡ k.before ++ carried = k.carries refl in
    record {
      limited = k.limited;
      seen = omega (arith, k.seen, length-append stream piece);
      kept =
          ap (λ r. kept ++ take (r - length kept) piece) k.limited
          ∙ kept-push limit stream piece kept k.kept;
      matched = ap is_matched (
          sym (
            ap (λ s. first_shape secret_shapes (s ++ piece)) whole
            ∙ found-carried secret_shapes longest_secret_shape k.before carried piece shapes-AllFit
                (k.enough refl)
                (ap (λ s. is_matched (first_shape secret_shapes s)) (sym whole) ∙ sym k.matched)));
      before = k.before ++ take n window;
      carries = λ h.
          ap (λ s. s ++ piece) whole
          ∙ append_assoc k.before carried piece
          ∙ ap (λ s. k.before ++ s) (sym (take-split_off n window))
          ∙ sym (append_assoc k.before (take n window) (split_off n window));
      enough = λ h. carried_enough k.before window n refl (
          subst (λ l. (length k.before ≡ 0) ⊎ (longest_secret_shape ≤ l))
            (sym (length-append carried piece))
            (longer longest_secret_shape (length carried) (length k.before ≡ 0) (k.enough refl)
              (length piece)));
    }

Knows-push_all :
    (limit : ℕ) (pieces : List (List ℕ)) (stream : List ℕ) (c : Collected)
    → Knows limit stream c
    → Knows limit (stream ++ whole pieces) (push_all c pieces)
Knows-push_all limit [] stream c k = subst (λ s. Knows limit s c) (sym (append-nil stream)) k
Knows-push_all limit (piece ∷ pieces) stream c k =
    subst (λ s. Knows limit s (push_all (push c piece) pieces))
      (append_assoc stream piece (whole pieces))
      (Knows-push_all limit pieces (stream ++ piece) (push c piece)
        (Knows-push limit stream piece c.kept c.seen c.limit c.matched c.carried k))

-- However a stream comes in pieces: its length is counted up to the bound of the counter, its beginning
-- is kept up to the limit, and it is found to hold a secret exactly if the whole of it does, even where
-- a shape lies across two pieces or past the limit.
pub push_all-new :
    (limit : ℕ) (pieces : List (List ℕ))
    → let c = push_all (new limit) pieces in
      (c.seen ≡ min (length (whole pieces)) u64_max)
      × (c.kept ≡ take limit (whole pieces))
      × (is_matched c.matched ≡ is_matched (secret_shape (whole pieces)))
unfolding secret_shape contains starts_with
push_all-new limit pieces =
    let k = Knows-push_all limit pieces [] (new limit) (nothing limit) in
    (k.seen, k.kept, k.matched)
  where
    nothing : (limit : ℕ) → Knows limit [] (new limit)
    nothing limit = record {
      limited = refl;
      seen = omega arith;
      kept = take-nil limit;
      matched = refl;
      before = [];
      carries = λ h. refl;
      enough = λ h. inl refl;
    }
