-- ===== src/Audit/Chain.antt =====
-- The chain of the entries that are held, with the digests that were issued for them and their sizes.
use mcp_ssh_rs.Prelude.{
  ℕ, zero, suc, ◌+◌, ◌≡◌, refl, sym, subst, ap, ◌∙◌, Option, none, some, List, [], ◌∷◌, ◌++◌,
  length, arith, ok,
}
use mcp_ssh_rs.Text.{Text}
use mcp_ssh_rs.Audit.{Entry, Held, intact, sealed, digest_of_held, previous_of, sequence_of}
use mcp_ssh_rs.Audit.State.{get_at, set_at, back, pop_front}
use mcp_ssh_rs.Audit.Retention.{Codec, digest_of, encoded_bytes, digest_or, or_zero}

abbrev pub sum : List ℕ → ℕ
sum [] = 0
sum (n ∷ ns) = n + sum ns

abbrev pub text_or : Text → Option Text → Text
text_or p none = p
text_or p (some d) = d

pub digest_or-back :
    (p q : Text) (h : Held) (hs : List Held)
    → digest_or p (back (h ∷ hs)) ≡ digest_or q (back (h ∷ hs))
digest_or-back p q h [] = refl
digest_or-back p q h (k ∷ hs) = digest_or-back p q k hs

module _ (codec : Codec) where
  -- What is read of an entry is what was hashed, and it takes up the bytes that it is encoded in. An
  -- entry that cannot be read takes up nothing.
  abbrev pub IsWhole : Held → ℕ → Type 0
  IsWhole (intact entry) size =
      (digest_of codec entry ≡ ok entry.digest) × (encoded_bytes codec entry ≡ ok size)
  IsWhole (sealed sequence previous digest) size = size ≡ 0

  -- From a position and the digest before it.
  abbrev pub Chain : ℕ → Text → List Held → List Text → List ℕ → Type 0
  Chain n p [] [] [] = Unit {0}
  Chain n p (h ∷ hs) (d ∷ ds) (z ∷ zs) =
      (sequence_of h ≡ n)
      × (previous_of h ≡ p)
      × (digest_of_held h ≡ d)
      × IsWhole h z
      × Chain (suc n) d hs ds zs
  Chain n p _ _ _ = ⊥

  pub Chain-lengths :
      (n : ℕ) (p : Text) (hs : List Held) (ds : List Text) (zs : List ℕ)
      → Chain n p hs ds zs
      → (length hs ≡ length ds) × (length hs ≡ length zs)
  Chain-lengths n p [] [] [] c = (refl, refl)
  Chain-lengths n p (h ∷ hs) (d ∷ ds) (z ∷ zs) c =
      let (a, b) = Chain-lengths (suc n) d hs ds zs c.4 in (ap suc a, ap suc b)
  Chain-lengths n p [] [] (z ∷ zs) c = absurd c
  Chain-lengths n p [] (d ∷ ds) zs c = absurd c
  Chain-lengths n p (h ∷ hs) [] zs c = absurd c
  Chain-lengths n p (h ∷ hs) (d ∷ ds) [] c = absurd c

  -- Sealing an entry keeps the chain.
  pub Chain-seal :
      (n : ℕ) (p : Text) (hs : List Held) (ds : List Text) (zs : List ℕ) (i : ℕ) (e : Entry)
      → Chain n p hs ds zs
      → get_at i hs ≡ some (intact e)
      → Chain n p (set_at i (sealed e.sequence e.previous e.digest) hs) ds (set_at i 0 zs)
  Chain-seal n p [] [] [] i e c h = c
  Chain-seal n p (x ∷ hs) (d ∷ ds) (z ∷ zs) zero e c h = ground (arith, c, h)
  Chain-seal n p (x ∷ hs) (d ∷ ds) (z ∷ zs) (suc i) e c h =
      (c.0, c.1, c.2, c.3, Chain-seal (suc n) d hs ds zs i e c.4 h)
  Chain-seal n p [] [] (z ∷ zs) i e c h = absurd c
  Chain-seal n p [] (d ∷ ds) zs i e c h = absurd c
  Chain-seal n p (x ∷ hs) [] zs i e c h = absurd c
  Chain-seal n p (x ∷ hs) (d ∷ ds) [] i e c h = absurd c

  -- Without its first entry, a chain goes on from that entry's digest.
  pub Chain-pop_front :
      (n : ℕ) (p : Text) (hs : List Held) (ds : List Text) (zs : List ℕ) (h : Held)
      → Chain n p hs ds zs
      → get_at 0 hs ≡ some h
      → Chain (n + 1) (digest_or p (get_at 0 hs)) (pop_front hs) (pop_front ds) (pop_front zs)
  Chain-pop_front n p (x ∷ hs) (d ∷ ds) (z ∷ zs) h c e =
      subst (λ m. Chain m (digest_of_held x) hs ds zs) (omega arith)
        (subst (λ t. Chain (suc n) t hs ds zs) (sym c.2) c.4)
  Chain-pop_front n p [] ds zs h c e = cc e
  Chain-pop_front n p (x ∷ hs) [] zs h c e = absurd c
  Chain-pop_front n p (x ∷ hs) (d ∷ ds) [] h c e = absurd c

  -- An entry that follows the last one extends the chain.
  pub Chain-append :
      (n : ℕ) (p : Text) (hs : List Held) (ds : List Text) (zs : List ℕ) (h : Held) (z : ℕ)
      → Chain n p hs ds zs
      → sequence_of h ≡ n + length hs
      → previous_of h ≡ digest_or p (back hs)
      → IsWhole h z
      → Chain n p (hs ++ (h ∷ [])) (ds ++ (digest_of_held h ∷ [])) (zs ++ (z ∷ []))
  Chain-append n p [] [] [] h z c s v w = (omega (arith, s), v, refl, w, tt)
  Chain-append n p (x ∷ []) (d ∷ []) (y ∷ []) h z c s v w =
      (c.0, c.1, c.2, c.3, (omega (arith, s), v ∙ c.2, refl, w, tt))
  Chain-append n p (x ∷ x' ∷ hs) (d ∷ ds) (y ∷ zs) h z c s v w = (
    c.0,
    c.1,
    c.2,
    c.3,
    Chain-append (suc n) d (x' ∷ hs) ds zs h z c.4 (omega (arith, s)) (v ∙ digest_or-back p d x' hs)
        w,
  )
  Chain-append n p [] [] (y ∷ zs) h z c s v w = absurd c
  Chain-append n p [] (d ∷ ds) zs h z c s v w = absurd c
  Chain-append n p (x ∷ hs) [] zs h z c s v w = absurd c
  Chain-append n p (x ∷ hs) (d ∷ ds) [] h z c s v w = absurd c
  Chain-append n p (x ∷ []) (d ∷ d' ∷ ds) (y ∷ zs) h z c s v w = absurd c.4
  Chain-append n p (x ∷ []) (d ∷ []) (y ∷ y' ∷ zs) h z c s v w = absurd c.4

  -- The last digest is the last one that was issued.
  pub Chain-head :
      (n : ℕ) (p : Text) (hs : List Held) (ds : List Text) (zs : List ℕ)
      → Chain n p hs ds zs
      → digest_or p (back hs) ≡ text_or p (back ds)
  Chain-head n p [] [] [] c = refl
  Chain-head n p (h ∷ []) (d ∷ []) (z ∷ zs) c = c.2
  Chain-head n p (h ∷ k ∷ hs) (d ∷ d' ∷ ds) (z ∷ z' ∷ zs) c =
      digest_or-back p d k hs
      ∙ Chain-head (suc n) d (k ∷ hs) (d' ∷ ds) (z' ∷ zs) c.4
      ∙ text_or-back d p d' ds
    where
      text_or-back :
          (q r d : Text) (ds : List Text) → text_or q (back (d ∷ ds)) ≡ text_or r (back (d ∷ ds))
      text_or-back q r d [] = refl
      text_or-back q r d (e ∷ ds) = text_or-back q r e ds
  Chain-head n p [] [] (z ∷ zs) c = absurd c
  Chain-head n p [] (d ∷ ds) zs c = absurd c
  Chain-head n p (h ∷ hs) [] zs c = absurd c
  Chain-head n p (h ∷ hs) (d ∷ ds) [] c = absurd c
  Chain-head n p (h ∷ []) (d ∷ d' ∷ ds) (z ∷ zs) c = absurd c.4
  Chain-head n p (h ∷ k ∷ hs) (d ∷ []) (z ∷ zs) c = absurd c.4
  Chain-head n p (h ∷ k ∷ hs) (d ∷ d' ∷ ds) (z ∷ []) c = absurd c.4

pub sum-pop_front : (zs : List ℕ) → or_zero (get_at 0 zs) + sum (pop_front zs) ≡ sum zs
sum-pop_front [] = refl
sum-pop_front (z ∷ zs) = refl

pub length-pop_front :
    {A : Type 0} (a : A) (xs : List A)
    → get_at 0 xs ≡ some a
    → suc (length (pop_front xs)) ≡ length xs
length-pop_front a [] e = cc e
length-pop_front a (x ∷ xs) e = refl

pub back-pop_front :
    (p : Text) (hs : List Held)
    → digest_or (digest_or p (get_at 0 hs)) (back (pop_front hs)) ≡ digest_or p (back hs)
back-pop_front p [] = refl
back-pop_front p (h ∷ []) = refl
back-pop_front p (h ∷ k ∷ hs) = digest_or-back (digest_of_held h) p k hs

pub sum-set_at : (i : ℕ) (zs : List ℕ) → sum (set_at i 0 zs) + or_zero (get_at i zs) ≡ sum zs
sum-set_at i [] = refl
sum-set_at zero (z ∷ zs) = omega arith
sum-set_at (suc i) (z ∷ zs) = omega (arith, sum-set_at i zs)

pub sum-append : (xs ys : List ℕ) → sum (xs ++ ys) ≡ sum xs + sum ys
sum-append [] ys = omega arith
sum-append (x ∷ xs) ys = omega (arith, sum-append xs ys)

pub length-set_at : {A : Type 0} (i : ℕ) (a : A) (xs : List A) → length (set_at i a xs) ≡ length xs
length-set_at i a [] = refl
length-set_at zero a (x ∷ xs) = refl
length-set_at (suc i) a (x ∷ xs) = ap suc (length-set_at i a xs)
