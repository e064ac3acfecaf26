-- ===== src/Audit/Places.antt =====
-- Each held entry of a sound ledger passes `State::check`.
use mcp_ssh_rs.Prelude.{
  ℕ, zero, suc, ◌+◌, ◌<◌, ◌≡◌, refl, sym, subst, ap, ◌∙◌, Bool, true, some, List, [], ◌∷◌, length,
  arith, ok, nat_eq, ◌&&◌, eq_refl, nat_beq_iff,
}
use mcp_ssh_rs.Text.{Text, text_eq}
use mcp_ssh_rs.Audit.{Held, intact, sealed, digest_of_held, previous_of, sequence_of}
use mcp_ssh_rs.Audit.State.{State, Limits, get_at}
use mcp_ssh_rs.Audit.Retention.{
  Codec, digest_or, before, same_digest, in_place, check, check_content,
}
use mcp_ssh_rs.Audit.Chain.{Chain, IsWhole}
use mcp_ssh_rs.Audit.Soundness.{IsSound}

pub get_at-some :
    {A : Type 0} (i : ℕ) (xs : List A) → i < length xs → (a : A) × (get_at i xs ≡ some a)
get_at-some i [] l = absurd (omega (arith, l))
get_at-some zero (x ∷ xs) l = (x, refl)
get_at-some (suc i) (x ∷ xs) l = get_at-some i xs (omega (arith, l))

pub get_at-length :
    {A : Type 0} (i : ℕ) (xs : List A) (a : A) → get_at i xs ≡ some a → i < length xs
get_at-length i [] a e = absurd (cc e)
get_at-length zero (x ∷ xs) a e = omega arith
get_at-length (suc i) (x ∷ xs) a e = omega (arith, get_at-length i xs a e)

all_true : (a b c d : Bool) → a ≡ true → b ≡ true → c ≡ true → d ≡ true → (a && b && c && d) ≡ true
all_true a b c d h k l m = ground (arith, h, k, l, m)

-- Where there is an entry before, no digest stands in for it.
before_lem :
    (p d : Text) (k : Held) (hs : List Held) (i : ℕ) (h : Held)
    → digest_of_held k ≡ d
    → get_at i hs ≡ some h
    → digest_or d (before i hs) ≡ digest_or p (get_at i (k ∷ hs))
before_lem p d k hs zero h e g = sym e
before_lem p d k (k' ∷ hs) (suc i) h e g =
    let (a, q) = get_at-some i (k' ∷ hs) (omega (arith, get_at-length i hs h g)) in
    ap (digest_or d) q ∙ ap (digest_or p) (sym q)
before_lem p d k [] (suc i) h e g = absurd (cc g)

module _ (codec : Codec) where
  pub record At (n : ℕ) (p : Text) (hs : List Held) (ds : List Text) (zs : List ℕ) (i : ℕ)
      (h : Held) : Type 0 where
    pub sequence : sequence_of h ≡ n + i
    pub previous : previous_of h ≡ digest_or p (before i hs)
    pub issued : get_at i ds ≡ some (digest_of_held h)
    pub size : ℕ
    pub sized : get_at i zs ≡ some size
    pub whole : IsWhole codec h size

  pub Chain-At :
      (n : ℕ) (p : Text) (hs : List Held) (ds : List Text) (zs : List ℕ) (i : ℕ) (h : Held)
      → Chain codec n p hs ds zs
      → get_at i hs ≡ some h
      → At n p hs ds zs i h
  Chain-At n p [] ds zs i h c e = absurd (cc e)
  Chain-At n p (k ∷ hs) [] zs i h c e = absurd c
  Chain-At n p (k ∷ hs) (d ∷ ds) [] i h c e = absurd c
  Chain-At n p (k ∷ hs) (d ∷ ds) (z ∷ zs) zero h c e =
      subst (λ x. At n p (k ∷ hs) (d ∷ ds) (z ∷ zs) zero x) (cc e)
        (record {
          sequence = omega (arith, c.0);
          previous = c.1;
          issued = ap some (sym c.2);
          size = z;
          sized = refl;
          whole = c.3;
        })
  Chain-At n p (k ∷ hs) (d ∷ ds) (z ∷ zs) (suc i) h c e =
      let a = Chain-At (suc n) d hs ds zs i h c.4 e in
      record {
        sequence = omega (arith, a.sequence);
        previous = a.previous ∙ before_lem p d k hs i h c.2 e;
        issued = a.issued;
        size = a.size;
        sized = a.sized;
        whole = a.whole;
      }

  whole-check_content : (h : Held) (z : ℕ) → IsWhole codec h z → check_content codec h ≡ ok tt
  unfolding check_content
  whole-check_content (intact entry) z w = rw (w.0, eq_refl entry.digest) refl
  whole-check_content (sealed sequence previous digest) z w = refl

  -- The check of an entry that is held succeeds and changes nothing.
  pub check-IsSound :
      (limits : Limits) (s : State) (i : ℕ) (h : Held)
      → IsSound codec limits s
      → get_at i s.entries ≡ some h
      → check codec i s ≡ (s, ok tt)
  unfolding check
  check-IsSound limits s i h v e =
      let a = Chain-At _ _ _ _ _ i h v.chain e in
      let here : in_place s i h ≡ true =
        all_true _ _ _ _ (ground (arith, v.counted, v.small, get_at-length i s.entries h e))
          ((nat_beq_iff (sequence_of h) (s.issued.retired + i)).1 a.sequence)
          ((text_eq.beq_iff (previous_of h) (digest_or s.issued.checkpoint (before i s.entries))).1
            a.previous)
          (ap (λ d. same_digest d (digest_of_held h)) a.issued ∙ eq_refl (digest_of_held h)) in
      rw (e, here) (ap (λ r. (s, r)) (whole-check_content h a.size a.whole))
