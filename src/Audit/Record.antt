-- ===== src/Audit/Record.antt =====
-- The record of crates/ssh-core/src/audit.rs after any run of calls.
use mcp_ssh_rs.Prelude.{
  ℕ, zero, suc, ◌+◌, ◌≤◌, ◌≡◌, refl, sym, subst, ap, ◌∙◌, Bool, some, List, [], ◌∷◌, ◌++◌, length,
  arith, Result, ok, Result-cases, inl, inr,
}
use mcp_ssh_rs.Text.{Text}
use mcp_ssh_rs.Clock.{u64_max}
use mcp_ssh_rs.Digest.{hex}
use mcp_ssh_rs.Audit.{Entry, Held, Verified, intact, sealed, digest_of_held}
use mcp_ssh_rs.Audit.State.{State, Limits, new, get_at}
use mcp_ssh_rs.Audit.Retention.{Codec, digest_of}
use mcp_ssh_rs.Audit.Verify.{verify}
use mcp_ssh_rs.Audit.Chain.{Chain, Chain-lengths, IsWhole}
use mcp_ssh_rs.Audit.Soundness.{IsSound, Logged}
use mcp_ssh_rs.Audit.Moves.{Moves}
use mcp_ssh_rs.Audit.Calls.{Moves-Kept}
use mcp_ssh_rs.Audit.Checking.{Linked, IsUnaltered, IsAsIssued, report, verify_lem}

module _ (codec : Codec) where
  new-IsSound : (limits : Limits) (genesis : Text) → IsSound codec limits (new genesis)
  new-IsSound limits genesis = record {
    chain = tt;
    counted = omega arith;
    small = omega arith;
    summed = refl;
    fits = omega arith;
    few = omega arith;
    guarded = omega arith;
  }

  IsWhole-IsUnaltered : (h : Held) (z : ℕ) → IsWhole codec h z → IsUnaltered codec h
  IsWhole-IsUnaltered (intact entry) z w = w.0
  IsWhole-IsUnaltered (sealed sequence previous digest) z w = tt

  Chain-Linked :
      (n : ℕ) (p : Text) (hs : List Held) (ds : List Text) (zs : List ℕ)
      → Chain codec n p hs ds zs
      → Linked codec n p ds hs
  Chain-Linked n p [] ds zs c = tt
  Chain-Linked n p (h ∷ hs) (d ∷ ds) (z ∷ zs) c = (
    (c.0, (c.1, (ap some (sym c.2), IsWhole-IsUnaltered h z c.3))),
    subst (λ q. Linked codec (suc n) q ds hs) (sym c.2) (Chain-Linked (suc n) d hs ds zs c.4),
  )
  Chain-Linked n p (h ∷ hs) [] zs c = absurd c
  Chain-Linked n p (h ∷ hs) (d ∷ ds) [] c = absurd c

  IsSound-IsAsIssued : (limits : Limits) (s : State) → IsSound codec limits s → IsAsIssued codec s
  unfolding IsAsIssued
  IsSound-IsAsIssued limits s v =
      (Chain-Linked _ _ _ _ _ v.chain, (Chain-lengths codec _ _ _ _ _ v.chain).0)

  -- A state that is sound is found to be as it was issued.
  IsSound-verify :
      (limits : Limits) (s : State) → IsSound codec limits s → verify codec s ≡ ok (report codec s)
  IsSound-verify limits s v =
      let lengths = (Chain-lengths codec _ _ _ _ _ v.chain).0 in
      elim (verify_lem codec s (omega (arith, v.counted, lengths)) v.small) [
        | inl h ↦ h.0
        | inr h ↦ absurd (h.2 (IsSound-IsAsIssued limits s v))
      ]

  module _ (accepts : Entry → Bool) (genesis : Text) (limits : Limits) (kept : ℕ) where
    -- Whatever is called on a new ledger, in whatever order, what it holds stays the chain of what it
    -- issued; its accounting is exact, with the bytes that each readable entry is encoded in and none for
    -- a sealed one; and it has no more entries, readable bytes and proofs than its limits.
    pub Moves-IsSound :
        (s : State)
        → Moves codec accepts genesis limits kept (new genesis) s
        → IsSound codec limits s
    Moves-IsSound s run =
        (Moves-Kept codec accepts genesis limits kept (new genesis) s (new-IsSound limits genesis)
          run).sound

    -- Verification succeeds on every ledger that calls have made, and reports exactly what it holds.
    pub verify-Moves :
        (s : State)
        → Moves codec accepts genesis limits kept (new genesis) s
        → verify codec s ≡ ok (report codec s)
    verify-Moves s run = IsSound-verify limits s (Moves-IsSound s run)

  new-Logged : (genesis : Text) → Logged [] (new genesis)
  new-Logged genesis = record { held = refl; within = omega arith }

  module _ (accepts : Entry → Bool) (genesis : Text) (limits : Limits) (kept : ℕ) where
    -- The ledger refines a log to which digests are only ever added: a state that stands for a log goes,
    -- by any calls, to one that stands for a log that extends it; and of its log a state holds
    -- everything from the first entry that it has not retired.
    pub Moves-Logged :
        (log : List Text) (s t : State)
        → Moves codec accepts genesis limits kept (new genesis) s
        → Logged log s
        → Moves codec accepts genesis limits kept s t
        → (more : List Text) × Logged (log ++ more) t
    Moves-Logged log s t run l more =
        (Moves-Kept codec accepts genesis limits kept s t
            (Moves-IsSound accepts genesis limits kept s run) more).logged
          log l

  get_at-Linked :
      (n : ℕ) (p : Text) (ds : List Text) (hs : List Held) (i : ℕ) (h : Held)
      → Linked codec n p ds hs
      → get_at i hs ≡ some h
      → (get_at i ds ≡ some (digest_of_held h)) × IsUnaltered codec h
  get_at-Linked n p ds [] i h l e = absurd (cc e)
  get_at-Linked n p (d ∷ ds) (k ∷ hs) zero h l e =
      let (same, unaltered) = l.0.1.1 in
      subst (λ x. (some d ≡ some (digest_of_held x)) × IsUnaltered codec x) (cc e) (same, unaltered)
  get_at-Linked n p (d ∷ ds) (k ∷ hs) (suc i) h l e = get_at-Linked (suc n) _ ds hs i h l.1 e
  get_at-Linked n p [] (k ∷ hs) i h l e = absurd (cc l.0.1.1.0)

  -- The bytes that an entry's digest is made of.
  abbrev pub canonical : Entry → Result Text (List ℕ)
  canonical entry = codec.encode (record entry { digest = [] })

  digest_of-canonical :
      (e : Entry) (d : Text)
      → digest_of codec e ≡ ok d
      → (a : List ℕ) × (canonical e ≡ ok a) × (hex (codec.sha256 a) ≡ d)
  unfolding digest_of
  digest_of-canonical e d h = elim (Result-cases (canonical e)) [
    | inl (x, k) ↦ absurd (cc (h, k))
    | inr (a, k) ↦ (a, k, cc (h, k))
  ]

  -- What two entries of the same digest have in common.
  pub record SameDigest (e f : Entry) : Type 0 where
    pub digests : e.digest ≡ f.digest
    pub left : List ℕ
    pub right : List ℕ
    pub left_is : canonical e ≡ ok left
    pub right_is : canonical f ≡ ok right
    pub collide : hex (codec.sha256 left) ≡ hex (codec.sha256 right)

  same_digest :
      (e f : Entry)
      → digest_of codec e ≡ ok e.digest
      → digest_of codec f ≡ ok f.digest
      → some e.digest ≡ some f.digest
      → SameDigest e f
  same_digest e f h k d =
      let (a, x, p) = digest_of-canonical e e.digest h in
      let (b, y, q) = digest_of-canonical f f.digest k in
      record {
        digests = cc d;
        left = a;
        right = b;
        left_is = x;
        right_is = y;
        collide = cc (p, q, d);
      }

  verify-IsAsIssued :
      (s t : State) (r : Verified)
      → IsAsIssued codec s
      → s.issued.retired + length s.entries ≡ s.issued.total
      → s.issued.total ≤ u64_max
      → t.issued ≡ s.issued
      → verify codec t ≡ ok r
      → IsAsIssued codec t
  unfolding IsAsIssued
  verify-IsAsIssued s t r v c b e w =
      let counted : t.issued.retired + length t.issued.digests ≡ t.issued.total =
        subst (λ i. i.retired + length i.digests ≡ i.total) (sym e) (omega (arith, v.1, c)) in
      elim (verify_lem codec t counted (subst (λ i. i.total ≤ u64_max) (sym e) b)) [
        | inl h ↦ h.1
        | inr h ↦ absurd (cc (h.1, w))
      ]

  module _ (accepts : Entry → Bool) (genesis : Text) (limits : Limits) (kept : ℕ) where
    -- If what a ledger holds is replaced and it still verifies against what it issued, then as many
    -- entries are there, and an entry that stands readable where another one stood has the same digest:
    -- the bytes that the two are hashed from have the same SHA-256.
    pub verify-replaced :
        (s t : State) (r : Verified) (i : ℕ) (e f : Entry)
        → Moves codec accepts genesis limits kept (new genesis) s
        → t.issued ≡ s.issued
        → verify codec t ≡ ok r
        → get_at i s.entries ≡ some (intact e)
        → get_at i t.entries ≡ some (intact f)
        → SameDigest e f × (length t.entries ≡ length s.entries)
    unfolding IsAsIssued
    verify-replaced s t r i e f run same w h k =
        let v = Moves-IsSound accepts genesis limits kept s run in
        let held = IsSound-IsAsIssued limits s v in
        let found = verify-IsAsIssued s t r held v.counted v.small same w in
        let (d, p) = get_at-Linked _ _ _ _ i (intact e) held.0 h in
        let (c, q) = get_at-Linked _ _ _ _ i (intact f) found.0 k in
        (
          same_digest e f p q (sym d ∙ sym (ap (λ j. get_at i j.digests) same) ∙ c),
          found.1 ∙ ap (λ j. length j.digests) same ∙ sym held.1,
        )
