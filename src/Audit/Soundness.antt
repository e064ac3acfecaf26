-- ===== src/Audit/Soundness.antt =====
-- What holds of the ledger's state at all times, and that making room keeps it.
use mcp_ssh_rs.Prelude.{
  ℕ, zero, suc, ◌+◌, ◌-◌, ◌≤◌, ◌≡◌, refl, sym, ap, ◌∙◌, Bool, true, false, some, List, [], ◌∷◌,
  ◌++◌, length, arith, Result, ok, err, Option-cases, inl, inr,
}
use mcp_ssh_rs.Text.{Text}
use mcp_ssh_rs.Dict.{Dict, values}
use mcp_ssh_rs.Clock.{u64_max}
use mcp_ssh_rs.Audit.{AuditError, Entry, Held, Proof, intact, sealed}
use mcp_ssh_rs.Audit.State.{
  State, Limits, EvaluationIndex, Action, next, fail_if, ◌>>=◌, get_at, set_at, back, pop_front,
}
use mcp_ssh_rs.Audit.Retention.{Codec, check, seal, seal_at, drop_front, or_zero, digest_or}
use mcp_ssh_rs.Audit.Verify.{skip}
use mcp_ssh_rs.Audit.Pinned.{bytes_of, IsPinned}
use mcp_ssh_rs.Audit.Chain.{
  Chain, Chain-lengths, Chain-seal, Chain-head, Chain-pop_front, sum-pop_front, length-pop_front,
  back-pop_front, sum, sum-set_at, length-set_at,
}

-- The digest that the next entry commits to.
abbrev pub head : State → Text
head s = digest_or s.issued.checkpoint (back s.entries)

-- All that was ever issued, of which a state still holds the end.
pub record Logged (log : List Text) (s : State) : Type 0 where
  pub held : s.issued.digests ≡ skip s.issued.retired log
  pub within : s.issued.retired ≤ length log

skip-pop_front : {A : Type 0} (n : ℕ) (xs : List A) → skip (suc n) xs ≡ pop_front (skip n xs)
skip-pop_front zero [] = refl
skip-pop_front zero (x ∷ xs) = refl
skip-pop_front (suc n) [] = refl
skip-pop_front (suc n) (x ∷ xs) = skip-pop_front n xs

length-skip : {A : Type 0} (n : ℕ) (xs : List A) → length (skip n xs) ≡ length xs - n
length-skip zero xs = omega arith
length-skip (suc n) [] = omega arith
length-skip (suc n) (x ∷ xs) = omega (arith, length-skip n xs)

pub skip-append :
    {A : Type 0} (n : ℕ) (xs ys : List A) → n ≤ length xs → skip n (xs ++ ys) ≡ skip n xs ++ ys
skip-append zero xs ys l = refl
skip-append (suc n) [] ys l = absurd (omega (arith, l))
skip-append (suc n) (x ∷ xs) ys l = skip-append n xs ys (omega (arith, l))

module _ (codec : Codec) (limits : Limits) where
  pub record IsSound (s : State) : Type 0 where
    -- Every held entry is the one that was issued in its place, and commits to the one before.
    pub chain : Chain codec s.issued.retired s.issued.checkpoint s.entries s.issued.digests s.sizes
    -- What was retired and what is held is all that was issued.
    pub counted : s.issued.retired + length s.entries ≡ s.issued.total
    pub small : s.issued.total ≤ u64_max
    -- The readable entries take up what is accounted for, within the limits.
    pub summed : s.readable_bytes ≡ sum s.sizes
    pub fits : s.readable_bytes ≤ limits.readable_bytes
    pub few : length s.entries ≤ limits.entries
    pub guarded : length s.proofs ≤ limits.active_proofs

  -- The indexes and the proofs have no part in it.
  pub IsSound-indexes :
      (s : State) (evaluations : EvaluationIndex) (proofs : Dict ℕ ℕ) (heap : Dict ℕ Proof)
      → IsSound s
      → length proofs ≤ length s.proofs
      → IsSound (record s { evaluations = evaluations; proofs = proofs; heap = heap })
  IsSound-indexes s evaluations proofs heap v l = record {
    chain = v.chain;
    counted = v.counted;
    small = v.small;
    summed = v.summed;
    fits = v.fits;
    few = v.few;
    guarded = omega (arith, v.guarded, l);
  }

  -- What making room does: nothing is issued or forged, and nothing comes back.
  pub record Tidied (s s' : State) : Type 0 where
    pub sound : IsSound s'
    pub total : s'.issued.total ≡ s.issued.total
    pub same_head : head s' ≡ head s
    pub heap : s'.heap ≡ s.heap
    pub shorter : length s'.entries ≤ length s.entries
    pub fewer : length s'.proofs ≤ length s.proofs
    pub released :
        (heap : Dict ℕ Proof) → bytes_of heap (values s'.proofs) ≤ bytes_of heap (values s.proofs)
    pub lighter : s'.readable_bytes ≤ s.readable_bytes
    pub logged : (log : List Text) → Logged log s → Logged log s'

  pub Tidied-refl : (s : State) → IsSound s → Tidied s s
  Tidied-refl s v = record {
    sound = v;
    total = refl;
    same_head = refl;
    heap = refl;
    shorter = omega arith;
    fewer = omega arith;
    released = λ heap. omega arith;
    lighter = omega arith;
    logged = λ log h. h;
  }

  pub Tidied-trans : {s t u : State} → Tidied s t → Tidied t u → Tidied s u
  Tidied-trans a b = record {
    sound = b.sound;
    total = b.total ∙ a.total;
    same_head = b.same_head ∙ a.same_head;
    heap = b.heap ∙ a.heap;
    shorter = omega (arith, a.shorter, b.shorter);
    fewer = omega (arith, a.fewer, b.fewer);
    released = λ heap. omega (arith, a.released heap, b.released heap);
    lighter = omega (arith, a.lighter, b.lighter);
    logged = λ log h. b.logged log (a.logged log h);
  }

  pub Tidied-IsPinned : (s t : State) → Tidied s t → IsPinned limits s → IsPinned limits t
  Tidied-IsPinned s t h p = rw h.heap (ground (arith, p, h.released s.heap))

  -- A call that only makes room.
  abbrev pub Tidies : {A : Type 0} → Action A → Type 0
  Tidies m = (s : State) → IsSound s → Tidied s (m s).0

  next-Tidied :
      {A B : Type 0} (f : A → Action B) (s : State) (r : State × Result AuditError A)
      → Tidied s r.0
      → ((a : A) → Tidies (f a))
      → Tidied s (next f r).0
  next-Tidied f s (t, ok a) h k = Tidied-trans h (k a t h.sound)
  next-Tidied f s (t, err e) h k = h

  pub bind-Tidies :
      {A B : Type 0} (m : Action A) (f : A → Action B)
      → Tidies m
      → ((a : A) → Tidies (f a))
      → Tidies (m >>= f)
  bind-Tidies m f h k s v = next-Tidied f s (m s) (h s v) k

  pub fail_if-Tidies : (b : Bool) (e : AuditError) → Tidies (fail_if b e)
  fail_if-Tidies true e s v = Tidied-refl s v
  fail_if-Tidies false e s v = Tidied-refl s v

  pub seal_at-Tidied : (i : ℕ) (s : State) → IsSound s → Tidied s (seal_at i s)
  unfolding seal_at
  seal_at-Tidied i s v = elim (Option-cases (get_at i s.entries)) [
    | inl e ↦ rw (e, seal_at) (Tidied-refl s v)
    | inr (sealed sequence previous digest, e) ↦ rw (e, seal_at) (Tidied-refl s v)
    | inr (intact entry, e) ↦ rw (e, seal_at) (sealing entry e)
  ]
    where
      sealing :
          (entry : Entry)
          → get_at i s.entries ≡ some (intact entry)
          → Tidied s (record s {
            entries = set_at i (sealed entry.sequence entry.previous entry.digest) s.entries;
            readable_bytes = s.readable_bytes - or_zero (get_at i s.sizes);
            sizes = set_at i 0 s.sizes;
          })
      sealing entry e =
          let chained =
            Chain-seal codec s.issued.retired s.issued.checkpoint s.entries s.issued.digests s.sizes
              i entry v.chain e in
          let same_length =
            length-set_at i (sealed entry.sequence entry.previous entry.digest) s.entries in
          record {
            sound = record {
              chain = chained;
              counted = omega (arith, v.counted, same_length);
              small = v.small;
              summed = omega (arith, v.summed, sum-set_at i s.sizes);
              fits = omega (arith, v.fits);
              few = omega (arith, v.few, same_length);
              guarded = v.guarded;
            };
            total = refl;
            same_head =
                Chain-head codec _ _ _ _ _ chained ∙ sym (Chain-head codec _ _ _ _ _ v.chain);
            heap = refl;
            shorter = omega (arith, same_length);
            fewer = omega arith;
            released = λ heap. omega arith;
            lighter = omega arith;
            logged = λ log h. record { held = h.held; within = h.within };
          }

  pub seal-Tidies : (i : ℕ) → Tidies (seal codec i)
  unfolding seal check
  seal-Tidies i =
      bind-Tidies (check codec i) _ (λ s v. Tidied-refl s v) (λ u s v. seal_at-Tidied i s v)

  pub drop_front-Tidied :
      (h : Held) (s : State) → get_at 0 s.entries ≡ some h → IsSound s → Tidied s (drop_front s)
  unfolding drop_front
  drop_front-Tidied h s e v =
      let shorter = length-pop_front h s.entries e in
      let sizes = sum-pop_front s.sizes in
      let plus_one : suc s.issued.retired ≡ s.issued.retired + 1 = omega arith in
      record {
        sound = record {
          chain = Chain-pop_front codec _ _ _ _ _ h v.chain e;
          counted = omega (arith, v.counted, shorter);
          small = v.small;
          summed = omega (arith, v.summed, sizes);
          fits = omega (arith, v.fits);
          few = omega (arith, v.few, shorter);
          guarded = v.guarded;
        };
        total = refl;
        same_head = back-pop_front s.issued.checkpoint s.entries;
        heap = refl;
        shorter = omega (arith, shorter);
        fewer = omega arith;
        released = λ heap. omega arith;
        lighter = omega arith;
        logged = λ log l. record {
          held =
              ap pop_front l.held
              ∙ sym (skip-pop_front s.issued.retired log)
              ∙ ap (λ n. skip n log) plus_one;
          within = omega (
            arith,
            shorter,
            (Chain-lengths codec _ _ _ _ _ v.chain).0,
            ap length l.held,
            length-skip s.issued.retired log,
          );
        };
      }
