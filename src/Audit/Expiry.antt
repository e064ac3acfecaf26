-- ===== src/Audit/Expiry.antt =====
-- `State::reclaim` of crates/ssh-core/src/audit/retention.rs: which entries stay readable.
use mcp_ssh_rs.Prelude.{
  ok, ℕ, zero, suc, ◌+◌, ◌-◌, ◌≡◌, refl, sym, subst, ap, ◌∙◌, true, false, not, some, List, [], ◌∷◌,
  length, map, arith, leb, if◌then◌else◌, Bool-cases, Option-cases, inl, inr,
}
use mcp_ssh_rs.Audit.{retention_corrupt, Entry, Held, intact, sealed}
use mcp_ssh_rs.Audit.State.{
  State, Limits, gets, modify, ◌>>=◌, ◌>>◌, get_at, set_at, ok-Post, next-Post,
}
use mcp_ssh_rs.Audit.Retention.{
  Codec, seal, seal_at, seal_expired, is_expired, in_step, reclaim, prune_indexes,
}
use mcp_ssh_rs.Audit.Chain.{Chain-lengths}
use mcp_ssh_rs.Audit.Soundness.{IsSound, Tidied, Tidied-refl, Tidied-trans}
use mcp_ssh_rs.Audit.Room.{prune_indexes-Tidied}
use mcp_ssh_rs.Audit.Enough.{Does-result, Does, seal-Does, pass-Post, length-seal_at}

-- What becomes of an entry with time: it is sealed once it is old.
abbrev pub aged : ℕ → Limits → Held → Held
aged now limits (sealed sequence previous digest) = sealed sequence previous digest
aged now limits (intact entry) =
    if leb limits.readable_millis (now - entry.at)
    then sealed entry.sequence entry.previous entry.digest
    else intact entry

-- The entries with those from an index on aged.
abbrev aged_from : ℕ → Limits → ℕ → List Held → List Held
aged_from now limits i [] = []
aged_from now limits zero (h ∷ hs) = aged now limits h ∷ aged_from now limits zero hs
aged_from now limits (suc i) (h ∷ hs) = h ∷ aged_from now limits i hs

aged_from-all :
    (now : ℕ) (limits : Limits) (hs : List Held)
    → aged_from now limits 0 hs ≡ map (aged now limits) hs
aged_from-all now limits [] = refl
aged_from-all now limits (h ∷ hs) = ap (λ r. aged now limits h ∷ r) (aged_from-all now limits hs)

aged_from-none :
    (now : ℕ) (limits : Limits) (i : ℕ) (hs : List Held)
    → i ≡ length hs
    → aged_from now limits i hs ≡ hs
aged_from-none now limits i [] e = refl
aged_from-none now limits zero (h ∷ hs) e = absurd (omega (arith, e))
aged_from-none now limits (suc i) (h ∷ hs) e =
    ap (λ r. h ∷ r) (aged_from-none now limits i hs (omega (arith, e)))

-- One round, for an entry that has not expired and for one that has.
aged_from-kept :
    (now : ℕ) (limits : Limits) (i : ℕ) (hs : List Held)
    → is_expired now limits (get_at i hs) ≡ false
    → aged_from now limits i hs ≡ aged_from now limits (suc i) hs
aged_from-kept now limits i [] e = refl
aged_from-kept now limits zero (sealed sequence previous digest ∷ hs) e = refl
aged_from-kept now limits zero (intact entry ∷ hs) e = rw e refl
aged_from-kept now limits (suc i) (h ∷ hs) e = ap (λ r. h ∷ r) (aged_from-kept now limits i hs e)

aged_from-sealed :
    (now : ℕ) (limits : Limits) (i : ℕ) (hs : List Held) (entry : Entry)
    → get_at i hs ≡ some (intact entry)
    → is_expired now limits (some (intact entry)) ≡ true
    → aged_from now limits i hs
      ≡ aged_from now limits
          (suc i)
          (set_at i (sealed entry.sequence entry.previous entry.digest) hs)
aged_from-sealed now limits i [] entry e x = refl
aged_from-sealed now limits zero (sealed sequence previous digest ∷ hs) entry e x = absurd (cc e)
aged_from-sealed now limits zero (intact other ∷ hs) entry e x =
    let same : intact entry ≡ intact other = cc e in
    subst
      (λ o.
        (aged now limits o ∷ aged_from now limits zero hs)
        ≡ (sealed entry.sequence entry.previous entry.digest ∷ aged_from now limits zero hs))
      same (rw x refl)
aged_from-sealed now limits (suc i) (h ∷ hs) entry e x =
    ap (λ r. h ∷ r) (aged_from-sealed now limits i hs entry e x)

aged_from-seal_at :
    (now : ℕ) (limits : Limits) (i : ℕ) (s : State)
    → is_expired now limits (get_at i s.entries) ≡ true
    → aged_from now limits i s.entries ≡ aged_from now limits (suc i) (seal_at i s).entries
unfolding seal_at
aged_from-seal_at now limits i s x = elim (Option-cases (get_at i s.entries)) [
  | inl e ↦ absurd (cc (x, ap (is_expired now limits) e))
  | inr (sealed sequence previous digest, e) ↦ absurd (cc (x, ap (is_expired now limits) e))
  | inr (intact entry, e) ↦
      rw (e, seal_at)
        (aged_from-sealed now limits i s.entries entry e (sym (ap (is_expired now limits) e) ∙ x))
]

module _ (codec : Codec) (limits : Limits) where
  seal_expired-Does :
      (now rounds i : ℕ) (s : State)
      → IsSound codec limits s
      → rounds + i ≡ length s.entries
      → Does codec limits s
          (λ _ t. t.entries ≡ aged_from now limits i s.entries)
          (seal_expired codec now limits rounds i s)
  unfolding seal_expired
  seal_expired-Does now zero i s v n =
      ok-Post tt s (
        Tidied-refl codec limits s v,
        sym (aged_from-none now limits i s.entries (omega (arith, n))),
      )
  seal_expired-Does now (suc rounds) i s v n =
      elim (Bool-cases (is_expired now limits (get_at i s.entries))) [
        | inl e ↦ rw e (
            next-Post (λ _. seal_expired codec now limits rounds (suc i)) (seal codec i s)
              (seal-Does codec limits i s v (omega (arith, n)))
              (λ _ t h. after_seal s t e h (
                seal_expired-Does now rounds (suc i) t h.0.sound
                  (omega (arith, n, length-seal_at i s, ap (λ u. length u.entries) h.1)))))
        | inr e ↦ rw e (record {
          on_ok = λ a r.
              let (d, p) =
                (seal_expired-Does now rounds (suc i) s v (omega (arith, n))).on_ok a r in
              (d, p ∙ sym (aged_from-kept now limits i s.entries e));
          on_err = (seal_expired-Does now rounds (suc i) s v (omega (arith, n))).on_err;
        })
      ]
    where
      after_seal :
          (s t : State)
          → is_expired now limits (get_at i s.entries) ≡ true
          → Tidied codec limits s t × (t ≡ seal_at i s)
          → Does codec limits t
              (λ _ u. u.entries ≡ aged_from now limits (suc i) t.entries)
              (seal_expired codec now limits rounds (suc i) t)
          → Does codec limits s
              (λ _ u. u.entries ≡ aged_from now limits i s.entries)
              (seal_expired codec now limits rounds (suc i) t)
      after_seal s t e h k =
          let same =
            aged_from-seal_at now limits i s e
            ∙ ap (λ u. aged_from now limits (suc i) u.entries) (sym h.1) in
          record {
            on_ok =
                λ a r. let (d, p) = k.on_ok a r in (Tidied-trans codec limits h.0 d, p ∙ sym same);
            on_err = k.on_err;
          }

  in_step-IsSound : (s : State) → IsSound codec limits s → in_step s ≡ true
  in_step-IsSound s v =
      let (digests, sizes) = Chain-lengths codec _ _ _ _ _ v.chain in
      ground (arith, digests, sizes, v.counted, v.small)

  pub reclaim-Does :
      (now : ℕ) (s : State)
      → IsSound codec limits s
      → Does codec limits s
          (λ _ t. t.entries ≡ map (aged now limits) s.entries)
          (reclaim codec now limits s)
  unfolding reclaim prune_indexes
  reclaim-Does now s v =
      let sealing = seal_expired codec now limits in
      pass-Post (not (in_step s)) retention_corrupt
        (gets (λ s. length s.entries) >>= λ n. (sealing n 0 >> modify prune_indexes)) s
        (ap not (in_step-IsSound s v))
        (next-Post (λ _. modify prune_indexes) (sealing (length s.entries) 0 s)
          (seal_expired-Does now (length s.entries) 0 s v (omega arith))
          (λ _ t h. ok-Post tt (prune_indexes t) (
            Tidied-trans codec limits h.0 (prune_indexes-Tidied codec limits t h.0.sound),
            h.1 ∙ aged_from-all now limits s.entries,
          )))

  -- On a sound ledger `reclaim` succeeds, and seals exactly the entries that are old enough: what is
  -- held then is what was held before, aged. The ledger is still sound with all that was issued.
  pub reclaim-aged :
      (now : ℕ) (s : State)
      → IsSound codec limits s
      → (t : State) × (reclaim codec now limits s ≡ (t, ok tt))
        × (t.entries ≡ map (aged now limits) s.entries)
        × IsSound codec limits t
        × (t.issued.total ≡ s.issued.total)
  reclaim-aged now s v =
      let (t, a, e, (d, h)) =
        Does-result codec limits (λ _ t. t.entries ≡ map (aged now limits) s.entries) s _
          (reclaim-Does now s v) in
      (t, e, h, d.sound, d.total)
