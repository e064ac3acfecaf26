-- ===== src/Audit/Append.antt =====
-- Taking an entry in: what the record is afterwards.
use mcp_ssh_rs.Prelude.{
  err, ℕ, suc, ◌+◌, ◌<◌, ◌≤◌, ◌≡◌, refl, sym, subst, ap, ◌∙◌, Bool, true, false, not, none, some,
  List, [], ◌∷◌, ◌++◌, length, arith, ok, leb, if◌then◌else◌, length-append, le→leb, nat_eq,
}
use mcp_ssh_rs.Text.{Text}
use mcp_ssh_rs.Dict.{Dict, get, insert, get-insert_self, length-insert-le}
use mcp_ssh_rs.Clock.{u64_max}
use mcp_ssh_rs.Audit.{
  AuditError, Attribution, Event, full, not_recorded, Entry, Proof, intact, digest_of_held,
  sequence_of, previous_of,
}
use mcp_ssh_rs.Audit.State.{
  State, Limits, Action, pure, fail_if, modify, ◌>>◌, back, get_at, entry_at, active_proof, upgrade,
  Post, ok-Post, next-Post, fail_if-Post, lift-Post, Post-map,
}
use mcp_ssh_rs.Audit.Retention.{
  Codec, Prepared, Written, prepare, commit, take_in, heap_with, charge_of, digest_of,
  encoded_bytes, proofs_with, held_as, digest_or,
}
use mcp_ssh_rs.Audit.Ledger.{append_hashed, append_to, draft, pins}
use mcp_ssh_rs.Audit.Chain.{Chain, Chain-append, IsWhole, sum-append}
use mcp_ssh_rs.Audit.Soundness.{
  IsSound, Tidied, Tidied-refl, head, Logged, skip-append, Tidied-IsPinned,
}
use mcp_ssh_rs.Audit.Pinned.{IsPinned, made-IsPinned}
use mcp_ssh_rs.Audit.Room.{IsRoomy, prepare-TidiesTo}

sequence_of-held_as : (b : Bool) (e : Entry) → sequence_of (held_as b e) ≡ e.sequence
sequence_of-held_as true e = refl
sequence_of-held_as false e = refl

previous_of-held_as : (b : Bool) (e : Entry) → previous_of (held_as b e) ≡ e.previous
previous_of-held_as true e = refl
previous_of-held_as false e = refl

pub digest_of_held-held_as : (b : Bool) (e : Entry) → digest_of_held (held_as b e) ≡ e.digest
digest_of_held-held_as true e = refl
digest_of_held-held_as false e = refl

pub back-append : {A : Type 0} (xs : List A) (a : A) → back (xs ++ (a ∷ [])) ≡ some a
back-append [] a = refl
back-append (x ∷ []) a = refl
back-append (x ∷ y ∷ xs) a = back-append (y ∷ xs) a

get_at-append : {A : Type 0} (xs : List A) (a : A) → get_at (length xs) (xs ++ (a ∷ [])) ≡ some a
get_at-append [] a = refl
get_at-append (x ∷ xs) a = get_at-append xs a

upgrade-some :
    (heap : Dict ℕ Proof) (address : ℕ) (p : Proof)
    → get address heap ≡ some p
    → upgrade heap (some address) ≡ some (address, p)
upgrade-some heap address p h = rw (h, upgrade) refl

module _ (codec : Codec) where
  IsWhole-held_as :
      (b : Bool) (e : Entry) (n : ℕ)
      → digest_of codec e ≡ ok e.digest
      → encoded_bytes codec e ≡ ok n
      → IsWhole codec (held_as b e) (if b then n else 0)
  IsWhole-held_as true e n h k = (h, k)
  IsWhole-held_as false e n h k = refl

  length-proofs_with :
      (pin : Bool) (sequence address : ℕ) (proofs : Dict ℕ ℕ) (most : ℕ)
      → length proofs ≤ most
      → (pin ≡ true → length proofs < most)
      → length (proofs_with pin sequence address proofs) ≤ most
  length-proofs_with true sequence address proofs most h k =
      omega (arith, length-insert-le sequence address proofs, k refl)
  length-proofs_with false sequence address proofs most h k = h

  -- An entry that goes on from a state, hashed.
  pub record GoesOn (s : State) (entry : Entry) : Type 0 where
    pub sequence : entry.sequence ≡ s.issued.total
    pub previous : entry.previous ≡ head s
    pub hashed : digest_of codec entry ≡ ok entry.digest

  -- The proof that is made can be found, and the entry.
  take_in-active :
      (entry : Entry) (prepared : Prepared) (pin : Bool) (address : ℕ) (s : State)
      → pin ≡ true
      → active_proof entry.sequence (take_in entry prepared pin address s)
        ≡ some (address, record { entry = entry; bytes = prepared.bytes; completed = false })
  unfolding active_proof take_in
  take_in-active entry prepared true address s h =
      let made : Proof = record { entry = entry; bytes = prepared.bytes; completed = false } in
      let heap = insert address made s.heap in
      ap (upgrade heap) (get-insert_self entry.sequence address s.proofs)
      ∙ upgrade-some heap address made (get-insert_self address made s.heap)
  take_in-active entry prepared false address s h = absurd (cc h)

  take_in-entry_at :
      (entry : Entry) (prepared : Prepared) (pin : Bool) (address : ℕ) (s : State)
      → entry.sequence ≡ s.issued.retired + length s.entries
      → entry_at entry.sequence (take_in entry prepared pin address s)
        ≡ some (held_as prepared.readable entry)
  unfolding take_in
  take_in-entry_at entry prepared pin address s e =
      rw (le→leb s.issued.retired entry.sequence (omega (arith, e))) (
        ap (λ n. get_at n (s.entries ++ (held_as prepared.readable entry ∷ []))) (omega (arith, e))
        ∙ get_at-append s.entries (held_as prepared.readable entry))

  module _ (limits : Limits) where
    take_in-IsSound :
        (entry : Entry) (prepared : Prepared) (pin : Bool) (address : ℕ) (s : State)
        → IsSound codec limits s
        → GoesOn s entry
        → IsRoomy codec limits prepared s
        → encoded_bytes codec entry ≡ ok prepared.bytes
        → (pin ≡ true → length s.proofs < limits.active_proofs)
        → s.issued.total < u64_max
        → IsSound codec limits (take_in entry prepared pin address s)
    unfolding take_in
    take_in-IsSound entry prepared pin address s v g r b q l =
        let held = held_as prepared.readable entry in
        record {
          chain =
              subst
                (λ d.
                  Chain codec s.issued.retired s.issued.checkpoint (s.entries ++ (held ∷ []))
                    (s.issued.digests ++ (d ∷ [])) (s.sizes ++ (charge_of prepared ∷ [])))
                (digest_of_held-held_as prepared.readable entry)
                (Chain-append codec _ _ _ _ _ held (charge_of prepared) v.chain
                  (sequence_of-held_as prepared.readable entry ∙ g.sequence ∙ sym v.counted)
                  (previous_of-held_as prepared.readable entry ∙ g.previous)
                  (IsWhole-held_as prepared.readable entry prepared.bytes g.hashed b));
          counted = omega (arith, v.counted, length-append s.entries (held ∷ []));
          small = omega (arith, l);
          summed = ground (arith, r.1, v.summed, sum-append s.sizes (charge_of prepared ∷ []));
          fits = ground (arith, r.1);
          few = omega (arith, r.0, length-append s.entries (held ∷ []));
          guarded =
              length-proofs_with pin entry.sequence address s.proofs limits.active_proofs v.guarded
                q;
        }

  -- What the ledger is once it has taken an entry in.
  pub record Appended (accepts : Entry → Bool) (limits : Limits) (address : ℕ) (entry : Entry)
      (s : State) (w : Written) (t : State) : Type 0 where
    pub sound : IsSound codec limits t
    pub total : t.issued.total ≡ suc s.issued.total
    pub last : head t ≡ entry.digest
    pub logged : (log : List Text) → Logged log s → Logged (log ++ (entry.digest ∷ [])) t
    pub written : w.entry ≡ entry
    pub accepted : accepts entry ≡ true
    pub goes_on : GoesOn s entry
    pub proof : w.proof ≡ (if pins entry.event then some address else none)
    pub bytes : ℕ
    pub heap : t.heap ≡ heap_with (pins entry.event) entry bytes address s.heap
    -- The bytes of the proofs stay within the limit.
    pub secured : get address s.heap ≡ none → IsPinned limits s → IsPinned limits t
    -- What a run can still act on is not sealed.
    pub found : pins entry.event ≡ true → entry_at entry.sequence t ≡ some (intact entry)
    pub active :
        pins entry.event ≡ true
        → active_proof entry.sequence t
          ≡ some (address, record { entry = entry; bytes = bytes; completed = false })

  module _ (accepts : Entry → Bool) (genesis : Text) (limits : Limits) where
    append_hashed-Post :
        (entry : Entry) (address : ℕ) (s : State)
        → IsSound codec limits s
        → GoesOn s entry
        → Post
            (Appended accepts limits address entry s)
            (Tidied codec limits s)
            (append_hashed codec accepts genesis limits entry address s)
    unfolding append_hashed commit take_in
    append_hashed-Post entry address s v g =
        let pin : Bool = pins entry.event in
        let taking : Prepared → Action Written = λ p. commit entry p pin address in
        next-Post (λ p. fail_if (not (accepts entry)) not_recorded >> taking p)
          (prepare codec entry.at limits entry pin s)
          (prepare-TidiesTo codec limits entry.at entry pin s v)
          (λ p t h. fail_if-Post (not (accepts entry)) not_recorded (taking p) t h.0 (λ a.
            fail_if-Post (leb u64_max t.issued.total) full
              (modify (take_in entry p pin address)
                >> pure (record { entry = entry; proof = if pin then some address else none }))
              t h.0
              (λ f. ok-Post _ _ (record {
                sound =
                    take_in-IsSound limits entry p pin address t h.0.sound
                      (record {
                        sequence = g.sequence ∙ sym h.0.total;
                        previous = g.previous ∙ sym h.0.same_head;
                        hashed = g.hashed;
                      })
                      h.1.roomy h.1.encoded (λ w. (h.1.spare w).0) (ground (arith, f));
                total = omega (arith, h.0.total);
                last =
                    ap (digest_or t.issued.checkpoint)
                      (back-append t.entries (held_as p.readable entry))
                    ∙ digest_of_held-held_as p.readable entry;
                logged = λ log l.
                    let k = h.0.logged log l in
                    record {
                      held =
                          ap (λ ds. ds ++ (entry.digest ∷ [])) k.held
                          ∙ sym (skip-append t.issued.retired log (entry.digest ∷ []) k.within);
                      within = omega (arith, k.within, length-append log (entry.digest ∷ []));
                    };
                written = refl;
                accepted = ground (arith, a);
                goes_on = g;
                proof = refl;
                bytes = p.bytes;
                heap = ap (heap_with pin entry p.bytes address) h.0.heap;
                secured = λ n q.
                    made-IsPinned limits pin entry p.bytes entry.sequence address t
                      (take_in entry p pin address t) (ap (get address) h.0.heap ∙ n) h.1.live
                      h.1.spare (Tidied-IsPinned codec limits s t h.0 q) refl refl;
                found = λ w.
                    take_in-entry_at entry p pin address t
                      (omega (arith, g.sequence, h.0.total, h.0.sound.counted))
                    ∙ ap (λ b. some (held_as b entry)) (h.1.pinned w);
                active = take_in-active entry p pin address t;
              }))))

    -- The entry that an event made, and what the ledger is with it.
    abbrev pub Made : Attribution → Event → ℕ → ℕ → State → Written → State → Type 0
    Made who event at address s w t =
        Appended accepts limits address w.entry s w t
        × (w.entry ≡ record (draft s genesis who event at) { digest = w.entry.digest })

    Appended-Made :
        (who : Attribution) (event : Event) (at address : ℕ) (s : State) (digest : Text)
        (w : Written) (t : State)
        → Appended accepts limits address
            (record (draft s genesis who event at) { digest = digest })
            s
            w
            t
        → Made who event at address s w t
    Appended-Made who event at address s digest w t h =
        subst
          (λ e.
            Appended accepts limits address e s w t
            × (e ≡ record (draft s genesis who event at) { digest = e.digest }))
          (sym h.written) (h, refl)

    pub append_to-Post :
        (who : Attribution) (event : Event) (at address : ℕ) (s : State)
        → IsSound codec limits s
        → Post
            (Made who event at address s)
            (Tidied codec limits s)
            (append_to codec accepts genesis limits who event at address s)
    unfolding append_to digest_of
    append_to-Post who event at address s v =
        let entry = draft s genesis who event at in
        lift-Post (digest_of codec entry)
          (λ digest.
            append_hashed codec accepts genesis limits (record entry { digest = digest }) address)
          s (Tidied-refl codec limits s v)
          (λ digest e.
            Post-map _ (Made who event at address s) _ _
              (append_hashed-Post (record entry { digest = digest }) address s v
                (record { sequence = refl; previous = refl; hashed = e }))
              (λ w t. Appended-Made who event at address s digest w t))

    -- When an append on a sound ledger fails, nothing was issued: the entries that are numbered, the end
    -- of the chain and the proofs are what they were, and the ledger is still sound.
    pub append_to-err :
        (who : Attribution) (event : Event) (at address : ℕ) (s t : State) (e : AuditError)
        → IsSound codec limits s
        → append_to codec accepts genesis limits who event at address s ≡ (t, err e)
        → IsSound codec limits t
          × (t.issued.total ≡ s.issued.total)
          × (head t ≡ head s)
          × (t.heap ≡ s.heap)
    append_to-err who event at address s t e v r =
        let h = (append_to-Post who event at address s v).on_err e (ap (λ x. x.1) r) in
        let same = ap (λ x. x.0) r in
        (
          subst (IsSound codec limits) same h.sound,
          ap (λ x. x.issued.total) (sym same) ∙ h.total,
          ap head (sym same) ∙ h.same_head,
          ap (λ x. x.heap) (sym same) ∙ h.heap,
        )
