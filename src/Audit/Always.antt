-- ===== src/Audit/Always.antt =====
-- What is not pinned can always be recorded: the ledger makes room for it.
use mcp_ssh_rs.Prelude.{
  ℕ, ◌≤◌, ◌<◌, ◌≡◌, refl, sym, subst, ap, Bool, true, false, not, ◌&&◌, ◌||◌, none, some, length,
  arith, Result, ok, err, leb, ltb, nat_beq, if◌then◌else◌,
}
use mcp_ssh_rs.Text.{Text}
use mcp_ssh_rs.Clock.{u64_max}
use mcp_ssh_rs.Audit.{AuditError, Attribution, Event, full, not_recorded, Entry}
use mcp_ssh_rs.Audit.State.{
  State, Limits, Action, next, pure, fail_if, gets, modify, lift, ◌>>=◌, ◌>>◌, Post, ok-Post,
  next-Post,
}
use mcp_ssh_rs.Audit.Retention.{
  Codec, Prepared, Written, encoded_bytes, charge_of, has_room, is_pinned_full, retire_until,
  seal_until, reclaim, prune_indexes, make_room, prepare, commit, take_in, digest_of,
}
use mcp_ssh_rs.Audit.Ledger.{append_hashed, append_to, draft, pins}
use mcp_ssh_rs.Audit.Soundness.{IsSound, Tidied-trans}
use mcp_ssh_rs.Audit.Room.{prune_indexes-Tidied, IsPrepared, prepare-TidiesTo}
use mcp_ssh_rs.Audit.Enough.{Does, Does-trans, retire_until-Does, seal_until-Does, pass-Post}
use mcp_ssh_rs.Audit.Expiry.{reclaim-Does}

module _ (codec : Codec) (limits : Limits) where
  make_room-Does :
      (prepared : Prepared) (pin : Bool) (s : State)
      → IsSound codec limits s
      → 0 < limits.entries
      → limits.readable_bytes ≤ u64_max
      → charge_of prepared ≤ limits.readable_bytes
      → (pin && is_pinned_full limits prepared.bytes s) ≡ false
      → Does codec limits s (λ _ _. Unit {0}) (make_room codec limits prepared pin s)
  unfolding make_room
  make_room-Does prepared pin s v l b c free =
      let charge = charge_of prepared in
      let checked : Action Prepared =
        gets (λ s. not (has_room limits charge s))
        >>= (λ b. fail_if b full >> (modify prune_indexes >> pure prepared)) in
      let sealing : Action Prepared =
        gets (λ s. length s.entries) >>= (λ n. seal_until codec limits charge n 0 >> checked) in
      pass-Post (pin && is_pinned_full limits prepared.bytes s) full
        (gets (λ s. length s.entries) >>= (λ n. retire_until codec limits n >> sealing)) s free
        (next-Post (λ _. sealing) (retire_until codec limits (length s.entries) s)
          (retire_until-Does codec limits (length s.entries) s v (omega arith) l)
          (λ _ t h.
            next-Post (λ _. checked) (seal_until codec limits charge (length t.entries) 0 t)
              (Does-trans codec limits _ s t _ h.0 (
                seal_until-Does codec limits charge (length t.entries) 0 t h.0.sound (omega arith)
                  tt c b))
              (λ _ u k.
                pass-Post (not (has_room limits charge u)) full
                  (modify prune_indexes >> pure prepared) u (ap not k.1)
                  (ok-Post prepared (prune_indexes u) (
                    Tidied-trans codec limits k.0 (prune_indexes-Tidied codec limits u k.0.sound),
                    tt,
                  )))))

  charge_of-bound :
      (b : Bool) (n m : ℕ) → b ≡ leb n m → charge_of (record { bytes = n; readable = b }) ≤ m
  charge_of-bound true n m e = ground (arith, e)
  charge_of-bound false n m e = omega arith

  prepare-Does :
      (now bytes : ℕ) (entry : Entry) (s : State)
      → IsSound codec limits s
      → 0 < limits.entries
      → limits.readable_bytes ≤ u64_max
      → s.issued.total < u64_max
      → encoded_bytes codec entry ≡ ok bytes
      → Does codec limits s
          (IsPrepared codec limits entry false s)
          (prepare codec now limits entry false s)
  unfolding prepare
  prepare-Does now bytes entry s v l b t e =
      let prepared : ℕ → Prepared =
        λ bytes. record { bytes = bytes; readable = leb bytes limits.readable_bytes } in
      let rest : ℕ → Action Prepared = λ bytes.
        fail_if (nat_beq limits.entries 0 || false && ltb limits.readable_bytes bytes) full
        >> make_room codec limits (prepared bytes) false in
      let fitting : ℕ → Action Prepared = λ bytes. reclaim codec now limits >> rest bytes in
      let succeeds : Does codec limits s (λ _ _. Unit {0})
          (prepare codec now limits entry false s) =
        pass-Post (leb u64_max s.issued.total) full (lift (encoded_bytes codec entry) >>= fitting) s
          (ground (arith, t))
          (subst (λ r. Does codec limits s (λ _ _. Unit {0}) (next fitting (s, r))) (sym e)
            (next-Post (λ _. rest bytes) (reclaim codec now limits s)
              (reclaim-Does codec limits now s v)
              (λ _ u h.
                pass-Post (nat_beq limits.entries 0 || false && ltb limits.readable_bytes bytes)
                  full (make_room codec limits (prepared bytes) false) u (ground (arith, l))
                  (Does-trans codec limits _ s u _ h.0 (
                    make_room-Does (prepared bytes) false u h.0.sound l b
                      (charge_of-bound _ bytes _ refl) refl))))) in
      record {
        on_ok = (prepare-TidiesTo codec limits now entry false s v).on_ok;
        on_err = succeeds.on_err;
      }

  append_hashed-ok :
      (accepts : Entry → Bool) (genesis : Text) (bytes address : ℕ) (entry : Entry) (s : State)
      → IsSound codec limits s
      → 0 < limits.entries
      → limits.readable_bytes ≤ u64_max
      → s.issued.total < u64_max
      → encoded_bytes codec entry ≡ ok bytes
      → accepts entry ≡ true
      → pins entry.event ≡ false
      → Post (λ _ _. Unit {0}) (λ _. ⊥) (append_hashed codec accepts genesis limits entry address s)
  unfolding append_hashed commit
  append_hashed-ok accepts genesis bytes address entry s v l b t e a p =
      let writing : Prepared → Action Written = λ x.
        fail_if (not (accepts entry)) not_recorded >> commit entry x (pins entry.event) address in
      subst
        (λ pin.
          Post (λ _ _. Unit {0}) (λ _. ⊥)
            (next writing (prepare codec entry.at limits entry pin s)))
        (sym p)
        (next-Post writing (prepare codec entry.at limits entry false s)
          (prepare-Does entry.at bytes entry s v l b t e)
          (λ x u h.
            pass-Post (not (accepts entry)) not_recorded (commit entry x (pins entry.event) address)
              u (ap not a)
              (pass-Post (leb u64_max u.issued.total) full
                (modify (take_in entry x (pins entry.event) address)
                  >> pure (record {
                    entry = entry;
                    proof = if pins entry.event then some address else none;
                  }))
                u (ground (arith, t, h.0.total)) (ok-Post _ _ tt))))

  pub result-ok :
      {A : Type 0} (r : State × Result AuditError A)
      → Post (λ _ _. Unit {0}) (λ _. ⊥) r
      → (t : State) × (a : A) × (r ≡ (t, ok a))
  result-ok (t, ok a) h = (t, a, refl)
  result-ok (t, err e) h = absurd (h.on_err e refl)

  module _ (accepts : Entry → Bool) (genesis : Text) where
    -- On a sound ledger that has room for an entry at all and numbers left, an event that pins no proof,
    -- such as an outcome, an answer or the end of a session, is always recorded once it can be hashed
    -- and written and the boundary takes it: however full the ledger is, it makes room.
    pub append_to-always :
        (who : Attribution) (event : Event) (at address bytes : ℕ) (digest : Text) (s : State)
        → IsSound codec limits s
        → 0 < limits.entries
        → limits.readable_bytes ≤ u64_max
        → s.issued.total < u64_max
        → pins event ≡ false
        → digest_of codec (draft s genesis who event at) ≡ ok digest
        → encoded_bytes codec (record (draft s genesis who event at) { digest = digest }) ≡ ok bytes
        → accepts (record (draft s genesis who event at) { digest = digest }) ≡ true
        → (t : State) × (w : Written) × (append_to codec accepts genesis limits who event at address
              s
            ≡ (t, ok w))
    unfolding append_to
    append_to-always who event at address bytes digest s v l b t p d e a =
        let entry = draft s genesis who event at in
        let hashed : Text → Action Written = λ digest.
          append_hashed codec accepts genesis limits (record entry { digest = digest }) address in
        result-ok _ (
          subst (λ r. Post (λ _ _. Unit {0}) (λ _. ⊥) (next hashed (s, r))) (sym d)
            (append_hashed-ok accepts genesis bytes address (record entry { digest = digest }) s v l
              b t e a p))
