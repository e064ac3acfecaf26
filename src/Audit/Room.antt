-- ===== src/Audit/Room.antt =====
-- Making room keeps the ledger's state sound, and when it succeeds there is room.
use mcp_ssh_rs.Prelude.{
  nat_eq, ℕ, zero, suc, ◌≤◌, ◌<◌, ◌≡◌, refl, sym, Bool, true, false, not, ◌&&◌, ◌||◌, length, arith,
  subst, Result, ok, leb, ltb, nat_beq, Bool-cases, Option-cases, inl, inr,
}
use mcp_ssh_rs.Audit.{AuditError, full, retention_corrupt, Entry}
use mcp_ssh_rs.Audit.State.{
  State, Limits, Action, pure, fail_if, gets, modify, ◌>>=◌, ◌>>◌, lift, get_at, Post, ok-Post,
  err-Post, next-Post, fail_if-Post, lift-Post,
}
use mcp_ssh_rs.Audit.Retention.{
  Codec, Prepared, check, seal, seal_if, drop_front, retire_front, seal_expired, retire_until,
  seal_until, reclaim, prune_indexes, make_room, prepare, charge_of, has_room, is_pinned_full,
  in_step, encoded_bytes,
}
use mcp_ssh_rs.Dict.{get, values, length-retain-le}
use mcp_ssh_rs.Audit.Secrets.{is_matched}
use mcp_ssh_rs.Clock.{u64_max}
use mcp_ssh_rs.Audit.Pinned.{Spare, AllLive, retain-AllLive, bytes_of-retain, is_pinned_full-Spare}
use mcp_ssh_rs.Audit.Chain.{length-pop_front}
use mcp_ssh_rs.Audit.Soundness.{
  IsSound, IsSound-indexes, Tidied, Tidied-refl, Tidied-trans, Tidies, bind-Tidies, seal-Tidies,
  drop_front-Tidied,
}

module _ (codec : Codec) (limits : Limits) where
  -- The two outcomes of a call that only makes room.
  abbrev TidiesTo :
      {A : Type 0} → State → (A → State → Type 0) → State × Result AuditError A → Type 0
  TidiesTo s P = Post (λ a t. Tidied codec limits s t × P a t) (Tidied codec limits s)

  TidiesTo-trans :
      {A : Type 0} (P R : A → State → Type 0) (s t : State) (r : State × Result AuditError A)
      → Tidied codec limits s t
      → TidiesTo t P r
      → ((a : A) (u : State) → Tidied codec limits t u → P a u → R a u)
      → TidiesTo s R r
  TidiesTo-trans P R s t r h k f = record {
    on_ok = λ a e. let (d, p) = k.on_ok a e in (Tidied-trans codec limits h d, f a r.0 d p);
    on_err = λ a e. Tidied-trans codec limits h (k.on_err a e);
  }

  Tidied-Post :
      {A : Type 0} (s : State) (r : State × Result AuditError A)
      → Tidied codec limits s r.0
      → Post (λ _. Tidied codec limits s) (Tidied codec limits s) r
  Tidied-Post s r h = record { on_ok = λ a e. h; on_err = λ a e. h }

  -- Each retirement takes one entry away.
  retire_front-TidiesTo :
      (s : State)
      → IsSound codec limits s
      → TidiesTo s (λ _ t. suc (length t.entries) ≡ length s.entries) (retire_front codec s)
  unfolding retire_front check drop_front
  retire_front-TidiesTo s v = elim (Option-cases (get_at 0 s.entries)) [
    | inl e ↦ rw e (err-Post _ s (Tidied-refl codec limits s v))
    | inr (h, e) ↦
        lift-Post _ (λ _. fail_if (leb u64_max s.issued.retired) full >> modify drop_front) s
          (Tidied-refl codec limits s v)
          (λ a _.
            fail_if-Post (leb u64_max s.issued.retired) full (modify drop_front) s
              (Tidied-refl codec limits s v)
              (λ _.
                ok-Post tt _
                  (drop_front-Tidied codec limits h s e v, length-pop_front h s.entries e)))
  ]

  seal_if-Tidies : (b : Bool) (i : ℕ) → Tidies codec limits (seal_if codec b i)
  seal_if-Tidies true i = seal-Tidies codec limits i
  seal_if-Tidies false i = λ s v. Tidied-refl codec limits s v

  seal_expired-Tidies :
      (now rounds i : ℕ) → Tidies codec limits (seal_expired codec now limits rounds i)
  unfolding seal_expired
  seal_expired-Tidies now zero i s v = Tidied-refl codec limits s v
  seal_expired-Tidies now (suc rounds) i s v =
      bind-Tidies codec limits (seal_if codec _ i)
        (λ _. seal_expired codec now limits rounds (suc i)) (seal_if-Tidies _ i)
        (λ _. seal_expired-Tidies now rounds (suc i)) s v

  pub prune_indexes-Tidied :
      (s : State) → IsSound codec limits s → Tidied codec limits s (prune_indexes s)
  unfolding prune_indexes
  prune_indexes-Tidied s v = record {
    sound =
        IsSound-indexes codec limits _ _ _ _ v
          (length-retain-le (λ address. is_matched (get address s.heap)) s.proofs);
    total = refl;
    same_head = refl;
    heap = refl;
    shorter = omega arith;
    fewer = length-retain-le (λ address. is_matched (get address s.heap)) s.proofs;
    released = λ heap. bytes_of-retain heap (λ address. is_matched (get address s.heap)) s.proofs;
    lighter = omega arith;
    logged = λ log h. record { held = h.held; within = h.within };
  }

  guard-Tidied :
      {A : Type 0} (b : Bool) (e : AuditError) (f : Action A) (s : State)
      → Tidied codec limits s s
      → Tidied codec limits s (f s).0
      → Tidied codec limits s ((fail_if b e >> f) s).0
  guard-Tidied true e f s h k = h
  guard-Tidied false e f s h k = k

  pub reclaim-Tidies : (now : ℕ) → Tidies codec limits (reclaim codec now limits)
  unfolding reclaim
  reclaim-Tidies now s v =
      let sealing = seal_expired codec now limits (length s.entries) 0 in
      guard-Tidied (not (in_step s)) retention_corrupt
        (gets (λ s. length s.entries)
          >>= (λ n. seal_expired codec now limits n 0 >> modify prune_indexes))
        s (Tidied-refl codec limits s v)
        (bind-Tidies codec limits sealing (λ _. modify prune_indexes)
          (seal_expired-Tidies now (length s.entries) 0) (λ _ t w. prune_indexes-Tidied t w) s v)

  -- Entries are retired until one more fits.
  retire_until-TidiesTo :
      (rounds : ℕ) (s : State)
      → IsSound codec limits s
      → length s.entries ≤ rounds
      → 0 < limits.entries
      → TidiesTo s (λ _ t. length t.entries < limits.entries) (retire_until codec limits rounds s)
  unfolding retire_until
  retire_until-TidiesTo zero s v n l =
      ok-Post tt s (Tidied-refl codec limits s v, omega (arith, n, l))
  retire_until-TidiesTo (suc rounds) s v n l =
      elim (Bool-cases (leb limits.entries (length s.entries))) [
        | inl e ↦ rw e (
            next-Post (λ _. retire_until codec limits rounds) (retire_front codec s)
              (retire_front-TidiesTo s v)
              (λ _ t h.
                TidiesTo-trans _ _ s t _ h.0
                  (retire_until-TidiesTo rounds t h.0.sound (omega (arith, h.1, n)) l)
                  (λ _ _ _ p. p)))
        | inr e ↦ rw e (ok-Post tt s (Tidied-refl codec limits s v, ground (arith, e)))
      ]

  -- Entries are sealed while the charge does not fit.
  seal_until-TidiesTo :
      (charge rounds i : ℕ) (s : State)
      → IsSound codec limits s
      → TidiesTo s (λ _ _. Unit {0}) (seal_until codec limits charge rounds i s)
  unfolding seal_until
  seal_until-TidiesTo charge zero i s v = ok-Post tt s (Tidied-refl codec limits s v, tt)
  seal_until-TidiesTo charge (suc rounds) i s v = elim (Bool-cases (has_room limits charge s)) [
    | inl e ↦ rw e (ok-Post tt s (Tidied-refl codec limits s v, tt))
    | inr e ↦ rw e (
        next-Post (λ _. seal_until codec limits charge rounds (suc i)) (seal codec i s)
          (Tidied-Post s (seal codec i s) (seal-Tidies codec limits i s v))
          (λ _ t h.
            TidiesTo-trans _ _ s t _ h (seal_until-TidiesTo charge rounds (suc i) t h.sound)
              (λ _ _ _ p. p)))
  ]

  -- What `prepare` leaves when it succeeds: one more entry of the charge fits.
  abbrev pub IsRoomy : Prepared → State → Type 0
  IsRoomy prepared t =
      (length t.entries < limits.entries) × (has_room limits (charge_of prepared) t ≡ true)

  Tidied-Spare :
      (bytes : ℕ) (pin : Bool) (s u : State)
      → pin ≡ true
      → (pin && is_pinned_full limits bytes s) ≡ false
      → Tidied codec limits s u
      → Spare limits bytes (prune_indexes u)
  Tidied-Spare bytes pin s u p free h =
      let d = Tidied-trans codec limits h (prune_indexes-Tidied u h.sound) in
      is_pinned_full-Spare limits bytes pin s (prune_indexes u) p free d.fewer
        (rw d.heap (d.released s.heap))

  make_room-TidiesTo :
      (prepared : Prepared) (pin : Bool) (s : State)
      → IsSound codec limits s
      → 0 < limits.entries
      → TidiesTo s
          (λ p t.
            (p ≡ prepared)
            × IsRoomy prepared t
            × (pin ≡ true → Spare limits prepared.bytes t)
            × AllLive t.heap (values t.proofs))
          (make_room codec limits prepared pin s)
  unfolding make_room prune_indexes
  make_room-TidiesTo prepared pin s v l =
      let charge = charge_of prepared in
      let checked : Action Prepared =
        gets (λ s. not (has_room limits charge s))
        >>= (λ b. fail_if b full >> (modify prune_indexes >> pure prepared)) in
      let sealing : Action Prepared =
        gets (λ s. length s.entries) >>= (λ n. seal_until codec limits charge n 0 >> checked) in
      fail_if-Post (pin && is_pinned_full limits prepared.bytes s) full
        (gets (λ s. length s.entries) >>= (λ n. retire_until codec limits n >> sealing)) s
        (Tidied-refl codec limits s v)
        (λ free.
          next-Post (λ _. sealing) (retire_until codec limits (length s.entries) s)
            (retire_until-TidiesTo (length s.entries) s v (omega arith) l)
            (λ _ t h.
              next-Post (λ _. checked) (seal_until codec limits charge (length t.entries) 0 t)
                (TidiesTo-trans _ (λ _ u. length u.entries < limits.entries) s t _ h.0
                  (seal_until-TidiesTo charge (length t.entries) 0 t h.0.sound)
                  (λ _ u d _. omega (arith, d.shorter, h.1)))
                (λ _ u k.
                  fail_if-Post (not (has_room limits charge u)) full
                    (modify prune_indexes >> pure prepared) u k.0
                    (λ e. ok-Post prepared (prune_indexes u) (
                      Tidied-trans codec limits k.0 (prune_indexes-Tidied u k.0.sound),
                      (
                        refl,
                        (k.1, ground (arith, e)),
                        λ p. Tidied-Spare prepared.bytes pin s u p free k.0,
                        retain-AllLive u.heap u.proofs,
                      ),
                    )))))

  -- What `prepare` answers when it succeeds.
  pub record IsPrepared (entry : Entry) (pin : Bool) (s : State) (p : Prepared) (t : State)
      : Type 0 where
    pub roomy : IsRoomy p t
    pub encoded : encoded_bytes codec entry ≡ ok p.bytes
    pub readable : p.readable ≡ leb p.bytes limits.readable_bytes
    pub pinned : pin ≡ true → p.readable ≡ true
    pub spare : pin ≡ true → Spare limits p.bytes t
    pub live : AllLive t.heap (values t.proofs)
    pub below : s.issued.total < u64_max

  pub prepare-TidiesTo :
      (now : ℕ) (entry : Entry) (pin : Bool) (s : State)
      → IsSound codec limits s
      → TidiesTo s (IsPrepared entry pin s) (prepare codec now limits entry pin s)
  unfolding prepare
  prepare-TidiesTo now entry pin s v =
      let stay = Tidied-refl codec limits s v in
      let prepared : ℕ → Prepared =
        λ bytes. record { bytes = bytes; readable = leb bytes limits.readable_bytes } in
      let rest : ℕ → Action Prepared = λ bytes.
        fail_if (nat_beq limits.entries 0 || pin && ltb limits.readable_bytes bytes) full
        >> make_room codec limits (prepared bytes) pin in
      let fitting : ℕ → Action Prepared = λ bytes. reclaim codec now limits >> rest bytes in
      fail_if-Post (leb u64_max s.issued.total) full (lift (encoded_bytes codec entry) >>= fitting)
        s stay
        (λ b. lift-Post (encoded_bytes codec entry) fitting s stay (λ bytes e.
          next-Post (λ _. rest bytes) (reclaim codec now limits s)
            (Tidied-Post s (reclaim codec now limits s) (reclaim-Tidies now s v))
            (λ _ t h.
              fail_if-Post (nat_beq limits.entries 0 || pin && ltb limits.readable_bytes bytes) full
                (make_room codec limits (prepared bytes) pin) t h
                (λ c.
                  TidiesTo-trans _ _ s t _ h
                    (make_room-TidiesTo (prepared bytes) pin t h.sound (ground (arith, c)))
                    (λ p u _ k.
                      subst (λ q. IsPrepared entry pin s q u) (sym k.0)
                        (record {
                          roomy = k.1;
                          spare = k.2;
                          live = k.3;
                          encoded = e;
                          readable = refl;
                          pinned = λ w. ground (arith, w, c);
                          below = ground (arith, b);
                        }))))))
