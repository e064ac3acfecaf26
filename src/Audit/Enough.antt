-- ===== src/Audit/Enough.antt =====
-- On a sound ledger the calls that make room succeed: the loops have rounds enough, and nothing that
-- they check is amiss.
use mcp_ssh_rs.Prelude.{
  err, ok, ℕ, zero, suc, ◌+◌, ◌≤◌, ◌<◌, ◌≡◌, refl, sym, subst, ap, ◌∙◌, Bool, true, false, some,
  List, [], ◌∷◌, length, arith, Result, leb, Bool-cases, Option-cases, inl, inr,
}
use mcp_ssh_rs.Clock.{u64_max}
use mcp_ssh_rs.Audit.{AuditError, full, intact, sealed}
use mcp_ssh_rs.Audit.State.{
  State, Limits, Action, next, fail_if, gets, modify, ◌>>=◌, ◌>>◌, get_at, set_at, Post, ok-Post,
  next-Post,
}
use mcp_ssh_rs.Audit.Retention.{
  Codec, seal, seal_at, drop_front, retire_front, retire_until, seal_until, has_room,
}
use mcp_ssh_rs.Audit.Chain.{Chain-lengths, sum, length-set_at, length-pop_front}
use mcp_ssh_rs.Audit.Soundness.{
  IsSound, Tidied, Tidied-refl, Tidied-trans, seal_at-Tidied, drop_front-Tidied,
}
use mcp_ssh_rs.Audit.Places.{Chain-At, check-IsSound, get_at-some}

pub pass-Post :
    {B : Type 0} {R : B → State → Type 0} {Q : State → Type 0} (b : Bool) (e : AuditError)
    (f : Action B) (s : State)
    → b ≡ false
    → Post R Q (f s)
    → Post R Q ((fail_if b e >> f) s)
pass-Post true e f s h k = absurd (cc h)
pass-Post false e f s h k = k

pub length-seal_at : (i : ℕ) (s : State) → length (seal_at i s).entries ≡ length s.entries
unfolding seal_at
length-seal_at i s = elim (Option-cases (get_at i s.entries)) [
  | inl e ↦ rw (e, seal_at) refl
  | inr (sealed sequence previous digest, e) ↦ rw (e, seal_at) refl
  | inr (intact entry, e) ↦
      rw (e, seal_at)
        (length-set_at i (sealed entry.sequence entry.previous entry.digest) s.entries)
]

-- The first of the sizes are zero.
abbrev ZeroTo : ℕ → List ℕ → Type 0
ZeroTo zero zs = Unit {0}
ZeroTo (suc i) [] = Unit {0}
ZeroTo (suc i) (z ∷ zs) = (z ≡ 0) × ZeroTo i zs

ZeroTo-set_at : (i : ℕ) (zs : List ℕ) → ZeroTo i zs → ZeroTo (suc i) (set_at i 0 zs)
ZeroTo-set_at zero [] h = tt
ZeroTo-set_at zero (z ∷ zs) h = (refl, tt)
ZeroTo-set_at (suc i) [] h = tt
ZeroTo-set_at (suc i) (z ∷ zs) h = (h.0, ZeroTo-set_at i zs h.1)

ZeroTo-next : (i : ℕ) (zs : List ℕ) → ZeroTo i zs → get_at i zs ≡ some 0 → ZeroTo (suc i) zs
ZeroTo-next zero [] h e = tt
ZeroTo-next zero (z ∷ zs) h e = (cc e, tt)
ZeroTo-next (suc i) [] h e = tt
ZeroTo-next (suc i) (z ∷ zs) h e = (h.0, ZeroTo-next i zs h.1 e)

ZeroTo-sum : (zs : List ℕ) → ZeroTo (length zs) zs → sum zs ≡ 0
ZeroTo-sum [] h = refl
ZeroTo-sum (z ∷ zs) h = omega (arith, h.0, ZeroTo-sum zs h.1)

module _ (codec : Codec) (limits : Limits) where
  -- A call that succeeds, and only makes room.
  abbrev pub Does :
      {A : Type 0} → State → (A → State → Type 0) → State × Result AuditError A → Type 0
  Does s P = Post (λ a t. Tidied codec limits s t × P a t) (λ _. ⊥)

  pub Does-trans :
      {A : Type 0} (P : A → State → Type 0) (s t : State) (r : State × Result AuditError A)
      → Tidied codec limits s t
      → Does t P r
      → Does s P r
  Does-trans P s t r h k = record {
    on_ok = λ a e. let (d, p) = k.on_ok a e in (Tidied-trans codec limits h d, p);
    on_err = λ a e. k.on_err a e;
  }

  pub seal-Does :
      (i : ℕ) (s : State)
      → IsSound codec limits s
      → i < length s.entries
      → Does s (λ _ t. t ≡ seal_at i s) (seal codec i s)
  unfolding seal
  seal-Does i s v l =
      let (h, e) = get_at-some i s.entries l in
      subst (λ r. Does s (λ _ t. t ≡ seal_at i s) (next (λ _. modify (seal_at i)) r))
        (sym (check-IsSound codec limits s i h v e))
        (ok-Post tt (seal_at i s) (seal_at-Tidied codec limits i s v, refl))

  retire_front-Does :
      (s : State)
      → IsSound codec limits s
      → 0 < length s.entries
      → Does s (λ _ t. suc (length t.entries) ≡ length s.entries) (retire_front codec s)
  unfolding retire_front drop_front
  retire_front-Does s v l =
      let (h, e) = get_at-some 0 s.entries l in
      subst
        (λ r.
          Does s (λ _ t. suc (length t.entries) ≡ length s.entries)
            (next
              (λ _. gets (λ s. leb u64_max s.issued.retired) >>= λ b.
                (fail_if b full >> modify drop_front))
              r))
        (sym (check-IsSound codec limits s 0 h v e))
        (pass-Post (leb u64_max s.issued.retired) full (modify drop_front) s
          (ground (arith, v.counted, v.small, l))
          (ok-Post tt (drop_front s)
            (drop_front-Tidied codec limits h s e v, length-pop_front h s.entries e)))

  ZeroTo-seal_at :
      (i : ℕ) (s : State)
      → IsSound codec limits s
      → ZeroTo i s.sizes
      → i < length s.entries
      → ZeroTo (suc i) (seal_at i s).sizes
  unfolding seal_at
  ZeroTo-seal_at i s v z l = elim (Option-cases (get_at i s.entries)) [
    | inl e ↦ let (h, k) = get_at-some i s.entries l in absurd (cc (e, k))
    | inr (sealed sequence previous digest, e) ↦
        let a = Chain-At codec _ _ _ _ _ i (sealed sequence previous digest) v.chain e in
        rw (e, seal_at) (ZeroTo-next i s.sizes z (a.sized ∙ ap some a.whole))
    | inr (intact entry, e) ↦ rw (e, seal_at) (ZeroTo-set_at i s.sizes z)
  ]

  -- The rounds are enough: with every entry sealed, nothing readable is left, and the charge fits.
  pub seal_until-Does :
      (charge rounds i : ℕ) (s : State)
      → IsSound codec limits s
      → rounds + i ≡ length s.entries
      → ZeroTo i s.sizes
      → charge ≤ limits.readable_bytes
      → limits.readable_bytes ≤ u64_max
      → Does s (λ _ t. has_room limits charge t ≡ true) (seal_until codec limits charge rounds i s)
  unfolding seal_until
  seal_until-Does charge zero i s v n z l b =
      let lengths = (Chain-lengths codec _ _ _ _ _ v.chain).1 in
      let empty =
        ZeroTo-sum s.sizes (subst (λ k. ZeroTo k s.sizes) (omega (arith, n, lengths)) z) in
      ok-Post tt s (Tidied-refl codec limits s v, ground (arith, v.summed, empty, l, b))
  seal_until-Does charge (suc rounds) i s v n z l b = elim (Bool-cases (has_room limits charge s)) [
    | inl e ↦ rw e (ok-Post tt s (Tidied-refl codec limits s v, e))
    | inr e ↦ rw e (
        next-Post (λ _. seal_until codec limits charge rounds (suc i)) (seal codec i s)
          (seal-Does i s v (omega (arith, n)))
          (λ _ t h. Does-trans _ s t _ h.0 (
            seal_until-Does charge rounds (suc i) t h.0.sound
              (omega (arith, n, length-seal_at i s, ap (λ u. length u.entries) h.1))
              (subst (λ u. ZeroTo (suc i) u.sizes) (sym h.1)
                (ZeroTo-seal_at i s v z (omega (arith, n))))
              l b)))
  ]

  -- The rounds are enough: each takes an entry away.
  pub retire_until-Does :
      (rounds : ℕ) (s : State)
      → IsSound codec limits s
      → length s.entries ≤ rounds
      → 0 < limits.entries
      → Does s (λ _ t. length t.entries < limits.entries) (retire_until codec limits rounds s)
  unfolding retire_until
  retire_until-Does zero s v n l = ok-Post tt s (Tidied-refl codec limits s v, omega (arith, n, l))
  retire_until-Does (suc rounds) s v n l =
      elim (Bool-cases (leb limits.entries (length s.entries))) [
        | inl e ↦ rw e (
            next-Post (λ _. retire_until codec limits rounds) (retire_front codec s)
              (retire_front-Does s v (ground (arith, e, l)))
              (λ _ t h.
                Does-trans _ s t _ h.0
                  (retire_until-Does rounds t h.0.sound (omega (arith, h.1, n)) l)))
        | inr e ↦ rw e (ok-Post tt s (Tidied-refl codec limits s v, ground (arith, e)))
      ]

  -- The state that a call that succeeds leaves.
  pub Does-result :
      {A : Type 0} (P : A → State → Type 0) (s : State) (r : State × Result AuditError A)
      → Does s P r
      → (t : State) × (a : A) × (r ≡ (t, ok a)) × (Tidied codec limits s t × P a t)
  Does-result P s (t, ok a) h = (t, a, refl, h.on_ok a refl)
  Does-result P s (t, err e) h = absurd (h.on_err e refl)

  -- On a sound ledger, a round for each entry is enough for any charge within the limits: the loop
  -- succeeds, the charge fits then, and the ledger is still sound with all that was issued.
  pub seal_until-has_room :
      (charge : ℕ) (s : State)
      → IsSound codec limits s
      → charge ≤ limits.readable_bytes
      → limits.readable_bytes ≤ u64_max
      → (t : State) × (seal_until codec limits charge (length s.entries) 0 s ≡ (t, ok tt))
        × (has_room limits charge t ≡ true)
        × IsSound codec limits t
        × (t.issued.total ≡ s.issued.total)
  seal_until-has_room charge s v l b =
      let (t, a, e, (d, h)) =
        Does-result (λ _ t. has_room limits charge t ≡ true) s _
          (seal_until-Does charge (length s.entries) 0 s v (omega arith) tt l b) in
      (t, e, h, d.sound, d.total)
