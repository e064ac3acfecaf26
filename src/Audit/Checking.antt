-- ===== src/Audit/Checking.antt =====
-- What `verify` decides: whether what is held is what was issued.
use mcp_ssh_rs.Prelude.{
  ℕ, suc, ◌+◌, ◌-◌, ◌≤◌, ◌<◌, ◌≡◌, ◌⊎◌, ◌↔◌, refl, subst, ap, Bool, true, false, Option, none, some,
  List, [], ◌∷◌, length, arith, Result, ok, err, if◌then◌else◌, Result-cases, inl, inr, ◌==◌,
  nat_eq, nat_beq_iff, guard, ◌>>=◌,
}
use mcp_ssh_rs.Text.{Text, text_eq}
use mcp_ssh_rs.Clock.{u64_max}
use mcp_ssh_rs.Audit.{
  AuditError, Broken, Held, Verified, intact, sealed, digest_of_held, previous_of, sequence_of,
}
use mcp_ssh_rs.Audit.State.{State, back}
use mcp_ssh_rs.Audit.Retention.{Codec, digest_of}
use mcp_ssh_rs.Audit.Verify.{
  verify, verify_window, verify_from, verify_held, check_readable, count_sealed, is_issued,
  same_head, first, rest,
}

-- A check that answers as a proposition says.
abbrev Decides : {A : Type 0} → Result Broken A → A → Type 0 → Type 0
Decides r a P = ((r ≡ ok a) × P) ⊎ ((b : Broken) × (r ≡ err b) × (P → ⊥))

guard-Decides :
    (b : Bool) (e : Broken) (P : Type 0)
    → (b ≡ true → P)
    → (P → b ≡ true)
    → Decides (guard b e) tt P
guard-Decides true e P h k = inl (refl, h refl)
guard-Decides false e P h k = inr (e, refl, λ p. absurd (cc (k p)))

if-Decides :
    (b : Bool) (e : Broken) (P : Type 0)
    → (b ≡ true → P)
    → (P → b ≡ true)
    → Decides (if b then ok tt else err e) tt P
if-Decides true e P h k = inl (refl, h refl)
if-Decides false e P h k = inr (e, refl, λ p. absurd (cc (k p)))

then-Decides :
    {A B : Type 0} (r : Result Broken A) (f : A → Result Broken B) (a : A) (b : B) (P Q : Type 0)
    → Decides r a P
    → (P → Decides (f a) b Q)
    → Decides (r >>= f) b (P × Q)
then-Decides r f a b P Q (inl (e, p)) k = elim (k p) [
  | inl (d, q) ↦ inl (rw e d, (p, q))
  | inr (x, d, n) ↦ inr (x, rw e d, λ h. n h.1)
]
then-Decides r f a b P Q (inr (x, e, n)) k = inr (x, rw e refl, λ h. n h.0)

guards-Decides :
    {A : Type 0} (b c : Bool) (e d : Broken) (r : A) (P : Type 0)
    → (b ≡ true → P)
    → (P → b ≡ true)
    → (P → c ≡ true)
    → Decides (guard b e >>= λ _. (guard c d >>= λ _. ok r)) r P
guards-Decides true true e d r P h k l = inl (refl, h refl)
guards-Decides true false e d r P h k l = absurd (cc (l (h refl)))
guards-Decides false c e d r P h k l = inr (e, refl, λ p. absurd (cc (k p)))

module _ (codec : Codec) where
  -- What can still be read of an entry is what its digest was made of.
  abbrev pub IsUnaltered : Held → Type 0
  IsUnaltered (intact entry) = digest_of codec entry ≡ ok entry.digest
  IsUnaltered (sealed sequence previous digest) = Unit {0}

  abbrev pub IsPlaced : ℕ → Text → Option Text → Held → Type 0
  IsPlaced position previous issued held =
      (sequence_of held ≡ position)
      × ((previous_of held ≡ previous) × ((issued ≡ some (digest_of_held held)) × IsUnaltered held))

  -- The entries go on from a position and a digest, each the one that was issued there.
  abbrev pub Linked : ℕ → Text → List Text → List Held → Type 0
  Linked position previous issued [] = Unit {0}
  Linked position previous issued (held ∷ entries) =
      IsPlaced position previous (first issued) held
      × Linked (suc position) (digest_of_held held) (rest issued) entries

  check_readable-Decides : (held : Held) → Decides (check_readable codec held) tt (IsUnaltered held)
  check_readable-Decides (sealed sequence previous digest) = inl (refl, tt)
  check_readable-Decides (intact entry) = elim (Result-cases (digest_of codec entry)) [
    | inl (e, h) ↦ rw h (inr (_, refl, λ k. absurd (cc k)))
    | inr (d, h) ↦ rw h (
        if-Decides (d == entry.digest) _ (Path (Result AuditError Text) (ok d) (ok entry.digest))
          (λ k. ground (arith, k, text_eq.beq_iff d entry.digest))
          (λ k. ground (arith, k, text_eq.beq_iff d entry.digest)))
  ]

  is_issued_iff :
      (issued : Option Text) (digest : Text)
      → (is_issued issued digest ≡ true) ↔ (issued ≡ some digest)
  is_issued_iff none digest = (λ h. absurd (cc h), λ h. absurd (cc h))
  is_issued_iff (some d) digest = ground (arith, text_eq.beq_iff d digest)

  verify_held-Decides :
      (position : ℕ) (previous : Text) (issued : Option Text) (held : Held)
      → Decides
          (verify_held codec position previous issued held)
          tt
          (IsPlaced position previous issued held)
  unfolding verify_held
  verify_held-Decides position previous issued held =
      let same = nat_beq_iff (sequence_of held) position in
      let link = text_eq.beq_iff (previous_of held) previous in
      let there = is_issued_iff issued (digest_of_held held) in
      then-Decides (guard _ _) _ tt tt _ _
        (guard-Decides _ _ (sequence_of held ≡ position) same.0 same.1)
        (λ _.
          then-Decides (guard _ _) _ tt tt _ _
            (guard-Decides _ _ (previous_of held ≡ previous) link.0 link.1)
            (λ _.
              then-Decides (guard _ _) _ tt tt _ _
                (guard-Decides _ _ (issued ≡ some (digest_of_held held)) there.0 there.1)
                (λ _. check_readable-Decides held)))

  first-length :
      {A : Type 0} (xs : List A) (a : A) → first xs ≡ some a → suc (length (rest xs)) ≡ length xs
  first-length [] a e = absurd (cc e)
  first-length (x ∷ xs) a e = refl

  -- How many entries can no longer be read.
  abbrev pub sealed_of : List Held → ℕ
  sealed_of [] = 0
  sealed_of (intact entry ∷ entries) = sealed_of entries
  sealed_of (sealed sequence previous digest ∷ entries) = suc (sealed_of entries)

  count_sealed_lem :
      (held : Held) (entries : List Held) (count : ℕ)
      → count < u64_max
      → count_sealed held count + sealed_of entries ≡ count + sealed_of (held ∷ entries)
  count_sealed_lem (intact entry) entries count l = refl
  count_sealed_lem (sealed sequence previous digest) entries count l = ground (arith, l)

  count_sealed-bound :
      (held : Held) (count index : ℕ) → count ≤ index → count_sealed held count ≤ suc index
  count_sealed-bound (intact entry) count index l = omega arith
  count_sealed-bound (sealed sequence previous digest) count index l = ground (arith, l)

  verify_from-Decides :
      (retired index : ℕ) (previous : Text) (count : ℕ) (issued : List Text) (entries : List Held)
      → retired + index + length issued ≤ u64_max
      → count ≤ index
      → Decides
          (verify_from codec retired index previous count issued entries)
          (count + sealed_of entries)
          (Linked (retired + index) previous issued entries)
  unfolding verify_from
  verify_from-Decides retired index previous count issued [] b l = inl (ap ok (omega arith), tt)
  verify_from-Decides retired index previous count issued (held ∷ entries) b l =
      subst
        (λ n.
          Decides
            (verify_held codec n previous (first issued) held >>= λ _.
              verify_from codec retired (suc index) (digest_of_held held) (count_sealed held count)
                (rest issued) entries)
            (count + sealed_of (held ∷ entries))
            (Linked (retired + index) previous issued (held ∷ entries)))
        (ground (arith, b))
        (then-Decides (verify_held codec (retired + index) previous (first issued) held) _ tt _ _ _
          (verify_held-Decides (retired + index) previous (first issued) held)
          (λ p.
            let more = first-length issued _ p.1.1.0 in
            subst
              (λ n.
                Decides
                  (verify_from codec retired (suc index) (digest_of_held held)
                    (count_sealed held count) (rest issued) entries)
                  n (Linked (suc (retired + index)) (digest_of_held held) (rest issued) entries))
              (count_sealed_lem held entries count (omega (arith, b, l, more)))
              (subst
                (λ n.
                  Decides
                    (verify_from codec retired (suc index) (digest_of_held held)
                      (count_sealed held count) (rest issued) entries)
                    (count_sealed held count + sealed_of entries)
                    (Linked n (digest_of_held held) (rest issued) entries))
                (omega arith)
                (verify_from-Decides retired (suc index) (digest_of_held held)
                  (count_sealed held count) (rest issued) entries (omega (arith, b, more))
                  (count_sealed-bound held count index l)))))

  verify_from_start :
      (s : State)
      → s.issued.retired + length s.issued.digests ≤ u64_max
      → Decides
          (verify_from codec s.issued.retired 0 s.issued.checkpoint 0 s.issued.digests s.entries)
          (sealed_of s.entries)
          (Linked s.issued.retired s.issued.checkpoint s.issued.digests s.entries)
  verify_from_start s b =
      let run =
        verify_from codec s.issued.retired 0 s.issued.checkpoint 0 s.issued.digests s.entries in
      let linked : ℕ → Type 0 = λ n. Linked n s.issued.checkpoint s.issued.digests s.entries in
      subst (λ n. Decides run (sealed_of s.entries) (linked n)) (omega arith)
        (subst (λ n. Decides run n (linked (s.issued.retired + 0))) (omega arith)
          (verify_from-Decides s.issued.retired 0 s.issued.checkpoint 0 s.issued.digests s.entries
            (omega (arith, b)) (omega arith)))

  Linked-length :
      (position : ℕ) (previous : Text) (issued : List Text) (entries : List Held)
      → Linked position previous issued entries
      → length entries ≤ length issued
  Linked-length position previous issued [] h = omega arith
  Linked-length position previous issued (held ∷ entries) h =
      let more = first-length issued _ h.0.1.1.0 in
      omega (arith, more, Linked-length (suc position) _ (rest issued) entries h.1)

  -- When nothing is missing, the last digest is the last that was issued.
  Linked-same_head :
      (position : ℕ) (previous : Text) (issued : List Text) (entries : List Held)
      → Linked position previous issued entries
      → length entries ≡ length issued
      → same_head (back entries) (back issued) ≡ true
  Linked-same_head position previous [] [] h l = refl
  Linked-same_head position previous (d ∷ []) (held ∷ []) h l =
      let e = h.0.1.1.0 in ground (arith, e, text_eq.beq_iff (digest_of_held held) d)
  Linked-same_head position previous (d ∷ d' ∷ issued) (held ∷ held' ∷ entries) h l =
      Linked-same_head (suc position) _ (d' ∷ issued) (held' ∷ entries) h.1 (omega (arith, l))
  Linked-same_head position previous [] (held ∷ entries) h l = absurd (omega (arith, l))
  Linked-same_head position previous (d ∷ issued) [] h l = absurd (omega (arith, l))
  Linked-same_head position previous (d ∷ d' ∷ issued) (held ∷ []) h l = absurd (omega (arith, l))
  Linked-same_head position previous (d ∷ []) (held ∷ held' ∷ entries) h l =
      absurd (omega (arith, l))

  -- Every entry that was issued and not retired is held in its place, and nothing else.
  unfoldable pub IsAsIssued : State → Type 0
  IsAsIssued s =
      Linked s.issued.retired s.issued.checkpoint s.issued.digests s.entries
      × (length s.entries ≡ length s.issued.digests)

  abbrev pub report : State → Verified
  report s = record {
    entries = length s.entries;
    sealed = sealed_of s.entries;
    retired = s.issued.retired;
  }

  -- Of a state that accounts for all that was issued, `verify` reports what is held if that is what was
  -- issued, and fails otherwise.
  pub verify_lem :
      (s : State)
      → s.issued.retired + length s.issued.digests ≡ s.issued.total
      → s.issued.total ≤ u64_max
      → ((verify codec s ≡ ok (report s)) × IsAsIssued s)
        ⊎ ((b : Broken) × (verify codec s ≡ err b) × ¬ IsAsIssued s)
  unfolding verify verify_window IsAsIssued
  verify_lem s t b =
      let found : ℕ → Verified =
        λ n. record { entries = n; sealed = sealed_of s.entries; retired = s.issued.retired } in
      subst (λ n. Decides (verify codec s) (found n) (IsAsIssued s)) (omega arith)
        (then-Decides
          (verify_from codec s.issued.retired 0 s.issued.checkpoint 0 s.issued.digests s.entries) _
          (sealed_of s.entries) (found (length s.entries - 0)) _ _
          (verify_from_start s (omega (arith, t, b)))
          (λ h.
            let most = Linked-length _ _ _ _ h in
            guards-Decides _ _ _ _ (found (length s.entries - 0))
              (length s.entries ≡ length s.issued.digests) (λ e. ground (arith, e, t, most, b))
              (λ e. ground (arith, e, t, b)) (Linked-same_head _ _ _ _ h)))
