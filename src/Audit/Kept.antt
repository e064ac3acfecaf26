-- ===== src/Audit/Kept.antt =====
-- What every call on a ledger keeps.
use mcp_ssh_rs.Prelude.{
  ℕ, ◌≤◌, ◌≡◌, refl, sym, subst, Bool, true, false, none, List, [], ◌∷◌, ◌++◌, append_assoc,
  append-nil, arith, Result, ok, err, Bool-cases, Option-cases, Result-cases, inl, inr, ◌==◌,
  nat_eq,
}
use mcp_ssh_rs.Text.{Text}
use mcp_ssh_rs.Dict.{get, values, get-insert, length-retain-le}
use mcp_ssh_rs.Policy.{Decision}
use mcp_ssh_rs.Audit.{EvaluationArtifact, Attribution, AuditError, Event, Entry}
use mcp_ssh_rs.Audit.State.{
  State, Limits, Action, next, pure, fail_if, gets, modify, ◌>>=◌, lift, entry_at,
}
use mcp_ssh_rs.Audit.Retention.{Codec, Written, heap_with, is_readable, prune_indexes}
use mcp_ssh_rs.Audit.Ledger.{append_to, is_completed, complete, index_decision, pins}
use mcp_ssh_rs.Audit.Assessing.{index_evaluation}
use mcp_ssh_rs.Audit.Secrets.{is_matched}
use mcp_ssh_rs.Audit.Pinned.{IsPinned, bytes_of-retain, bytes_of-completed}
use mcp_ssh_rs.Audit.Soundness.{IsSound, IsSound-indexes, Logged, Tidied, Tidied-IsPinned}
use mcp_ssh_rs.Audit.Append.{Appended, append_to-Post}

completed-heap_with :
    (pin : Bool) (entry : Entry) (bytes address kept : ℕ) (s t : State)
    → get address s.heap ≡ none
    → t.heap ≡ heap_with pin entry bytes address s.heap
    → is_completed kept s ≡ true
    → is_completed kept t ≡ true
completed-heap_with true entry bytes address kept s t n e c =
    rw
      (
        e,
        get-insert address kept (record { entry = entry; bytes = bytes; completed = false }) s.heap,
      )
      (elim (Bool-cases (address == kept)) [
        | inl h ↦ absurd (ground (arith, h, n, c))
        | inr h ↦ ground (arith, h, c)
      ])
completed-heap_with false entry bytes address kept s t n e c = rw e c

completed-complete :
    (address kept : ℕ) (t : State)
    → is_completed kept t ≡ true
    → is_completed kept (complete address t) ≡ true
unfolding complete
completed-complete address kept t c = elim (Option-cases (get address t.heap)) [
  | inl e ↦ rw e c
  | inr (proof, e) ↦
      rw (e, get-insert address kept (record proof { completed = true }) t.heap) (ground (arith, c))
]

pub same_log :
    (log : List Text) (s : State) → Logged log s → (more : List Text) × Logged (log ++ more) s
same_log log s l = ([], subst (λ o. Logged o s) (sym (append-nil log)) l)

module _ (codec : Codec) (limits : Limits) (kept : ℕ) where
  -- The state stays sound, nothing that was issued is taken back, and what was completed stays so.
  pub record Kept (s t : State) : Type 0 where
    pub sound : IsSound codec limits t
    pub grows : s.issued.total ≤ t.issued.total
    pub secured : IsPinned limits s → IsPinned limits t
    pub completed : is_completed kept s ≡ true → is_completed kept t ≡ true
    -- The log of what was issued only grows.
    pub logged : (log : List Text) → Logged log s → (more : List Text) × Logged (log ++ more) t

  pub Kept_refl : (s : State) → IsSound codec limits s → Kept s s
  Kept_refl s v = record {
    sound = v;
    grows = omega arith;
    secured = λ p. p;
    completed = λ h. h;
    logged = λ log l. same_log log s l;
  }

  pub Kept_trans : {s t u : State} → Kept s t → Kept t u → Kept s u
  Kept_trans {u = u} h k = record {
    sound = k.sound;
    grows = omega (arith, h.grows, k.grows);
    secured = λ p. k.secured (h.secured p);
    completed = λ c. k.completed (h.completed c);
    logged = λ log l.
        let (xs, a) = h.logged log l in
        let (ys, b) = k.logged (log ++ xs) a in
        (xs ++ ys, subst (λ o. Logged o u) (append_assoc log xs ys) b);
  }

  pub Tidied-Kept : (s t : State) → Tidied codec limits s t → Kept s t
  Tidied-Kept s t h = record {
    sound = h.sound;
    grows = omega (arith, h.total);
    secured = Tidied-IsPinned codec limits s t h;
    completed = λ c. rw h.heap c;
    logged = λ log l. same_log log t (h.logged log l);
  }

  -- A call that only reads, one that keeps what it finds, and one that keeps it where the address is free.
  pub record IsQuiet {A : Type 0} (m : Action A) : Type 0 where
    pub same : (s : State) → (m s).0 ≡ s

  pub record Steady {A : Type 0} (m : Action A) : Type 0 where
    pub keeps : (s : State) → IsSound codec limits s → Kept s (m s).0

  pub record Keeps {A : Type 0} (address : ℕ) (m : Action A) : Type 0 where
    pub keeps : (s : State) → IsSound codec limits s → get address s.heap ≡ none → Kept s (m s).0

  next-Kept :
      {A B : Type 0} (f : A → Action B) (s : State) (r : State × Result AuditError A)
      → Kept s r.0
      → ((a : A) (t : State) → Kept s t → Kept s (f a t).0)
      → Kept s (next f r).0
  next-Kept f s (t, ok a) h k = k a t h
  next-Kept f s (t, err e) h k = h

  next-same :
      {A B : Type 0} (f : A → Action B) (s : State) (r : State × Result AuditError A)
      → r.0 ≡ s
      → IsSound codec limits s
      → ((a : A) → Kept s (f a s).0)
      → Kept s (next f r).0
  next-same f s (t, ok a) h v k = subst (λ u. Kept s (f a u).0) (sym h) (k a)
  next-same f s (t, err e) h v k = subst (λ u. Kept s u) (sym h) (Kept_refl s v)

  pub quiet-Steady : {A : Type 0} {m : Action A} → IsQuiet m → Steady m
  quiet-Steady q = record { keeps = λ s v. subst (λ t. Kept s t) (sym (q.same s)) (Kept_refl s v) }

  pub bind-Steady :
      {A B : Type 0} {m : Action A} {f : A → Action B}
      → Steady m
      → ((a : A) → Steady (f a))
      → Steady (m >>= f)
  bind-Steady {f = f} h k = record {
    keeps = λ s v. next-Kept f s _ (h.keeps s v) (λ a t r. Kept_trans r ((k a).keeps t r.sound));
  }

  pub quiet-Keeps :
      {A B : Type 0} {address : ℕ} {m : Action A} {f : A → Action B}
      → IsQuiet m
      → ((a : A) → Keeps address (f a))
      → Keeps address (m >>= f)
  quiet-Keeps {m = m} {f = f} q k = record {
    keeps = λ s v n. next-same f s (m s) (q.same s) v (λ a. (k a).keeps s v n);
  }

  pub Keeps-Steady :
      {A B : Type 0} {address : ℕ} {m : Action A} {f : A → Action B}
      → Keeps address m
      → ((a : A) → Steady (f a))
      → Keeps address (m >>= f)
  Keeps-Steady {f = f} h k = record {
    keeps =
        λ s v n. next-Kept f s _ (h.keeps s v n) (λ a t r. Kept_trans r ((k a).keeps t r.sound));
  }

  pub fail_if-IsQuiet : (b : Bool) (e : AuditError) → IsQuiet (fail_if b e)
  fail_if-IsQuiet true e = record { same = λ s. refl }
  fail_if-IsQuiet false e = record { same = λ s. refl }

  pub gets-IsQuiet : {A : Type 0} (f : State → A) → IsQuiet (gets f)
  gets-IsQuiet f = record { same = λ s. refl }

  pub lift-IsQuiet : {A : Type 0} (r : Result AuditError A) → IsQuiet (lift r)
  lift-IsQuiet r = record { same = λ s. refl }

  pub pure-IsQuiet : {A : Type 0} (a : A) → IsQuiet (pure a)
  pure-IsQuiet a = record { same = λ s. refl }

  pub modify-Steady :
      (f : State → State)
      → ((s : State) → IsSound codec limits s → Kept s (f s))
      → Steady (modify f)
  modify-Steady f h = record { keeps = h }

  pub prune_indexes-Kept : (s : State) → IsSound codec limits s → Kept s (prune_indexes s)
  unfolding prune_indexes
  prune_indexes-Kept s v = record {
    sound =
        IsSound-indexes codec limits _ _ _ _ v
          (length-retain-le (λ address. is_matched (get address s.heap)) s.proofs);
    grows = omega arith;
    secured = λ p.
        ground
          (arith, p, bytes_of-retain s.heap (λ address. is_matched (get address s.heap)) s.proofs);
    completed = λ c. c;
    logged = λ log l. same_log log _ (record { held = l.held; within = l.within });
  }

  pub index_decision-Kept :
      (decision : Decision) (intended : Text) (entry : Entry) (s : State)
      → IsSound codec limits s
      → Kept s (index_decision decision intended entry s)
  unfolding index_decision
  index_decision-Kept decision intended entry s v =
      elim (Bool-cases (is_readable (entry_at entry.sequence s))) [
        | inl e ↦ rw e (record {
          sound = IsSound-indexes codec limits _ _ _ _ v (omega arith);
          grows = omega arith;
          secured = λ p. p;
          completed = λ c. c;
          logged = λ log l. same_log log _ (record { held = l.held; within = l.within });
        })
        | inr e ↦ rw e (Kept_refl s v)
      ]

  pub complete-Kept :
      (address : ℕ) (s : State) → IsSound codec limits s → Kept s (complete address s)
  unfolding complete
  complete-Kept address s v = record {
    sound = IsSound-indexes codec limits _ _ _ _ v (omega arith);
    grows = omega arith;
    secured = λ p. ground (arith, p, bytes_of-completed s.heap address (values s.proofs));
    completed = completed-complete address kept s;
    logged = λ log l. same_log log _ (record { held = l.held; within = l.within });
  }

  pub index_evaluation-Kept :
      (artifact : EvaluationArtifact) (entry : Entry) (s : State)
      → IsSound codec limits s
      → Kept s (index_evaluation artifact entry s)
  unfolding index_evaluation
  index_evaluation-Kept artifact entry s v = record {
    sound = IsSound-indexes codec limits _ _ _ _ v (omega arith);
    grows = omega arith;
    secured = λ p. p;
    completed = λ c. c;
    logged = λ log l. same_log log _ (record { held = l.held; within = l.within });
  }

  module _ (accepts : Entry → Bool) (genesis : Text) where
    pub append_to-Kept :
        (who : Attribution) (event : Event) (at address : ℕ) (s : State)
        → IsSound codec limits s
        → get address s.heap ≡ none
        → Kept s (append_to codec accepts genesis limits who event at address s).0
    append_to-Kept who event at address s v n =
        let h = append_to-Post codec accepts genesis limits who event at address s v in
        elim (Result-cases (append_to codec accepts genesis limits who event at address s).1) [
          | inl (e, r) ↦ Tidied-Kept _ _ (h.on_err e r)
          | inr (w, r) ↦ appended w (h.on_ok w r).0
        ]
      where
        appended :
            (w : Written)
            → Appended codec accepts limits address w.entry s w
                (append_to codec accepts genesis limits who event at address s).0
            → Kept s (append_to codec accepts genesis limits who event at address s).0
        appended w a = record {
          sound = a.sound;
          grows = omega (arith, a.total);
          secured = a.secured n;
          completed =
              completed-heap_with (pins w.entry.event) w.entry a.bytes address kept s
                (append_to codec accepts genesis limits who event at address s).0 n a.heap;
          logged = λ log l. (w.entry.digest ∷ [], a.logged log l);
        }
