-- ===== src/Audit/Completion.antt =====
-- `Ledger::record_outcome` of crates/ssh-core/src/audit.rs: a run is completed once.
use mcp_ssh_rs.Prelude.{
  ℕ, ◌≡◌, refl, sym, subst, ap, ◌∙◌, Bool, true, Option, none, some, arith, ok, err, Result-cases,
  Bool-cases, Option-cases, inl, inr, nat_beq, nat_beq_iff, nat_eq,
}
use mcp_ssh_rs.Text.{Text, text_eq}
use mcp_ssh_rs.Dict.{Dict, get, get-insert_self}
use mcp_ssh_rs.Run.{Outcome, still_running}
use mcp_ssh_rs.Audit.{AuditError, Authorization, Entry, Held, Proof}
use mcp_ssh_rs.Audit.State.{
  State, Limits, Action, Post, new, gets, fail_if, modify, pure, ◌>>=◌, ◌>>◌, ok-Post, next-Post,
  fail_if-Post, lift-Post, entry_at, active_proof, upgrade,
}
use mcp_ssh_rs.Audit.Retention.{Codec, Written, heap_with}
use mcp_ssh_rs.Audit.Ledger.{
  append_to, record_outcome, this_records_decision, check_decision, is_completed, complete,
  completion_of, pins,
}
use mcp_ssh_rs.Audit.Soundness.{IsSound}
use mcp_ssh_rs.Audit.Append.{Made, append_to-Post}
use mcp_ssh_rs.Audit.Moves.{Call, Moves, apply}
use mcp_ssh_rs.Audit.Calls.{Moves-Kept, apply-Kept}
use mcp_ssh_rs.Audit.Record.{Moves-IsSound}

upgrade-held :
    (heap : Dict ℕ Proof) (o : Option ℕ) (address : ℕ) (p : Proof)
    → upgrade heap o ≡ some (address, p)
    → get address heap ≡ some p
upgrade-held heap none address p h = absurd (cc h)
upgrade-held heap (some b) address p h = elim (Option-cases (get b heap)) [
  | inl e ↦ absurd (cc (e, h))
  | inr (q, e) ↦ cc (e, h)
]

check_decision-active :
    (a : Authorization) (held : Option Held) (active : Option (ℕ × Proof))
    → check_decision a held active ≡ ok tt
    → (p : Proof) × (active ≡ some (a.proof, p))
check_decision-active a (some held) none h = absurd (cc h)
check_decision-active a none none h = absurd (cc h)
check_decision-active a held (some (address, p)) h = elim (Bool-cases (nat_beq address a.proof)) [
  | inl e ↦ (p, ap (λ x. some (x, p)) ((nat_beq_iff address a.proof).0 e))
  | inr e ↦ absurd (ground (arith, e, h))
]

-- A decision that checks out is one whose proof is there.
check_decision-held :
    (a : Authorization) (s : State) (held : Option Held)
    → check_decision a held (active_proof a.sequence s) ≡ ok tt
    → (p : Proof) × (get a.proof s.heap ≡ some p)
unfolding active_proof
check_decision-held a s held h =
    let (p, e) = check_decision-active a held (active_proof a.sequence s) h in
    (p, upgrade-held s.heap (get a.sequence s.proofs) a.proof p e)

is_completed-complete :
    (a : ℕ) (p : Proof) (t : State) → get a t.heap ≡ some p → is_completed a (complete a t) ≡ true
unfolding complete
is_completed-complete a p t h =
    rw (h, get-insert_self a (record p { completed = true }) t.heap) refl

-- A run that was completed is not completed again.
module _ (codec : Codec) (accepts : Entry → Bool) (genesis : Text) (limits : Limits) where
  record_outcome_again :
      (again : Outcome) (at address : ℕ) (s : State)
      → is_completed again.authorization.proof s ≡ true
      → (e : AuditError) × (record_outcome codec accepts genesis limits again at address s
          ≡ (s, err e))
  unfolding record_outcome this_records_decision
  record_outcome_again again at address s c = elim (Bool-cases (still_running again)) [
    | inl r ↦ (AuditError.still_running again.run, rw r refl)
    | inr r ↦
        elim (Result-cases (
          check_decision again.authorization (entry_at again.authorization.sequence s)
            (active_proof again.authorization.sequence s))) [
              | inl (e, h) ↦ (e, rw (r, h) refl)
              | inr (a, h) ↦ (AuditError.already_completed again.run, rw (r, h, c) refl)
            ]
  ]

  append_completion :
      (outcome : Outcome) (at address : ℕ) (s t : State) (w : Written)
      → Made codec accepts genesis limits outcome.authorization.who
          (completion_of outcome)
          at
          address
          s
          w
          t
      → t.heap ≡ s.heap
  append_completion outcome at address s t w (a, e) =
      subst (λ v. t.heap ≡ heap_with (pins v) w.entry a.bytes address s.heap) (ap (λ x. x.event) e)
        a.heap

  record_outcome-Post :
      (outcome : Outcome) (at address : ℕ) (s : State)
      → IsSound codec limits s
      → Post
          (λ _ t. is_completed outcome.authorization.proof t ≡ true)
          (λ _. Unit {0})
          (record_outcome codec accepts genesis limits outcome at address s)
  unfolding record_outcome this_records_decision
  record_outcome-Post outcome at address s v =
      let a = outcome.authorization in
      let writing : Action Entry =
        append_to codec accepts genesis limits a.who (completion_of outcome) at address >>= λ w.
        (modify (complete a.proof) >> pure w.entry) in
      let once : Action Entry = gets (is_completed a.proof) >>= λ b.
      (fail_if b (AuditError.already_completed outcome.run) >> writing) in
      fail_if-Post (still_running outcome) _ (this_records_decision a >> once) s tt (λ _.
        lift-Post (check_decision a (entry_at a.sequence s) (active_proof a.sequence s)) (λ _. once)
          s tt
          (λ _ h. fail_if-Post (is_completed a.proof s) _ writing s tt (λ _.
            next-Post _
              (append_to codec accepts genesis limits a.who (completion_of outcome) at address s)
              (record {
                on_ok =
                    (append_to-Post codec accepts genesis limits a.who (completion_of outcome) at
                      address s v).on_ok;
                on_err = λ _ _. tt;
              })
              (λ w t m. ok-Post w.entry (complete a.proof t) (
                let (p, e) = check_decision-held a s _ h in
                is_completed-complete a.proof p t
                  (ap (get a.proof) (append_completion outcome at address s t w m) ∙ e))))))

  -- Once the outcome of a run is on the record, no call puts another one there for the same
  -- authorization, whatever was called in between: the ledger refuses and stays as it is.
  pub record_outcome-once :
      (before : ℕ) (outcome again : Outcome) (at address later elsewhere : ℕ) (s t u : State)
      (entry : Entry)
      → Moves codec accepts genesis limits before (new genesis) s
      → record_outcome codec accepts genesis limits outcome at address s ≡ (t, ok entry)
      → get address s.heap ≡ none
      → Moves codec accepts genesis limits outcome.authorization.proof t u
      → again.authorization ≡ outcome.authorization
      → (e : AuditError) × (record_outcome codec accepts genesis limits again later elsewhere u
          ≡ (u, err e))
  unfolding apply
  record_outcome-once before outcome again at address later elsewhere s t u entry run w n more
        same =
      let v = Moves-IsSound codec accepts genesis limits before s run in
      let proof = outcome.authorization.proof in
      let call = record_outcome codec accepts genesis limits outcome at address s in
      let completed : is_completed proof call.0 ≡ true =
        (record_outcome-Post outcome at address s v).on_ok entry (ap (λ r. r.1) w) in
      let sound : IsSound codec limits call.0 =
        (apply-Kept codec accepts genesis limits proof (Call.outcome outcome) at address s v
          n).sound in
      let left : call.0 ≡ t = ap (λ r. r.0) w in
      let kept =
        Moves-Kept codec accepts genesis limits proof t u (subst (IsSound codec limits) left sound)
          more in
      record_outcome_again again later elsewhere u (
        subst (λ a. is_completed a.proof u ≡ true) (sym same)
          (kept.completed (subst (λ x. is_completed proof x ≡ true) left completed)))
