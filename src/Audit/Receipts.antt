-- ===== src/Audit/Receipts.antt =====
-- What a receipt of crates/ssh-core/src/audit.rs stands for.
use mcp_ssh_rs.Prelude.{
  ℕ, ◌≡◌, refl, sym, subst, ap, ◌∙◌, Bool, true, false, Option, none, some, ok, if◌then◌else◌,
  Bool-cases, inl, inr, nat_beq_iff, eq_refl, nat_eq,
}
use mcp_ssh_rs.Text.{Text, text_eq}
use mcp_ssh_rs.Policy.{Decision, Verdict, permit, needs_approval, deny}
use mcp_ssh_rs.Audit.{Attribution, Authorization, Entry, Proof, Receipt, attribution_of, intact}
use mcp_ssh_rs.Audit.State.{
  State, Limits, next, pure, Post, ok-Post, next-Post, entry_at, active_proof,
}
use mcp_ssh_rs.Audit.Retention.{Codec, Written, is_readable}
use mcp_ssh_rs.Audit.Ledger.{
  Intent, append_to, record_intent, index_decision, decided_event, is_permit, pins, allows,
  check_decision, this_records_decision, receipt_for, some_of, asks_or_permits, authorization_of,
}
use mcp_ssh_rs.Audit.Soundness.{IsSound}
use mcp_ssh_rs.Audit.Append.{Appended, Made, append_to-Post}

is_permit-pins : (v : Verdict) → is_permit v ≡ true → asks_or_permits v ≡ true
is_permit-pins permit h = refl
is_permit-pins needs_approval h = refl
is_permit-pins deny h = h

check_decision_own :
    (entry : Entry) (who : Attribution) (address : ℕ) (made : Proof)
    → made.entry ≡ entry
    → allows entry.event ≡ true
    → check_decision
        (authorization_of entry who address)
        (some (intact entry))
        (some (address, made))
      ≡ ok tt
check_decision_own entry who address made e l =
    rw ((nat_beq_iff address address).1 refl, ap (λ x. x.digest) e, eq_refl entry.digest, l) refl

-- The receipt of an entry whose proof was kept.
pub receipt_for-some :
    (decision : Decision) (w : Written) (address : ℕ)
    → w.proof ≡ some address
    → receipt_for decision w
      ≡ ok (record {
        authorization = authorization_of w.entry (attribution_of decision.session) address;
        action = decision.action;
      })
receipt_for-some decision w address h = rw h refl

module _ (codec : Codec) (accepts : Entry → Bool) (genesis : Text) (limits : Limits) where
  -- A run may be recorded under an authorization.
  abbrev pub Stands : Authorization → State → Type 0
  Stands authorization t = (this_records_decision authorization t).1 ≡ ok tt

  -- The entry that was just written is found by the authorization that it makes, if it allows a run.
  pub authorization_of-Stands :
      (who : Attribution) (w : Written) (address : ℕ) (s t : State)
      → Appended codec accepts limits address w.entry s w t
      → pins w.entry.event ≡ true
      → allows w.entry.event ≡ true
      → Stands (authorization_of w.entry who address) t
  unfolding this_records_decision
  authorization_of-Stands who w address s t a p l =
      let authorized = authorization_of w.entry who address in
      let made : Proof = record { entry = w.entry; bytes = a.bytes; completed = false } in
      ap (λ h. check_decision authorized h (active_proof w.entry.sequence t)) (a.found p)
      ∙ ap (λ q. check_decision authorized (some (intact w.entry)) q) (a.active p)
      ∙ check_decision_own w.entry who address made refl l

  index_decision-Stands :
      (decision : Decision) (intended : Text) (entry : Entry) (a : Authorization) (t : State)
      → Stands a t
      → Stands a (index_decision decision intended entry t)
  unfolding index_decision this_records_decision active_proof
  index_decision-Stands decision intended entry a t h =
      elim (Bool-cases (is_readable (entry_at entry.sequence t))) [
        | inl e ↦ rw e h
        | inr e ↦ rw e h
      ]

  -- What a recorded decision hands out: a receipt where the decision permits, which is for the action
  -- that was decided and under which an outcome may be recorded, and none otherwise.
  abbrev pub Answers : Bool → Decision → Option Receipt → State → Type 0
  Answers true decision (some receipt) t =
      (receipt.action ≡ decision.action) × Stands receipt.authorization t
  Answers true decision none t = ⊥
  Answers false decision receipt t = receipt ≡ none

  pub record Minted (decision : Decision) (intended : Text) (s : State) (i : Intent) (t : State)
      : Type 0 where
    pub accepted : accepts i.entry ≡ true
    pub number : i.entry.sequence ≡ s.issued.total
    pub event : i.entry.event ≡ decided_event decision intended
    pub answers : Answers (is_permit decision.verdict) decision i.receipt t

  minted :
      (permits : Bool) (decision : Decision) (intended : Text) (at address : ℕ) (s t : State)
      (w : Written)
      → is_permit decision.verdict ≡ permits
      → Made codec accepts genesis limits
          (attribution_of decision.session)
          (decided_event decision intended)
          at
          address
          s
          w
          t
      → let after = index_decision decision intended w.entry t in
        Post
          (Minted decision intended s)
          (λ _. Unit {0})
          (next
            (λ receipt. pure (record {
              entry = w.entry;
              decision = decision;
              agent_intent = intended;
              receipt = receipt;
              proof = w.proof;
            }))
            (after, (if permits then some_of (receipt_for decision w) else ok none)))
  minted true decision intended at address s t w p (a, e) =
      let event : w.entry.event ≡ decided_event decision intended = ap (λ x. x.event) e in
      let pinned : pins w.entry.event ≡ true = ap pins event ∙ is_permit-pins decision.verdict p in
      let kept : w.proof ≡ some address =
        a.proof ∙ ap (λ b. if b then some address else none) pinned in
      rw (receipt_for-some decision w address kept) (
        ok-Post _ _ (record {
          accepted = a.accepted;
          number = a.goes_on.sequence;
          event = event;
          answers =
              subst
                (λ b.
                  Answers b decision
                    (some (record {
                      authorization =
                          authorization_of w.entry (attribution_of decision.session) address;
                      action = decision.action;
                    }))
                    (index_decision decision intended w.entry t))
                (sym p)
                (
                  refl,
                  index_decision-Stands decision intended w.entry _ t (
                      authorization_of-Stands (attribution_of decision.session) w address s t a
                        pinned (ap allows event ∙ p)),
                );
        }))
  minted false decision intended at address s t w p (a, e) = ok-Post _ _ (record {
    accepted = a.accepted;
    number = a.goes_on.sequence;
    event = ap (λ x. x.event) e;
    answers = rw p refl;
  })

  -- Recording an intent on a sound ledger, when it succeeds: the boundary took the entry, which is the
  -- next one and says what was decided. A receipt is handed out exactly where the decision permits; it
  -- is for the action that was decided, and an outcome may be recorded under it.
  pub record_intent-Minted :
      (decision : Decision) (intended : Text) (at address : ℕ) (s t : State) (i : Intent)
      → IsSound codec limits s
      → record_intent codec accepts genesis limits decision intended at address s ≡ (t, ok i)
      → Minted decision intended s i t
  unfolding record_intent
  record_intent-Minted decision intended at address s t i v r =
      let who = attribution_of decision.session in
      let appended =
        append_to codec accepts genesis limits who (decided_event decision intended) at address s in
      let h =
        append_to-Post codec accepts genesis limits who (decided_event decision intended) at address
          s v in
      let weak : Post
          (Made codec accepts genesis limits who (decided_event decision intended) at address s)
          (λ _. Unit {0}) appended =
        record { on_ok = h.on_ok; on_err = λ _ _. tt } in
      let post : Post (Minted decision intended s) (λ _. Unit {0})
          (record_intent codec accepts genesis limits decision intended at address s) =
        next-Post _ appended weak (λ w u m.
          minted (is_permit decision.verdict) decision intended at address s u w refl m) in
      subst (λ x. Minted decision intended s i x) (ap (λ x. x.0) r) (post.on_ok i (ap (λ x. x.1) r))
