-- ===== src/Audit/Granting.antt =====
-- `Ledger::record_approval` of crates/ssh-core/src/audit.rs: what a recorded approval rests on.
use mcp_ssh_rs.Prelude.{
  ℕ, ◌≡◌, refl, sym, subst, ap, ◌∙◌, Bool, false, not, none, some, arith, ok, if◌then◌else◌, ◌==◌,
  nat_eq,
}
use mcp_ssh_rs.Text.{Text, text_eq}
use mcp_ssh_rs.Policy.{Verdict, permit, needs_approval, deny}
use mcp_ssh_rs.Approval.{Grant, Approver}
use mcp_ssh_rs.Digest.{digest_action}
use mcp_ssh_rs.Audit.{AuditError, Entry, Event, Receipt, attribution_of, intact}
use mcp_ssh_rs.Audit.State.{
  State, Limits, entry_at, Action, next, fail_if, fail_if-Post, lift, pure, ◌>>=◌, ◌>>◌, Post,
  ok-Post, next-Post, lift-Post,
}
use mcp_ssh_rs.Audit.Retention.{Codec, Written}
use mcp_ssh_rs.Audit.Ledger.{
  Intent, append_to, record_approval, this_deliberation, check_deliberation, named, answerer_of,
  is_needs_approval, pins, allows, receipt_for, authorization_of,
}
use mcp_ssh_rs.Audit.Soundness.{IsSound}
use mcp_ssh_rs.Audit.Append.{Made, append_to-Post}
use mcp_ssh_rs.Audit.Receipts.{Stands, authorization_of-Stands, receipt_for-some}
use mcp_ssh_rs.Audit.Questions.{Question, this_deliberation-Question}

module _ (codec : Codec) (accepts : Entry → Bool) (genesis : Text) (limits : Limits) where
  -- What a receipt for an approved action rests on.
  pub record Granted (intended : Intent) (grant : Grant) (s : State) (receipt : Receipt) (t : State)
      : Type 0 where
    -- The policy asked for a human, about this action and intent, in this session.
    pub asked : intended.decision.verdict ≡ needs_approval
    pub bound :
        grant.action ≡ digest_action codec.sha256 intended.decision.action intended.agent_intent
    pub session : grant.session ≡ intended.decision.session.id
    pub question : Question grant.decided grant.decided_digest intended.decision.session.id s
    -- The approval is on the record as well, with who gave it.
    pub entry : Entry
    pub written : entry_at receipt.authorization.sequence t ≡ some (intact entry)
    pub event :
        entry.event ≡ Event.approved grant.decided grant.request (answerer_of grant.approver)
    pub next : entry.sequence ≡ s.issued.total
    -- The receipt is for the action, and an outcome may be recorded under it.
    pub same_action : receipt.action ≡ intended.decision.action
    pub stands : Stands codec accepts genesis limits receipt.authorization t

  is_needs_approval-only : (v : Verdict) → not (is_needs_approval v) ≡ false → v ≡ needs_approval
  is_needs_approval-only needs_approval h = refl
  is_needs_approval-only permit h = absurd (cc h)
  is_needs_approval-only deny h = absurd (cc h)

  granted :
      (intended : Intent) (grant : Grant) (at address : ℕ) (s t : State) (w : Written)
      → Made codec accepts genesis limits
          (attribution_of intended.decision.session)
          (Event.approved grant.decided grant.request (answerer_of grant.approver))
          at
          address
          s
          w
          t
      → (receipt_for intended.decision w
          ≡ ok (record {
            authorization =
                authorization_of w.entry (attribution_of intended.decision.session) address;
            action = intended.decision.action;
          }))
        × Stands codec accepts genesis limits
            (authorization_of w.entry (attribution_of intended.decision.session) address)
            t
  granted intended grant at address s t w (a, e) =
      let event = ap (λ x. x.event) e in
      let pinned = ap pins event in
      let kept : w.proof ≡ some address =
        a.proof ∙ ap (λ b. if b then some address else none) pinned in
      (
        receipt_for-some intended.decision w address kept,
        authorization_of-Stands codec accepts genesis limits
            (attribution_of intended.decision.session) w address s t a pinned (ap allows event),
      )

  -- An approval that is recorded on a sound ledger was asked for, by the policy's verdict, of this very
  -- action, intent and session. The entry that the grant names has the digest that the grant names,
  -- which is the one the ledger issued there if the entry is still in its window, and if it can be read
  -- it put a decision of this session to a human. The approval is the next entry, with who gave it; the
  -- receipt is for the action, and an outcome may be recorded under it.
  pub record_approval-Granted :
      (intended : Intent) (grant : Grant) (at address : ℕ) (s t : State) (receipt : Receipt)
      (approver : Approver)
      → IsSound codec limits s
      → record_approval codec accepts genesis limits intended grant at address s
        ≡ (t, ok (receipt, approver))
      → Granted intended grant s receipt t
  unfolding record_approval this_deliberation
  record_approval-Granted intended grant at address s t receipt approver v r =
      let d = intended.decision in
      let who = attribution_of d.session in
      let event = Event.approved grant.decided grant.request (answerer_of grant.approver) in
      let h = append_to-Post codec accepts genesis limits who event at address s v in
      let minting : Action (Receipt × Approver) =
        append_to codec accepts genesis limits who event at address >>= λ w.
        (lift (receipt_for d w) >>= λ receipt. pure (receipt, grant.approver)) in
      let asking : Action (Receipt × Approver) =
        this_deliberation grant.decided grant.decided_digest d.session.id >> minting in
      let same_session : Action (Receipt × Approver) =
        fail_if (not (grant.session == d.session.id)) (AuditError.not_its_approval grant.decided)
        >> asking in
      let same_action : Action (Receipt × Approver) =
        fail_if (not (grant.action == digest_action codec.sha256 d.action intended.agent_intent))
          (AuditError.not_its_approval grant.decided)
        >> same_session in
      let post : Post (λ (a : Receipt × Approver) u. Granted intended grant s a.0 u) (λ _. Unit {0})
          (record_approval codec accepts genesis limits intended grant at address s) =
        fail_if-Post (not (is_needs_approval d.verdict)) _ same_action s tt (λ asked.
          fail_if-Post
            (not (grant.action == digest_action codec.sha256 d.action intended.agent_intent)) _
            same_session s tt
            (λ bound. fail_if-Post (not (grant.session == d.session.id)) _ asking s tt (λ session.
              lift-Post
                (check_deliberation grant.decided grant.decided_digest d.session.id
                  (named grant.decided s))
                (λ _. minting) s tt
                (λ _ recorded.
                  next-Post _ (append_to codec accepts genesis limits who event at address s)
                    (record { on_ok = h.on_ok; on_err = λ _ _. tt })
                    (λ w u m.
                      let (minted, stands) = granted intended grant at address s u w m in
                      subst
                        (λ x.
                          Post (λ (a : Receipt × Approver) u. Granted intended grant s a.0 u)
                            (λ _. Unit {0})
                            (next (λ receipt. pure (receipt, grant.approver)) (u, x)))
                        (sym minted)
                        (ok-Post _ u (record {
                          asked = is_needs_approval-only d.verdict asked;
                          bound = ground (
                            arith,
                            bound,
                            text_eq.beq_iff grant.action
                                (digest_action codec.sha256 d.action intended.agent_intent),
                          );
                          session =
                              ground (arith, session, text_eq.beq_iff grant.session d.session.id);
                          question =
                              this_deliberation-Question codec limits grant.decided
                                grant.decided_digest d.session.id s v recorded;
                          entry = w.entry;
                          written = m.0.found (ap (λ x. pins x.event) m.1);
                          event = ap (λ x. x.event) m.1;
                          next = ap (λ x. x.sequence) m.1;
                          same_action = refl;
                          stands = stands;
                        }))))))) in
      subst (λ x. Granted intended grant s receipt x) (ap (λ x. x.0) r)
        (post.on_ok (receipt, approver) (ap (λ x. x.1) r))
