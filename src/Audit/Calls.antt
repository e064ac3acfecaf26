-- ===== src/Audit/Calls.antt =====
-- What each call on a ledger keeps, and what any run of them keeps.
use mcp_ssh_rs.Prelude.{
  ℕ, zero, suc, ◌≡◌, refl, ap, ◌∙◌, Bool, true, false, Option, none, some, length, arith, Result,
  ok, err, if◌then◌else◌, nat_eq, nat_beq_iff,
}
use mcp_ssh_rs.Text.{Text, text_eq}
use mcp_ssh_rs.Dict.{get, values, get-remove}
use mcp_ssh_rs.Policy.{Decision}
use mcp_ssh_rs.Session.{Session}
use mcp_ssh_rs.Approval.{Grant, Answer}
use mcp_ssh_rs.Run.{Outcome}
use mcp_ssh_rs.Audit.{Attribution, AuditError, Authorization, EvaluationArtifact, Event, Entry}
use mcp_ssh_rs.Audit.State.{State, Limits, ReadableDecision, Action, next, ◌>>=◌, lift}
use mcp_ssh_rs.Audit.Retention.{Codec, seal, reclaim}
use mcp_ssh_rs.Audit.Ledger.{
  Intent, append_to, record_intent, record_approval, record_answer, record_outcome,
  record_cancellation, record_session_opened, record_session_closed, record_session_terminated,
  this_deliberation, this_records_decision,
}
use mcp_ssh_rs.Audit.Assessing.{record_evaluation, record_new, write_evaluation}
use mcp_ssh_rs.Audit.Verify.{seal_before, seal_lower}
use mcp_ssh_rs.Audit.Moves.{Call, apply, Move, Moves}
use mcp_ssh_rs.Audit.Soundness.{IsSound, IsSound-indexes, Tidied, seal-Tidies}
use mcp_ssh_rs.Audit.Pinned.{bytes_of-removed}
use mcp_ssh_rs.Audit.Room.{reclaim-Tidies}
use mcp_ssh_rs.Audit.Kept.{
  Kept, same_log, Kept_refl, Kept_trans, Tidied-Kept, Steady, Keeps, IsQuiet, quiet-Steady,
  bind-Steady, quiet-Keeps, Keeps-Steady, fail_if-IsQuiet, gets-IsQuiet, lift-IsQuiet, pure-IsQuiet,
  modify-Steady, prune_indexes-Kept, index_decision-Kept, complete-Kept, index_evaluation-Kept,
  append_to-Kept,
}

module _ (codec : Codec) (accepts : Entry → Bool) (genesis : Text) (limits : Limits)
    (kept : ℕ) where
  appending :
      (who : Attribution) (event : Event) (at address : ℕ)
      → Keeps codec limits kept address
          (append_to codec accepts genesis limits who event at address)
  appending who event at address = record {
    keeps = append_to-Kept codec limits kept accepts genesis who event at address;
  }

  reading_asked :
      (decided : ℕ) (digest session : Text)
      → IsQuiet codec limits kept (this_deliberation decided digest session)
  unfolding this_deliberation
  reading_asked decided digest session = record { same = λ s. refl }

  reading_allowed :
      (authorized : Authorization) → IsQuiet codec limits kept (this_records_decision authorized)
  unfolding this_records_decision
  reading_allowed authorized = record { same = λ s. refl }

  reclaiming : (now : ℕ) → Steady codec limits kept (reclaim codec now limits)
  reclaiming now = record {
    keeps = λ s v. Tidied-Kept codec limits kept s _ (reclaim-Tidies codec limits now s v);
  }

ruleset keeping = (
  Keeps-Steady, bind-Steady, quiet-Keeps, quiet-Steady, appending, modify-Steady, reading_asked,
  reading_allowed, lift-IsQuiet, pure-IsQuiet, gets-IsQuiet, fail_if-IsQuiet, index_decision-Kept,
  complete-Kept, index_evaluation-Kept,
)

module _ (codec : Codec) (accepts : Entry → Bool) (genesis : Text) (limits : Limits)
    (kept : ℕ) where
  record_intent-Keeps :
      (decision : Decision) (intended : Text) (at address : ℕ)
      → Keeps codec limits kept address
          (record_intent codec accepts genesis limits decision intended at address)
  unfolding record_intent
  record_intent-Keeps decision intended at address = search keeping

  record_approval-Keeps :
      (intended : Intent) (grant : Grant) (at address : ℕ)
      → Keeps codec limits kept address
          (record_approval codec accepts genesis limits intended grant at address)
  unfolding record_approval
  record_approval-Keeps intended grant at address = search keeping depth 9

  record_answer-Keeps :
      (given : Answer) (at address : ℕ)
      → Keeps codec limits kept address
          (record_answer codec accepts genesis limits given at address)
  unfolding record_answer
  record_answer-Keeps given at address = search keeping depth 9

  record_outcome-Keeps :
      (outcome : Outcome) (at address : ℕ)
      → Keeps codec limits kept address
          (record_outcome codec accepts genesis limits outcome at address)
  unfolding record_outcome
  record_outcome-Keeps outcome at address = search keeping depth 9

  record_cancellation-Keeps :
      (run : Text) (authorized : Authorization) (at address : ℕ)
      → Keeps codec limits kept address
          (record_cancellation codec accepts genesis limits run authorized at address)
  unfolding record_cancellation
  record_cancellation-Keeps run authorized at address = search keeping depth 9

  record_session_opened-Keeps :
      (held : Session) (at address : ℕ)
      → Keeps codec limits kept address
          (record_session_opened codec accepts genesis limits held at address)
  unfolding record_session_opened
  record_session_opened-Keeps held at address = search keeping

  record_session_closed-Keeps :
      (held : Session) (at address : ℕ)
      → Keeps codec limits kept address
          (record_session_closed codec accepts genesis limits held at address)
  unfolding record_session_closed
  record_session_closed-Keeps held at address = search keeping

  record_session_terminated-Keeps :
      (held : Session) (operator : Text) (at address : ℕ)
      → Keeps codec limits kept address
          (record_session_terminated codec accepts genesis limits held operator at address)
  unfolding record_session_terminated
  record_session_terminated-Keeps held operator at address = search keeping

  write_evaluation-Keeps :
      (artifact : EvaluationArtifact) (at address : ℕ) (decision : Option ReadableDecision)
      → Keeps codec limits kept address
          (write_evaluation codec accepts genesis limits artifact at address decision)
  write_evaluation-Keeps artifact at address none = record {
    keeps = λ s v n. Kept_refl codec limits kept s v;
  }
  write_evaluation-Keeps artifact at address (some decision) = search keeping

  record_new-Keeps :
      (artifact : EvaluationArtifact) (at address : ℕ)
      → Keeps codec limits kept address
          (record_new codec accepts genesis limits artifact at address)
  unfolding record_new
  record_new-Keeps artifact at address = search (keeping, write_evaluation-Keeps) depth 9

  retry_or-Keeps :
      (used : Bool) (artifact : EvaluationArtifact) (again : Result AuditError Entry)
      (at address : ℕ)
      → Keeps codec limits kept address
          (if used then lift again else record_new codec accepts genesis limits artifact at address)
  retry_or-Keeps true artifact again at address = record {
    keeps = λ s v n. Kept_refl codec limits kept s v;
  }
  retry_or-Keeps false artifact again at address = record_new-Keeps artifact at address

  reclaim-Keeps :
      {A : Type 0} (now address : ℕ) (f : Unit {0} → Action A)
      → ((a : Unit {0}) → Keeps codec limits kept address (f a))
      → Keeps codec limits kept address (reclaim codec now limits >>= f)
  reclaim-Keeps now address f k = record {
    keeps = λ s v n. after s (reclaim codec now limits s) (reclaim-Tidies codec limits now s v) n;
  }
    where
      after :
          (s : State) (r : State × Result AuditError (Unit {0}))
          → Tidied codec limits s r.0
          → get address s.heap ≡ none
          → Kept codec limits kept s (next f r).0
      after s (t, ok a) h n =
          Kept_trans codec limits kept (Tidied-Kept codec limits kept s t h)
            ((k a).keeps t h.sound (ap (get address) h.heap ∙ n))
      after s (t, err e) h n = Tidied-Kept codec limits kept s t h

  record_evaluation-Keeps :
      (artifact : EvaluationArtifact) (now at address : ℕ)
      → Keeps codec limits kept address
          (record_evaluation codec accepts genesis limits artifact now at address)
  unfolding record_evaluation
  record_evaluation-Keeps artifact now at address =
      search (reclaim-Keeps, quiet-Keeps, gets-IsQuiet, retry_or-Keeps)

  seal_lower-Kept :
      (sequence rounds i : ℕ) (s t : State)
      → Kept codec limits kept s t
      → Kept codec limits kept s (seal_lower codec sequence rounds i t)
  unfolding seal_lower
  seal_lower-Kept sequence zero i s t h = h
  seal_lower-Kept sequence (suc rounds) i s t h =
      seal_lower-Kept sequence rounds (suc i) s _ (sealed_if _ i s t h)
    where
      sealed_if :
          (b : Bool) (i : ℕ) (s t : State)
          → Kept codec limits kept s t
          → Kept codec limits kept s (if b then (seal codec i t).0 else t)
      sealed_if true i s t h =
          Kept_trans codec limits kept h
            (Tidied-Kept codec limits kept t _ (seal-Tidies codec limits i t h.sound))
      sealed_if false i s t h = h

  seal_before-Kept :
      (sequence : ℕ) (s : State)
      → IsSound codec limits s
      → Kept codec limits kept s (seal_before codec sequence s)
  unfolding seal_before
  seal_before-Kept sequence s v =
      let h = seal_lower-Kept sequence (length s.entries) 0 s s (Kept_refl codec limits kept s v) in
      Kept_trans codec limits kept h (prune_indexes-Kept codec limits kept _ h.sound)

  -- Whatever is called, and whether it succeeds or not.
  pub apply-Kept :
      (call : Call) (at address : ℕ) (s : State)
      → IsSound codec limits s
      → get address s.heap ≡ none
      → Kept codec limits kept s (apply codec accepts genesis limits call at address s)
  unfolding apply
  apply-Kept (Call.intent decision intended) at address s v n =
      (record_intent-Keeps decision intended at address).keeps s v n
  apply-Kept (Call.approval intended grant) at address s v n =
      (record_approval-Keeps intended grant at address).keeps s v n
  apply-Kept (Call.answer given) at address s v n =
      (record_answer-Keeps given at address).keeps s v n
  apply-Kept (Call.outcome what) at address s v n =
      (record_outcome-Keeps what at address).keeps s v n
  apply-Kept (Call.cancellation run authorized) at address s v n =
      (record_cancellation-Keeps run authorized at address).keeps s v n
  apply-Kept (Call.opened held) at address s v n =
      (record_session_opened-Keeps held at address).keeps s v n
  apply-Kept (Call.closed held) at address s v n =
      (record_session_closed-Keeps held at address).keeps s v n
  apply-Kept (Call.terminated held operator) at address s v n =
      (record_session_terminated-Keeps held operator at address).keeps s v n
  apply-Kept (Call.evaluation artifact now) at address s v n =
      (record_evaluation-Keeps artifact now at address).keeps s v n
  apply-Kept (Call.sealing sequence) at address s v n = seal_before-Kept sequence s v
  apply-Kept Call.reclaiming at address s v n =
      (reclaiming codec accepts genesis limits kept at).keeps s v

  pub Move-Kept :
      (s t : State)
      → IsSound codec limits s
      → Move codec accepts genesis limits kept s t
      → Kept codec limits kept s t
  Move-Kept s t v (Move.called call at address n) = apply-Kept call at address s v n
  Move-Kept s t v (Move.dropped address d) = record {
    sound = IsSound-indexes codec limits s _ _ _ v (omega arith);
    grows = omega arith;
    secured = λ p. ground (arith, p, bytes_of-removed s.heap address (values s.proofs));
    logged = λ log l. same_log log _ (record { held = l.held; within = l.within });
    completed = λ c. ground (arith, get-remove address kept s.heap, nat_beq_iff address kept, d, c);
  }

  pub Moves-Kept :
      (s t : State)
      → IsSound codec limits s
      → Moves codec accepts genesis limits kept s t
      → Kept codec limits kept s t
  Moves-Kept s t v Moves.stayed = Kept_refl codec limits kept s v
  Moves-Kept s t v (Moves.moved {t = u} before move) =
      let h = Moves-Kept s u v before in Kept_trans codec limits kept h (Move-Kept u t h.sound move)
