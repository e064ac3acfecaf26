-- ===== src/Examples/Receipts.antt =====
-- A ledger that records a decision, its outcome, and the answer of a human.
use mcp_ssh_rs.Prelude.{◌≡◌, ◌↔◌, refl, false, none, some, [], ◌∷◌, ok, err, nat_eq}
use mcp_ssh_rs.Text.{text, bytes, char_bytes}
use mcp_ssh_rs.Dict.{get, insert, retain, values}
use mcp_ssh_rs.Action.{execute_action, kind, as_str}
use mcp_ssh_rs.Command.{program}
use mcp_ssh_rs.Policy.{ReviewMode, MustReview, Decision, decide_action}
use mcp_ssh_rs.Digest.{
  hex, digest_action, digest_parts, preimage, arguments, as_bytes, le_bytes, utf8_char,
}
use mcp_ssh_rs.Approval.{Grant, Approver}
use mcp_ssh_rs.Run.{Outcome, RunState, Stream, debug_state, record_output, moved_file}
use mcp_ssh_rs.Audit.{AuditError, Authorization, Entry, Receipt}
use mcp_ssh_rs.Audit.State.{State, active_proof}
use mcp_ssh_rs.Audit.Retention.{
  digest_of, encoded_bytes, prepare, reclaim, seal_expired, make_room, retire_until, seal_until,
  prune_indexes, commit, take_in, check, check_content,
}
use mcp_ssh_rs.Audit.Ledger.{
  Intent, decided_event, completion_of, append_to, append_hashed, record_intent, record_approval,
  record_outcome, this_records_decision, this_deliberation, complete, index_decision,
}
use mcp_ssh_rs.Audit.Moves.{Call, Move, Moves, apply}
use mcp_ssh_rs.Audit.Record.{Moves-IsSound}
use mcp_ssh_rs.Audit.Receipts.{Minted, record_intent-Minted}
use mcp_ssh_rs.Audit.Reviewed.{record_intent-review}
use mcp_ssh_rs.Audit.Granting.{Granted, record_approval-Granted}
use mcp_ssh_rs.Audit.Completion.{record_outcome-once}
use mcp_ssh_rs.Examples.Sessions.{held, alice, id_a}
use mcp_ssh_rs.Examples.Ledger.{
  codec, accepts, genesis, limits, permitted, who, started, intended, intended-Moves,
}

abbrev decided_entry : Decision → Entry
decided_entry decision = record {
  sequence = 0;
  at = 6;
  session = id_a;
  principal = alice;
  host = text "web-1";
  role = text "ops";
  event = decided_event decision (text "look");
  previous = genesis;
  digest = hex (0 ∷ 6 ∷ []);
}

abbrev pub authorization : Authorization
authorization = record { sequence = 0; digest = hex (0 ∷ 6 ∷ []); who = who; proof = 1 }

abbrev minted : Intent
minted = record {
  entry = decided_entry permitted;
  decision = permitted;
  agent_intent = text "look";
  receipt = some (record { authorization = authorization; action = permitted.action });
  proof = some 1;
}

records_intent :
    record_intent codec accepts genesis limits permitted (text "look") 6 1 started
    ≡ (intended, ok minted)
unfolding apply record_intent append_to append_hashed prepare reclaim seal_expired make_room
    retire_until seal_until prune_indexes commit take_in digest_of encoded_bytes hex retain values
    index_decision decide_action get insert kind program
records_intent = refl

record_intent-Minted_example :
    Minted codec accepts genesis limits permitted (text "look") started minted intended
record_intent-Minted_example =
    record_intent-Minted codec accepts genesis limits permitted (text "look") 6 1 started intended
      minted (Moves-IsSound codec accepts genesis limits 7 started Moves.stayed) records_intent

-- Nothing has to be reviewed, and the receipt is there.
record_intent-review_example :
    (minted.receipt ≡ none) ↔ MustReview ReviewMode.disabled held.access_class
record_intent-review_example =
    record_intent-review codec accepts genesis limits ReviewMode.disabled held
      (execute_action (record { argv = text "ls" ∷ [] })) (text "look") 6 1 started intended minted
      (Moves-IsSound codec accepts genesis limits 7 started Moves.stayed) records_intent

abbrev empty_stream : Stream
empty_stream = record { text = []; truncated = false; bytes = 0; matched = none }

abbrev finished : Outcome
finished = record {
  run = text "run1";
  authorization = authorization;
  state = RunState.exited 0;
  stdout = empty_stream;
  stderr = empty_stream;
  file = none;
  info = none;
}

abbrev finishing : State
finishing = (record_outcome codec accepts genesis limits finished 9 2 intended).0

abbrev finished_entry : Entry
finished_entry = record {
  sequence = 1;
  at = 9;
  session = id_a;
  principal = alice;
  host = text "web-1";
  role = text "ops";
  event = completion_of finished;
  previous = hex (0 ∷ 6 ∷ []);
  digest = hex (1 ∷ 9 ∷ []);
}

records_outcome :
    record_outcome codec accepts genesis limits finished 9 2 intended
    ≡ (finishing, ok finished_entry)
unfolding apply record_intent append_to append_hashed prepare reclaim seal_expired make_room
    retire_until seal_until prune_indexes commit take_in digest_of encoded_bytes hex retain values
    index_decision decide_action get insert kind program record_outcome this_records_decision
    active_proof complete record_output moved_file debug_state check check_content
records_outcome = refl

free_address : get 2 intended.heap ≡ none
unfolding apply record_intent append_to append_hashed prepare reclaim seal_expired make_room
    retire_until seal_until prune_indexes commit take_in digest_of encoded_bytes hex retain values
    index_decision decide_action get insert kind program
free_address = refl

record_outcome-once_example :
    (e : AuditError) × (record_outcome codec accepts genesis limits finished 12 3 finishing
      ≡ (finishing, err e))
record_outcome-once_example =
    record_outcome-once codec accepts genesis limits 1 finished finished 9 2 12 3 intended finishing
      finishing finished_entry intended-Moves records_outcome free_address Moves.stayed refl

-- A decision that asks for a human, and the grant that carol gives for it.
abbrev held_back : Decision
held_back = decide_action ReviewMode.all held (execute_action (record { argv = text "ls" ∷ [] }))

abbrev asking : State
asking = apply codec accepts genesis limits (Call.intent held_back (text "look")) 6 1 started

asking-Moves : Moves codec accepts genesis limits 1 started asking
unfolding get
asking-Moves = Moves.moved Moves.stayed (Move.called (Call.intent held_back (text "look")) 6 1 refl)

abbrev asked : Intent
asked = record {
  entry = decided_entry held_back;
  decision = held_back;
  agent_intent = text "look";
  receipt = none;
  proof = some 1;
}

abbrev grant : Grant
grant = record {
  proof = none;
  request = text "r1";
  session = id_a;
  approver = Approver.human (text "carol");
  action = digest_action codec.sha256 held_back.action (text "look");
  decided = 0;
  decided_digest = hex (0 ∷ 6 ∷ []);
}

abbrev approving : State
approving = (record_approval codec accepts genesis limits asked grant 8 2 asking).0

abbrev receipt : Receipt
receipt = record {
  authorization = record { sequence = 1; digest = hex (1 ∷ 8 ∷ []); who = who; proof = 2 };
  action = held_back.action;
}

records_approval :
    record_approval codec accepts genesis limits asked grant 8 2 asking
    ≡ (approving, ok (receipt, Approver.human (text "carol")))
unfolding apply record_intent append_to append_hashed prepare reclaim seal_expired make_room
    retire_until seal_until prune_indexes commit take_in digest_of encoded_bytes hex retain values
    index_decision decide_action get insert kind program record_approval this_deliberation
    active_proof digest_action digest_parts preimage arguments as_bytes le_bytes utf8_char check
    check_content bytes char_bytes as_str execute_action
records_approval = refl

record_approval-Granted_example :
    Granted codec accepts genesis limits asked grant asking receipt approving
record_approval-Granted_example =
    record_approval-Granted codec accepts genesis limits asked grant 8 2 asking approving receipt
      (Approver.human (text "carol"))
      (Moves-IsSound codec accepts genesis limits 1 asking asking-Moves) records_approval
