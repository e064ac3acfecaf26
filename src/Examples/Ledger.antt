-- ===== src/Examples/Ledger.antt =====
-- A ledger that records the opening of a session, and an intent.
use mcp_ssh_rs.Prelude.{
  false, ◌≡◌, ◌⊎◌, refl, Bool, true, some, List, [], ◌∷◌, ◌++◌, length, map, ok, err, arith, nat_eq,
}
use mcp_ssh_rs.Text.{Text, text}
use mcp_ssh_rs.Dict.{get, retain}
use mcp_ssh_rs.Action.{execute_action}
use mcp_ssh_rs.Policy.{ReviewMode, Decision, decide_action}
use mcp_ssh_rs.Digest.{hex}
use mcp_ssh_rs.Audit.{AuditError, Attribution, Broken, Entry, Event, attribution_of, intact, sealed}
use mcp_ssh_rs.Audit.State.{State, Limits, new, get_at}
use mcp_ssh_rs.Audit.Retention.{
  Codec, Written, digest_of, encoded_bytes, prepare, reclaim, seal_expired, make_room, retire_until,
  seal_until, prune_indexes, commit, take_in, has_room,
}
use mcp_ssh_rs.Audit.Ledger.{append_to, append_hashed, record_session_opened}
use mcp_ssh_rs.Audit.Verify.{verify}
use mcp_ssh_rs.Audit.Moves.{Call, Move, Moves, apply}
use mcp_ssh_rs.Audit.Record.{Moves-IsSound, verify-Moves, verify-replaced, Moves-Logged, SameDigest}
use mcp_ssh_rs.Audit.Checking.{IsAsIssued, report, verify_lem}
use mcp_ssh_rs.Audit.Always.{append_to-always}
use mcp_ssh_rs.Examples.Sessions.{held, alice, id_a}
use mcp_ssh_rs.Audit.Soundness.{IsSound, Logged, head}
use mcp_ssh_rs.Audit.Append.{append_to-err}
use mcp_ssh_rs.Audit.Enough.{seal_until-has_room}
use mcp_ssh_rs.Audit.Expiry.{aged, reclaim-aged}

-- An entry is written as its number and its time, and hashed to that.
abbrev pub codec : Codec
codec = record { encode = λ entry. ok (entry.sequence ∷ entry.at ∷ []); sha256 = λ bytes. bytes }

abbrev pub accepts : Entry → Bool
accepts entry = true

abbrev pub genesis : Text
genesis = text "genesis"

abbrev pub limits : Limits
limits = record {
  entries = 2;
  readable_bytes = 100;
  readable_millis = 1000;
  active_proofs = 4;
  proof_bytes = 100;
  evaluation_ids = 10;
}

abbrev pub permitted : Decision
permitted =
    decide_action ReviewMode.disabled held (execute_action (record { argv = text "ls" ∷ [] }))

abbrev pub who : Attribution
who = attribution_of held

-- The states that the calls leave.
abbrev pub started : State
started = new genesis

abbrev opened : State
opened = apply codec accepts genesis limits (Call.opened held) 5 0 started

abbrev pub intended : State
intended = apply codec accepts genesis limits (Call.intent permitted (text "look")) 6 1 started

opened-Moves : Moves codec accepts genesis limits 7 started opened
unfolding get
opened-Moves = Moves.moved Moves.stayed (Move.called (Call.opened held) 5 0 refl)

pub intended-Moves : Moves codec accepts genesis limits 1 started intended
unfolding get
intended-Moves =
    Moves.moved Moves.stayed (Move.called (Call.intent permitted (text "look")) 6 1 refl)

Moves-IsSound_example : IsSound codec limits opened
Moves-IsSound_example = Moves-IsSound codec accepts genesis limits 7 opened opened-Moves

verify-Moves_example : verify codec opened ≡ ok (report codec opened)
verify-Moves_example = verify-Moves codec accepts genesis limits 7 opened opened-Moves

Moves-Logged_example : (more : List Text) × Logged ([] ++ more) opened
Moves-Logged_example =
    Moves-Logged codec accepts genesis limits 7 [] started opened Moves.stayed
      (record { held = refl; within = omega arith }) opened-Moves

-- A session's end that the boundary does not take.
abbrev refuses : Entry → Bool
refuses entry = false

abbrev refused : State
refused = (append_to codec refuses genesis limits who Event.session_closed 9 3 started).0

not_taken :
    append_to codec refuses genesis limits who Event.session_closed 9 3 started
    ≡ (refused, err AuditError.not_recorded)
unfolding append_to append_hashed prepare reclaim seal_expired make_room retire_until seal_until
    prune_indexes digest_of encoded_bytes hex retain
not_taken = refl

append_to-err_example :
    IsSound codec limits refused
    × (refused.issued.total ≡ started.issued.total)
    × (head refused ≡ head started)
    × (refused.heap ≡ started.heap)
append_to-err_example =
    append_to-err codec refuses genesis limits who Event.session_closed 9 3 started refused
      AuditError.not_recorded (Moves-IsSound codec accepts genesis limits 7 started Moves.stayed)
      not_taken

reclaim-aged_example :
    (t : State) × (reclaim codec 2000 limits opened ≡ (t, ok tt))
    × (t.entries ≡ map (aged 2000 limits) opened.entries)
    × IsSound codec limits t
    × (t.issued.total ≡ opened.issued.total)
reclaim-aged_example =
    reclaim-aged codec limits 2000 opened
      (Moves-IsSound codec accepts genesis limits 7 opened opened-Moves)

seal_until-has_room_example :
    (t : State) × (seal_until codec limits 100 (length opened.entries) 0 opened ≡ (t, ok tt))
    × (has_room limits 100 t ≡ true)
    × IsSound codec limits t
    × (t.issued.total ≡ opened.issued.total)
seal_until-has_room_example =
    seal_until-has_room codec limits 100 opened
      (Moves-IsSound codec accepts genesis limits 7 opened opened-Moves) (omega arith) (omega arith)

-- A ledger whose one entry was replaced by another digest.
abbrev altered : State
altered = record started {
  entries = sealed 0 genesis (text "other") ∷ [];
  issued = record { digests = text "first" ∷ []; retired = 0; total = 1; checkpoint = genesis };
  sizes = 0 ∷ [];
}

verify_lem_example :
    ((verify codec altered ≡ ok (report codec altered)) × IsAsIssued codec altered)
    ⊎ ((b : Broken) × (verify codec altered ≡ err b) × ¬ IsAsIssued codec altered)
verify_lem_example = verify_lem codec altered refl (omega arith)

append_to-always_example :
    (t : State) × (w : Written) × (append_to codec accepts genesis limits who Event.session_closed 9
        3 started
      ≡ (t, ok w))
unfolding digest_of encoded_bytes hex
append_to-always_example =
    append_to-always codec limits accepts genesis who Event.session_closed 9 3 2 (hex (0 ∷ 9 ∷ []))
      started (Moves-IsSound codec accepts genesis limits 7 started Moves.stayed) (omega arith)
      (omega arith) (omega arith) refl refl refl refl

-- The entry that `opened` holds.
abbrev opening : Entry
opening = record {
  sequence = 0;
  at = 5;
  session = id_a;
  principal = alice;
  host = text "web-1";
  role = text "ops";
  event = Event.session_opened held.purpose held.access_class;
  previous = genesis;
  digest = hex (0 ∷ 5 ∷ []);
}

opened_holds : get_at 0 opened.entries ≡ some (intact opening)
unfolding apply record_session_opened append_to append_hashed prepare reclaim seal_expired make_room
    retire_until seal_until prune_indexes commit take_in digest_of encoded_bytes hex retain
opened_holds = refl

verify-replaced_example :
    SameDigest codec opening opening × (length opened.entries ≡ length opened.entries)
verify-replaced_example =
    verify-replaced codec accepts genesis limits 7 opened opened (report codec opened) 0 opening
      opening opened-Moves refl (verify-Moves codec accepts genesis limits 7 opened opened-Moves)
      opened_holds opened_holds
