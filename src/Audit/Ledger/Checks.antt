-- ===== src/Audit/Ledger/Checks.antt =====
-- crates/ssh-core/src/audit.rs: what the ledger checks before it writes, and the completion of a run.
use mcp_ssh_rs.Prelude.{
  ℕ, Bool, true, false, not, ◌&&◌, Option, none, some, nat_beq, if◌then◌else◌, Result, ok, err,
  ◌==◌, nat_eq,
}
use mcp_ssh_rs.Text.{Text, text_eq}
use mcp_ssh_rs.Dict.{Dict, get, insert}
use mcp_ssh_rs.Run.{Outcome, record_output, moved_file, debug_state}
use mcp_ssh_rs.Audit.{AuditError, Authorization, Event, Held, Proof, intact, sealed, digest_of_held}
use mcp_ssh_rs.Audit.State.{
  State, Limits, ReadableDecision, EvaluationIndex, pure, fail, ◌>>=◌, ◌>>◌, gets, modify, fail_if,
  lift, get_at, back, entry_at, active_proof,
}
use mcp_ssh_rs.Audit.State
use mcp_ssh_rs.Audit.Ledger.Events.{allows, asked_a_human}

-- The entry that a number names: in the window, or still pinned by a proof.
abbrev held_or : Option Held → Option (ℕ × Proof) → Option Held
held_or (some held) proof = some held
held_or none (some (address, proof)) = some (intact proof.entry)
held_or none none = none

abbrev pub named : ℕ → State → Option Held
named sequence s = held_or (entry_at sequence s) (active_proof sequence s)

abbrev check_asked : ℕ → Text → Held → Result AuditError (Unit {0})
check_asked decided session (intact entry) =
    if not (asked_a_human entry.event)
    then err (AuditError.not_held_for_approval decided)
    else (if entry.session == session then ok tt else err (AuditError.not_its_approval decided))
check_asked decided session (sealed sequence previous digest) = ok tt

-- `Ledger::this_deliberation`, of the entry that it finds.
abbrev pub check_deliberation : ℕ → Text → Text → Option Held → Result AuditError (Unit {0})
check_deliberation decided digest session none = err (AuditError.no_such_decision decided)
check_deliberation decided digest session (some held) =
    if digest_of_held held == digest
    then check_asked decided session held
    else err (AuditError.not_its_approval decided)

unfoldable pub this_deliberation : ℕ → Text → Text → State.Action (Unit {0})
this_deliberation decided digest session s =
    (s, check_deliberation decided digest session (named decided s))

abbrev check_allows : Authorization → Held → Result AuditError (Unit {0})
check_allows authorized (intact entry) =
    if allows entry.event then ok tt else err (AuditError.not_its_decision authorized.sequence)
check_allows authorized (sealed sequence previous digest) = ok tt

abbrev held_or_pinned : Option Held → Proof → Held
held_or_pinned (some held) proof = held
held_or_pinned none proof = intact proof.entry

abbrev check_named : Authorization → Held → Result AuditError (Unit {0})
check_named authorized held =
    if digest_of_held held == authorized.digest
    then check_allows authorized held
    else err (AuditError.not_its_decision authorized.sequence)

abbrev pub check_decision :
    Authorization → Option Held → Option (ℕ × Proof) → Result AuditError (Unit {0})
check_decision authorized (some held) none = err (AuditError.not_its_decision authorized.sequence)
check_decision authorized none none = err (AuditError.no_such_decision authorized.sequence)
check_decision authorized held (some (address, proof)) =
    if nat_beq address authorized.proof && proof.entry.digest == authorized.digest
    then check_named authorized (held_or_pinned held proof)
    else err (AuditError.not_its_decision authorized.sequence)

-- `this_records_decision`.
unfoldable pub this_records_decision : Authorization → State.Action (Unit {0})
this_records_decision authorized s = (
  s,
  check_decision authorized (entry_at authorized.sequence s) (active_proof authorized.sequence s),
)

-- `proof.completed.load` and `store`, at the address of the shared proof.
abbrev completed_in : Option Proof → Bool
completed_in none = false
completed_in (some proof) = proof.completed

abbrev pub is_completed : ℕ → State → Bool
is_completed address s = completed_in (get address s.heap)

abbrev pub completed_heap : ℕ → Option Proof → Dict ℕ Proof → Dict ℕ Proof
completed_heap address none heap = heap
completed_heap address (some proof) heap = insert address (record proof { completed = true }) heap

unfoldable pub complete : ℕ → State → State
complete address s = record s { heap = completed_heap address (get address s.heap) s.heap }

abbrev pub completion_of : Outcome → Event
completion_of outcome = Event.completed (record {
  run = outcome.run;
  decided = outcome.authorization.sequence;
  state = debug_state outcome.state;
  stdout = record_output outcome.stdout;
  stderr = record_output outcome.stderr;
  file = moved_file outcome;
  info = outcome.info;
})
