-- ===== src/Audit/Ledger/Events.antt =====
-- crates/ssh-core/src/audit.rs: the entries that the ledger writes, and the receipts for them.
use mcp_ssh_rs.Prelude.{
  ℕ, Bool, true, false, Option, none, some, if◌then◌else◌, Result, ok, err, nat_eq,
}
use mcp_ssh_rs.Text.{Text, text_eq}
use mcp_ssh_rs.Dict.{insert}
use mcp_ssh_rs.Action.{kind}
use mcp_ssh_rs.Command.{program}
use mcp_ssh_rs.Policy.{Decision, Verdict, permit, needs_approval, deny}
use mcp_ssh_rs.Approval.{Approver, Asked, human, override, session_standing}
use mcp_ssh_rs.Audit.{
  Answerer, ApprovalMode, Attribution, AuditError, Authorization, Entry, Event, Receipt,
  attribution_of,
}
use mcp_ssh_rs.Audit.State.{State, ReadableDecision, back, entry_at}
use mcp_ssh_rs.Audit.Retention.{Written, digest_or, is_readable}

-- A recorded intent: the entry with what it hands back.
pub record Intent : Type 0 where
  pub entry : Entry
  pub decision : Decision
  pub agent_intent : Text
  pub receipt : Option Receipt
  pub proof : Option ℕ

abbrev pub asks_or_permits : Verdict → Bool
asks_or_permits permit = true
asks_or_permits needs_approval = true
asks_or_permits deny = false

-- Whether an entry's proof is kept while something can act on it.
abbrev pub pins : Event → Bool
pins (Event.decided what) = asks_or_permits what.verdict
pins (Event.approved decided request who) = true
pins _ = false

abbrev pub is_permit : Verdict → Bool
is_permit permit = true
is_permit _ = false

abbrev pub is_needs_approval : Verdict → Bool
is_needs_approval needs_approval = true
is_needs_approval _ = false

-- The two kinds of entry that allow a run.
abbrev pub allows : Event → Bool
allows (Event.decided what) = is_permit what.verdict
allows (Event.approved decided request who) = true
allows _ = false

abbrev pub asked_a_human : Event → Bool
asked_a_human (Event.decided what) = is_needs_approval what.verdict
asked_a_human _ = false

-- How an approver is written down.
abbrev pub answerer_of : Approver → Answerer
answerer_of (human who) = record {
  approver = who;
  override_of = none;
  standing = false;
  mode = ApprovalMode.direct;
  agreement = none;
}
answerer_of (override who because) = record {
  approver = who;
  override_of = some because;
  standing = false;
  mode = ApprovalMode.override;
  agreement = none;
}
answerer_of (session_standing who agreement) = record {
  approver = who;
  override_of = none;
  standing = true;
  mode = ApprovalMode.session;
  agreement = some agreement;
}

-- `Attribution::about`.
abbrev pub about : Asked → Attribution
about asked = record {
  session = asked.session;
  principal = asked.principal;
  host = asked.host;
  role = asked.role;
}

-- The event of a decision.
abbrev pub decided_event : Decision → Text → Event
decided_event decision agent_intent = Event.decided (record {
  operation = kind decision.action;
  agent_intent = agent_intent;
  argv = decision.action.command.argv;
  program = program decision.action.command;
  access_class = decision.session.access_class;
  purpose = decision.session.purpose;
  verdict = decision.verdict;
  policies = decision.policies;
})

-- What the index of evaluations keeps of a decision.
abbrev readable_of : Decision → Text → Entry → ReadableDecision
readable_of decision agent_intent entry = record {
  operation = kind decision.action;
  sequence = entry.sequence;
  attribution = attribution_of decision.session;
  argv = decision.action.command.argv;
  agent_intent = agent_intent;
  purpose = decision.session.purpose;
  access_class = decision.session.access_class;
}

unfoldable pub index_decision : Decision → Text → Entry → State → State
index_decision decision agent_intent entry s =
    if is_readable (entry_at entry.sequence s)
    then record s {
      evaluations = record s.evaluations {
        readable_decisions =
            insert entry.digest (readable_of decision agent_intent entry)
              s.evaluations.readable_decisions;
      };
    }
    else s

abbrev pub authorization_of : Entry → Attribution → ℕ → Authorization
authorization_of entry who proof = record {
  sequence = entry.sequence;
  digest = entry.digest;
  who = who;
  proof = proof;
}

-- The receipt that a written entry mints, if its proof was kept.
abbrev pub receipt_for : Decision → Written → Result AuditError Receipt
receipt_for decision written = elim written.proof [
  | none ↦ err (AuditError.not_its_decision written.entry.sequence)
  | some proof ↦ ok (record {
    authorization = authorization_of written.entry (attribution_of decision.session) proof;
    action = decision.action;
  })
]

abbrev pub some_of : {A : Type 0} → Result AuditError A → Result AuditError (Option A)
some_of (ok a) = ok (some a)
some_of (err e) = err e

-- The entry that an event makes, before it is hashed.
abbrev pub draft : State → Text → Attribution → Event → ℕ → Entry
draft s genesis who event at = record {
  sequence = s.issued.total;
  at = at;
  session = who.session;
  principal = who.principal;
  host = who.host;
  role = who.role;
  event = event;
  previous = digest_or s.issued.checkpoint (back s.entries);
  digest = genesis;
}
