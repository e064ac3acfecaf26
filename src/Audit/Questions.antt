-- ===== src/Audit/Questions.antt =====
-- `Ledger::this_deliberation` of crates/ssh-core/src/audit.rs: the question that an answer is about.
use mathlib.Core.Option.{some_inj}
use mcp_ssh_rs.Prelude.{
  ◌-◌, true, Option, ℕ, ◌≡◌, refl, sym, ap, ◌∙◌, none, some, arith, ok, nat_eq,
}
use mcp_ssh_rs.Text.{Text, text_eq}
use mcp_ssh_rs.Policy.{Verdict, permit, needs_approval, deny}
use mcp_ssh_rs.Audit.{Decided, Event, Held, intact, sealed, digest_of_held}
use mcp_ssh_rs.Audit.State.{State, Limits, entry_at, get_at}
use mcp_ssh_rs.Audit.Retention.{Codec}
use mcp_ssh_rs.Audit.Ledger.{check_deliberation, named, asked_a_human, is_needs_approval}
use mcp_ssh_rs.Audit.Soundness.{IsSound}
use mcp_ssh_rs.Audit.Places.{Chain-At}

-- An entry that put a decision of this session to a human; of a sealed one only the digest is left.
abbrev pub IsQuestion : Text → Held → Type 0
IsQuestion session (intact entry) =
    ((what : Decided) × (entry.event ≡ Event.decided what) × (what.verdict ≡ needs_approval))
    × (entry.session ≡ session)
IsQuestion session (sealed sequence previous digest) = Unit {0}

-- The entry at `decided` is the question with this digest, and its digest is the one that the ledger
-- issued there.
pub record Question (decided : ℕ) (digest session : Text) (s : State) : Type 0 where
  pub held : Held
  pub found : named decided s ≡ some held
  pub same_digest : digest_of_held held ≡ digest
  pub about : IsQuestion session held
  pub issued :
      (h : Held)
      → entry_at decided s ≡ some h
      → get_at (decided - s.issued.retired) s.issued.digests ≡ some digest

needs_approval-only : (v : Verdict) → is_needs_approval v ≡ true → v ≡ needs_approval
needs_approval-only needs_approval h = refl
needs_approval-only permit h = absurd (cc h)
needs_approval-only deny h = absurd (cc h)

asked_a_human-only :
    (e : Event)
    → asked_a_human e ≡ true
    → (what : Decided) × (e ≡ Event.decided what) × (what.verdict ≡ needs_approval)
asked_a_human-only (Event.decided what) h = (what, refl, needs_approval-only what.verdict h)
asked_a_human-only (Event.session_opened session access) h = absurd (cc h)
asked_a_human-only (Event.approved decided request who) h = absurd (cc h)
asked_a_human-only (Event.answered decided request who agreed) h = absurd (cc h)
asked_a_human-only (Event.completed what) h = absurd (cc h)
asked_a_human-only (Event.cancellation_requested run decided) h = absurd (cc h)
asked_a_human-only Event.session_closed h = absurd (cc h)
asked_a_human-only (Event.session_terminated operator) h = absurd (cc h)
asked_a_human-only (Event.evaluated what) h = absurd (cc h)

check_deliberation-ok :
    (decided : ℕ) (digest session : Text) (found : Option Held)
    → check_deliberation decided digest session found ≡ ok tt
    → (held : Held) × (found ≡ some held) × (digest_of_held held ≡ digest) × IsQuestion session held
check_deliberation-ok decided digest session none h = absurd (cc h)
check_deliberation-ok decided digest session (some (sealed n p d)) h =
    (sealed n p d, refl, ground (arith, h, text_eq.beq_iff d digest), tt)
check_deliberation-ok decided digest session (some (intact entry)) h = (
  intact entry,
  refl,
  ground (arith, h, text_eq.beq_iff entry.digest digest),
  (
    asked_a_human-only entry.event (ground (arith, h)),
    ground (arith, h, text_eq.beq_iff entry.session session),
  ),
)

named-entry_at :
    (decided : ℕ) (s : State) (h : Held) → entry_at decided s ≡ some h → named decided s ≡ some h
named-entry_at decided s h e = rw (e, named) refl

module _ (codec : Codec) (limits : Limits) where
  pub this_deliberation-Question :
      (decided : ℕ) (digest session : Text) (s : State)
      → IsSound codec limits s
      → check_deliberation decided digest session (named decided s) ≡ ok tt
      → Question decided digest session s
  this_deliberation-Question decided digest session s v h =
      let (held, found, same, about) =
        check_deliberation-ok decided digest session (named decided s) h in
      record {
        held = held;
        found = found;
        same_digest = same;
        about = about;
        issued = λ k e.
            let at =
              Chain-At codec _ _ _ _ _ (decided - s.issued.retired) k v.chain (ground (arith, e)) in
            at.issued
            ∙ ap (λ x. some (digest_of_held x))
                (some_inj.0 (sym (named-entry_at decided s k e) ∙ found))
            ∙ ap some same;
      }
