-- ===== src/Approval/Changes.antt =====
-- Every call makes at most one change of the state machine, besides its sweep.
use mcp_ssh_rs.Prelude.{ℕ, Bool, not, none, List, ◌≡◌, refl, Bool-cases, inl, inr}
use mcp_ssh_rs.Text.{Text, text_eq}
use mcp_ssh_rs.Dict.{retain, Distinct, retain-Distinct}
use mcp_ssh_rs.Approval.{Approvals, Intended, Grant, is_forgettable}
use mcp_ssh_rs.Approval.Asking.{ask_with, needs_human}
use mcp_ssh_rs.Approval.Answering.{sweep}
use mcp_ssh_rs.Approval.Calls.{Call, asks, redeems, decides, marks, sweeps, consume, step}
use mcp_ssh_rs.Approval.Evolution.{Change, draws}
use mcp_ssh_rs.Approval.Transitions.{ask_swept-Change, decide-Change, mark-Change, redeem-Change}

-- The store without the requests that can be forgotten.
abbrev pub swept : ℕ → Approvals → Approvals
swept now store = record store {
  requests = retain (λ held. not (is_forgettable held now)) store.requests;
}

-- What one call does: a change, a change after the sweep of an ask, or a sweep with the sessions that
-- live.
pub data Step (sha256 : List ℕ → List ℕ) (c : Call) (store : Approvals) : Approvals → Type 0 where
  idles : Step sha256 c store store
  changes :
      {after : Approvals} → draws c ≡ none → Change sha256 c store after → Step sha256 c store after
  sweeps_first :
      {after : Approvals} (held : Intended) (id : Text) (now : ℕ) (accepts : Grant → Bool)
      → c ≡ asks held id now accepts
      → Change sha256 c (swept now store) after
      → Step sha256 c store after
  drops :
      (lives : Text → Bool) (now : ℕ)
      → c ≡ sweeps lives now
      → Step sha256 c store (sweep store lives now)

-- In a store with one request per identifier, what a call does to the requests is a sweep at its time,
-- or at most one transition, which for an ask comes after a sweep at its time. Only a `decide` answers,
-- and only the request it names, while it waits, by a stated approver, before the deadline by the time
-- of the call, for a session that can still redeem; the answer is the call's, and its windows are the
-- store's from that time. Only `mark_recorded` records, and only an agreement that it names. Only an ask
-- or a redemption spends, and only a recorded agreement whose window is open at the time of the call.
-- Only an ask creates, for what it asks, under the identifier it drew, where its session has room, and at
-- most in place of an agreement of its own that has lapsed by its time.
pub step-Step :
    (sha256 : List ℕ → List ℕ) (store : Approvals) (c : Call)
    → Distinct store.requests
    → Step sha256 c store (step sha256 store c).0
unfolding step
step-Step sha256 store (asks held id now accepts) d =
    elim (Bool-cases (needs_human held.decision.verdict)) [
      | inr h ↦ unfold ask_with in rw h idles
      | inl h ↦
          unfold ask_with in
          rw h (
            sweeps_first held id now accepts refl (
              ask_swept-Change sha256 (asks held id now accepts) (swept now store) id _ held now
                (consume accepts)
                (retain-Distinct (λ request. not (is_forgettable request now)) store.requests d)
                (record { accepts = accepts; called = refl; digest = refl })))
    ]
step-Step sha256 store (redeems id principal action agent_intent now accepts) d = changes refl (
    redeem-Change sha256 (redeems id principal action agent_intent now accepts) store id principal
      action agent_intent now (consume accepts) refl)
step-Step sha256 store (decides id approver agreed redeemable now) d = changes refl (
    decide-Change sha256 (decides id approver agreed redeemable now) store id approver agreed
      redeemable now refl)
step-Step sha256 store (marks id) d = changes refl (mark-Change sha256 (marks id) store id refl)
step-Step sha256 store (sweeps lives now) d = drops lives now refl
