-- ===== src/Approval/Calls.antt =====
-- The calls that change requests, as one step function that says which grant was handed over.
use mcp_ssh_rs.Prelude.{ℕ, Bool, Option, none, some, List, [], ◌∷◌, if◌then◌else◌, Result, ok, err}
use mcp_ssh_rs.Text.{Text}
use mcp_ssh_rs.Action.{Action}
use mcp_ssh_rs.Approval.{Approver, Approvals, ApprovalError, Intended, Grant, Standing, ready}
use mcp_ssh_rs.Approval.Asking.{ask_with}
use mcp_ssh_rs.Approval.Redeeming.{redeem_action_with}
use mcp_ssh_rs.Approval.Answering.{decide, mark_recorded, sweep}

pub data Call : Type 0 where
  -- A held command, the identifier that a new request would draw, the time, and what the recording
  -- step accepts.
  asks : Intended → Text → ℕ → (Grant → Bool) → Call
  -- A request, the principal, the action with its intent, the time, and what is accepted.
  redeems : Text → Text → Action → Text → ℕ → (Grant → Bool) → Call
  -- A request, who answers it and how, the sessions that can still redeem, and the time.
  decides : Text → Approver → Bool → (Text → Bool) → ℕ → Call
  marks : Text → Call
  sweeps : (Text → Bool) → ℕ → Call

-- The recording step: an error of its own is `none`.
abbrev pub consume : (Grant → Bool) → Grant → Result (Option ApprovalError) Grant
consume accepts grant = if accepts grant then ok grant else err none

abbrev pub from_ask : {E : Type 0} → Result E (Standing Grant) → Option Grant
from_ask (ok (ready grant)) = some grant
from_ask _ = none

abbrev pub from_redeem : {E : Type 0} → Result E Grant → Option Grant
from_redeem (ok grant) = some grant
from_redeem (err e) = none

module _ (sha256 : List ℕ → List ℕ) where
  unfoldable pub step : Approvals → Call → Approvals × Option Grant
  step store (asks held id now accepts) =
      let (after, answer) = ask_with some sha256 store id held now (consume accepts) in
      (after, from_ask answer)
  step store (redeems id principal action agent_intent now accepts) =
      let (after, answer) =
        redeem_action_with some sha256 store id principal action agent_intent now
          (consume accepts) in
      (after, from_redeem answer)
  step store (decides id approver agreed redeemable now) =
      ((decide store id approver agreed redeemable now).0, none)
  step store (marks id) = ((mark_recorded store id).0, none)
  step store (sweeps lives now) = (sweep store lives now, none)

  -- The grants that were handed over, in order.
  abbrev and_then : Option Grant → Approvals × List Grant → Approvals × List Grant
  and_then none (store, grants) = (store, grants)
  and_then (some grant) (store, grants) = (store, grant ∷ grants)

  unfoldable pub run : Approvals → List Call → Approvals × List Grant
  run store [] = (store, [])
  run store (c ∷ cs) = and_then (step store c).1 (run (step store c).0 cs)
