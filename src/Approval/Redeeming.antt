-- ===== src/Approval/Redeeming.antt =====
-- `redeem_action_with`: how a caller that kept the identifier of a request spends its approval.
use mcp_ssh_rs.Prelude.{
  ℕ, true, false, not, none, some, List, leb, if◌then◌else◌, ◌==◌, Result, ok, err,
}
use mcp_ssh_rs.Text.{Text, text_eq}
use mcp_ssh_rs.Dict.{get}
use mcp_ssh_rs.Action.{Action, execute_action}
use mcp_ssh_rs.Command.{Command}
use mcp_ssh_rs.Digest.{digest_action}
use mcp_ssh_rs.Approval.{Approver, Grant, State, Held, ApprovalError, Approvals}
use mcp_ssh_rs.Approval.Asking.{spend, grant_of}

-- The refusals of `redeem_action_with` by the state of the request.
abbrev pub collectable : State → Result ApprovalError Approver
collectable State.waiting = err ApprovalError.still_waiting
collectable (State.refused by) = err ApprovalError.refused
collectable State.redeemed = err ApprovalError.already_redeemed
collectable (State.approved by false) = err ApprovalError.unrecorded
collectable (State.approved by true) = ok by

module _ {R E : Type 0} (from : ApprovalError → E) where
  -- `redeem_action_with`, once the request is found.
  unfoldable pub redeem_held :
      Approvals → Text → Held → Text → Text → ℕ → (Grant → Result E R) → Approvals × Result E R
  redeem_held store id held principal action now consume =
      if not (held.asked.principal == principal)
      then (store, err (from ApprovalError.unknown))
      else elim (collectable held.state) [
        | err e ↦ (store, err (from e))
        | ok by ↦
            if leb held.redeem_by now
            then (store, err (from ApprovalError.lapsed))
            else (if not (held.action == action)
                then (store, err (from ApprovalError.different_action))
                else spend store id held (consume (grant_of id held by)))
      ]

  unfoldable pub redeem_action_with :
      (List ℕ → List ℕ)
      → Approvals
      → Text
      → Text
      → Action
      → Text
      → ℕ
      → (Grant → Result E R)
      → Approvals × Result E R
  redeem_action_with sha256 store id principal action agent_intent now consume =
      elim (get id store.requests) [
        | none ↦ (store, err (from ApprovalError.unknown))
        | some held ↦
            redeem_held store id held principal (digest_action sha256 action agent_intent) now
              consume
      ]

-- `redeem`: the grant itself is the result.
unfoldable pub redeem :
    (List ℕ → List ℕ)
    → Approvals
    → Text
    → Text
    → Command
    → Text
    → ℕ
    → Approvals × Result ApprovalError Grant
redeem sha256 store id principal command agent_intent now =
    redeem_action_with (λ e. e) sha256 store id principal (execute_action command) agent_intent now
      (λ grant. ok grant)
