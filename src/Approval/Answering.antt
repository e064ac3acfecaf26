-- ===== src/Approval/Answering.antt =====
-- How a request is answered and its answer recorded, what is shown, and what is dropped.
use mcp_ssh_rs.Prelude.{
  ℕ, Bool, true, false, not, ◌&&◌, Option, none, some, List, leb, ltb, if◌then◌else◌, keep_if, map,
  Result, ok, err, length,
}
use mcp_ssh_rs.Text.{Text, text_eq}
use mcp_ssh_rs.Dict.{get, insert, retain, values}
use mcp_ssh_rs.Clock.{saturating_add}
use mcp_ssh_rs.Approval.{
  Approver, is_stated, Asked, Answer, State, Held, Windows, ApprovalError, is_forgettable,
  Approvals,
}
use mcp_ssh_rs.Approval.Asking.{is_waiting}

abbrev answered : Bool → Approver → State
answered true by = State.approved by false
answered false by = State.refused by

-- What `decide` leaves of a request, and the answer that it hands back.
abbrev pub decided_as : Held → Approver → Bool → ℕ → Windows → Held
decided_as held approver agreed now windows = record held {
  state = answered agreed approver;
  redeem_by = if agreed then saturating_add now windows.redeem_within else held.redeem_by;
  proof = if agreed then held.proof else none;
}

abbrev pub answer_of : Held → Approver → Bool → Answer
answer_of held approver agreed = record {
  asked = held.asked;
  approver = approver;
  agreed = agreed;
  proof = held.proof;
}

-- `decide`, once the request is found.
unfoldable pub decide_held :
    Approvals
    → Text
    → Held
    → Approver
    → Bool
    → (Text → Bool)
    → ℕ
    → Approvals × Result ApprovalError Answer
decide_held store id held approver agreed redeemable now =
    if not (is_waiting held.state)
    then (store, err ApprovalError.already_decided)
    else (if leb held.asked.decide_by now
        then (store, err ApprovalError.lapsed)
        else (if not (redeemable held.asked.session) then (store, err ApprovalError.lapsed) else (
          record store {
            requests = insert id (decided_as held approver agreed now store.windows) store.requests;
          },
          ok (answer_of held approver agreed),
        )))

unfoldable pub decide :
    Approvals → Text → Approver → Bool → (Text → Bool) → ℕ → Approvals × Result ApprovalError Answer
decide store id approver agreed redeemable now =
    if not (is_stated approver)
    then (store, err ApprovalError.unattributed)
    else elim (get id store.requests) [
      | none ↦ (store, err ApprovalError.unknown)
      | some held ↦ decide_held store id held approver agreed redeemable now
    ]

abbrev pub marked : State → Option State
marked (State.approved by recorded) = some (State.approved by true)
marked _ = none

-- `mark_recorded`, once the request is found.
unfoldable pub mark_held : Approvals → Text → Held → Approvals × Bool
mark_held store id held = elim (marked held.state) [
  | none ↦ (store, false)
  | some state ↦
      (record store { requests = insert id (record held { state = state }) store.requests }, true)
]

unfoldable pub mark_recorded : Approvals → Text → Approvals × Bool
mark_recorded store id = elim (get id store.requests) [
  | none ↦ (store, false)
  | some held ↦ mark_held store id held
]

-- `waiting`: the requests that can still be answered.
unfoldable pub waiting : Approvals → (Text → Bool) → ℕ → List Asked
waiting store redeemable now =
    map (λ held. held.asked)
      (keep_if
        (λ held.
          is_waiting held.state && ltb now held.asked.decide_by && redeemable held.asked.session)
        (values store.requests))

unfoldable pub sweep : Approvals → (Text → Bool) → ℕ → Approvals
sweep store lives now = record store {
  requests =
      retain (λ held. not (is_forgettable held now) && lives held.asked.session) store.requests;
  standing =
      retain (λ agreement. ltb now agreement.until && lives agreement.session) store.standing;
}

unfoldable pub len : Approvals → ℕ
len store = length store.requests
