-- ===== src/Approval/Evolution.antt =====
-- How a request changes: the state machine that every call keeps to.
use mcp_ssh_rs.Prelude.{
  ℕ, ◌<◌, ◌≤◌, Bool, true, ◌&&◌, Option, none, some, List, ◌≡◌, ap, ◌==◌, count_if,
}
use mcp_ssh_rs.Text.{Text, text_eq}
use mcp_ssh_rs.Dict.{get, values, insert, remove}
use mcp_ssh_rs.Approval.{Approver, Approvals, Grant, Intended, Held, State, Windows, is_stated}
use mcp_ssh_rs.Digest.{digest_action}
use mcp_ssh_rs.Approval.Calls.{Call, asks, redeems, decides, marks, sweeps}
use mcp_ssh_rs.Approval.Asking.{spent, held_for, is_waiting}
use mcp_ssh_rs.Approval.Answering.{decided_as}

-- The identifier that a call would put a new request under.
abbrev pub draws : Call → Option Text
draws (asks held id now accepts) = some id
draws _ = none

-- The sessions whose requests a call keeps.
abbrev pub keeps : Call → Text → Bool
keeps (sweeps lives now) = lives
keeps _ = λ session. true

-- The time of a call that can spend an agreement.
abbrev pub spends_at : Call → Option ℕ
spends_at (asks held id now accepts) = some now
spends_at (redeems id principal action agent_intent now accepts) = some now
spends_at _ = none

-- What a call changes of the request that stands under `k`. What was asked, and the digest it was asked
-- about, never change.
pub data Evolves (c : Call) (k : Text) (windows : Windows) (h : Held) : Held → Type 0 where
  stays : Evolves c k windows h h
  answers :
      (by : Approver) (agreed : Bool) (redeemable : Text → Bool) (now : ℕ)
      → c ≡ decides k by agreed redeemable now
      → h.state ≡ State.waiting
      → is_stated by ≡ true
      → now < h.asked.decide_by
      → redeemable h.asked.session ≡ true
      → Evolves c k windows h (decided_as h by agreed now windows)
  records :
      (by : Approver) (before : Bool)
      → c ≡ marks k
      → h.state ≡ State.approved by before
      → Evolves c k windows h (record h { state = State.approved by true })
  spends :
      (by : Approver) (now : ℕ)
      → spends_at c ≡ some now
      → h.state ≡ State.approved by true
      → now < h.redeem_by
      → Evolves c k windows h (spent h)

-- The requests of this session that wait for a human.
abbrev pub waiting_in : Text → Approvals → ℕ
waiting_in session store =
    count_if (λ request. request.asked.session == session && is_waiting request.state)
      (values store.requests)

-- Under `id` stands a recorded agreement to this action in the session and for the principal that ask, and
-- the window to collect it has passed.
abbrev pub WasAgreed : Approvals → Intended → Text → ℕ → Text → Type 0
WasAgreed store asked action now id =
    (held : Held) × (by : Approver) × (get id store.requests ≡ some held)
    × (held.state ≡ State.approved by true)
    × (held.redeem_by ≤ now)
    × (held.asked.session ≡ asked.decision.session.id)
    × (held.asked.principal ≡ asked.decision.session.principal)
    × (held.action ≡ action)

-- A call that asks about a held command, under an identifier, at a time; and the digest of what it asks.
pub record Asks (sha256 : List ℕ → List ℕ) (c : Call) (k action : Text) (held : Intended) (now : ℕ)
    : Type 0 where
  pub accepts : Grant → Bool
  pub called : c ≡ asks held k now accepts
  pub digest : action ≡ digest_action sha256 held.decision.action held.agent_intent

pub Asks-draws :
    {sha256 : List ℕ → List ℕ} {c : Call} {k action : Text} {held : Intended} {now : ℕ}
    → Asks sha256 c k action held now
    → draws c ≡ some k
Asks-draws a = ap draws a.called

-- What a call changes of the requests, once it has swept. A new request stands under the identifier that
-- was drawn.
pub data Change (sha256 : List ℕ → List ℕ) (c : Call) (store : Approvals) : Approvals → Type 0 where
  unchanged : Change sha256 c store store
  evolved :
      (k : Text) (v v' : Held)
      → get k store.requests ≡ some v
      → Evolves c k store.windows v v'
      → Change sha256 c store (record store { requests = insert k v' store.requests })
  -- A new request, which takes the place of a lapsed agreement if there is one.
  created :
      (k action : Text) (held : Intended) (now : ℕ)
      → Asks sha256 c k action held now
      → waiting_in held.decision.session.id store < store.waiting_per_session
      → Change sha256 c store
          (record store { requests = insert k (held_for store k action held now) store.requests })
  replaced :
      (k old action : Text) (held : Intended) (now : ℕ)
      → Asks sha256 c k action held now
      → waiting_in held.decision.session.id store < store.waiting_per_session
      → WasAgreed store held action now old
      → Change sha256 c store (record store {
        requests = remove old (insert k (held_for store k action held now) store.requests);
      })
