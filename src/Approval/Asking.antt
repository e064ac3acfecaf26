-- ===== src/Approval/Asking.antt =====
-- `ask_with`: what a held command finds, and when an agreement is spent on it. Each reading of the
-- clock is an argument `now`, each drawn identifier an argument `id`, the hasher `sha256`.
use mcp_ssh_rs.Prelude.{
  ℕ, Bool, true, false, not, ◌&&◌, Option, none, some, List, [], ◌∷◌, leb, ltb, if◌then◌else◌, ◌==◌,
  count_if, find, Result, ok, err,
}
use mcp_ssh_rs.Text.{Text, text_eq}
use mcp_ssh_rs.Dict.{Dict, insert, remove, retain, values}
use mcp_ssh_rs.Clock.{saturating_add}
use mcp_ssh_rs.Action.{kind}
use mcp_ssh_rs.Digest.{digest_action}
use mcp_ssh_rs.Policy.{Verdict, needs_approval}
use mcp_ssh_rs.Approval.{
  Approver, Asked, Ask, Intended, Grant, Standing, ready, State, Held, ApprovalError,
  is_forgettable, Approvals,
}

-- `Iterator::find_map` over the entries, with the entry that was found.
unfoldable pub find_map : {V B : Type 0} → (V → Option B) → Dict Text V → Option (Text × V × B)
find_map f [] = none
find_map f ((k, v) ∷ m) = elim (f v) [ some b ↦ some (k, v, b) | none ↦ find_map f m ]

-- Whether a request is about this session's command, and whether it is this principal's too.
abbrev pub is_about : Text → Text → Held → Bool
is_about session action held = held.asked.session == session && held.action == action

abbrev pub is_theirs : Text → Text → Text → Held → Bool
is_theirs session principal action held =
    held.asked.session == session && held.asked.principal == principal && held.action == action

abbrev recorded_by : State → Option Approver
recorded_by (State.approved by true) = some by
recorded_by _ = none

abbrev refused_by : State → Option Approver
refused_by (State.refused by) = some by
refused_by _ = none

abbrev only_if : Bool → Option Approver → Option Approver
only_if true o = o
only_if false o = none

-- The three lookups of `ask_with`, as what each tests of one request.
abbrev pub lapsed_for : Text → Text → Text → ℕ → Held → Option Approver
lapsed_for session principal action now held =
    only_if (is_theirs session principal action held && leb held.redeem_by now)
      (recorded_by held.state)

abbrev pub agreed_for : Text → Text → Text → ℕ → Held → Option Approver
agreed_for session principal action now held =
    only_if (is_theirs session principal action held && ltb now held.redeem_by)
      (recorded_by held.state)

abbrev pub refused_for : Text → Text → Held → Option Approver
refused_for session action held = only_if (is_about session action held) (refused_by held.state)

abbrev pub is_undecided : State → Bool
is_undecided State.waiting = true
is_undecided (State.approved by false) = true
is_undecided _ = false

abbrev pub is_waiting : State → Bool
is_waiting State.waiting = true
is_waiting _ = false

-- The grant that a recorded agreement is spent as.
abbrev pub grant_of : Text → Held → Approver → Grant
grant_of id held by = record {
  proof = held.proof;
  request = id;
  session = held.asked.session;
  approver = by;
  action = held.action;
  decided = held.asked.decided;
  decided_digest = held.asked.decided_digest;
}

abbrev pub spent : Held → Held
spent held = record held { state = State.redeemed; proof = none }

abbrev pub needs_human : Verdict → Bool
needs_human needs_approval = true
needs_human _ = false

abbrev asked_for : Approvals → Text → Text → Intended → ℕ → Asked
asked_for store id action held now =
    let session = held.decision.session in
    record {
      operation = kind held.decision.action;
      id = id;
      session = session.id;
      principal = session.principal;
      host = session.host;
      role = session.role;
      purpose = session.purpose;
      access_class = session.access_class;
      command = held.decision.action.command.argv;
      agent_intent = held.agent_intent;
      decided = held.sequence;
      decided_digest = held.digest;
      why = held.decision.explanation;
      asked_at = now;
      decide_by = saturating_add now store.windows.decide_within;
    }

abbrev pub held_for : Approvals → Text → Text → Intended → ℕ → Held
held_for store id action held now = record {
  proof = held.proof;
  asked = asked_for store id action held now;
  action = action;
  state = State.waiting;
  redeem_by = 0;
}

-- An agreement is spent only if `consume` accepts its grant.
unfoldable pub spend :
    {R E : Type 0} → Approvals → Text → Held → Result E R → Approvals × Result E R
spend store id held consumed = elim consumed [
  | err e ↦ (store, err e)
  | ok result ↦ (record store { requests = insert id (spent held) store.requests }, ok result)
]

abbrev pub as_ready : {R E : Type 0} → Approvals × Result E R → Approvals × Result E (Standing R)
as_ready (store, ok result) = (store, ok (ready result))
as_ready (store, err e) = (store, err e)

module _ {R E : Type 0} (from : ApprovalError → E) where
  -- The end of `ask_with`: a new request, and the lapsed agreement that it replaces.
  unfoldable pub ask_new :
      Approvals
      → Text
      → Text
      → Intended
      → ℕ
      → Option (Text × Held × Approver)
      → Approvals × Result E (Standing R)
  ask_new store id action held now stale =
      let asked = asked_for store id action held now in
      let requests = insert id (held_for store id action held now) store.requests in
      if leb store.waiting_per_session (
        count_if
          (λ request. request.asked.session == held.decision.session.id && is_waiting request.state)
          (values store.requests))
      then (store, err (from ApprovalError.too_many_waiting))
      else elim stale [
        | none ↦ (record store { requests = requests }, ok (Standing.waiting (Ask.new asked)))
        | some (old, request, by) ↦ (
          record store { requests = remove old requests },
          ok (Standing.lapsed (Ask.new asked) by),
        )
      ]

  -- What follows when no agreement can be spent: a refusal, a request in flight, or a new one.
  unfoldable pub ask_unanswered :
      Approvals
      → Text
      → Text
      → Intended
      → ℕ
      → Option (Text × Held × Approver)
      → Approvals × Result E (Standing R)
  ask_unanswered store id action held now stale =
      elim (find_map (refused_for held.decision.session.id action) store.requests) [
        | some (key, request, by) ↦ (store, ok (Standing.refused by))
        | none ↦
            elim (find
              (λ request.
                is_about held.decision.session.id action request && is_undecided request.state)
              (values store.requests)) [
                | some existing ↦ (store, ok (Standing.waiting (Ask.pending existing.asked)))
                | none ↦ ask_new store id action held now stale
              ]
      ]

  -- `ask_with`, past the sweep. Keys are unique, so the entry that was found is the one that
  -- `get_mut` hands out.
  unfoldable pub ask_swept :
      Approvals
      → Text
      → Text
      → Intended
      → ℕ
      → (Grant → Result E R)
      → Approvals × Result E (Standing R)
  ask_swept store id action held now consume =
      let session = held.decision.session in
      elim (find_map (agreed_for session.id session.principal action now) store.requests) [
        | some (key, request, by) ↦
            as_ready (spend store key request (consume (grant_of key request by)))
        | none ↦
            ask_unanswered store id action held now
              (find_map (lapsed_for session.id session.principal action now) store.requests)
      ]

  unfoldable pub ask_with :
      (List ℕ → List ℕ)
      → Approvals
      → Text
      → Intended
      → ℕ
      → (Grant → Result E R)
      → Approvals × Result E (Standing R)
  ask_with sha256 store id held now consume =
      if needs_human held.decision.verdict
      then ask_swept
          (record store {
            requests = retain (λ request. not (is_forgettable request now)) store.requests;
          })
          id (digest_action sha256 held.decision.action held.agent_intent) held now consume
      else (store, err (from ApprovalError.not_held))

-- `ask`: the grant itself is the result.
unfoldable pub ask :
    (List ℕ → List ℕ)
    → Approvals
    → Text
    → Intended
    → ℕ
    → Approvals × Result ApprovalError (Standing Grant)
ask sha256 store id held now = ask_with (λ e. e) sha256 store id held now (λ grant. ok grant)
