-- ===== src/Approval/Transitions.antt =====
-- Each call that changes requests, branch by branch, as a transition.
use mathlib.Core.Option.{none-ne-some}
use mcp_ssh_rs.Prelude.{
  ℕ, ◌<◌, ◌≤◌, ap, Bool, true, ◌&&◌, Option, some, List, ◌≡◌, refl, Result, ok, err, arith, ◌==◌,
  Bool-cases, Option-cases, Result-cases, inl, inr, leb, find,
}
use mcp_ssh_rs.Text.{Text, text_eq}
use mcp_ssh_rs.Dict.{get, values, Distinct}
use mcp_ssh_rs.Action.{Action}
use mcp_ssh_rs.Approval.{
  Approver, Approvals, ApprovalError, Intended, Grant, Held, State, is_stated,
}
use mcp_ssh_rs.Approval.Asking.{
  refused_for, lapsed_for, is_about, is_undecided, ask_swept, ask_unanswered, ask_new, spend,
  find_map, agreed_for, grant_of, spent, is_waiting,
}
use mcp_ssh_rs.Approval.Redeeming.{collectable, redeem_action_with, redeem_held}
use mcp_ssh_rs.Approval.Answering.{
  decide, decide_held, mark_recorded, mark_held, marked, decided_as,
}
use mcp_ssh_rs.Approval.Calls.{Call, decides, marks}
use mcp_ssh_rs.Approval.Grants.{get-find_map, agreed_for-facts, as_ready-store, collectable-ok}
use mcp_ssh_rs.Approval.Evolution.{
  answers, records, spends, Change, unchanged, evolved, created, replaced, waiting_in, WasAgreed,
  Asks, spends_at,
}

marked-approved :
    (s t : State)
    → marked s ≡ some t
    → (by : Approver) × (before : Bool) × (s ≡ State.approved by before)
      × (t ≡ State.approved by true)
marked-approved State.waiting t h = absurd (none-ne-some _ h)
marked-approved (State.approved by before) t h = (by, before, refl, ground arith)
marked-approved (State.refused by) t h = absurd (none-ne-some _ h)
marked-approved State.redeemed t h = absurd (none-ne-some _ h)

waiting-state : (s : State) → is_waiting s ≡ true → s ≡ State.waiting
waiting-state s h = ground arith

lapsed_for-facts :
    (session principal action : Text) (now : ℕ) (held : Held) (by : Approver)
    → lapsed_for session principal action now held ≡ some by
    → (held.state ≡ State.approved by true)
      × (held.redeem_by ≤ now)
      × (held.asked.session ≡ session)
      × (held.asked.principal ≡ principal)
      × (held.action ≡ action)
lapsed_for-facts session principal action now held by h = ground (
  arith,
  text_eq.beq_iff held.asked.session session,
  text_eq.beq_iff held.asked.principal principal,
  text_eq.beq_iff held.action action,
)

module _ (sha256 : List ℕ → List ℕ) (c : Call) (store : Approvals) where
  spend-Change :
      {E : Type 0} (k : Text) (v : Held) (by : Approver) (consumed : Result E Grant) (now : ℕ)
      → spends_at c ≡ some now
      → now < v.redeem_by
      → get k store.requests ≡ some v
      → v.state ≡ State.approved by true
      → Change sha256 c store (spend store k v consumed).0
  unfolding spend
  spend-Change k v by (ok g) now t early e s = evolved k v (spent v) e (spends by now t s early)
  spend-Change k v by (err x) now t early e s = unchanged

  ask_new-Change :
      (k action : Text) (held : Intended) (now : ℕ) (stale : Option (Text × Held × Approver))
      → Asks sha256 c k action held now
      → ((old : Text) (request : Held) (by : Approver)
          → stale ≡ some (old, request, by)
          → WasAgreed store held action now old)
      → Change sha256 c store
          (ask_new {R = Grant} {E = Option ApprovalError} some store k action held now stale).0
  unfolding ask_new
  ask_new-Change k action held now stale m was = elim (Bool-cases full) [
    | inl h ↦ rw (h, ask_new) unchanged
    | inr h ↦ elim (Option-cases stale) [
      | inl e ↦ rw (h, e, ask_new) (created k action held now m (ground arith))
      | inr ((old, request, by), e) ↦
          rw (h, e, ask_new)
            (replaced k old action held now m (ground arith) (was old request by e))
    ]
  ]
    where
      full : Bool
      full = leb store.waiting_per_session (waiting_in held.decision.session.id store)

  ask_unanswered-Change :
      (k action : Text) (held : Intended) (now : ℕ) (stale : Option (Text × Held × Approver))
      → Asks sha256 c k action held now
      → ((old : Text) (request : Held) (by : Approver)
          → stale ≡ some (old, request, by)
          → WasAgreed store held action now old)
      → Change sha256 c store
          (ask_unanswered {R = Grant} {E = Option ApprovalError} some store k action held now
            stale).0
  unfolding ask_unanswered
  ask_unanswered-Change k action held now stale m was = elim (Option-cases refusal) [
    | inr ((key, request, by), e) ↦ rw (e, ask_unanswered) unchanged
    | inl none_refused ↦ elim (Option-cases existing) [
      | inr (request, e) ↦ rw (none_refused, e, ask_unanswered) unchanged
      | inl e ↦ rw (none_refused, e, ask_unanswered) (ask_new-Change k action held now stale m was)
    ]
  ]
    where
      refusal : Option (Text × Held × Approver)
      refusal = find_map (refused_for held.decision.session.id action) store.requests

      existing : Option Held
      existing =
          find
            (λ request.
              is_about held.decision.session.id action request && is_undecided request.state)
            (values store.requests)

  pub ask_swept-Change :
      (k action : Text) (held : Intended) (now : ℕ)
      (accept : Grant → Result (Option ApprovalError) Grant)
      → Distinct store.requests
      → Asks sha256 c k action held now
      → Change sha256 c store (ask_swept some store k action held now accept).0
  unfolding ask_swept
  ask_swept-Change k action held now accept d m = elim (Option-cases agreement) [
    | inl e ↦ rw (e, ask_swept) (ask_unanswered-Change k action held now _ m stale_agreed)
    | inr ((key, v, by), e) ↦
        let (found, fits) = get-find_map _ store.requests key v by e d in
        let (state, window, session, who, what) = agreed_for-facts _ _ _ now v by fits in
        rw (e, ask_swept, as_ready-store (spend store key v (accept (grant_of key v by))))
          (spend-Change key v by (accept (grant_of key v by)) now (ap spends_at m.called) window
            found state)
  ]
    where
      agreement : Option (Text × Held × Approver)
      agreement =
          find_map (agreed_for held.decision.session.id held.decision.session.principal action now)
            store.requests

      stale_agreed :
          (old : Text) (request : Held) (by : Approver)
          → find_map
              (lapsed_for held.decision.session.id held.decision.session.principal action now)
              store.requests
            ≡ some (old, request, by)
          → WasAgreed store held action now old
      stale_agreed old request by e =
          let (found, fits) = get-find_map _ store.requests old request by e d in
          let facts = lapsed_for-facts _ _ action now request by fits in
          (request, by, found, facts.0, facts.1, facts.2, facts.3, facts.4)

  pub redeem_held-Change :
      (id principal action : Text) (held : Held) (now : ℕ)
      (accept : Grant → Result (Option ApprovalError) Grant)
      → spends_at c ≡ some now
      → get id store.requests ≡ some held
      → Change sha256 c store (redeem_held some store id held principal action now accept).0
  unfolding redeem_held
  redeem_held-Change id principal action held now accept t e =
      elim (Bool-cases (held.asked.principal == principal)) [
        | inr other ↦ rw (other, redeem_held) unchanged
        | inl who ↦ elim (Result-cases (collectable held.state)) [
          | inl (why, no_grant) ↦ rw (who, no_grant, redeem_held) unchanged
          | inr (by, good) ↦ elim (Bool-cases (leb held.redeem_by now)) [
            | inl late ↦ rw (who, good, late, redeem_held) unchanged
            | inr early ↦ elim (Bool-cases (held.action == action)) [
              | inr wrong ↦ rw (who, good, early, wrong, redeem_held) unchanged
              | inl what ↦
                  rw (who, good, early, what, redeem_held)
                    (spend-Change id held by _ now t (ground arith) e
                      (collectable-ok held.state by good))
            ]
          ]
        ]
      ]

  decide_held-Change :
      (id : Text) (held : Held) (by : Approver) (agreed : Bool) (redeemable : Text → Bool) (now : ℕ)
      → c ≡ decides id by agreed redeemable now
      → get id store.requests ≡ some held
      → is_stated by ≡ true
      → Change sha256 c store (decide_held store id held by agreed redeemable now).0
  unfolding decide_held
  decide_held-Change id held by agreed redeemable now called e stated =
      elim (Bool-cases (is_waiting held.state)) [
        | inr over ↦ rw over unchanged
        | inl open_state ↦ elim (Bool-cases (leb held.asked.decide_by now)) [
          | inl late ↦ rw (open_state, late) unchanged
          | inr early ↦ elim (Bool-cases (redeemable held.asked.session)) [
            | inr dead ↦ rw (open_state, early, dead) unchanged
            | inl alive ↦
                rw (open_state, early, alive)
                  (evolved id held (decided_as held by agreed now store.windows) e (
                    answers by agreed redeemable now called (waiting-state held.state open_state)
                      stated (ground arith) alive))
          ]
        ]
      ]

  pub decide-Change :
      (id : Text) (by : Approver) (agreed : Bool) (redeemable : Text → Bool) (now : ℕ)
      → c ≡ decides id by agreed redeemable now
      → Change sha256 c store (decide store id by agreed redeemable now).0
  unfolding decide
  decide-Change id by agreed redeemable now called = elim (Bool-cases (is_stated by)) [
    | inr blank ↦ rw blank unchanged
    | inl stated ↦ elim (Option-cases (get id store.requests)) [
      | inl e ↦ rw (stated, e, decide) unchanged
      | inr (held, e) ↦
          rw (stated, e, decide)
            (decide_held-Change id held by agreed redeemable now called e stated)
    ]
  ]

  mark_held-Change :
      (id : Text) (held : Held)
      → c ≡ marks id
      → get id store.requests ≡ some held
      → Change sha256 c store (mark_held store id held).0
  unfolding mark_held
  mark_held-Change id held called e = elim (Option-cases (marked held.state)) [
    | inl h ↦ rw (h, mark_held) unchanged
    | inr (t, h) ↦
        let (by, before, was, is) = marked-approved held.state t h in
        rw (h, mark_held, is) (evolved id held _ e (records by before called was))
  ]

  pub mark-Change : (id : Text) → c ≡ marks id → Change sha256 c store (mark_recorded store id).0
  unfolding mark_recorded
  mark-Change id called = elim (Option-cases (get id store.requests)) [
    | inl e ↦ rw (e, mark_recorded) unchanged
    | inr (held, e) ↦ rw (e, mark_recorded) (mark_held-Change id held called e)
  ]

  pub redeem-Change :
      (id principal : Text) (action : Action) (agent_intent : Text) (now : ℕ)
      (accept : Grant → Result (Option ApprovalError) Grant)
      → spends_at c ≡ some now
      → Change sha256 c store
          (redeem_action_with some sha256 store id principal action agent_intent now accept).0
  unfolding redeem_action_with
  redeem-Change id principal action agent_intent now accept t =
      elim (Option-cases (get id store.requests)) [
        | inl e ↦ rw (e, redeem_action_with) unchanged
        | inr (held, e) ↦
            rw (e, redeem_action_with) (redeem_held-Change id principal _ held now accept t e)
      ]
