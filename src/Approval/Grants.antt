-- ===== src/Approval/Grants.antt =====
-- What a grant stands for.
use mathlib.Core.Option.{none-ne-some}
use mcp_ssh_rs.Prelude.{
  ℕ, ◌<◌, Bool, true, not, Option, none, some, List, [], ◌∷◌, ◌≡◌, refl, sym, ◌∙◌, Result, ok, err,
  arith, ◌==◌, eq→≡, subst, Bool-cases, Option-cases, Result-cases, inl, inr, leb,
}
use mcp_ssh_rs.Text.{Text, text_eq}
use mcp_ssh_rs.Dict.{
  Dict, get, insert, retain, Distinct, get-insert_self, get_of_retain, retain-Distinct,
}
use mcp_ssh_rs.Action.{Action}
use mcp_ssh_rs.Digest.{digest_action}
use mcp_ssh_rs.Approval.{
  Approver, Approvals, ApprovalError, Intended, Grant, Held, State, is_forgettable,
}
use mcp_ssh_rs.Approval.Asking.{
  ask_with, ask_swept, ask_unanswered, ask_new, needs_human, spend, as_ready, find_map, agreed_for,
  grant_of, spent,
}
use mcp_ssh_rs.Approval.Redeeming.{collectable, redeem_action_with, redeem_held}
use mcp_ssh_rs.Approval.Calls.{consume, from_ask, from_redeem}

-- The session that a call names, if it names one.
abbrev pub IsFor : Option Text → Held → Type 0
IsFor none held = Unit {0}
IsFor (some session) held = held.asked.session ≡ session

-- The agreement that a grant spends: a recorded one, still in its window, of this principal and about
-- this digest. Nothing of the request is left to spend.
pub record Spends (before after : Approvals) (session : Option Text) (principal action : Text)
    (now : ℕ) (grant : Grant) : Type 0 where
  pub held : Held
  pub found : get grant.request before.requests ≡ some held
  pub agreed : held.state ≡ State.approved grant.approver true
  pub open_window : now < held.redeem_by
  pub same_session : IsFor session held
  pub same_principal : held.asked.principal ≡ principal
  pub same_action : held.action ≡ action
  pub granted : grant ≡ grant_of grant.request held grant.approver
  pub used_up : get grant.request after.requests ≡ some (spent held)

pub get-find_map :
    {V B : Type 0} (f : V → Option B) (m : Dict Text V) (k : Text) (v : V) (b : B)
    → find_map f m ≡ some (k, v, b)
    → Distinct m
    → (get k m ≡ some v) × (f v ≡ some b)
unfolding find_map get
get-find_map f [] k v b h d = cc
get-find_map f ((j, w) ∷ m) k v b h d = ground (arith, get-find_map f m k v b, text_eq.beq_iff j k)

pub agreed_for-facts :
    (session principal action : Text) (now : ℕ) (held : Held) (by : Approver)
    → agreed_for session principal action now held ≡ some by
    → (held.state ≡ State.approved by true)
      × (now < held.redeem_by)
      × (held.asked.session ≡ session)
      × (held.asked.principal ≡ principal)
      × (held.action ≡ action)
agreed_for-facts session principal action now held by h = ground (
  arith,
  text_eq.beq_iff held.asked.session session,
  text_eq.beq_iff held.asked.principal principal,
  text_eq.beq_iff held.action action,
)

module _ (store : Approvals) (session : Option Text) (principal action : Text) (now : ℕ)
    (accepts : Grant → Bool) (g : Grant) where
  pub spend-Spends :
      (k : Text) (v : Held) (by : Approver)
      → get k store.requests ≡ some v
      → v.state ≡ State.approved by true
      → now < v.redeem_by
      → IsFor session v
      → v.asked.principal ≡ principal
      → v.action ≡ action
      → let r = spend store k v (consume accepts (grant_of k v by)) in
        from_redeem r.1 ≡ some g → Spends store r.0 session principal action now g
  spend-Spends k v by found agreed window whose who what =
      elim (Bool-cases (accepts (grant_of k v by))) [
        | inl taken ↦ rw taken (unfold spend in λ h. made (ground arith))
        | inr failed ↦ rw failed (unfold spend in λ h. absurd (ground arith))
      ]
    where
      after : Approvals
      after = record store { requests = insert k (spent v) store.requests }

      made : grant_of k v by ≡ g → Spends store after session principal action now g
      made same = subst (Spends store after session principal action now) same (record {
        held = v;
        found = found;
        agreed = agreed;
        open_window = window;
        same_session = whose;
        same_principal = who;
        same_action = what;
        granted = refl;
        used_up = get-insert_self k (spent v) store.requests;
      })

pub as_ready-store : {E : Type 0} (r : Approvals × Result E Grant) → (as_ready r).0 ≡ r.0
as_ready-store (store, ok g) = refl
as_ready-store (store, err e) = refl

as_ready-from :
    {E : Type 0} (r : Approvals × Result E Grant) → from_ask (as_ready r).1 ≡ from_redeem r.1
as_ready-from (store, ok g) = refl
as_ready-from (store, err e) = refl

ask_unanswered-none :
    {E : Type 0} (from : ApprovalError → E) (store : Approvals) (id action : Text) (held : Intended)
    (now : ℕ) (stale : Option (Text × Held × Approver))
    → from_ask (ask_unanswered {R = Grant} from store id action held now stale).1 ≡ none
unfolding ask_unanswered ask_new
ask_unanswered-none from store id action held now stale = ground arith

module _ (before : Approvals) (held : Intended) (now : ℕ) (accepts : Grant → Bool) (g : Grant) where
  abbrev agreement : Text → Option (Text × Held × Approver)
  agreement action =
      find_map (agreed_for held.decision.session.id held.decision.session.principal action now)
        before.requests

  ask_swept-Spends :
      (id action : Text)
      → Distinct before.requests
      → let r = ask_swept some before id action held now (consume accepts) in
        from_ask r.1 ≡ some g
        → Spends before r.0
            (some held.decision.session.id)
            held.decision.session.principal
            action
            now
            g
  unfolding ask_swept
  ask_swept-Spends id action d = elim (Option-cases (agreement action)) [
    | inl e ↦
        rw (e, ask_swept)
          λ h.
            absurd (none-ne-some _ (sym (ask_unanswered-none some before id action held now _) ∙ h))
    | inr ((k, v, by), e) ↦
        let (found, fits) = get-find_map _ before.requests k v by e d in
        let (state, window, session, who, what) = agreed_for-facts _ _ _ now v by fits in
        let r = spend before k v (consume accepts (grant_of k v by)) in
        rw (e, ask_swept, as_ready-store r, as_ready-from r)
          (spend-Spends before (some held.decision.session.id) held.decision.session.principal
            action now accepts g k v by found state window session who what)
  ]

-- The sweep that comes first does not add what is found.
Spends-swept :
    (store after : Approvals) (p : Held → Bool) (session : Option Text) (principal action : Text)
    (now : ℕ) (g : Grant)
    → Distinct store.requests
    → Spends
        (record store { requests = retain p store.requests })
        after
        session
        principal
        action
        now
        g
    → Spends store after session principal action now g
Spends-swept store after p session principal action now g d s = record {
  held = s.held;
  found = get_of_retain p g.request s.held store.requests d s.found;
  agreed = s.agreed;
  open_window = s.open_window;
  same_session = s.same_session;
  same_principal = s.same_principal;
  same_action = s.same_action;
  granted = s.granted;
  used_up = s.used_up;
}

pub collectable-ok :
    (s : State) (by : Approver) → collectable s ≡ ok by → s ≡ State.approved by true
collectable-ok s by h = ground arith

module _ (sha256 : List ℕ → List ℕ) (store : Approvals) (d : Distinct store.requests) where
  -- In a store with one request per identifier, a grant that a retried ask hands over spends a recorded
  -- agreement, still in its window, of the asking session and principal, about the digest of the same
  -- action and intent. It names the request, the approver and what was decided, and leaves the
  -- request redeemed.
  pub ask_with-Spends :
      (id : Text) (held : Intended) (now : ℕ) (accepts : Grant → Bool) (g : Grant)
      → let r = ask_with some sha256 store id held now (consume accepts) in
        from_ask r.1 ≡ some g
        → Spends store r.0
            (some held.decision.session.id)
            held.decision.session.principal
            (digest_action sha256 held.decision.action held.agent_intent)
            now
            g
  unfolding ask_with
  ask_with-Spends id held now accepts g = elim (Bool-cases (needs_human held.decision.verdict)) [
    | inl h ↦
        rw (h, ask_with)
          λ e.
            Spends-swept store _ (λ request. not (is_forgettable request now)) _ _ _ now g d
              (ask_swept-Spends _ held now accepts g id _
                (retain-Distinct (λ request. not (is_forgettable request now)) store.requests d) e)
    | inr h ↦ rw (h, ask_with) λ e. absurd (none-ne-some g e)
  ]

  redeem_held-Spends :
      (id principal action : Text) (held : Held) (now : ℕ) (accepts : Grant → Bool) (g : Grant)
      → get id store.requests ≡ some held
      → let r = redeem_held some store id held principal action now (consume accepts) in
        from_redeem r.1 ≡ some g → Spends store r.0 none principal action now g
  unfolding redeem_held
  redeem_held-Spends id principal action held now accepts g e =
      elim (Bool-cases (held.asked.principal == principal)) [
        | inr other ↦ rw (other, redeem_held) λ h. absurd (none-ne-some g h)
        | inl who ↦ elim (Result-cases (collectable held.state)) [
          | inl (why, no_grant) ↦ rw (who, no_grant, redeem_held) λ h. absurd (none-ne-some g h)
          | inr (by, good) ↦ elim (Bool-cases (leb held.redeem_by now)) [
            | inl late ↦ rw (who, good, late, redeem_held) λ h. absurd (none-ne-some g h)
            | inr early ↦ elim (Bool-cases (held.action == action)) [
              | inr wrong ↦ rw (who, good, early, wrong, redeem_held) λ h. absurd (none-ne-some g h)
              | inl what ↦
                  rw (who, good, early, what, redeem_held)
                    (spend-Spends store none principal action now accepts g id held by e
                      (collectable-ok held.state by good) (ground arith) tt
                      (eq→≡ held.asked.principal principal who) (eq→≡ held.action action what))
            ]
          ]
        ]
      ]

  -- In a store with one request per identifier, a grant that a redemption hands over spends a recorded
  -- agreement, still in its window, of the same principal, about the digest of the same action and
  -- intent. It names the request, the approver and what was decided, and leaves the request redeemed.
  pub redeem-Spends :
      (id principal : Text) (action : Action) (agent_intent : Text) (now : ℕ)
      (accepts : Grant → Bool) (g : Grant)
      → let r =
          redeem_action_with some sha256 store id principal action agent_intent now
            (consume accepts) in
        from_redeem r.1 ≡ some g
        → Spends store r.0 none principal (digest_action sha256 action agent_intent) now g
  unfolding redeem_action_with
  redeem-Spends id principal action agent_intent now accepts g =
      elim (Option-cases (get id store.requests)) [
        | inl e ↦ rw (e, redeem_action_with) λ h. absurd (none-ne-some g h)
        | inr (held, e) ↦
            rw (e, redeem_action_with) (redeem_held-Spends id principal _ held now accepts g e)
      ]
