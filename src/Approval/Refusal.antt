-- ===== src/Approval/Refusal.antt =====
-- A refusal stands: for as long as its session is kept, the same action is not asked about again.
use mathlib.Core.Option.{some_inj}
use mcp_ssh_rs.Prelude.{
  ℕ, Bool, true, false, not, ◌&&◌, Option, none, some, List, [], ◌∷◌, ◌≡◌, ◌≢◌, refl, sym, ap, ◌∙◌,
  arith, ◌==◌, eq→≡, ≡→eq, Bool-cases, Option-cases, inl, inr, All, subst, Result, ok, err,
}
use mcp_ssh_rs.Text.{Text, text_eq}
use mcp_ssh_rs.Dict.{Dict, get, insert, retain, Distinct, get-insert, get-retain, get-remove}
use mcp_ssh_rs.Digest.{digest_action}
use mcp_ssh_rs.Approval.{
  Approver, Approvals, ApprovalError, Grant, Held, Intended, State, Standing, Windows,
  is_forgettable,
}
use mcp_ssh_rs.Approval.Answering.{sweep}
use mcp_ssh_rs.Approval.Asking.{
  held_for, find_map, refused_for, ask_unanswered, ask_swept, ask_with, agreed_for, as_ready,
  needs_human,
}
use mcp_ssh_rs.Approval.Calls.{Call, step, run}
use mcp_ssh_rs.Approval.Evolution.{
  Evolves, stays, answers, records, spends, Change, unchanged, evolved, created, replaced,
  Asks-draws, draws, keeps, WasAgreed,
}
use mcp_ssh_rs.Approval.Changes.{Step, idles, changes, sweeps_first, drops, swept, step-Step}
use mcp_ssh_rs.Approval.Once.{Step-Distinct}

-- The request that stands under `id`, refused by `by`.
pub record Refused (id : Text) (held : Held) (by : Approver) (store : Approvals) : Type 0 where
  pub found : get id store.requests ≡ some held
  pub refused : held.state ≡ State.refused by

Evolves-refused :
    {c : Call} {k : Text} {windows : Windows} {h h' : Held} (by : Approver)
    → Evolves c k windows h h'
    → h.state ≡ State.refused by
    → h' ≡ h
Evolves-refused by stays r = refl
Evolves-refused by (answers who agreed redeemable now called w stated early alive) r = cc
Evolves-refused by (records who before called a) r = cc
Evolves-refused by (spends who now called a early) r = cc

refused-is_forgettable :
    (held : Held) (by : Approver) (now : ℕ)
    → held.state ≡ State.refused by
    → is_forgettable held now ≡ false
unfolding is_forgettable
refused-is_forgettable held by now r = ground arith

module _ (id : Text) (held : Held) (by : Approver) where
  inserted-Refused :
      (k : Text) (v : Held) (store : Approvals)
      → (k ≡ id → v ≡ held)
      → Refused id held by store
      → Refused id held by (record store { requests = insert k v store.requests })
  inserted-Refused k v store own r = record {
    found = elim (Bool-cases (k == id)) [
      | inl same ↦ taken same
      | inr other ↦ ground (arith, r.found, get-insert k id v store.requests)
    ];
    refused = r.refused;
  }
    where
      taken : (k == id) ≡ true → get id (insert k v store.requests) ≡ some held
      taken same = ground (arith, own (eq→≡ k id same), get-insert k id v store.requests)

  other_key :
      (old : Text) {store : Approvals} (asked : Intended) (action : Text) (now : ℕ)
      → WasAgreed store asked action now old
      → Refused id held by store
      → (old == id) ≡ false
  other_key old {store = store} asked action now
        (w, who, there, agreed, late, session, principal, what) r =
      elim (Bool-cases (old == id)) [
        | inr other ↦ other
        | inl same ↦ absurd (
            clash (
              some_inj.0 (
                sym (subst (λ j. get j store.requests ≡ some w) (eq→≡ old id same) there)
                ∙ r.found)))
      ]
    where
      clash : w ≡ held → ⊥
      clash p = ground (arith, ap (λ h. h.state) p, agreed, r.refused)

  Change-Refused :
      {sha256 : List ℕ → List ℕ} {c : Call} {store after : Approvals}
      → Change sha256 c store after
      → draws c ≢ some id
      → Refused id held by store
      → Refused id held by after
  Change-Refused unchanged fresh r = r
  Change-Refused {store = store} (evolved k v v' e change) fresh r =
      inserted-Refused k v' store
        (λ same.
          let held_there =
            some_inj.0 (sym (subst (λ j. get j store.requests ≡ some v) same e) ∙ r.found) in
          Evolves-refused by change (ap (λ h. h.state) held_there ∙ r.refused) ∙ held_there)
        r
  Change-Refused {store = store} (created k action asked now m room) fresh r =
      inserted-Refused k _ store (λ same. absurd (fresh (Asks-draws m ∙ ap some same))) r
  Change-Refused {store = store} (replaced k old action asked now m room lapsed) fresh r =
      let added =
        inserted-Refused k (held_for store k action asked now) store
          (λ same. absurd (fresh (Asks-draws m ∙ ap some same))) r in
      record {
        found = ground (
          arith,
          other_key old asked action now lapsed r,
          get-remove old id (insert k (held_for store k action asked now) store.requests),
          added.found,
        );
        refused = r.refused;
      }

  kept-Refused :
      (p : Held → Bool) (store : Approvals)
      → Distinct store.requests
      → p held ≡ true
      → Refused id held by store
      → Refused id held by (record store { requests = retain p store.requests })
  kept-Refused p store d keep r = record {
    found = ground (arith, get-retain p id store.requests d, r.found, keep);
    refused = r.refused;
  }

  Step-Refused :
      {sha256 : List ℕ → List ℕ} {c : Call} {store after : Approvals}
      → Step sha256 c store after
      → draws c ≢ some id
      → keeps c held.asked.session ≡ true
      → Distinct store.requests
      → Refused id held by store
      → Refused id held by after
  Step-Refused idles fresh alive d r = r
  Step-Refused (changes direct c) fresh alive d r = Change-Refused c fresh r
  Step-Refused {store = store} (sweeps_first asked fresh_id now accepts called c) fresh alive d r =
      Change-Refused c fresh (
        kept-Refused (λ h. not (is_forgettable h now)) store d
          (ground (arith, refused-is_forgettable held by now r.refused)) r)
  Step-Refused {store = store} (drops lives now called) fresh alive d r =
      unfold sweep in
      record {
        found =
            (kept-Refused (λ h. not (is_forgettable h now) && lives h.asked.session) store d
              (ground (
                arith,
                refused-is_forgettable held by now r.refused,
                ap (λ x. keeps x held.asked.session) (sym called) ∙ alive,
              ))
              r).found;
        refused = r.refused;
      }

  run-Refused :
      (sha256 : List ℕ → List ℕ) (store : Approvals) (cs : List Call)
      → Distinct store.requests
      → All (λ c. draws c ≢ some id) cs
      → All (λ c. keeps c held.asked.session ≡ true) cs
      → Refused id held by store
      → Distinct (run sha256 store cs).0.requests × Refused id held by (run sha256 store cs).0
  unfolding run
  run-Refused sha256 store [] d fresh alive r = (d, r)
  run-Refused sha256 store (c ∷ cs) d fresh alive r =
      let change = step-Step sha256 store c d in
      let rest =
        run-Refused sha256 (step sha256 store c).0 cs (Step-Distinct change d) fresh.1 alive.1
          (Step-Refused change fresh.0 alive.0 d r) in
      elim (Option-cases (step sha256 store c).1) [
        | inl e ↦ rw (e, run) rest
        | inr (g, e) ↦ rw (e, run) rest
      ]

find_map-found :
    {V B : Type 0} (f : V → Option B) (m : Dict Text V) (k : Text) (v : V) (b : B)
    → get k m ≡ some v
    → f v ≡ some b
    → find_map f m ≢ none
unfolding find_map get
find_map-found f [] k v b h t n = cc
find_map-found f ((j, w) ∷ m) k v b h t n = ground (arith, find_map-found f m k v b)

-- Whether an answer leaves a request for a human to decide.
abbrev pub asks_a_human : {R E : Type 0} → Result E (Standing R) → Bool
asks_a_human (ok (Standing.waiting asked)) = true
asks_a_human (ok (Standing.lapsed asked by)) = true
asks_a_human _ = false

as_ready-asks_a_human :
    {R E : Type 0} (r : Approvals × Result E R) → asks_a_human (as_ready r).1 ≡ false
as_ready-asks_a_human (store, ok result) = refl
as_ready-asks_a_human (store, err e) = refl

module _ (id : Text) (refusal : Held) (by : Approver) (fresh : Text) (asked : Intended) (now : ℕ)
    (accept : Grant → Result (Option ApprovalError) Grant) where
  ask_unanswered-Refused :
      (store : Approvals) (action : Text) (stale : Option (Text × Held × Approver))
      → Refused id refusal by store
      → refusal.asked.session ≡ asked.decision.session.id
      → refusal.action ≡ action
      → asks_a_human
          (ask_unanswered {R = Grant} {E = Option ApprovalError} some store fresh action asked now
            stale).1
        ≡ false
  unfolding ask_unanswered
  ask_unanswered-Refused store action stale r session same =
      elim (Option-cases (find_map (refused_for asked.decision.session.id action) store.requests)) [
        | inr ((key, request, who), e) ↦ rw (e, ask_unanswered)
        | inl e ↦ absurd (find_map-found _ store.requests id refusal by r.found matches e)
      ]
    where
      matches : refused_for asked.decision.session.id action refusal ≡ some by
      matches = ground (
        arith,
        r.refused,
        ≡→eq refusal.asked.session asked.decision.session.id session,
        ≡→eq refusal.action action same,
      )

  ask_swept-Refused :
      (store : Approvals) (action : Text)
      → Refused id refusal by store
      → refusal.asked.session ≡ asked.decision.session.id
      → refusal.action ≡ action
      → asks_a_human (ask_swept some store fresh action asked now accept).1 ≡ false
  unfolding ask_swept
  ask_swept-Refused store action r session same =
      elim (Option-cases (
        find_map (agreed_for asked.decision.session.id asked.decision.session.principal action now)
          store.requests)) [
            | inr ((key, request, who), e) ↦ rw (e, ask_swept) (as_ready-asks_a_human _)
            | inl e ↦ rw (e, ask_swept) (ask_unanswered-Refused store action _ r session same)
          ]

  ask_with-Refused :
      (sha256 : List ℕ → List ℕ) (store : Approvals)
      → Distinct store.requests
      → Refused id refusal by store
      → refusal.asked.session ≡ asked.decision.session.id
      → refusal.action ≡ digest_action sha256 asked.decision.action asked.agent_intent
      → asks_a_human (ask_with some sha256 store fresh asked now accept).1 ≡ false
  unfolding ask_with
  ask_with-Refused sha256 store d r session same =
      elim (Bool-cases (needs_human asked.decision.verdict)) [
        | inr h ↦ rw (h, ask_with)
        | inl h ↦
            rw (h, ask_with)
              (ask_swept-Refused (swept now store) _
                (kept-Refused id refusal by (λ request. not (is_forgettable request now)) store d
                  (ground (arith, refused-is_forgettable refusal by now r.refused)) r)
                session same)
      ]

-- In a store with one request per identifier, once an action was refused in a session, then after
-- any calls that keep the session's requests and draw the refused identifier for none, asking for the
-- same action and intent in that session never leaves a request for a human to decide.
pub refusal_stands :
    (sha256 : List ℕ → List ℕ) (store : Approvals) (cs : List Call) (id : Text) (refusal : Held)
    (by : Approver) (fresh : Text) (asked : Intended) (now : ℕ)
    (accept : Grant → Result (Option ApprovalError) Grant)
    → Distinct store.requests
    → Refused id refusal by store
    → All (λ c. draws c ≢ some id) cs
    → All (λ c. keeps c refusal.asked.session ≡ true) cs
    → refusal.asked.session ≡ asked.decision.session.id
    → refusal.action ≡ digest_action sha256 asked.decision.action asked.agent_intent
    → asks_a_human (ask_with some sha256 (run sha256 store cs).0 fresh asked now accept).1 ≡ false
refusal_stands sha256 store cs id refusal by fresh asked now accept d r drawn kept session same =
    let (after_d, after_r) = run-Refused id refusal by sha256 store cs d drawn kept r in
    ask_with-Refused id refusal by fresh asked now accept sha256 (run sha256 store cs).0 after_d
      after_r session same
