-- ===== src/Approval/Queue.antt =====
-- No session can fill the queue of waiting requests.
use mcp_ssh_rs.Prelude.{
  ℕ, ◌+◌, ◌<◌, ◌≤◌, Bool, true, false, not, ◌&&◌, List, [], ◌∷◌, ◌≡◌, refl, ◌∙◌, if◌then◌else◌,
  arith, ◌==◌, eq→≡, Bool-cases, Option-cases, inl, inr, subst, count_if,
}
use mcp_ssh_rs.Text.{Text, text_eq}
use mcp_ssh_rs.Dict.{insert, retain, values, Distinct}
use mcp_ssh_rs.Dict.Counts.{count-insert-le, count-insert_weaker, count-remove-le, count-retain-le}
use mcp_ssh_rs.Approval.{Approvals, Held, Intended, Windows, create, is_forgettable}
use mcp_ssh_rs.Approval.Answering.{sweep}
use mcp_ssh_rs.Approval.Asking.{held_for, is_waiting}
use mcp_ssh_rs.Approval.Calls.{Call, step, run}
use mcp_ssh_rs.Approval.Evolution.{
  Evolves, stays, answers, records, spends, Change, unchanged, evolved, created, replaced,
  waiting_in,
}
use mcp_ssh_rs.Approval.Changes.{Step, idles, changes, sweeps_first, drops, step-Step}
use mcp_ssh_rs.Approval.Once.{Step-Distinct}

-- The count of every session's waiting requests is within the store's limit.
abbrev pub IsBounded : Approvals → Type 0
IsBounded store = (session : Text) → waiting_in session store ≤ store.waiting_per_session

abbrev waits : Text → Held → Bool
waits session request = request.asked.session == session && is_waiting request.state

Evolves-waits :
    (session : Text) {c : Call} {k : Text} {windows : Windows} {h h' : Held}
    → Evolves c k windows h h'
    → waits session h' ≡ true
    → waits session h ≡ true
Evolves-waits session stays w = w
Evolves-waits session (answers by true redeemable now called s stated early alive) w =
    ground (arith, w)
Evolves-waits session (answers by false redeemable now called s stated early alive) w =
    ground (arith, w)
Evolves-waits session (records by before called a) w = ground (arith, w)
Evolves-waits session (spends by now called a early) w = ground (arith, w)

added-IsBounded :
    (store : Approvals) (k action : Text) (held : Intended) (now : ℕ)
    → waiting_in held.decision.session.id store < store.waiting_per_session
    → IsBounded store
    → IsBounded
        (record store { requests = insert k (held_for store k action held now) store.requests })
added-IsBounded store k action held now room b session =
    let added =
      count-insert-le (waits session) k (held_for store k action held now) store.requests in
    elim (Bool-cases (held.decision.session.id == session)) [
      | inl same ↦ joins (eq→≡ held.decision.session.id session same) added
      | inr other ↦ ground (arith, added, b session, other)
    ]
  where
    joins :
        {j : Text}
        → held.decision.session.id ≡ j
        → count_if (waits j) (values (insert k (held_for store k action held now) store.requests))
          ≤ count_if (waits j) (values store.requests)
            + (if waits j (held_for store k action held now) then 1 else 0)
        → count_if (waits j) (values (insert k (held_for store k action held now) store.requests))
          ≤ store.waiting_per_session
    joins {j = j} same added =
        ground (arith, added, subst (λ i. waiting_in i store < store.waiting_per_session) same room)

retained-IsBounded :
    (p : Held → Bool) (store : Approvals)
    → IsBounded store
    → IsBounded (record store { requests = retain p store.requests })
retained-IsBounded p store b session =
    omega (arith, count-retain-le (waits session) p store.requests, b session)

Change-IsBounded :
    {sha256 : List ℕ → List ℕ} {c : Call} {store after : Approvals}
    → Change sha256 c store after
    → IsBounded store
    → IsBounded after
Change-IsBounded unchanged b session = b session
Change-IsBounded {store = store} (evolved k v v' e change) b session = omega (
  arith,
  count-insert_weaker (waits session) k v' v store.requests e (Evolves-waits session change),
  b session,
)
Change-IsBounded {store = store} (created k action held now m room) b session =
    added-IsBounded store k action held now room b session
Change-IsBounded {store = store} (replaced k old action held now m room lapsed) b session = omega (
  arith,
  count-remove-le (waits session) old (insert k (held_for store k action held now) store.requests),
  added-IsBounded store k action held now room b session,
)

Step-IsBounded :
    {sha256 : List ℕ → List ℕ} {c : Call} {store after : Approvals}
    → Step sha256 c store after
    → IsBounded store
    → IsBounded after
Step-IsBounded idles b = λ i. b i
Step-IsBounded (changes direct c) b = Change-IsBounded c b
Step-IsBounded {store = store} (sweeps_first asked fresh_id now accepts called c) b =
    Change-IsBounded c (retained-IsBounded (λ held. not (is_forgettable held now)) store b)
Step-IsBounded {store = store} (drops lives now called) b =
    unfold sweep in retained-IsBounded _ store b

Change-limit :
    {sha256 : List ℕ → List ℕ} {c : Call} {store after : Approvals}
    → Change sha256 c store after
    → after.waiting_per_session ≡ store.waiting_per_session
Change-limit unchanged = refl
Change-limit (evolved k v v' e change) = refl
Change-limit (created k action held now m room) = refl
Change-limit (replaced k old action held now m room lapsed) = refl

Step-limit :
    {sha256 : List ℕ → List ℕ} {c : Call} {store after : Approvals}
    → Step sha256 c store after
    → after.waiting_per_session ≡ store.waiting_per_session
Step-limit idles = refl
Step-limit (changes direct c) = Change-limit c
Step-limit (sweeps_first asked fresh_id now accepts called c) = Change-limit c
Step-limit (drops lives now called) = unfold sweep in refl

module _ (sha256 : List ℕ → List ℕ) where
  run-IsBounded :
      (store : Approvals) (cs : List Call)
      → Distinct store.requests
      → IsBounded store
      → IsBounded (run sha256 store cs).0
  unfolding run
  run-IsBounded store [] d b = b
  run-IsBounded store (c ∷ cs) d b =
      let change = step-Step sha256 store c d in
      let rest =
        run-IsBounded (step sha256 store c).0 cs (Step-Distinct change d)
          (Step-IsBounded change b) in
      elim (Option-cases (step sha256 store c).1) [
        | inl e ↦ rw (e, run) rest
        | inr (g, e) ↦ rw (e, run) rest
      ]

  run-limit :
      (store : Approvals) (cs : List Call)
      → Distinct store.requests
      → (run sha256 store cs).0.waiting_per_session ≡ store.waiting_per_session
  unfolding run
  run-limit store [] d = refl
  run-limit store (c ∷ cs) d =
      let change = step-Step sha256 store c d in
      let rest =
        run-limit (step sha256 store c).0 cs (Step-Distinct change d) ∙ Step-limit change in
      elim (Option-cases (step sha256 store c).1) [
        | inl e ↦ rw (e, run) rest
        | inr (g, e) ↦ rw (e, run) rest
      ]

  -- From an empty store, after any calls at any times, no session has more requests waiting for a
  -- human than the limit the store was made with.
  pub run-queue :
      (windows : Windows) (waiting_per_session : ℕ) (cs : List Call) (session : Text)
      → waiting_in session (run sha256 (create windows waiting_per_session) cs).0
        ≤ waiting_per_session
  unfolding create values
  run-queue windows waiting_per_session cs session = omega (
    arith,
    run-IsBounded (create windows waiting_per_session) cs tt (λ i. omega arith) session,
    run-limit (create windows waiting_per_session) cs tt,
  )
