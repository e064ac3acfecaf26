-- ===== src/Approval/Once.antt =====
-- A request is spent at most once.
use mathlib.Core.Option.{none-ne-some}
use mcp_ssh_rs.Prelude.{
  ℕ, Bool, true, not, Option, some, List, [], ◌∷◌, ◌≡◌, ◌≢◌, refl, ap, ◌∙◌, arith, ◌==◌, eq→≡,
  Bool-cases, Option-cases, inl, inr, All, subst,
}
use mcp_ssh_rs.Text.{Text, text_eq}
use mcp_ssh_rs.Dict.{
  get, insert, retain, Distinct, get-insert, get_of_retain, get_of_remove, retain-Distinct,
  insert-Distinct, remove-Distinct,
}
use mcp_ssh_rs.Approval.{Approvals, Grant, Held, State, Windows, is_forgettable}
use mcp_ssh_rs.Approval.Answering.{sweep}
use mcp_ssh_rs.Approval.Asking.{held_for}
use mcp_ssh_rs.Approval.Calls.{Call, asks, redeems, decides, marks, sweeps, step, run}
use mcp_ssh_rs.Approval.Evolution.{
  Evolves, stays, answers, records, spends, Change, unchanged, evolved, created, replaced,
  Asks-draws, draws,
}
use mcp_ssh_rs.Approval.Changes.{Step, idles, changes, sweeps_first, drops, step-Step}
use mcp_ssh_rs.Approval.Grants.{Spends, ask_with-Spends, redeem-Spends}

Change-Distinct :
    {sha256 : List ℕ → List ℕ} {c : Call} {store after : Approvals}
    → Change sha256 c store after
    → Distinct store.requests
    → Distinct after.requests
Change-Distinct unchanged d = d
Change-Distinct {store = store} (evolved k v v' e change) d = insert-Distinct k v' store.requests d
Change-Distinct {store = store} (created k action held now m room) d =
    insert-Distinct k (held_for store k action held now) store.requests d
Change-Distinct {store = store} (replaced k old action held now m room lapsed) d =
    remove-Distinct old _ (insert-Distinct k (held_for store k action held now) store.requests d)

pub Step-Distinct :
    {sha256 : List ℕ → List ℕ} {c : Call} {store after : Approvals}
    → Step sha256 c store after
    → Distinct store.requests
    → Distinct after.requests
Step-Distinct idles d = d
Step-Distinct (changes direct c) d = Change-Distinct c d
Step-Distinct {store = store} (sweeps_first asked fresh_id now accepts called c) d =
    Change-Distinct c (retain-Distinct (λ held. not (is_forgettable held now)) store.requests d)
Step-Distinct {store = store} (drops lives now called) d =
    unfold sweep in retain-Distinct _ store.requests d

-- Nothing is left to spend under `id`.
abbrev pub IsSpent : Text → Approvals → Type 0
IsSpent id store = (h : Held) → get id store.requests ≡ some h → h.state ≡ State.redeemed

Evolves-redeemed :
    {c : Call} {k : Text} {windows : Windows} {h h' : Held}
    → Evolves c k windows h h'
    → h.state ≡ State.redeemed
    → h'.state ≡ State.redeemed
Evolves-redeemed stays r = r
Evolves-redeemed (answers by agreed redeemable now called w stated early alive) r = cc
Evolves-redeemed (records by before called a) r = cc
Evolves-redeemed (spends by now called a early) r = refl

inserted-IsSpent :
    (id k : Text) (v : Held) (store : Approvals)
    → (k ≡ id → v.state ≡ State.redeemed)
    → IsSpent id store
    → IsSpent id (record store { requests = insert k v store.requests })
inserted-IsSpent id k v store own s h e = elim (Bool-cases (k == id)) [
  | inl same ↦ taken same
  | inr other ↦ s h (ground (arith, e, get-insert k id v store.requests))
]
  where
    taken : (k == id) ≡ true → h.state ≡ State.redeemed
    taken same = ground (arith, e, own (eq→≡ k id same), get-insert k id v store.requests)

Change-IsSpent :
    (id : Text) {sha256 : List ℕ → List ℕ} {c : Call} {store after : Approvals}
    → Change sha256 c store after
    → draws c ≢ some id
    → IsSpent id store
    → IsSpent id after
Change-IsSpent id unchanged fresh s = s
Change-IsSpent id {store = store} (evolved k v v' e change) fresh s =
    inserted-IsSpent id k v' store
      (λ same. Evolves-redeemed change (s v (subst (λ j. get j store.requests ≡ some v) same e))) s
Change-IsSpent id {store = store} (created k action held now m room) fresh s =
    inserted-IsSpent id k _ store (λ same. absurd (fresh (Asks-draws m ∙ ap some same))) s
Change-IsSpent id {store = store} (replaced k old action held now m room lapsed) fresh s = λ h e.
    inserted-IsSpent id k _ store (λ same. absurd (fresh (Asks-draws m ∙ ap some same))) s h
      (get_of_remove old id h _ e)

kept-IsSpent :
    (id : Text) (p : Held → Bool) (store : Approvals)
    → Distinct store.requests
    → IsSpent id store
    → IsSpent id (record store { requests = retain p store.requests })
kept-IsSpent id p store d s h e = s h (get_of_retain p id h store.requests d e)

Step-IsSpent :
    (id : Text) {sha256 : List ℕ → List ℕ} {c : Call} {store after : Approvals}
    → Step sha256 c store after
    → draws c ≢ some id
    → Distinct store.requests
    → IsSpent id store
    → IsSpent id after
Step-IsSpent id idles fresh d s = s
Step-IsSpent id (changes direct c) fresh d s = Change-IsSpent id c fresh s
Step-IsSpent id {store = store} (sweeps_first asked fresh_id now accepts called c) fresh d s =
    Change-IsSpent id c fresh (kept-IsSpent id (λ held. not (is_forgettable held now)) store d s)
Step-IsSpent id {store = store} (drops lives now called) fresh d s =
    unfold sweep in kept-IsSpent id _ store d s

Spends-IsSpent :
    {before after : Approvals} {session : Option Text} {principal action : Text} {now : ℕ}
    {g : Grant}
    → Spends before after session principal action now g
    → IsSpent g.request after
Spends-IsSpent s h e = ground (arith, s.used_up, e)

IsSpent-other :
    {before after : Approvals} {session : Option Text} {principal action : Text} {now : ℕ}
    {g : Grant} (id : Text)
    → Spends before after session principal action now g
    → IsSpent id before
    → g.request ≢ id
IsSpent-other {before = before} id s spent_before same =
    let redeemed =
      spent_before s.held (subst (λ j. get j before.requests ≡ some s.held) same s.found) in
    ground (arith, redeemed, s.agreed)

module _ (sha256 : List ℕ → List ℕ) where
  -- A grant leaves its request spent, and was not spent before.
  pub record HandsOver (before after : Approvals) (grant : Grant) : Type 0 where
    pub spent_after : IsSpent grant.request after
    pub not_before : (id : Text) → IsSpent id before → grant.request ≢ id

  pub step-HandsOver :
      (store : Approvals) (c : Call) (g : Grant)
      → Distinct store.requests
      → (step sha256 store c).1 ≡ some g
      → HandsOver store (step sha256 store c).0 g
  unfolding step
  step-HandsOver store (asks held id now accepts) g d h =
      let s = ask_with-Spends sha256 store d id held now accepts g h in
      record { spent_after = Spends-IsSpent s; not_before = λ id. IsSpent-other id s }
  step-HandsOver store (redeems id principal action agent_intent now accepts) g d h =
      let s = redeem-Spends sha256 store d id principal action agent_intent now accepts g h in
      record { spent_after = Spends-IsSpent s; not_before = λ id. IsSpent-other id s }
  step-HandsOver store (decides id approver agreed redeemable now) g d h = absurd (none-ne-some g h)
  step-HandsOver store (marks id) g d h = absurd (none-ne-some g h)
  step-HandsOver store (sweeps lives now) g d h = absurd (none-ne-some g h)

  -- No grant of a run is for a request that is spent when it begins, unless a new request draws that
  -- identifier.
  run-IsSpent :
      (id : Text) (store : Approvals) (cs : List Call)
      → Distinct store.requests
      → IsSpent id store
      → All (λ c. draws c ≢ some id) cs
      → All (λ grant. grant.request ≢ id) (run sha256 store cs).1
  unfolding run
  run-IsSpent id store [] d s fresh = tt
  run-IsSpent id store (c ∷ cs) d s fresh =
      let change = step-Step sha256 store c d in
      let rest =
        run-IsSpent id (step sha256 store c).0 cs (Step-Distinct change d)
          (Step-IsSpent id change fresh.0 d s) fresh.1 in
      elim (Option-cases (step sha256 store c).1) [
        | inl e ↦ rw (e, run) rest
        | inr (g, e) ↦ rw (e, run) ((step-HandsOver store c g d e).not_before id s, rest)
      ]

  -- In a store with one request per identifier, after a call hands over a grant, no later calls of any
  -- kind, in any order, hand over another for the same request, as long as none of them draws its
  -- identifier for a new request.
  pub granted_once :
      (store : Approvals) (c : Call) (cs : List Call) (g : Grant)
      → Distinct store.requests
      → (step sha256 store c).1 ≡ some g
      → All (λ later. draws later ≢ some g.request) cs
      → All (λ again. again.request ≢ g.request) (run sha256 (step sha256 store c).0 cs).1
  granted_once store c cs g d h fresh =
      run-IsSpent g.request (step sha256 store c).0 cs
        (Step-Distinct (step-Step sha256 store c d) d) (step-HandsOver store c g d h).spent_after
        fresh
