-- ===== src/Approval/Stated.antt =====
-- Every grant names an approver who is stated.
use mathlib.Core.Option.{none-ne-some}
use mcp_ssh_rs.Prelude.{
  ℕ, Bool, true, false, Option, some, List, [], ◌∷◌, ◌≡◌, arith, ◌==◌, Bool-cases, Option-cases,
  inl, inr, All, subst,
}
use mcp_ssh_rs.Text.{Text, text_eq}
use mcp_ssh_rs.Dict.{get, insert, Distinct, get-insert, get_of_retain, get_of_remove}
use mcp_ssh_rs.Approval.{Approver, Approvals, Grant, Held, State, Windows, create, is_stated}
use mcp_ssh_rs.Approval.Answering.{sweep}
use mcp_ssh_rs.Approval.Asking.{held_for}
use mcp_ssh_rs.Approval.Calls.{Call, asks, redeems, decides, marks, sweeps, step, run}
use mcp_ssh_rs.Approval.Evolution.{
  Evolves, stays, answers, records, spends, Change, unchanged, evolved, created, replaced,
}
use mcp_ssh_rs.Approval.Changes.{Step, idles, changes, sweeps_first, drops, step-Step}
use mcp_ssh_rs.Approval.Grants.{Spends, ask_with-Spends, redeem-Spends}
use mcp_ssh_rs.Approval.Once.{Step-Distinct}

-- Whoever agreed is stated.
abbrev Agreed : Held → Type 0
Agreed h =
    (by : Approver) (recorded : Bool) → h.state ≡ State.approved by recorded → is_stated by ≡ true

abbrev pub AllStated : Approvals → Type 0
AllStated store = (k : Text) (h : Held) → get k store.requests ≡ some h → Agreed h

Evolves-Agreed :
    {c : Call} {k : Text} {windows : Windows} {h h' : Held}
    → Evolves c k windows h h'
    → Agreed h
    → Agreed h'
Evolves-Agreed stays a by recorded e = a by recorded e
Evolves-Agreed (answers who true redeemable now called w stated early alive) a by recorded e =
    ground (arith, e, stated)
Evolves-Agreed (answers who false redeemable now called w stated early alive) a by recorded e =
    ground (arith, e)
Evolves-Agreed (records who before called was) a by recorded e = ground (arith, a who before was, e)
Evolves-Agreed (spends who now called was early) a by recorded e = ground (arith, e)

inserted-AllStated :
    (k : Text) (v : Held) (store : Approvals)
    → Agreed v
    → AllStated store
    → AllStated (record store { requests = insert k v store.requests })
inserted-AllStated k v store a s j h e = elim (Bool-cases (k == j)) [
  | inl same ↦ subst Agreed (taken same) a
  | inr other ↦ s j h (ground (arith, e, get-insert k j v store.requests))
]
  where
    taken : (k == j) ≡ true → v ≡ h
    taken same = ground (arith, e, get-insert k j v store.requests)

Change-AllStated :
    {sha256 : List ℕ → List ℕ} {c : Call} {store after : Approvals}
    → Change sha256 c store after
    → AllStated store
    → AllStated after
Change-AllStated unchanged s j h e = s j h e
Change-AllStated {store = store} (evolved k v v' e change) s j h f =
    inserted-AllStated k v' store (Evolves-Agreed change (s k v e)) s j h f
Change-AllStated {store = store} (created k action held now m room) s j h f =
    inserted-AllStated k (held_for store k action held now) store
      (λ by recorded e. ground (arith, e)) s j h f
Change-AllStated {store = store} (replaced k old action held now m room lapsed) s j h f =
    inserted-AllStated k (held_for store k action held now) store
      (λ by recorded e. ground (arith, e)) s j h (get_of_remove old j h _ f)

Step-AllStated :
    {sha256 : List ℕ → List ℕ} {c : Call} {store after : Approvals}
    → Step sha256 c store after
    → Distinct store.requests
    → AllStated store
    → AllStated after
Step-AllStated idles d s = λ j h e. s j h e
Step-AllStated (changes direct c) d s = Change-AllStated c s
Step-AllStated {store = store} (sweeps_first asked fresh_id now accepts called c) d s =
    Change-AllStated c (λ j h e. s j h (get_of_retain _ j h store.requests d e))
Step-AllStated {store = store} (drops lives now called) d s =
    unfold sweep in λ j h e. s j h (get_of_retain _ j h store.requests d e)

Spends-stated :
    {before after : Approvals} {session : Option Text} {principal action : Text} {now : ℕ}
    {g : Grant}
    → Spends before after session principal action now g
    → AllStated before
    → is_stated g.approver ≡ true
Spends-stated {g = g} s all_stated = all_stated g.request s.held s.found g.approver true s.agreed

module _ (sha256 : List ℕ → List ℕ) where
  step-stated :
      (store : Approvals) (c : Call) (g : Grant)
      → Distinct store.requests
      → AllStated store
      → (step sha256 store c).1 ≡ some g
      → is_stated g.approver ≡ true
  unfolding step
  step-stated store (asks held id now accepts) g d s h =
      Spends-stated (ask_with-Spends sha256 store d id held now accepts g h) s
  step-stated store (redeems id principal action agent_intent now accepts) g d s h =
      Spends-stated (redeem-Spends sha256 store d id principal action agent_intent now accepts g h)
        s
  step-stated store (decides id approver agreed redeemable now) g d s h = absurd (none-ne-some g h)
  step-stated store (marks id) g d s h = absurd (none-ne-some g h)
  step-stated store (sweeps lives now) g d s h = absurd (none-ne-some g h)

  run-stated :
      (store : Approvals) (cs : List Call)
      → Distinct store.requests
      → AllStated store
      → All (λ g. is_stated g.approver ≡ true) (run sha256 store cs).1
  unfolding run
  run-stated store [] d s = tt
  run-stated store (c ∷ cs) d s =
      let change = step-Step sha256 store c d in
      let rest =
        run-stated (step sha256 store c).0 cs (Step-Distinct change d)
          (Step-AllStated change d s) in
      elim (Option-cases (step sha256 store c).1) [
        | inl e ↦ rw (e, run) rest
        | inr (g, e) ↦ rw (e, run) (step-stated store c g d s e, rest)
      ]

  -- From an empty store, after any calls, every grant that was handed over names an approver who is
  -- stated: a name that is not blank, and for an override a reason that is not.
  pub grants_stated :
      (windows : Windows) (limit : ℕ) (cs : List Call)
      → All (λ g. is_stated g.approver ≡ true) (run sha256 (create windows limit) cs).1
  unfolding create get
  grants_stated windows limit cs =
      run-stated (create windows limit) cs tt (λ k h e. absurd (none-ne-some h e))
