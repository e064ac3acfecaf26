-- ===== src/Audit/Reviewed.antt =====
-- The decision of crates/ssh-core/src/policy.rs and the receipt of crates/ssh-core/src/audit.rs.
use mcp_ssh_rs.Prelude.{ℕ, ◌≡◌, ◌↔◌, refl, Bool, true, false, Option, none, some, ok}
use mcp_ssh_rs.Text.{Text}
use mcp_ssh_rs.Ids.{AccessClass, read_only, privileged}
use mcp_ssh_rs.Action.{Action}
use mcp_ssh_rs.Session.{Session}
use mcp_ssh_rs.Policy.{
  ReviewMode, Decision, disabled, all, privileged_only, verdict_of, is_held, MustReview,
  every_account, privileged_account, decide_action,
}
use mcp_ssh_rs.Audit.{Entry, Receipt}
use mcp_ssh_rs.Audit.State.{State, Limits}
use mcp_ssh_rs.Audit.Retention.{Codec}
use mcp_ssh_rs.Audit.Ledger.{Intent, record_intent, is_permit}
use mcp_ssh_rs.Audit.Soundness.{IsSound}
use mcp_ssh_rs.Audit.Receipts.{Answers, record_intent-Minted}

review_iff :
    (mode : ReviewMode) (class : AccessClass)
    → (is_permit (verdict_of (is_held mode class)) ≡ false) ↔ MustReview mode class
review_iff disabled class = (λ h. cc, λ m. elim m [ ])
review_iff all class = (λ h. every_account class, λ m. refl)
review_iff privileged_only privileged = (λ h. privileged_account, λ m. refl)
review_iff privileged_only read_only = (λ h. cc, λ m. elim m [ ])

module _ (codec : Codec) (accepts : Entry → Bool) (genesis : Text) (limits : Limits) where
  Answers-none :
      (permits : Bool) (decision : Decision) (receipt : Option Receipt) (t : State)
      → Answers codec accepts genesis limits permits decision receipt t
      → (receipt ≡ none) ↔ (permits ≡ false)
  Answers-none true decision (some receipt) t a = (λ h. cc, λ h. cc)
  Answers-none true decision none t a = absurd a
  Answers-none false decision receipt t a = (λ h. refl, λ h. a)

  -- When the decision on a session's action is recorded on a sound ledger, recording it hands out no
  -- receipt exactly where the operator's setting covers the account of the session: under `all`, every
  -- account, and under `privileged_only`, a privileged one. No action is exempt.
  pub record_intent-review :
      (mode : ReviewMode) (session : Session) (action : Action) (intended : Text) (at address : ℕ)
      (s t : State) (i : Intent)
      → IsSound codec limits s
      → record_intent codec accepts genesis limits
          (decide_action mode session action)
          intended
          at
          address
          s
        ≡ (t, ok i)
      → (i.receipt ≡ none) ↔ MustReview mode session.access_class
  unfolding decide_action
  record_intent-review mode session action intended at address s t i v r =
      let minted =
        record_intent-Minted codec accepts genesis limits (decide_action mode session action)
          intended at address s t i v r in
      let withheld =
        Answers-none _ (decide_action mode session action) i.receipt t minted.answers in
      let review = review_iff mode session.access_class in
      (λ h. review.0 (withheld.0 h), λ h. withheld.1 (review.1 h))
