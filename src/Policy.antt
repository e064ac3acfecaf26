-- ===== src/Policy.antt =====
-- crates/ssh-core/src/policy.rs: which accounts need a human's review.
use mcp_ssh_rs.Prelude.{Bool, true, false, List, [], ◌∷◌, if◌then◌else◌, ◌==◌, Result, ok, err}
use mcp_ssh_rs.Text.{Text, text, text_eq}
use mcp_ssh_rs.Ids.{AccessClass, read_only, privileged}
use mcp_ssh_rs.Command.{Command}
use mcp_ssh_rs.Action.{Action, execute_action}
use mcp_ssh_rs.Session.{Session}

pub data ReviewMode : Type 0 where
  disabled all privileged_only : ReviewMode

pub data PolicyError : Type 0 where
  invalid_review_mode : PolicyError

-- `ReviewMode::from_str`.
unfoldable pub parse_mode : Text → Result PolicyError ReviewMode
parse_mode value =
    if value == text "disabled"
    then ok disabled
    else (if value == text "all"
        then ok all
        else (if value == text "privileged" then ok privileged_only else err invalid_review_mode))

pub data Verdict : Type 0 where
  permit needs_approval deny : Verdict

pub record Decision : Type 0 where
  pub verdict : Verdict
  pub policies : List Text
  pub explanation : Text
  pub action : Action
  pub session : Session

abbrev is_privileged : AccessClass → Bool
is_privileged privileged = true
is_privileged read_only = false

abbrev pub is_held : ReviewMode → AccessClass → Bool
is_held disabled class = false
is_held all class = true
is_held privileged_only class = is_privileged class

abbrev pub verdict_of : Bool → Verdict
verdict_of true = needs_approval
verdict_of false = permit

abbrev explanation_of : Bool → Text
explanation_of true = text "This account requires human approval."
explanation_of false = text "The configured account does not require local human approval."

abbrev policy_of : Bool → Text
policy_of true = text "local-human-review"
policy_of false = text "configured-account"

-- `Engine::decide_action`.
unfoldable pub decide_action : ReviewMode → Session → Action → Decision
decide_action review session action =
    let held = is_held review session.access_class in
    record {
      verdict = verdict_of held;
      policies = policy_of held ∷ [];
      explanation = explanation_of held;
      action = action;
      session = session;
    }

-- `Engine::decide`.
unfoldable pub decide : ReviewMode → Session → Command → Decision
unfolding decide_action
decide review session command = decide_action review session (execute_action command)

-- What the operator's setting asks of an account.
pub data MustReview : ReviewMode → AccessClass → Type 0 where
  every_account : (class : AccessClass) → MustReview all class
  privileged_account : MustReview privileged_only privileged
