-- ===== src/Examples/Approvals.antt =====
-- A request from its asking to its grant.
use mathlib.Core.Option.{none-ne-some}
use mcp_ssh_rs.Prelude.{
  ltb, ok, if◌then◌else◌, ℕ, ap, false≢true, ◌==◌, ◌≡◌, ◌≢◌, ◌≤◌, refl, false, true, Bool, List, [],
  ◌∷◌, Option, none, some, All,
}
use mcp_ssh_rs.Text.{Text, text, text_eq, is_whitespace, bytes, char_bytes}
use mcp_ssh_rs.Ids.{read_only}
use mcp_ssh_rs.Action.{ActionKind, Action, execute_action, kind, as_str}
use mcp_ssh_rs.Policy.{ReviewMode, decide_action}
use mcp_ssh_rs.Digest.{
  digest_action, digest_parts, hex, preimage, arguments, as_bytes, le_bytes, utf8_char,
}
use mcp_ssh_rs.Dict.{Distinct, get, insert, retain, values}
use mcp_ssh_rs.Approval.{
  Approver, Approvals, Grant, Held, Intended, State, Windows, create, is_stated, is_forgettable,
}
use mcp_ssh_rs.Approval.Asking.{ask_with, ask_swept, ask_unanswered, ask_new, find_map, spend}
use mcp_ssh_rs.Approval.Answering.{decide, decide_held, mark_recorded, mark_held}
use mcp_ssh_rs.Approval.Redeeming.{redeem_action_with, redeem_held}
use mcp_ssh_rs.Approval.Calls.{Call, asks, redeems, marks, decides, consume, from_ask, step, run}
use mcp_ssh_rs.Approval.Evolution.{waiting_in}
use mcp_ssh_rs.Approval.Grants.{Spends, ask_with-Spends, redeem-Spends}
use mcp_ssh_rs.Approval.Changes.{Step, step-Step}
use mcp_ssh_rs.Approval.Once.{granted_once}
use mcp_ssh_rs.Approval.Queue.{run-queue}
use mcp_ssh_rs.Approval.Refusal.{Refused, refusal_stands, asks_a_human}
use mcp_ssh_rs.Approval.Agreements.{grant_standing, revoke_standing, use_standing}
use mcp_ssh_rs.Approval.Stated.{grants_stated}
use mcp_ssh_rs.Approval.Consent.{grant_standing_lem}
use mcp_ssh_rs.Examples.Sessions.{held, alice, id_a}

-- A hash that keeps the first bytes.
abbrev prefix : List ℕ → List ℕ
prefix (a ∷ b ∷ rest) = a ∷ b ∷ []
prefix bytes = bytes

abbrev ls : Action
ls = execute_action (record { argv = text "ls" ∷ [] })

abbrev windows : Windows
windows = record { decide_within = 100; redeem_within = 50 }

abbrev intended : Intended
intended = record {
  decision = decide_action ReviewMode.all held ls;
  agent_intent = text "look";
  sequence = 7;
  digest = text "aa";
  proof = none;
}

abbrev request : Text
request = text "r1"

abbrev approver : Approver
approver = Approver.human (text "carol")

-- What the calls before leave: asked at 10, agreed to at 20, and recorded.
abbrev answered : Held
answered = record {
  proof = none;
  asked = record {
    operation = ActionKind.execute;
    id = request;
    session = id_a;
    principal = alice;
    host = text "web-1";
    role = text "ops";
    purpose = text "look";
    access_class = read_only;
    command = text "ls" ∷ [];
    agent_intent = text "look";
    decided = 7;
    decided_digest = text "aa";
    why = text "This account requires human approval.";
    asked_at = 10;
    decide_by = 110;
  };
  action = text "6d63";
  state = State.approved approver true;
  redeem_by = 70;
}

abbrev agreed : Approvals
agreed = record (create windows 2) { requests = (request, answered) ∷ [] }

abbrev grant : Grant
grant = record {
  proof = none;
  request = request;
  session = id_a;
  approver = approver;
  action = text "6d63";
  decided = 7;
  decided_digest = text "aa";
}

agreed_run :
    (run prefix (create windows 2) (
      asks intended request 10 (λ g. true)
      ∷ decides request approver true (λ session. true) 20
      ∷ marks request
      ∷ [])).0
    ≡ agreed
unfolding run step create ask_with decide_action ask_swept find_map retain ask_unanswered values
    ask_new mark_recorded get decide is_stated is_whitespace insert decide_held mark_held kind
    digest_action as_str is_forgettable arguments as_bytes digest_parts hex le_bytes preimage
    utf8_char bytes char_bytes execute_action
agreed_run = refl

redeemed_now :
    (step prefix agreed (redeems request alice ls (text "look") 30 (λ g. true))).1 ≡ some grant
unfolding step redeem_action_with get redeem_held digest_action digest_parts hex preimage spend
redeemed_now = refl

asked_again :
    from_ask (ask_with some prefix agreed (text "r2") intended 30 (consume (λ g. true))).1
    ≡ some grant
unfolding create ask_with decide_action ask_swept find_map retain digest_action digest_parts hex
    preimage spend kind execute_action is_forgettable
asked_again = refl

agreed-Distinct : Distinct agreed.requests
unfolding get
agreed-Distinct = (refl, tt)

redeem-Spends_example :
    Spends agreed
      (redeem_action_with some prefix agreed request alice ls
        (text "look")
        30
        (consume (λ g. true))).0
      none
      alice
      (digest_action prefix ls (text "look"))
      30
      grant
unfolding redeem_action_with step
redeem-Spends_example =
    redeem-Spends prefix agreed agreed-Distinct request alice ls (text "look") 30 (λ g. true) grant
      redeemed_now

ask_with-Spends_example :
    Spends agreed
      (ask_with some prefix agreed (text "r2") intended 30 (consume (λ g. true))).0
      (some id_a)
      alice
      (digest_action prefix ls (text "look"))
      30
      grant
unfolding decide_action execute_action
ask_with-Spends_example =
    ask_with-Spends prefix agreed agreed-Distinct (text "r2") intended 30 (λ g. true) grant
      asked_again

step-Step_example :
    Step prefix
      (asks intended (text "r2") 30 (λ g. true))
      agreed
      (step prefix agreed (asks intended (text "r2") 30 (λ g. true))).0
step-Step_example =
    step-Step prefix agreed (asks intended (text "r2") 30 (λ g. true)) agreed-Distinct

-- Both ways to collect the grant again.
abbrev again : List Call
again =
    redeems request alice ls (text "look") 31 (λ g. true)
    ∷ asks intended (text "r2") 31 (λ g. true)
    ∷ []

abbrev draws_request : Option Text → Bool
draws_request none = false
draws_request (some id) = id == request

granted_once_example :
    All
      (λ g. g.request ≢ request)
      (run prefix
        (step prefix agreed (redeems request alice ls (text "look") 30 (λ g. true))).0
        again).1
granted_once_example =
    granted_once prefix agreed (redeems request alice ls (text "look") 30 (λ g. true)) again grant
      agreed-Distinct redeemed_now (none-ne-some _, ((λ h. false≢true (ap draws_request h)), tt))

run-queue_example :
    waiting_in id_a (run prefix (create windows 2) (asks intended request 10 (λ g. true) ∷ again)).0
    ≤ 2
run-queue_example = run-queue prefix windows 2 (asks intended request 10 (λ g. true) ∷ again) id_a

-- The same request, refused.
abbrev refused_request : Held
refused_request = record answered { state = State.refused approver; redeem_by = 0 }

abbrev refused_store : Approvals
refused_store = record (create windows 2) { requests = (request, refused_request) ∷ [] }

refused_store-Refused : Refused request refused_request approver refused_store
unfolding get
refused_store-Refused = record { found = refl; refused = refl }

refusal_stands_example :
    asks_a_human
      (ask_with some prefix
        (run prefix refused_store
          (redeems request alice ls (text "look") 30 (λ g. true) ∷ marks request ∷ [])).0
        (text "r3")
        intended
        40
        ok).1
    ≡ false
unfolding get decide_action digest_action digest_parts hex preimage kind execute_action
refusal_stands_example =
    refusal_stands prefix refused_store
      (redeems request alice ls (text "look") 30 (λ g. true) ∷ marks request ∷ []) request
      refused_request approver (text "r3") intended 40 ok (refl, tt) refused_store-Refused
      (none-ne-some _, (none-ne-some _, tt)) (refl, (refl, tt)) refl refl

grant_standing_lem_example :
    let granted = (grant_standing agreed (text "g1") id_a (text "carol") 500 100).0 in
    (use_standing granted id_a 200 (λ by. by)
      ≡ (if ltb 200 500 then some (Approver.session_standing (text "carol") (text "g1")) else none))
    × (use_standing (revoke_standing granted (text "g1")).0 id_a 200 (λ by. by) ≡ none)
grant_standing_lem_example =
    grant_standing_lem agreed (text "g1") id_a (text "carol") 500 100 200 (λ by. by)

grants_stated_example :
    All
      (λ g. is_stated g.approver ≡ true)
      (run prefix (create windows 2) (
        asks intended request 10 (λ g. true)
        ∷ decides request approver true (λ session. true) 20
        ∷ marks request
        ∷ redeems request alice ls (text "look") 30 (λ g. true)
        ∷ [])).1
grants_stated_example = grants_stated prefix windows 2 (
    asks intended request 10 (λ g. true)
    ∷ decides request approver true (λ session. true) 20
    ∷ marks request
    ∷ redeems request alice ls (text "look") 30 (λ g. true)
    ∷ [])
