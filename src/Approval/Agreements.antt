-- ===== src/Approval/Agreements.antt =====
-- Standing agreements: how they are given, withdrawn, and used for a session.
use mathlib.Core.Option
use mcp_ssh_rs.Prelude.{
  ℕ, Bool, true, false, not, ◌&&◌, Option, none, some, List, ltb, ◌==◌, find, keep_if,
}
use mcp_ssh_rs.Text.{Text, text_eq}
use mcp_ssh_rs.Dict.{get, insert, remove, retain, values}
use mcp_ssh_rs.Approval.{Approver, session_standing, StandingApproval, Approvals}

-- `grant_standing`: a newer agreement replaces the session's, and expired ones go.
unfoldable pub grant_standing : Approvals → Text → Text → Text → ℕ → ℕ → Approvals × Text
grant_standing store id session who until now =
    let agreement : StandingApproval = record {
      id = id;
      session = session;
      who = who;
      until = until;
    } in
    let kept =
      retain (λ existing. ltb now existing.until && not (existing.session == session))
        store.standing in
    (record store { standing = insert id agreement kept }, id)

abbrev is_present : Option StandingApproval → Bool
is_present none = false
is_present (some agreement) = true

unfoldable pub revoke_standing : Approvals → Text → Approvals × Bool
revoke_standing store agreement = (
  record store { standing = remove agreement store.standing },
  is_present (get agreement store.standing),
)

abbrev standing_approver : StandingApproval → Approver
standing_approver agreement = session_standing agreement.who agreement.id

-- `use_standing`: `use_approval` runs under the lock, on the session's agreement if one answers.
unfoldable pub use_standing : {R : Type 0} → Approvals → Text → ℕ → (Approver → R) → Option R
use_standing store session now use_approval =
    Option.map (λ agreement. use_approval (standing_approver agreement))
      (find (λ agreement. agreement.session == session && ltb now agreement.until)
        (values store.standing))

-- `standing`: the agreements that still answer.
unfoldable pub answering : Approvals → ℕ → List StandingApproval
answering store now = keep_if (λ agreement. ltb now agreement.until) (values store.standing)
