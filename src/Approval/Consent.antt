-- ===== src/Approval/Consent.antt =====
-- A standing agreement answers for its session alone, until it ends or is withdrawn.
use mcp_ssh_rs.Prelude.{
  ℕ, Bool, false, not, ◌&&◌, none, some, [], ◌∷◌, ◌≡◌, refl, if◌then◌else◌, arith, ◌==◌, ltb, find,
  eq_refl, Bool-cases, inl, inr,
}
use mcp_ssh_rs.Text.{Text, text_eq}
use mcp_ssh_rs.Dict.{Dict, insert, remove, retain, values}
use mcp_ssh_rs.Approval.{Approver, Approvals, StandingApproval, session_standing}
use mcp_ssh_rs.Approval.Agreements.{grant_standing, revoke_standing, use_standing}

-- No agreement of the session.
abbrev Absent : Text → Dict Text StandingApproval → Type 0
Absent session [] = Unit {0}
Absent session ((k, a) ∷ m) = ((a.session == session) ≡ false) × Absent session m

retain-Absent :
    (session : Text) (now : ℕ) (m : Dict Text StandingApproval)
    → Absent session (retain (λ a. ltb now a.until && not (a.session == session)) m)
unfolding retain
retain-Absent session now [] = tt
retain-Absent session now ((k, a) ∷ m) = ground (arith, retain-Absent session now m)

remove-Absent :
    (session id : Text) (m : Dict Text StandingApproval)
    → Absent session m
    → Absent session (remove id m)
unfolding remove
remove-Absent session id [] h = tt
remove-Absent session id ((k, b) ∷ m) h = ground (arith, remove-Absent session id m h.1)

remove-insert-Absent :
    (session id : Text) (a : StandingApproval) (m : Dict Text StandingApproval)
    → Absent session m
    → Absent session (remove id (insert id a m))
unfolding remove insert
remove-insert-Absent session id a [] h = ground (arith, eq_refl id)
remove-insert-Absent session id a ((k, b) ∷ m) h = elim (Bool-cases (k == id)) [
  | inl same ↦ rw (same, remove, eq_refl id) (remove-Absent session id m h.1)
  | inr other ↦ rw (other, remove, other) (h.0, remove-insert-Absent session id a m h.1)
]

module _ (session : Text) (now : ℕ) where
  abbrev answers : StandingApproval → Bool
  answers a = a.session == session && ltb now a.until

  find-Absent : (m : Dict Text StandingApproval) → Absent session m → find answers (values m) ≡ none
  unfolding values
  find-Absent [] h = refl
  find-Absent ((k, a) ∷ m) h = ground (arith, find-Absent m h.1)

  find-insert :
      (id : Text) (a : StandingApproval) (m : Dict Text StandingApproval)
      → Absent session m
      → find answers (values (insert id a m)) ≡ (if answers a then some a else none)
  unfolding values insert
  find-insert id a [] h = ground arith
  find-insert id a ((k, b) ∷ m) h = ground (arith, find-insert id a m h.1, find-Absent m h.1)

-- After an agreement is granted for a session, whatever stood before, the session is answered for by
-- that agreement and its giver at exactly the times before the agreement ends, and at no time once
-- the agreement is withdrawn.
pub grant_standing_lem :
    {R : Type 0} (store : Approvals) (id session who : Text) (until now later : ℕ)
    (use_approval : Approver → R)
    → let granted = (grant_standing store id session who until now).0 in
      (use_standing granted session later use_approval
        ≡ (if ltb later until then some (use_approval (session_standing who id)) else none))
      × (use_standing (revoke_standing granted id).0 session later use_approval ≡ none)
unfolding grant_standing use_standing revoke_standing
grant_standing_lem store id session who until now later use_approval = (
  rw (find-insert session later id agreement kept absent, eq_refl session)
      (elim (Bool-cases (ltb later until)) [ inl e ↦ rw e refl | inr e ↦ rw e refl ]),
  rw
      (find-Absent session later (remove id (insert id agreement kept))
        (remove-insert-Absent session id agreement kept absent))
      refl,
)
  where
    agreement : StandingApproval
    agreement = record { id = id; session = session; who = who; until = until }

    kept : Dict Text StandingApproval
    kept = retain (λ a. ltb now a.until && not (a.session == session)) store.standing

    absent : Absent session kept
    absent = retain-Absent session now store.standing
