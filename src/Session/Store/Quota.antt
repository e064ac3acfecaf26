-- ===== src/Session/Store/Quota.antt =====
-- No principal occupies more than its allowance, counting sessions that are held and slots of
-- pending opens.
use mcp_ssh_rs.Prelude.{
  ℕ, ◌+◌, ◌≤◌, ◌<◌, ◌≡◌, Bool, true, not, arith, if◌then◌else◌, ◌==◌, nat_beq, ltb, Bool-cases,
  Option-cases, inl, inr, ok, err, Result, eq→≡, ◌∙◌, ap,
}
use mcp_ssh_rs.Text.{Text, text_eq}
use mcp_ssh_rs.Dict.{
  Dict, get, remove, retain, values, Distinct, get-insert, get-retain, insert-Distinct,
  retain-Distinct, remove-Distinct,
}
use mcp_ssh_rs.Clock.{saturating_add, u64_max}
use mcp_ssh_rs.Session.{Session, TooManySessions}
use mcp_ssh_rs.Session.Store.{
  SessionStore, Opening, pending_of, adjust, count_up, or_zero, held_by, admit, settle, reserve,
  stalest,
}
use mcp_ssh_rs.Dict.Counts.{count-retain-le, count-remove-le}
use mcp_ssh_rs.Session.Store.Counts.{
  Keyed, Found, count-remove-Found, stalest-Found, Keyed-retain, Keyed-remove,
}

abbrev pub owned : Text → Session → Bool
owned principal held = held.principal == principal

-- The slots that a principal occupies.
abbrev pub occupied : Text → SessionStore → ℕ
occupied principal store = held_by principal store.sessions + pending_of principal store.pending

pub record IsWithin (store : SessionStore) : Type 0 where
  pub keyed : Keyed store.sessions
  pub distinct_sessions : Distinct store.sessions
  pub distinct : Distinct store.pending
  pub quota : (principal : Text) → occupied principal store ≤ store.per_principal
  pub small : store.per_principal ≤ u64_max

pub pending-adjust :
    (f : ℕ → ℕ) (p q : Text) (m : Dict Text ℕ)
    → pending_of q (adjust f p m) ≡ (if p == q then f (pending_of p m) else pending_of q m)
unfolding pending_of adjust
pending-adjust f p q m = ground (arith, get-insert p q (f (or_zero (get p m))) m)

pub adjust-Distinct :
    (f : ℕ → ℕ) (p : Text) (m : Dict Text ℕ) → Distinct m → Distinct (adjust f p m)
unfolding adjust
adjust-Distinct f p m d = insert-Distinct p _ m d

-- Dropping the counters at 0, and making one for the principal, changes no count.
pub pending-settle :
    (store : SessionStore) (p q : Text) (now : ℕ)
    → Distinct store.pending
    → pending_of q (settle store p now).pending ≡ pending_of q store.pending
unfolding pending_of settle
pending-settle store p q now d =
    let kept = retain (λ count. not (nat_beq count 0)) store.pending in
    ground (
      arith,
      text_eq.beq_iff p q,
      get-insert p q (or_zero (get p kept)) kept,
      get-retain (λ count. not (nat_beq count 0)) p store.pending d,
      get-retain (λ count. not (nat_beq count 0)) q store.pending d,
    )

settle-quota :
    (store : SessionStore) (p q : Text) (now : ℕ)
    → IsWithin store
    → occupied q (settle store p now) ≤ store.per_principal
settle-quota store p q now v =
    omega (arith, v.quota q, pending-settle store p q now v.distinct, fewer)
  where
    fewer : held_by q (settle store p now).sessions ≤ held_by q store.sessions
    fewer = unfold settle in count-retain-le (owned q) _ store.sessions

pub settle-IsWithin :
    (store : SessionStore) (p : Text) (now : ℕ) → IsWithin store → IsWithin (settle store p now)
settle-IsWithin store p now v = record {
  keyed = unfold settle in Keyed-retain _ store.sessions v.keyed;
  distinct_sessions = unfold settle in retain-Distinct _ store.sessions v.distinct_sessions;
  distinct = unfold settle in insert-Distinct p _ _ (retain-Distinct _ store.pending v.distinct);
  quota = λ q. unfold settle in settle-quota store p q now v;
  small = unfold settle in v.small;
}

module _ (store : SessionStore) (p : Text) (v : IsWithin store) where
  -- A free slot is taken.
  take-IsWithin :
      occupied p store < store.per_principal
      → IsWithin (record store { pending = adjust count_up p store.pending })
  take-IsWithin free = record {
    keyed = v.keyed;
    distinct_sessions = v.distinct_sessions;
    distinct = adjust-Distinct count_up p store.pending v.distinct;
    quota = λ q.
        ground (arith, pending-adjust count_up p q store.pending, v.quota q, text_eq.beq_iff p q);
    small = v.small;
  }

  -- A lapsed session of the principal gives up its slot.
  replace-IsWithin :
      (s : Session)
      → Found s (values store.sessions)
      → (s.principal == p) ≡ true
      → IsWithin (record store {
        sessions = remove s.id store.sessions;
        pending = adjust count_up p store.pending;
      })
  replace-IsWithin s found mine = record {
    keyed = Keyed-remove s.id store.sessions v.keyed;
    distinct_sessions = remove-Distinct s.id store.sessions v.distinct_sessions;
    distinct = adjust-Distinct count_up p store.pending v.distinct;
    quota = λ q. elim (Bool-cases (p == q)) [
      | inl same ↦ rw (← eq→≡ p q same) (
          ground (
            arith,
            pending-adjust count_up p p store.pending,
            v.quota p,
            v.small,
            text_eq.beq_iff p p,
            count-remove-Found (owned p) s store.sessions v.keyed found mine,
          ))
      | inr other ↦ ground (
        arith,
        pending-adjust count_up p q store.pending,
        v.quota q,
        count-remove-le (owned q) s.id store.sessions,
      )
    ];
    small = v.small;
  }

pub admit-IsWithin :
    (store : SessionStore) (p : Text) (now : ℕ) → IsWithin store → IsWithin (admit store p now).0
unfolding admit
admit-IsWithin store p now v = elim (Bool-cases test) [
  | inl free ↦ rw free (take-IsWithin store p v (ground arith))
  | inr full ↦ elim (Option-cases (stalest p now (values store.sessions))) [
    | inl e ↦ rw (full, e) v
    | inr (s, e) ↦
        let (found, mine, over) = stalest-Found p now (values store.sessions) s e in
        rw (full, e) (replace-IsWithin store p v s found mine)
  ]
]
  where
    test : Bool
    test =
        ltb (saturating_add (held_by p store.sessions) (pending_of p store.pending))
          store.per_principal

pub reserve-IsWithin :
    (store : SessionStore) (p : Text) (now : ℕ) → IsWithin store → IsWithin (reserve store p now).0
unfolding reserve
reserve-IsWithin store p now v =
    admit-IsWithin (settle store p now) p now (settle-IsWithin store p now v)

abbrev pub added : Text → Text → Result TooManySessions Opening → ℕ
added p r (ok opening) = if p == r then 1 else 0
added p r (err e) = 0

-- A reservation counts in the principal's counter exactly when it is granted.
admit-pending :
    (store : SessionStore) (p r : Text) (now : ℕ)
    → IsWithin store
    → pending_of r (admit store p now).0.pending
      ≡ pending_of r store.pending + added p r (admit store p now).1
unfolding admit
admit-pending store p r now v = elim (Bool-cases test) [
  | inl free ↦ rw free (raised (ground (arith, v.small)))
  | inr full ↦ elim (Option-cases (stalest p now (values store.sessions))) [
    | inl e ↦ rw (full, e) (omega arith)
    | inr (s, e) ↦
        let (found, mine, over) = stalest-Found p now (values store.sessions) s e in
        rw (full, e)
          (raised (
            omega (
              arith,
              v.quota p,
              v.small,
              count-remove-Found (owned p) s store.sessions v.keyed found mine,
            )))
  ]
]
  where
    test : Bool
    test =
        ltb (saturating_add (held_by p store.sessions) (pending_of p store.pending))
          store.per_principal

    raised :
        pending_of p store.pending < u64_max
        → pending_of r (adjust count_up p store.pending)
          ≡ pending_of r store.pending + (if p == r then 1 else 0)
    raised room = ground (arith, pending-adjust count_up p r store.pending, text_eq.beq_iff p r)

pub reserve-pending :
    (store : SessionStore) (p r : Text) (now : ℕ)
    → IsWithin store
    → pending_of r (reserve store p now).0.pending
      ≡ pending_of r store.pending + added p r (reserve store p now).1
unfolding reserve
reserve-pending store p r now v =
    admit-pending (settle store p now) p r now (settle-IsWithin store p now v)
    ∙ ap (λ n. n + added p r (admit (settle store p now) p now).1)
        (pending-settle store p r now v.distinct)
