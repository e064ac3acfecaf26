-- ===== src/Session/Store/Runs/Validity.antt =====
-- Every call keeps the store valid.
use mcp_ssh_rs.Prelude.{
  ℕ, ◌+◌, ◌≤◌, ◌≡◌, refl, sym, Bool, true, some, List, [], ◌∷◌, arith, if◌then◌else◌, ◌==◌,
  Bool-cases, inl, inr, ok, err, Result, count_if, ◌∙◌, ap,
}
use mcp_ssh_rs.Text.{Text, text_eq}
use mcp_ssh_rs.Dict.{
  Dict, get, insert, remove, values, Distinct, insert-Distinct, retain-Distinct, remove-Distinct,
}
use mcp_ssh_rs.Clock.{u64_max}
use mcp_ssh_rs.Ids.{AccessClass}
use mcp_ssh_rs.Session.{Session, Lifetime, TooManySessions}
use mcp_ssh_rs.Session.Store.{
  Opening, new, pending_of, adjust, count_down, held_by, reserve, open_reserved, drop_opening,
  sweep,
}
use mcp_ssh_rs.Dict.Counts.{count-retain-le, count-remove-le, count-insert-le, count-insert_present}
use mcp_ssh_rs.Session.Store.Counts.{Keyed, Keyed-retain, Keyed-remove, Keyed-insert, get-Keyed}
use mcp_ssh_rs.Session.Store.Cases.{use_cases, close_cases, remove_cases}
use mcp_ssh_rs.Session.Store.Quota.{
  IsWithin, owned, pending-adjust, adjust-Distinct, reserve-IsWithin, reserve-pending, added,
}
use mcp_ssh_rs.Session.Store.Runs.{
  World, Event, reserves, publishes, abandons, sweeps, uses, closes, removes, is_active, finish,
  begun, outcome, step, run, IsValid, start,
}

is_active-pos : (p : Text) (qs : List Text) → is_active p qs ≡ true → 1 ≤ count_if (λ q. q == p) qs
unfolding is_active
is_active-pos p [] h = cc
is_active-pos p (q ∷ qs) h = ground (arith, is_active-pos p qs)

count-finish :
    (p r : Text) (qs : List Text)
    → is_active p qs ≡ true
    → count_if (λ q. q == r) (finish p qs) + (if p == r then 1 else 0) ≡ count_if (λ q. q == r) qs
unfolding is_active finish
count-finish p r [] h = cc
count-finish p r (q ∷ qs) h =
    ground
      (arith, text_eq.beq_iff q p, text_eq.beq_iff q r, text_eq.beq_iff p r, count-finish p r qs)

count-begun :
    (p r : Text) (active : List Text) (slot : Result TooManySessions Opening)
    → count_if (λ q. q == r) (begun p active slot) ≡ count_if (λ q. q == r) active + added p r slot
count-begun p r active (ok opening) = omega arith
count-begun p r active (err e) = omega arith

module _ (w : World) (v : IsValid w) where
  reserve-IsValid : (p : Text) (now : ℕ) → IsValid (step w (reserves p now))
  reserve-IsValid p now = record {
    within = unfold step in reserve-IsWithin w.store p now v.within;
    counted = λ r.
        unfold step in
        reserve-pending w.store p r now v.within
        ∙ ap (λ n. n + added p r (reserve w.store p now).1) (v.counted r)
        ∙ sym (count-begun p r w.active (reserve w.store p now).1);
  }

  -- The counter of a principal with an active opening does not wrap when the opening ends.
  lower-counted :
      (p r : Text)
      → is_active p w.active ≡ true
      → pending_of r (adjust count_down p w.store.pending)
        ≡ count_if (λ q. q == r) (finish p w.active)
  lower-counted p r h = ground (
    arith,
    pending-adjust count_down p r w.store.pending,
    text_eq.beq_iff p r,
    v.counted p,
    v.counted r,
    v.within.quota p,
    v.within.small,
    is_active-pos p w.active h,
    count-finish p r w.active h,
  )

  lowered :
      (p q : Text)
      → is_active p w.active ≡ true
      → pending_of q (adjust count_down p w.store.pending) + (if p == q then 1 else 0)
        ≡ pending_of q w.store.pending
  lowered p q h = omega (arith, lower-counted p q h, v.counted q, count-finish p q w.active h)

  publish-IsWithin :
      (p id host role purpose : Text) (class : AccessClass) (now : ℕ)
      → is_active p w.active ≡ true
      → IsWithin (open_reserved w.store (record { principal = p }) id host role purpose class now).0
  unfolding open_reserved
  publish-IsWithin p id host role purpose class now h = record {
    keyed = Keyed-insert id _ w.store.sessions refl v.within.keyed;
    distinct_sessions = insert-Distinct id _ w.store.sessions v.within.distinct_sessions;
    distinct = adjust-Distinct count_down p w.store.pending v.within.distinct;
    quota = λ q. omega (
      arith,
      lowered p q h,
      v.within.quota q,
      count-insert-le (owned q) id
          (open_reserved w.store (record { principal = p }) id host role purpose class now).1
          w.store.sessions,
    );
    small = v.within.small;
  }

  publish-IsValid :
      (p id host role purpose : Text) (class : AccessClass) (now : ℕ)
      → is_active p w.active ≡ true
      → IsValid (step w (publishes p id host role purpose class now))
  unfolding step
  publish-IsValid p id host role purpose class now h = rw h (record {
    within = publish-IsWithin p id host role purpose class now h;
    counted = λ r. unfold open_reserved in lower-counted p r h;
  })

  abandon-IsValid : (p : Text) → is_active p w.active ≡ true → IsValid (step w (abandons p))
  unfolding step drop_opening
  abandon-IsValid p h = rw h (record {
    within = record {
      keyed = v.within.keyed;
      distinct_sessions = v.within.distinct_sessions;
      distinct = adjust-Distinct count_down p w.store.pending v.within.distinct;
      quota = λ q. omega (arith, lowered p q h, v.within.quota q);
      small = v.within.small;
    };
    counted = λ r. lower-counted p r h;
  })

  -- An operation that only changes the sessions, and holds no more of any principal's than before.
  sessions-IsValid :
      (m : Dict Text Session)
      → Keyed m
      → Distinct m
      → ((q : Text) → held_by q m ≤ held_by q w.store.sessions)
      → IsValid (record w { store = record w.store { sessions = m } })
  sessions-IsValid m keyed distinct fewer = record {
    within = record {
      keyed = keyed;
      distinct_sessions = distinct;
      distinct = v.within.distinct;
      quota = λ q. omega (arith, fewer q, v.within.quota q);
      small = v.within.small;
    };
    counted = v.counted;
  }

  sweep-IsValid : (now : ℕ) → IsValid (step w (sweeps now))
  unfolding step sweep
  sweep-IsValid now =
      sessions-IsValid _ (Keyed-retain _ w.store.sessions v.within.keyed)
        (retain-Distinct _ w.store.sessions v.within.distinct_sessions)
        λ q. count-retain-le (owned q) _ w.store.sessions

  removed-IsValid :
      (id : Text)
      → IsValid (record w { store = record w.store { sessions = remove id w.store.sessions } })
  removed-IsValid id =
      sessions-IsValid _ (Keyed-remove id w.store.sessions v.within.keyed)
        (remove-Distinct id w.store.sessions v.within.distinct_sessions)
        λ q. count-remove-le (owned q) id w.store.sessions

  used-IsValid :
      (id : Text) (s : Session) (now : ℕ)
      → get id w.store.sessions ≡ some s
      → IsValid (record w {
        store = record w.store {
          sessions = insert id (record s { last_used = now }) w.store.sessions;
        };
      })
  used-IsValid id s now e =
      sessions-IsValid _
        (Keyed-insert id (record s { last_used = now }) w.store.sessions
          (get-Keyed id w.store.sessions s v.within.keyed e) v.within.keyed)
        (insert-Distinct id _ w.store.sessions v.within.distinct_sessions)
        λ q. omega (
          arith,
          count-insert_present (owned q) id (record s { last_used = now }) s w.store.sessions e
              refl,
        )

  use-IsValid : (id p : Text) (now : ℕ) → IsValid (step w (uses id p now))
  unfolding step
  use-IsValid id p now =
      use_cases (λ store. IsValid (record w { store = store })) w.store id v
        (λ s e. removed-IsValid id) p now λ s e mine live. used-IsValid id s now e

  close-IsValid : (id p : Text) → IsValid (step w (closes id p))
  unfolding step
  close-IsValid id p =
      close_cases (λ store. IsValid (record w { store = store })) w.store id v
        (λ s e. removed-IsValid id) p

  remove-IsValid : (id : Text) (recorded : Bool) → IsValid (step w (removes id recorded))
  unfolding step
  remove-IsValid id recorded =
      remove_cases (λ store. IsValid (record w { store = store })) w.store id v
        (λ s e. removed-IsValid id) (outcome recorded)

-- Every call keeps a valid store valid: each principal within its allowance, each session under its own
-- identifier, and each counter equal to the openings in flight.
pub step-IsValid : (w : World) (e : Event) → IsValid w → IsValid (step w e)
step-IsValid w (reserves p now) v = reserve-IsValid w v p now
step-IsValid w (publishes p id host role purpose class now) v =
    elim (Bool-cases (is_active p w.active)) [
      | inl h ↦ publish-IsValid w v p id host role purpose class now h
      | inr h ↦ unfold step in rw h v
    ]
step-IsValid w (abandons p) v = elim (Bool-cases (is_active p w.active)) [
  | inl h ↦ abandon-IsValid w v p h
  | inr h ↦ unfold step in rw h v
]
step-IsValid w (sweeps now) v = sweep-IsValid w v now
step-IsValid w (uses id p now) v = use-IsValid w v id p now
step-IsValid w (closes id p) v = close-IsValid w v id p
step-IsValid w (removes id recorded) v = remove-IsValid w v id recorded

pub run-IsValid : (w : World) (es : List Event) → IsValid w → IsValid (run w es)
unfolding run
run-IsValid w [] v = v
run-IsValid w (e ∷ es) v = run-IsValid (step w e) es (step-IsValid w e v)

pub start-IsValid : (l : Lifetime) (n : ℕ) → n ≤ u64_max → IsValid (start l n)
unfolding new pending_of get values
start-IsValid l n h = record {
  within = record {
    keyed = tt;
    distinct_sessions = tt;
    distinct = tt;
    quota = λ q. omega arith;
    small = h;
  };
  counted = λ q. refl;
}
