-- ===== src/Session/Store/Origin.antt =====
-- Where the session that is held after a call comes from.
use mcp_ssh_rs.Prelude.{
  ℕ, ◌≡◌, Bool, false, not, none, some, arith, ◌==◌, Bool-cases, Option-cases, inl, inr, eq→≡, ap,
  ltb,
}
use mcp_ssh_rs.Text.{Text, text_eq}
use mcp_ssh_rs.Dict.{get, insert, values, get-insert, get_of_retain, get_of_remove}
use mcp_ssh_rs.Ids.{AccessClass}
use mcp_ssh_rs.Session.{Session, expiry, is_forgettable}
use mcp_ssh_rs.Clock.{saturating_add}
use mcp_ssh_rs.Session.Store.{
  SessionStore, stalest, pending_of, held_by, sweep, reserve, admit, settle, open_reserved,
  drop_opening,
}
use mcp_ssh_rs.Session.Store.Cases.{use_cases, close_cases, remove_cases}
use mcp_ssh_rs.Session.Store.Runs.{
  World, Event, reserves, publishes, abandons, sweeps, uses, closes, removes, IsValid, step,
  is_active, outcome,
}

-- Whether an event publishes a session under the identifier.
abbrev pub creates : Text → Event → Bool
creates id (publishes p j host role purpose class now) = j == id
creates id _ = false

-- Where the session that is held under `id` after an event comes from.
pub data Origin (store : SessionStore) (id : Text) (e : Event) (u : Session) : Type 0 where
  untouched : get id store.sessions ≡ some u → Origin store id e u
  used :
      (s : Session) (p : Text) (now : ℕ)
      → e ≡ uses id p now
      → get id store.sessions ≡ some s
      → expiry s now ≡ none
      → u ≡ record s { last_used = now }
      → Origin store id e u

admit-get :
    (store : SessionStore) (p : Text) (now : ℕ) (id : Text) (u : Session)
    → get id (admit store p now).0.sessions ≡ some u
    → get id store.sessions ≡ some u
unfolding admit
admit-get store p now id u = elim (Bool-cases test) [
  | inl free ↦ rw free (λ h. h)
  | inr full ↦ elim (Option-cases (stalest p now (values store.sessions))) [
    | inl e ↦ rw (full, e) (λ h. h)
    | inr (s, e) ↦ rw (full, e) (get_of_remove s.id id u store.sessions)
  ]
]
  where
    test : Bool
    test =
        ltb (saturating_add (held_by p store.sessions) (pending_of p store.pending))
          store.per_principal

module _ (w : World) (id : Text) (u : Session) (v : IsValid w) where
  inserted-Origin :
      (j p : Text) (now : ℕ) (s : Session)
      → get j w.store.sessions ≡ some s
      → expiry s now ≡ none
      → get id (insert j (record s { last_used = now }) w.store.sessions) ≡ some u
      → Origin w.store id (uses j p now) u
  inserted-Origin j p now s e live h = elim (Bool-cases (j == id)) [
    | inl same ↦
        used s p now (ap (λ i. uses i p now) (eq→≡ j id same)) (ground (arith, eq→≡ j id same)) live
          (ground (arith, h, get-insert j id (record s { last_used = now }) w.store.sessions))
    | inr other ↦
        untouched
          (ground (arith, h, get-insert j id (record s { last_used = now }) w.store.sessions))
  ]

  published-Origin :
      (p j host role purpose : Text) (class : AccessClass) (now : ℕ)
      → (j == id) ≡ false
      → get id (step w (publishes p j host role purpose class now)).store.sessions ≡ some u
      → get id w.store.sessions ≡ some u
  unfolding step open_reserved
  published-Origin p j host role purpose class now c = elim (Bool-cases (is_active p w.active)) [
    | inl busy ↦ rw busy (λ h. ground (arith, get-insert j id new_session w.store.sessions))
    | inr idle ↦ rw idle (λ h. h)
  ]
    where
      new_session : Session
      new_session =
          (open_reserved w.store (record { principal = p }) j host role purpose class now).1

  -- A session is held after an event either as it was before, or as a use of it left it.
  pub step-Origin :
      (e : Event)
      → creates id e ≡ false
      → get id (step w e).store.sessions ≡ some u
      → Origin w.store id e u
  unfolding step
  step-Origin (reserves p now) c h = untouched (
      get_of_retain (λ held. not (is_forgettable held now)) id u w.store.sessions
        v.within.distinct_sessions
        (unfold reserve settle in admit-get (settle w.store p now) p now id u h))
  step-Origin (publishes p j host role purpose class now) c h =
      untouched (published-Origin p j host role purpose class now c h)
  step-Origin (abandons p) c h = untouched (unfold drop_opening in ground arith)
  step-Origin (sweeps now) c h = untouched (
      get_of_retain (λ held. not (is_forgettable held now)) id u w.store.sessions
        v.within.distinct_sessions (unfold sweep in h))
  step-Origin (uses j p now) c h =
      use_cases (λ store. get id store.sessions ≡ some u → Origin w.store id (uses j p now) u)
        w.store j untouched (λ s e h. untouched (get_of_remove j id u w.store.sessions h)) p now
        (λ s e mine live. inserted-Origin j p now s e live) h
  step-Origin (closes j p) c h =
      close_cases (λ store. get id store.sessions ≡ some u → Origin w.store id (closes j p) u)
        w.store j untouched (λ s e h. untouched (get_of_remove j id u w.store.sessions h)) p h
  step-Origin (removes j recorded) c h =
      remove_cases
        (λ store. get id store.sessions ≡ some u → Origin w.store id (removes j recorded) u) w.store
        j untouched (λ s e h. untouched (get_of_remove j id u w.store.sessions h))
        (outcome recorded) h
