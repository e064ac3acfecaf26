-- ===== src/Session/Store/Use.antt =====
-- What a use of a session changes: its idle timer starts again.
use mcp_ssh_rs.Prelude.{
  ℕ, ◌+◌, ◌≤◌, ◌<◌, ◌≡◌, ◌↔◌, refl, sym, ap, ◌∙◌, true, none, some, arith, ◌==◌, Option-cases,
  Bool-cases, inl, inr, ok, subst,
}
use mcp_ssh_rs.Text.{Text, text_eq}
use mcp_ssh_rs.Dict.{get, insert, get-insert_self}
use mcp_ssh_rs.Session.{Session, expiry}
use mcp_ssh_rs.Session.Store.{SessionStore, use_session, use_held}

-- The session that a use returns is the held one, which has not expired.
pub use_session-live :
    (store : SessionStore) (id principal : Text) (now : ℕ) (u : Session)
    → (use_session store id principal now).1 ≡ ok u
    → (s : Session) × (get id store.sessions ≡ some s) × (expiry s now ≡ none)
unfolding use_session use_held
use_session-live store id principal now u h = ground arith

-- What a use that succeeds leaves: the session of its owner, with the idle timer at the present.
record Used (store after : SessionStore) (id principal : Text) (now : ℕ) (u : Session)
    : Type 0 where
  pub mine : (u.principal == principal) ≡ true
  pub present : u.last_used ≡ now
  pub stored : after ≡ record store { sessions = insert id u store.sessions }

use_held-Used :
    (store : SessionStore) (id principal : Text) (now : ℕ) (s u : Session)
    → (s.principal == principal) ≡ true
    → (use_held store id s now).1 ≡ ok u
    → Used store (use_held store id s now).0 id principal now u
unfolding use_held
use_held-Used store id principal now s u mine h = elim (Option-cases (expiry s now)) [
  | inr (why, e) ↦ absurd (ground (arith, e, h))
  | inl e ↦
      let same : record s { last_used = now } ≡ u = ground (arith, e, h) in
      subst (λ x. Used store (use_held store id s now).0 id principal now x) same
        (rw (e, use_held) (record { mine = mine; present = refl; stored = refl }))
]

use_session-Used :
    (store : SessionStore) (id principal : Text) (now : ℕ) (u : Session)
    → (use_session store id principal now).1 ≡ ok u
    → Used store (use_session store id principal now).0 id principal now u
unfolding use_session
use_session-Used store id principal now u h = elim (Option-cases (get id store.sessions)) [
  | inl e ↦ absurd (ground (arith, e, h))
  | inr (s, e) ↦ elim (Bool-cases (s.principal == principal)) [
    | inr other ↦ absurd (ground (arith, e, other, h))
    | inl mine ↦
        rw (e, mine, use_session)
          (use_held-Used store id principal now s u mine (ground (arith, e, mine, h)))
  ]
]

-- A session that is held answers its owner exactly while it has not expired.
use_session-held :
    (store : SessionStore) (id principal : Text) (t : ℕ) (u : Session)
    → get id store.sessions ≡ some u
    → (u.principal == principal) ≡ true
    → use_session store id principal t ≡ use_held store id u t
unfolding use_session
use_session-held store id principal t u e mine = rw (e, mine, use_session)

expiry-none :
    (u : Session) (now t : ℕ)
    → u.last_used ≡ now
    → u.opened_at ≤ t
    → now ≤ t
    → (expiry u t ≡ none) ↔ ((t < u.opened_at + u.lifetime.max) × (t < now + u.lifetime.idle))
unfolding expiry
expiry-none u now t present a b = (λ h. (ground arith, ground arith), λ h. ground arith)

use_held-ok :
    (store : SessionStore) (id : Text) (u : Session) (t : ℕ)
    → ((use_held store id u t).1 ≡ ok (record u { last_used = t })) ↔ (expiry u t ≡ none)
unfolding use_held
use_held-ok store id u t = (λ h. ground (arith, h), λ h. rw (h, use_held))

-- Once its owner has used a session, the owner can use it again at a later time exactly until its whole
-- lifetime is over, or its idle time has passed since that use: the use set the idle timer in the store.
pub use_session-again :
    (store : SessionStore) (id principal : Text) (now t : ℕ) (u : Session)
    → (use_session store id principal now).1 ≡ ok u
    → u.opened_at ≤ t
    → now ≤ t
    → ((use_session (use_session store id principal now).0 id principal t).1
        ≡ ok (record u { last_used = t }))
      ↔ ((t < u.opened_at + u.lifetime.max) × (t < now + u.lifetime.idle))
use_session-again store id principal now t u h a b =
    let used = use_session-Used store id principal now u h in
    let after = (use_session store id principal now).0 in
    let there : get id after.sessions ≡ some u =
      ap (λ x. get id x.sessions) used.stored ∙ get-insert_self id u store.sessions in
    let lives = expiry-none u now t used.present a b in
    subst
      (λ r.
        (r.1 ≡ ok (record u { last_used = t }))
        ↔ ((t < u.opened_at + u.lifetime.max) × (t < now + u.lifetime.idle)))
      (sym (use_session-held after id principal t u there used.mine))
      (λ k. lives.0 ((use_held-ok after id u t).0 k), λ k. (use_held-ok after id u t).1 (lives.1 k))
