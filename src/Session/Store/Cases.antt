-- ===== src/Session/Store/Cases.antt =====
-- What the calls that look one session up can do to the store: a rule for each.
use mcp_ssh_rs.Prelude.{
  ℕ, ◌≡◌, true, none, some, ◌==◌, Bool-cases, Option-cases, inl, inr, Result, Result-cases,
}
use mcp_ssh_rs.Text.{Text, text_eq}
use mcp_ssh_rs.Dict.{get, insert, remove}
use mcp_ssh_rs.Session.{Session, expiry, is_forgettable, SessionError}
use mcp_ssh_rs.Session.Store.{SessionStore, use_session, use_held, close, remove_recorded}

module _ {ℓ} (P : SessionStore → Type ℓ) (store : SessionStore) (id : Text) (same : P store) where
  module _
      (gone : (s : Session)
        → get id store.sessions ≡ some s
        → P (record store { sessions = remove id store.sessions })) where
    use_held_cases :
        (s : Session) (now : ℕ)
        → get id store.sessions ≡ some s
        → (expiry s now ≡ none
            → P (record store {
              sessions = insert id (record s { last_used = now }) store.sessions;
            }))
        → P (use_held store id s now).0
    unfolding use_held
    use_held_cases s now e used = elim (Option-cases (expiry s now)) [
      | inl live ↦ rw (live, use_held) (used live)
      | inr (why, over) ↦ elim (Bool-cases (is_forgettable s now)) [
        | inl old ↦ rw (over, old, use_held) (gone s e)
        | inr kept ↦ rw (over, kept, use_held) same
      ]
    ]

    pub use_cases :
        (p : Text) (now : ℕ)
        → ((s : Session)
            → get id store.sessions ≡ some s
            → (s.principal == p) ≡ true
            → expiry s now ≡ none
            → P (record store {
              sessions = insert id (record s { last_used = now }) store.sessions;
            }))
        → P (use_session store id p now).0
    unfolding use_session
    use_cases p now used = elim (Option-cases (get id store.sessions)) [
      | inl e ↦ rw (e, use_session) same
      | inr (s, e) ↦ elim (Bool-cases (s.principal == p)) [
        | inr other ↦ rw (e, other, use_session) same
        | inl mine ↦ rw (e, mine, use_session) (use_held_cases s now e (used s e mine))
      ]
    ]

    pub close_cases : (p : Text) → P (close store id p).0
    unfolding close
    close_cases p = elim (Option-cases (get id store.sessions)) [
      | inl e ↦ rw (e, close) same
      | inr (s, e) ↦ elim (Bool-cases (s.principal == p)) [
        | inl mine ↦ rw (e, mine, close) (gone s e)
        | inr other ↦ rw (e, other, close) same
      ]
    ]

    pub remove_cases :
        (write : Session → Result SessionError (Unit {0}))
        → P (remove_recorded (λ e. e) store id write).0
    unfolding remove_recorded
    remove_cases write = elim (Option-cases (get id store.sessions)) [
      | inl e ↦ rw (e, remove_recorded) same
      | inr (s, e) ↦ elim (Result-cases (write s)) [
        | inl (failure, failed) ↦ rw (e, failed, remove_recorded) same
        | inr (_, written) ↦ rw (e, written, remove_recorded) (gone s e)
      ]
    ]
