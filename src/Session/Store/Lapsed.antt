-- ===== src/Session/Store/Lapsed.antt =====
-- A lapsed session never comes back.
use mcp_ssh_rs.Prelude.{
  ℕ, ◌≤◌, ◌≡◌, ◌≢◌, refl, sym, true, false, some, List, [], ◌∷◌, ◌==◌, ok, All, subst, false≢true,
  ◌∙◌, ap,
}
use mcp_ssh_rs.Text.{Text, text_eq}
use mcp_ssh_rs.Dict.{get}
use mcp_ssh_rs.Session.{Session, expiry, is_some}
use mcp_ssh_rs.Session.Lapse.{expiry_mono}
use mcp_ssh_rs.Session.Store.{SessionStore, use_session}
use mcp_ssh_rs.Session.Store.Runs.{World, Event, publishes, uses, IsValid, step, run}
use mcp_ssh_rs.Session.Store.Runs.Validity.{step-IsValid}
use mcp_ssh_rs.Session.Store.Origin.{creates, Origin, untouched, used, step-Origin}
use mcp_ssh_rs.Session.Store.Use.{use_session-live}

-- An event that does not publish a session under `id`, and whose uses come no earlier than `t`.
abbrev pub IsAfter : ℕ → Text → Event → Type 0
IsAfter t id (publishes p j host role purpose class now) = (j == id) ≡ false
IsAfter t id (uses j p now) = t ≤ now
IsAfter t id _ = Unit {0}

after-creates : (t : ℕ) (id : Text) (e : Event) → IsAfter t id e → creates id e ≡ false
after-creates t id (publishes p j host role purpose class now) h = h
after-creates t id _ h = refl

after-uses :
    (t : ℕ) (id p : Text) (now : ℕ) (e : Event) → IsAfter t id e → e ≡ uses id p now → t ≤ now
after-uses t id p now e h same = subst (IsAfter t id) same h

-- No session is held under `id`, or one that had lapsed by `t`.
abbrev pub HasLapsed : ℕ → Text → SessionStore → Type 0
HasLapsed t id store = (s : Session) → get id store.sessions ≡ some s → is_some (expiry s t) ≡ true

step-HasLapsed :
    (t : ℕ) (id : Text) (w : World) (e : Event)
    → IsValid w
    → IsAfter t id e
    → HasLapsed t id w.store
    → HasLapsed t id (step w e).store
step-HasLapsed t id w e v a l u h = still (step-Origin w id u v e (after-creates t id e a) h)
  where
    still : Origin w.store id e u → is_some (expiry u t) ≡ true
    still (untouched held) = l u held
    still (used s p now same held live left) = absurd (
        false≢true
          (sym (ap is_some live) ∙ expiry_mono s t now (after-uses t id p now e a same) (l s held)))

run-HasLapsed :
    (t : ℕ) (id : Text) (w : World) (es : List Event)
    → IsValid w
    → All (IsAfter t id) es
    → HasLapsed t id w.store
    → HasLapsed t id (run w es).store
unfolding run
run-HasLapsed t id w [] v a l = l
run-HasLapsed t id w (e ∷ es) v a l =
    run-HasLapsed t id (step w e) es (step-IsValid w e v) a.1 (step-HasLapsed t id w e v a.0 l)

-- In a valid store, if no session stands under an identifier but one that has lapsed by a time `t`,
-- then after any calls in any order, whose uses come at `t` or later and which do not publish a session
-- under the identifier again, no principal can use it at `t` or later.
pub lapsed_forever :
    (t later : ℕ) (id p : Text) (w : World) (es : List Event) (u : Session)
    → IsValid w
    → HasLapsed t id w.store
    → All (IsAfter t id) es
    → t ≤ later
    → (use_session (run w es).store id p later).1 ≢ ok u
lapsed_forever t later id p w es u v l a h k =
    let (s, held, live) = use_session-live (run w es).store id p later u k in
    false≢true
      (sym (ap is_some live) ∙ expiry_mono s t later h (run-HasLapsed t id w es v a l s held))
