-- ===== src/Session/Store/Binding.antt =====
-- What a session is bound to does not change.
use mcp_ssh_rs.Prelude.{◌≡◌, false, some, List, [], ◌∷◌, arith, All}
use mcp_ssh_rs.Text.{Text, text_eq}
use mcp_ssh_rs.Dict.{get}
use mcp_ssh_rs.Session.{Session}
use mcp_ssh_rs.Session.Store.Runs.{World, Event, IsValid, step, run}
use mcp_ssh_rs.Session.Store.Runs.Validity.{step-IsValid}
use mcp_ssh_rs.Session.Store.Origin.{creates, Origin, untouched, used, step-Origin}

-- The binding of a session: all but the time of its last use.
pub record SameBinding (s u : Session) : Type 0 where
  pub principal : u.principal ≡ s.principal
  pub host : u.host ≡ s.host
  pub role : u.role ≡ s.role
  pub purpose : u.purpose ≡ s.purpose
  pub access_class : u.access_class ≡ s.access_class
  pub opened_at : u.opened_at ≡ s.opened_at
  pub lifetime : u.lifetime ≡ s.lifetime

abbrev WasHeld : World → Text → Session → Type 0
WasHeld w id u = (s : Session) × (get id w.store.sessions ≡ some s) × SameBinding s u

step-binding :
    (w : World) (id : Text) (e : Event) (u : Session)
    → IsValid w
    → creates id e ≡ false
    → get id (step w e).store.sessions ≡ some u
    → WasHeld w id u
step-binding w id e u v c h = from (step-Origin w id u v e c h)
  where
    from : Origin w.store id e u → WasHeld w id u
    from (untouched held) = (u, held, ground arith)
    from (used s p now same held live left) = (s, held, ground arith)

abbrev pub NoneCreates : Text → List Event → Type 0
NoneCreates id es = All (λ e. creates id e ≡ false) es

-- From a valid store, after any calls that publish no session under an identifier, a session that is
-- held under it was held before, bound to the same principal, host, role, purpose and access class, with
-- the same opening time and lifetime.
pub run-binding :
    (w : World) (id : Text) (es : List Event) (u : Session)
    → IsValid w
    → NoneCreates id es
    → get id (run w es).store.sessions ≡ some u
    → (s : Session) × (get id w.store.sessions ≡ some s) × SameBinding s u
unfolding run
run-binding w id [] u v c h = (u, h, ground arith)
run-binding w id (e ∷ es) u v c h =
    let (s, held, same) = run-binding (step w e) id es u (step-IsValid w e v) c.1 h in
    let (r, earlier, bound) = step-binding w id e s v c.0 held in (r, earlier, ground arith)
