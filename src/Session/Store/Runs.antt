-- ===== src/Session/Store/Runs.antt =====
-- Every sequence of calls, with the openings that are in flight between a reservation and its end.
pub mod Validity
pub mod Limit
use mcp_ssh_rs.Prelude.{
  ℕ, ◌+◌, ◌≤◌, ◌≡◌, refl, sym, Bool, true, false, some, List, [], ◌∷◌, arith, if◌then◌else◌, ◌==◌,
  Bool-cases, inl, inr, ok, err, Result, count_if, any, ◌∙◌, ap,
}
use mcp_ssh_rs.Text.{Text, text_eq}
use mcp_ssh_rs.Dict.{
  Dict, get, insert, remove, values, Distinct, insert-Distinct, retain-Distinct, remove-Distinct,
}
use mcp_ssh_rs.Clock.{u64_max}
use mcp_ssh_rs.Ids.{AccessClass}
use mcp_ssh_rs.Session.{Session, Lifetime, SessionError, TooManySessions}
use mcp_ssh_rs.Session.Store.{
  SessionStore, Opening, new, pending_of, adjust, count_down, held_by, admit, settle, reserve,
  open_reserved, drop_opening, sweep, use_session, close, remove_recorded,
}
use mcp_ssh_rs.Dict.Counts.{count-retain-le, count-remove-le, count-insert-le, count-insert_present}
use mcp_ssh_rs.Session.Store.Counts.{Keyed, Keyed-retain, Keyed-remove, Keyed-insert, get-Keyed}
use mcp_ssh_rs.Session.Store.Cases.{use_cases, close_cases, remove_cases}
use mcp_ssh_rs.Session.Store.Quota.{
  IsWithin, owned, pending-adjust, adjust-Distinct, reserve-IsWithin, reserve-pending, added,
}

-- A store with the principals of the openings that are still active.
pub record World : Type 0 where
  pub store : SessionStore
  pub active : List Text

pub data Event : Type 0 where
  reserves : Text → ℕ → Event
  -- An active opening of the principal is published: principal, identifier, host, role, purpose.
  publishes : Text → Text → Text → Text → Text → AccessClass → ℕ → Event
  -- An active opening of the principal is dropped.
  abandons : Text → Event
  sweeps : ℕ → Event
  uses : Text → Text → ℕ → Event
  closes : Text → Text → Event
  -- An operator removes a session; the flag says whether the removal could be recorded.
  removes : Text → Bool → Event

unfoldable pub is_active : Text → List Text → Bool
is_active p active = any (λ q. q == p) active

-- One opening of the principal ends.
unfoldable pub finish : Text → List Text → List Text
finish p [] = []
finish p (q ∷ qs) = if q == p then qs else q ∷ finish p qs

abbrev begun : Text → List Text → Result TooManySessions Opening → List Text
begun p active (ok opening) = p ∷ active
begun p active (err e) = active

abbrev pub outcome : Bool → Session → Result SessionError (Unit {0})
outcome true s = ok tt
outcome false s = err SessionError.unknown

unfoldable pub step : World → Event → World
unfolding is_active
step w (reserves p now) =
    let (after, slot) = reserve w.store p now in
    record { store = after; active = begun p w.active slot }
step w (publishes p id host role purpose class now) =
    if is_active p w.active
    then record {
      store = (open_reserved w.store (record { principal = p }) id host role purpose class now).0;
      active = finish p w.active;
    }
    else w
step w (abandons p) =
    if is_active p w.active
    then record {
      store = drop_opening w.store (record { principal = p });
      active = finish p w.active;
    }
    else w
step w (sweeps now) = record w { store = sweep w.store now }
step w (uses id p now) = record w { store = (use_session w.store id p now).0 }
step w (closes id p) = record w { store = (close w.store id p).0 }
step w (removes id recorded) = record w {
  store = (remove_recorded (λ e. e) w.store id (outcome recorded)).0;
}

unfoldable pub run : World → List Event → World
run w [] = w
run w (e ∷ es) = run (step w e) es

pub record IsValid (w : World) : Type 0 where
  pub within : IsWithin w.store
  -- The counter of each principal is the number of its active openings.
  pub counted : (p : Text) → pending_of p w.store.pending ≡ count_if (λ q. q == p) w.active

abbrev pub start : Lifetime → ℕ → World
start lifetime per_principal = record { store = new lifetime per_principal; active = [] }
