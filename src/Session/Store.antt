-- ===== src/Session/Store.antt =====
-- `SessionStore`: the sessions that are held, and for each principal the slots of pending opens. The
-- shared counter behind an `Opening` is the principal's entry of `pending`: the entry outlives every
-- opening that counts in it, since only entries at 0 are dropped.
pub mod Counts
pub mod Quota
pub mod Cases
pub mod Runs
pub mod Use
pub mod Origin
pub mod Lapsed
pub mod Binding
use mcp_ssh_rs.Prelude.{
  ℕ, ◌+◌, ◌-◌, ◌%◌, ◌^◌, Bool, true, false, ◌&&◌, ◌||◌, not, Option, none, some, List, [], ◌∷◌, ltb,
  leb, nat_beq, if◌then◌else◌, count_if, keep_if, length, ◌==◌, Result, ok, err, ◌>>=◌, ◌>>◌, guard,
  ok_or, map,
}
use mcp_ssh_rs.Text.{Text, text_eq}
use mcp_ssh_rs.Dict.{Dict, get, insert, remove, retain, values, filter_option}
use mathlib.Core.Option
use mcp_ssh_rs.Clock.{saturating_add}
use mcp_ssh_rs.Ids.{AccessClass}
use mcp_ssh_rs.Session.{
  Session, Lifetime, Expiry, SessionError, unknown, expired, TooManySessions, too_many_sessions,
  SessionSnapshot, snapshot_of, expiry, lapsed_at, is_forgettable, is_some, context_of,
}

pub record SessionStore : Type 0 where
  pub lifetime : Lifetime
  pub per_principal : ℕ
  pub sessions : Dict Text Session
  pub pending : Dict Text ℕ

unfoldable pub new : Lifetime → ℕ → SessionStore
new lifetime per_principal = record {
  lifetime = lifetime;
  per_principal = per_principal;
  sessions = [];
  pending = [];
}

-- `check_binding`.
unfoldable pub check_binding :
    SessionStore → Text → Text → Text → Text → Result SessionError (Unit {0})
check_binding store id principal host role = do
  session ← ok_or (get id store.sessions) unknown
  guard (session.principal == principal && session.host == host && session.role == role) unknown

abbrev pub or_zero : Option ℕ → ℕ
or_zero none = 0
or_zero (some n) = n

-- `map_or(0, load)`: what the counter of a principal holds.
unfoldable pub pending_of : Text → Dict Text ℕ → ℕ
pending_of principal pending = or_zero (get principal pending)

-- `fetch_add(1)` and `fetch_sub(1)` on a counter of 64 bits.
abbrev pub count_up : ℕ → ℕ
count_up n = (n + 1) % 2 ^ 64

abbrev pub count_down : ℕ → ℕ
count_down n = (n + 2 ^ 64 - 1) % 2 ^ 64

unfoldable pub adjust : (ℕ → ℕ) → Text → Dict Text ℕ → Dict Text ℕ
adjust f principal pending = insert principal (f (pending_of principal pending)) pending

-- `min_by_key`: the first of the least.
unfoldable pub min_by_key : (Session → ℕ) → List Session → Option Session
min_by_key key [] = none
min_by_key key (s ∷ ss) = elim (min_by_key key ss) [
  | none ↦ some s
  | some t ↦ if leb (key s) (key t) then some s else some t
]

-- The principal's lapsed session that lapsed first.
unfoldable pub stalest : Text → ℕ → List Session → Option Session
unfolding min_by_key
stalest principal now sessions =
    min_by_key lapsed_at
      (keep_if (λ held. held.principal == principal && is_some (expiry held now)) sessions)

pub record Opening : Type 0 where
  pub principal : Text

-- `held`, the sessions of a principal that are still in the map.
abbrev pub held_by : Text → Dict Text Session → ℕ
held_by principal sessions = count_if (λ held. held.principal == principal) (values sessions)

-- The part of `reserve` under both locks, once the maps are swept and the counter is looked up.
unfoldable pub admit : SessionStore → Text → ℕ → SessionStore × Result TooManySessions Opening
unfolding stalest adjust pending_of
admit store principal now =
    let taken = record store { pending = adjust count_up principal store.pending } in
    if ltb (saturating_add (held_by principal store.sessions) (pending_of principal store.pending))
      store.per_principal
    then (taken, ok (record { principal = principal }))
    else elim (stalest principal now (values store.sessions)) [
      | none ↦ (store, err (too_many_sessions store.per_principal))
      | some stale ↦ (
        record taken { sessions = remove stale.id store.sessions },
        ok (record { principal = principal }),
      )
    ]

-- What `reserve` does to the maps before it counts: forgotten sessions go, counters at 0 go, and the
-- principal has a counter, `entry(..).or_default()`.
unfoldable pub settle : SessionStore → Text → ℕ → SessionStore
settle store principal now =
    let pending = retain (λ count. not (nat_beq count 0)) store.pending in
    record store {
      sessions = retain (λ held. not (is_forgettable held now)) store.sessions;
      pending = insert principal (or_zero (get principal pending)) pending;
    }

-- `reserve`, and `reserve_owned`, which moves the slot to an owned opening.
unfoldable pub reserve : SessionStore → Text → ℕ → SessionStore × Result TooManySessions Opening
unfolding admit settle
reserve store principal now = admit (settle store principal now) principal now

-- `Opening::open`: `id` is the identifier that `new_identifier` drew.
unfoldable pub open_reserved :
    SessionStore → Opening → Text → Text → Text → Text → AccessClass → ℕ → SessionStore × Session
open_reserved store opening id host role purpose access_class now =
    let session : Session = record {
      id = id;
      principal = opening.principal;
      host = host;
      role = role;
      purpose = purpose;
      access_class = access_class;
      opened_at = now;
      last_used = now;
      lifetime = store.lifetime;
    } in
    (
      record store {
        sessions = insert id session store.sessions;
        pending = adjust count_down opening.principal store.pending;
      },
      session,
    )

-- `Drop for Opening`, while it is active.
unfoldable pub drop_opening : SessionStore → Opening → SessionStore
drop_opening store opening = record store {
  pending = adjust count_down opening.principal store.pending;
}

-- `open`: `now` is read by `reserve`, and `later` by `Opening::open`.
unfoldable pub open_session :
    SessionStore
    → Text
    → Text
    → Text
    → Text
    → Text
    → AccessClass
    → ℕ
    → ℕ
    → SessionStore × Result TooManySessions Session
open_session store principal id host role purpose access_class now later =
    let (reserved, slot) = reserve store principal now in
    elim slot [
      | err e ↦ (reserved, err e)
      | ok opening ↦
          let (opened, session) =
            open_reserved reserved opening id host role purpose access_class later in
          (opened, ok session)
    ]

unfoldable pub sweep : SessionStore → ℕ → SessionStore
sweep store now = record store {
  sessions = retain (λ held. not (is_forgettable held now)) store.sessions;
}

-- `live`: the identifiers of the sessions that can still be used.
unfoldable pub live : SessionStore → ℕ → List Text
live store now =
    map (λ held. held.id)
      (keep_if (λ held. not (is_some (expiry held now))) (values store.sessions))

-- `snapshot`.
unfoldable pub snapshot : SessionStore → Text → ℕ → Option SessionSnapshot
snapshot store id now = Option.map (λ held. snapshot_of held now) (get id store.sessions)

-- `usage`: sessions that can be used and pending opens, and the limit.
unfoldable pub usage : SessionStore → Text → ℕ → ℕ × ℕ
unfolding pending_of
usage store principal now = (
  saturating_add
      (count_if (λ held. held.principal == principal && not (is_some (expiry held now)))
        (values store.sessions))
      (pending_of principal store.pending),
  store.per_principal,
)

abbrev is_live : Option Session → ℕ → Bool
is_live none now = false
is_live (some held) now = not (is_some (expiry held now))

unfoldable pub holds : SessionStore → Text → ℕ → Bool
holds store id now = is_live (get id store.sessions) now

unfoldable pub ends_by : SessionStore → Text → ℕ → Option ℕ
ends_by store id now =
    Option.map (λ held. saturating_add held.opened_at held.lifetime.max)
      (filter_option (λ held. not (is_some (expiry held now))) (get id store.sessions))

-- The part of `use_session` that follows the lookup and the check of the owner.
unfoldable pub use_held :
    SessionStore → Text → Session → ℕ → SessionStore × Result SessionError Session
use_held store id session now = elim (expiry session now) [
  | some why ↦ (
    if is_forgettable session now
        then record store { sessions = remove id store.sessions }
        else store,
    err (expired why (context_of session)),
  )
  | none ↦
      let used = record session { last_used = now } in
      (record store { sessions = insert id used store.sessions }, ok used)
]

unfoldable pub use_session :
    SessionStore → Text → Text → ℕ → SessionStore × Result SessionError Session
unfolding use_held
use_session store id principal now = elim (get id store.sessions) [
  | none ↦ (store, err unknown)
  | some session ↦
      if not (session.principal == principal)
      then (store, err unknown)
      else use_held store id session now
]

unfoldable pub close : SessionStore → Text → Text → SessionStore × Result SessionError (Unit {0})
close store id principal = elim (get id store.sessions) [
  | none ↦ (store, err unknown)
  | some session ↦
      if session.principal == principal
      then (record store { sessions = remove id store.sessions }, ok tt)
      else (store, err unknown)
]

-- `remove_recorded`: `record` writes the removal down, and its errors hold a `SessionError`.
unfoldable pub remove_recorded {ℓ} :
    {E : Type ℓ}
    → (SessionError → E)
    → SessionStore
    → Text
    → (Session → Result E (Unit {0}))
    → SessionStore × Result E (Unit {0})
remove_recorded from store id write = elim (get id store.sessions) [
  | none ↦ (store, err (from unknown))
  | some session ↦ elim (write session) [
    | err e ↦ (store, err e)
    | ok _ ↦ (record store { sessions = remove id store.sessions }, ok tt)
  ]
]

unfoldable pub len : SessionStore → ℕ
len store = length store.sessions
