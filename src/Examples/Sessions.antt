-- ===== src/Examples/Sessions.antt =====
-- Sessions, their store and its runs, and the decision on a session's account.
use mcp_ssh_rs.Prelude.{
  ◌<◌, ◌+◌, ◌≡◌, ◌≢◌, ◌≤◌, ◌↔◌, refl, [], ◌∷◌, some, ok, arith, ◌==◌, count_if,
}
use mcp_ssh_rs.Text.{Text, text, text_eq}
use mcp_ssh_rs.Dict.{get, insert, retain, values}
use mcp_ssh_rs.Ids.{read_only}
use mcp_ssh_rs.Session.{Session, Lifetime, expiry}
use mcp_ssh_rs.Session.Store.{
  new, use_session, held_by, reserve, settle, admit, pending_of, adjust, open_reserved,
  drop_opening, use_held,
}
use mcp_ssh_rs.Session.Store.Runs.{
  World, IsValid, reserves, publishes, abandons, uses, closes, step, run, start, is_active, finish,
}
use mcp_ssh_rs.Session.Store.Runs.Validity.{start-IsValid, step-IsValid, run-IsValid}
use mcp_ssh_rs.Session.Store.Runs.Limit.{run-quota}
use mcp_ssh_rs.Session.Store.Use.{use_session-again}
use mcp_ssh_rs.Session.Store.Lapsed.{lapsed_forever, HasLapsed}
use mcp_ssh_rs.Session.Store.Binding.{run-binding, SameBinding}

abbrev pub lifetime : Lifetime
lifetime = record { idle = 100; max = 1000; grace = 50 }

abbrev pub alice : Text
alice = text "alice"

abbrev bob : Text
bob = text "bob"

abbrev pub id_a : Text
id_a = text "a1"

abbrev pub held : Session
held = record {
  id = id_a;
  principal = alice;
  host = text "web-1";
  role = text "ops";
  purpose = text "look";
  access_class = read_only;
  opened_at = 10;
  last_used = 10;
  lifetime = lifetime;
}

-- One session, opened at 10.
abbrev opened : World
opened = run (start lifetime 2) (
    reserves alice 10
    ∷ publishes alice id_a (text "web-1") (text "ops") (text "look") read_only 10
    ∷ [])

opened-IsValid : IsValid opened
opened-IsValid =
    run-IsValid (start lifetime 2)
      (reserves alice 10
        ∷ publishes alice id_a (text "web-1") (text "ops") (text "look") read_only 10
        ∷ [])
      (start-IsValid lifetime 2 (omega arith))

opened-sessions : opened.store.sessions ≡ (id_a, held) ∷ []
unfolding run step new reserve settle admit pending_of adjust open_reserved drop_opening is_active
    finish values insert get retain
opened-sessions = refl

step-IsValid_example : IsValid (step opened (abandons alice))
step-IsValid_example = step-IsValid opened (abandons alice) opened-IsValid

run-quota_example :
    held_by alice opened.store.sessions + count_if (λ q. q == alice) opened.active ≤ 2
run-quota_example =
    run-quota lifetime 2
      (reserves alice 10
        ∷ publishes alice id_a (text "web-1") (text "ops") (text "look") read_only 10
        ∷ [])
      alice (omega arith)

used_at_60 : (use_session opened.store id_a alice 60).1 ≡ ok (record held { last_used = 60 })
unfolding use_session use_held expiry get insert
used_at_60 = ground (arith, opened-sessions)

use_session-again_example :
    ((use_session (use_session opened.store id_a alice 60).0 id_a alice 150).1
      ≡ ok (record held { last_used = 150 }))
    ↔ ((150 < 1010) × (150 < 160))
use_session-again_example =
    use_session-again opened.store id_a alice 60 150 (record held { last_used = 60 }) used_at_60
      (omega arith) (omega arith)

opened-HasLapsed : HasLapsed 200 id_a opened.store
unfolding get expiry
opened-HasLapsed s h = ground (arith, opened-sessions, h)

lapsed_forever_example :
    (use_session (run opened (uses id_a alice 300 ∷ closes id_a bob ∷ [])).store id_a alice 400).1
    ≢ ok held
lapsed_forever_example =
    lapsed_forever 200 400 id_a alice opened (uses id_a alice 300 ∷ closes id_a bob ∷ []) held
      opened-IsValid opened-HasLapsed (omega arith, (tt, tt)) (omega arith)

after_use :
    get id_a (run opened (uses id_a alice 60 ∷ [])).store.sessions
    ≡ some (record held { last_used = 60 })
unfolding run step new reserve settle admit pending_of adjust open_reserved drop_opening is_active
    finish values insert get retain use_session use_held expiry
after_use = refl

run-binding_example :
    (s : Session) × (get id_a opened.store.sessions ≡ some s)
    × SameBinding s (record held { last_used = 60 })
run-binding_example =
    run-binding opened id_a (uses id_a alice 60 ∷ []) (record held { last_used = 60 })
      opened-IsValid (refl, tt) after_use
