-- ===== src/Session/Store/Runs/Limit.antt =====
-- The limit on the sessions of a principal, over every run.
use mcp_ssh_rs.Prelude.{ℕ, ◌+◌, ◌≤◌, ◌≡◌, refl, List, [], ◌∷◌, arith, ◌==◌, count_if, ◌∙◌}
use mcp_ssh_rs.Text.{Text, text_eq}
use mcp_ssh_rs.Clock.{u64_max}
use mcp_ssh_rs.Session.{Lifetime}
use mcp_ssh_rs.Session.Store.{
  SessionStore, new, held_by, admit, settle, reserve, open_reserved, drop_opening, sweep,
}
use mcp_ssh_rs.Session.Store.Cases.{use_cases, close_cases, remove_cases}
use mcp_ssh_rs.Session.Store.Runs.{
  World, Event, reserves, publishes, abandons, sweeps, uses, closes, removes, outcome, step, run,
  IsValid, start,
}
use mcp_ssh_rs.Session.Store.Runs.Validity.{run-IsValid, start-IsValid}

admit-limit :
    (store : SessionStore) (p : Text) (now : ℕ)
    → (admit store p now).0.per_principal ≡ store.per_principal
unfolding admit
admit-limit store p now = ground arith

step-limit : (w : World) (e : Event) → (step w e).store.per_principal ≡ w.store.per_principal
unfolding step reserve settle open_reserved drop_opening sweep
step-limit w (reserves p now) = admit-limit (settle w.store p now) p now
step-limit w (publishes p id host role purpose class now) = ground arith
step-limit w (abandons p) = ground arith
step-limit w (sweeps now) = refl
step-limit w (uses id p now) =
    use_cases (λ t. t.per_principal ≡ w.store.per_principal) w.store id refl (λ s e. refl) p now
      λ s e mine live. refl
step-limit w (closes id p) =
    close_cases (λ t. t.per_principal ≡ w.store.per_principal) w.store id refl (λ s e. refl) p
step-limit w (removes id recorded) =
    remove_cases (λ t. t.per_principal ≡ w.store.per_principal) w.store id refl (λ s e. refl)
      (outcome recorded)

run-limit : (w : World) (es : List Event) → (run w es).store.per_principal ≡ w.store.per_principal
unfolding run
run-limit w [] = refl
run-limit w (e ∷ es) = run-limit (step w e) es ∙ step-limit w e

-- From an empty store, whatever is called in whatever order, the sessions that are held for a
-- principal and its openings in flight together never exceed the limit, a `usize`.
pub run-quota :
    (l : Lifetime) (limit : ℕ) (es : List Event) (p : Text)
    → limit ≤ u64_max
    → let w = run (start l limit) es in
      held_by p w.store.sessions + count_if (λ q. q == p) w.active ≤ limit
run-quota l limit es p h =
    omega (arith, v.counted p, v.within.quota p, run-limit (start l limit) es, starts)
  where
    v : IsValid (run (start l limit) es)
    v = run-IsValid (start l limit) es (start-IsValid l limit h)

    starts : (start l limit).store.per_principal ≡ limit
    starts = unfold new in refl
