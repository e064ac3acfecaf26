-- ===== src/Session/Lapse.antt =====
-- When a session lapses, and that it stays lapsed.
use mcp_ssh_rs.Prelude.{ℕ, ◌≤◌, ◌<◌, ◌≡◌, ◌↔◌, true, arith}
use mcp_ssh_rs.Clock.{u64_max}
use mcp_ssh_rs.Session.{Session, expiry, lapsed_at, is_forgettable, is_some}

-- Before the end of the clock's range, and not before the times that the session holds, a session has
-- lapsed exactly from `lapsed_at` on.
pub expiry_iff :
    (s : Session) (now : ℕ)
    → s.opened_at ≤ now
    → s.last_used ≤ now
    → now < u64_max
    → (is_some (expiry s now) ≡ true) ↔ (lapsed_at s ≤ now)
unfolding expiry lapsed_at
expiry_iff s now a b c = (λ h. ground arith, λ h. ground arith)

-- A session that has lapsed has lapsed at every later time.
pub expiry_mono :
    (s : Session) (now later : ℕ)
    → now ≤ later
    → is_some (expiry s now) ≡ true
    → is_some (expiry s later) ≡ true
unfolding expiry
expiry_mono s now later h e = ground arith

pub forgettable-expired :
    (s : Session) (now : ℕ) → is_forgettable s now ≡ true → is_some (expiry s now) ≡ true
unfolding is_forgettable
forgettable-expired s now h = ground arith
