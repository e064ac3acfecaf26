-- ===== src/Clock/Monotone.antt =====
-- The service's clock does not go back, and a failed reading repeats the last good answer.
use mcp_ssh_rs.Prelude.{ℕ, ◌≤◌, ◌-◌, ◌+◌, ◌≡◌, subst, Option, none, some, List, [], ◌∷◌, arith}
use mcp_ssh_rs.Clock.{SystemClock, now}

-- Readings of a clock that does not go back: each is at least `origin` and at least the one before.
abbrev pub Ordered : ℕ → List (Option ℕ) → Type 0
Ordered last [] = Unit {0}
Ordered last (none ∷ readings) = Ordered last readings
Ordered last (some millis ∷ readings) = (last ≤ millis) × Ordered millis readings

-- The answers of `now`, in order.
unfoldable pub answers : SystemClock → List (Option ℕ) → List ℕ
answers clock [] = []
answers clock (reading ∷ readings) = (now clock reading).1 ∷ answers (now clock reading).0 readings

abbrev pub NonDecreasing : ℕ → List ℕ → Type 0
NonDecreasing last [] = Unit {0}
NonDecreasing last (x ∷ xs) = (last ≤ x) × NonDecreasing x xs

back :
    (clock : SystemClock) (millis : ℕ)
    → clock.origin + clock.last_good ≤ millis
    → millis ≡ clock.origin + (millis - clock.origin)
back clock millis h = omega arith

-- Over any readings of a clock that does not go back, failed ones among them, if none is earlier than
-- the service's last good answer, what the service's clock
-- answers does not go back, and is never before its last good answer.
pub answers-NonDecreasing :
    (clock : SystemClock) (readings : List (Option ℕ))
    → Ordered (clock.origin + clock.last_good) readings
    → NonDecreasing clock.last_good (answers clock readings)
unfolding now answers
answers-NonDecreasing clock [] o = tt
answers-NonDecreasing clock (none ∷ readings) o =
    (omega arith, answers-NonDecreasing clock readings o)
answers-NonDecreasing clock (some millis ∷ readings) o = (
  omega (arith, o.0),
  answers-NonDecreasing (record clock { last_good = millis - clock.origin }) readings
      (subst (λ m. Ordered m readings) (back clock millis o.0) o.1),
)
