-- ===== src/Session/Store/Counts.antt =====
-- How the operations on a map change the number of sessions that pass a test.
use mcp_ssh_rs.Prelude.{
  ℕ, suc, ◌≤◌, ◌≡◌, ◌⊎◌, inl, inr, Bool, true, ◌&&◌, some, List, [], ◌∷◌, arith, count_if, keep_if,
  ◌==◌, eq_refl, Bool-cases, and-parts,
}
use mcp_ssh_rs.Text.{Text, text_eq}
use mcp_ssh_rs.Dict.{Dict, get, insert, remove, retain, values}
use mcp_ssh_rs.Dict.Counts.{count-remove-le}
use mcp_ssh_rs.Session.{Session, expiry, is_some, lapsed_at}
use mcp_ssh_rs.Session.Store.{min_by_key, stalest}

-- A session stands under its own identifier.
abbrev pub Keyed : Dict Text Session → Type 0
Keyed [] = Unit {0}
Keyed ((k, s) ∷ m) = (s.id ≡ k) × Keyed m

-- One of the elements.
abbrev pub Found : Session → List Session → Type 0
Found s [] = ⊥
Found s (x ∷ xs) = (s ≡ x) ⊎ Found s xs

module _ (p : Session → Bool) where
  -- A session that is there takes one away when it goes.
  pub count-remove-Found :
      (s : Session) (m : Dict Text Session)
      → Keyed m
      → Found s (values m)
      → p s ≡ true
      → suc (count_if p (values (remove s.id m))) ≤ count_if p (values m)
  unfolding values remove
  count-remove-Found s [] k f h = absurd f
  count-remove-Found s ((j, t) ∷ m) k (inl e) h =
      ground (arith, count-remove-le p s.id m, eq_refl s.id)
  count-remove-Found s ((j, t) ∷ m) k (inr f) h = ground (arith, count-remove-Found s m k.1 f h)

Found-min_by_key :
    (key : Session → ℕ) (xs : List Session) (s : Session) → min_by_key key xs ≡ some s → Found s xs
unfolding min_by_key
Found-min_by_key key [] s h = cc
Found-min_by_key key (x ∷ xs) s h = ground (arith, Found-min_by_key key xs s)

Found-step :
    (p : Session → Bool) (x : Session) (xs rest : List Session) (s : Session)
    → p x ≡ true
    → (Found s rest → Found s xs × (p s ≡ true))
    → Found s (x ∷ rest)
    → Found s (x ∷ xs) × (p s ≡ true)
Found-step p x xs rest s e later (inl same) = (inl same, rw same e)
Found-step p x xs rest s e later (inr f) = (inr (later f).0, (later f).1)

Found-keep_if :
    (p : Session → Bool) (xs : List Session) (s : Session)
    → Found s (keep_if p xs)
    → Found s xs × (p s ≡ true)
Found-keep_if p [] s f = absurd f
Found-keep_if p (x ∷ xs) s f = elim (Bool-cases (p x)) [
  | inl e ↦ Found-step p x xs (keep_if p xs) s e (Found-keep_if p xs s) (rw e at f)
  | inr e ↦ let (g, t) = Found-keep_if p xs s (rw e at f) in (inr g, t)
]

-- The lapsed session that gives up its slot is the principal's, and it is in the map.
pub stalest-Found :
    (principal : Text) (now : ℕ) (xs : List Session) (s : Session)
    → stalest principal now xs ≡ some s
    → Found s xs × ((s.principal == principal) ≡ true) × (is_some (expiry s now) ≡ true)
unfolding stalest
stalest-Found principal now xs s h =
    let mine = λ (held : Session). held.principal == principal && is_some (expiry held now) in
    let (f, t) = Found-keep_if mine xs s (Found-min_by_key lapsed_at (keep_if mine xs) s h) in
    let (owned, over) = and-parts (s.principal == principal) (is_some (expiry s now)) t in
    (f, owned, over)

pub Keyed-retain : (q : Session → Bool) (m : Dict Text Session) → Keyed m → Keyed (retain q m)
unfolding retain
Keyed-retain q [] k = tt
Keyed-retain q ((j, s) ∷ m) k = ground (arith, Keyed-retain q m k.1)

pub Keyed-remove : (i : Text) (m : Dict Text Session) → Keyed m → Keyed (remove i m)
unfolding remove
Keyed-remove i [] k = tt
Keyed-remove i ((j, s) ∷ m) k = ground (arith, Keyed-remove i m k.1)

pub Keyed-insert :
    (i : Text) (v : Session) (m : Dict Text Session) → v.id ≡ i → Keyed m → Keyed (insert i v m)
unfolding insert
Keyed-insert i v [] e k = (e, tt)
Keyed-insert i v ((j, s) ∷ m) e k = ground (arith, Keyed-insert i v m e k.1)

pub get-Keyed :
    (i : Text) (m : Dict Text Session) (s : Session) → Keyed m → get i m ≡ some s → s.id ≡ i
unfolding get
get-Keyed i [] s k h = cc
get-Keyed i ((j, t) ∷ m) s k h = ground (arith, text_eq.beq_iff j i, get-Keyed i m s k.1)
