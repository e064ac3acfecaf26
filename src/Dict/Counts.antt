-- ===== src/Dict/Counts.antt =====
-- How the operations on a map change the number of values that pass a test.
use mcp_ssh_rs.Prelude.{
  ◌+◌, ◌≤◌, ◌≡◌, inl, inr, Bool, true, some, [], ◌∷◌, arith, if◌then◌else◌, count_if, Eq, ◌==◌,
  Bool-cases,
}
use mcp_ssh_rs.Dict.{Dict, get, insert, remove, retain, values}

module _ {K V : Type 0} ⦃e : Eq K⦄ (p : V → Bool) where
  pub count-retain-le :
      (q : V → Bool) (m : Dict K V) → count_if p (values (retain q m)) ≤ count_if p (values m)
  unfolding values retain
  count-retain-le q [] = omega arith
  count-retain-le q ((k, s) ∷ m) = ground (arith, count-retain-le q m)

  pub count-remove-le :
      (k : K) (m : Dict K V) → count_if p (values (remove k m)) ≤ count_if p (values m)
  unfolding values remove
  count-remove-le k [] = omega arith
  count-remove-le k ((j, s) ∷ m) = ground (arith, count-remove-le k m)

  pub count-insert-le :
      (k : K) (v : V) (m : Dict K V)
      → count_if p (values (insert k v m)) ≤ count_if p (values m) + (if p v then 1 else 0)
  unfolding values insert
  count-insert-le k v [] = omega arith
  count-insert-le k v ((j, s) ∷ m) = ground (arith, count-insert-le k v m)

  pub count-insert_present :
      (k : K) (v w : V) (m : Dict K V)
      → get k m ≡ some w
      → p v ≡ p w
      → count_if p (values (insert k v m)) ≡ count_if p (values m)
  unfolding values insert get
  count-insert_present k v w [] h e = cc
  count-insert_present k v w ((j, s) ∷ m) h e = ground (arith, count-insert_present k v w m)

  -- A value that passes only if the one it replaces does adds nothing.
  pub count-insert_weaker :
      (k : K) (v w : V) (m : Dict K V)
      → get k m ≡ some w
      → (p v ≡ true → p w ≡ true)
      → count_if p (values (insert k v m)) ≤ count_if p (values m)
  unfolding values insert get
  count-insert_weaker k v w [] h f = cc
  count-insert_weaker k v w ((j, s) ∷ m) h f = elim (Bool-cases (j == k)) [
    | inl same ↦ rw (same, values) (weaker (ground (arith, h)))
    | inr other ↦ rw (other, values) (omega (arith, count-insert_weaker k v w m (ground arith) f))
  ]
    where
      weaker :
          s ≡ w
          → (if p v then 1 else 0) + count_if p (values m)
            ≤ (if p s then 1 else 0) + count_if p (values m)
      weaker e' = elim (Bool-cases (p v)) [
        | inl t ↦ rw (t, e', f t) (omega arith)
        | inr t ↦ rw t (omega arith)
      ]
