-- ===== src/Dict.antt =====
-- `HashMap` as an association list. The order of the list is the order of iteration, which the
-- program leaves open: every statement about a store ranges over all lists.
pub mod Counts
use mcp_ssh_rs.Prelude.{
  ◌≤◌, suc, length, ◌≡◌, refl, Bool, Option, none, some, List, [], ◌∷◌, arith, if◌then◌else◌, Eq,
  ◌==◌, eq_refl,
}

abbrev pub Dict : Type 0 → Type 0 → Type 0
Dict K V = List (K × V)

module _ {K V : Type 0} ⦃e : Eq K⦄ where
  unfoldable pub get : K → Dict K V → Option V
  get k [] = none
  get k ((j, v) ∷ m) = if j == k then some v else get k m

  -- A present key keeps its place and takes the new value.
  unfoldable pub insert : K → V → Dict K V → Dict K V
  insert k v [] = (k, v) ∷ []
  insert k v ((j, w) ∷ m) = if j == k then (k, v) ∷ m else (j, w) ∷ insert k v m

  unfoldable pub remove : K → Dict K V → Dict K V
  remove k [] = []
  remove k ((j, v) ∷ m) = if j == k then remove k m else (j, v) ∷ remove k m

module _ {K V : Type 0} where
  unfoldable pub retain : (V → Bool) → Dict K V → Dict K V
  retain p [] = []
  retain p ((j, v) ∷ m) = if p v then (j, v) ∷ retain p m else retain p m

  unfoldable pub values : Dict K V → List V
  values [] = []
  values ((j, v) ∷ m) = v ∷ values m

abbrev pub filter_option : {V : Type 0} → (V → Bool) → Option V → Option V
filter_option p none = none
filter_option p (some v) = if p v then some v else none

module _ {K V : Type 0} ⦃e : Eq K⦄ where
  -- No key occurs twice.
  abbrev pub Distinct : Dict K V → Type 0
  Distinct [] = Unit {0}
  Distinct ((j, v) ∷ m) = (get j m ≡ none) × Distinct m

  pub get-insert :
      (k j : K) (v : V) (m : Dict K V) → get j (insert k v m) ≡ (if k == j then some v else get j m)
  unfolding get insert
  get-insert k j v [] = refl
  get-insert k j v ((i, w) ∷ m) =
      ground (arith, e.beq_iff k j, e.beq_iff i k, e.beq_iff i j, get-insert k j v m)

  pub get-insert_self : (k : K) (v : V) (m : Dict K V) → get k (insert k v m) ≡ some v
  get-insert_self k v m = rw (get-insert k k v m, eq_refl k)

  pub get-remove :
      (k j : K) (m : Dict K V) → get j (remove k m) ≡ (if k == j then none else get j m)
  unfolding get remove
  get-remove k j [] = ground arith
  get-remove k j ((i, w) ∷ m) =
      ground (arith, e.beq_iff k j, e.beq_iff i k, e.beq_iff i j, get-remove k j m)

  get-retain-none :
      (p : V → Bool) (k : K) (m : Dict K V) → get k m ≡ none → get k (retain p m) ≡ none
  unfolding get retain
  get-retain-none p k [] h = refl
  get-retain-none p k ((i, w) ∷ m) h = ground (arith, get-retain-none p k m)

  pub get-retain :
      (p : V → Bool) (k : K) (m : Dict K V)
      → Distinct m
      → get k (retain p m) ≡ filter_option p (get k m)
  unfolding get retain
  get-retain p k [] d = refl
  get-retain p k ((i, w) ∷ m) d =
      ground (arith, e.beq_iff i k, get-retain p k m d.1, get-retain-none p i m d.0)

  pub insert-Distinct : (k : K) (v : V) (m : Dict K V) → Distinct m → Distinct (insert k v m)
  unfolding get insert
  insert-Distinct k v [] d = (refl, tt)
  insert-Distinct k v ((i, w) ∷ m) d =
      ground (arith, e.beq_iff i k, e.beq_iff k i, get-insert k i v m, insert-Distinct k v m d.1)

  pub remove-Distinct : (k : K) (m : Dict K V) → Distinct m → Distinct (remove k m)
  unfolding remove
  remove-Distinct k [] d = tt
  remove-Distinct k ((i, w) ∷ m) d = ground (arith, get-remove k i m, remove-Distinct k m d.1)

  pub retain-Distinct : (p : V → Bool) (m : Dict K V) → Distinct m → Distinct (retain p m)
  unfolding retain
  retain-Distinct p [] d = tt
  retain-Distinct p ((i, w) ∷ m) d =
      ground (arith, get-retain-none p i m d.0, retain-Distinct p m d.1)

  -- What is found after a sweep or a removal was there before.
  pub get_of_retain :
      (p : V → Bool) (k : K) (v : V) (m : Dict K V)
      → Distinct m
      → get k (retain p m) ≡ some v
      → get k m ≡ some v
  get_of_retain p k v m d h = ground (arith, get-retain p k m d)

  pub get_of_remove :
      (k j : K) (v : V) (m : Dict K V) → get j (remove k m) ≡ some v → get j m ≡ some v
  get_of_remove k j v m h = ground (arith, get-remove k j m)

pub length-insert-le :
    {K V : Type 0} ⦃e : Eq K⦄ (k : K) (v : V) (m : Dict K V)
    → length (insert k v m) ≤ suc (length m)
unfolding insert
length-insert-le k v [] = omega arith
length-insert-le k v ((j, w) ∷ m) = ground (arith, length-insert-le k v m)

pub length-retain-le : {K V : Type 0} (p : V → Bool) (m : Dict K V) → length (retain p m) ≤ length m
unfolding retain
length-retain-le p [] = omega arith
length-retain-le p ((j, w) ∷ m) = ground (arith, length-retain-le p m)
