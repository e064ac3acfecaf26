-- ===== src/Registry/Names.antt =====
-- A name resolves to its own entry, and a file that repeats a name is refused.
use mathlib.Core.Option.{none-ne-some}
use mcp_ssh_rs.Prelude.{
  ◌++◌, false≢true, true, Option, none, some, [], ◌∷◌, ◌≡◌, ◌↔◌, refl, sym, ◌∙◌, arith, ok,
  Bool-cases, Option-cases, inl, inr, eq_refl,
}
use mcp_ssh_rs.Text.{Text, text_eq}
use mcp_ssh_rs.Dict.{Dict, get, insert, Distinct, get-insert}
use mcp_ssh_rs.Registry.{
  HostEntry, RoleEntry, resolve, resolve_role, is_present, add_entries, unique_keys,
}

abbrev or_else : {V : Type 0} → Option V → Option V → Option V
or_else (some v) o = some v
or_else none o = o

module _ {V : Type 0} where
  add_entries-first :
      (out m : Dict Text V) (j : Text) (v : V) (entries : Dict Text V)
      → add_entries out ((j, v) ∷ entries) ≡ ok m
      → (get j out ≡ none) × (add_entries (insert j v out) entries ≡ ok m)
  unfolding add_entries
  add_entries-first out m j v entries h = elim (Option-cases (get j out)) [
    | inr (w, e) ↦ ground (arith, e, h)
    | inl e ↦ (e, ground (arith, e, h))
  ]

  add_entries-get :
      (out m : Dict Text V) (entries : Dict Text V) (k : Text)
      → add_entries out entries ≡ ok m
      → get k m ≡ or_else (get k out) (get k entries)
  unfolding add_entries get
  add_entries-get out m [] k h = ground arith
  add_entries-get out m ((j, v) ∷ entries) k h =
      let (absent, rest) = add_entries-first out m j v entries h in
      ground (
        arith,
        text_eq.beq_iff j k,
        absent,
        add_entries-get (insert j v out) m entries k rest,
        get-insert j k v out,
      )

  add_entries-Distinct :
      (out m : Dict Text V) (entries : Dict Text V)
      → add_entries out entries ≡ ok m
      → Distinct entries × ((k : Text) → is_present (get k out) ≡ true → get k entries ≡ none)
  unfolding add_entries get
  add_entries-Distinct out m [] h = (tt, λ k p. refl)
  add_entries-Distinct out m ((j, v) ∷ entries) h =
      let (absent, rest) = add_entries-first out m j v entries h in
      let (distinct, apart) = add_entries-Distinct (insert j v out) m entries rest in
      (
        (apart j (ground (arith, get-insert j j v out, eq_refl j)), distinct),
        λ k p. ground (arith, text_eq.beq_iff j k, absent, p, apart k, get-insert j k v out),
      )

  add_entries-ok :
      (out : Dict Text V) (entries : Dict Text V)
      → Distinct entries
      → ((k : Text) → is_present (get k out) ≡ true → get k entries ≡ none)
      → (m : Dict Text V) × (add_entries out entries ≡ ok m)
  unfolding add_entries get
  add_entries-ok out [] d apart = (out, refl)
  add_entries-ok out ((j, v) ∷ entries) d apart =
      let (m, e) =
        add_entries-ok (insert j v out) entries d.1
          (λ k p. ground (arith, text_eq.beq_iff j k, d.0, p, apart k, get-insert j k v out)) in
      elim (Bool-cases (is_present (get j out))) [
        | inl present ↦ absurd (none-ne-some v (sym (apart j present) ∙ rw (eq_refl j) refl))
        | inr absent ↦ (m, rw absent e)
      ]

  -- The entries of a map in a file are accepted exactly if no name appears twice among them.
  pub unique_keys_iff :
      (entries : Dict Text V)
      → ((m : Dict Text V) × (unique_keys entries ≡ ok m)) ↔ Distinct entries
  unfolding unique_keys get
  unique_keys_iff entries = (
    λ (m, h). (add_entries-Distinct [] m entries h).0,
    λ d. add_entries-ok [] entries d (λ k p. absurd (false≢true p)),
  )

  -- In the map that is made of accepted entries, each name has the value that the file gives it, and no
  -- other name has one.
  pub get-unique_keys :
      (entries m : Dict Text V) (k : Text) → unique_keys entries ≡ ok m → get k m ≡ get k entries
  unfolding unique_keys get
  get-unique_keys entries m k h = add_entries-get [] m entries k h

get-Distinct :
    {V : Type 0} (before after : Dict Text V) (k : Text) (v : V)
    → Distinct (before ++ ((k, v) ∷ after))
    → get k (before ++ ((k, v) ∷ after)) ≡ some v
unfolding get
get-Distinct [] after k v d = rw (eq_refl k)
get-Distinct ((j, w) ∷ before) after k v d =
    ground (arith, text_eq.beq_iff j k, d.0, get-Distinct before after k v d.1)

-- In an accepted map, each entry that was written is found under its name.
get-written :
    {V : Type 0} (before after m : Dict Text V) (k : Text) (v : V)
    → unique_keys (before ++ ((k, v) ∷ after)) ≡ ok m
    → get k m ≡ some v
unfolding unique_keys get
get-written before after m k v h =
    get-unique_keys (before ++ ((k, v) ∷ after)) m k h
    ∙ get-Distinct before after k v ((unique_keys_iff (before ++ ((k, v) ∷ after))).0 (m, h))

-- Where a file is accepted, each role that is written for a host that is written resolves, wherever the
-- two stand in their maps: to the address and key written for that host, and the account, credential and
-- access class written for that role.
pub resolve-written :
    (before after hosts : Dict Text HostEntry) (earlier later : Dict Text RoleEntry)
    (host role : Text) (entry : HostEntry) (assigned : RoleEntry)
    → unique_keys (before ++ ((host, entry) ∷ after)) ≡ ok hosts
    → unique_keys (earlier ++ ((role, assigned) ∷ later)) ≡ ok entry.roles
    → resolve (record { hosts = hosts }) host role
      ≡ ok (record {
        host = host;
        role = role;
        address = entry.address;
        host_key = entry.host_key;
        user = assigned.user;
        credential = assigned.credential;
        access_class = assigned.access_class;
      })
unfolding resolve resolve_role
resolve-written before after hosts earlier later host role entry assigned h k = rw (
  get-written before after hosts host entry h,
  resolve,
  get-written earlier later entry.roles role assigned k,
  resolve_role,
)
