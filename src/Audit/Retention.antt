-- ===== src/Audit/Retention.antt =====
-- crates/ssh-core/src/audit/retention.rs: what makes room for an entry, and what takes it in.
-- `serde_json::to_vec` and SHA-256 are parameters.
use mcp_ssh_rs.Prelude.{
  ℕ, zero, suc, ◌+◌, ◌-◌, Bool, true, false, not, ◌&&◌, ◌||◌, Option, none, some, List, [], ◌∷◌,
  ◌++◌, length, leb, ltb, nat_beq, if◌then◌else◌, Result, ok, err, ◌==◌, nat_eq,
}
use mcp_ssh_rs.Text.{Text, text_eq}
use mcp_ssh_rs.Dict.{Dict, get, insert, retain, values}
use mcp_ssh_rs.Clock.{u64_max, saturating_add}
use mcp_ssh_rs.Digest.{hex}
use mcp_ssh_rs.Audit.{
  AuditError, full, retention_corrupt, unserializable, Entry, Held, intact, sealed, Proof,
  sequence_of, previous_of, digest_of_held,
}
use mcp_ssh_rs.Audit.Secrets.{is_matched}
use mcp_ssh_rs.Audit.State.{
  State, Limits, ReadableDecision, Action, pure, ◌>>=◌, ◌>>◌, gets, modify, fail_if, lift, get_at,
  set_at, pop_front, entry_at,
}

-- How an entry is written as JSON, or why it cannot be, and the hash.
pub record Codec : Type 0 where
  pub encode : Entry → Result Text (List ℕ)
  pub sha256 : List ℕ → List ℕ

abbrev pub or_zero : Option ℕ → ℕ
or_zero none = 0
or_zero (some n) = n

-- The digest of the entry before, or the checkpoint.
abbrev pub digest_or : Text → Option Held → Text
digest_or checkpoint none = checkpoint
digest_or checkpoint (some held) = digest_of_held held

abbrev pub before : ℕ → List Held → Option Held
before zero entries = none
before (suc index) entries = get_at index entries

abbrev pub same_digest : Option Text → Text → Bool
same_digest none digest = false
same_digest (some issued) digest = issued == digest

-- Whether the entry at an index is the one that was issued there, but for its content.
abbrev pub in_place : State → ℕ → Held → Bool
in_place s index held =
    leb (s.issued.retired + index) u64_max
    && nat_beq (sequence_of held) (s.issued.retired + index)
    && previous_of held == digest_or s.issued.checkpoint (before index s.entries)
    && same_digest (get_at index s.issued.digests) (digest_of_held held)

abbrev pub is_intact : Held → Bool
is_intact (intact entry) = true
is_intact (sealed sequence previous digest) = false

abbrev pub is_readable : Option Held → Bool
is_readable none = false
is_readable (some held) = is_intact held

-- `State::prune_indexes`.
unfoldable pub prune_indexes : State → State
prune_indexes s =
    let readable : ℕ → Bool = λ sequence. is_readable (entry_at sequence s) in
    record s {
      proofs = retain (λ address. is_matched (get address s.heap)) s.proofs;
      evaluations = record s.evaluations {
        readable_decisions =
            retain (λ (decision : ReadableDecision). readable decision.sequence)
              s.evaluations.readable_decisions;
        readable_artifacts =
            retain (λ (entry : Entry). readable entry.sequence) s.evaluations.readable_artifacts;
      };
    }

-- What `State::seal` does to an entry past its check.
unfoldable pub seal_at : ℕ → State → State
seal_at index s = elim (get_at index s.entries) [
  | none ↦ s
  | some held ↦ elim held [
    | sealed sequence previous digest ↦ s
    | intact entry ↦ record s {
      entries = set_at index (sealed entry.sequence entry.previous entry.digest) s.entries;
      readable_bytes = s.readable_bytes - or_zero (get_at index s.sizes);
      sizes = set_at index 0 s.sizes;
    }
  ]
]

-- The end of `State::retire_front`.
unfoldable pub drop_front : State → State
drop_front s = record s {
  entries = pop_front s.entries;
  issued = record s.issued {
    checkpoint = digest_or s.issued.checkpoint (get_at 0 s.entries);
    retired = s.issued.retired + 1;
    digests = pop_front s.issued.digests;
  };
  readable_bytes = s.readable_bytes - or_zero (get_at 0 s.sizes);
  sizes = pop_front s.sizes;
}

-- Whether the three deques go together, and account for what was issued.
abbrev pub in_step : State → Bool
in_step s =
    nat_beq (length s.entries) (length s.issued.digests)
    && nat_beq (length s.entries) (length s.sizes)
    && leb (s.issued.retired + length s.entries) u64_max
    && nat_beq (s.issued.retired + length s.entries) s.issued.total

abbrev pub is_expired : ℕ → Limits → Option Held → Bool
is_expired now limits (some (intact entry)) = leb limits.readable_millis (now - entry.at)
is_expired now limits _ = false

-- `checked_add(charge).is_some_and(|total| total <= limits.readable_bytes)`.
abbrev pub has_room : Limits → ℕ → State → Bool
has_room limits charge s =
    leb (s.readable_bytes + charge) u64_max && leb (s.readable_bytes + charge) limits.readable_bytes

-- The bytes of the proofs that are held.
abbrev pub bytes_at : Dict ℕ Proof → ℕ → ℕ
bytes_at heap address = elim (get address heap) [ none ↦ 0 | some proof ↦ proof.bytes ]

abbrev pub pinned : Dict ℕ Proof → List ℕ → ℕ → ℕ
pinned heap [] sum = sum
pinned heap (address ∷ addresses) sum =
    pinned heap addresses (saturating_add sum (bytes_at heap address))

abbrev pub is_pinned_full : Limits → ℕ → State → Bool
is_pinned_full limits bytes s =
    let total = pinned s.heap (values s.proofs) 0 + bytes in
    leb limits.active_proofs (length s.proofs) || ltb u64_max total || ltb limits.proof_bytes total

pub record Prepared : Type 0 where
  pub bytes : ℕ
  pub readable : Bool

-- The bytes that an entry takes up once it is held.
abbrev pub charge_of : Prepared → ℕ
charge_of prepared = if prepared.readable then prepared.bytes else 0

pub record Written : Type 0 where
  pub entry : Entry
  pub proof : Option ℕ

abbrev pub held_as : Bool → Entry → Held
held_as true entry = intact entry
held_as false entry = sealed entry.sequence entry.previous entry.digest

abbrev pub proofs_with : Bool → ℕ → ℕ → Dict ℕ ℕ → Dict ℕ ℕ
proofs_with true sequence address proofs = insert sequence address proofs
proofs_with false sequence address proofs = proofs

abbrev pub heap_with : Bool → Entry → ℕ → ℕ → Dict ℕ Proof → Dict ℕ Proof
heap_with true entry bytes address heap =
    insert address (record { entry = entry; bytes = bytes; completed = false }) heap
heap_with false entry bytes address heap = heap

-- What `State::commit` does past its check; a proof is made at `address`.
unfoldable pub take_in : Entry → Prepared → Bool → ℕ → State → State
take_in entry prepared pin address s = record s {
  entries = s.entries ++ (held_as prepared.readable entry ∷ []);
  issued = record s.issued {
    digests = s.issued.digests ++ (entry.digest ∷ []);
    total = s.issued.total + 1;
  };
  sizes = s.sizes ++ (charge_of prepared ∷ []);
  readable_bytes = saturating_add s.readable_bytes (charge_of prepared);
  proofs = proofs_with pin entry.sequence address s.proofs;
  heap = heap_with pin entry prepared.bytes address s.heap;
}

-- `State::commit`.
unfoldable pub commit : Entry → Prepared → Bool → ℕ → Action Written
unfolding take_in
commit entry prepared pin address = do
  fail_if (← gets (λ s. leb u64_max s.issued.total)) full
  modify (take_in entry prepared pin address)
  pure (record { entry = entry; proof = if pin then some address else none })

module _ (codec : Codec) where
  -- `digest_of`.
  unfoldable pub digest_of : Entry → Result AuditError Text
  digest_of entry = elim (codec.encode (record entry { digest = [] })) [
    | err detail ↦ err (unserializable detail)
    | ok canonical ↦ ok (hex (codec.sha256 canonical))
  ]

  -- `encoded_bytes`.
  unfoldable pub encoded_bytes : Entry → Result AuditError ℕ
  encoded_bytes entry = elim (codec.encode entry) [
    | err detail ↦ err full
    | ok bytes ↦ if leb (length bytes) u64_max then ok (length bytes) else err full
  ]

  abbrev matches : Entry → Result AuditError Text → Result AuditError (Unit {0})
  matches entry (ok digest) = if digest == entry.digest then ok tt else err retention_corrupt
  matches entry (err e) = err e

  -- The part of `State::check` that reads the content.
  unfoldable pub check_content : Held → Result AuditError (Unit {0})
  check_content held = elim held [
    | intact entry ↦ matches entry (digest_of entry)
    | sealed sequence previous digest ↦ ok tt
  ]

  abbrev check_held : State → ℕ → Option Held → Result AuditError (Unit {0})
  check_held s index none = err retention_corrupt
  check_held s index (some held) =
      if in_place s index held then check_content held else err retention_corrupt

  -- `State::check`.
  unfoldable pub check : ℕ → Action (Unit {0})
  check index s = (s, check_held s index (get_at index s.entries))

  -- `State::seal`.
  unfoldable pub seal : ℕ → Action (Unit {0})
  unfolding check seal_at
  seal index = do check index; modify (seal_at index)

  -- `State::retire_front`.
  unfoldable pub retire_front : Action (Unit {0})
  unfolding check drop_front
  retire_front = do
    check 0
    fail_if (← gets (λ s. leb u64_max s.issued.retired)) full
    modify drop_front

  abbrev pub seal_if : Bool → ℕ → Action (Unit {0})
  seal_if true index = seal index
  seal_if false index = pure tt

  -- The loop of `State::reclaim`, for the rounds that are left.
  unfoldable pub seal_expired : ℕ → Limits → ℕ → ℕ → Action (Unit {0})
  seal_expired now limits zero index = pure tt
  seal_expired now limits (suc rounds) index = do
    seal_if (← gets (λ s. is_expired now limits (get_at index s.entries))) index
    seal_expired now limits rounds (suc index)

  -- `State::reclaim`.
  unfoldable pub reclaim : ℕ → Limits → Action (Unit {0})
  unfolding prune_indexes seal_expired
  reclaim now limits = do
    fail_if (← gets (λ s. not (in_step s))) retention_corrupt
    seal_expired now limits (← gets (λ s. length s.entries)) 0
    modify prune_indexes

  -- The loop that retires entries until one more fits. Each round retires one or fails, so that there
  -- are at most as many rounds as entries.
  unfoldable pub retire_until : Limits → ℕ → Action (Unit {0})
  retire_until limits zero s = pure tt s
  retire_until limits (suc rounds) s =
      if leb limits.entries (length s.entries)
      then (retire_front >> retire_until limits rounds) s
      else pure tt s

  -- The loop that seals entries until the charge fits.
  unfoldable pub seal_until : Limits → ℕ → ℕ → ℕ → Action (Unit {0})
  seal_until limits charge zero index s = pure tt s
  seal_until limits charge (suc rounds) index s =
      if has_room limits charge s
      then pure tt s
      else (seal index >> seal_until limits charge rounds (suc index)) s

  -- The end of `State::prepare`, from the check of what is pinned.
  unfoldable pub make_room : Limits → Prepared → Bool → Action Prepared
  unfolding retire_until seal_until prune_indexes
  make_room limits prepared pin = do
    fail_if (← gets (λ s. pin && is_pinned_full limits prepared.bytes s)) full
    retire_until limits (← gets (λ s. length s.entries))
    seal_until limits (charge_of prepared) (← gets (λ s. length s.entries)) 0
    fail_if (← gets (λ s. not (has_room limits (charge_of prepared) s))) full
    modify prune_indexes
    pure prepared

  -- `State::prepare`.
  unfoldable pub prepare : ℕ → Limits → Entry → Bool → Action Prepared
  unfolding encoded_bytes reclaim make_room
  prepare now limits entry pin = do
    fail_if (← gets (λ s. leb u64_max s.issued.total)) full
    bytes ← lift (encoded_bytes entry)
    reclaim now limits
    fail_if (nat_beq limits.entries 0 || pin && ltb limits.readable_bytes bytes) full
    make_room limits (record { bytes = bytes; readable = leb bytes limits.readable_bytes }) pin
