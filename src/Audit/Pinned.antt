-- ===== src/Audit/Pinned.antt =====
-- The bytes that the proofs of the ledger hold, of crates/ssh-core/src/audit/retention.rs.
use mcp_ssh_rs.Prelude.{
  ℕ, ◌+◌, ◌≤◌, ◌<◌, ◌≡◌, refl, Bool, true, false, ◌&&◌, Option, none, some, List, [], ◌∷◌, length,
  arith, nat_eq,
}
use mcp_ssh_rs.Dict.{Dict, get, insert, remove, retain, values, get-insert, get-remove}
use mcp_ssh_rs.Clock.{u64_max, saturating_add}
use mcp_ssh_rs.Audit.{Entry, Proof}
use mcp_ssh_rs.Audit.Secrets.{is_matched}
use mcp_ssh_rs.Audit.State.{State, Limits}
use mcp_ssh_rs.Audit.Retention.{bytes_at, pinned, is_pinned_full, heap_with, proofs_with}
use mcp_ssh_rs.Audit.Ledger.{completed_heap}

-- The bytes at some addresses, without a bound.
abbrev pub bytes_of : Dict ℕ Proof → List ℕ → ℕ
bytes_of heap [] = 0
bytes_of heap (address ∷ addresses) = bytes_at heap address + bytes_of heap addresses

pub pinned-bytes_of :
    (heap : Dict ℕ Proof) (addresses : List ℕ) (sum : ℕ)
    → sum ≤ u64_max
    → pinned heap addresses sum ≡ saturating_add sum (bytes_of heap addresses)
pinned-bytes_of heap [] sum l = ground (arith, l)
pinned-bytes_of heap (a ∷ addresses) sum l =
    ground (
      arith,
      l,
      pinned-bytes_of heap addresses (saturating_add sum (bytes_at heap a)) (ground arith),
    )

pub bytes_of-retain :
    (heap : Dict ℕ Proof) (p : ℕ → Bool) (m : Dict ℕ ℕ)
    → bytes_of heap (values (retain p m)) ≤ bytes_of heap (values m)
unfolding retain values
bytes_of-retain heap p [] = omega arith
bytes_of-retain heap p ((j, a) ∷ m) = ground (arith, bytes_of-retain heap p m)

bytes_of-insert :
    (heap : Dict ℕ Proof) (k a : ℕ) (m : Dict ℕ ℕ)
    → bytes_of heap (values (insert k a m)) ≤ bytes_of heap (values m) + bytes_at heap a
unfolding insert values
bytes_of-insert heap k a [] = omega arith
bytes_of-insert heap k a ((j, b) ∷ m) = ground (arith, bytes_of-insert heap k a m)

-- There is a proof at each of the addresses.
abbrev pub AllLive : Dict ℕ Proof → List ℕ → Type 0
AllLive heap [] = Unit {0}
AllLive heap (address ∷ addresses) = (is_matched (get address heap) ≡ true) × AllLive heap addresses

pub retain-AllLive :
    (heap : Dict ℕ Proof) (m : Dict ℕ ℕ)
    → AllLive heap (values (retain (λ address. is_matched (get address heap)) m))
unfolding retain values
retain-AllLive heap [] = tt
retain-AllLive heap ((j, a) ∷ m) = ground (arith, retain-AllLive heap m)

-- A proof that is made where there was none is not counted for another.
bytes_of-made :
    (heap : Dict ℕ Proof) (address : ℕ) (proof : Proof) (addresses : List ℕ)
    → get address heap ≡ none
    → AllLive heap addresses
    → bytes_of (insert address proof heap) addresses ≡ bytes_of heap addresses
bytes_of-made heap address proof [] n l = refl
bytes_of-made heap address proof (a ∷ addresses) n l = ground (
  arith,
  l.0,
  n,
  nat_eq.beq_iff address a,
  get-insert address a proof heap,
  bytes_of-made heap address proof addresses n l.1,
)

bytes_at-completed :
    (heap : Dict ℕ Proof) (address a : ℕ) (found : Option Proof)
    → get address heap ≡ found
    → bytes_at (completed_heap address found heap) a ≡ bytes_at heap a
bytes_at-completed heap address a none e = refl
bytes_at-completed heap address a (some proof) e = ground (
  arith,
  e,
  nat_eq.beq_iff address a,
  get-insert address a (record proof { completed = true }) heap,
)

pub bytes_of-completed :
    (heap : Dict ℕ Proof) (address : ℕ) (addresses : List ℕ)
    → bytes_of (completed_heap address (get address heap) heap) addresses ≡ bytes_of heap addresses
bytes_of-completed heap address [] = refl
bytes_of-completed heap address (a ∷ addresses) = omega (
  arith,
  bytes_at-completed heap address a (get address heap) refl,
  bytes_of-completed heap address addresses,
)

pub bytes_of-removed :
    (heap : Dict ℕ Proof) (address : ℕ) (addresses : List ℕ)
    → bytes_of (remove address heap) addresses ≤ bytes_of heap addresses
bytes_of-removed heap address [] = omega arith
bytes_of-removed heap address (a ∷ addresses) = ground (
  arith,
  nat_eq.beq_iff address a,
  get-remove address a heap,
  bytes_of-removed heap address addresses,
)

-- The bytes that the proofs hold are within the limit, as far as a `usize` can count them.
abbrev pub IsPinned : Limits → State → Type 0
IsPinned limits s = saturating_add 0 (bytes_of s.heap (values s.proofs)) ≤ limits.proof_bytes

-- What is left for one more proof.
abbrev pub Spare : Limits → ℕ → State → Type 0
Spare limits bytes s =
    (length s.proofs < limits.active_proofs)
    × (saturating_add 0 (bytes_of s.heap (values s.proofs)) + bytes ≤ limits.proof_bytes)
    × (saturating_add 0 (bytes_of s.heap (values s.proofs)) + bytes ≤ u64_max)

pub is_pinned_full-Spare :
    (limits : Limits) (bytes : ℕ) (pin : Bool) (s t : State)
    → pin ≡ true
    → (pin && is_pinned_full limits bytes s) ≡ false
    → length t.proofs ≤ length s.proofs
    → bytes_of t.heap (values t.proofs) ≤ bytes_of s.heap (values s.proofs)
    → Spare limits bytes t
is_pinned_full-Spare limits bytes pin s t p free h l =
    let counted = pinned-bytes_of s.heap (values s.proofs) 0 (omega arith) in
    (
      ground (arith, p, free, h),
      ground (arith, p, free, counted, l),
      ground (arith, p, free, counted, l),
    )

pub made-IsPinned :
    (limits : Limits) (pin : Bool) (entry : Entry) (bytes sequence address : ℕ) (s t : State)
    → get address s.heap ≡ none
    → AllLive s.heap (values s.proofs)
    → (pin ≡ true → Spare limits bytes s)
    → IsPinned limits s
    → t.heap ≡ heap_with pin entry bytes address s.heap
    → t.proofs ≡ proofs_with pin sequence address s.proofs
    → IsPinned limits t
made-IsPinned limits false entry bytes sequence address s t n l q v h k = rw (h, k) v
made-IsPinned limits true entry bytes sequence address s t n l q v h k =
    let proof : Proof = record { entry = entry; bytes = bytes; completed = false } in
    let heap = insert address proof s.heap in
    let spare = q refl in
    rw (h, k)
      (ground (
        arith,
        spare.1,
        spare.2,
        bytes_of-insert heap sequence address s.proofs,
        bytes_of-made s.heap address proof (values s.proofs) n l,
        get-insert address address proof s.heap,
        nat_eq.beq_iff address address,
      ))
