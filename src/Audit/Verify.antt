-- ===== src/Audit/Verify.antt =====
-- crates/ssh-core/src/audit.rs: how the ledger is read, sealed and verified.
use mcp_ssh_rs.Prelude.{
  ℕ, zero, suc, ◌-◌, Bool, true, false, Option, none, some, List, [], ◌∷◌, length, ltb, nat_beq,
  if◌then◌else◌, Result, ok, err, ◌==◌, ◌>>=◌, ◌>>◌, guard,
}
use mcp_ssh_rs.Text.{Text, text_eq}
use mcp_ssh_rs.Clock.{saturating_add}
use mcp_ssh_rs.Audit.{
  AuditError, Broken, Entry, Held, Verified, intact, sealed, digest_of_held, previous_of,
  sequence_of, content_altered, out_of_order, link_mismatch, unreadable, entries_missing,
  head_mismatch,
}
use mcp_ssh_rs.Audit.State.{State, get_at, back}
use mcp_ssh_rs.Audit.Retention.{Codec, digest_of, digest_or, seal, prune_indexes}

-- The rounds of the loop of `seal_before` that are left; an entry whose check fails is left alone.
unfoldable pub seal_lower : Codec → ℕ → ℕ → ℕ → State → State
seal_lower codec sequence zero index s = s
seal_lower codec sequence (suc rounds) index s =
    let lower : Bool = elim (get_at index s.entries) [
      | none ↦ false
      | some held ↦ ltb (sequence_of held) sequence
    ] in
    seal_lower codec sequence rounds (suc index) (if lower then (seal codec index s).0 else s)

-- `Ledger::seal_before`.
unfoldable pub seal_before : Codec → ℕ → State → State
unfolding seal_lower
seal_before codec sequence s = prune_indexes (seal_lower codec sequence (length s.entries) 0 s)

-- The entries that can still be read, oldest first: `Ledger::entries`.
unfoldable pub readable_entries : List Held → List Entry
readable_entries [] = []
readable_entries (intact entry ∷ held) = entry ∷ readable_entries held
readable_entries (sealed sequence previous digest ∷ held) = readable_entries held

-- The content of an entry against its own digest.
abbrev pub recomputed : Entry → Result AuditError Text → Result Broken (Unit {0})
recomputed entry (err e) = err (unreadable entry.sequence)
recomputed entry (ok digest) =
    if digest == entry.digest then ok tt else err (content_altered entry.sequence)

abbrev pub check_readable : Codec → Held → Result Broken (Unit {0})
check_readable codec (intact entry) = recomputed entry (digest_of codec entry)
check_readable codec (sealed sequence previous digest) = ok tt

abbrev pub is_issued : Option Text → Text → Bool
is_issued none digest = false
is_issued (some issued) digest = issued == digest

-- One round of the loop of `verify_window`, at a position with the digest before.
unfoldable pub verify_held : Codec → ℕ → Text → Option Text → Held → Result Broken (Unit {0})
verify_held codec position previous issued held = do
  guard (nat_beq (sequence_of held) position) (out_of_order position (sequence_of held))
  guard (previous_of held == previous) (link_mismatch (sequence_of held))
  guard (is_issued issued (digest_of_held held)) (content_altered (sequence_of held))
  check_readable codec held

-- The head of a list, and the rest.
abbrev pub first : {A : Type 0} → List A → Option A
first [] = none
first (x ∷ xs) = some x

abbrev pub rest : {A : Type 0} → List A → List A
rest [] = []
rest (x ∷ xs) = xs

abbrev pub count_sealed : Held → ℕ → ℕ
count_sealed (intact entry) count = count
count_sealed (sealed sequence previous digest) count = saturating_add count 1

-- The loop over the entries from an index on, with the digests that were issued from there on and the
-- sealed entries so far.
unfoldable pub verify_from : Codec → ℕ → ℕ → Text → ℕ → List Text → List Held → Result Broken ℕ
unfolding verify_held
verify_from codec retired index previous count digests [] = ok count
verify_from codec retired index previous count digests (held ∷ entries) = do
  verify_held codec (saturating_add retired index) previous (first digests) held
  verify_from codec retired (suc index) (digest_of_held held) (count_sealed held count)
      (rest digests) entries

abbrev pub skip : {A : Type 0} → ℕ → List A → List A
skip zero xs = xs
skip (suc n) [] = []
skip (suc n) (x ∷ xs) = skip n xs

abbrev pub same_head : Option Held → Option Text → Bool
same_head none none = true
same_head (some held) (some digest) = digest_of_held held == digest
same_head _ _ = false

-- The digest before the window.
abbrev anchor : Text → ℕ → List Held → Text
anchor checkpoint zero entries = checkpoint
anchor checkpoint (suc index) entries = digest_or checkpoint (get_at index entries)

-- `Ledger::verify_window`, from a start.
unfoldable pub verify_window : Codec → ℕ → State → Result Broken Verified
unfolding verify_from
verify_window codec start s = do
  count ←
      verify_from codec s.issued.retired start (anchor s.issued.checkpoint start s.entries) 0
        (skip start s.issued.digests) (skip start s.entries)
  guard (nat_beq (saturating_add s.issued.retired (length s.entries)) s.issued.total)
      (entries_missing s.issued.total (saturating_add s.issued.retired (length s.entries)))
  guard (same_head (back s.entries) (back s.issued.digests)) head_mismatch
  ok (record { entries = length s.entries - start; sealed = count; retired = s.issued.retired })

-- `Ledger::verify`, and `Ledger::verify_recent`.
unfoldable pub verify : Codec → State → Result Broken Verified
unfolding verify_window
verify codec = verify_window codec 0

unfoldable pub verify_recent : Codec → ℕ → State → Result Broken Verified
unfolding verify_window
verify_recent codec limit s = verify_window codec (length s.entries - limit) s
