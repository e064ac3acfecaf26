-- ===== src/Files/Info.antt =====
-- crates/ssh-core/src/files/info.rs: what an inspection of a remote file answers.
use mcp_ssh_rs.Prelude.{
  ℕ, ◌+◌, ◌*◌, Bool, true, false, ◌&&◌, ◌||◌, Option, none, some, List, [], ◌∷◌, ltb, leb, nat_beq,
  any, all, length, if◌then◌else◌,
}
use mcp_ssh_rs.Text.{Text, bytes, is_lower_hex}
use mcp_ssh_rs.Clock.{u64_max, saturating_add, saturating_mul}
use mcp_ssh_rs.Audit.Secrets.{secret_shape, is_matched}

abbrev pub max_directory_entries : ℕ
max_directory_entries = 128

abbrev pub max_directory_bytes : ℕ
max_directory_bytes = 64 * 1024

pub data FileKind : Type 0 where
  file directory other : FileKind

pub record Metadata : Type 0 where
  pub kind : FileKind
  pub bytes : Option ℕ
  pub permissions : Option ℕ
  pub modified : Option ℕ

pub record DirectoryEntry : Type 0 where
  pub name : Option Text
  pub metadata : Metadata

pub data FileInfo : Type 0 where
  stat : Metadata → FileInfo
  list : List DirectoryEntry → Bool → FileInfo
  checksum : ℕ → Text → FileInfo

abbrev name_of : Option Text → Text
name_of none = []
name_of (some name) = name

-- The body of the fold over the entries of a listing.
unfoldable pub charge_entry : ℕ → DirectoryEntry → Option ℕ
charge_entry charge entry =
    let name = name_of entry.name in
    let total = charge + saturating_add (saturating_mul (bytes name) 6) 256 in
    if ltb 4096 (bytes name)
      || any (λ c. nat_beq c b'/' || nat_beq c 0) name
      || is_matched (secret_shape name)
    then none
    else (if leb total u64_max then some total else none)

unfoldable pub charge_entries : ℕ → List DirectoryEntry → Option ℕ
unfolding charge_entry
charge_entries charge [] = some charge
charge_entries charge (entry ∷ entries) = elim (charge_entry charge entry) [
  | none ↦ none
  | some total ↦ charge_entries total entries
]

abbrev fits_directory : Option ℕ → Bool
fits_directory none = false
fits_directory (some charge) = leb charge max_directory_bytes

-- `FileInfo::is_bounded`.
unfoldable pub is_bounded : FileInfo → Bool
unfolding charge_entries
is_bounded (FileInfo.stat metadata) = true
is_bounded (FileInfo.list entries truncated) =
    leb (length entries) max_directory_entries && fits_directory (charge_entries 128 entries)
is_bounded (FileInfo.checksum size sha256) = nat_beq (bytes sha256) 64 && all is_lower_hex sha256
