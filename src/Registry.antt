-- ===== src/Registry.antt =====
-- crates/ssh-core/src/registry.rs: the hosts that a deployment may reach.
pub mod Names
use mcp_ssh_rs.Prelude.{
  ℕ, Bool, true, false, not, Option, none, some, List, [], ◌∷◌, all, if◌then◌else◌, Result, ok, err,
  ◌>>=◌, ◌>>◌, guard, ok_or, Eq, map,
}
use mcp_ssh_rs.Text.{Text, text, text_eq, is_whitespace}
use mcp_ssh_rs.Dict.{Dict, get, insert}
use mcp_ssh_rs.Ids.{AccessClass}

pub record Blank : Type 0 where
  pub what : Text

-- `CredentialRef::parse`; a reference is the text that it wraps.
unfoldable pub parse_credential : Text → Result Blank Text
parse_credential raw = do
  guard (not (all is_whitespace raw)) (record { what = text "credential reference" })
  ok raw

pub record Target : Type 0 where
  pub host : Text
  pub role : Text
  pub address : Text
  pub host_key : Text
  pub user : Text
  pub credential : Text
  pub access_class : AccessClass

pub record RoleEntry : Type 0 where
  pub user : Text
  pub credential : Text
  pub access_class : AccessClass

pub record HostEntry : Type 0 where
  pub address : Text
  pub host_key : Text
  pub roles : Dict Text RoleEntry

pub record Registry : Type 0 where
  pub hosts : Dict Text HostEntry

pub data ResolveError : Type 0 where
  unknown_host : Text → ResolveError
  unknown_role : Text → Text → ResolveError

abbrev pub is_present : {V : Type 0} → Option V → Bool
is_present none = false
is_present (some v) = true

-- The loop of `unique_keys`, over the entries in the order of the file; its error is the name that
-- appears twice.
module _ {V : Type 0} where
  unfoldable pub add_entries : Dict Text V → List (Text × V) → Result Text (Dict Text V)
  add_entries out [] = ok out
  add_entries out ((key, value) ∷ entries) =
      let added = add_entries (insert key value out) entries in
      if is_present (get key out) then err key else added

  unfoldable pub unique_keys : List (Text × V) → Result Text (Dict Text V)
  unique_keys entries = add_entries [] entries

-- `Registry::resolve`, once the host is found.
unfoldable pub resolve_role : Text → HostEntry → Text → Result ResolveError Target
resolve_role host entry role = elim (get role entry.roles) [
  | none ↦ err (unknown_role host role)
  | some assigned ↦ ok (record {
    host = host;
    role = role;
    address = entry.address;
    host_key = entry.host_key;
    user = assigned.user;
    credential = assigned.credential;
    access_class = assigned.access_class;
  })
]

-- `Registry::resolve`.
unfoldable pub resolve : Registry → Text → Text → Result ResolveError Target
resolve registry host role = elim (get host registry.hosts) [
  | none ↦ err (unknown_host host)
  | some entry ↦ resolve_role host entry role
]

abbrev roles_of : Option HostEntry → List (Text × AccessClass)
roles_of none = []
roles_of (some entry) =
    map (λ (named : Text × RoleEntry). (named.0, named.1.access_class)) entry.roles

-- `Registry::accounts`.
unfoldable pub accounts : Registry → Text → List (Text × AccessClass)
accounts registry host = roles_of (get host registry.hosts)
