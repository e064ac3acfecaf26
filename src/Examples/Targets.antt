-- ===== src/Examples/Targets.antt =====
-- The registry at a small configuration.
use mcp_ssh_rs.Prelude.{◌≡◌, ◌↔◌, refl, [], ◌∷◌, ok, err}
use mcp_ssh_rs.Text.{Text, text, text_eq}
use mcp_ssh_rs.Dict.{Dict, get, insert, Distinct}
use mcp_ssh_rs.Ids.{read_only}
use mcp_ssh_rs.Registry.{Registry, HostEntry, RoleEntry, Target, resolve, unique_keys, add_entries}
use mcp_ssh_rs.Registry.Names.{resolve-written, unique_keys_iff}

abbrev viewer : RoleEntry
viewer = record { user = text "view"; credential = text "vault/view"; access_class = read_only }

abbrev admin : RoleEntry
admin = record viewer { user = text "root" }

abbrev roles : Dict Text RoleEntry
roles = (text "viewer", viewer) ∷ (text "admin", admin) ∷ []

abbrev web : HostEntry
web = record { address = text "10.0.0.5"; host_key = text "ssh-ed25519 AAAA"; roles = roles }

abbrev registry : Registry
registry = record { hosts = (text "web-1", web) ∷ [] }

abbrev target : Target
target = record {
  host = text "web-1";
  role = text "admin";
  address = text "10.0.0.5";
  host_key = text "ssh-ed25519 AAAA";
  user = text "root";
  credential = text "vault/view";
  access_class = read_only;
}

unique_keys_iff_example : ((m : Dict Text RoleEntry) × (unique_keys roles ≡ ok m)) ↔ Distinct roles
unique_keys_iff_example = unique_keys_iff roles

unique_keys-roles : unique_keys roles ≡ ok roles
unfolding unique_keys add_entries get insert
unique_keys-roles = refl

unique_hosts : unique_keys registry.hosts ≡ ok registry.hosts
unfolding unique_keys add_entries get insert
unique_hosts = refl

resolve-written_example : resolve registry (text "web-1") (text "admin") ≡ ok target
resolve-written_example =
    resolve-written [] [] registry.hosts ((text "viewer", viewer) ∷ []) [] (text "web-1")
      (text "admin") web admin unique_hosts unique_keys-roles

-- A role that is written twice is refused by its name.
repeated_role : unique_keys ((text "admin", viewer) ∷ roles) ≡ err (text "admin")
unfolding unique_keys add_entries get insert
repeated_role = refl
