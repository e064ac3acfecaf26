-- ===== src/Run/Answers.antt =====
-- crates/ssh-core/src/run.rs: what `Runs` answers about its runs, without changing them.
-- `String::from_utf8_lossy` is an argument.
use mcp_ssh_rs.Prelude.{
  ℕ, Bool, true, false, not, Option, none, some, List, [], ◌∷◌, if◌then◌else◌, ◌==◌,
}
use mcp_ssh_rs.Text.{Text, text_eq}
use mcp_ssh_rs.Dict.{Dict, get}
use mcp_ssh_rs.Audit.{Authorization}
use mcp_ssh_rs.Audit.Secrets.{is_matched}
use mcp_ssh_rs.Run.{Outcome, Stream}
use mcp_ssh_rs.Run.Collected.{snapshot}
use mcp_ssh_rs.Run.Store.{Live, Runs, is_running}

-- `Runs::belongs_to`.
unfoldable pub belongs_to : Text → Text → Runs → Bool
belongs_to id session runs = elim (get id runs.records) [
  | none ↦ false
  | some live ↦ live.authorization.who.session == session
]

-- `Runs::authorization`.
unfoldable pub authorization : Text → Runs → Option Authorization
authorization id runs = elim (get id runs.records) [
  | none ↦ none
  | some live ↦ some live.authorization
]

-- The text of a stream that is complete.
abbrev decoded : (List ℕ → Text) → Bool → List ℕ → Stream → Stream
decoded from_utf8_lossy true kept stream =
    if is_matched stream.matched then stream else record stream { text = from_utf8_lossy kept }
decoded from_utf8_lossy false kept stream = stream

-- `snapshot_of`.
unfoldable pub snapshot_of : (List ℕ → Text) → Text → Live → Outcome
unfolding snapshot
snapshot_of from_utf8_lossy id live =
    let complete = not (is_running live.state) in
    record {
      run = id;
      authorization = live.authorization;
      state = live.state;
      stdout = decoded from_utf8_lossy complete live.stdout.kept (snapshot live.stdout);
      stderr = decoded from_utf8_lossy complete live.stderr.kept (snapshot live.stderr);
      file = live.file;
      info = live.info;
    }

abbrev finished_of : (List ℕ → Text) → Text → Option Live → Option Outcome
finished_of from_utf8_lossy id none = none
finished_of from_utf8_lossy id (some live) =
    if is_running live.state then none else some (snapshot_of from_utf8_lossy id live)

-- `Runs::finished`.
unfoldable pub finished : (List ℕ → Text) → Text → Runs → Option Outcome
finished from_utf8_lossy id runs = finished_of from_utf8_lossy id (get id runs.records)

-- `Runs::unfinished_authorized`.
abbrev paired : Dict Text Live → List Text → List (Text × Authorization)
paired records [] = []
paired records (id ∷ ids) = elim (get id records) [
  | none ↦ paired records ids
  | some live ↦ (id, live.authorization) ∷ paired records ids
]

unfoldable pub unfinished_authorized : Runs → List (Text × Authorization)
unfinished_authorized runs = paired runs.records runs.reading

-- `Runs::outstanding`.
abbrev keys : Dict Text Live → List Text
keys [] = []
keys ((id, live) ∷ records) = id ∷ keys records

unfoldable pub outstanding : Runs → List Text
outstanding runs = keys runs.records
