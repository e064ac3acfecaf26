-- ===== src/Run/Service.antt =====
-- crates/ssh-core/src/run.rs: the store of runs with its readers, step by step.
use mcp_ssh_rs.Prelude.{Result, ◌≡◌, ℕ, Bool, true, false, Option, some, List, [], ◌∷◌}
use mcp_ssh_rs.Text.{Text, text_eq}
use mcp_ssh_rs.Dict.{Dict, get, insert, remove}
use mcp_ssh_rs.Audit.{Authorization}
use mcp_ssh_rs.Transfer.{Failure}
use mcp_ssh_rs.Files.Info.{FileInfo}
use mcp_ssh_rs.Run.{RunState, Transferred}
use mcp_ssh_rs.Run.Collected.{push}
use mcp_ssh_rs.Run.Store.{
  Runs, new, is_running, register, change, drop_reading, settle_transfer, cancel, forget, stop,
}

-- Where the reader of a run, or the worker of a transfer, has got to: the run goes on, or it is settled
-- and still to be announced.
pub data Phase : Type 0 where
  going settled : Phase

-- The store, the readers, and the runs whose reader panicked.
pub record Service : Type 0 where
  pub runs : Runs
  pub readers : Dict Text Phase
  pub lost : List Text

abbrev pub begin : ℕ → Service
begin output_bytes = record { runs = new output_bytes; readers = []; lost = [] }

abbrev pub with_reader : Bool → Text → Dict Text Phase → Dict Text Phase
with_reader true id readers = readers
with_reader false id readers = insert id going readers

-- What happens: calls of the service, what a reader writes while its run goes on, how it settles the run
-- and then announces it, and a panic at any point. However a reader ends, its `Reading` is dropped.
pub data Step (w : Service) : Service → Type 0 where
  starts :
      (id : Text) (a : Authorization)
      → Step w (record w {
        runs = (register id a w.runs).0;
        readers = with_reader w.runs.stopping id w.readers;
      })
  collects :
      (id : Text) (piece : List ℕ)
      → get id w.readers ≡ some going
      → Step w (record w {
        runs = change id (λ live. record live { stdout = push live.stdout piece }) w.runs;
      })
  collects_errors :
      (id : Text) (piece : List ℕ)
      → get id w.readers ≡ some going
      → Step w (record w {
        runs = change id (λ live. record live { stderr = push live.stderr piece }) w.runs;
      })
  settles :
      (id : Text) (state : RunState)
      → get id w.readers ≡ some going
      → is_running state ≡ false
      → Step w (record w {
        runs = change id (λ live. record live { state = state }) w.runs;
        readers = insert id settled w.readers;
      })
  transfers :
      (id : Text) (is_upload cancelled : Bool)
      (moved : Result Failure (Option Transferred × Option FileInfo))
      → get id w.readers ≡ some going
      → Step w (record w {
        runs = change id (settle_transfer is_upload cancelled moved) w.runs;
        readers = insert id settled w.readers;
      })
  announces :
      (id : Text)
      → get id w.readers ≡ some settled
      → Step w (record w { runs = drop_reading id w.runs; readers = remove id w.readers })
  panics :
      (id : Text) (phase : Phase)
      → get id w.readers ≡ some phase
      → Step w (record w {
        runs = drop_reading id w.runs;
        readers = remove id w.readers;
        lost = id ∷ w.lost;
      })
  cancels : (id : Text) (elapsed : ℕ) → Step w (record w { runs = (cancel id elapsed w.runs).0 })
  forgets : (id : Text) → Step w (record w { runs = (forget id w.runs).0 })
  stops : Step w (record w { runs = stop w.runs })

-- Every sequence of steps from an empty store.
pub data Reached (output_bytes : ℕ) : Service → Type 0 where
  started : Reached output_bytes (begin output_bytes)
  then_step :
      {w after : Service} → Reached output_bytes w → Step w after → Reached output_bytes after
