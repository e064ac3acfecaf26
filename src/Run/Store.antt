-- ===== src/Run/Store.antt =====
-- crates/ssh-core/src/run.rs: `Runs`, the executions that the service has started.
-- The milliseconds that have passed, at most `u64::MAX`, are an argument.
use mcp_ssh_rs.Prelude.{
  ℕ, Bool, true, false, not, Option, none, some, List, [], ◌∷◌, nat_beq, if◌then◌else◌, Result, ok,
  err, ◌==◌,
}
use mcp_ssh_rs.Transfer.{Failure, message, is_unsupported}
use mcp_ssh_rs.Text.{Text, text, text_eq}
use mcp_ssh_rs.Dict.{Dict, get, insert, remove}
use mcp_ssh_rs.Files.Info.{FileInfo}
use mcp_ssh_rs.Audit.{Authorization}
use mcp_ssh_rs.Run.{RunState, Transferred}
use mcp_ssh_rs.Run.Collected
use mcp_ssh_rs.Run.Collected.{Collected, push, snapshot}

pub data RunError : Type 0 where
  wrong_operation stopping : RunError
  unknown : Text → RunError
  wrong_target : ℕ → Text → Text → RunError
  channel : Text → RunError

pub data Cancellation : Type 0 where
  not_requested requested signal_sent signal_failed transfer_stopped : Cancellation

pub record Progress : Type 0 where
  pub run : Text
  pub state : RunState
  pub elapsed_ms : ℕ
  pub stdout_bytes : ℕ
  pub stderr_bytes : ℕ
  pub transfer_bytes_read : ℕ
  pub cancellation : Cancellation

-- `Live`, with the `Record` that its mutex guards.
pub record Live : Type 0 where
  pub file : Option Transferred
  pub info : Option FileInfo
  pub stdout : Collected
  pub stderr : Collected
  pub state : RunState
  pub authorization : Authorization
  pub cancellation : ℕ
  pub transfer_bytes : ℕ

-- `reading` is the set of the runs whose reader has not finished, the last registered first.
pub record Runs : Type 0 where
  pub output_bytes : ℕ
  pub records : Dict Text Live
  pub stopping : Bool
  pub reading : List Text

-- `Runs::new`.
abbrev pub new : ℕ → Runs
new output_bytes = record {
  output_bytes = output_bytes;
  records = [];
  stopping = false;
  reading = [];
}

abbrev pub is_running : RunState → Bool
is_running RunState.running = true
is_running _ = false

abbrev pub is_running_at : Option Live → Bool
is_running_at none = false
is_running_at (some live) = is_running live.state

-- What is registered before a command is sent, or a transfer starts.
abbrev pub registered : ℕ → Authorization → Live
registered output_bytes authorization = record {
  file = none;
  info = none;
  stdout = Collected.new output_bytes;
  stderr = Collected.new output_bytes;
  state = RunState.running;
  authorization = authorization;
  cancellation = 0;
  transfer_bytes = 0;
}

-- The registration in `Runs::start` and `Runs::transfer`, under one hold of the records.
unfoldable pub register : Text → Authorization → Runs → Runs × Result RunError (Unit {0})
register id authorization runs = if runs.stopping then (runs, err stopping) else (
  record runs {
    records = insert id (registered runs.output_bytes authorization) runs.records;
    reading = id ∷ runs.reading;
  },
  ok tt,
)

-- What a reader writes to the record of its run; one that was forgotten is out of the store.
abbrev pub changed_at : Text → (Live → Live) → Option Live → Dict Text Live → Dict Text Live
changed_at id f none records = records
changed_at id f (some live) records = insert id (f live) records

abbrev pub change : Text → (Live → Live) → Runs → Runs
change id f runs = record runs { records = changed_at id f (get id runs.records) runs.records }

-- The set without an identifier.
abbrev pub without : Text → List Text → List Text
without id [] = []
without id (other ∷ ids) = if other == id then without id ids else other ∷ without id ids

abbrev pub partial_upload : Bool → Failure → Bool
partial_upload is_upload cause = if is_unsupported cause then false else is_upload

-- The messages are in ASCII, so a character is a byte.
abbrev explained : Bool → Failure → Collected → Collected
explained is_upload cause stderr =
    let told = push stderr (message cause) in
    if partial_upload is_upload cause
    then push told (text " A remote write may be partial; do not automatically retry.")
    else told

-- What the worker of `Runs::transfer` leaves in the record.
unfoldable pub settle_transfer :
    Bool → Bool → Result Failure (Option Transferred × Option FileInfo) → Live → Live
settle_transfer is_upload cancelled (ok (file, info)) live = record live {
  file = file;
  info = info;
  state = RunState.exited 0;
}
settle_transfer is_upload cancelled (err cause) live = record live {
  cancellation = if cancelled then 4 else live.cancellation;
  state = RunState.transfer_failed cause (partial_upload is_upload cause);
  stderr = explained is_upload cause live.stderr;
}

-- `drop` of a `Reading`, once the run has been announced.
unfoldable pub drop_reading : Text → Runs → Runs
drop_reading id runs = record runs { reading = without id runs.reading }

abbrev cancellation_of : ℕ → Cancellation
cancellation_of code =
    if nat_beq code 0
    then not_requested
    else (if nat_beq code 1
        then requested
        else (if nat_beq code 2
            then signal_sent
            else (if nat_beq code 3 then signal_failed else transfer_stopped)))

abbrev progress_of : Text → ℕ → Option Live → Result RunError Progress
progress_of id elapsed none = err (unknown id)
progress_of id elapsed (some live) = ok (record {
  run = id;
  state = live.state;
  elapsed_ms = elapsed;
  stdout_bytes = live.stdout.seen;
  stderr_bytes = live.stderr.seen;
  transfer_bytes_read = live.transfer_bytes;
  cancellation = cancellation_of live.cancellation;
})

-- `Runs::progress`, of a run that started so long ago.
unfoldable pub progress : Text → ℕ → Runs → Result RunError Progress
progress id elapsed runs = progress_of id elapsed (get id runs.records)

-- The compare-and-exchange of `cancel`, on a run that is still going.
abbrev pub request_cancel : Live → Live
request_cancel live =
    if is_running live.state
    then record live { cancellation = if nat_beq live.cancellation 0 then 1 else live.cancellation }
    else live

-- `Runs::cancel`.
unfoldable pub cancel : Text → ℕ → Runs → Runs × Result RunError Progress
unfolding progress
cancel id elapsed runs =
    let after = change id request_cancel runs in (after, progress id elapsed after)

abbrev pub settled_at : Option Live → Bool
settled_at none = false
settled_at (some live) = not (is_running live.state)

-- `Runs::forget`.
unfoldable pub forget : Text → Runs → Runs × Bool
forget id runs =
    if settled_at (get id runs.records)
    then (record runs { records = remove id runs.records }, true)
    else (runs, false)

-- `Runs::stop`.
unfoldable pub stop : Runs → Runs
stop runs = record runs { stopping = true }

-- `Runs::unfinished`.
abbrev pub unfinished : Runs → List Text
unfinished runs = runs.reading
