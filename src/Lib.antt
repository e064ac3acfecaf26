-- ===== src/Lib.antt =====
-- A model of the core of mcp-ssh-rs: who may use a session, what a human agreed to, and what crosses
-- the wire to a target, with the theorems that make them correct.
--
-- The program gives an agent commands on SSH targets. An agent opens a session on a host and a role
-- (`crates/ssh-core/src/session.rs`), asks for an action (`action.rs`) that carries a command
-- (`command.rs`), the operator's setting says whether the account needs a human (`policy.rs`), and a
-- request waits for one (`approval.rs`), who agrees or refuses. A grant is spent by the call that runs
-- the action, and each step goes on the record first (`audit.rs`), which hands out the receipt to run. All of `crates/ssh-core/src`:
--
-- * Ids models `lib.rs`: `validate` is `validate`, `parse_host` is `HostId::parse`, and so on.
-- * Command models `command.rs`: `new` is `Command::new`, `to_wire` is `Command::to_wire`, and `escape`
--   the loop of `shell_quote`. The target's shell is a parameter, the record Command.Shell.Shell.
-- * Clock models `clock.rs`; a reading of `clock_gettime` is an argument.
-- * Session and Session.Store model `session.rs`: a SessionStore holds what the mutexes guard, each
--   operation takes the store and the time and returns the store after it. An Opening is its principal;
--   `open_reserved` is `Opening::open` and `drop_opening` its `Drop`. Session.Store.Runs has every
--   sequence of calls, with the openings that are in flight.
-- * Action models `action.rs`, Policy models `policy.rs`.
-- * Approval models `approval.rs`: Asking has `ask_with`, cut at its early returns, Redeeming has
--   `redeem_action_with`, Answering has `decide`, `mark_recorded` and `sweep`, Agreements the standing
--   agreements. Calls has every sequence of the calls that change requests. The identifiers that the
--   program draws, the time, and the recording step are arguments of each call.
-- * Audit models `audit.rs` and `audit/retention.rs`: State has the `State` that the ledger's mutex guards
--   and a monad of calls on it that can fail, Retention its operations, Ledger the `record_` calls
--   with what they write (Events) and check first (Checks),
--   Assessing `record_evaluation`, Evaluation `from_draft`, Verify `verify_window` and `seal_before`, and
--   Moves every sequence of the calls. Serialization and SHA-256 are the record Codec, the recording
--   boundary is a test of the entry, and the time is an argument of each call. An `Arc<Proof>` is an
--   address and a `Weak` the same address, which may be gone: `heap` says what is there, each new proof
--   goes where nothing is, and the end of a proof is a step of its own; Pinned counts the bytes that the proofs hold. `record_approval` and
--   `record_answer` look and then write under two holds of the lock; here they are one call.
-- * Run models the streams, states and outcomes of `run.rs`, and Run.Collected its `Collected`; the text
--   that `snapshot` leaves empty is filled in by `snapshot_of`. Run.Reader has the messages that the reader
--   of `Runs::start` takes from a channel. Run.Store is `Runs`: the records that a start registers and a
--   reader or a transfer settles, the set of readers, and the calls that change them, with Run.Answers
--   those that only ask, Run.Service every sequence of steps of the store and its readers, and Run.Name
--   the names of runs; each hold of the lock is one step, and an identifier that is minted is an argument. Transfer models `Failure` of `transfer.rs`.
-- * Files models `RemotePath::parse` of `files.rs`, and Files.Info `FileInfo` of `files/info.rs`.
-- * Registry models `Registry::resolve`, `Registry::accounts` and `unique_keys` of `registry.rs`; the JSON
--   reader is third-party code, and what it reads is an argument.
-- * Digest models `digest_parts` of `approval.rs`; SHA-256 is a parameter.
-- * Dict is the map that stands for `HashMap`, whose order of iteration the program does not fix; Text is
--   the list of the Unicode scalar values of a `str`, and `bytes` its length in UTF-8.
-- * Examples applies the theorems at concrete inputs.
--
-- Numbers are the native naturals. A `u64` or a `usize` saturates at 2^64 - 1 where the source does, and
-- the counters of pending openings wrap as `AtomicUsize` does. The fuel of `decimal` is twenty
-- digits, which are enough for a `u64`; the loops of `prepare` and `reclaim` take as many rounds as there
-- are entries, which the theorems of Audit.Enough show to be enough. The locks make each call one step, so that the steps of a run are
-- in the order of the locks.
--
-- Not modelled: the listings of the ledger that only read, the tasks that open a channel or move a file, and the
-- mediator that orders recording and execution; the SSH, SFTP, HTTP and MCP layers, which call
-- third-party code; and the dashboard.
pub mod Prelude
pub mod Dict
pub mod Text
pub mod Ids
pub mod Command
pub mod Clock
pub mod Session
pub mod Action
pub mod Policy
pub mod Digest
pub mod Files
pub mod Registry
pub mod Transfer
pub mod Run
pub mod Audit
pub mod Approval
mod Examples
