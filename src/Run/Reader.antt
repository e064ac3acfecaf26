-- ===== src/Run/Reader.antt =====
-- crates/ssh-core/src/run.rs: what the reader of `Runs::start` makes of the messages of a channel.
-- A cancellation between two messages signals the target, and changes nothing here.
use mcp_ssh_rs.Prelude.{
  ℕ, ◌≡◌, refl, sym, subst, Bool, true, false, ◌||◌, Option, none, some, List, [], ◌∷◌,
  if◌then◌else◌,
}
use mcp_ssh_rs.Run.{RunState}
use mcp_ssh_rs.Run.Collected.{Collected, new, push, push_all}

-- `ChannelMsg`, with what the reader looks at.
pub data Message : Type 0 where
  success failure exit_signal other : Message
  output error_output : List ℕ → Message
  exit_status : ℕ → Message

-- The record that the reader writes, and its two variables.
pub record Reading : Type 0 where
  pub stdout : Collected
  pub stderr : Collected
  pub state : RunState
  pub code : Option ℕ
  pub began : Bool

abbrev pub start : ℕ → Reading
start limit = record {
  stdout = new limit;
  stderr = new limit;
  state = RunState.running;
  code = none;
  began = false;
}

-- What a message changes, but for a refusal that ends the reading.
abbrev pub take_message : Message → Reading → Reading
take_message Message.success r = record r { began = true }
take_message Message.failure r = r
take_message Message.exit_signal r = record r { began = true }
take_message Message.other r = r
take_message (Message.output piece) r = record r { began = true; stdout = push r.stdout piece }
take_message (Message.error_output piece) r = record r {
  began = true;
  stderr = push r.stderr piece;
}
take_message (Message.exit_status code) r = record r { began = true; code = some code }

abbrev pub ends : Message → Bool → Bool
ends Message.failure false = true
ends _ _ = false

-- The loop of the reader, until the channel is closed.
unfoldable pub read : Reading → List Message → Reading
read r [] = r
read r (message ∷ messages) =
    let rest = read (take_message message r) messages in
    if ends message r.began then record r { state = RunState.refused } else rest

abbrev settled_as : Option ℕ → Bool → RunState
settled_as (some code) began = RunState.exited code
settled_as none true = RunState.ended
settled_as none false = RunState.indeterminate

-- What the run is called once the channel is closed.
abbrev pub settle : Reading → RunState
settle r = elim r.state [ RunState.running ↦ settled_as r.code r.began | _ ↦ r.state ]

-- The evidence that a message gives that the command began.
abbrev pub says_it_began : Message → Bool
says_it_began Message.failure = false
says_it_began Message.other = false
says_it_began _ = true

-- Whether the target declined the request before anything said that the command began.
abbrev pub declined : List Message → Bool
declined [] = false
declined (Message.failure ∷ messages) = true
declined (Message.other ∷ messages) = declined messages
declined (_ ∷ messages) = false

abbrev pub last_status : Option ℕ → List Message → Option ℕ
last_status code [] = code
last_status code (Message.exit_status next ∷ messages) = last_status (some next) messages
last_status code (_ ∷ messages) = last_status code messages

abbrev pub any_evidence : List Message → Bool
any_evidence [] = false
any_evidence (message ∷ messages) = says_it_began message || any_evidence messages

-- The pieces of each stream.
abbrev pub outputs : List Message → List (List ℕ)
outputs [] = []
outputs (Message.output piece ∷ messages) = piece ∷ outputs messages
outputs (_ ∷ messages) = outputs messages

abbrev pub error_outputs : List Message → List (List ℕ)
error_outputs [] = []
error_outputs (Message.error_output piece ∷ messages) = piece ∷ error_outputs messages
error_outputs (_ ∷ messages) = error_outputs messages

-- What a run is to be called, by all that arrived.
abbrev pub verdict_of : List Message → RunState
verdict_of messages =
    if declined messages
    then RunState.refused
    else settled_as (last_status none messages) (any_evidence messages)

-- Once the command began, everything is read to the end.
read_begun :
    (messages : List Message) (r : Reading)
    → r.began ≡ true
    → r.state ≡ RunState.running
    → (settle (read r messages) ≡ settled_as (last_status r.code messages) true)
      × ((read r messages).stdout ≡ push_all r.stdout (outputs messages))
      × ((read r messages).stderr ≡ push_all r.stderr (error_outputs messages))
unfolding read
read_begun [] r b s = (rw (s, b) refl, refl, refl)
read_begun (Message.success ∷ messages) r b s =
    read_begun messages (take_message Message.success r) refl s
read_begun (Message.failure ∷ messages) r b s =
    let after : Bool → Reading =
      λ e. if e then record r { state = RunState.refused } else read r messages in
    subst
      (λ e.
        (settle (after (ends Message.failure e)) ≡ settled_as (last_status r.code messages) true)
        × ((after (ends Message.failure e)).stdout ≡ push_all r.stdout (outputs messages))
        × ((after (ends Message.failure e)).stderr ≡ push_all r.stderr (error_outputs messages)))
      (sym b) (read_begun messages r b s)
read_begun (Message.exit_signal ∷ messages) r b s =
    read_begun messages (take_message Message.exit_signal r) refl s
read_begun (Message.other ∷ messages) r b s = read_begun messages r b s
read_begun (Message.output piece ∷ messages) r b s =
    read_begun messages (take_message (Message.output piece) r) refl s
read_begun (Message.error_output piece ∷ messages) r b s =
    read_begun messages (take_message (Message.error_output piece) r) refl s
read_begun (Message.exit_status code ∷ messages) r b s =
    read_begun messages (take_message (Message.exit_status code) r) refl s

-- However the messages of a channel come: the run is refused exactly if the target declined before
-- anything said that the command began, and then nothing is kept of it; otherwise it is called by the
-- last exit status, or else by whether anything said that it began. The two streams hold what arrived
-- on each.
pub read-start :
    (limit : ℕ) (messages : List Message)
    → (settle (read (start limit) messages) ≡ verdict_of messages)
      × ((read (start limit) messages).stdout
          ≡ push_all (new limit) (if declined messages then [] else outputs messages))
      × ((read (start limit) messages).stderr
          ≡ push_all (new limit) (if declined messages then [] else error_outputs messages))
unfolding read
read-start limit [] = (refl, refl, refl)
read-start limit (Message.failure ∷ messages) = (refl, refl, refl)
read-start limit (Message.other ∷ messages) = read-start limit messages
read-start limit (Message.success ∷ messages) =
    read_begun messages (take_message Message.success (start limit)) refl refl
read-start limit (Message.exit_signal ∷ messages) =
    read_begun messages (take_message Message.exit_signal (start limit)) refl refl
read-start limit (Message.output piece ∷ messages) =
    read_begun messages (take_message (Message.output piece) (start limit)) refl refl
read-start limit (Message.error_output piece ∷ messages) =
    read_begun messages (take_message (Message.error_output piece) (start limit)) refl refl
read-start limit (Message.exit_status code ∷ messages) =
    read_begun messages (take_message (Message.exit_status code) (start limit)) refl refl
