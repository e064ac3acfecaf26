-- ===== src/Examples/Streams.antt =====
-- A stream of output in two pieces with a shape across them, and the messages of a channel.
use mcp_ssh_rs.Prelude.{◌||◌, true, refl, if◌then◌else◌, ℕ, ◌≡◌, min, List, [], ◌∷◌, length}
use mcp_ssh_rs.Text.{text, text_eq}
use mcp_ssh_rs.Clock.{u64_max}
use mcp_ssh_rs.Audit.Secrets.{secret_shape, is_matched}
use mcp_ssh_rs.Run.Collected.{new, push_all, whole, take}
use mcp_ssh_rs.Run.Streams.{push_all-new}
use mcp_ssh_rs.Dict.{remove, get, insert}
use mcp_ssh_rs.Run.{RunState}
use mcp_ssh_rs.Run.Store
use mcp_ssh_rs.Run.Store.{
  Runs, register, change, drop_reading, cancel, forget, stop, unfinished, is_running_at,
}
use mcp_ssh_rs.Run.Service.{
  Service, going, Reached, started, then_step, starts, settles, announces, panics, stops,
}
use mcp_ssh_rs.Run.Unfinished.{has, Reached-unfinished}
use mcp_ssh_rs.Examples.Receipts.{authorization}
use mcp_ssh_rs.Run.Reader.{
  Message, start, read, settle, verdict_of, declined, outputs, error_outputs, read-start,
}

abbrev pieces : List (List ℕ)
pieces = text "region=us\naws_secret_" ∷ text "access_key = x" ∷ []

push_all-new_example :
    ((push_all (new 8) pieces).seen ≡ min (length (whole pieces)) u64_max)
    × ((push_all (new 8) pieces).kept ≡ take 8 (whole pieces))
    × (is_matched (push_all (new 8) pieces).matched ≡ is_matched (secret_shape (whole pieces)))
push_all-new_example = push_all-new 8 pieces

-- A target that takes a request, writes, and ends with a status.
abbrev messages : List Message
messages = Message.other ∷ Message.success ∷ Message.output (text "ok") ∷ Message.exit_status 0 ∷ []

read-start_example :
    (settle (read (start 8) messages) ≡ verdict_of messages)
    × ((read (start 8) messages).stdout
        ≡ push_all (new 8) (if declined messages then [] else outputs messages))
    × ((read (start 8) messages).stderr
        ≡ push_all (new 8) (if declined messages then [] else error_outputs messages))
read-start_example = read-start 8 messages

-- Three runs, of which one has ended and the reader of another has panicked, in a store that is stopping.
abbrev both : Runs
both = (register (text "b") authorization (register (text "a") authorization (Store.new 8)).0).0

abbrev all_three : Runs
all_three = (register (text "c") authorization both).0

abbrev a_settled : Runs
a_settled = change (text "a") (λ live. record live { state = RunState.exited 0 }) all_three

abbrev stopped : Service
stopped = record {
  runs = stop (drop_reading (text "c") (drop_reading (text "a") a_settled));
  readers = (text "b", going) ∷ [];
  lost = text "c" ∷ [];
}

stopped-Reached : Reached 8 stopped
unfolding register get insert remove stop drop_reading
stopped-Reached =
    then_step
      (then_step
        (then_step
          (then_step
            (then_step
              (then_step (then_step started (starts (text "a") authorization))
                (starts (text "b") authorization))
              (starts (text "c") authorization))
            (settles (text "a") (RunState.exited 0) refl refl))
          (announces (text "a") refl))
        (panics (text "c") going refl))
      stops

b_runs : is_running_at (get (text "b") stopped.runs.records) ≡ true
unfolding register get insert stop drop_reading
b_runs = refl

Reached-unfinished_example :
    (has (text "b") (unfinished stopped.runs) || has (text "b") stopped.lost) ≡ true
Reached-unfinished_example = Reached-unfinished 8 stopped (text "b") stopped-Reached b_runs
