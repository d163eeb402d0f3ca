-- ===== src/Connection/Events.antt =====
-- What happens to a connection after `connectEstablished`, one thing after the other, and what it
-- accepts for sending.
use cpp_ai_service.Base.{
  ℕ, Bool, true, ◌&&◌, List, [], ◌∷◌, Bytes, ◌++◌, leb, take, drop, if◌then◌else◌,
}
use cpp_ai_service.Buffer.Storage.{readable_bytes}
use cpp_ai_service.Connection.State.{
  Task, send_task, send_file_task, shutdown_task, write_complete_task, high_water_mark_task,
  Connection, is_connected, is_disconnecting, new_connection,
}
use cpp_ai_service.Connection.Sending.{
  Outcome, taken, is_fault, writes_directly, send_in_loop, send, send_file_in_loop, send_file,
  shutdown_in_loop, shutdown,
}
use cpp_ai_service.Connection.Handlers.{
  Reading, handle_read, handle_write, handle_close, connect_established, connect_destroyed,
}

-- Calls of the user, tasks that the loop runs, events of the channel, and the end. `found` is what
-- stands behind the pointer that a task keeps. A task may run at any time: the order of the queue is
-- that of the loop.
pub data Event : Type 0 where
  sending : (own : Bool) → Outcome → (bytes : Bytes) → Event
  sending_file : (own : Bool) → Outcome → (file offset count : ℕ) → Event
  shutting : (own : Bool) → Event
  running : Task → Outcome → (found : Bytes) → Event
  readable_event : Reading → Event
  writable_event : Outcome → Event
  closing destroying : Event

-- A connection of the server, with the callbacks that it sets.
abbrev pub established : ℕ → ℕ → Bool → Bool → Connection
established id fd complete high = connect_established (new_connection id fd complete high)

-- Bytes for which `sendInLoop` is called are accepted, unless they are written at once and the
-- socket is broken.
abbrev pub accepted_bytes : Connection → Outcome → Bytes → Bytes
accepted_bytes c outcome bytes = if writes_directly c && is_fault outcome then [] else bytes

module _ (contents : ℕ → Bytes) where
  -- The two other tasks call callbacks of the user.
  unfoldable pub run_task : Task → Outcome → Bytes → Connection → Connection
  run_task (send_task len) outcome found c = send_in_loop outcome c (take len found)
  run_task (send_file_task file offset count) outcome found c =
      send_file_in_loop contents outcome c file offset count
  run_task shutdown_task outcome found c = shutdown_in_loop c
  run_task write_complete_task outcome found c = c
  run_task (high_water_mark_task size) outcome found c = c

  unfoldable pub perform : Connection → Event → Connection
  perform c (sending own outcome bytes) = send own outcome c bytes
  perform c (sending_file own outcome file offset count) =
      send_file contents own outcome c file offset count
  perform c (shutting own) = shutdown own c
  perform c (running task outcome found) = run_task task outcome found c
  perform c (readable_event reading) = handle_read c reading
  perform c (writable_event outcome) = handle_write outcome c
  perform c closing = handle_close c
  perform c destroying = connect_destroyed c

  unfoldable pub run : Connection → List Event → Connection
  run c [] = c
  run c (event ∷ events) = run (perform c event) events

  abbrev pub file_bytes : Outcome → ℕ → ℕ → Bytes
  file_bytes outcome file offset = take (taken outcome) (drop offset (contents file))

  -- Of a file, the bytes that `sendfile` takes.
  abbrev pub accepted_file : Connection → Outcome → ℕ → ℕ → Bytes
  accepted_file c outcome file offset =
      if is_disconnecting c.state
      then []
      else if writes_directly c
      then file_bytes outcome file offset
      else []

  abbrev pub accepted_task : Connection → Task → Outcome → Bytes → Bytes
  accepted_task c (send_task len) outcome found = accepted_bytes c outcome (take len found)
  accepted_task c (send_file_task file offset count) outcome found =
      accepted_file c outcome file offset
  accepted_task c shutdown_task outcome found = []
  accepted_task c write_complete_task outcome found = []
  accepted_task c (high_water_mark_task size) outcome found = []

  abbrev pub accepted : Connection → Event → Bytes
  accepted c (sending own outcome bytes) =
      if is_connected c.state && own then accepted_bytes c outcome bytes else []
  accepted c (sending_file own outcome file offset count) =
      if is_connected c.state && own then accepted_file c outcome file offset else []
  accepted c (shutting own) = []
  accepted c (running task outcome found) = accepted_task c task outcome found
  accepted c (readable_event reading) = []
  accepted c (writable_event outcome) = []
  accepted c closing = []
  accepted c destroying = []

  unfoldable pub accepted_by : Connection → List Event → Bytes
  accepted_by c [] = []
  accepted_by c (event ∷ events) = accepted c event ++ accepted_by (perform c event) events

  -- `write` takes no more than the bytes it is given.
  abbrev pub answer_fits : Connection → Event → Bool
  answer_fits c (sending own outcome bytes) = true
  answer_fits c (sending_file own outcome file offset count) = true
  answer_fits c (shutting own) = true
  answer_fits c (running task outcome found) = true
  answer_fits c (readable_event reading) = true
  answer_fits c (writable_event outcome) = leb (taken outcome) (readable_bytes c.output_buffer)
  answer_fits c closing = true
  answer_fits c destroying = true

  unfoldable pub answers_fit : Connection → List Event → Bool
  answers_fit c [] = true
  answers_fit c (event ∷ events) = answer_fits c event && answers_fit (perform c event) events
