-- ===== src/Tests/Connections.antt =====
-- src/TcpConnection.cc at concrete inputs.
use cpp_ai_service.Base.{ℕ, ◌≡◌, refl, true, false, List, [], ◌∷◌, ◌++◌, Bytes, codes, arith}
use cpp_ai_service.Buffer.Queue.{Holds}
use cpp_ai_service.Buffer.Storage.{
  readable_bytes, new_buffer, append, ensure_writable_bytes, write_at_end, copy_to, retrieve,
}
use cpp_ai_service.Reactor.Channel.{new_channel, is_writing, enable_reading, enable_writing}
use cpp_ai_service.Reactor.Objects.{changed_events}
use cpp_ai_service.Connection.State.{
  Connection, send_task, new_connection, set_state, change_channel, queue_task, notify,
  is_connected,
}
use cpp_ai_service.Connection.Sending.{
  wrote, would_block, shutdown, writes_directly, complete_if, write_now, mark_high_water,
  start_writing, put_in_buffer, keep_rest, send_in_loop, send,
}
use cpp_ai_service.Connection.Handlers.{
  tie, connect_established, handle_write, write_buffer, after_write, handle_close,
}
use cpp_ai_service.Connection.Events.{
  Event, sending, running, writable_event, run_task, perform, run, established, accepted_by,
  answers_fit,
}
use cpp_ai_service.Connection.Stream.{run_in_order}
use cpp_ai_service.Connection.Closing.{write_on, shutdown-write_on}

abbrev no_files : ℕ → Bytes
no_files file = []

-- The socket takes two bytes of five at once; three more are sent by another thread; one is written.
abbrev some_events : List Event
some_events =
    sending true (wrote 2) (codes "hello")
    ∷ running (send_task 3) would_block (codes "abcd")
    ∷ writable_event (wrote 1)
    ∷ []

some_events_fit : answers_fit no_files (established 1 5 true false) some_events ≡ true
unfolding answers_fit perform run_task send send_in_loop writes_directly write_now keep_rest
    put_in_buffer mark_high_water start_writing complete_if queue_task handle_write write_buffer
    after_write connect_established tie set_state change_channel notify new_connection new_channel
    new_buffer append ensure_writable_bytes write_at_end copy_to is_writing changed_events
    enable_reading enable_writing
some_events_fit = refl

abbrev after_some : Connection
after_some = run no_files (established 1 5 true false) some_events

run_in_order_example :
    (pending : Bytes) × Holds after_some.output_buffer pending
    × (after_some.written ++ pending
        ≡ accepted_by no_files (established 1 5 true false) some_events)
run_in_order_example = run_in_order no_files 1 5 true false some_events some_events_fit

after_some_state : is_connected after_some.state ≡ true
unfolding run answers_fit perform run_task send send_in_loop writes_directly write_now keep_rest
    put_in_buffer mark_high_water start_writing complete_if queue_task handle_write write_buffer
    after_write connect_established tie set_state change_channel notify new_connection new_channel
    new_buffer append ensure_writable_bytes write_at_end copy_to retrieve is_writing changed_events
    enable_reading enable_writing handle_close
after_some_state = refl

after_some_readable : readable_bytes after_some.output_buffer ≡ 5
unfolding run answers_fit perform run_task send send_in_loop writes_directly write_now keep_rest
    put_in_buffer mark_high_water start_writing complete_if queue_task handle_write write_buffer
    after_write connect_established tie set_state change_channel notify new_connection new_channel
    new_buffer append ensure_writable_bytes write_at_end copy_to retrieve is_writing changed_events
    enable_reading enable_writing handle_close
after_some_readable = refl

abbrev five_writes : List ℕ
five_writes = 2 ∷ 0 ∷ 0 ∷ 0 ∷ 0 ∷ []

shutdown-write_on_example :
    ((write_on five_writes (shutdown true after_some)).write_shut ≡ true)
    × ((write_on five_writes (shutdown true after_some)).written
        ≡ accepted_by no_files (established 1 5 true false) some_events)
shutdown-write_on_example =
    shutdown-write_on no_files 1 5 true false some_events five_writes some_events_fit
      after_some_state (omega (arith, after_some_readable))

-- On a connection that was closed, a send that the socket does not take turns write events on again.
closed_send :
    is_writing
      (send_in_loop would_block
        (handle_close (established 1 5 true false))
        (codes "a")).channel.events
    ≡ true
unfolding run answers_fit perform run_task send send_in_loop writes_directly write_now keep_rest
    put_in_buffer mark_high_water start_writing complete_if queue_task handle_write write_buffer
    after_write connect_established tie set_state change_channel notify new_connection new_channel
    new_buffer append ensure_writable_bytes write_at_end copy_to retrieve is_writing changed_events
    enable_reading enable_writing handle_close
closed_send = refl
