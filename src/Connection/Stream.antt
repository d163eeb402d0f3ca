-- ===== src/Connection/Stream.antt =====
-- What was written and what waits in the output buffer are, one behind the other, all that was
-- accepted.
use cpp_ai_service.Base.{
  ℕ, ◌≡◌, refl, subst, Bool, true, List, [], ◌∷◌, Bytes, ◌++◌, append_assoc, arith,
}
use cpp_ai_service.Buffer.Queue.{Holds}
use cpp_ai_service.Buffer.Reads.{new_buffer-Holds}
use cpp_ai_service.Reactor.Channel.{is_writing, new_channel}
use cpp_ai_service.Reactor.Bits.{changed_writing}
use cpp_ai_service.Reactor.Objects.{reading_on}
use cpp_ai_service.Connection.State.{Connection, new_connection, change_channel, set_state, notify}
use cpp_ai_service.Connection.Handlers.{connect_established, tie}
use cpp_ai_service.Connection.Events.{
  Event, sending, sending_file, shutting, running, readable_event, writable_event, closing,
  destroying, perform, run, accepted, accepted_by, answer_fits, answers_fit, established,
}
use cpp_ai_service.Connection.Writing.{IsFlow, HasFlow}
use cpp_ai_service.Connection.Accepting.{
  idle, sent-IsFlow, disconnecting-IsFlow, file_sent-IsFlow, task_run-IsFlow,
}
use cpp_ai_service.Connection.Handling.{
  handle_close-IsFlow, destroyed-IsFlow, read-IsFlow, handle_write-IsFlow,
}

module _ (contents : ℕ → Bytes) where
  pub performed-IsFlow :
      (c : Connection) (event : Event) {pending total : Bytes}
      → answer_fits contents c event ≡ true
      → IsFlow c pending total
      → HasFlow (perform contents c event) (total ++ accepted contents c event)
  unfolding perform
  performed-IsFlow c (sending own outcome bytes) fits f = sent-IsFlow contents own outcome c bytes f
  performed-IsFlow c (sending_file own outcome file offset count) fits f =
      file_sent-IsFlow contents own outcome c file offset count f
  performed-IsFlow c (shutting own) fits f = idle (disconnecting-IsFlow own c f)
  performed-IsFlow c (running task outcome found) fits f =
      task_run-IsFlow contents task outcome found c f
  performed-IsFlow c (readable_event reading) fits f = idle (read-IsFlow reading c f)
  performed-IsFlow c (writable_event outcome) fits f =
      let (after, g) = handle_write-IsFlow outcome c fits f in idle g
  performed-IsFlow c closing fits f = idle (handle_close-IsFlow c f)
  performed-IsFlow c destroying fits f = idle (destroyed-IsFlow c f)

  pub run-IsFlow :
      (c : Connection) (events : List Event) {pending total : Bytes}
      → answers_fit contents c events ≡ true
      → IsFlow c pending total
      → HasFlow (run contents c events) (total ++ accepted_by contents c events)
  unfolding run accepted_by answers_fit
  run-IsFlow c [] fits f = idle f
  run-IsFlow c (event ∷ events) {pending} {total} fits f =
      let (middle, g) = performed-IsFlow c event (ground (arith, fits)) f in
      let (after, h) = run-IsFlow (perform contents c event) events (ground (arith, fits)) g in
      (
        after,
        subst (IsFlow (run contents (perform contents c event) events) after)
            (append_assoc total (accepted contents c event)
              (accepted_by contents (perform contents c event) events))
            h,
      )

  pub established-IsFlow :
      (id fd : ℕ) (complete high : Bool) → IsFlow (established id fd complete high) [] []
  unfolding connect_established new_connection tie set_state change_channel notify new_channel
      is_writing
  established-IsFlow id fd complete high = record {
    held = new_buffer-Holds 1024;
    bits = (changed_writing reading_on 0 (omega arith)).1;
    order = refl;
    writing = λ _. (changed_writing reading_on 0 (omega arith)).0;
  }

  -- On a connection that was established, after any calls of the user, tasks of the loop, events and
  -- answers of the socket, in which no `write` takes more than it was given, what the socket took and
  -- then what the output buffer holds make, one behind the other, all bytes that were accepted, in
  -- their order.
  pub run_in_order :
      (id fd : ℕ) (complete high : Bool) (events : List Event)
      → answers_fit contents (established id fd complete high) events ≡ true
      → (pending : Bytes) × Holds
          (run contents (established id fd complete high) events).output_buffer
          pending
        × ((run contents (established id fd complete high) events).written ++ pending
            ≡ accepted_by contents (established id fd complete high) events)
  run_in_order id fd complete high events fits =
      let (pending, f) =
        run-IsFlow (established id fd complete high) events fits
          (established-IsFlow id fd complete high) in
      (pending, f.held, f.order)
