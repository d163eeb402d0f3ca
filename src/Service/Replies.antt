-- ===== src/Service/Replies.antt =====
-- A connection whose request came in one piece is given the whole response, and is shut.
use cpp_ai_service.Base.{
  ℕ, ◌≤◌, ◌≡◌, ◌∙◌, refl, ap, subst, Bool, true, false, List, [], Bytes, some, length,
  length-append, ◌==◌, arith, if_lem, ◌&&◌,
}
use cpp_ai_service.Buffer.Storage.{new_buffer, retrieve_all_as_string}
use cpp_ai_service.Buffer.Queue.{Holds}
use cpp_ai_service.Buffer.Reads.{new_buffer-Holds, read_fd-Holds, retrieve_all_as_string-Holds}
use cpp_ai_service.Connection.State.{
  Connection, k_disconnecting, is_connected, set_state, new_connection, change_channel, notify,
}
use cpp_ai_service.Connection.Sending.{
  Outcome, is_fault, writes_directly, send_in_loop, send, shutdown,
}
use cpp_ai_service.Connection.Handlers.{handle_read, read_bytes, connect_established, tie}
use cpp_ai_service.Connection.Events.{established, accepted_bytes}
use cpp_ai_service.Connection.Writing.{IsFlow}
use cpp_ai_service.Connection.Accepting.{send_in_loop-IsFlow, disconnecting-IsFlow}
use cpp_ai_service.Connection.Handling.{read-IsFlow}
use cpp_ai_service.Connection.Stream.{established-IsFlow}
use cpp_ai_service.Connection.States.{send_in_loop-state}
use cpp_ai_service.Connection.Closing.{write_on, write_on_lem, shut-IsLeaving, IsLeaving}
use cpp_ai_service.Service.State.{RouteResult, Service, Surroundings}
use cpp_ai_service.Service.Routes.{handle_raw_request}
use cpp_ai_service.Service.Messages.{reply, on_message}

-- Where the socket is not broken, all bytes are accepted.
all_accepted :
    (outcome : Outcome) (c : Connection) (bytes : Bytes)
    → is_fault outcome ≡ false
    → accepted_bytes c outcome bytes ≡ bytes
all_accepted outcome c bytes good =
    if_lem (λ (x : Bytes). x ≡ bytes) (writes_directly c && is_fault outcome)
      (λ e. absurd (ground (arith, e, good))) (λ _. refl)

shutdown-IsLeaving : (c : Connection) → is_connected c.state ≡ true → IsLeaving (shutdown true c)
unfolding shutdown set_state
shutdown-IsLeaving c connected = rw connected (shut-IsLeaving (set_state c k_disconnecting) refl)

-- On a connection that is connected and has nothing to write, a reply that does not meet a broken
-- socket is written in full.
reply_lem :
    (outcome : Outcome) (c : Connection) (response : Bytes) (ns : List ℕ)
    → IsFlow c [] []
    → is_connected c.state ≡ true
    → is_fault outcome ≡ false
    → length response ≤ length ns
    → ((write_on ns (reply outcome c response)).write_shut ≡ true)
      × ((write_on ns (reply outcome c response)).written ≡ response)
unfolding reply send
reply_lem outcome c response ns f connected good enough =
    let sent = send_in_loop outcome c response in
    let (pending, g) = send_in_loop-IsFlow outcome c response f in
    let h =
      disconnecting-IsFlow true sent
        (subst (IsFlow sent pending) (all_accepted outcome c response good) g) in
    let still = ap is_connected (send_in_loop-state outcome c response) ∙ connected in
    let short : length pending ≤ length response =
      omega (arith, ap length h.order, length-append (shutdown true sent).written pending) in
    rw connected (
      write_on_lem ns (shutdown true sent) pending h (shutdown-IsLeaving sent still)
        (omega (arith, short, enough)))

-- The buffer of a connection to which one piece of input came.
abbrev pub received : ℕ → ℕ → Bool → Bool → Bytes → Connection
received id fd complete high input =
    handle_read (established id fd complete high) (read_bytes input)

received_lem :
    (id fd : ℕ) (complete high : Bool) (input : Bytes)
    → (length input == 0) ≡ false
    → Holds (received id fd complete high input).input_buffer input
      × (is_connected (received id fd complete high input).state ≡ true)
unfolding handle_read notify connect_established new_connection tie set_state change_channel
received_lem id fd complete high input some_input =
    rw some_input ((read_fd-Holds (new_buffer 1024) [] input (new_buffer-Holds 1024), refl))

-- On a new connection to which some bytes came in one piece: where the routes answer these bytes, so
-- does `onMessage`, and once the socket, which is not broken, has taken at least one byte at each of
-- as many write events as the response has bytes, it has taken exactly the response, and the write
-- side is shut.
pub on_message-write_on :
    (around : Surroundings) (outcome : Outcome) (service after : Service) (result : RouteResult)
    (id fd : ℕ) (complete high : Bool) (input client_id : Bytes) (ns : List ℕ)
    → (length input == 0) ≡ false
    → is_fault outcome ≡ false
    → handle_raw_request around service input client_id ≡ some (after, result)
    → length result.response ≤ length ns
    → (c : Connection) × (on_message around outcome service
          (received id fd complete high input)
          client_id
        ≡ some (after, c))
      × ((write_on ns c).write_shut ≡ true)
      × ((write_on ns c).written ≡ result.response)
unfolding on_message
on_message-write_on around outcome service after result id fd complete high input client_id ns
      some_input good answered enough =
    let c = received id fd complete high input in
    let start = established id fd complete high in
    let f =
      read-IsFlow (read_bytes input) start (established-IsFlow (λ file. []) id fd complete high) in
    let (held, connected) = received_lem id fd complete high input some_input in
    let (text, _) = retrieve_all_as_string-Holds c.input_buffer input held in
    let left = record c { input_buffer = (retrieve_all_as_string c.input_buffer).1 } in
    let g : IsFlow left [] [] = record {
      held = f.held;
      bits = f.bits;
      order = f.order;
      writing = f.writing;
    } in
    let (shut, whole) = reply_lem outcome left result.response ns g connected good enough in
    (reply outcome left result.response, rw (text, answered) refl, shut, whole)
