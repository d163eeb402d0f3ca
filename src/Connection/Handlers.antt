-- ===== src/Connection/Handlers.antt =====
-- src/TcpConnection.cc: `connectEstablished`, `connectDestroyed` and the handlers of the channel.
use cpp_ai_service.Base.{ℕ, true, false, [], ◌∷◌, Bytes, ◌++◌, ◌==◌, length, take, if◌then◌else◌}
use cpp_ai_service.Buffer.Storage.{readable_bytes, peek, retrieve, read_fd}
use cpp_ai_service.Reactor.Channel.{is_writing}
use cpp_ai_service.Reactor.Objects.{reading_on, writing_off, all_off, remove}
use cpp_ai_service.Connection.State.{
  Connection, k_connected, k_disconnected, is_connected, is_disconnecting, set_state,
  change_channel, notify, connection_notice, message_notice, close_notice,
}
use cpp_ai_service.Connection.Sending.{
  Outcome, wrote, would_block, broken, failed, complete_if, shutdown_in_loop,
}

unfoldable pub tie : Connection → Connection
tie c = record c { channel = record c.channel { tied = true } }

unfoldable pub connect_established : Connection → Connection
connect_established c =
    notify (change_channel (tie (set_state c k_connected)) reading_on) (connection_notice true)

unfoldable pub remove_channel_of : Connection → Connection
remove_channel_of c = record c { calls = c.calls ++ remove c.channel.fd ∷ [] }

unfoldable pub connect_destroyed : Connection → Connection
connect_destroyed c =
    let closed =
      notify (change_channel (set_state c k_disconnected) all_off) (connection_notice false) in
    remove_channel_of (if is_connected c.state then closed else c)

unfoldable pub handle_close : Connection → Connection
handle_close c =
    let closed = change_channel (set_state c k_disconnected) all_off in
    notify (notify closed (connection_notice false)) close_notice

-- What `readv` gives; no bytes are the end of the stream.
pub data Reading : Type 0 where
  read_bytes : (input : Bytes) → Reading
  read_failed : Reading

-- The callback takes what it wants from the buffer after this. An error is logged.
unfoldable pub handle_read : Connection → Reading → Connection
handle_read c (read_bytes input) =
    if length input == 0
    then handle_close c
    else notify (record c { input_buffer = read_fd c.input_buffer input }) message_notice
handle_read c read_failed = c

unfoldable pub finish_writing : Connection → Connection
finish_writing c =
    let completed = complete_if true (change_channel c writing_off) in
    if is_disconnecting c.state then shutdown_in_loop completed else completed

-- `writeFd` took `n` bytes of those that are readable.
unfoldable pub after_write : Connection → ℕ → Connection
after_write c n =
    let rest = record c {
      written = c.written ++ take n (peek c.output_buffer);
      output_buffer = retrieve c.output_buffer n;
    } in
    if readable_bytes rest.output_buffer == 0 then finish_writing rest else rest

unfoldable pub write_buffer : Connection → Outcome → Connection
write_buffer c (wrote n) = if n == 0 then c else after_write c n
write_buffer c would_block = c
write_buffer c broken = c
write_buffer c failed = c

unfoldable pub handle_write : Outcome → Connection → Connection
handle_write outcome c = if is_writing c.channel.events then write_buffer c outcome else c
