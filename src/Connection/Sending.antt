-- ===== src/Connection/Sending.antt =====
-- src/TcpConnection.cc: `send`, `sendInLoop`, `sendFile`, `sendFileInLoop`, `shutdown`.
use cpp_ai_service.Base.{
  ℕ, ◌+◌, ◌-◌, Bool, true, false, not, ◌&&◌, Bytes, ◌++◌, ◌==◌, ltb, leb, length, take, drop,
  if◌then◌else◌,
}
use cpp_ai_service.Buffer.Storage.{readable_bytes, append}
use cpp_ai_service.Reactor.Channel.{is_writing}
use cpp_ai_service.Reactor.Objects.{writing_on}
use cpp_ai_service.Connection.State.{
  send_task, send_file_task, shutdown_task, write_complete_task, high_water_mark_task, Connection,
  k_disconnecting, is_connected, is_disconnecting, set_state, change_channel, queue_task,
}

-- What `write` or `sendfile` gives: a number of bytes, or an error by its number: `EWOULDBLOCK`,
-- `EPIPE` or `ECONNRESET`, or another.
pub data Outcome : Type 0 where
  wrote : (n : ℕ) → Outcome
  would_block broken failed : Outcome

abbrev pub taken : Outcome → ℕ
taken (wrote n) = n
taken would_block = 0
taken broken = 0
taken failed = 0

-- `faultError`.
abbrev pub is_fault : Outcome → Bool
is_fault broken = true
is_fault (wrote n) = false
is_fault would_block = false
is_fault failed = false

-- Nothing is before the new data.
unfoldable pub writes_directly : Connection → Bool
writes_directly c = not (is_writing c.channel.events) && readable_bytes c.output_buffer == 0

unfoldable pub complete_if : Bool → Connection → Connection
complete_if done c = if done && c.has_write_complete then queue_task c write_complete_task else c

-- The first part of `sendInLoop`: the bytes are written, if nothing is before them.
unfoldable pub write_now : Outcome → Connection → Bytes → Connection
write_now (wrote n) c bytes =
    complete_if (length bytes - n == 0) (record c { written = c.written ++ take n bytes })
write_now would_block c bytes = c
write_now broken c bytes = c
write_now failed c bytes = c

unfoldable pub mark_high_water : Connection → ℕ → Connection
mark_high_water c remaining =
    let old_len = readable_bytes c.output_buffer in
    if leb c.high_water_mark (old_len + remaining)
      && ltb old_len c.high_water_mark
      && c.has_high_water_mark
    then queue_task c (high_water_mark_task (old_len + remaining))
    else c

unfoldable pub start_writing : Connection → Connection
start_writing c = if is_writing c.channel.events then c else change_channel c writing_on

unfoldable pub put_in_buffer : Connection → Bytes → Connection
put_in_buffer c rest =
    let marked = mark_high_water c (length rest) in
    start_writing (record marked { output_buffer = append marked.output_buffer rest })

-- The second part: the rest goes to the buffer.
unfoldable pub keep_rest : Bool → Connection → Bytes → Connection
keep_rest fault_error c rest =
    if not fault_error && ltb 0 (length rest) then put_in_buffer c rest else c

-- In every state: the test on `kDisconnected` only logs.
unfoldable pub send_in_loop : Outcome → Connection → Bytes → Connection
send_in_loop outcome c bytes =
    if writes_directly c
    then keep_rest (is_fault outcome) (write_now outcome c bytes) (drop (taken outcome) bytes)
    else keep_rest false c bytes

-- `own` says whether the caller is the thread of the loop.
unfoldable pub send : Bool → Outcome → Connection → Bytes → Connection
send own outcome c bytes =
    if is_connected c.state
    then if own then send_in_loop outcome c bytes else queue_task c (send_task (length bytes))
    else c

-- `contents` are those of the files, by their descriptors; `sendfile` moves `offset` on.
unfoldable pub send_file_now : (ℕ → Bytes) → Outcome → Connection → ℕ → ℕ → ℕ → Connection
send_file_now contents (wrote n) c file offset count =
    complete_if (count - n == 0)
      (record c { written = c.written ++ take n (drop offset (contents file)) })
send_file_now contents would_block c file offset count = c
send_file_now contents broken c file offset count = c
send_file_now contents failed c file offset count = c

unfoldable pub requeue_file : Bool → Connection → ℕ → ℕ → ℕ → Connection
requeue_file fault_error c file offset remaining =
    if not fault_error && ltb 0 remaining
    then queue_task c (send_file_task file offset remaining)
    else c

unfoldable pub send_file_in_loop : (ℕ → Bytes) → Outcome → Connection → ℕ → ℕ → ℕ → Connection
send_file_in_loop contents outcome c file offset count =
    if is_disconnecting c.state
    then c
    else if writes_directly c
    then requeue_file (is_fault outcome) (send_file_now contents outcome c file offset count) file
        (offset + taken outcome) (count - taken outcome)
    else requeue_file false c file offset count

unfoldable pub send_file : (ℕ → Bytes) → Bool → Outcome → Connection → ℕ → ℕ → ℕ → Connection
send_file contents own outcome c file offset count =
    if is_connected c.state
    then if own
      then send_file_in_loop contents outcome c file offset count
      else queue_task c (send_file_task file offset count)
    else c

unfoldable pub shutdown_in_loop : Connection → Connection
shutdown_in_loop c = if is_writing c.channel.events then c else record c { write_shut = true }

unfoldable pub shutdown : Bool → Connection → Connection
shutdown own c =
    let disconnecting = set_state c k_disconnecting in
    if is_connected c.state
    then if own then shutdown_in_loop disconnecting else queue_task disconnecting shutdown_task
    else c
