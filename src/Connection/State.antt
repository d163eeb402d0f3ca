-- ===== src/Connection/State.antt =====
-- include/TcpConnection.h: the state of a connection, with what it has given to the socket, to the
-- poller, to the queue of the loop and to the callbacks.
use cpp_ai_service.Base.{ℕ, ◌*◌, Bool, true, false, List, [], ◌∷◌, ◌++◌, Bytes}
use cpp_ai_service.Buffer.Storage.{Buffer, new_buffer}
use cpp_ai_service.Reactor.Channel.{Channel, new_channel}
use cpp_ai_service.Reactor.Objects.{Change, Call, change, changed_events}

-- `StateE`.
pub data State : Type 0 where
  k_disconnected k_connecting k_connected k_disconnecting : State

-- What is queued in the loop. The first and the second hold what `bind` keeps: a length beside a
-- pointer to the bytes, a descriptor of a file, an offset and a count.
pub data Task : Type 0 where
  send_task : (len : ℕ) → Task
  send_file_task : (file offset count : ℕ) → Task
  shutdown_task write_complete_task : Task
  high_water_mark_task : (size : ℕ) → Task

-- The calls of the callbacks of the user and of the server.
pub data Notice : Type 0 where
  connection_notice : (connected : Bool) → Notice
  message_notice close_notice : Notice

-- `has_write_complete` and `has_high_water_mark` say whether the callbacks are set. `written` is all
-- that `write` and `sendfile` took, `write_shut` whether `shutdown(fd, SHUT_WR)` was called.
pub record Connection : Type 0 where
  pub state : State
  pub channel : Channel
  pub input_buffer : Buffer
  pub output_buffer : Buffer
  pub high_water_mark : ℕ
  pub has_write_complete : Bool
  pub has_high_water_mark : Bool
  pub written : Bytes
  pub write_shut : Bool
  pub calls : List Call
  pub tasks : List Task
  pub notices : List Notice

-- The constructor, and the callbacks that are set after it.
unfoldable pub new_connection : ℕ → ℕ → Bool → Bool → Connection
new_connection id fd has_write_complete has_high_water_mark = record {
  state = k_connecting;
  channel = new_channel id fd;
  input_buffer = new_buffer 1024;
  output_buffer = new_buffer 1024;
  high_water_mark = 64 * 1024 * 1024;
  has_write_complete = has_write_complete;
  has_high_water_mark = has_high_water_mark;
  written = [];
  write_shut = false;
  calls = [];
  tasks = [];
  notices = [];
}

abbrev pub is_connected : State → Bool
is_connected k_connected = true
is_connected k_disconnected = false
is_connected k_connecting = false
is_connected k_disconnecting = false

abbrev pub is_disconnecting : State → Bool
is_disconnecting k_disconnecting = true
is_disconnecting k_disconnected = false
is_disconnecting k_connecting = false
is_disconnecting k_connected = false

unfoldable pub set_state : Connection → State → Connection
set_state c state = record c { state = state }

-- `enableReading`, `disableWriting` and the like of the channel.
unfoldable pub change_channel : Connection → Change → Connection
change_channel c how = record c {
  channel = record c.channel { events = changed_events how c.channel.events };
  calls = c.calls ++ change c.channel.fd how ∷ [];
}

-- `queueInLoop`.
unfoldable pub queue_task : Connection → Task → Connection
queue_task c task = record c { tasks = c.tasks ++ task ∷ [] }

unfoldable pub notify : Connection → Notice → Connection
notify c notice = record c { notices = c.notices ++ notice ∷ [] }
