-- ===== src/Server/Acceptance.antt =====
-- src/TcpServer.cc and `handleRead` of src/Acceptor.cc: new connections and removed ones.
use cpp_ai_service.Base.{
  ℕ, ◌+◌, List, [], ◌∷◌, ◌++◌, Bytes, codes, Option, none, some, take, ◌==◌, ◌>>=◌, if◌then◌else◌,
}
use cpp_ai_service.Base.Dictionary.{bytes_key, assign, erase}
use cpp_ai_service.HttpCodec.Strings.{decimal}
use cpp_ai_service.Server.LoopPool.{LoopPool, start, get_next_loop}

-- A `TcpConnection` as the server knows it: its name, its descriptor and its loop.
pub record Peer : Type 0 where
  pub name : Bytes
  pub sockfd : ℕ
  pub loop : ℕ

-- What the server gives to a loop to run: `connectEstablished`, `connectDestroyed`, or `listen`.
pub data LoopTask : Type 0 where
  establish destroy : (peer : Peer) → LoopTask
  listen : LoopTask

-- `ip_port` is the address that the server listens on. `tasks` are those of the loops, in their order.
pub record TcpServer : Type 0 where
  pub loop : ℕ
  pub name : Bytes
  pub ip_port : Bytes
  pub pool : LoopPool
  pub connections : List (Bytes × Peer)
  pub next_conn_id : ℕ
  pub started : ℕ
  pub tasks : List (ℕ × LoopTask)

unfoldable pub new_server : ℕ → Bytes → Bytes → LoopPool → TcpServer
new_server loop name ip_port pool = record {
  loop = loop;
  name = name;
  ip_port = ip_port;
  pool = pool;
  connections = [];
  next_conn_id = 1;
  started = 0;
  tasks = [];
}

unfoldable pub run_in : TcpServer → ℕ → LoopTask → TcpServer
run_in s loop task = record s { tasks = s.tasks ++ (loop, task) ∷ [] }

-- `start_loop` starts the loop of a thread of the pool.
unfoldable pub start_server : (ℕ → ℕ) → TcpServer → TcpServer
start_server start_loop s =
    let counted = record s { started = s.started + 1 } in
    if s.started == 0
    then run_in (record counted { pool = start start_loop s.pool }) s.loop listen
    else counted

-- `snprintf` keeps 63 bytes of `-%s#%d`.
unfoldable pub connection_name : TcpServer → ℕ → Bytes
connection_name s id = s.name ++ take 63 (codes "-" ++ (s.ip_port ++ (codes "#" ++ decimal id)))

unfoldable pub add_connection : TcpServer → Peer → TcpServer
add_connection s peer =
    run_in (record s { connections = assign peer.name peer s.connections }) peer.loop
      (establish peer)

-- None where the pool has no loop at its position.
unfoldable pub new_connection : TcpServer → ℕ → Option TcpServer
new_connection s sockfd =
    let (found, pool) = get_next_loop s.pool in
    do
      loop ← found
      let peer : Peer = record {
        name = connection_name s s.next_conn_id;
        sockfd = sockfd;
        loop = loop;
      }
      some (add_connection (record s { pool = pool; next_conn_id = s.next_conn_id + 1 }) peer)

-- `handleRead` of the acceptor: what `accept` gives, none where it failed.
unfoldable pub handle_read : TcpServer → Option ℕ → Option TcpServer
handle_read s none = some s
handle_read s (some sockfd) = new_connection s sockfd

unfoldable pub remove_connection_in_loop : TcpServer → Peer → TcpServer
remove_connection_in_loop s peer =
    run_in (record s { connections = erase peer.name s.connections }) peer.loop (destroy peer)

-- The destructor.
unfoldable pub destroy_all : TcpServer → List (Bytes × Peer) → TcpServer
destroy_all s [] = s
destroy_all s ((name, peer) ∷ connections) =
    destroy_all (run_in s peer.loop (destroy peer)) connections

pub data ServerEvent : Type 0 where
  accepting : (accepted : Option ℕ) → ServerEvent
  removing : (peer : Peer) → ServerEvent

unfoldable pub serve_one : TcpServer → ServerEvent → Option TcpServer
serve_one s (accepting accepted) = handle_read s accepted
serve_one s (removing peer) = some (remove_connection_in_loop s peer)

unfoldable pub serve : TcpServer → List ServerEvent → Option TcpServer
serve s [] = some s
serve s (event ∷ events) = do after ← serve_one s event; serve after events
