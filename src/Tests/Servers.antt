-- ===== src/Tests/Servers.antt =====
-- src/TcpServer.cc and src/EventLoopThreadPool.cc at concrete inputs.
use cpp_ai_service.Base.{
  ℕ, ◌+◌, ◌%◌, ◌≡◌, refl, [], ◌∷◌, Bytes, codes, some, get_elem?, arith, same_bytes,
}
use cpp_ai_service.Base.Dictionary.{bytes_key, lookup, assign}
use cpp_ai_service.HttpCodec.Strings.{digits, decimal}
use cpp_ai_service.Server.LoopPool.{new_pool, start, next_loops, get_next_loop}
use cpp_ai_service.Server.RoundRobin.{next_loops_lem}
use cpp_ai_service.Server.Acceptance.{
  Peer, TcpServer, establish, new_server, serve, serve_one, handle_read, new_connection,
  add_connection, run_in, connection_name, accepting,
}
use cpp_ai_service.Server.Names.{new_connection_keeps}

abbrev loop_of : ℕ → ℕ
loop_of thread = thread + 10

next_loops_lem_example :
    get_elem? (next_loops 5 (start loop_of (new_pool 1 3))) 4 ≡ some (some (loop_of (4 % 3)))
next_loops_lem_example = next_loops_lem loop_of 1 3 5 4 (omega arith) (omega arith)

abbrev server_name : Bytes
server_name = codes "echo"

abbrev port : Bytes
port = codes "0.0.0.0:80"

abbrev first_name : Bytes
first_name = codes "echo-0.0.0.0:80#1"

abbrev second_name : Bytes
second_name = codes "echo-0.0.0.0:80#2"

abbrev first_peer : Peer
first_peer = record { name = first_name; sockfd = 5; loop = 1 }

abbrev second_peer : Peer
second_peer = record { name = second_name; sockfd = 6; loop = 1 }

abbrev one_served : TcpServer
one_served = record (new_server 1 server_name port (new_pool 1 0)) {
  connections = (first_name, first_peer) ∷ [];
  next_conn_id = 2;
  tasks = (1, establish first_peer) ∷ [];
}

abbrev two_served : TcpServer
two_served = record (new_server 1 server_name port (new_pool 1 0)) {
  connections = (first_name, first_peer) ∷ (second_name, second_peer) ∷ [];
  next_conn_id = 3;
  tasks = (1, establish first_peer) ∷ (1, establish second_peer) ∷ [];
}

one_served_lem :
    serve (new_server 1 server_name port (new_pool 1 0)) (accepting (some 5) ∷ []) ≡ some one_served
unfolding serve serve_one handle_read new_connection add_connection run_in connection_name
    get_next_loop new_server new_pool assign decimal digits same_bytes
one_served_lem = refl

two_served_lem : new_connection one_served 6 ≡ some two_served
unfolding new_connection add_connection run_in connection_name get_next_loop new_server new_pool
    assign decimal digits same_bytes
two_served_lem = refl

first_found : lookup first_name one_served.connections ≡ some first_peer
unfolding lookup same_bytes
first_found = refl

new_connection_keeps_example : lookup first_name two_served.connections ≡ some first_peer
new_connection_keeps_example =
    new_connection_keeps 1 server_name port (new_pool 1 0) (accepting (some 5) ∷ []) one_served
      two_served 6 (omega arith) one_served_lem (omega arith) two_served_lem first_name first_peer
      first_found
