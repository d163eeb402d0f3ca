-- ===== src/Service/Messages.antt =====
-- src/main.cc: `onMessage` of `EchoServer`, between a connection and the routes.
use cpp_ai_service.Base.{true, Option, some, Bytes, ◌>>=◌}
use cpp_ai_service.Buffer.Storage.{retrieve_all_as_string}
use cpp_ai_service.Connection.State.{Connection}
use cpp_ai_service.Connection.Sending.{Outcome, send, shutdown}
use cpp_ai_service.Service.State.{Service, Surroundings}
use cpp_ai_service.Service.Routes.{handle_raw_request}

-- The reply, and the end of the write side behind it. `outcome` is what `write` gives.
unfoldable pub reply : Outcome → Connection → Bytes → Connection
reply outcome c response = shutdown true (send true outcome c response)

-- `client_id` is the address of the peer.
unfoldable pub on_message :
    Surroundings → Outcome → Service → Connection → Bytes → Option (Service × Connection)
on_message around outcome service c client_id =
    let (request, left) = retrieve_all_as_string c.input_buffer in
    do
      (after, result) ← handle_raw_request around service request client_id
      some (after, reply outcome (record c { input_buffer = left }) result.response)
