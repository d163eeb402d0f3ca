-- ===== src/Tests/Replies.antt =====
-- A whole exchange over a connection, at concrete inputs.
use cpp_ai_service.Base.{
  ◌≡◌, refl, true, false, some, Bytes, ◌∷◌, [], ◌++◌, codes, same_bytes, before_bytes, arith,
}
use cpp_ai_service.HttpCodec.Request.{parse_http_request}
use cpp_ai_service.Connection.State.{Connection}
use cpp_ai_service.Connection.Sending.{wrote}
use cpp_ai_service.Connection.Closing.{write_on}
use cpp_ai_service.Service.State.{RouteResult, make_route_result, ok_status}
use cpp_ai_service.Service.Routes.{handle_raw_request, handle_request, read_only_routes}
use cpp_ai_service.Service.Messages.{on_message}
use cpp_ai_service.Service.Replies.{received, on_message-write_on}
use cpp_ai_service.Tests.Services.{around, service}

abbrev home_request : Bytes
home_request = codes "GET / HTTP/1.1" ++ (13 ∷ 10 ∷ 13 ∷ 10 ∷ [])

abbrev home_result : RouteResult
unfolding make_route_result
home_result = make_route_result (codes "home") ok_status

home_answered :
    handle_raw_request around service home_request (codes "client") ≡ some (service, home_result)
unfolding handle_raw_request handle_request read_only_routes parse_http_request same_bytes
    before_bytes make_route_result
home_answered = refl

-- The socket takes one byte at first, and one at each write event.
on_message-write_on_example :
    (c : Connection) × (on_message around
        (wrote 1)
        service
        (received 1 5 true false home_request)
        (codes "client")
      ≡ some (service, c))
    × ((write_on (0 ∷ 0 ∷ 0 ∷ 0 ∷ []) c).write_shut ≡ true)
    × ((write_on (0 ∷ 0 ∷ 0 ∷ 0 ∷ []) c).written ≡ codes "home")
unfolding make_route_result
on_message-write_on_example =
    on_message-write_on around (wrote 1) service service home_result 1 5 true false home_request
      (codes "client") (0 ∷ 0 ∷ 0 ∷ 0 ∷ []) refl refl home_answered (omega arith)
