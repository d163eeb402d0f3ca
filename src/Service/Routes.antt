-- ===== src/Service/Routes.antt =====
-- src/main.cc: `handleRequest`, `handleRawRequest`, and what `onMessage` makes of a request's text.
use cpp_ai_service.Base.{Bool, Option, none, some, Bytes, codes, if◌then◌else◌, same_bytes}
use cpp_ai_service.HttpCodec.Strings.{json_error}
use cpp_ai_service.HttpCodec.Request.{HttpRequest, parse_http_request}
use cpp_ai_service.Service.State.{
  RouteResult, Service, Surroundings, make_route_result, json_result, ok_status, bad_request_status,
  not_found_status,
}
use cpp_ai_service.Service.Handlers.{
  handle_chat_request, handle_register_request, handle_login_request, handle_me_request,
  handle_tools_request, handle_mcp_tools_request, handle_mcp_call_request,
  handle_rag_ingest_request, handle_health_request,
}

abbrev pub is_path : HttpRequest → Bytes → Bool
is_path request path = same_bytes request.path path

-- The routes that read the state only.
unfoldable pub read_only_routes : Surroundings → Service → HttpRequest → RouteResult
read_only_routes around service request =
    if is_path request (codes "/tools")
    then handle_tools_request service request
    else if is_path request (codes "/health")
    then handle_health_request service
    else if is_path request (codes "/mcp/tools")
    then handle_mcp_tools_request service request
    else if is_path request (codes "/mcp/call")
    then handle_mcp_call_request around service request
    else if is_path request (codes "/direct")
    then make_route_result around.direct_api_page ok_status
    else if is_path request (codes "/")
    then make_route_result around.home_page ok_status
    else json_result not_found_status (json_error (codes "route not found"))

-- The paths differ, so the order of the tests does not matter.
unfoldable pub handle_request :
    Surroundings → Service → HttpRequest → Bytes → Option (Service × RouteResult)
handle_request around service request client_id =
    if is_path request (codes "/auth/register")
    then some (handle_register_request around service request client_id)
    else if is_path request (codes "/auth/login")
    then some (handle_login_request around service request)
    else if is_path request (codes "/auth/me")
    then some (handle_me_request around service request)
    else if is_path request (codes "/chat")
    then handle_chat_request around service request
    else if is_path request (codes "/rag/ingest")
    then some (handle_rag_ingest_request service request)
    else some (service, read_only_routes around service request)

unfoldable pub handle_raw_request :
    Surroundings → Service → Bytes → Bytes → Option (Service × RouteResult)
handle_raw_request around service raw client_id = elim (parse_http_request raw) [
  | none ↦
      some (service, json_result bad_request_status (json_error (codes "malformed HTTP request")))
  | some request ↦ handle_request around service request client_id
]
