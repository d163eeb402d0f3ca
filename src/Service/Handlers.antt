-- ===== src/Service/Handlers.antt =====
-- src/main.cc: one handler for each route.
use cpp_ai_service.Base.{
  ℕ, Bool, true, not, ◌++◌, Option, none, some, Bytes, codes, ltb, if◌then◌else◌, ◌>>=◌, same_bytes,
  length,
}
use cpp_ai_service.Base.Dictionary.{bytes_key, lookup}
use cpp_ai_service.HttpCodec.Strings.{json_escape, json_error}
use cpp_ai_service.HttpCodec.Json.{extract_json_string_field}
use cpp_ai_service.HttpCodec.Request.{HttpRequest}
use cpp_ai_service.UserStore.State.{AuthResult}
use cpp_ai_service.UserStore.Accounts.{register_user, login}
use cpp_ai_service.UserStore.Sessions.{authenticate}
use cpp_ai_service.UserStore.Sessions
use cpp_ai_service.Rag.Store.{RagDocument, upsert}
use cpp_ai_service.Tools.Registry.{ToolResult, World, execute, list_tools_json, list_mcp_tools_json}
use cpp_ai_service.AiClient.Config
use cpp_ai_service.AiClient.Chat.{AiChatResponse, chat}
use cpp_ai_service.Service.State.{
  RouteResult, Service, Surroundings, json_result, ok_status, bad_request_status,
  unauthorized_status, method_status, auth_bad_request, user_json, auth_ok_user_json, or_empty,
  non_empty_field,
}

abbrev pub is_post : HttpRequest → Bool
is_post request = same_bytes request.method (codes "POST")

abbrev pub is_get : HttpRequest → Bool
is_get request = same_bytes request.method (codes "GET")

-- What the tools' handlers see during a request.
abbrev pub world_of : Surroundings → Service → World
world_of around service = record { rag_store = some service.rag_store; now_text = around.now_text }

abbrev pub bad_request : Bytes → RouteResult
bad_request message = json_result bad_request_status (json_error message)

abbrev pub wrong_method : Bytes → RouteResult
wrong_method message = json_result method_status (json_error message)

abbrev pub chat_result : AiChatResponse → RouteResult
chat_result answered = record (json_result answered.status answered.body) {
  cache_hit = answered.cache_hit;
  tool_used = answered.tool_used;
  tool_name = answered.tool_name;
  upstream_latency_ms = answered.upstream_latency_ms;
}

-- A result of none is the cache's use of a null list.
unfoldable pub handle_chat_request :
    Surroundings → Service → HttpRequest → Option (Service × RouteResult)
handle_chat_request around service request =
    let answered : Option (Service × RouteResult) =
      elim (non_empty_field request.body (codes "message")) [
        | none ↦ some (
          service,
          bad_request (codes "request body must contain a non-empty string field named message"),
        )
        | some message ↦ do
          let tool = or_empty (extract_json_string_field request.body (codes "tool"))
          (cache, response) ←
              chat around.hash around.curl (some service.tools) (world_of around service)
                service.config service.response_cache (record { message = message; tool = tool })
          some (record service { response_cache = cache }, chat_result response)
      ] in
    if not (is_post request)
    then some (service, wrong_method (codes "/chat expects POST"))
    else answered

abbrev pub body_limit : ℕ
body_limit = 8192

-- Both fields, or none.
unfoldable pub credentials : Bytes → Option (Bytes × Bytes)
credentials body = do
  username ← extract_json_string_field body (codes "username")
  password ← extract_json_string_field body (codes "password")
  some (username, password)

abbrev pub missing_credentials : RouteResult
missing_credentials =
    auth_bad_request (codes "request body must contain string fields username and password")

unfoldable pub handle_register_request :
    Surroundings → Service → HttpRequest → Bytes → Service × RouteResult
handle_register_request around service request client_id =
    let registered : Service × RouteResult = elim (credentials request.body) [
      | none ↦ (service, missing_credentials)
      | some (username, password) ↦
          let invite = or_empty (extract_json_string_field request.body (codes "invite_code")) in
          let (users, auth) =
            register_user around.disk service.users username password invite client_id
              around.steady_now around.entropy in
          (
            record service { users = users },
            if not auth.ok
                then auth_bad_request auth.error
                else json_result ok_status (auth_ok_user_json auth.user),
          )
    ] in
    if not (is_post request)
    then (service, wrong_method (codes "/auth/register expects POST"))
    else if ltb body_limit (length request.body)
    then (service, auth_bad_request (codes "request body is too large"))
    else registered

unfoldable pub login_json : AuthResult → Bytes
login_json auth =
    codes "{\"ok\":true,\"session_token\":\""
    ++ (json_escape auth.session.token
        ++ (codes "\",\"user\":" ++ (user_json auth.user ++ codes "}")))

unfoldable pub handle_login_request : Surroundings → Service → HttpRequest → Service × RouteResult
handle_login_request around service request =
    let logged_in : Service × RouteResult = elim (credentials request.body) [
      | none ↦ (service, missing_credentials)
      | some (username, password) ↦
          let (users, auth) =
            login service.users username password around.system_now around.entropy in
          (
            record service { users = users },
            if not auth.ok
                then json_result unauthorized_status (json_error auth.error)
                else json_result ok_status (login_json auth),
          )
    ] in
    if not (is_post request)
    then (service, wrong_method (codes "/auth/login expects POST"))
    else if ltb body_limit (length request.body)
    then (service, auth_bad_request (codes "request body is too large"))
    else logged_in

unfoldable pub handle_me_request : Surroundings → Service → HttpRequest → Service × RouteResult
handle_me_request around service request =
    let authorization = or_empty (lookup (codes "authorization") request.headers) in
    let (users, auth) = authenticate service.users authorization around.system_now in
    if not (is_get request) then (service, wrong_method (codes "/auth/me expects GET")) else (
      record service { users = users },
      if not auth.ok
          then json_result unauthorized_status (json_error auth.error)
          else json_result ok_status (auth_ok_user_json auth.user),
    )

unfoldable pub handle_tools_request : Service → HttpRequest → RouteResult
handle_tools_request service request =
    if not (is_get request)
    then wrong_method (codes "/tools expects GET")
    else json_result ok_status (list_tools_json service.tools)

unfoldable pub handle_mcp_tools_request : Service → HttpRequest → RouteResult
handle_mcp_tools_request service request =
    if not (is_get request)
    then wrong_method (codes "/mcp/tools expects GET")
    else json_result ok_status (list_mcp_tools_json service.tools)

-- The input is the field `query`, or else the field `message`.
unfoldable pub mcp_input : Bytes → Bytes
mcp_input body = elim (extract_json_string_field body (codes "query")) [
  | some input ↦ input
  | none ↦ or_empty (extract_json_string_field body (codes "message"))
]

unfoldable pub mcp_call_json : Bytes → ToolResult → Bytes
mcp_call_json tool result =
    codes "{\"ok\":true,\"protocol\":\"mcp-like\",\"tool\":\""
    ++ (json_escape tool ++ (codes "\",\"result\":" ++ (result.json ++ codes "}")))

unfoldable pub handle_mcp_call_request : Surroundings → Service → HttpRequest → RouteResult
handle_mcp_call_request around service request =
    let called : RouteResult = elim (non_empty_field request.body (codes "tool")) [
      | none ↦ bad_request (codes "request body must contain a non-empty string field named tool")
      | some tool ↦
          let result =
            execute service.tools (world_of around service) tool (mcp_input request.body) in
          if not result.ok
          then bad_request result.error
          else record (json_result ok_status (mcp_call_json tool result)) {
            tool_used = true;
            tool_name = tool;
          }
    ] in
    if not (is_post request) then wrong_method (codes "/mcp/call expects POST") else called

unfoldable pub document_of : Bytes → Option RagDocument
document_of body = do
  id ← non_empty_field body (codes "id")
  title ← non_empty_field body (codes "title")
  content ← non_empty_field body (codes "content")
  some (record { id = id; title = title; content = content })

unfoldable pub ingest_json : RagDocument → Bytes
ingest_json document =
    codes "{\"ok\":true,\"id\":\""
    ++ (json_escape document.id
        ++ (codes "\",\"title\":\"" ++ (json_escape document.title ++ codes "\"}")))

unfoldable pub handle_rag_ingest_request : Service → HttpRequest → Service × RouteResult
handle_rag_ingest_request service request =
    let ingested : Service × RouteResult = elim (document_of request.body) [
      | none ↦ (
        service,
        bad_request
            (codes "request body must contain non-empty string fields id, title, and content"),
      )
      | some document ↦ (
        record service { rag_store = upsert service.rag_store document },
        json_result ok_status (ingest_json document),
      )
    ] in
    if not (is_post request)
    then (service, wrong_method (codes "/rag/ingest expects POST"))
    else ingested

unfoldable pub handle_health_request : Service → RouteResult
handle_health_request service = json_result ok_status (
    codes "{\"ok\":true,\"ai\":"
    ++ (Config.config_json service.config
        ++ (codes ",\"auth\":" ++ (Sessions.config_json service.users ++ codes "}"))))
