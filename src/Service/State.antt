-- ===== src/Service/State.antt =====
-- src/main.cc: `RouteResult`, the texts that the handlers share, and the state of `EchoServer`.
use cpp_ai_service.Base.{ℕ, Bool, false, [], ◌∷◌, ◌++◌, List, Option, none, some, Bytes, codes}
use cpp_ai_service.HttpCodec.Strings.{json_escape, json_error, json_response}
use cpp_ai_service.HttpCodec.Json.{extract_json_string_field}
use cpp_ai_service.UserStore.State.{UserStore, UserProfile, Disk}
use cpp_ai_service.Rag.Store.{RagStore}
use cpp_ai_service.Tools.Registry.{ToolRegistry}
use cpp_ai_service.Lfu.Slices.{Slices}
use cpp_ai_service.AiClient.Config.{AiClientConfig}
use cpp_ai_service.AiClient.Chat.{Curl}

pub record RouteResult : Type 0 where
  pub response : Bytes
  pub status : Bytes
  pub cache_hit : Bool
  pub tool_used : Bool
  pub tool_name : Bytes
  pub upstream_latency_ms : ℕ

-- What the handlers read and change.
pub record Service : Type 0 where
  pub config : AiClientConfig
  pub response_cache : Slices
  pub tools : ToolRegistry
  pub rag_store : RagStore
  pub users : UserStore

-- What the surroundings answer during one request: the disk, the clocks, the random device, curl,
-- the hash of the library, and the two fixed pages.
pub record Surroundings : Type 0 where
  pub disk : Disk
  pub steady_now : ℕ
  pub system_now : ℕ
  pub now_text : Bytes
  pub entropy : List ℕ
  pub curl : Curl
  pub hash : Bytes → ℕ
  pub home_page : Bytes
  pub direct_api_page : Bytes

unfoldable pub make_route_result : Bytes → Bytes → RouteResult
make_route_result response status = record {
  response = response;
  status = status;
  cache_hit = false;
  tool_used = false;
  tool_name = [];
  upstream_latency_ms = 0;
}

-- `makeRouteResult(jsonResponse(status, body), status)`.
unfoldable pub json_result : Bytes → Bytes → RouteResult
json_result status body = make_route_result (json_response status body) status

abbrev pub ok_status : Bytes
ok_status = codes "200 OK"

abbrev pub bad_request_status : Bytes
bad_request_status = codes "400 Bad Request"

abbrev pub unauthorized_status : Bytes
unauthorized_status = codes "401 Unauthorized"

abbrev pub not_found_status : Bytes
not_found_status = codes "404 Not Found"

abbrev pub method_status : Bytes
method_status = codes "405 Method Not Allowed"

unfoldable pub auth_bad_request : Bytes → RouteResult
auth_bad_request message = json_result bad_request_status (json_error message)

unfoldable pub user_json : UserProfile → Bytes
user_json user =
    codes "{\"username\":\""
    ++ (json_escape user.username
        ++ (codes "\",\"role\":\"" ++ (json_escape user.role ++ codes "\"}")))

unfoldable pub auth_ok_user_json : UserProfile → Bytes
auth_ok_user_json user = codes "{\"ok\":true,\"user\":" ++ (user_json user ++ codes "}")

-- A field that need not be there leaves its variable empty.
abbrev pub or_empty : Option Bytes → Bytes
or_empty none = []
or_empty (some text) = text

-- `!extractJsonStringField(json, field, &value) || value.empty()` is the case of none.
unfoldable pub non_empty_field : Bytes → Bytes → Option Bytes
non_empty_field json field = elim (extract_json_string_field json field) [
  | none ↦ none
  | some value ↦ elim value [ [] ↦ none | c ∷ s ↦ some (c ∷ s) ]
]
