-- ===== src/AiClient/Chat.antt =====
-- src/AiClient.cc: `AiClient::chat` and the provider call. What curl does is a parameter.
use cpp_ai_service.Base.{
  ℕ, Bool, true, false, not, ◌||◌, [], ◌∷◌, ◌++◌, Option, none, some, Bytes, codes, leb, ltb,
  if◌then◌else◌, ◌>>=◌, is_empty,
}
use cpp_ai_service.HttpCodec.Strings.{json_escape, json_error, decimal}
use cpp_ai_service.Tools.Registry.{ToolRegistry, World, execute}
use cpp_ai_service.Lfu.Slices.{Slices, get_slice, put_slice}
use cpp_ai_service.AiClient.Config.{
  AiClientConfig, bool_json, should_use_network_provider, strip_trailing_slash,
}
use cpp_ai_service.AiClient.Reply.{extract_field}

pub record AiChatRequest : Type 0 where
  pub message : Bytes
  pub tool : Bytes

pub record AiChatResponse : Type 0 where
  pub ok : Bool
  pub status : Bytes
  pub body : Bytes
  pub cache_hit : Bool
  pub tool_used : Bool
  pub tool_name : Bytes
  pub upstream_latency_ms : ℕ

-- What a call through curl comes to: no handle, an error text, or a status and a body, with the
-- time that it took.
pub data CurlOutcome : Type 0 where
  no_handle : CurlOutcome
  failed : Bytes → ℕ → CurlOutcome
  answered : ℕ → Bytes → ℕ → CurlOutcome

-- The URL, the payload and the `Authorization` header, if there is one.
abbrev pub Curl : Type 0
Curl = Bytes → Bytes → Option Bytes → CurlOutcome

abbrev pub bad_gateway : Bytes → ℕ → AiChatResponse
bad_gateway body latency = record {
  ok = false;
  status = codes "502 Bad Gateway";
  body = body;
  cache_hit = false;
  tool_used = false;
  tool_name = [];
  upstream_latency_ms = latency;
}

abbrev pub server_error : Bytes → AiChatResponse
server_error message = record {
  ok = false;
  status = codes "500 Internal Server Error";
  body = json_error message;
  cache_hit = false;
  tool_used = false;
  tool_name = [];
  upstream_latency_ms = 0;
}

abbrev pub answer : Bytes → Bool → ℕ → AiChatResponse
answer body cache_hit latency = record {
  ok = true;
  status = codes "200 OK";
  body = body;
  cache_hit = cache_hit;
  tool_used = false;
  tool_name = [];
  upstream_latency_ms = latency;
}

unfoldable pub cache_key : AiClientConfig → AiChatRequest → Bytes
cache_key config request = config.provider ++ 10 ∷ (config.model ++ 10 ∷ request.message)

unfoldable pub make_stub_reply : Bytes → Bytes
make_stub_reply message = codes "Stub AI reply for: " ++ message

unfoldable pub build_chat_body : AiClientConfig → AiChatRequest → Bytes → Bool → Bytes
build_chat_body config request reply cache_hit =
    codes "{\"ok\":true,\"message\":\""
    ++ (json_escape request.message
        ++ (codes "\",\"reply\":\""
            ++ (json_escape reply
                ++ (codes "\",\"provider\":\""
                    ++ (json_escape config.provider
                        ++ (codes "\",\"model\":\""
                            ++ (json_escape config.model
                                ++ (codes "\",\"cache_hit\":"
                                    ++ (bool_json cache_hit
                                        ++ codes ",\"tool_used\":false}")))))))))

unfoldable pub payload_of : AiClientConfig → AiChatRequest → Bytes
payload_of config request =
    codes "{\"model\":\""
    ++ (json_escape config.model
        ++ (codes "\",\"messages\":[{\"role\":\"user\",\"content\":\""
            ++ (json_escape request.message ++ codes "\"}],\"temperature\":0.2}")))

-- What is made of the provider's answer.
unfoldable pub read_outcome : AiClientConfig → AiChatRequest → CurlOutcome → AiChatResponse
read_outcome config request no_handle = server_error (codes "failed to initialize curl")
read_outcome config request (failed error latency) =
    bad_gateway
      (codes "{\"ok\":false,\"error\":\"AI provider request failed: "
        ++ (json_escape error
            ++ (codes "\",\"provider\":\""
                ++ (json_escape config.provider
                    ++ (codes "\",\"base_url\":\""
                        ++ (json_escape config.base_url ++ codes "\"}"))))))
      latency
read_outcome config request (answered http_status response latency) =
    if ltb http_status 200 || leb 300 http_status
    then bad_gateway
        (codes "{\"ok\":false,\"error\":\"provider returned HTTP "
          ++ (decimal http_status
              ++ (codes "\",\"provider\":\""
                  ++ (json_escape config.provider
                      ++ (codes "\",\"body\":\"" ++ (json_escape response ++ codes "\"}"))))))
        latency
    else elim (extract_field response (codes "content")) [
      | none ↦
          bad_gateway (json_error (codes "provider response did not contain assistant content"))
            latency
      | some reply ↦ answer (build_chat_body config request reply false) false latency
    ]

unfoldable pub call_open_ai_compatible : Curl → AiClientConfig → AiChatRequest → AiChatResponse
call_open_ai_compatible curl config request =
    let url = strip_trailing_slash config.base_url ++ codes "/chat/completions" in
    let authorization =
      if config.api_key_configured
      then some (codes "Authorization: Bearer " ++ config.api_key)
      else none in
    if is_empty config.base_url
    then server_error (codes "CPP_AI_BASE_URL is not configured")
    else read_outcome config request (curl url (payload_of config request) authorization)

unfoldable pub tool_body : AiClientConfig → AiChatRequest → Bytes → Bytes
tool_body config request json =
    codes "{\"ok\":true,\"message\":\""
    ++ (json_escape request.message
        ++ (codes "\",\"reply\":\"Tool "
            ++ (json_escape request.tool
                ++ (codes " executed for: "
                    ++ (json_escape request.message
                        ++ (codes "\",\"provider\":\""
                            ++ (json_escape config.provider
                                ++ (codes "\",\"model\":\""
                                    ++ (json_escape config.model
                                        ++ (codes
                                              "\",\"cache_hit\":false,\"tool_used\":true,\"tool\":\""
                                            ++ (json_escape request.tool
                                                ++ (codes "\",\"tool_result\":"
                                                    ++ (json ++ codes "}")))))))))))))

-- The answer of a tool call; the registry may be missing.
unfoldable pub call_tool :
    Option ToolRegistry → World → AiClientConfig → AiChatRequest → AiChatResponse
call_tool none world config request = server_error (codes "tool registry is not configured")
call_tool (some tools) world config request =
    let result = execute tools world request.tool request.message in
    if not result.ok
    then record {
      ok = false;
      status = codes "400 Bad Request";
      body = json_error result.error;
      cache_hit = false;
      tool_used = true;
      tool_name = request.tool;
      upstream_latency_ms = 0;
    }
    else record {
      ok = true;
      status = codes "200 OK";
      body = tool_body config request result.json;
      cache_hit = false;
      tool_used = true;
      tool_name = request.tool;
      upstream_latency_ms = 0;
    }

module _ (hash : Bytes → ℕ) where
  -- A good answer of the provider is remembered, if its reply can be read back.
  unfoldable pub remember : Slices → Bytes → AiChatResponse → Option Slices
  remember cache key response =
      if response.ok
      then elim (extract_field response.body (codes "reply")) [
        | none ↦ some cache
        | some reply ↦ put_slice hash cache key reply
      ]
      else some cache

  -- On a miss: the provider is asked, or the stub answers. A result of none is the cache's.
  unfoldable pub ask :
      Curl → AiClientConfig → AiChatRequest → Slices → Bytes → Option (Slices × AiChatResponse)
  ask curl config request cache key =
      let response = call_open_ai_compatible curl config request in
      let reply = make_stub_reply request.message in
      let asked : Option (Slices × AiChatResponse) = do
        filled ← remember cache key response
        some (filled, response)
      in let stubbed : Option (Slices × AiChatResponse) = do
        filled ← put_slice hash cache key reply
        some (filled, answer (build_chat_body config request reply false) false 0)
        in if should_use_network_provider config then asked else stubbed

  unfoldable pub chat :
      Curl
      → Option ToolRegistry
      → World
      → AiClientConfig
      → Slices
      → AiChatRequest
      → Option (Slices × AiChatResponse)
  chat curl tools world config cache request =
      let key = cache_key config request in
      let cached : Option (Slices × AiChatResponse) = do
        (used, found) ← get_slice hash cache key
        elim found [
          | some reply ↦ some (used, answer (build_chat_body config request reply true) true 0)
          | none ↦ ask curl config request used key
        ]
      in if not (is_empty request.tool)
        then some (cache, call_tool tools world config request)
        else cached
