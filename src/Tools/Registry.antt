-- ===== src/Tools/Registry.antt =====
-- src/ToolRegistry.cc: `ToolRegistry`. A handler reads what it captured at the time of the call: the
-- shared document store, if one is configured, and the clock.
use cpp_ai_service.Base.{
  ℕ, Bool, true, false, [], ◌∷◌, ◌++◌, List, Option, none, some, Bytes, codes, if◌then◌else◌,
  is_empty,
}
use cpp_ai_service.Base.Dictionary.{bytes_key, lookup, insert}
use cpp_ai_service.HttpCodec.Strings.{json_escape}
use cpp_ai_service.Rag.Store.{RagStore}

pub record ToolResult : Type 0 where
  pub ok : Bool
  pub json : Bytes
  pub error : Bytes

-- `now_text` is what `Timestamp::now().toFormattedString(true)` gives.
pub record World : Type 0 where
  pub rag_store : Option RagStore
  pub now_text : Bytes

pub record ToolEntry : Type 0 where
  pub description : Bytes
  pub input_schema : Bytes
  pub handler : World → Bytes → ToolResult

-- The map of the tools, in the order of their names.
abbrev pub ToolRegistry : Type 0
ToolRegistry = List (Bytes × ToolEntry)

unfoldable pub register_tool :
    ToolRegistry → Bytes → Bytes → Bytes → (World → Bytes → ToolResult) → ToolRegistry
register_tool tools name description input_schema handler =
    insert name
      (record { description = description; input_schema = input_schema; handler = handler }) tools

abbrev pub is_some : Option ToolEntry → Bool
is_some none = false
is_some (some entry) = true

unfoldable pub has_tool : ToolRegistry → Bytes → Bool
has_tool tools name = is_some (lookup name tools)

unfoldable pub execute : ToolRegistry → World → Bytes → Bytes → ToolResult
execute tools world name input = elim (lookup name tools) [
  | none ↦ record { ok = false; json = []; error = codes "unknown tool: " ++ name }
  | some entry ↦ entry.handler world input
]

unfoldable pub execute_without_input : ToolRegistry → World → Bytes → ToolResult
execute_without_input tools world name = execute tools world name []

-- The loops of the two listings; a comma stands before all but the first tool.
unfoldable pub tools_json : Bool → ToolRegistry → Bytes
tools_json first [] = []
tools_json first ((name, entry) ∷ tools) =
    (if first then [] else codes ",")
    ++ (codes "{\"name\":\""
        ++ (json_escape name
            ++ (codes "\",\"description\":\""
                ++ (json_escape entry.description ++ (codes "\"}" ++ tools_json false tools)))))

unfoldable pub list_tools_json : ToolRegistry → Bytes
list_tools_json tools = codes "{\"ok\":true,\"tools\":[" ++ (tools_json true tools ++ codes "]}")

unfoldable pub mcp_tools_json : Bool → ToolRegistry → Bytes
mcp_tools_json first [] = []
mcp_tools_json first ((name, entry) ∷ tools) =
    (if first then [] else codes ",")
    ++ (codes "{\"name\":\""
        ++ (json_escape name
            ++ (codes "\",\"description\":\""
                ++ (json_escape entry.description
                    ++ (codes "\",\"input_schema\":"
                        ++ (entry.input_schema ++ (codes "}" ++ mcp_tools_json false tools)))))))

unfoldable pub list_mcp_tools_json : ToolRegistry → Bytes
list_mcp_tools_json tools =
    codes "{\"ok\":true,\"protocol\":\"mcp-like\",\"tools\":["
    ++ (mcp_tools_json true tools ++ codes "]}")

abbrev pub no_arguments : Bytes
no_arguments = codes "{\"type\":\"object\",\"properties\":{},\"additionalProperties\":false}"

abbrev pub query_arguments : Bytes
query_arguments =
    codes
      "{\"type\":\"object\",\"properties\":{\"query\":{\"type\":\"string\",\"description\":\"Search query. If omitted, /chat message is used.\"}},\"additionalProperties\":false}"

unfoldable pub project_status : World → Bytes → ToolResult
project_status world input = record {
  ok = true;
  json =
      codes
        "{\"project\":\"cpp-ai-service\",\"status\":\"C++ AI service gateway with tools, cache, MCP-like endpoints, and minimal RAG\","
      ++ (codes
            "\"features\":[\"/health\",\"/chat\",\"AiClient\",\"ToolRegistry\",\"LFU response cache\",\"environment config\",\"OpenAI-compatible provider\",\"/mcp/tools\",\"/mcp/call\",\"rag_search\"],"
          ++ codes "\"next\":\"full MCP JSON-RPC and persistent vector store\"}");
  error = [];
}

unfoldable pub server_time : World → Bytes → ToolResult
server_time world input = record {
  ok = true;
  json = codes "{\"timestamp\":\"" ++ (json_escape world.now_text ++ codes "\"}");
  error = [];
}

-- `search_json` is `InMemoryRagStore::searchJson`, with the limit of the results.
module _ (search_json : RagStore → Bytes → ℕ → Bytes) where
  unfoldable pub rag_search : World → Bytes → ToolResult
  rag_search world input = elim world.rag_store [
    | none ↦ record { ok = false; json = []; error = codes "RAG store is not configured" }
    | some store ↦
        let query = if is_empty input then codes "cpp-ai-service" else input in
        record { ok = true; json = search_json store query 3; error = [] }
  ]

  unfoldable pub create_default : ToolRegistry
  create_default =
      let status =
        register_tool [] (codes "project_status")
          (codes "Return the current cpp-ai-service project status.") no_arguments project_status in
      let time =
        register_tool status (codes "server_time") (codes "Return the server timestamp.")
          no_arguments server_time in
      register_tool time (codes "rag_search")
        (codes "Search the local in-memory RAG document store and return matched context.")
        query_arguments rag_search
