-- ===== src/Rag/Store.antt =====
-- src/RagStore.cc: `InMemoryRagStore`. The embedding provider and `std::sort` are parameters; the
-- store uses `KeywordEmbeddingProvider` where no provider is given.
use cpp_ai_service.Base.{
  ℕ, ◌+◌, Bool, true, false, ◌||◌, [], ◌∷◌, ◌++◌, List, Bytes, codes, ltb, if◌then◌else◌,
  same_bytes, length, take,
}
use cpp_ai_service.HttpCodec.Strings.{json_escape, decimal}
use cpp_ai_service.Rag.Tokens.{tokenize, dot_product}

pub record RagDocument : Type 0 where
  pub id : Bytes
  pub title : Bytes
  pub content : Bytes

pub record RagSearchResult : Type 0 where
  pub document : RagDocument
  pub score : ℕ

-- The documents, in the order of their first `upsert`.
abbrev pub RagStore : Type 0
RagStore = List RagDocument

unfoldable pub upsert : RagStore → RagDocument → RagStore
upsert [] document = document ∷ []
upsert (existing ∷ documents) document =
    if same_bytes existing.id document.id
    then document ∷ documents
    else existing ∷ upsert documents document

unfoldable pub has_token : List Bytes → Bytes → Bool
has_token [] token = false
has_token (t ∷ tokens) token = same_bytes t token || has_token tokens token

-- One point for each token of the text that is in the query.
unfoldable pub count_matches : List Bytes → List Bytes → ℕ
count_matches query [] = 0
count_matches query (token ∷ tokens) =
    (if has_token query token then 1 else 0) + count_matches query tokens

abbrev pub haystack : RagDocument → Bytes
haystack document = document.title ++ b' ' ∷ document.content

module _ (embed : Bytes → List ℕ) where
  unfoldable pub score_of : Bytes → RagDocument → ℕ
  score_of query document =
      dot_product (embed query) (embed (haystack document))
      + count_matches (tokenize query) (tokenize (haystack document))

  -- The loop of `search`: the documents with a positive score.
  unfoldable pub matches : Bytes → RagStore → List RagSearchResult
  matches query [] = []
  matches query (document ∷ documents) =
      let score = score_of query document in
      let rest = matches query documents in
      if ltb 0 score then record { document = document; score = score } ∷ rest else rest

  module _ (sort : List RagSearchResult → List RagSearchResult) where
    unfoldable pub search : RagStore → Bytes → ℕ → List RagSearchResult
    search store query limit =
        let results = sort (matches query store) in
        if ltb limit (length results) then take limit results else results

-- A score is printed in full below one million.
unfoldable pub result_json : RagSearchResult → Bytes
result_json result =
    codes "{\"id\":\""
    ++ (json_escape result.document.id
        ++ (codes "\",\"title\":\""
            ++ (json_escape result.document.title
                ++ (codes "\",\"content\":\""
                    ++ (json_escape result.document.content
                        ++ (codes "\",\"score\":" ++ (decimal result.score ++ codes "}")))))))

-- The loop over the results; a comma stands before all but the first.
unfoldable pub results_json : Bool → List RagSearchResult → Bytes
results_json first [] = []
results_json first (result ∷ results) =
    (if first then [] else codes ",") ++ (result_json result ++ results_json false results)

module _ (embed : Bytes → List ℕ) (sort : List RagSearchResult → List RagSearchResult) where
  unfoldable pub search_json : RagStore → Bytes → ℕ → Bytes
  search_json store query limit =
      let results = search embed sort store query limit in
      codes "{\"query\":\""
      ++ (json_escape query
          ++ (codes "\",\"count\":"
              ++ (decimal (length results)
                  ++ (codes ",\"matches\":[" ++ (results_json true results ++ codes "]}")))))

unfoldable pub seed_defaults : RagStore → RagStore
seed_defaults store =
    let architecture : RagDocument = record {
      id = codes "architecture";
      title = codes "C++ AI service gateway architecture";
      content =
          codes "cpp-ai-service is a C++ AI service gateway. HTTP requests flow through TcpServer, "
          ++ codes
              "TcpConnection, HttpCodec, AiClient, ToolRegistry, LFU cache, and optional provider calls.";
    } in
    let mcp : RagDocument = record {
      id = codes "mcp";
      title = codes "MCP-like tool endpoint";
      content =
          codes "The current MCP-like endpoint supports GET /mcp/tools and POST /mcp/call. "
          ++ codes "It exposes local tool schemas but is not full MCP JSON-RPC yet.";
    } in
    let rag : RagDocument = record {
      id = codes "rag";
      title = codes "RAG gateway plan";
      content =
          codes
            "RAG should be a gateway capability: ingest documents, chunk content, create embeddings, "
          ++ codes
              "store vectors, retrieve context through rag_search, and then let AiClient generate an answer.";
    } in
    upsert (upsert (upsert store architecture) mcp) rag
