-- ===== src/Tests/Services.antt =====
-- The service of src/main.cc at concrete inputs.
use cpp_ai_service.Base.{
  true, ◌≡◌, refl, Bytes, Bool, All, false, some, [], ◌∷◌, arith, codes, length, same_bytes,
  if◌then◌else◌,
}
use cpp_ai_service.Environment.{pos}
use cpp_ai_service.Lfu.Slices.{Slices, slice_size, init_slices}
use cpp_ai_service.Lfu.Sliced.{IsSliced, init_slices-IsSliced}
use cpp_ai_service.AiClient.Config.{should_use_network_provider, AiClientConfig}
use cpp_ai_service.AiClient.Chat.{
  no_handle, AiChatRequest, AiChatResponse, answer, build_chat_body, chat,
}
use cpp_ai_service.AiClient.Answers.{chat_total}
use cpp_ai_service.AiClient.Repeats.{chat_twice}
use cpp_ai_service.Lfu.Recall.{IsOpen}
use cpp_ai_service.Rag.Store.{RagDocument, upsert}
use cpp_ai_service.Rag.Tokens.{tokenize}
use cpp_ai_service.Rag.Words.{IsToken, tokenize-IsToken}
use cpp_ai_service.Rag.Documents.{document_at, document_at-upsert}
use cpp_ai_service.Lfu.Cache.{init}
use cpp_ai_service.Tests.Users.{disk, bob_store}
use cpp_ai_service.Tests.Requests.{sample}
use cpp_ai_service.Service.State.{Service, Surroundings}
use cpp_ai_service.Service.Handlers.{world_of}
use cpp_ai_service.Service.Routes.{handle_raw_request}
use cpp_ai_service.Service.Requests.{HasAnswer, handle_raw_request_total}

abbrev slices : Slices
slices = init_slices 8 4 10 2

slices-IsSliced : IsSliced slices
slices-IsSliced = init_slices-IsSliced 8 4 10 2 (omega arith) (omega arith) (omega arith)

abbrev config : AiClientConfig
config = record {
  provider = codes "stub";
  model = codes "stub-model";
  base_url = [];
  api_key = [];
  api_key_configured = false;
  cache_capacity = pos 8;
  request_timeout_seconds = pos 30;
}

abbrev pub around : Surroundings
around = record {
  disk = disk;
  steady_now = 100;
  system_now = 200;
  now_text = codes "now";
  entropy = 1 ∷ 2 ∷ [];
  curl = λ url payload header. no_handle;
  hash = λ s. length s;
  home_page = codes "home";
  direct_api_page = codes "direct";
}

abbrev pub service : Service
service = record {
  config = config;
  response_cache = slices;
  tools = [];
  rag_store = [];
  users = bob_store;
}

handle_raw_request_total_example :
    HasAnswer service (handle_raw_request around service sample (codes "client"))
handle_raw_request_total_example =
    handle_raw_request_total around service sample (codes "client") slices-IsSliced

abbrev question : AiChatRequest
question = record { message = codes "hello"; tool = [] }

chat_total_example :
    (after : Slices) × (response : AiChatResponse) × (chat
        (λ s. length s)
        around.curl
        (some [])
        (world_of around service)
        config
        slices
        question
      ≡ some (after, response))
    × IsSliced after
chat_total_example =
    chat_total (λ s. length s) around.curl (some []) (world_of around service) config slices
      question slices-IsSliced

slices-IsOpen : IsOpen slices
unfolding init_slices init slice_size
slices-IsOpen = record { sliced = slices-IsSliced; rooms = omega arith }

is_stub : should_use_network_provider config ≡ false
unfolding should_use_network_provider same_bytes
is_stub = refl

chat_twice_example :
    (reply : Bytes) × (was_hit : Bool) × (between : Slices) × (after : Slices) × (chat
        (λ s. length s)
        around.curl
        (some [])
        (world_of around service)
        config
        slices
        question
      ≡ some (between, answer (build_chat_body config question reply was_hit) was_hit 0))
    × (chat (λ s. length s) around.curl (some []) (world_of around service) config between question
        ≡ some (after, answer (build_chat_body config question reply true) true 0))
chat_twice_example =
    chat_twice (λ s. length s) around.curl (some []) (world_of around service) config question
      is_stub refl slices slices-IsOpen

abbrev old_note : RagDocument
old_note = record { id = codes "a"; title = codes "t"; content = codes "c" }

abbrev new_note : RagDocument
new_note = record { id = codes "a"; title = codes "new"; content = codes "c" }

document_at-upsert_example : document_at (codes "a") (upsert (old_note ∷ []) new_note) ≡ (
    if same_bytes (codes "a") (codes "a")
    then some new_note
    else document_at (codes "a") (old_note ∷ []))
document_at-upsert_example = document_at-upsert (old_note ∷ []) new_note (codes "a")

tokenize-IsToken_example : All IsToken (tokenize (codes "Hello, C++ 20"))
tokenize-IsToken_example = tokenize-IsToken (codes "Hello, C++ 20")
