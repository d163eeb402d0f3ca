-- ===== src/AiClient/Answers.antt =====
-- `AiClient::chat` always answers, and keeps the cache of replies in order.
use cpp_ai_service.Base.{
  ℕ, ◌≡◌, ◌∙◌, refl, true, false, Option, some, none, Bytes, codes, is_empty, Bool-cases,
  Option-cases, inl, inr, ◌>>=◌,
}
use cpp_ai_service.Lfu.Slices.{Slices, get_slice}
use cpp_ai_service.Lfu.Sliced.{IsSliced, put_slice_total, get_slice_total}
use cpp_ai_service.Tools.Registry.{ToolRegistry, World}
use cpp_ai_service.AiClient.Config.{AiClientConfig, should_use_network_provider}
use cpp_ai_service.AiClient.Reply.{extract_field}
use cpp_ai_service.AiClient.Chat.{
  Curl, AiChatRequest, AiChatResponse, cache_key, remember, ask, chat, call_tool,
  call_open_ai_compatible, make_stub_reply, build_chat_body, answer,
}

module _ (hash : Bytes → ℕ) where
  remember_total :
      (cache : Slices) (key : Bytes) (response : AiChatResponse)
      → IsSliced cache
      → (after : Slices) × (remember hash cache key response ≡ some after) × IsSliced after
  unfolding remember
  remember_total cache key response h = elim (Bool-cases response.ok) [
    | inr failed ↦ (cache, rw failed refl, h)
    | inl fine ↦ elim (Option-cases (extract_field response.body (codes "reply"))) [
      | inl absent ↦ (cache, rw (fine, absent, remember) refl, h)
      | inr (reply, at) ↦
          let (after, ran, h') = put_slice_total hash cache key h reply in
          (after, rw (fine, at, remember) ran, h')
    ]
  ]

  ask_total :
      (curl : Curl) (config : AiClientConfig) (request : AiChatRequest) (cache : Slices)
      (key : Bytes)
      → IsSliced cache
      → (after : Slices) × (response : AiChatResponse) × (ask hash curl config request cache key
          ≡ some (after, response))
        × IsSliced after
  unfolding ask
  ask_total curl config request cache key h =
      elim (Bool-cases (should_use_network_provider config)) [
        | inl network ↦
            let response = call_open_ai_compatible curl config request in
            let (after, ran, h') = remember_total cache key response h in
            (after, response, rw (network, ran) refl, h')
        | inr stub ↦
            let reply = make_stub_reply request.message in
            let (after, ran, h') = put_slice_total hash cache key h reply in
            (
              after,
              answer (build_chat_body config request reply false) false 0,
              rw (stub, ran) refl,
              h',
            )
      ]

  -- On a cache in order, whatever curl and the tools answer, `chat` gives a response and leaves a
  -- cache in order.
  pub chat_total :
      (curl : Curl) (tools : Option ToolRegistry) (world : World) (config : AiClientConfig)
      (cache : Slices) (request : AiChatRequest)
      → IsSliced cache
      → (after : Slices) × (response : AiChatResponse) × (chat hash curl tools world config cache
            request
          ≡ some (after, response))
        × IsSliced after
  unfolding chat
  chat_total curl tools world config cache request h = elim (Bool-cases (is_empty request.tool)) [
    | inr tool ↦ (cache, call_tool tools world config request, rw tool refl, h)
    | inl no_tool ↦
        let key = cache_key config request in
        let (used, found, ran, h') = get_slice_total hash cache key h in
        of_found used found (rw no_tool refl) ran h'
  ]
    where
      cached : Option (Slices × AiChatResponse)
      cached = do
        (used, found) ← get_slice hash cache (cache_key config request)
        elim found [
          | some reply ↦ some (used, answer (build_chat_body config request reply true) true 0)
          | none ↦ ask hash curl config request used (cache_key config request)
        ]

      of_found :
          (used : Slices) (found : Option Bytes)
          → chat hash curl tools world config cache request ≡ cached
          → get_slice hash cache (cache_key config request) ≡ some (used, found)
          → IsSliced used
          → (after : Slices) × (response : AiChatResponse) × (chat hash curl tools world config
                cache request
              ≡ some (after, response))
            × IsSliced after
      of_found used (some reply) is_cached ran h' = (
        used,
        answer (build_chat_body config request reply true) true 0,
        is_cached ∙ (rw ran refl),
        h',
      )
      of_found used none is_cached ran h' =
          let (after, response, ran', h'') =
            ask_total curl config request used (cache_key config request) h' in
          (after, response, is_cached ∙ (rw ran ran'), h'')
