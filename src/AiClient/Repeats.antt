-- ===== src/AiClient/Repeats.antt =====
-- With the stub, a question that is asked twice in a row is answered from the cache.
use cpp_ai_service.Base.{
  ℕ, ◌≡◌, ◌∙◌, refl, Bool, true, false, Option, some, none, Bytes, is_empty, Option-cases, inl, inr,
}
use cpp_ai_service.Lfu.Slices.{Slices, get_slice}
use cpp_ai_service.Lfu.Recall.{IsOpen, value_at, put_slice_stores, get_slice_keeps}
use cpp_ai_service.Tools.Registry.{ToolRegistry, World}
use cpp_ai_service.AiClient.Config.{AiClientConfig, should_use_network_provider}
use cpp_ai_service.AiClient.Chat.{
  Curl, AiChatRequest, cache_key, ask, chat, make_stub_reply, build_chat_body, answer,
}

module _ (hash : Bytes → ℕ) (curl : Curl) (tools : Option ToolRegistry) (world : World)
    (config : AiClientConfig) (request : AiChatRequest)
    (stub : should_use_network_provider config ≡ false)
    (no_tool : is_empty request.tool ≡ true) where
  abbrev key : Bytes
  key = cache_key config request

  hit :
      (cache : Slices) (reply : Bytes)
      → IsOpen cache
      → value_at hash cache key ≡ some reply
      → (after : Slices) × (chat hash curl tools world config cache request
          ≡ some (after, answer (build_chat_body config request reply true) true 0))
        × IsOpen after
        × (value_at hash after key ≡ some reply)
  unfolding chat
  hit cache reply h at =
      let (after, ran, h', kept) = get_slice_keeps hash cache key h in
      let ran' : get_slice hash cache key ≡ some (after, some reply) = ran ∙ (rw at refl) in
      (after, rw no_tool (rw ran' refl), h', kept ∙ at)

  miss :
      (cache : Slices)
      → IsOpen cache
      → value_at hash cache key ≡ none
      → (after : Slices) × (chat hash curl tools world config cache request
          ≡ some (
            after,
            answer (build_chat_body config request (make_stub_reply request.message) false) false 0,
          ))
        × IsOpen after
        × (value_at hash after key ≡ some (make_stub_reply request.message))
  unfolding chat ask
  miss cache h at =
      let (used, ran, h', kept) = get_slice_keeps hash cache key h in
      let ran' : get_slice hash cache key ≡ some (used, none) = ran ∙ (rw at refl) in
      let (after, stored, h'', value) =
        put_slice_stores hash used key h' (make_stub_reply request.message) in
      (after, rw no_tool (rw ran' (rw stub (rw stored refl))), h'', value)

  -- Without a provider on the network and without a tool, on slices that are in order and have room,
  -- the same question asked twice in a row is answered twice, with one reply, the second time from
  -- the cache.
  pub chat_twice :
      (cache : Slices)
      → IsOpen cache
      → (reply : Bytes) × (was_hit : Bool) × (between : Slices) × (after : Slices) × (chat hash curl
            tools world config cache request
          ≡ some (between, answer (build_chat_body config request reply was_hit) was_hit 0))
        × (chat hash curl tools world config between request
            ≡ some (after, answer (build_chat_body config request reply true) true 0))
  chat_twice cache h = elim (Option-cases (value_at hash cache key)) [
    | inl new ↦
        let (between, ran, h', at) = miss cache h new in
        let (after, ran', _, _) = hit between (make_stub_reply request.message) h' at in
        (make_stub_reply request.message, false, between, after, ran, ran')
    | inr (reply, old) ↦
        let (between, ran, h', at) = hit cache reply h old in
        let (after, ran', _, _) = hit between reply h' at in
        (reply, true, between, after, ran, ran')
  ]
