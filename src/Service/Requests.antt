-- ===== src/Service/Requests.antt =====
-- Every text that comes in is answered.
use cpp_ai_service.Base.{
  ◌≡◌, refl, sym, subst, Option, some, Bytes, codes, Bool-cases, Option-cases, inl, inr,
}
use cpp_ai_service.HttpCodec.Json.{extract_json_string_field}
use cpp_ai_service.HttpCodec.Request.{HttpRequest, parse_http_request}
use cpp_ai_service.Lfu.Sliced.{IsSliced}
use cpp_ai_service.AiClient.Answers.{chat_total}
use cpp_ai_service.Service.State.{Service, Surroundings, RouteResult, non_empty_field, or_empty}
use cpp_ai_service.Service.Handlers.{
  is_post, world_of, handle_chat_request, handle_register_request, handle_login_request,
  handle_me_request, handle_rag_ingest_request, chat_result,
}
use cpp_ai_service.Service.Routes.{is_path, read_only_routes, handle_request, handle_raw_request}
use cpp_ai_service.Service.Accounts.{
  IsKept, IsUntouched, same-IsKept, nothing-IsUntouched, register-IsUntouched, login-IsUntouched,
  me-IsUntouched, ingest-IsUntouched,
}

-- What an answered request leaves: the replies in order, and every account as it was.
pub record IsAnswered (service after : Service) : Type 0 where
  pub in_order : IsSliced after.response_cache
  pub kept : IsKept service.users after.users

abbrev pub HasAnswer : Service → Option (Service × RouteResult) → Type 0
HasAnswer service end =
    (after : Service) × (result : RouteResult) × (end ≡ some (after, result))
    × IsAnswered service after

of_untouched :
    (service : Service) (end : Service × RouteResult)
    → IsSliced service.response_cache
    → IsUntouched service end.0
    → HasAnswer service (some end)
of_untouched service (after, result) h u =
    (after, result, refl, record { in_order = subst IsSliced (sym u.replies) h; kept = u.kept })

unchanged :
    (service : Service) (result : RouteResult)
    → IsSliced service.response_cache
    → HasAnswer service (some (service, result))
unchanged service result h = of_untouched service (service, result) h (nothing-IsUntouched service)

chat_answer :
    (around : Surroundings) (service : Service) (request : HttpRequest)
    → IsSliced service.response_cache
    → HasAnswer service (handle_chat_request around service request)
unfolding handle_chat_request
chat_answer around service request h = elim (Bool-cases (is_post request)) [
  | inr other ↦ rw (other, handle_chat_request) (unchanged service _ h)
  | inl post ↦ elim (Option-cases (non_empty_field request.body (codes "message"))) [
    | inl missing ↦ rw (post, missing, handle_chat_request) (unchanged service _ h)
    | inr (message, given) ↦
        let tool = or_empty (extract_json_string_field request.body (codes "tool")) in
        let (cache, response, ran, h') =
          chat_total around.hash around.curl (some service.tools) (world_of around service)
            service.config service.response_cache (record { message = message; tool = tool }) h in
        (
          record service { response_cache = cache },
          chat_result response,
          rw (post, given, handle_chat_request) (rw ran refl),
          record { in_order = h'; kept = same-IsKept service.users service.users refl },
        )
  ]
]

request_answer :
    (around : Surroundings) (service : Service) (request : HttpRequest) (client_id : Bytes)
    → IsSliced service.response_cache
    → HasAnswer service (handle_request around service request client_id)
unfolding handle_request
request_answer around service request client_id h =
    elim (Bool-cases (is_path request (codes "/auth/register"))) [
      | inl e ↦
          rw (e, handle_request)
            (of_untouched service (handle_register_request around service request client_id) h
              (register-IsUntouched around service request client_id))
      | inr e0 ↦ elim (Bool-cases (is_path request (codes "/auth/login"))) [
        | inl e ↦
            rw (e0, e, handle_request)
              (of_untouched service (handle_login_request around service request) h
                (login-IsUntouched around service request))
        | inr e1 ↦ elim (Bool-cases (is_path request (codes "/auth/me"))) [
          | inl e ↦
              rw (e0, e1, e, handle_request)
                (of_untouched service (handle_me_request around service request) h
                  (me-IsUntouched around service request))
          | inr e2 ↦ elim (Bool-cases (is_path request (codes "/chat"))) [
            | inl e ↦ rw (e0, e1, e2, e, handle_request) (chat_answer around service request h)
            | inr e3 ↦ elim (Bool-cases (is_path request (codes "/rag/ingest"))) [
              | inl e ↦
                  rw (e0, e1, e2, e3, e, handle_request)
                    (of_untouched service (handle_rag_ingest_request service request) h
                      (ingest-IsUntouched service request))
              | inr e4 ↦
                  rw (e0, e1, e2, e3, e4, handle_request)
                    (unchanged service (read_only_routes around service request) h)
            ]
          ]
        ]
      ]
    ]

-- On a service whose cache of replies is in order, every text, well formed or not, is answered,
-- whatever the disk, curl and the random numbers do. The cache is in order afterwards, and every
-- account is there as it was.
pub handle_raw_request_total :
    (around : Surroundings) (service : Service) (raw client_id : Bytes)
    → IsSliced service.response_cache
    → HasAnswer service (handle_raw_request around service raw client_id)
unfolding handle_raw_request
handle_raw_request_total around service raw client_id h =
    elim (Option-cases (parse_http_request raw)) [
      | inl bad ↦ rw (bad, handle_raw_request) (unchanged service _ h)
      | inr (request, good) ↦
          rw (good, handle_raw_request) (request_answer around service request client_id h)
    ]
