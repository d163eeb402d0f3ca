-- ===== src/Service/Accounts.antt =====
-- No request takes an account away, or changes its hash.
use cpp_ai_service.Base.{
  ℕ, ◌≡◌, ◌∙◌, refl, ap, some, Bytes, List, arith, codes, length, ltb, same_bytes, same_bytes_iff,
  Bool-cases, Option-cases, inl, inr,
}
use cpp_ai_service.Base.Dictionary.{bytes_key, lookup, lookup-insert}
use cpp_ai_service.HttpCodec.Request.{HttpRequest}
use cpp_ai_service.UserStore.State.{UserStore, StoredUser, AuthResult}
use cpp_ai_service.UserStore.Accounts.{login, create_session, new_user}
use cpp_ai_service.UserStore.Password.{demo_hash_password}
use cpp_ai_service.UserStore.Sessions.{authenticate}
use cpp_ai_service.UserStore.Outcome.{Registered, denied, stored, register_user-Registered}
use cpp_ai_service.Service.State.{Service, Surroundings, or_empty}
use cpp_ai_service.Service.Handlers.{
  is_post, is_get, body_limit, credentials, document_of, handle_register_request,
  handle_login_request, handle_me_request, handle_rag_ingest_request,
}

-- Every account of the first store is in the second one, as it was.
pub record IsKept (before after : UserStore) : Type 0 where
  pub accounts :
      (name : Bytes) (user : StoredUser)
      → lookup name before.users ≡ some user
      → lookup name after.users ≡ some user

pub same-IsKept : (before after : UserStore) → after.users ≡ before.users → IsKept before after
same-IsKept before after e = record { accounts = λ name user at. ap (lookup name) e ∙ at }

of_Registered :
    (before : UserStore) (username password : Bytes) (entropy : List ℕ)
    (end : UserStore × AuthResult)
    → Registered before username password entropy end
    → IsKept before end.0
of_Registered before username password entropy end (denied {after} error users sessions) =
    same-IsKept before after users
of_Registered before username password entropy end
      (stored {after} name_ok password_ok free users sessions result) =
    record {
      accounts = λ name user at.
          ap (lookup name) users
          ∙ lookup-insert username name (new_user username password entropy) before.users
          ∙ ground (arith, same_bytes_iff username name);
    }

login_keeps :
    (store : UserStore) (username password : Bytes) (now : ℕ) (entropy : List ℕ)
    → (login store username password now entropy).0.users ≡ store.users
unfolding login create_session
login_keeps store username password now entropy =
    elim (Option-cases (lookup username store.users)) [
      | inl e ↦ rw (e, login) refl
      | inr (user, e) ↦
          elim (Bool-cases
            (same_bytes (demo_hash_password user.salt password) user.password_hash)) [
              | inl good ↦ rw (e, good, login, create_session) refl
              | inr bad ↦ rw (e, bad, login) refl
            ]
    ]

authenticate_keeps :
    (store : UserStore) (header : Bytes) (now : ℕ)
    → (authenticate store header now).0.users ≡ store.users
unfolding authenticate
authenticate_keeps store header now = ground arith

-- What a handler leaves: the replies as they were, and every account.
pub record IsUntouched (service after : Service) : Type 0 where
  pub replies : after.response_cache ≡ service.response_cache
  pub kept : IsKept service.users after.users

pub nothing-IsUntouched : (service : Service) → IsUntouched service service
nothing-IsUntouched service = record {
  replies = refl;
  kept = same-IsKept service.users service.users refl;
}

pub register-IsUntouched :
    (around : Surroundings) (service : Service) (request : HttpRequest) (client_id : Bytes)
    → IsUntouched service (handle_register_request around service request client_id).0
unfolding handle_register_request
register-IsUntouched around service request client_id = elim (Bool-cases (is_post request)) [
  | inr other ↦ rw (other, handle_register_request) (nothing-IsUntouched service)
  | inl post ↦ elim (Bool-cases (ltb body_limit (length request.body))) [
    | inl long ↦ rw (post, long, handle_register_request) (nothing-IsUntouched service)
    | inr short ↦ elim (Option-cases (credentials request.body)) [
      | inl missing ↦
          rw (post, short, missing, handle_register_request) (nothing-IsUntouched service)
      | inr ((username, password), given) ↦
          rw (post, short, given, handle_register_request)
            (record {
              replies = refl;
              kept = of_Registered service.users username password around.entropy _ (
                  register_user-Registered around.disk service.users username password _ client_id
                    around.steady_now around.entropy);
            })
    ]
  ]
]

pub login-IsUntouched :
    (around : Surroundings) (service : Service) (request : HttpRequest)
    → IsUntouched service (handle_login_request around service request).0
unfolding handle_login_request
login-IsUntouched around service request = elim (Bool-cases (is_post request)) [
  | inr other ↦ rw (other, handle_login_request) (nothing-IsUntouched service)
  | inl post ↦ elim (Bool-cases (ltb body_limit (length request.body))) [
    | inl long ↦ rw (post, long, handle_login_request) (nothing-IsUntouched service)
    | inr short ↦ elim (Option-cases (credentials request.body)) [
      | inl missing ↦ rw (post, short, missing, handle_login_request) (nothing-IsUntouched service)
      | inr ((username, password), given) ↦
          rw (post, short, given, handle_login_request)
            (record {
              replies = refl;
              kept =
                  same-IsKept service.users _
                    (login_keeps service.users username password around.system_now around.entropy);
            })
    ]
  ]
]

pub me-IsUntouched :
    (around : Surroundings) (service : Service) (request : HttpRequest)
    → IsUntouched service (handle_me_request around service request).0
unfolding handle_me_request
me-IsUntouched around service request = elim (Bool-cases (is_get request)) [
  | inr other ↦ rw (other, handle_me_request) (nothing-IsUntouched service)
  | inl read ↦
      rw (read, handle_me_request)
        (record {
          replies = refl;
          kept = same-IsKept service.users _ (
              authenticate_keeps service.users
                (or_empty (lookup (codes "authorization") request.headers)) around.system_now);
        })
]

pub ingest-IsUntouched :
    (service : Service) (request : HttpRequest)
    → IsUntouched service (handle_rag_ingest_request service request).0
unfolding handle_rag_ingest_request
ingest-IsUntouched service request = elim (Bool-cases (is_post request)) [
  | inr other ↦ rw (other, handle_rag_ingest_request) (nothing-IsUntouched service)
  | inl post ↦ elim (Option-cases (document_of request.body)) [
    | inl missing ↦ rw (post, missing, handle_rag_ingest_request) (nothing-IsUntouched service)
    | inr (document, given) ↦
        rw (post, given, handle_rag_ingest_request)
          (record { replies = refl; kept = same-IsKept service.users service.users refl })
  ]
]
