-- ===== src/UserStore/Sessions.antt =====
-- src/UserStore.cc: `authenticateBearerToken` and `configJson`.
use cpp_ai_service.Base.{
  ℕ, true, not, [], ◌++◌, Option, none, some, Bytes, codes, leb, if◌then◌else◌, is_empty,
  starts_with, length, drop,
}
use cpp_ai_service.Base.Dictionary.{bytes_key, lookup, erase}
use cpp_ai_service.HttpCodec.Strings.{trim, decimal}
use cpp_ai_service.UserStore.State.{UserStore, AuthResult}
use cpp_ai_service.UserStore.Accounts.{refused}

abbrev pub bearer : Bytes
bearer = codes "Bearer "

-- The token that an `Authorization` header carries, or none where it must be refused.
unfoldable pub bearer_token : Bytes → Option Bytes
bearer_token header =
    let token = trim (drop (length bearer) header) in
    if not (starts_with bearer header) then none else if is_empty token then none else some token

unfoldable pub authenticate : UserStore → Bytes → ℕ → UserStore × AuthResult
authenticate store header now = elim (bearer_token header) [
  | none ↦ (store, refused (codes "missing bearer token"))
  | some token ↦ elim (lookup token store.sessions) [
    | none ↦ (store, refused (codes "invalid session token"))
    | some session ↦
        if leb session.expires_at now
        then (
          record store { sessions = erase token store.sessions },
          refused (codes "session token expired"),
        )
        else (store, record { ok = true; error = []; user = session.user; session = session })
  ]
]

unfoldable pub config_json : UserStore → Bytes
unfolding decimal
config_json store =
    codes "{\"user_count\":"
    ++ (decimal (length store.users)
        ++ (codes ",\"session_count\":"
            ++ (decimal (length store.sessions)
                ++ (codes ",\"invite_required\":"
                    ++ ((if is_empty store.invite_code then codes "false" else codes "true")
                        ++ (codes ",\"session_ttl_seconds\":"
                            ++ (decimal store.session_ttl_seconds
                                ++ (codes ",\"registration_limit_per_minute\":"
                                    ++ (decimal store.registration_limit_per_minute
                                        ++ codes ",\"password_hash\":\"demo_only_fnv1a\"}")))))))))
