-- ===== src/AiClient/Config.antt =====
-- src/AiClient.cc: `AiClientConfig::fromEnvironment`, the providers' defaults, `configJson`.
use cpp_ai_service.Base.{
  ℕ, suc, ◌-◌, ◌^◌, Bool, true, false, not, ◌||◌, ◌&&◌, [], ◌∷◌, ◌++◌, Option, none, some, Bytes,
  codes, ◌==◌, if◌then◌else◌, is_empty, same_bytes,
}
use cpp_ai_service.HttpCodec.Strings.{json_escape, decimal}
use cpp_ai_service.Environment.{
  ℤ, pos, negsuc, Environment, env_or_default, positive_env_or_default, first_env_value,
}

pub record AiClientConfig : Type 0 where
  pub provider : Bytes
  pub model : Bytes
  pub base_url : Bytes
  pub api_key : Bytes
  pub api_key_configured : Bool
  pub cache_capacity : ℤ
  pub request_timeout_seconds : ℤ

unfoldable pub default_base_url : Bytes → Bytes
default_base_url provider =
    if same_bytes provider (codes "deepseek")
    then codes "https://api.deepseek.com/v1"
    else if same_bytes provider (codes "openrouter")
    then codes "https://openrouter.ai/api/v1"
    else if same_bytes provider (codes "groq")
    then codes "https://api.groq.com/openai/v1"
    else if same_bytes provider (codes "ollama")
    then codes "http://127.0.0.1:11434/v1"
    else if same_bytes provider (codes "chatanywhere")
    then codes "https://api.chatanywhere.tech/v1"
    else codes "https://api.openai.com/v1"

unfoldable pub default_model : Bytes → Bytes
default_model provider =
    if same_bytes provider (codes "deepseek")
    then codes "deepseek-chat"
    else if same_bytes provider (codes "openrouter")
    then codes "openrouter/free"
    else if same_bytes provider (codes "groq")
    then codes "llama-3.1-8b-instant"
    else if same_bytes provider (codes "ollama")
    then codes "llama3.2"
    else if same_bytes provider (codes "chatanywhere")
    then codes "gpt-3.5-turbo"
    else if same_bytes provider (codes "openai") || same_bytes provider (codes "openai_compatible")
    then codes "gpt-4.1-mini"
    else codes "stub-local"

unfoldable pub provider_key_name : Bytes → Option Bytes
provider_key_name provider =
    if same_bytes provider (codes "deepseek")
    then some (codes "DEEPSEEK_API_KEY")
    else if same_bytes provider (codes "openrouter")
    then some (codes "OPENROUTER_API_KEY")
    else if same_bytes provider (codes "groq")
    then some (codes "GROQ_API_KEY")
    else if same_bytes provider (codes "chatanywhere")
    then some (codes "CHATANYWHERE_API_KEY")
    else none

unfoldable pub from_environment : Environment → AiClientConfig
from_environment env =
    let provider = env_or_default env (codes "CPP_AI_PROVIDER") (codes "stub") in
    let key =
      first_env_value env
        (some (codes "CPP_AI_API_KEY")
          ∷ some (codes "OPENAI_API_KEY")
          ∷ provider_key_name provider
          ∷ [])
        [] in
    record {
      provider = provider;
      model = env_or_default env (codes "CPP_AI_MODEL") (default_model provider);
      base_url = env_or_default env (codes "CPP_AI_BASE_URL") (default_base_url provider);
      api_key = key;
      api_key_configured = not (is_empty key);
      cache_capacity = positive_env_or_default env (codes "CPP_AI_CACHE_CAPACITY") 64;
      request_timeout_seconds = positive_env_or_default env (codes "CPP_AI_TIMEOUT_SECONDS") 20;
    }

-- `out << n` for an `int`.
unfoldable pub signed_decimal : ℤ → Bytes
signed_decimal (pos n) = decimal n
signed_decimal (negsuc n) = b'-' ∷ decimal (suc n)

-- The conversion of an `int` to `size_t`.
unfoldable pub to_size : ℤ → ℕ
to_size (pos n) = n
to_size (negsuc n) = 2 ^ 64 - 1 - n

abbrev pub bool_json : Bool → Bytes
bool_json true = codes "true"
bool_json false = codes "false"

unfoldable pub config_json : AiClientConfig → Bytes
config_json config =
    codes "{\"provider\":\""
    ++ (json_escape config.provider
        ++ (codes "\",\"model\":\""
            ++ (json_escape config.model
                ++ (codes "\",\"base_url\":\""
                    ++ (json_escape config.base_url
                        ++ (codes "\",\"api_key_configured\":"
                            ++ (bool_json config.api_key_configured
                                ++ (codes ",\"cache_capacity\":"
                                    ++ (signed_decimal config.cache_capacity
                                        ++ (codes ",\"timeout_seconds\":"
                                            ++ (signed_decimal config.request_timeout_seconds
                                                ++ codes "}")))))))))))

unfoldable pub should_use_network_provider : AiClientConfig → Bool
should_use_network_provider config =
    same_bytes config.provider (codes "openai")
    || same_bytes config.provider (codes "openai_compatible")
    || same_bytes config.provider (codes "deepseek")
    || same_bytes config.provider (codes "openrouter")
    || same_bytes config.provider (codes "groq")
    || same_bytes config.provider (codes "ollama")
    || same_bytes config.provider (codes "chatanywhere")

-- The slashes at the end are dropped.
unfoldable pub strip_trailing_slash : Bytes → Bytes
strip_trailing_slash [] = []
strip_trailing_slash (c ∷ s) =
    let rest = strip_trailing_slash s in if c == b'/' && is_empty rest then [] else c ∷ rest
