-- ===== src/Rag/Tokens.antt =====
-- src/RagStore.cc: `lowerCopy`, `tokenize`, `dotProduct`, `KeywordEmbeddingProvider::embed`. The
-- components of these vectors are counts, so that sums and products of doubles are exact and are
-- numbers here.
use mathlib.Core.List.{map}
use cpp_ai_service.Base.{
  ℕ, ◌+◌, ◌*◌, [], ◌∷◌, ◌++◌, List, Option, none, some, Bytes, codes, if◌then◌else◌, is_empty,
  is_alnum,
}
use cpp_ai_service.Base.Dictionary.{bytes_key, lookup, insert}
use cpp_ai_service.HttpCodec.Strings.{to_lower}

-- `tokens.push_back(current)`, unless the token is empty.
unfoldable pub push_token : List Bytes → Bytes → List Bytes
push_token tokens current = if is_empty current then tokens else tokens ++ current ∷ []

-- The loop of `tokenize` and the step behind it.
unfoldable pub scan_tokens : Bytes → List Bytes → Bytes → List Bytes
scan_tokens [] tokens current = push_token tokens current
scan_tokens (ch ∷ s) tokens current =
    let longer = scan_tokens s tokens (current ++ ch ∷ []) in
    let next = scan_tokens s (push_token tokens current) [] in if is_alnum ch then longer else next

-- `lowerCopy` is the code of `toLower`.
unfoldable pub tokenize : Bytes → List Bytes
tokenize text = scan_tokens (to_lower text) [] []

unfoldable pub dot_product : List ℕ → List ℕ → ℕ
dot_product [] right = 0
dot_product (x ∷ left) [] = 0
dot_product (x ∷ left) (y ∷ right) = x * y + dot_product left right

abbrev pub count_of : Option ℕ → ℕ
count_of none = 0
count_of (some n) = n

-- `counts[token] += 1` for each token.
unfoldable pub count_tokens : List Bytes → List (Bytes × ℕ) → List (Bytes × ℕ)
count_tokens [] counts = counts
count_tokens (token ∷ tokens) counts =
    count_tokens tokens (insert token (count_of (lookup token counts) + 1) counts)

abbrev pub vocabulary : List Bytes
vocabulary =
    codes "cpp"
    ∷ codes "service"
    ∷ codes "gateway"
    ∷ codes "chat"
    ∷ codes "tool"
    ∷ codes "mcp"
    ∷ codes "rag"
    ∷ codes "cache"
    ∷ codes "provider"
    ∷ codes "model"
    ∷ codes "http"
    ∷ codes "reactor"
    ∷ codes "poller"
    ∷ codes "supabase"
    ∷ codes "vector"
    ∷ []

unfoldable pub keyword_embed : Bytes → List ℕ
keyword_embed text =
    let counts = count_tokens (tokenize text) [] in
    map (λ word. count_of (lookup word counts)) vocabulary
